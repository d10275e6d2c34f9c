-- ===== src/X402/Agreement.antt =====
-- The record of a deliberation after the end of its coordination, and the answers of the two endpoints
-- (coordinator-agent/src/x402/x402-deliberate.ts and x402-verdict.ts).
use delibera_xyz.Prelude.{
  ℕ, ◌≡◌, refl, Bool, true, false, if◌then◌else◌, String, Option, none, some, List,
}
use delibera_xyz.Host.{Env, ClockRuns, Config, Problem, Outcome, ok, threw, out_of_fuel, Proc}
use delibera_xyz.Coordinator.Tally.{TallyResult}
use delibera_xyz.Coordinator.Marks.{Mark, marks}
use delibera_xyz.Coordinator.Rounds.{trigger_local_coordination}
use delibera_xyz.Coordinator.Rounds.Protocol.{KeepsProtocol}
use delibera_xyz.Coordinator.Rounds.Refines.{trigger_local_coordination-Ended}
use delibera_xyz.X402.Store.{
  completed, failed, VerdictRecord, Store, get_record, Updates, no_updates, merge, put, updated,
  update_record,
}
use delibera_xyz.X402.StoreLaws.{get_record-put_same}
use delibera_xyz.X402.Deliberate.{run_deliberation, deliberate_response, null_tally}
use delibera_xyz.X402.Verdict.{record_response, verdict_response}

-- What the record of a deliberation holds after its end.
abbrev pub Settled : Option TallyResult → VerdictRecord → Type 0
Settled none r = r.status ≡ failed × r.error ≡ some null_tally
Settled (some tally) r =
    r.status ≡ completed × r.verdict ≡ some tally × r.near_proposal_id ≡ some tally.proposal_id

abbrev code_of : Option TallyResult → ℕ
code_of none = 422
code_of (some tally) = 200

-- The deliberation `id`, recorded as `r0`, has ended with a result: both answers have its code, and
-- the record that is stored is the one that the waiting buyer is shown.
abbrev pub Answered :
    (iso : ℕ → String) (window id : String) (r0 : VerdictRecord) (result : Option TallyResult)
    (end : Option VerdictRecord × Store)
    → Type 0
Answered iso window id r0 result end =
    (r : VerdictRecord) × (end.0 ≡ some r)
    × (get_record id end.1 ≡ some r)
    × Settled result r
    × ((deliberate_response iso window r0 end.0).code ≡ code_of result)
    × ((verdict_response iso id end.1).code ≡ code_of result)

update_record-some :
    (id : String) (u : Updates) (now : ℕ) (m : Store) (r : VerdictRecord)
    → get_record id m ≡ some r
    → update_record id u now m ≡ (some (updated now u r), put id (updated now u r) m)
unfolding update_record
update_record-some id u now m r e = rw (e, update_record) refl

module _ (iso : ℕ → String) (window id : String) where
  completed-code :
      (r0 r : VerdictRecord)
      → r.status ≡ completed
      → ((deliberate_response iso window r0 (some r)).code ≡ 200)
        × ((record_response iso r).code ≡ 200)
  unfolding deliberate_response record_response
  completed-code r0 r e = (rw e refl, rw e refl)

  failed-code :
      (r0 r : VerdictRecord)
      → r.status ≡ failed
      → ((deliberate_response iso window r0 (some r)).code ≡ 422)
        × ((record_response iso r).code ≡ 422)
  unfolding deliberate_response record_response
  failed-code r0 r e = (rw e refl, rw e refl)

  verdict_response-put :
      (r : VerdictRecord) (m : Store) → verdict_response iso id (put id r m) ≡ record_response iso r
  unfolding verdict_response
  verdict_response-put r m = rw (get_record-put_same id r m, verdict_response) refl

if-field :
    {A : Type 0} (f : VerdictRecord → A) (b : Bool) (q : VerdictRecord) (t : Option ℕ)
    → ((q : VerdictRecord) (t : Option ℕ) → f (record q { completed_at = t }) ≡ f q)
    → f (if b then record q { completed_at = t } else q) ≡ f q
if-field f true q t h = h q t
if-field f false q t h = refl

-- An update sets nothing but the time of the end beside its own fields.
updated-field :
    {A : Type 0} (f : VerdictRecord → A) (now : ℕ) (u : Updates) (r : VerdictRecord)
    → ((q : VerdictRecord) (t : Option ℕ) → f (record q { completed_at = t }) ≡ f q)
    → f (updated now u r) ≡ f (merge r u)
unfolding updated
updated-field f now u r h = if-field f _ (merge r u) (some now) h

module _ (message : Problem → String) (iso : ℕ → String) (window id : String) where
  run_deliberation-Answered :
      (result : Option TallyResult) (now : ℕ) (m : Store) (r0 : VerdictRecord)
      → get_record id m ≡ some r0
      → Answered iso window id r0 result (run_deliberation message id (ok result) now m)
  unfolding run_deliberation
  run_deliberation-Answered none now m r0 h =
      let u = record no_updates { status = some failed; error = some null_tally } in
      let r = updated now u r0 in
      let e : r.status ≡ failed = updated-field (λ q. q.status) now u r0 (λ q t. refl) in
      let g : r.error ≡ some null_tally = updated-field (λ q. q.error) now u r0 (λ q t. refl) in
      let codes = failed-code iso window id r0 r e in
      let answer : (verdict_response iso id (put id r m)).code ≡ 422 =
        rw (verdict_response-put iso window id r m) codes.1 in
      rw (update_record-some id u now m r0 h)
        (r, refl, get_record-put_same id r m, (e, g), codes.0, answer)
  run_deliberation-Answered (some tally) now m r0 h =
      let u = record no_updates {
        status = some completed;
        verdict = some tally;
        near_proposal_id = some tally.proposal_id;
      } in
      let r = updated now u r0 in
      let e : r.status ≡ completed = updated-field (λ q. q.status) now u r0 (λ q t. refl) in
      let v : r.verdict ≡ some tally = updated-field (λ q. q.verdict) now u r0 (λ q t. refl) in
      let n : r.near_proposal_id ≡ some tally.proposal_id =
        updated-field (λ q. q.near_proposal_id) now u r0 (λ q t. refl) in
      let codes = completed-code iso window id r0 r e in
      let answer : (verdict_response iso id (put id r m)).code ≡ 200 =
        rw (verdict_response-put iso window id r m) codes.1 in
      rw (update_record-some id u now m r0 h)
        (r, refl, get_record-put_same id r m, (e, v, n), codes.0, answer)

-- The result of an outcome that is one.
returned :
    (E : Env) (task : String) (past : List Mark) (ran : Outcome (Option TallyResult) × Proc)
    → KeepsProtocol E task past ran
    → (result : Option TallyResult) × (ran.0 ≡ ok result)
returned E task past (ok result, s) h = (result, refl)
returned E task past (threw p, s) h = absurd h
returned E task past (out_of_fuel, s) h = absurd h

-- If the clock runs, the coordination of a recorded deliberation ends with a result, from every state
-- of the process; after it the record is terminal and holds the result, and the handler that waited
-- and the handler that is asked later answer with the same code, 200 with a tally and 422 without.
pub trigger-Answered :
    (E : Env) (clock_runs : ClockRuns E) (c : Config) (message : Problem → String)
    (window id task : String) (s : Proc) (now : ℕ) (m : Store) (r0 : VerdictRecord)
    → get_record id m ≡ some r0
    → (result : Option TallyResult) × ((trigger_local_coordination E c task s).0 ≡ ok result)
      × Answered E.iso window id r0 result
          (run_deliberation message id (trigger_local_coordination E c task s).0 now m)
trigger-Answered E clock_runs c message window id task s now m r0 h =
    let (result, e) =
      returned E task (marks s.history) _
        (trigger_local_coordination-Ended E clock_runs c task s) in
    (result, e, rw e (run_deliberation-Answered message E.iso window id result now m r0 h))
