-- ===== src/Coordinator/Contract.antt =====
-- The change calls of coordinator-agent/src/contract/local-contract.ts: localStartCoordination,
-- localRecordWorkerSubmissions and localCoordinatorResume. The view calls answer null on every error.
use text.Mathlib.Text.{◌==◌ as text_eq}
use delibera_xyz.Prelude.{
  ℕ, zero, suc, ◌-◌, String, Bool, true, false, not, ◌||◌, Option, none, some, List, any, ltb, ◌==◌,
  if◌then◌else◌,
}
use delibera_xyz.Prelude.Text.{includes, is_empty}
use delibera_xyz.Host.{
  Env, Event, Submission, Call, CallReply, accepted, rejected, Prog, pure, out_of_fuel, lift, emit,
  ◌>>=◌, ◌>>◌,
}
use delibera_xyz.Coordinator.Memory.{clock, sleep, call}

abbrev pub id_or_zero : Option ℕ → ℕ
id_or_zero none = 0
id_or_zero (some n) = n

-- Rounds of the polling loop: one for each 500 ms of the 8 s, and one to see that they are over.
abbrev pub start_fuel : ℕ
start_fuel = 17

abbrev pub timed_out : String → Bool
timed_out msg = includes "timeout" msg || includes "ETIMEDOUT" msg

-- `state === s`
abbrev is_state : Option String → String → Bool
is_state none s = false
is_state (some t) s = text_eq t s

abbrev is_final : Option String → Bool
is_final none = false
is_final (some t) = not (is_empty t)

-- `pending?.some(([id]) => id === proposalId)`
abbrev still_pending : ℕ → Option (List ℕ) → Bool
still_pending n none = false
still_pending n (some ids) = any (λ id. id == n) ids

module _ (E : Env) where
  abbrev pub view_proposal_id : Prog ℕ
  view_proposal_id =
      emit (Event.viewed "get_current_proposal_id") (λ h. id_or_zero (E.current_proposal_id h))

  -- The polling loop of localStartCoordination, up to 8 s after `start`.
  unfoldable pub poll_proposal_id : ℕ → ℕ → ℕ → Prog (Option ℕ)
  poll_proposal_id zero before start = lift out_of_fuel
  poll_proposal_id (suc fuel) before start = do
    t ← clock E
    if ltb (t - start) 8000
        then (do
          sleep 500
          after ← view_proposal_id
          if ltb before after then pure (some after) else poll_proposal_id fuel before start)
        else pure none

  -- The change call is not awaited, and its error is only logged.
  unfoldable pub local_start_coordination : String → ℕ → ℕ → Prog (Option ℕ)
  unfolding poll_proposal_id
  local_start_coordination task_config workers quorum = do
    before ← view_proposal_id
    _ ← call E (Call.start_coordination task_config workers quorum)
    start ← clock E
    poll_proposal_id start_fuel before start

  -- The answer to a call, with what follows if it timed out.
  abbrev pub after_call : Prog Bool → CallReply → Prog Bool
  after_call verify accepted = pure true
  after_call verify (rejected msg) = if timed_out msg then verify else pure false

  unfoldable pub verify_record : ℕ → Prog Bool
  verify_record id = do
    sleep 3000
    state ← emit (Event.viewed "get_proposal") (λ h. E.proposal_state h id)
    pure (is_state state "WorkersCompleted")

  unfoldable pub local_record_worker_submissions : ℕ → List Submission → Prog Bool
  unfolding includes verify_record
  local_record_worker_submissions id submissions = do
    reply ← call E (Call.record_worker_submissions id submissions)
    after_call (verify_record id) reply

  -- What is asked after a timeout of the resuming call.
  unfoldable pub verify_resume : ℕ → Prog Bool
  verify_resume id = do
    sleep 5000
    final ← emit (Event.viewed "get_finalized_coordination") (λ h. E.finalized h id)
    if is_final final then pure true else (do
      ids ← emit (Event.viewed "get_pending_coordinations") (λ h. E.pending h)
      pure (not (still_pending id ids)))

  unfoldable pub local_coordinator_resume : ℕ → String → String → String → Prog Bool
  unfolding includes verify_resume
  local_coordinator_resume id result config_hash result_hash = do
    reply ← call E (Call.coordinator_resume id result config_hash result_hash)
    after_call (verify_resume id) reply
