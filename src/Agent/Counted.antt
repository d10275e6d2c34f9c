-- ===== src/Agent/Counted.antt =====
-- The worker's result (worker-agent/src/workers/task-handler.ts) as the coordinator reads it
-- (coordinator-agent/src/monitor/memory-monitor.ts).
use delibera_xyz.Prelude.{
  ℕ, suc, ◌+◌, ◌≡◌, refl, ◌∙◌, String, Bool, true, some, List, [], ◌∷◌, inl, inr, arith, map,
  length, count, All, Option-cases,
}
use delibera_xyz.Json.{Json, str, obj, Fields, truthy, member, member?}
use delibera_xyz.Host.{ok}
use delibera_xyz.Coordinator.Tally.{extract_vote, is_vote, count_votes}
use delibera_xyz.Agent.Services.{Services, AgentConfig}
use delibera_xyz.Agent.Work.{WorkResult, worker_result}
use delibera_xyz.Agent.Ballots.{IsDecision}
use delibera_xyz.Agent.Performed.{IsVote}

-- What a worker stores: its DID, its task, the result, the time and how long it took.
pub record Stored : Type 0 where
  pub did : String
  pub config : Json
  pub result : WorkResult
  pub at : String
  pub time : ℕ

extract_vote-obj :
    (fs : Fields) (v : Json)
    → member? "vote" (member "output" (obj fs)) ≡ some v
    → truthy v ≡ true
    → extract_vote (obj fs) ≡ ok (some v)
unfolding extract_vote
extract_vote-obj fs v e t = rw (e, t) refl

decision-truthy : (vote : String) → IsDecision vote → truthy (str vote) ≡ true
decision-truthy vote (inl e) = rw e refl
decision-truthy vote (inr e) = rw e refl

count_votes-approved :
    (a b : ℕ) (j : Json) (js : List Json) (vote : String)
    → extract_vote j ≡ ok (some (str vote))
    → vote ≡ "Approved"
    → count_votes a b (j ∷ js) ≡ count_votes (suc a) b js
unfolding count_votes
count_votes-approved a b j js vote e v = rw (e, count_votes, v) refl

count_votes-rejected :
    (a b : ℕ) (j : Json) (js : List Json) (vote : String)
    → extract_vote j ≡ ok (some (str vote))
    → vote ≡ "Rejected"
    → count_votes a b (j ∷ js) ≡ count_votes a (suc b) js
unfolding count_votes
count_votes-rejected a b j js vote e v = rw (e, count_votes, v) refl

module _ (V : Services) (c : AgentConfig) where
  abbrev pub json_of_stored : Stored → Json
  json_of_stored x = worker_result V c x.did x.config x.result x.at x.time

  output_vote :
      (x : Stored) (vote : String)
      → x.result.vote ≡ some (str vote)
      → member? "vote" (member "output" (json_of_stored x)) ≡ some (str vote)
  unfolding worker_result
  output_vote x vote h = elim (Option-cases (member "type" x.config)) [
    | inl e ↦ rw (e, h) refl
    | inr (t, e) ↦ rw (e, h) refl
  ]

  worker_result-extract_vote :
      (x : Stored) (h : IsVote x.result) → extract_vote (json_of_stored x) ≡ ok (some (str h.vote))
  unfolding worker_result
  worker_result-extract_vote x h =
      extract_vote-obj _ (str h.vote) (output_vote x h.vote h.voted)
        (decision-truthy h.vote h.decision)

  abbrev pub approves : Stored → Bool
  approves x = is_vote x.result.vote "Approved"

  -- Each of these holds a vote.
  abbrev pub AllVote : List Stored → Type 0
  AllVote xs = All (λ x. IsVote x.result) xs

  -- The coordinator counts the results of workers that voted as they voted, each once: what it adds to
  -- the votes for is the number of those who approved, and to the votes against that of the others.
  pub worker_results-count_votes :
      (yes_votes no_votes : ℕ) (xs : List Stored)
      → AllVote xs
      → (r : ℕ × ℕ) × (count_votes yes_votes no_votes (map json_of_stored xs) ≡ ok r)
        × (r.0 ≡ yes_votes + count approves xs)
        × (r.0 + r.1 ≡ yes_votes + no_votes + length xs)
  unfolding count_votes
  worker_results-count_votes yes_votes no_votes [] h =
      ((yes_votes, no_votes), refl, omega arith, omega arith)
  worker_results-count_votes yes_votes no_votes (x ∷ xs) h =
      let e = worker_result-extract_vote x h.0 in
      elim h.0.decision [
        | inl approved ↦
            let (r, counted, first, both) =
              worker_results-count_votes (suc yes_votes) no_votes xs h.1 in
            (
              r,
              count_votes-approved yes_votes no_votes (json_of_stored x) (map json_of_stored xs)
                    h.0.vote e approved
                  ∙ counted,
              rw (h.0.voted, approved) (omega (arith, first)),
              omega (arith, both),
            )
        | inr rejected ↦
            let (r, counted, first, both) =
              worker_results-count_votes yes_votes (suc no_votes) xs h.1 in
            (
              r,
              count_votes-rejected yes_votes no_votes (json_of_stored x) (map json_of_stored xs)
                    h.0.vote e rejected
                  ∙ counted,
              rw (h.0.voted, rejected) (omega (arith, first)),
              omega (arith, both),
            )
      ]
