-- ===== src/Agent/Tests.antt =====
-- Tasks of a worker at concrete inputs: the model approves, and has no proof to show.
use text.Mathlib.Text.{◌==◌}
use delibera_xyz.Prelude.{
  ℕ, ◌+◌, ◌≡◌, refl, String, true, false, Option, none, some, List, [], ◌∷◌, inl, inr, arith, map,
  length, count, if◌then◌else◌,
}
use delibera_xyz.Json.{Json, num, str, object}
use delibera_xyz.Host.{Outcome, ok, Event}
use delibera_xyz.Coordinator.Tally.{count_votes}
use delibera_xyz.Coordinator.World.{world, fresh}
use delibera_xyz.Agent.Services.{Services, completion, ToolCall, AgentConfig}
use delibera_xyz.Agent.Work.{WorkResult, execute_task, vote_value}
use delibera_xyz.Agent.Lifecycle.{poll_tick}
use delibera_xyz.Agent.Writes.{writes}
use delibera_xyz.Agent.Performed.{IsVote}
use delibera_xyz.Agent.Recorded.{Recorded, execute_task-Recorded}
use delibera_xyz.Agent.Polling.{Ticked, poll_tick-Ticked}
use delibera_xyz.Agent.Counted.{Stored, json_of_stored, approves, worker_results-count_votes}

abbrev ballot : Json
ballot = object (("vote", str "Approved") ∷ ("reasoning", str "it fits") ∷ [])

abbrev task : Json
task =
    object
      (("type", str "vote") ∷ ("parameters", object (("proposal", str "plant trees") ∷ [])) ∷ [])

abbrev parsed : String → Option Json
parsed s = if s == "ballot" then some ballot else (if s == "task" then some task else none)

abbrev answer : ToolCall
answer = record { type = "function"; arguments = "ballot" }

abbrev services : Services
services = record {
  env = record world {
    codec = record { parse = parsed; stringify = λ j. "text"; decimal = λ n. "7" };
    read = λ h k. if k == "coordination/tasks/did:a/status" then some "pending" else some "task";
  };
  manifesto = λ h. some (record { text = "be green"; hash = "00" });
  registered_worker = λ h did. none;
  identity = λ h. none;
  complete = λ h m. completion "" (some answer);
  agent_did = λ h. some "did:a";
  random = λ h n. 0;
  nonce = λ h. "00";
  encode = λ s. s;
  parse_int = λ s. some 7;
  type_error_message = "type error";
  syntax_error_message = λ s. "syntax error";
}

abbrev config : AgentConfig
config = record {
  near_ai_api_key = some "key";
  near_api_key = none;
  registry_contract_id = none;
  coordinator_did = none;
  worker_endpoint_url = none;
  port = none;
  has_storacha_key = true;
  display_name = none;
  has_account = false;
}

abbrev keys_of : List (String × String) → List String
keys_of ws = map (λ w. w.0) ws

written :
    keys_of (writes (execute_task services config (some "did:a") task fresh).1.history)
    ≡ "coordination/tasks/did:a/status" ∷ "coordination/tasks/did:a/timestamp"
      ∷ "coordination/tasks/did:a/result" ∷ "coordination/tasks/did:a/status" ∷ []
unfolding execute_task delibera_xyz.Host.◌>>=◌
written = refl

execute_task-Recorded_example :
    (execute_task services config (some "did:a") task fresh).0 ≡ ok tt
    × Recorded services config "did:a" task
        (writes fresh.history)
        (writes (execute_task services config (some "did:a") task fresh).1.history)
execute_task-Recorded_example = execute_task-Recorded services config "did:a" task fresh

poll_tick-Ticked_example :
    (poll_tick services config false (some "did:a") fresh).0 ≡ ok tt
    × Ticked services config "did:a" false
        (writes fresh.history)
        (writes (poll_tick services config false (some "did:a") fresh).1.history)
poll_tick-Ticked_example = poll_tick-Ticked services config "did:a" false fresh

abbrev vote_of : String → WorkResult
vote_of v = record {
  value = if v == "Approved" then num 1 else num 0;
  vote = some (str v);
  reasoning = some (str "it fits");
  verification_proof = none;
}

approved-IsVote : IsVote (vote_of "Approved")
unfolding vote_value
approved-IsVote = record {
  vote = "Approved";
  decision = inl refl;
  voted = refl;
  valued = refl;
  reason = "it fits";
  reasoned = refl;
  short = omega arith;
}

rejected-IsVote : IsVote (vote_of "Rejected")
unfolding vote_value
rejected-IsVote = record {
  vote = "Rejected";
  decision = inr refl;
  voted = refl;
  valued = refl;
  reason = "it fits";
  reasoned = refl;
  short = omega arith;
}

abbrev results : List Stored
results =
    record { did = "did:a"; config = task; result = vote_of "Approved"; at = "now"; time = 5 }
    ∷ record { did = "did:b"; config = task; result = vote_of "Rejected"; at = "now"; time = 6 }
    ∷ []

worker_results-count_votes_example :
    (r : ℕ × ℕ) × (count_votes 0 0 (map (json_of_stored services config) results) ≡ ok r)
    × (r.0 ≡ 0 + count (approves services config) results)
    × (r.0 + r.1 ≡ 0 + 0 + length results)
worker_results-count_votes_example =
    worker_results-count_votes services config 0 0 results (approved-IsVote, (rejected-IsVote, tt))
