-- ===== src/Coordinator/Tests.antt =====
-- Runs of the coordinator at concrete inputs.
use delibera_xyz.Prelude.{
  true, some, none, ◌≡◌, refl, String, List, [], ◌∷◌, ◌≤◌, ◌<◌, ◌+◌, ◌*◌, ◌↔◌, any, count, length,
  if◌then◌else◌,
}
use delibera_xyz.Json.{Json, num}
use delibera_xyz.Host.{Worker, ok, threw, type_error, try_catch}
use delibera_xyz.Ensue.Keys.{worker_keys}
use delibera_xyz.Coordinator.Submissions.{extract_worker_id}
use delibera_xyz.Coordinator.Submissions.Ids.{has_slash, extract_worker_id-worker_keys}
use delibera_xyz.Coordinator.Production.{Request, process_coordination}
use delibera_xyz.Coordinator.Production.Protocol.{ServesRequest}
use delibera_xyz.Coordinator.Production.Refines.{process_coordination-Serves}
use delibera_xyz.Coordinator.World.{world, world_runs, config, fresh, vote_for}
use delibera_xyz.Coordinator.Waiting.{
  worker_timeout, wait_fuel, wait_for_workers, read_results_with_retry,
}
use delibera_xyz.Coordinator.Names.{resolve_all, cache, store_name}
use delibera_xyz.Coordinator.Discovery.{get_active_workers}
use delibera_xyz.Coordinator.Dispatch.{trigger_workers, is_ironclaw, is_polling_worker}
use delibera_xyz.Coordinator.Contract.{
  local_start_coordination, local_record_worker_submissions, local_coordinator_resume,
}
use delibera_xyz.Coordinator.Aggregation.{aggregate_results, archive_proposal}
use delibera_xyz.Coordinator.Marks.{Mark, marks, Quiet}
use delibera_xyz.Coordinator.Marks.Loops.{wait_for_workers-Quiet}
use delibera_xyz.Coordinator.Tally.{approved, Count, decide_votes}
use delibera_xyz.Coordinator.Tally.Counts.{
  is_null, casts, expected_count, decide_votes-expected_count,
}
use delibera_xyz.Coordinator.Tally.Quorum.{
  approved_iff_majority, approved_iff_quorum, decide_votes-le,
}
use delibera_xyz.Coordinator.Rounds.{trigger_local_coordination}
use delibera_xyz.Coordinator.Rounds.Protocol.{KeepsProtocol}
use delibera_xyz.Coordinator.Rounds.Refines.{trigger_local_coordination-Ended}

abbrev statuses : List Mark → List String
statuses [] = []
statuses (Mark.status s ∷ ms) = s ∷ statuses ms
statuses (Mark.chain c ∷ ms) = "call" ∷ statuses ms

-- A round of two workers who vote for the proposal.
round_marks :
    statuses (marks (trigger_local_coordination world config "task" fresh).1.history)
    ≡ "completed" ∷ "call" ∷ "resuming" ∷ "aggregating" ∷ "call" ∷ "recording_submissions" ∷ "call"
      ∷ "monitoring" ∷ []
unfolding trigger_local_coordination try_catch get_active_workers trigger_workers is_ironclaw
    is_polling_worker local_start_coordination wait_for_workers read_results_with_retry
    local_record_worker_submissions aggregate_results decide_votes resolve_all cache store_name
    archive_proposal local_coordinator_resume
round_marks = refl

trigger_local_coordination-Ended_example :
    KeepsProtocol world "task" [] (trigger_local_coordination world config "task" fresh)
trigger_local_coordination-Ended_example =
    trigger_local_coordination-Ended world world_runs config "task" fresh

wait_for_workers-Quiet_example :
    Quiet (wait_for_workers world wait_fuel ("ann" ∷ "ben" ∷ []) worker_timeout)
wait_for_workers-Quiet_example = wait_for_workers-Quiet world world_runs ("ann" ∷ "ben" ∷ [])

abbrev ballots : List Json
ballots = vote_for ∷ vote_for ∷ []

abbrev counted : Count
counted = record { aggregated_value = 2; approved = 2; rejected = 0; decision = approved }

decided : decide_votes none 3 ballots ≡ ok counted
unfolding decide_votes
decided = refl

decided_by_quorum : decide_votes (some (num 2)) 3 ballots ≡ ok counted
unfolding decide_votes
decided_by_quorum = refl

decide_votes-expected_count_example :
    decide_votes none 3 ballots
    ≡ (if any is_null ballots then threw type_error else ok (expected_count none 3 ballots))
decide_votes-expected_count_example = decide_votes-expected_count none 3 ballots

approved_iff_majority_example : (approved ≡ approved) ↔ (3 < 2 * count (casts "Approved") ballots)
approved_iff_majority_example = approved_iff_majority 3 ballots decided refl

approved_iff_quorum_example : (approved ≡ approved) ↔ (2 ≤ count (casts "Approved") ballots)
approved_iff_quorum_example = approved_iff_quorum 2 3 ballots decided_by_quorum refl

decide_votes-le_example : 2 + 0 ≤ length ballots
decide_votes-le_example = decide_votes-le none 3 ballots decided

abbrev asked : Request
asked = record { task_config = "task"; config_hash = "hash" }

process_coordination-Serves_example :
    ServesRequest world 7 "hash" [] (process_coordination world config 7 asked fresh)
process_coordination-Serves_example =
    process_coordination-Serves world world_runs config 7 asked fresh

extract_worker_id-worker_keys_example :
    extract_worker_id (worker_keys "did:key:z6Mk").result ≡ "did:key:z6Mk"
unfolding has_slash
extract_worker_id-worker_keys_example = extract_worker_id-worker_keys "did:key:z6Mk" refl refl

abbrev poller : Worker
poller = record {
  account_id = "";
  worker_did = "ann";
  endpoint_url = some "ensue://a";
  cvm_id = none;
  registered_at = 0;
  is_active = true;
}

abbrev dead : Worker
dead = record poller { worker_did = "ben"; endpoint_url = some "http://b" }
