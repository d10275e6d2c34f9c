-- ===== src/Coordinator/Production.antt =====
-- processCoordination and resumeContractWithTally of
-- coordinator-agent/src/monitor/memory-monitor.ts: one coordination that the contract asked for. The
-- change calls go through coordinator-agent/src/contract/delibera-client.ts and resume-handler.ts, and
-- throw if they are rejected.
pub mod Protocol
pub mod Refines
use delibera_xyz.Prelude.{ℕ, String, Bool, true, false, List, [], ◌∷◌, if◌then◌else◌}
use delibera_xyz.Prelude.Text.{includes}
use delibera_xyz.Json.{strings}
use delibera_xyz.Ensue.Keys.{
  coordinator_tally, coordinator_proposal_id, coordinator_snapshot_key, all_worker_result_keys,
}
use delibera_xyz.Host.{
  Env, Config, Call, CallReply, accepted, rejected, error, Outcome, ok, threw, out_of_fuel, Proc,
  Event, Prog, pure, throw, lift, emit, ◌>>=◌, ◌>>◌,
}
use delibera_xyz.Coordinator.Memory.{update_memory, call}
use delibera_xyz.Coordinator.Discovery.{get_active_workers}
use delibera_xyz.Coordinator.Dispatch.{trigger_workers}
use delibera_xyz.Coordinator.Waiting.{
  worker_timeout, wait_fuel, wait_for_workers, read_results_with_retry,
}
use delibera_xyz.Coordinator.Submissions.{submissions}
use delibera_xyz.Coordinator.Tally.{TallyResult}
use delibera_xyz.Coordinator.Aggregation.{
  tally_json, on_chain_json, aggregate_results, archive_proposal, worker_ids,
}
use delibera_xyz.Coordinator.Rounds.{set_status, start_backups}

-- What the program uses of CoordinationRequest of shared/src/types.ts.
pub record Request : Type 0 where
  pub task_config : String
  pub config_hash : String

-- `catch (error) { cleanup; throw error; }`
abbrev pub cleaned_up : {A : Type 0} → Outcome A × Proc → Prog (Unit {0}) → Outcome A × Proc
cleaned_up (ok a, s) cleanup = (ok a, s)
cleaned_up (threw p, s) cleanup = (cleanup >> throw p) s
cleaned_up (out_of_fuel, s) cleanup = (out_of_fuel, s)

unfoldable pub rethrow_after : {A : Type 0} → Prog A → Prog (Unit {0}) → Prog A
unfolding ◌>>=◌
rethrow_after m cleanup s = cleaned_up (m s) cleanup

abbrev pub or_throw : CallReply → Prog (Unit {0})
or_throw accepted = pure tt
or_throw (rejected message) = throw (error message)

module _ (E : Env) where
  -- deliberaCall
  abbrev pub delibera_call : Call → Prog (Unit {0})
  delibera_call c = do reply ← call E c; or_throw reply

  unfoldable pub resume_contract_with_tally : ℕ → Request → TallyResult → Prog (Unit {0})
  resume_contract_with_tally id request tally = do
    set_status "resuming"
    let result = E.codec.stringify (on_chain_json tally id)
    delibera_call (Call.coordinator_resume id result request.config_hash (E.sha256 result))
    set_status "completed"

module _ (E : Env) (c : Config) where
  -- From the workers' last result on.
  unfoldable pub conclude_request : ℕ → Request → List String → Prog (Unit {0})
  unfolding resume_contract_with_tally
  conclude_request id request dids = do
    set_status "recording_submissions"
    results ← read_results_with_retry E (all_worker_result_keys dids)
    delibera_call E
        (Call.record_worker_submissions id (submissions E results (all_worker_result_keys dids)))
    set_status "aggregating"
    tally ← aggregate_results E c id
    update_memory coordinator_tally (E.codec.stringify (tally_json tally))
    archive_proposal E (E.codec.decimal id) request.task_config tally dids
    start_backups E c (E.codec.decimal id)
    resume_contract_with_tally E id request tally

  abbrev pub is_none_left : List String → Bool
  is_none_left [] = true
  is_none_left (did ∷ dids) = false

  unfoldable pub run_request : ℕ → Request → Prog (Unit {0})
  unfolding conclude_request
  run_request id request = do
    update_memory coordinator_proposal_id (E.codec.decimal id)
    active ← get_active_workers E c
    set_status "monitoring"
    reached ← trigger_workers E c request.task_config active
    let dids = worker_ids reached
    if is_none_left dids then set_status "failed" else (do
      update_memory (coordinator_snapshot_key (E.codec.decimal id))
          (E.codec.stringify (strings dids))
      done ← wait_for_workers E wait_fuel dids worker_timeout
      if done then conclude_request id request dids else set_status "failed")

  unfoldable pub process_coordination : ℕ → Request → Prog (Unit {0})
  unfolding rethrow_after run_request
  process_coordination id request = rethrow_after (run_request id request) (set_status "failed")

  -- `catch (error) { if (error.message.includes('No pending coordination')) return; throw error; }`;
  -- the messages of the engine's own errors do not include it.
  abbrev unless_none_pending : Outcome (Unit {0}) × Proc → Outcome (Unit {0}) × Proc
  unless_none_pending (threw (error message), s) =
      if includes "No pending coordination" message then (ok tt, s) else (threw (error message), s)
  unless_none_pending r = r

  -- The oldest request first, if there is one.
  abbrev process_first : Outcome (List (ℕ × Request)) → Prog (Unit {0})
  process_first (ok []) = pure tt
  process_first (ok ((id, request) ∷ rest)) = process_coordination id request
  process_first (threw p) = throw p
  process_first out_of_fuel = lift out_of_fuel

  -- checkAndCoordinate; `answer` is what deliberaView('get_pending_coordinations') returns or throws.
  unfoldable pub check_and_coordinate : Outcome (List (ℕ × Request)) → Prog (Unit {0})
  unfolding process_coordination includes
  check_and_coordinate answer s =
      unless_none_pending
        ((do _ ← emit (Event.viewed "get_pending_coordinations") (λ h. tt); process_first answer) s)
