-- ===== src/Coordinator/Rounds.antt =====
-- triggerLocalCoordination of coordinator-agent/src/monitor/memory-monitor.ts: one round, from the
-- discovery of the workers to the settlement on the chain.
pub mod Protocol
pub mod Ways
pub mod Refines
use Prim.Native.String
use delibera_xyz.Prelude.{
  ℕ, String, Bool, true, false, Option, none, some, List, [], ◌∷◌, ◌++◌, map, length, take, ltb,
  if◌then◌else◌,
}
use delibera_xyz.Prelude.Text.{◌<>◌, is_empty}
use delibera_xyz.Json.{Json, str, strings, member, member?, truthy?, number_or}
use delibera_xyz.Ensue.Keys.{
  coordinator_status, coordinator_tally, coordinator_proposal_id, coordinator_snapshot_key,
  worker_keys, all_worker_result_keys,
}
use delibera_xyz.Host.{
  Env, Config, Worker, Submission, Event, Prog, pure, emit, try_catch, maybe, ◌>>=◌, ◌>>◌,
}
use delibera_xyz.Coordinator.Memory.{update_memory, clock}
use delibera_xyz.Coordinator.Discovery.{get_active_workers}
use delibera_xyz.Coordinator.Dispatch.{trigger_workers}
use delibera_xyz.Coordinator.Contract.{
  local_start_coordination, local_record_worker_submissions, local_coordinator_resume,
}
use delibera_xyz.Coordinator.Waiting.{
  worker_timeout, wait_fuel, wait_for_workers, read_results_with_retry,
}
use delibera_xyz.Coordinator.Submissions.{submissions}
use delibera_xyz.Coordinator.Tally.{TallyResult}
use delibera_xyz.Coordinator.Aggregation.{
  voting_config, tally_json, on_chain_json, aggregate_results, archive_proposal, worker_ids,
}

abbrev pub set_status : String → Prog (Unit {0})
set_status status = update_memory coordinator_status status

-- A round that ends without a tally.
abbrev give_up : String → Prog (Option TallyResult)
give_up status = do set_status status; pure none

module _ (E : Env) (c : Config) where
  -- The id of the proposal and the snapshot of its workers, in the shared memory.
  unfoldable pub note_proposal : List Worker → ℕ → Prog (Option ℕ)
  note_proposal active n = do
    update_memory coordinator_proposal_id (E.codec.decimal n)
    update_memory (coordinator_snapshot_key (E.codec.decimal n))
        (E.codec.stringify (strings (worker_ids active)))
    pure (some n)

  -- Step 4: the proposal on the chain.
  unfoldable pub start_proposal : String → List Worker → ℕ → Prog (Option ℕ)
  unfolding note_proposal
  start_proposal task active quorum =
      try_catch
        (do
          id ← local_start_coordination E task (length active) quorum
          maybe id (pure none) (note_proposal active))
        (pure none)

  -- Step 6: the submissions; their failure is passed over.
  unfoldable pub record_submissions : Option ℕ → List String → Prog (Unit {0})
  record_submissions none dids = pure tt
  record_submissions (some id) dids = do
    set_status "recording_submissions"
    results ← read_results_with_retry E (all_worker_result_keys dids)
    _ ←
        try_catch
          (local_record_worker_submissions E id
            (submissions E results (all_worker_result_keys dids)))
          (pure false)
    pure tt

  -- Step 7: the settlement, with the aggregate and without the workers' results.
  unfoldable pub settle : String → Option ℕ → TallyResult → Prog (Unit {0})
  settle task none tally = pure tt
  settle task (some id) tally = do
    set_status "resuming"
    let result = E.codec.stringify (on_chain_json tally id)
    _ ←
        try_catch (local_coordinator_resume E id result (E.sha256 task) (E.sha256 result))
          (pure false)
    pure tt

  -- `proposalId?.toString() ?? local-…`
  unfoldable pub archive_id : Option ℕ → Prog String
  archive_id none = do t ← clock E; pure ("local-" <> E.codec.decimal t)
  archive_id (some id) = pure (E.codec.decimal id)

  -- The two backups run on their own; only their start is the round's.
  unfoldable pub start_backups : String → Prog (Unit {0})
  start_backups pid =
      if c.vault_configured
      then (do emit (Event.backed_up pid) (λ h. tt); emit (Event.backed_up "ensue tree") (λ h. tt))
      else pure tt

  abbrev id_or_zero : Option ℕ → ℕ
  id_or_zero none = 0
  id_or_zero (some n) = n

  -- From the workers' last result on.
  unfoldable pub conclude : String → Option ℕ → List String → Prog (Option TallyResult)
  unfolding record_submissions archive_id start_backups settle
  conclude task id dids = do
    record_submissions id dids
    set_status "aggregating"
    tally ← aggregate_results E c (id_or_zero id)
    update_memory coordinator_tally (E.codec.stringify (tally_json tally))
    pid ← archive_id id
    archive_proposal E pid task tally dids
    start_backups pid
    settle task id tally
    set_status "completed"
    pure (some tally)

  -- From the start on the chain on, with the workers that were reached.
  unfoldable pub run_reached : String → ℕ → List Worker → Prog (Option TallyResult)
  unfolding start_proposal conclude
  run_reached task quorum reached = do
    id ← start_proposal task reached quorum
    done ← wait_for_workers E wait_fuel (worker_ids reached) worker_timeout
    if done then conclude task id (worker_ids reached) else give_up "failed"

  -- From the limit on the number of workers on.
  unfoldable pub run_active : String → List Worker → Prog (Option TallyResult)
  unfolding run_reached
  run_active task active =
      let voting = voting_config E (some task) in
      let least = number_or (member? "min_workers" voting) c.min_workers in
      if ltb (length active) least then give_up "idle" else (do
        set_status "monitoring"
        reached ← trigger_workers E c task active
        if ltb (length reached) least
            then give_up "idle"
            else run_reached task (number_or (member? "quorum" voting) 0) reached)

  unfoldable pub run_round : String → Prog (Option TallyResult)
  unfolding run_active
  run_round task = do
    workers ← get_active_workers E c
    if ltb (length workers) c.min_workers
        then give_up "idle"
        else run_active task (take c.max_workers workers)

  unfoldable pub trigger_local_coordination : String → Prog (Option TallyResult)
  unfolding run_round
  trigger_local_coordination task = try_catch (run_round task) (give_up "failed")
