-- ===== src/Coordinator/Monitor.antt =====
-- checkLocalCoordination of coordinator-agent/src/monitor/memory-monitor.ts: it only reads, and logs
-- the statuses that it finds.
use text.Mathlib.Text.{◌==◌}
use delibera_xyz.Prelude.{
  String, Bool, true, ◌||◌, Option, none, some, List, [], map, if◌then◌else◌,
}
use delibera_xyz.Prelude.Text.{is_empty}
use delibera_xyz.Ensue.Keys.{
  coordinator_status, coordinator_proposal_id, coordinator_snapshot_key, worker_keys,
  all_worker_status_keys,
}
use delibera_xyz.Host.{Env, Config, Prog, pure, lift, maybe, ◌>>=◌}
use delibera_xyz.Coordinator.Memory.{read_memory, read_multiple}
use delibera_xyz.Coordinator.Discovery.{get_active_workers}
use delibera_xyz.Coordinator.Waiting.{status_or_unknown}
use delibera_xyz.Coordinator.Aggregation.{parse_given, snapshot_ids, worker_ids}
use delibera_xyz.Coordinator.Production.{is_none_left}

-- `!coordStatus || coordStatus === 'idle' || coordStatus === 'completed'`
abbrev is_at_rest : Option String → Bool
is_at_rest none = true
is_at_rest (some s) = is_empty s || s == "idle" || s == "completed"

module _ (E : Env) (c : Config) where
  -- The snapshot of the round's workers, if its id and its text are there.
  unfoldable pub snapshot_of_round : Prog (List String)
  unfolding snapshot_ids
  snapshot_of_round = do
    id ← read_memory E coordinator_proposal_id
    maybe id (pure []) (λ id. if is_empty id then pure [] else (do
      text ← read_memory E (coordinator_snapshot_key id)
      lift (snapshot_ids E (parse_given E text))))

  -- The statuses that are logged.
  unfoldable pub read_statuses : List String → Prog (List (String × String))
  read_statuses dids = do
    statuses ← read_multiple E (all_worker_status_keys dids)
    pure (map (λ did. (did, status_or_unknown (statuses (worker_keys did).status))) dids)

  unfoldable pub check_local_coordination : Prog (List (String × String))
  unfolding snapshot_of_round read_statuses
  check_local_coordination = do
    status ← read_memory E coordinator_status
    if is_at_rest status then pure [] else (do
      dids ← snapshot_of_round
      if is_none_left E c dids
          then (do ws ← get_active_workers E c; read_statuses (worker_ids ws))
          else read_statuses dids)
