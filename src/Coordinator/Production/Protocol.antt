-- ===== src/Coordinator/Production/Protocol.antt =====
-- What processCoordination of coordinator-agent/src/monitor/memory-monitor.ts promises to those who
-- watch the coordinator's status and the chain: a state machine, independent of the code, over the
-- marks of a history, the most recent first.
use delibera_xyz.Prelude.{ℕ, String, Bool, true, false, Option, List, ◌∷◌}
use delibera_xyz.Ensue.Keys.{all_worker_result_keys}
use delibera_xyz.Host.{Env, Call, Outcome, ok, threw, out_of_fuel, Proc}
use delibera_xyz.Coordinator.Marks.{Mark, marks}
use delibera_xyz.Coordinator.Submissions.{submissions}
use delibera_xyz.Coordinator.Tally.{TallyResult}
use delibera_xyz.Coordinator.Aggregation.{on_chain_json}

pub data Phase : Type 0 where
  taken monitored recording recorded aggregated resuming resumed : Phase

-- The request `id` with the given hash of its configuration has reached a phase.
pub data At (E : Env) (id : ℕ) (config_hash : String) (past : List Mark)
    : Phase → List Mark → Type 0 where
  take_up : At E id config_hash past taken past
  monitor :
      {ms : List Mark}
      → At E id config_hash past taken ms
      → At E id config_hash past monitored (Mark.status "monitoring" ∷ ms)
  record_begin :
      {ms : List Mark}
      → At E id config_hash past monitored ms
      → At E id config_hash past recording (Mark.status "recording_submissions" ∷ ms)
  record_call :
      {ms : List Mark} (results : String → Option String) (dids : List String)
      → At E id config_hash past recording ms
      → At E id config_hash past recorded (
          Mark.chain (
            Call.record_worker_submissions id (submissions E results (all_worker_result_keys dids)))
          ∷ ms)
  aggregate :
      {ms : List Mark}
      → At E id config_hash past recorded ms
      → At E id config_hash past aggregated (Mark.status "aggregating" ∷ ms)
  resume_begin :
      {ms : List Mark}
      → At E id config_hash past aggregated ms
      → At E id config_hash past resuming (Mark.status "resuming" ∷ ms)
  resume_call :
      {ms : List Mark} (tally : TallyResult)
      → At E id config_hash past resuming ms
      → At E id config_hash past resumed (
          Mark.chain (
            Call.coordinator_resume id
              (E.codec.stringify (on_chain_json tally id))
              config_hash
              (E.sha256 (E.codec.stringify (on_chain_json tally id))))
          ∷ ms)

-- The request is done with: `true` where the handler returned, `false` where it threw.
pub data Served (E : Env) (id : ℕ) (config_hash : String) (past : List Mark)
    : Bool → List Mark → Type 0 where
  complete :
      {ms : List Mark}
      → At E id config_hash past resumed ms
      → Served E id config_hash past true (Mark.status "completed" ∷ ms)
  give_up :
      {ms : List Mark}
      → At E id config_hash past monitored ms
      → Served E id config_hash past true (Mark.status "failed" ∷ ms)
  fail :
      {ms : List Mark} (phase : Phase)
      → At E id config_hash past phase ms
      → Served E id config_hash past false (Mark.status "failed" ∷ ms)

-- The handler ended along a path through the state machine.
abbrev pub ServesRequest : Env → ℕ → String → List Mark → Outcome (Unit {0}) × Proc → Type 0
ServesRequest E id config_hash past (ok u, s) = Served E id config_hash past true (marks s.history)
ServesRequest E id config_hash past (threw p, s) =
    Served E id config_hash past false (marks s.history)
ServesRequest E id config_hash past (out_of_fuel, s) = ⊥
