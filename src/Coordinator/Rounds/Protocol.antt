-- ===== src/Coordinator/Rounds/Protocol.antt =====
-- What triggerLocalCoordination of coordinator-agent/src/monitor/memory-monitor.ts promises to those
-- who watch the coordinator's status and the chain: a state machine, independent of the code. A mark
-- is a write of the status or a change call on the chain, and the marks are the most recent first.
use delibera_xyz.Prelude.{ℕ, String, Option, none, some, List, ◌∷◌}
use delibera_xyz.Ensue.Keys.{all_worker_result_keys}
use delibera_xyz.Host.{Env, Call, Outcome, ok, threw, out_of_fuel, Proc}
use delibera_xyz.Coordinator.Marks.{Mark, marks}
use delibera_xyz.Coordinator.Submissions.{submissions}
use delibera_xyz.Coordinator.Tally.{TallyResult}
use delibera_xyz.Coordinator.Aggregation.{on_chain_json}

pub data Stage : Type 0 where
  begun monitored started : Stage
  recording recorded : ℕ → Stage
  aggregated : Option ℕ → Stage
  resuming : ℕ → Stage
  resumed : TallyResult → Stage

-- The round for `task` that began after the marks `past` has reached a stage, after the given marks.
pub data Reached (E : Env) (task : String) (past : List Mark) : Stage → List Mark → Type 0 where
  begin : Reached E task past begun past
  monitor :
      {ms : List Mark}
      → Reached E task past begun ms
      → Reached E task past monitored (Mark.status "monitoring" ∷ ms)
  start :
      {ms : List Mark} (workers quorum : ℕ)
      → Reached E task past monitored ms
      → Reached E task past started (Mark.chain (Call.start_coordination task workers quorum) ∷ ms)
  record_begin :
      {ms : List Mark} (id : ℕ)
      → Reached E task past started ms
      → Reached E task past (recording id) (Mark.status "recording_submissions" ∷ ms)
  record_call :
      {ms : List Mark} (id : ℕ) (results : String → Option String) (dids : List String)
      → Reached E task past (recording id) ms
      → Reached E task past (recorded id) (
          Mark.chain (
            Call.record_worker_submissions id (submissions E results (all_worker_result_keys dids)))
          ∷ ms)
  aggregate :
      {ms : List Mark} (id : ℕ)
      → Reached E task past (recorded id) ms
      → Reached E task past (aggregated (some id)) (Mark.status "aggregating" ∷ ms)
  aggregate_alone :
      {ms : List Mark}
      → Reached E task past started ms
      → Reached E task past (aggregated none) (Mark.status "aggregating" ∷ ms)
  resume_begin :
      {ms : List Mark} (id : ℕ)
      → Reached E task past (aggregated (some id)) ms
      → Reached E task past (resuming id) (Mark.status "resuming" ∷ ms)
  resume_call :
      {ms : List Mark} (id : ℕ) (tally : TallyResult)
      → Reached E task past (resuming id) ms
      → Reached E task past (resumed tally) (
          Mark.chain (
            Call.coordinator_resume id
              (E.codec.stringify (on_chain_json tally id))
              (E.sha256 task)
              (E.sha256 (E.codec.stringify (on_chain_json tally id))))
          ∷ ms)

-- The round is over, with its result.
pub data Ended (E : Env) (task : String) (past : List Mark)
    : Option TallyResult → List Mark → Type 0 where
  idle :
      {ms : List Mark}
      → Reached E task past begun ms
      → Ended E task past none (Mark.status "idle" ∷ ms)
  idle_later :
      {ms : List Mark}
      → Reached E task past monitored ms
      → Ended E task past none (Mark.status "idle" ∷ ms)
  fail :
      {ms : List Mark} (stage : Stage)
      → Reached E task past stage ms
      → Ended E task past none (Mark.status "failed" ∷ ms)
  complete :
      {ms : List Mark} (tally : TallyResult)
      → Reached E task past (resumed tally) ms
      → Ended E task past (some tally) (Mark.status "completed" ∷ ms)
  complete_alone :
      {ms : List Mark} (tally : TallyResult)
      → Reached E task past (aggregated none) ms
      → Ended E task past (some tally) (Mark.status "completed" ∷ ms)

-- A round returned a result, and did so along a path through the state machine.
abbrev pub KeepsProtocol : Env → String → List Mark → Outcome (Option TallyResult) × Proc → Type 0
KeepsProtocol E task past (ok result, s) = Ended E task past result (marks s.history)
KeepsProtocol E task past (threw p, s) = ⊥
KeepsProtocol E task past (out_of_fuel, s) = ⊥
