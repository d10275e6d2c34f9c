-- ===== src/Coordinator/Production/Refines.antt =====
-- The handler of Coordinator/Production, step by step, against the state machine of
-- Coordinator/Production/Protocol.
use delibera_xyz.Prelude.{ℕ, refl, sym, subst, String, true, List, ◌∷◌, if◌then◌else◌}
use delibera_xyz.Host.{
  Env, ClockRuns, Config, Call, accepted, rejected, error, CallReply, Outcome, ok, threw,
  out_of_fuel, Proc, emit, ◌>>=◌, ◌>>◌,
}
use delibera_xyz.Coordinator.Marks.{Mark, marks, Quiet}
use delibera_xyz.Coordinator.Marks.Rules.{quiet_rules, Quiet-pure, Quiet-throw}
use delibera_xyz.Coordinator.Marks.Parts.{get_active_workers-Quiet, trigger_workers-Quiet}
use delibera_xyz.Coordinator.Marks.Loops.{wait_for_workers-Quiet, read_results_with_retry-Quiet}
use delibera_xyz.Coordinator.Marks.Concluding.{aggregate_results-Quiet, archive_proposal-Quiet}
use delibera_xyz.Json.{strings}
use delibera_xyz.Ensue.Keys.{coordinator_snapshot_key}
use delibera_xyz.Coordinator.Memory.{update_memory}
use delibera_xyz.Coordinator.Waiting.{worker_timeout, wait_fuel, wait_for_workers}
use delibera_xyz.Coordinator.Tally.{TallyResult}
use delibera_xyz.Coordinator.Aggregation.{worker_ids}
use delibera_xyz.Coordinator.Rounds.{set_status, start_backups}
use delibera_xyz.Coordinator.Rounds.Ways.{
  Ways, Exactly, LedBy, Takes, Takes-if, Takes-Quiet, Takes-then, Takes-after, Takes-emit,
}
use delibera_xyz.Coordinator.Production.{
  Request, cleaned_up, or_throw, delibera_call, resume_contract_with_tally, conclude_request,
  is_none_left, run_request, process_coordination,
}
use delibera_xyz.Coordinator.Production.Protocol.{
  Phase, taken, monitored, recording, recorded, aggregated, resumed, At, Served, ServesRequest,
}

or_throw-Quiet : (E : Env) (reply : CallReply) → Quiet (or_throw reply)
or_throw-Quiet E accepted = Quiet-pure tt
or_throw-Quiet E (rejected message) = Quiet-throw (error message)

delibera_call-Takes :
    (E : Env) (c : Call) (ms : List Mark)
    → Takes (Exactly (Unit {0}) (Mark.chain c ∷ ms)) ms (delibera_call E c)
delibera_call-Takes E c ms =
    Takes-emit _ ms _ _ _ λ reply. Takes-Quiet _ _ _ (or_throw-Quiet E reply) (λ _. refl) refl

module _ (E : Env) (c : Config) (clock_runs : ClockRuns E) (id : ℕ) (request : Request)
    (past : List Mark) where
  abbrev Phased : List Mark → Type 0
  Phased ms = (phase : Phase) × At E id request.config_hash past phase ms

  abbrev OfRequest : Ways (Unit {0})
  OfRequest = ((λ _ ms. Served E id request.config_hash past true ms), Phased)

  set_status-Takes :
      (status : String) (ms : List Mark)
      → Served E id request.config_hash past true (Mark.status status ∷ ms)
      → Takes OfRequest ms (set_status status)
  unfolding emit
  set_status-Takes status ms h = record {
    at = λ s e.
        subst (λ here. Served E id request.config_hash past true (Mark.status status ∷ here))
          (sym e) h;
  }

  resume-Takes :
      (tally : TallyResult) (ms : List Mark)
      → At E id request.config_hash past aggregated ms
      → Takes OfRequest ms (resume_contract_with_tally E id request tally)
  unfolding resume_contract_with_tally
  resume-Takes tally ms h = Takes-emit _ ms _ _ _ λ _.
      let there = At.resume_call tally (At.resume_begin h) in
      Takes-then _ _ _ _ _ (delibera_call-Takes E _ _) (resumed, there)
        λ _. set_status-Takes "completed" _ (Served.complete there)

  start_backups-Quiet : (pid : String) → Quiet (start_backups E c pid)
  unfolding start_backups
  start_backups-Quiet pid = search quiet_rules

  conclude_request-Takes :
      (dids : List String) (ms : List Mark)
      → At E id request.config_hash past monitored ms
      → Takes OfRequest ms (conclude_request E c id request dids)
  unfolding conclude_request
  conclude_request-Takes dids ms h = Takes-emit _ ms _ _ _ λ _.
      let here = At.record_begin h in
      Takes-after _ _ _ _ (read_results_with_retry-Quiet E _) (recording, here)
        λ results.
          let there = At.record_call results dids here in
          Takes-then _ _ _ _ _ (delibera_call-Takes E _ _) (recorded, there)
            λ _. Takes-emit _ _ _ _ _ λ _.
              let found = At.aggregate there in
              Takes-after _ _ _ _ (aggregate_results-Quiet E c id) (aggregated, found)
                λ tally. Takes-emit _ _ _ _ _ λ _.
                  Takes-after _ _ _ _ (archive_proposal-Quiet E _ _ tally dids) (aggregated, found)
                    λ _.
                      Takes-after _ _ _ _ (start_backups-Quiet _) (aggregated, found)
                        λ _. resume-Takes tally _ found

  wait-Takes :
      (dids : List String) (ms : List Mark)
      → At E id request.config_hash past monitored ms
      → Takes OfRequest ms (do
        update_memory
            (coordinator_snapshot_key (E.codec.decimal id))
            (E.codec.stringify (strings dids))
        done ← wait_for_workers E wait_fuel dids worker_timeout
        if done then conclude_request E c id request dids else set_status "failed")
  wait-Takes dids ms h =
      Takes-after _ ms _ _ (search quiet_rules) (monitored, h)
        λ _.
          Takes-after _ ms _ _ (wait_for_workers-Quiet E clock_runs dids) (monitored, h)
            λ done.
              Takes-if _ ms done _ _ (conclude_request-Takes dids ms h)
                (set_status-Takes "failed" ms (Served.give_up h))

  run_request-Takes : Takes OfRequest past (run_request E c id request)
  unfolding run_request
  run_request-Takes = Takes-emit _ past _ _ _ λ _.
      Takes-after _ past _ _ (get_active_workers-Quiet E c) (taken, At.take_up)
        λ active. Takes-emit _ past _ _ _ λ _.
          let here = At.monitor At.take_up in
          Takes-after _ _ _ _ (trigger_workers-Quiet E c request.task_config active)
            (monitored, here)
            λ reached.
              Takes-if _ _ (is_none_left E c (worker_ids reached)) _ _
                (set_status-Takes "failed" _ (Served.give_up here))
                (wait-Takes (worker_ids reached) _ here)

  rethrown-Serves :
      (r : Outcome (Unit {0}) × Proc)
      → LedBy OfRequest r
      → ServesRequest E id request.config_hash past (cleaned_up r (set_status "failed"))
  unfolding ◌>>=◌
  rethrown-Serves (ok u, s) h = h
  rethrown-Serves (threw p, s) h = Served.fail h.0 h.1
  rethrown-Serves (out_of_fuel, s) h = h

-- If the clock runs, processCoordination ends from every state, within the fuel of its loops, and the
-- statuses and chain calls that it leaves are those of a path through the state machine: it returns
-- with "completed" only after both calls on the chain, or gives up with "failed" before the first; it
-- throws only after it has set "failed".
pub process_coordination-Serves :
    (E : Env) (clock_runs : ClockRuns E) (c : Config) (id : ℕ) (request : Request) (s : Proc)
    → ServesRequest E id request.config_hash
        (marks s.history)
        (process_coordination E c id request s)
unfolding process_coordination
process_coordination-Serves E clock_runs c id request s =
    rethrown-Serves E c clock_runs id request (marks s.history) _
      ((run_request-Takes E c clock_runs id request (marks s.history)).at s refl)
