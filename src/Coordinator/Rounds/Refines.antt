-- ===== src/Coordinator/Rounds/Refines.antt =====
-- The round of Coordinator/Rounds, step by step, against the state machine of
-- Coordinator/Rounds/Protocol.
use delibera_xyz.Prelude.{
  ℕ, ◌≡◌, refl, String, Bool, true, false, Option, none, some, List, ◌∷◌, arith, length, take, ltb,
}
use delibera_xyz.Host.{
  Env, ClockRuns, Config, Worker, Event, Call, accepted, rejected, CallReply, Outcome, ok, threw,
  out_of_fuel, Proc, Prog, pure, try_catch, ◌>>=◌,
}
use delibera_xyz.Coordinator.Memory.{call, clock}
use delibera_xyz.Coordinator.Marks.{Mark, marks, Quiet}
use delibera_xyz.Coordinator.Marks.Rules.{quiet_rules, Quiet-pure, Quiet-if}
use delibera_xyz.Coordinator.Marks.Parts.{get_active_workers-Quiet, trigger_workers-Quiet}
use delibera_xyz.Coordinator.Marks.Loops.{
  poll_proposal_id-QuietAt, wait_for_workers-Quiet, read_results_with_retry-Quiet,
}
use delibera_xyz.Coordinator.Marks.Concluding.{
  aggregate_results-Quiet, archive_proposal-Quiet, verify_record-Quiet, verify_resume-Quiet,
}
use delibera_xyz.Coordinator.Contract.{
  start_fuel, poll_proposal_id, local_start_coordination, timed_out, after_call, verify_record,
  local_record_worker_submissions, verify_resume, local_coordinator_resume,
}
use delibera_xyz.Coordinator.Tally.{TallyResult}
use delibera_xyz.Coordinator.Aggregation.{worker_ids}
use delibera_xyz.Coordinator.Rounds.{
  give_up, note_proposal, start_proposal, record_submissions, settle, archive_id, start_backups,
  conclude, run_reached, run_active, run_round, trigger_local_coordination,
}
use delibera_xyz.Coordinator.Rounds.Protocol.{
  Stage, begun, monitored, started, recording, recorded, aggregated, resumed, Reached, Ended,
  KeepsProtocol,
}
use delibera_xyz.Coordinator.Rounds.Ways.{
  Ways, Exactly, LedBy, Takes, Takes-pure, Takes-if, Takes-Quiet, Takes-try, Takes-maybe,
  Takes-bind, Takes-then, Takes-after, Takes-emit,
}

after_call-Quiet :
    (E : Env) (verify : Prog Bool) (reply : CallReply)
    → Quiet verify
    → Quiet (after_call E verify reply)
after_call-Quiet E verify accepted q = Quiet-pure true
after_call-Quiet E verify (rejected msg) q = Quiet-if (timed_out msg) _ _ q (Quiet-pure false)

-- A change call, with its answer and its failure.
change_call-Takes :
    (E : Env) (c : Call) (verify : Prog Bool) (ms : List Mark)
    → Quiet verify
    → Takes
        (Exactly Bool (Mark.chain c ∷ ms))
        ms
        (try_catch (call E c >>= λ reply. after_call E verify reply) (pure false))
change_call-Takes E c verify ms q =
    Takes-try _ (λ here. here ≡ Mark.chain c ∷ ms) ms _ _
      (Takes-emit _ ms _ _ _
        λ reply. Takes-Quiet _ _ _ (after_call-Quiet E verify reply q) (λ b. refl) refl)
      (λ here e. Takes-pure _ here false e)

module _ (E : Env) (c : Config) (clock_runs : ClockRuns E) (task : String) (past : List Mark) where
  abbrev Running : List Mark → Type 0
  Running ms = (stage : Stage) × Reached E task past stage ms

  abbrev OfRound : Ways (Option TallyResult)
  OfRound = ((λ result ms. Ended E task past result ms), Running)

  give_up-Takes :
      (status : String) (ms : List Mark)
      → Ended E task past none (Mark.status status ∷ ms)
      → Takes OfRound ms (give_up status)
  give_up-Takes status ms h = Takes-emit _ ms _ _ _ λ _. Takes-pure _ _ none h

  settle-Takes :
      (id : Option ℕ) (tally : TallyResult) (ms : List Mark)
      → Reached E task past (aggregated id) ms
      → Takes
          ((λ _ ms'. Ended E task past (some tally) (Mark.status "completed" ∷ ms')), Running)
          ms
          (settle E c task id tally)
  unfolding settle local_coordinator_resume
  settle-Takes none tally ms h = Takes-pure _ ms tt (Ended.complete_alone tally h)
  settle-Takes (some id) tally ms h = Takes-emit _ ms _ _ _ λ _.
      let there = Reached.resume_call id tally (Reached.resume_begin id h) in
      Takes-then _ _ _ _ _ (change_call-Takes E _ (verify_resume E id) _ (verify_resume-Quiet E id))
        (resumed tally, there) (λ _. Takes-pure _ _ tt (Ended.complete tally there))

  record_submissions-Takes :
      (id : Option ℕ) (dids : List String) (ms : List Mark)
      → Reached E task past started ms
      → Takes
          (
            (λ _ ms'. Reached E task past (aggregated id) (Mark.status "aggregating" ∷ ms')),
            Running,
          )
          ms
          (record_submissions E c id dids)
  unfolding record_submissions local_record_worker_submissions
  record_submissions-Takes none dids ms h = Takes-pure _ ms tt (Reached.aggregate_alone h)
  record_submissions-Takes (some id) dids ms h = Takes-emit _ ms _ _ _ λ _.
      let here = Reached.record_begin id h in
      Takes-after _ _ _ _ (read_results_with_retry-Quiet E _) (recording id, here)
        λ results.
          let there = Reached.record_call id results dids here in
          Takes-then _ _ _ _ _
            (change_call-Takes E _ (verify_record E id) _ (verify_record-Quiet E id))
            (recorded id, there) (λ _. Takes-pure _ _ tt (Reached.aggregate id there))

  archive_id-Quiet : (id : Option ℕ) → Quiet (archive_id E c id)
  unfolding archive_id
  archive_id-Quiet none = search quiet_rules
  archive_id-Quiet (some id) = Quiet-pure _

  start_backups-Quiet : (pid : String) → Quiet (start_backups E c pid)
  unfolding start_backups
  start_backups-Quiet pid = search quiet_rules

  conclude-Takes :
      (id : Option ℕ) (dids : List String) (ms : List Mark)
      → Reached E task past started ms
      → Takes OfRound ms (conclude E c task id dids)
  unfolding conclude
  conclude-Takes id dids ms h =
      Takes-bind _ _ ms _ _ (record_submissions-Takes id dids ms h)
        (λ _ ms' here. Takes-emit _ ms' _ _ _ λ _.
          let running : Running (Mark.status "aggregating" ∷ ms') = (aggregated id, here) in
          Takes-after _ _ _ _ (aggregate_results-Quiet E c _) running λ tally.
            Takes-emit _ _ _ _ _ λ _. Takes-after _ _ _ _ (archive_id-Quiet id) running λ pid.
              Takes-after _ _ _ _ (archive_proposal-Quiet E pid task tally dids) running λ _.
                Takes-after _ _ _ _ (start_backups-Quiet pid) running λ _.
                  Takes-bind _ _ _ _ _ (settle-Takes id tally _ here)
                    (λ _ ms'' done. Takes-emit _ ms'' _ _ _ λ _. Takes-pure _ _ _ done) (λ _ r. r))
        (λ _ r. r)

  poll-Quiet :
      (before : ℕ) → Quiet (clock E >>= λ start. poll_proposal_id E start_fuel before start)
  unfolding ◌>>=◌
  poll-Quiet before = record {
    at = λ s.
        poll_proposal_id-QuietAt E clock_runs 16 before _ _
          (omega (arith, clock_runs.forward Event.checked_clock s.history));
  }

  note_proposal-Quiet : (ws : List Worker) (id : ℕ) → Quiet (note_proposal E c ws id)
  unfolding note_proposal
  note_proposal-Quiet ws id = search quiet_rules depth 9

  start_proposal-Takes :
      (ws : List Worker) (quorum : ℕ) (ms : List Mark)
      → Takes
          (Exactly (Option ℕ) (Mark.chain (Call.start_coordination task (length ws) quorum) ∷ ms))
          ms
          (start_proposal E c task ws quorum)
  unfolding start_proposal local_start_coordination
  start_proposal-Takes ws quorum ms =
      let started_ms = Mark.chain (Call.start_coordination task (length ws) quorum) ∷ ms in
      Takes-try _ (λ here. here ≡ started_ms) ms _ _
        (Takes-then _ ms started_ms _ _
          (Takes-emit _ ms _ _ _ λ before.
            Takes-emit _ _ _ _ _ λ _. Takes-Quiet _ _ _ (poll-Quiet before) (λ _. refl) refl)
          refl
          (λ id.
            Takes-maybe _ _ id _ _ (Takes-pure _ _ none refl)
              (λ n. Takes-Quiet _ _ _ (note_proposal-Quiet ws n) (λ _. refl) refl)))
        (λ here e. Takes-pure _ here none e)

  run_reached-Takes :
      (quorum : ℕ) (ws : List Worker) (ms : List Mark)
      → Reached E task past monitored ms
      → Takes OfRound ms (run_reached E c task quorum ws)
  unfolding run_reached
  run_reached-Takes quorum ws ms h =
      let here = Reached.start (length ws) quorum h in
      Takes-then _ _ _ _ _ (start_proposal-Takes ws quorum ms) (started, here)
        λ id.
          Takes-after _ _ _ _ (wait_for_workers-Quiet E clock_runs (worker_ids ws)) (started, here)
            λ done.
              Takes-if _ _ done _ _ (conclude-Takes id (worker_ids ws) _ here)
                (give_up-Takes "failed" _ (Ended.fail started here))

  run_active-Takes :
      (ws : List Worker) (ms : List Mark)
      → Reached E task past begun ms
      → Takes OfRound ms (run_active E c task ws)
  unfolding run_active
  run_active-Takes ws ms h = Takes-if _ ms _ _ _ (give_up-Takes "idle" ms (Ended.idle h)) (
      Takes-emit _ ms _ _ _ λ _.
        let here = Reached.monitor h in
        Takes-after _ _ _ _ (trigger_workers-Quiet E c task ws) (monitored, here)
          λ reached.
            Takes-if _ _ _ _ _ (give_up-Takes "idle" _ (Ended.idle_later here))
              (run_reached-Takes _ reached _ here))

  run_round-Takes : Takes OfRound past (run_round E c task)
  unfolding run_round
  run_round-Takes =
      Takes-after _ past _ _ (get_active_workers-Quiet E c) (begun, Reached.begin)
        λ ws.
          Takes-if _ past (ltb (length ws) c.min_workers) _ _
            (give_up-Takes "idle" past (Ended.idle Reached.begin))
            (run_active-Takes (take c.max_workers ws) past Reached.begin)

  pub trigger_local_coordination-Takes :
      Takes
        ((λ result ms. Ended E task past result ms), (λ ms. ⊥))
        past
        (trigger_local_coordination E c task)
  unfolding trigger_local_coordination
  trigger_local_coordination-Takes = Takes-try _ Running past _ _ run_round-Takes (λ ms running.
      Takes-emit _ ms _ _ _ λ _. Takes-pure _ _ none (Ended.fail running.0 running.1))

keeps_protocol :
    (E : Env) (task : String) (past : List Mark) (r : Outcome (Option TallyResult) × Proc)
    → LedBy ((λ result ms. Ended E task past result ms), (λ ms. ⊥)) r
    → KeepsProtocol E task past r
keeps_protocol E task past (ok result, s) h = h
keeps_protocol E task past (threw p, s) h = h
keeps_protocol E task past (out_of_fuel, s) h = h

-- If the clock runs, a round returns a result from every state, without an exception and within the
-- fuel of its loops, and the marks that it leaves are those of a path through the state machine.
pub trigger_local_coordination-Ended :
    (E : Env) (clock_runs : ClockRuns E) (c : Config) (task : String) (s : Proc)
    → KeepsProtocol E task (marks s.history) (trigger_local_coordination E c task s)
trigger_local_coordination-Ended E clock_runs c task s =
    keeps_protocol E task (marks s.history) _
      ((trigger_local_coordination-Takes E c clock_runs task (marks s.history)).at s refl)
