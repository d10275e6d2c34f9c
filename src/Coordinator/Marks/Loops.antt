-- ===== src/Coordinator/Marks/Loops.antt =====
-- The loops of a round and the steps around them: waitForWorkers, readResultsWithRetry and the polling
-- of localStartCoordination.
use delibera_xyz.Prelude.{
  ℕ, zero, suc, ◌-◌, ◌+◌, ◌*◌, ◌≤◌, ◌≡◌, refl, String, false, Option, List, [], ◌∷◌, arith, ltb,
  Bool-cases, inl, inr,
}
use delibera_xyz.Ensue.Keys.{all_worker_status_keys}
use delibera_xyz.Host.{Env, ClockRuns, Event, Proc, ◌>>=◌}
use delibera_xyz.Coordinator.Marks.{marks, QuietAt, Quiet}
use delibera_xyz.Coordinator.Marks.Rules.{quiet_rules, Quiet-bind, Quiet-if, Quiet-pure}
use delibera_xyz.Coordinator.Contract.{poll_proposal_id, id_or_zero}
use delibera_xyz.Coordinator.Waiting.{
  worker_timeout, wait_fuel, wait_loop, wait_for_workers, all_done, retry_loop,
  read_results_with_retry,
}

-- One round of the polling loop, and of the waiting loop.
abbrev after_poll : Proc → Proc
after_poll s = record s {
  history =
      Event.viewed "get_current_proposal_id" ∷ Event.slept 500 ∷ Event.checked_clock ∷ s.history;
}

abbrev after_wait : List String → Proc → Proc
after_wait dids s = record s {
  history =
      Event.slept 1000
      ∷ Event.read_multiple (all_worker_status_keys dids)
      ∷ Event.checked_clock
      ∷ s.history;
}

module _ (E : Env) (clock_runs : ClockRuns E) where
  -- After a sleep, with one event before and one behind it.
  pause-le :
      (ms : ℕ) (e f : Event) (h : List Event) → E.now h + ms ≤ E.now (f ∷ Event.slept ms ∷ e ∷ h)
  pause-le ms e f h = omega (
    arith,
    clock_runs.forward e h,
    clock_runs.timer ms (e ∷ h),
    clock_runs.forward f (Event.slept ms ∷ e ∷ h),
  )

  -- After a sleep, with two events before it.
  nap-le :
      (ms : ℕ) (e f : Event) (h : List Event) → E.now h + ms ≤ E.now (Event.slept ms ∷ e ∷ f ∷ h)
  nap-le ms e f h =
      omega (
        arith,
        clock_runs.forward f h,
        clock_runs.forward e (f ∷ h),
        clock_runs.timer ms (e ∷ f ∷ h),
      )

  pub poll_proposal_id-QuietAt :
      (fuel before start : ℕ) (s : Proc)
      → start + 8000 ≤ E.now s.history + 500 * fuel
      → QuietAt (marks s.history) (poll_proposal_id E (suc fuel) before start s)
  unfolding poll_proposal_id ◌>>=◌
  poll_proposal_id-QuietAt zero before start s h =
      let late : ltb (E.now s.history - start) 8000 ≡ false = ground arith in rw late refl
  poll_proposal_id-QuietAt (suc fuel) before start s h =
      elim (Bool-cases (ltb (E.now s.history - start) 8000)) [
        | inl early ↦
            let seen =
              id_or_zero
                (E.current_proposal_id (Event.slept 500 ∷ Event.checked_clock ∷ s.history)) in
            elim (Bool-cases (ltb before seen)) [
              | inl newer ↦ rw (early, newer) refl
              | inr same ↦
                  let rest = poll_proposal_id-QuietAt fuel before start (after_poll s) (
                    omega (
                      arith,
                      pause-le 500 Event.checked_clock (Event.viewed "get_current_proposal_id")
                          s.history,
                    )) in
                  rw (early, same) rest
            ]
        | inr late ↦ rw late refl
      ]

  wait_loop-QuietAt :
      (fuel start timeout : ℕ) (dids : List String) (s : Proc)
      → start + timeout ≤ E.now s.history + 1000 * fuel
      → QuietAt (marks s.history) (wait_loop E (suc fuel) start timeout dids s)
  unfolding wait_loop ◌>>=◌
  wait_loop-QuietAt zero start timeout dids s h =
      let late : ltb (E.now s.history - start) timeout ≡ false = ground arith in rw late refl
  wait_loop-QuietAt (suc fuel) start timeout dids s h =
      elim (Bool-cases (ltb (E.now s.history - start) timeout)) [
        | inl early ↦
            let statuses =
              E.read_multiple (Event.checked_clock ∷ s.history) (all_worker_status_keys dids) in
            elim (Bool-cases (all_done dids statuses)) [
              | inl done ↦ rw (early, done) refl
              | inr waiting ↦
                  let rest = wait_loop-QuietAt fuel start timeout dids (after_wait dids s) (
                    omega (
                      arith,
                      nap-le 1000 (Event.read_multiple (all_worker_status_keys dids))
                          Event.checked_clock s.history,
                    )) in
                  rw (early, waiting) rest
            ]
        | inr late ↦ rw late refl
      ]

  -- If the clock runs, waitForWorkers ends within 121 rounds at its timeout of 120 s, for any workers,
  -- and leaves neither a status of the coordinator nor a call on the chain.
  pub wait_for_workers-Quiet :
      (dids : List String) → Quiet (wait_for_workers E wait_fuel dids worker_timeout)
  unfolding wait_for_workers ◌>>=◌
  wait_for_workers-Quiet [] = Quiet-pure false
  wait_for_workers-Quiet (did ∷ dids) = record {
    at = λ s.
        wait_loop-QuietAt 120 _ worker_timeout (did ∷ dids) _
          (omega (arith, clock_runs.forward Event.checked_clock s.history));
  }

module _ (E : Env) where
  retry_loop-Quiet :
      (n : ℕ) (keys : List String) (results : String → Option String)
      → Quiet (retry_loop E n keys results)
  unfolding retry_loop
  retry_loop-Quiet zero keys results = Quiet-pure results
  retry_loop-Quiet (suc n) keys results =
      Quiet-if _ _ _
        (Quiet-bind _ _ (search quiet_rules)
          λ _. Quiet-bind _ _ (search quiet_rules) λ again. retry_loop-Quiet n keys again)
        (Quiet-pure results)

  pub read_results_with_retry-Quiet : (keys : List String) → Quiet (read_results_with_retry E keys)
  unfolding read_results_with_retry
  read_results_with_retry-Quiet keys = search (quiet_rules, retry_loop-Quiet)
