-- ===== src/Coordinator/Waiting.antt =====
-- waitForWorkers and readResultsWithRetry of coordinator-agent/src/monitor/memory-monitor.ts.
use text.Mathlib.Text.{◌==◌}
use delibera_xyz.Prelude.{
  ℕ, zero, suc, ◌-◌, String, Bool, true, false, ◌||◌, Option, none, some, List, [], ◌∷◌, all, any,
  ltb, if◌then◌else◌,
}
use delibera_xyz.Prelude.Text.{is_empty}
use delibera_xyz.Ensue.Keys.{worker_keys, all_worker_status_keys}
use delibera_xyz.Host.{Env, Prog, pure, out_of_fuel, lift, ◌>>=◌, ◌>>◌}
use delibera_xyz.Coordinator.Memory.{read_multiple, clock, sleep}

-- `statuses[key] || 'unknown'`
abbrev pub status_or_unknown : Option String → String
status_or_unknown none = "unknown"
status_or_unknown (some s) = if is_empty s then "unknown" else s

-- The worker has nothing more to do: `status === 'completed' || status === 'failed'`.
abbrev pub is_done : Option String → Bool
is_done status = status_or_unknown status == "completed" || status_or_unknown status == "failed"

abbrev pub all_done : List String → (String → Option String) → Bool
all_done dids statuses = all (λ did. is_done (statuses (worker_keys did).status)) dids

-- WORKER_TIMEOUT, and the rounds of the loop that it leaves time for: one a second, and one to see
-- that they are over.
abbrev pub worker_timeout : ℕ
worker_timeout = 120000

abbrev pub wait_fuel : ℕ
wait_fuel = 121

abbrev is_missing : Option String → Bool
is_missing none = true
is_missing (some s) = false

module _ (E : Env) where
  unfoldable pub wait_loop : ℕ → ℕ → ℕ → List String → Prog Bool
  wait_loop zero start timeout dids = lift out_of_fuel
  wait_loop (suc fuel) start timeout dids = do
    t ← clock E
    if ltb (t - start) timeout
        then (do
          statuses ← read_multiple E (all_worker_status_keys dids)
          if all_done dids statuses
              then pure true
              else (do sleep 1000; wait_loop fuel start timeout dids))
        else pure false

  unfoldable pub wait_for_workers : ℕ → List String → ℕ → Prog Bool
  unfolding wait_loop
  wait_for_workers fuel [] timeout = pure false
  wait_for_workers fuel (did ∷ dids) timeout = do
    start ← clock E
    wait_loop fuel start timeout (did ∷ dids)

  -- The rounds of the retry loop, over what was read last.
  unfoldable pub retry_loop :
      ℕ → List String → (String → Option String) → Prog (String → Option String)
  retry_loop zero keys results = pure results
  retry_loop (suc attempts) keys results =
      if any (λ k. is_missing (results k)) keys
      then (do sleep 200; again ← read_multiple E keys; retry_loop attempts keys again)
      else pure results

  unfoldable pub read_results_with_retry : List String → Prog (String → Option String)
  unfolding retry_loop
  read_results_with_retry keys = do results ← read_multiple E keys; retry_loop 2 keys results
