-- ===== src/Agent/Recorded.antt =====
-- What a task of the worker leaves in the shared memory: executeTask of
-- worker-agent/src/workers/task-handler.ts.
use delibera_xyz.Prelude.{ℕ, ◌≡◌, refl, sym, subst, String, Option, none, some, List, [], ◌∷◌, ◌++◌}
use delibera_xyz.Json.{Json, member}
use delibera_xyz.Ensue.Keys.{worker_keys}
use delibera_xyz.Host.{Event, wrote, Outcome, ok, threw, out_of_fuel, Proc, pure, ◌>>=◌, ◌>>◌}
use delibera_xyz.Host.Ways.{
  WaysOf, LedOf, Takes-pure, Takes-effect, Takes-weaker, Takes-bind, Takes-emit,
}
use delibera_xyz.Coordinator.Memory.{clock, update_memory}
use delibera_xyz.Agent.Services.{Services, AgentConfig}
use delibera_xyz.Agent.Work.{
  WorkResult, worker_result, store_proof, store_result, do_task, report, reported, message_of,
  execute_task,
}
use delibera_xyz.Agent.Writes.{Write, add_write, writes}
use delibera_xyz.Agent.Performed.{ResultOf, Kept, Takes, perform_work-Takes}

-- The write of a proof.
abbrev pub proof_writes : Services → String → Option Json → List Write
proof_writes V did none = []
proof_writes V did (some p) = ((worker_keys did).verification_proof, V.env.codec.stringify p) ∷ []

-- The writes of a finished task: the result, the proof if there is one, the time, and the status.
abbrev pub finished_writes :
    Services → String → String → Option Json → String → List Write → List Write
finished_writes V did text proof done before =
    ((worker_keys did).status, "completed")
    ∷ ((worker_keys did).timestamp, done)
    ∷ (proof_writes V did proof
        ++ ((worker_keys did).result, text) ∷ ((worker_keys did).status, "processing") ∷ before)

-- The writes of a task that failed.
abbrev pub failed_writes : String → String → List Write → List Write
failed_writes did message ms =
    ((worker_keys did).status, "failed") ∷ ((worker_keys did).error, message) ∷ ms

-- What a task leaves, after the writes that were there before it: those of a finished task, or a message
-- and the status failed.
pub data Recorded (V : Services) (c : AgentConfig) (did : String) (config : Json)
    (before : List Write) : List Write → Type 0 where
  completed :
      (r : WorkResult) (at : String) (time : ℕ) (done : String)
      → ResultOf (member "type" config) r
      → Recorded V c did config before (
          finished_writes V did
            (V.env.codec.stringify (worker_result V c did config r at time))
            r.verification_proof
            done
            before)
  failed :
      (message : String)
      → Recorded V c did config before
          (failed_writes did message (((worker_keys did).status, "processing") ∷ before))

module _ (V : Services) (c : AgentConfig) (did : String) (before : List Write) where
  abbrev processing : List Write
  processing = ((worker_keys did).status, "processing") ∷ before

  -- It ends with these writes, and never with an exception.
  abbrev OfResult : String → Option Json → WaysOf Write (Unit {0})
  OfResult text proof = (
    (λ _ here. (done : String) × (here ≡ finished_writes V did text proof done before)),
    (λ here. ⊥),
  )

  finish-Takes :
      (w : WaysOf Write (Unit {0})) (ms : List Write)
      → ((done : String)
          → w.0 tt
              (((worker_keys did).status, "completed") ∷ ((worker_keys did).timestamp, done) ∷ ms))
      → Takes w ms (do
        done ← clock V.env
        update_memory (worker_keys did).timestamp (V.env.codec.decimal done)
        update_memory (worker_keys did).status "completed")
  finish-Takes w ms h =
      Takes-emit w ms Event.checked_clock (λ past. V.env.now past) _
        (λ done.
          Takes-emit w ms (wrote (worker_keys did).timestamp (V.env.codec.decimal done))
            (λ past. tt) _
            (λ _.
              Takes-effect w _ (wrote (worker_keys did).status "completed") (λ past. tt)
                (λ _. h (V.env.codec.decimal done))))

  store_result-Takes :
      (text : String) (proof : Option Json)
      → Takes (OfResult text proof) processing (store_result V c did text proof)
  unfolding store_result store_proof
  store_result-Takes text none =
      Takes-emit (OfResult text none) processing (wrote (worker_keys did).result text) (λ h. tt) _
        (λ _.
          Takes-bind ((λ _ here. here ≡ ((worker_keys did).result, text) ∷ processing), (λ here. ⊥))
            (OfResult text none) _ (pure tt) _ (Takes-pure _ _ tt refl)
            (λ _ here e. rw e (finish-Takes (OfResult text none) _ (λ done. (done, refl))))
            (λ here e. e))
  store_result-Takes text (some p) =
      Takes-emit (OfResult text (some p)) processing (wrote (worker_keys did).result text) (λ h. tt)
        _
        (λ _.
          Takes-emit (OfResult text (some p)) _
            (wrote (worker_keys did).verification_proof (V.env.codec.stringify p)) (λ h. tt) _
            (λ _. finish-Takes (OfResult text (some p)) _ (λ done. (done, refl))))

  -- The task ends with what it leaves at its end, or with an exception before anything is stored.
  abbrev OfTask : Json → WaysOf Write (Unit {0})
  OfTask config = ((λ _ here. Recorded V c did config before here), (λ here. here ≡ processing))

  do_task-Takes : (config : Json) → Takes (OfTask config) before (do_task V c did config)
  unfolding do_task
  do_task-Takes config = Takes-emit _ before _ _ _ (λ _. Takes-emit _ processing _ _ _ (λ start.
      Takes-bind (Kept (ResultOf (member "type" config)) processing) _ processing _ _
        (perform_work-Takes V c processing config)
        (λ r here h. rw h.1 (
          Takes-emit _ processing _ _ _ (λ end. Takes-emit _ processing _ _ _ (λ now.
            Takes-weaker (OfResult _ r.verification_proof) _ processing _
              (store_result-Takes _ r.verification_proof)
              (λ _ there k.
                subst (Recorded V c did config before) (sym k.1) (completed r _ _ k.0 h.0))
              (λ there k. absurd k)))))
        (λ here e. e)))

  -- A task returns, and leaves what `Recorded` says.
  abbrev Returns : Json → Outcome (Unit {0}) × Proc → Type 0
  Returns config r = (r.0 ≡ ok tt) × Recorded V c did config before (writes r.1.history)

  reported-Returns :
      (config : Json) (r : Outcome (Unit {0}) × Proc)
      → LedOf add_write (OfTask config) r
      → Returns config (reported V c did r)
  unfolding report ◌>>=◌
  reported-Returns config (ok a, s) h = (refl, h)
  reported-Returns config (threw p, s) h = (
    refl,
    subst (λ ms. Recorded V c did config before (failed_writes did (message_of V c p) ms)) (sym h)
        (failed _),
  )
  reported-Returns config (out_of_fuel, s) h = absurd h

-- From every state, the task of an initialized worker returns without an exception. Besides what the
-- record of the decision, an outside service here, may write: after the status
-- processing it has written either the result, the proof if there is one, the time and the status
-- completed, in this order, or a message and the status failed. A result of a task to vote holds
-- Approved or Rejected with the value 1 or 0 and a reasoning of at most 10000 characters, and any other
-- holds no vote.
pub execute_task-Recorded :
    (V : Services) (c : AgentConfig) (did : String) (config : Json) (s : Proc)
    → (execute_task V c (some did) config s).0 ≡ ok tt
      × Recorded V c did config
          (writes s.history)
          (writes (execute_task V c (some did) config s).1.history)
unfolding execute_task
execute_task-Recorded V c did config s =
    reported-Returns V c did (writes s.history) config (do_task V c did config s)
      ((do_task-Takes V c did (writes s.history) config).at s refl)
