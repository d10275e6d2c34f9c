-- ===== src/Agent/Polling.antt =====
-- When a tick of the polling loop of worker-agent/src/workers/task-handler.ts does a task, and what it
-- leaves.
use text.Mathlib.TextEquality.{eq_iff}
use delibera_xyz.Prelude.{
  ◌≡◌, refl, sym, ap, ◌↔◌, subst, String, Bool, true, false, Option, none, some, List, inl, inr,
  arith, Option-cases,
}
use delibera_xyz.Prelude.Text.{is_empty}
use delibera_xyz.Json.{Json, str}
use delibera_xyz.Ensue.Keys.{worker_keys, config_task_definition}
use delibera_xyz.Host.{Event, Outcome, ok, threw, out_of_fuel, Proc}
use delibera_xyz.Host.Ways.{
  WaysOf, Takes-pure, Takes-throw, Takes-split, Takes-weaker, Takes-answer, Takes-try, LedOf,
}
use delibera_xyz.Agent.Services.{Services, AgentConfig}
use delibera_xyz.Agent.Work.{execute_task}
use delibera_xyz.Agent.Lifecycle.{read_task, run_pending, is_pending, poll_worker, poll_tick}
use delibera_xyz.Agent.Writes.{Write, add_write, writes}
use delibera_xyz.Agent.Performed.{Takes}
use delibera_xyz.Agent.Recorded.{Recorded, execute_task-Recorded}

-- The text is the JSON of the task, which is no text, or the JSON of a text that is the JSON of the task.
pub data Holds (V : Services) (text : String) (config : Json) : Type 0 where
  plain :
      V.env.codec.parse text ≡ some config
      → ((inner : String) → config ≡ str inner → ⊥)
      → Holds V text config
  quoted :
      (inner : String)
      → V.env.codec.parse text ≡ some (str inner)
      → V.env.codec.parse inner ≡ some config
      → Holds V text config

-- The memory holds a task.
abbrev pub HasTask : Services → Option String → Json → Type 0
HasTask V found config =
    (text : String) × ((found ≡ some text) × (is_empty text ≡ false) × Holds V text config)

module _ (V : Services) (c : AgentConfig) where
  parsed-Holds :
      (text : String) (parsed : Option Json) {config : Json}
      → V.env.codec.parse text ≡ parsed
      → read_task V c text ≡ some config
      → Holds V text config
  unfolding read_task
  parsed-Holds text none e h = absurd (ground (arith, rw (read_task, e) at h))
  parsed-Holds text (some (str inner)) e h = quoted inner e (rw (read_task, e) at h)
  parsed-Holds text (some j) {config} e h =
      let same : some j ≡ some config = rw (read_task, e) at h in
      plain (cc (e, same)) (λ inner other. absurd (ground (arith, same, other)))

  plain-read_task :
      (text : String) (config : Json)
      → V.env.codec.parse text ≡ some config
      → ((inner : String) → config ≡ str inner → ⊥)
      → read_task V c text ≡ some config
  unfolding read_task
  plain-read_task text (str s) e n = absurd (n s refl)
  plain-read_task text config e n = rw (read_task, e) refl

  Holds-read_task :
      (text : String) (config : Json) → Holds V text config → read_task V c text ≡ some config
  unfolding read_task
  Holds-read_task text config (plain e n) = plain-read_task text config e n
  Holds-read_task text config (quoted inner e h) = rw (read_task, e) h

-- What a tick leaves: nothing written, since a task is executed already, the status is not pending, or the
-- memory holds no task; or a whole task, the one that the memory holds, done as `Recorded` says.
pub data Ticked (V : Services) (c : AgentConfig) (did : String) (executing : Bool)
    (before : List Write) : List Write → Type 0 where
  busy : executing ≡ true → Ticked V c did executing before before
  settled :
      (past : List Event)
      → executing ≡ false
      → (V.env.read past (worker_keys did).status ≡ some "pending" → ⊥)
      → Ticked V c did executing before before
  without_task :
      (past later : List Event)
      → executing ≡ false
      → V.env.read past (worker_keys did).status ≡ some "pending"
      → ((config : Json) → HasTask V (V.env.read later config_task_definition) config → ⊥)
      → Ticked V c did executing before before
  performed :
      (past later : List Event) (config : Json) {here : List Write}
      → executing ≡ false
      → V.env.read past (worker_keys did).status ≡ some "pending"
      → HasTask V (V.env.read later config_task_definition) config
      → Recorded V c did config before here
      → Ticked V c did executing before here

module _ (V : Services) (c : AgentConfig) (did : String) (before : List Write) where
  abbrev OfTick : Bool → WaysOf Write (Unit {0})
  OfTick executing = (
    (λ _ here. Ticked V c did executing before here),
    (λ here. Ticked V c did executing before here),
  )

  abbrev OfTask : Json → WaysOf Write (Unit {0})
  OfTask config = ((λ _ here. Recorded V c did config before here), (λ here. ⊥))

  task-LedOf :
      (config : Json) (r : Outcome (Unit {0}) × Proc)
      → r.0 ≡ ok tt
      → Recorded V c did config before (writes r.1.history)
      → LedOf add_write (OfTask config) r
  task-LedOf config (ok a, s) e h = h
  task-LedOf config (threw p, s) e h = absurd (ground (arith, e))
  task-LedOf config (out_of_fuel, s) e h = absurd (ground (arith, e))

  execute_task-Takes :
      (config : Json) → Takes (OfTask config) before (execute_task V c (some did) config)
  execute_task-Takes config = record {
    at = λ s e.
        let h = execute_task-Recorded V c did config s in
        task-LedOf config (execute_task V c (some did) config s) h.0 (
          subst
            (λ ms.
              Recorded V c did config ms (writes (execute_task V c (some did) config s).1.history))
            e h.1);
  }

  module _ (past later : List Event)
      (pending : V.env.read past (worker_keys did).status ≡ some "pending") where
    idle :
        (found : Option String)
        → V.env.read later config_task_definition ≡ found
        → ((config : Json) → HasTask V found config → ⊥)
        → Ticked V c did false before before
    idle found e n =
        without_task past later refl pending
          (λ config h. n config (subst (λ o. HasTask V o config) e h))

    run_pending-Takes :
        (found : Option String)
        → V.env.read later config_task_definition ≡ found
        → Takes (OfTick false) before (run_pending V c did found)
    unfolding run_pending
    run_pending-Takes none e =
        Takes-pure _ before tt (idle none e (λ config h. absurd (ground (arith, h.1.0))))
    run_pending-Takes (some text) e =
        Takes-split _ before (is_empty text) _ _
          (λ blank. Takes-pure _ before tt (
            idle (some text) e (λ config h.
              let same : text ≡ h.0 = cc h.1.0 in
              absurd (ground (arith, blank, h.1.1, ap is_empty same)))))
          (λ full. elim (Option-cases (read_task V c text)) [
            | inl unread ↦ rw unread (
                Takes-throw _ before _ (
                  idle (some text) e (λ config h.
                    let same : text ≡ h.0 = cc h.1.0 in
                    absurd (
                      ground (
                        arith,
                        unread,
                        Holds-read_task V c text config
                            (subst (λ t. Holds V t config) (sym same) h.1.2),
                      )))))
            | inr (config, read) ↦ rw read (
                Takes-weaker (OfTask config) (OfTick false) before _ (execute_task-Takes config)
                  (λ _ here r.
                    performed past later config refl pending
                      (text, (e, full, parsed-Holds V c text _ refl read)) r)
                  (λ here u. absurd u))
          ])

  is_pending_iff : (status : Option String) → is_pending status ≡ true ↔ (status ≡ some "pending")
  is_pending_iff none = ((λ h. absurd (ground (arith, h))), (λ h. absurd (ground (arith, h))))
  is_pending_iff (some s) = (
    (λ h. ap some ((eq_iff s "pending").0 h)),
    (λ h. let same : s ≡ "pending" = cc h in (eq_iff s "pending").1 same),
  )

  poll_worker-Takes : Takes (OfTick false) before (poll_worker V c did)
  unfolding poll_worker
  poll_worker-Takes =
      Takes-answer (OfTick false) before _ (λ past. V.env.read past (worker_keys did).status) _
        (λ past.
          Takes-split (OfTick false) before (is_pending (V.env.read past (worker_keys did).status))
            _ _
            (λ yes.
              Takes-answer (OfTick false) before _
                (λ later. V.env.read later config_task_definition) _
                (λ later.
                  run_pending-Takes past later
                    ((is_pending_iff (V.env.read past (worker_keys did).status)).0 yes)
                    (V.env.read later config_task_definition) refl))
            (λ no. Takes-pure (OfTick false) before tt (
              settled past refl (λ e. absurd (
                ground
                  (arith, no, (is_pending_iff (V.env.read past (worker_keys did).status)).1 e))))))

  poll_tick-Takes :
      (executing : Bool)
      → Takes ((OfTick executing).0, (λ _. ⊥)) before (poll_tick V c executing (some did))
  unfolding poll_tick
  poll_tick-Takes true = Takes-pure _ before tt (busy refl)
  poll_tick-Takes false =
      Takes-try _ (OfTick false).1 before _ _ poll_worker-Takes (λ here e. Takes-pure _ here tt e)

  settled-Ticked :
      (executing : Bool) (r : Outcome (Unit {0}) × Proc)
      → LedOf add_write ((OfTick executing).0, (λ _. ⊥)) r
      → (r.0 ≡ ok tt) × Ticked V c did executing before (writes r.1.history)
  settled-Ticked executing (ok a, s) h = (refl, h)
  settled-Ticked executing (threw p, s) h = absurd h
  settled-Ticked executing (out_of_fuel, s) h = absurd h

-- A tick of an initialized worker returns without an exception from every state, whatever the memory
-- holds. It has written nothing, since a task is executed already, the status that it reads is not
-- "pending", or what it reads as the task definition is missing, empty, or not the JSON of a task; or no
-- task is executed, the status that it reads is "pending", and it has done the task of the definition that
-- it reads, as `Recorded` says.
pub poll_tick-Ticked :
    (V : Services) (c : AgentConfig) (did : String) (executing : Bool) (s : Proc)
    → (poll_tick V c executing (some did) s).0 ≡ ok tt
      × Ticked V c did executing
          (writes s.history)
          (writes (poll_tick V c executing (some did) s).1.history)
poll_tick-Ticked V c did executing s =
    settled-Ticked V c did (writes s.history) executing _
      ((poll_tick-Takes V c did (writes s.history) executing).at s refl)
