-- ===== src/Provision/Sound.antt =====
-- What holds of every job in the store of protocol-api/src/routes/provision.ts.
use delibera_xyz.Prelude.{
  ℕ, ◌≡◌, refl, sym, ap, ◌∙◌, subst, String, true, false, Option, some, [], ◌∷◌,
}
use delibera_xyz.Prelude.Maps.{find}
use delibera_xyz.Json.{Json, Codec}
use delibera_xyz.Provision.Jobs.{awaiting_near_signature, registering, complete, Job, updated}
use delibera_xyz.Provision.Flow.{Got, got, lost, Flow, done, ask, ◌>>=◌, ◌>>◌, rescue, received}
use delibera_xyz.Provision.Along.{
  Made, returned, raised, Post, is_awaiting, Along, returns, raises, changes, looks, asks,
}
use delibera_xyz.Provision.Provisioned.{Provisioned, ready, broken}
use delibera_xyz.Provision.Desk.{Entry, Desk, advance}
use delibera_xyz.Provision.Registering.{put_name, registered, finish_registration, silently}
use delibera_xyz.Provision.System.{resumed}

-- A job on which no flow works: it waits for its signature, is complete, or has failed.
pub data Rested (c : Codec) (j : Job) (g : Made) : Type 0 where
  awaited : Provisioned c awaiting_near_signature j g → Rested c j g
  finished : Provisioned c complete j g → Rested c j g

abbrev pub Rests : Codec → Post (Unit {0})
Rests c t j g (returned u) = Rested c j g
Rests c t j g (raised p) = ⊥

-- Either no flow works on the job, and it is at rest; or exactly one does, which will bring the job to rest
-- whatever its requests are answered, and the job does not wait for its signature.
pub data Sound (c : Codec) (e : Entry) : Type 0 where
  idle : e.tasks ≡ [] → Rested c e.job e.made → Sound c e
  busy :
      (m : Flow (Unit {0})) (t : ℕ)
      → e.tasks ≡ record { flow = m; since = t } ∷ []
      → is_awaiting e.job.status ≡ false
      → Along c (Rests c) m t e.job e.made
      → Sound c e

abbrev pub AllSound : Codec → Desk → Type 0
AllSound c desk = (id : String) (e : Entry) → find id desk ≡ some e → Sound c e

false-true : false ≡ true → ⊥
false-true e = absurd (subst (λ b. elim b [ false ↦ Unit | true ↦ ⊥ ]) e tt)

module _ (c : Codec) where
  -- A flow that has run up to its next request.
  pub resumed-Sound :
      (m : Flow (Unit {0})) (t : ℕ) (j : Job) (g : Made)
      → Along c (Rests c) m t j g
      → Sound c (resumed m j t g [])
  unfolding resumed advance
  resumed-Sound m t j g (returns h) = idle refl h
  resumed-Sound m t j g (raises h) = absurd h
  resumed-Sound m t j g (changes {f = f} {m = n} h) = resumed-Sound n t (f j) g h
  resumed-Sound m t j g (looks {k = k} h) = resumed-Sound (k j) t j g h
  resumed-Sound m t j g (asks {q = q} {k = k} s h) = busy (ask q k) t refl s (asks s h)

  registering-Provisioned :
      (j : Job) (g : Made)
      → Provisioned c awaiting_near_signature j g
      → is_awaiting j.status ≡ true
      → Provisioned c complete (updated complete j) g
  registering-Provisioned j g (ready i url s e g_i d k ds t) a = ready i url refl e g_i d k ds t
  registering-Provisioned j g (broken message s e ds t) a =
      absurd (false-true (sym (ap is_awaiting s) ∙ a))

  awaits-Provisioned :
      (j : Job) (g : Made)
      → Rested c j g
      → is_awaiting j.status ≡ true
      → Provisioned c awaiting_near_signature j g
  awaits-Provisioned j g (awaited h) a = h
  awaits-Provisioned j g (finished (ready i url s e g_i d k ds t)) a =
      absurd (false-true (sym (ap is_awaiting s) ∙ a))
  awaits-Provisioned j g (finished (broken message s e ds t)) a =
      absurd (false-true (sym (ap is_awaiting s) ∙ a))

  -- Of a job that waits for its signature.
  pub awaiting_job :
      (e : Entry)
      → Sound c e
      → is_awaiting e.job.status ≡ true
      → (e.tasks ≡ []) × Provisioned c complete (updated complete e.job) e.made
  awaiting_job e (idle none_left h) a =
      (none_left, registering-Provisioned e.job e.made (awaits-Provisioned e.job e.made h a) a)
  awaiting_job e (busy m t one s h) a = absurd (false-true (sym s ∙ a))

  -- What is left of a registration once its write is answered.
  named-Along :
      (tx_hash : Option Json) (r : Got (Unit {0})) (t : ℕ) (j : Job) (g : Made)
      → Provisioned c complete (updated complete j) g
      → Along c
          (Rests c)
          (silently (rescue (received r) (λ p. done tt) >> finish_registration tx_hash))
          t
          j
          g
  unfolding silently ◌>>=◌ rescue
  named-Along tx_hash (got u) t j g h = changes (looks (returns (finished h)))
  named-Along tx_hash (lost p) t j g h = changes (looks (returns (finished h)))

  registered_from-Along :
      (tx_hash : Option Json) (t : ℕ) (j : Job) (g : Made)
      → is_awaiting j.status ≡ false
      → Provisioned c complete (updated complete j) g
      → Along c (Rests c) (silently (registered tx_hash)) t j g
  unfolding silently registered put_name ◌>>=◌ rescue
  registered_from-Along tx_hash t j g s h =
      asks s
        λ r1 t1 l1. asks s λ r2 t2 l2. looks (asks s λ r t' later. named-Along tx_hash r t' j g h)

  -- The flow of a registration.
  pub registered-Along :
      (tx_hash : Option Json) (t : ℕ) (j : Job) (g : Made)
      → Provisioned c complete (updated complete j) g
      → Along c (Rests c) (silently (registered tx_hash)) t (updated registering j) g
  registered-Along tx_hash t j g h =
      registered_from-Along tx_hash t (updated registering j) g refl h
