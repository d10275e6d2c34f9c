-- ===== src/Provision/Reached.antt =====
-- Every state that the provisioning of protocol-api/src/routes/provision.ts can reach.
use delibera_xyz.Prelude.{ℕ, ◌≡◌, sym, subst, ap, none, some, List, [], ◌∷◌}
use delibera_xyz.Prelude.Maps.{find}
use delibera_xyz.Json.{Codec}
use delibera_xyz.Provision.Jobs.{Job}
use delibera_xyz.Provision.Flow.{Request, Answer, Flow, ask}
use delibera_xyz.Provision.Along.{Made, note, Later, Along, asks}
use delibera_xyz.Provision.Services.{Tools}
use delibera_xyz.Provision.Desk.{Task, Entry, Desk}
use delibera_xyz.Provision.System.{
  Picks, first, after, resumed, Step, worker_requested, coordinator_requested, ironclaw_requested,
  register_requested, coordinator_register_requested, answered, Reach, start, onward,
}
use delibera_xyz.Provision.Sound.{Rests, Sound, idle, busy, AllSound, resumed-Sound}
use delibera_xyz.Provision.Steady.{
  left, store-AllSound, worker_route-Leaves, coordinator_route-Leaves, ironclaw_route-Leaves,
  register_route-Leaves, coordinator_register_route-Leaves,
}

nil_cons : {A : Type 0} (x : A) (xs : List A) → (x ∷ xs) ≡ [] → ⊥
nil_cons x xs e = absurd (subst (λ l. elim l [ [] ↦ ⊥ | y ∷ ys ↦ Unit ]) e tt)

none-some : {A : Type 0} (a : A) → none ≡ some a → ⊥
none-some a e = absurd (subst (λ o. elim o [ none ↦ Unit | some x ↦ ⊥ ]) e tt)

none_picked : {task : Task} {tasks others : List Task} → Picks task tasks others → tasks ≡ [] → ⊥
none_picked first e = nil_cons _ _ e
none_picked (after p) e = nil_cons _ _ e

-- The only task of a list is the one that is picked.
only_picked :
    {task : Task} {tasks others : List Task} (x : Task)
    → Picks task tasks others
    → tasks ≡ x ∷ []
    → (task ≡ x) × (others ≡ [])
only_picked x first e =
    (ap (λ l. elim l [ [] ↦ x | y ∷ ys ↦ y ]) e, ap (λ l. elim l [ [] ↦ [] | y ∷ ys ↦ ys ]) e)
only_picked x (after p) e = absurd (none_picked p (ap (λ l. elim l [ [] ↦ [] | y ∷ ys ↦ ys ]) e))

module _ (c : Codec) where
  -- A flow goes on when its request is answered.
  Along-answer :
      {q : Request} {k : Answer q → Flow (Unit {0})} {t : ℕ} {j : Job} {g : Made} (r : Answer q)
      (t' : ℕ)
      → Along c (Rests c) (ask q k) t j g
      → Later q t r t'
      → Along c (Rests c) (k r) t' j (note c q r g)
  Along-answer r t' (asks s h) later = h r t' later

  answered-Sound :
      (e : Entry) {q : Request} {k : Answer q → Flow (Unit {0})} {since : ℕ} {others : List Task}
      (r : Answer q) (now : ℕ)
      → Sound c e
      → Picks (record { flow = ask q k; since = since }) e.tasks others
      → Later q since r now
      → Sound c (resumed (k r) e.job now (note c q r e.made) others)
  answered-Sound e r now (idle none_left h) picks later = absurd (none_picked picks none_left)
  answered-Sound e {q} {k} {since} {others} r now (busy m t one s along) picks later =
      let only = only_picked (record { flow = m; since = t }) picks one in
      let along' : Along c (Rests c) (ask q k) since e.job e.made =
        subst (λ task. Along c (Rests c) task.flow task.since e.job e.made) (sym only.0) along in
      rw only.1
        (resumed-Sound c (k r) now e.job (note c q r e.made) (Along-answer r now along' later))

module _ (T : Tools) where
  -- A step keeps every job sound.
  Step-AllSound :
      {desk desk' : Desk} → Step T desk desk' → AllSound T.codec desk → AllSound T.codec desk'
  Step-AllSound (worker_requested body id now new) all =
      left T.codec _ (worker_route-Leaves T body id now _ all)
  Step-AllSound (coordinator_requested body id now new) all =
      left T.codec _ (coordinator_route-Leaves T body id now _ all)
  Step-AllSound (ironclaw_requested body id now new) all =
      left T.codec _ (ironclaw_route-Leaves T body id now _ all)
  Step-AllSound (register_requested body now) all =
      left T.codec _ (register_route-Leaves T body now _ all)
  Step-AllSound (coordinator_register_requested body) all =
      left T.codec _ (coordinator_register_route-Leaves T body _ all)
  Step-AllSound (answered id {entry = e} r now there picks later) all =
      store-AllSound T.codec id _ _ (answered-Sound T.codec e r now (all id e there) picks later)
        all

  -- In every state that is reached from the empty store by requests to the routes and by answers
  -- to the open requests of the flows, in any order, where the id of a new job is that of no
  -- other, the clock does not run back and no timer fires early, each job of the store is sound.
  -- Either no flow works on it, and it waits for its signature, is complete, or has failed; or
  -- exactly one flow does, it brings the job to such a rest whatever its requests are answered,
  -- and the job does not wait for its signature while one of them is open. A job at rest that
  -- waits or is complete has an endpoint, the key pair of the one identity that was generated for it, the
  -- only droplet that was created for it with an id and not asked to be deleted, if there is
  -- one, on record, and no token of the user; a job at rest that has failed has a message and no token,
  -- and each droplet that was created for it with an id has been asked to be deleted.
  pub Reach-AllSound : {desk : Desk} → Reach T desk → AllSound T.codec desk
  unfolding find
  Reach-AllSound start id e there = absurd (none-some e there)
  Reach-AllSound (onward reach step) id e there =
      Step-AllSound step (Reach-AllSound reach) id e there
