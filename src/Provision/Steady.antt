-- ===== src/Provision/Steady.antt =====
-- The invariant of the store of protocol-api/src/routes/provision.ts, over all interleavings of its handlers and flows.
use text.Mathlib.TextEquality.{eq_iff}
use text.Mathlib.Text.{◌==◌}
use delibera_xyz.Prelude.{
  ℕ, ◌≡◌, refl, sym, subst, ap, ◌∙◌, String, Bool, true, false, Option, none, some, [], Bool-cases,
  Option-cases, inl, inr, if◌then◌else◌,
}
use delibera_xyz.Prelude.Maps.{find, store, find-store-same, find-store-other, eq_refl}
use delibera_xyz.Json.{Json, null, Codec, str, member, truthy?}
use delibera_xyz.Provision.Jobs.{
  failed_with, registering, complete, Role, worker, coordinator, Number, natural, Job, updated,
}
use delibera_xyz.Host.{Problem}
use delibera_xyz.Provision.Flow.{assign, Flow}
use delibera_xyz.Provision.Along.{Made, nothing_made, Ended, returned, raised, is_awaiting, Along}
use delibera_xyz.Provision.Along.Rules.{Handles, Along-weaker, Along-rescue}
use delibera_xyz.Provision.Services.{Tools, message_of}
use delibera_xyz.Provision.Workers.{provision_worker}
use delibera_xyz.Provision.Coordinators.{provision_coordinator}
use delibera_xyz.Provision.IronClaw.{provision_ironclaw_worker}
use delibera_xyz.Provision.Provisioned.{Provisioned, EndsProvisioned, provision_worker-Along}
use delibera_xyz.Provision.Founded.{provision_coordinator-Along}
use delibera_xyz.Provision.Droplet.{provision_ironclaw_worker-Along}
use delibera_xyz.Provision.Desk.{Entry, Desk, Handled}
use delibera_xyz.Provision.Starting.{
  has_worker_fields, has_coordinator_fields, has_ironclaw_fields, worker_job, coordinator_job,
  ironclaw_job, background, start_job, with_body, check_workers, less, number_given, worker_route,
  coordinator_route, ironclaw_route,
}
use delibera_xyz.Provision.Registering.{
  Reply, with_job, reading_body, begin_register, register_body, coordinator_register_body,
  registered, silently, joined, finish_coordinator, register_route, coordinator_register_route,
}
use delibera_xyz.Provision.System.{resumed}
use delibera_xyz.Provision.Sound.{
  Rests, awaited, finished, Sound, idle, AllSound, resumed-Sound, awaiting_job, registered-Along,
}

some_same : {A : Type 0} (a b : A) → some a ≡ some b → a ≡ b
some_same a b e = ap (λ o. elim o [ none ↦ a | some x ↦ x ]) e

-- What a handler leaves is sound.
pub data Leaves {A : Type 0} (c : Codec) (handled : A × Desk) : Type 0 where
  leaves : AllSound c handled.1 → Leaves c handled

pub left : {A : Type 0} (c : Codec) (handled : A × Desk) → Leaves c handled → AllSound c handled.1
left c handled (leaves all) = all

if-Leaves :
    {A : Type 0} (c : Codec) (b : Bool) (x y : A × Desk)
    → Leaves c x
    → Leaves c y
    → Leaves c (if b then x else y)
if-Leaves c true x y h k = h
if-Leaves c false x y h k = k

module _ (c : Codec) where
  pub store-AllSound :
      (id : String) (e : Entry) (desk : Desk)
      → Sound c e
      → AllSound c desk
      → AllSound c (store id e desk)
  store-AllSound id e desk sound all other e' there = elim (Bool-cases (id == other)) [
    | inl same ↦
        let k : id ≡ other = (eq_iff id other).0 same in
        let found : find other (store id e desk) ≡ some e =
          subst (λ k. find k (store id e desk) ≡ some e) k (find-store-same id e desk) in
        subst (Sound c) (some_same e e' (sym found ∙ there)) sound
    | inr differs ↦ all other e' (
        sym (
          find-store-other id other e desk
            (λ k. absurd (true_false (subst (λ o. (id == o) ≡ true) k (eq_refl id)) differs)))
        ∙ there)
  ]
    where
      true_false : {b : Bool} → b ≡ true → b ≡ false → ⊥
      true_false h k = absurd (subst (λ b. elim b [ true ↦ Unit | false ↦ ⊥ ]) (sym h ∙ k) tt)

module _ (T : Tools) where
  -- The handler of what a flow in the background throws.
  abbrev gives_up : (Problem → String) → Problem → Flow (Unit {0})
  gives_up message p = assign (failed_with (message p))

  background-Along :
      (message : Problem → String) (flow : Flow (Unit {0})) (t : ℕ) (j : Job)
      → Along T.codec (EndsProvisioned T.codec) flow t j nothing_made
      → Along T.codec (Rests T.codec) (background T message flow) t j nothing_made
  unfolding background
  background-Along message flow t j h = Along-rescue T.codec (gives_up message) (Rests T.codec) (
      Along-weaker T.codec (EndsProvisioned T.codec)
        (Handles T.codec (gives_up message) (Rests T.codec)) rested h)
    where
      rested :
          (t' : ℕ) (j' : Job) (g' : Made) (e : Ended (Unit {0}))
          → EndsProvisioned T.codec t' j' g' e
          → Handles T.codec (gives_up message) (Rests T.codec) t' j' g' e
      rested t' j' g' (returned u) k = awaited k
      rested t' j' g' (raised p) k = absurd k

  start_job-Leaves :
      (message : Problem → String) (flow : Flow (Unit {0})) (job : Job) (now : ℕ) (desk : Desk)
      → Along T.codec (EndsProvisioned T.codec) flow now job nothing_made
      → AllSound T.codec desk
      → Leaves T.codec (start_job T message flow job now desk)
  unfolding start_job resumed
  start_job-Leaves message flow job now desk h all = leaves (
      store-AllSound T.codec job.id _ desk
        (resumed-Sound T.codec (background T message flow) now job nothing_made
          (background-Along message flow now job h))
        all)

  with_body-Leaves :
      (body : Option Json) (k : Json → Desk → Handled) (desk : Desk)
      → AllSound T.codec desk
      → ((j : Json) → Leaves T.codec (k j desk))
      → Leaves T.codec (with_body T body k desk)
  with_body-Leaves none k desk all h = leaves all
  with_body-Leaves (some null) k desk all h = leaves all
  with_body-Leaves (some j) k desk all h = h j

  pub worker_route-Leaves :
      (body : Option Json) (id : String) (now : ℕ) (desk : Desk)
      → AllSound T.codec desk
      → Leaves T.codec (worker_route T body id now desk)
  unfolding worker_route
  worker_route-Leaves body id now desk all = with_body-Leaves body _ desk all λ j.
      if-Leaves T.codec (has_worker_fields j) _ _
        (start_job-Leaves (message_of T) (provision_worker T) (worker_job j id now) now desk
          (provision_worker-Along T now (worker_job j id now) (refl, refl)) all)
        (leaves all)

  check_workers-Leaves :
      (body : Json) (id : String) (a b : Number) (now : ℕ) (desk : Desk)
      → AllSound T.codec desk
      → Leaves T.codec (check_workers T body id a b now desk)
  check_workers-Leaves body id a b now desk all =
      if-Leaves T.codec (less a (natural 1)) _ _ (leaves all) (
        if-Leaves T.codec (less b a) _ _ (leaves all) (
          start_job-Leaves (message_of T) (provision_coordinator T)
            (coordinator_job body id a b now) now desk
            (provision_coordinator-Along T now (coordinator_job body id a b now) (refl, refl)) all))

  pub coordinator_route-Leaves :
      (body : Option Json) (id : String) (now : ℕ) (desk : Desk)
      → AllSound T.codec desk
      → Leaves T.codec (coordinator_route T body id now desk)
  unfolding coordinator_route
  coordinator_route-Leaves body id now desk all = with_body-Leaves body _ desk all λ j.
      if-Leaves T.codec (has_coordinator_fields j) _ _
        (check_workers-Leaves j id (number_given T.to_number (member "minWorkers" j) 1)
          (number_given T.to_number (member "maxWorkers" j) 10) now desk all)
        (leaves all)

  pub ironclaw_route-Leaves :
      (body : Option Json) (id : String) (now : ℕ) (desk : Desk)
      → AllSound T.codec desk
      → Leaves T.codec (ironclaw_route T body id now desk)
  unfolding ironclaw_route
  ironclaw_route-Leaves body id now desk all = with_body-Leaves body _ desk all λ j.
      if-Leaves T.codec (has_ironclaw_fields j) _ _
        (start_job-Leaves T.describe (provision_ironclaw_worker T) (ironclaw_job j id now) now desk
          (provision_ironclaw_worker-Along T now (ironclaw_job j id now)) all)
        (leaves all)

  reading_body-Leaves :
      (body : Option Json) (k : Json → Desk → Reply × Desk) (desk : Desk)
      → AllSound T.codec desk
      → ((j : Json) → Leaves T.codec (k j desk))
      → Leaves T.codec (reading_body T body k desk)
  reading_body-Leaves none k desk all h = leaves all
  reading_body-Leaves (some null) k desk all h = leaves all
  reading_body-Leaves (some j) k desk all h = h j

  with_job-Leaves :
      (id : Option Json) (k : String → Entry → Desk → Reply × Desk) (desk : Desk)
      → AllSound T.codec desk
      → ((id : String) (e : Entry) → Sound T.codec e → Leaves T.codec (k id e desk))
      → Leaves T.codec (with_job id k desk)
  with_job-Leaves (some (str id)) k desk all h = elim (Option-cases (find id desk)) [
    | inl missing ↦ rw (missing, with_job) (leaves all)
    | inr (e, there) ↦ rw (there, with_job) (h id e (all id e there))
  ]
  with_job-Leaves none k desk all h = leaves all
  with_job-Leaves (some j) k desk all h = leaves all

  -- The store after a registration has begun.
  joined-Sound :
      (tx_hash : Option Json) (now : ℕ) (e : Entry)
      → Sound T.codec e
      → is_awaiting e.job.status ≡ true
      → Sound T.codec (joined (silently (registered tx_hash)) (updated registering e.job) now e)
  unfolding joined resumed
  joined-Sound tx_hash now e sound a =
      let free : (e.tasks ≡ []) × Provisioned T.codec complete (updated complete e.job) e.made =
        awaiting_job T.codec e sound a in
      rw free.0 (
        resumed-Sound T.codec (silently (registered tx_hash)) now (updated registering e.job) e.made
          (registered-Along T.codec tx_hash now e.job e.made free.1))

  begin_register-Leaves :
      (tx_hash : Option Json) (now : ℕ) (id : String) (e : Entry) (desk : Desk)
      → AllSound T.codec desk
      → Sound T.codec e
      → Leaves T.codec (begin_register T tx_hash now id e desk)
  begin_register-Leaves tx_hash now id e desk all sound =
      elim (Bool-cases (is_awaiting e.job.status)) [
        | inl a ↦
            rw a
              (leaves (store-AllSound T.codec id _ desk (joined-Sound tx_hash now e sound a) all))
        | inr n ↦ rw n (leaves all)
      ]

  pub register_route-Leaves :
      (body : Option Json) (now : ℕ) (desk : Desk)
      → AllSound T.codec desk
      → Leaves T.codec (register_route T body now desk)
  unfolding register_route
  register_route-Leaves body now desk all =
      reading_body-Leaves body (register_body T now) desk all λ j.
        if-Leaves T.codec (truthy? (member "jobId" j)) _ _
          (with_job-Leaves (member "jobId" j) (begin_register T (member "txHash" j) now) desk all
            (λ id e sound. begin_register-Leaves (member "txHash" j) now id e desk all sound))
          (leaves all)

  finish_coordinator-Leaves :
      (body : Json) (role : Role) (id : String) (e : Entry) (desk : Desk)
      → AllSound T.codec desk
      → Sound T.codec e
      → Leaves T.codec (finish_coordinator T body role id e desk)
  finish_coordinator-Leaves body worker id e desk all sound = leaves all
  finish_coordinator-Leaves body coordinator id e desk all sound =
      elim (Bool-cases (is_awaiting e.job.status)) [
        | inl a ↦
            let free : (e.tasks ≡ [])
                × Provisioned T.codec complete (updated complete e.job) e.made =
              awaiting_job T.codec e sound a in
            rw a (leaves (store-AllSound T.codec id _ desk (idle free.0 (finished free.1)) all))
        | inr n ↦ rw n (leaves all)
      ]

  pub coordinator_register_route-Leaves :
      (body : Option Json) (desk : Desk)
      → AllSound T.codec desk
      → Leaves T.codec (coordinator_register_route T body desk)
  unfolding coordinator_register_route
  coordinator_register_route-Leaves body desk all =
      reading_body-Leaves body (coordinator_register_body T) desk all λ j.
        if-Leaves T.codec (truthy? (member "jobId" j)) _ _
          (with_job-Leaves (member "jobId" j) (λ id e. finish_coordinator T j e.job.role id e) desk
            all (λ id e sound. finish_coordinator-Leaves j e.job.role id e desk all sound))
          (leaves all)
