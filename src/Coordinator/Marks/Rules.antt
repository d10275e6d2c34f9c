-- ===== src/Coordinator/Marks/Rules.antt =====
-- The rules for quiet programs: one for each way to build a program.
use text.Mathlib.Text.{◌==◌}
use text.Mathlib.TextEquality.{eq_iff}
use delibera_xyz.Prelude.{ℕ, ◌≡◌, refl, ap, String, false, none, List, Bool-cases, inl, inr}
use delibera_xyz.Prelude.Text.{◌<>◌, strip_prefix, strip_prefix-append}
use delibera_xyz.Ensue.Keys.{
  coordinator_status, coordinator_snapshot_key, coordinator_tally, coordinator_proposal_id,
  config_task_definition, proposal_index_key, worker_path, proposal_path,
}
pub use delibera_xyz.Host.Observe.{
  IsSettled, Quiet-pure, Quiet-throw, Quiet-lift, Quiet-emit, Quiet-if, Quiet-try, Quiet-maybe,
  Quiet-bind,
}
use delibera_xyz.Host.{Event, emit}
use delibera_xyz.Coordinator.Marks.{Quiet}

module _ {A : Type 0} where
  pub Quiet-read : (k : String) (f : List Event → A) → Quiet (emit (Event.read k) f)
  Quiet-read k f = Quiet-emit (Event.read k) f (λ ms. refl)

  pub Quiet-read_multiple :
      (ks : List String) (f : List Event → A) → Quiet (emit (Event.read_multiple ks) f)
  Quiet-read_multiple ks f = Quiet-emit (Event.read_multiple ks) f (λ ms. refl)

  pub Quiet-clock : (f : List Event → A) → Quiet (emit Event.checked_clock f)
  Quiet-clock f = Quiet-emit Event.checked_clock f (λ ms. refl)

  pub Quiet-slept : (n : ℕ) (f : List Event → A) → Quiet (emit (Event.slept n) f)
  Quiet-slept n f = Quiet-emit (Event.slept n) f (λ ms. refl)

  pub Quiet-uuid : (f : List Event → A) → Quiet (emit Event.drew_uuid f)
  Quiet-uuid f = Quiet-emit Event.drew_uuid f (λ ms. refl)

  pub Quiet-listed : (f : List Event → A) → Quiet (emit Event.listed_workers f)
  Quiet-listed f = Quiet-emit Event.listed_workers f (λ ms. refl)

  pub Quiet-fetched : (u : String) (f : List Event → A) → Quiet (emit (Event.fetched u) f)
  Quiet-fetched u f = Quiet-emit (Event.fetched u) f (λ ms. refl)

  pub Quiet-posted : (u g b : String) (f : List Event → A) → Quiet (emit (Event.posted u g b) f)
  Quiet-posted u g b f = Quiet-emit (Event.posted u g b) f (λ ms. refl)

  pub Quiet-viewed : (v : String) (f : List Event → A) → Quiet (emit (Event.viewed v) f)
  Quiet-viewed v f = Quiet-emit (Event.viewed v) f (λ ms. refl)

  pub Quiet-backed_up : (v : String) (f : List Event → A) → Quiet (emit (Event.backed_up v) f)
  Quiet-backed_up v f = Quiet-emit (Event.backed_up v) f (λ ms. refl)

  Quiet-wrote :
      (k v : String) (f : List Event → A)
      → (k == coordinator_status) ≡ false
      → Quiet (emit (Event.wrote k v) f)
  Quiet-wrote k v f h = Quiet-emit (Event.wrote k v) f (λ ms. rw h)

-- Keys that are not the status's.
ne_status_of_prefix :
    (p s : String)
    → strip_prefix p coordinator_status ≡ none
    → ((p <> s) == coordinator_status) ≡ false
ne_status_of_prefix p s h = elim (Bool-cases ((p <> s) == coordinator_status)) [
  | inl same ↦ absurd (cc (h, strip_prefix-append p s, ap (strip_prefix p) ((eq_iff _ _).0 same)))
  | inr other ↦ other
]

module _ {A : Type 0} (v : String) (f : List Event → A) where
  pub Quiet-wrote_worker : (id leaf : String) → Quiet (emit (Event.wrote (worker_path id leaf) v) f)
  unfolding strip_prefix
  Quiet-wrote_worker id leaf =
      Quiet-wrote _ v f (ne_status_of_prefix "coordination/tasks/" (id <> leaf) refl)

  pub Quiet-wrote_proposal :
      (id leaf : String) → Quiet (emit (Event.wrote (proposal_path id leaf) v) f)
  unfolding strip_prefix
  Quiet-wrote_proposal id leaf =
      Quiet-wrote _ v f (ne_status_of_prefix "coordination/proposals/" (id <> leaf) refl)

  pub Quiet-wrote_snapshot :
      (id : String) → Quiet (emit (Event.wrote (coordinator_snapshot_key id) v) f)
  unfolding strip_prefix
  Quiet-wrote_snapshot id =
      Quiet-wrote _ v f (ne_status_of_prefix "coordination/coordinator/worker_snapshot_" id refl)

  pub Quiet-wrote_task : Quiet (emit (Event.wrote config_task_definition v) f)
  Quiet-wrote_task = Quiet-wrote config_task_definition v f refl

  pub Quiet-wrote_tally : Quiet (emit (Event.wrote coordinator_tally v) f)
  Quiet-wrote_tally = Quiet-wrote coordinator_tally v f refl

  pub Quiet-wrote_proposal_id : Quiet (emit (Event.wrote coordinator_proposal_id v) f)
  Quiet-wrote_proposal_id = Quiet-wrote coordinator_proposal_id v f refl

  pub Quiet-wrote_index : Quiet (emit (Event.wrote proposal_index_key v) f)
  Quiet-wrote_index = Quiet-wrote proposal_index_key v f refl

pub ruleset quiet_rules = (
  Quiet-pure, Quiet-throw, Quiet-lift, Quiet-read, Quiet-read_multiple, Quiet-clock, Quiet-slept,
  Quiet-uuid, Quiet-listed, Quiet-fetched, Quiet-posted, Quiet-viewed, Quiet-backed_up, Quiet-if,
  Quiet-maybe, Quiet-bind, Quiet-try, Quiet-wrote_worker, Quiet-wrote_proposal,
  Quiet-wrote_snapshot, Quiet-wrote_task, Quiet-wrote_tally, Quiet-wrote_proposal_id,
  Quiet-wrote_index,
)
