-- ===== src/Coordinator/Marks.antt =====
-- What of a history an observer of the coordinator's status and of the chain can see, and the rules
-- for programs that add nothing to it. A quiet program also never runs out of fuel.
pub mod Rules
pub mod Parts
pub mod Loops
pub mod Concluding
use text.Mathlib.Text.{◌==◌}
use text.Mathlib.TextEquality.{eq_iff}
use delibera_xyz.Prelude.{
  ℕ, ◌≡◌, refl, ap, ◌∙◌, String, Bool, true, false, Option, none, some, List, [], ◌∷◌, ◌++◌, arith,
  if◌then◌else◌, Bool-cases, inl, inr,
}
use delibera_xyz.Prelude.Text.{◌<>◌, strip_prefix, strip_prefix-append}
use delibera_xyz.Ensue.Keys.{coordinator_status}
use delibera_xyz.Host.Observe.{seen, AddsNothing, QuietOf}
use delibera_xyz.Host.{
  Event, wrote, called, Call, Problem, Outcome, ok, threw, out_of_fuel, Proc, Prog, pure, throw,
  lift, emit, continue_with, ◌>>=◌, ◌>>◌, caught, try_catch, maybe,
}

-- A write of the coordinator's status, or a change call on the chain.
pub data Mark : Type 0 where
  status : String → Mark
  chain : Call → Mark

abbrev pub add_mark : Event → List Mark → List Mark
add_mark (wrote key value) ms = if key == coordinator_status then status value ∷ ms else ms
add_mark (called c) ms = chain c ∷ ms
add_mark e ms = ms

-- The marks of a history, the most recent first.
abbrev pub marks : List Event → List Mark
marks h = seen add_mark h

-- The outcome of a program that added nothing to the marks.
abbrev pub QuietAt : {A : Type 0} → List Mark → Outcome A × Proc → Type 0
QuietAt ms r = AddsNothing add_mark ms r

abbrev pub Quiet : {A : Type 0} → Prog A → Type 0
Quiet m = QuietOf add_mark m
