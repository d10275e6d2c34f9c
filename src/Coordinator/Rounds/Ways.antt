-- ===== src/Coordinator/Rounds/Ways.antt =====
-- The rules of Host/Ways for what is seen of the coordinator's status and of the chain.
use delibera_xyz.Prelude.{List}
use delibera_xyz.Host.{Prog, Outcome, Proc}
use delibera_xyz.Host.Ways.{WaysOf, TakesOf, LedOf}
use delibera_xyz.Coordinator.Marks.{Mark, add_mark}
pub use delibera_xyz.Host.Ways.{
  Exactly, Takes-pure, Takes-throw, Takes-if, Takes-Quiet, Takes-weaker, Takes-try, Takes-maybe,
  Takes-bind, Takes-then, Takes-after, Takes-emit,
}

abbrev pub Ways : Type 0 → Type 1
Ways A = WaysOf Mark A

abbrev pub LedBy : {A : Type 0} → Ways A → Outcome A × Proc → Type 0
LedBy w r = LedOf add_mark w r

-- It ends in one of the ways, if the marks before it are `ms`.
abbrev pub Takes : {A : Type 0} → Ways A → List Mark → Prog A → Type 0
Takes w ms m = TakesOf add_mark w ms m
