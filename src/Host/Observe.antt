-- ===== src/Host/Observe.antt =====
-- What an observer sees of a history, and the rules for programs that add nothing to it: one for each
-- way to build a program. A quiet program also never runs out of fuel. `see` says what an effect adds
-- to what was seen before.
use delibera_xyz.Prelude.{
  ◌≡◌, refl, Bool, true, false, Option, none, some, List, [], ◌∷◌, if◌then◌else◌,
}
use delibera_xyz.Host.{
  Event, Problem, Outcome, ok, threw, out_of_fuel, Proc, Prog, pure, throw, lift, emit,
  continue_with, ◌>>=◌, caught, try_catch, maybe,
}

-- The most recent first.
abbrev pub seen : {M : Type 0} → (Event → List M → List M) → List Event → List M
seen see [] = []
seen see (e ∷ h) = see e (seen see h)

-- The outcome of a program that added nothing.
abbrev pub AddsNothing :
    {M A : Type 0} → (Event → List M → List M) → List M → Outcome A × Proc → Type 0
AddsNothing see ms (ok a, s) = seen see s.history ≡ ms
AddsNothing see ms (threw p, s) = seen see s.history ≡ ms
AddsNothing see ms (out_of_fuel, s) = ⊥

pub record QuietOf {M A : Type 0} (see : Event → List M → List M) (m : Prog A) : Type 0 where
  pub at : (s : Proc) → AddsNothing see (seen see s.history) (m s)

-- The outcome is a value or an exception.
abbrev pub IsSettled : {A : Type 0} → Outcome A → Type 0
IsSettled (ok a) = Unit
IsSettled (threw p) = Unit
IsSettled out_of_fuel = ⊥

module _ {M : Type 0} {see : Event → List M → List M} {A : Type 0} where
  pub Quiet-pure : (a : A) → QuietOf see (pure a)
  unfolding pure
  Quiet-pure a = record { at = λ s. refl }

  pub Quiet-throw : (p : Problem) → QuietOf see (throw {A = A} p)
  unfolding throw
  Quiet-throw p = record { at = λ s. refl }

  pub Quiet-lift : (o : Outcome A) → IsSettled o → QuietOf see (lift o)
  unfolding lift
  Quiet-lift (ok a) h = record { at = λ s. refl }
  Quiet-lift (threw p) h = record { at = λ s. refl }
  Quiet-lift out_of_fuel h = absurd h

  pub Quiet-emit :
      (e : Event) (answer : List Event → A)
      → ((ms : List M) → see e ms ≡ ms)
      → QuietOf see (emit e answer)
  unfolding emit
  Quiet-emit e answer h = record { at = λ s. h (seen see s.history) }

  pub Quiet-if :
      (b : Bool) (m n : Prog A) → QuietOf see m → QuietOf see n → QuietOf see (if b then m else n)
  Quiet-if true m n km kn = km
  Quiet-if false m n km kn = kn

  caught-AddsNothing :
      (r : Outcome A × Proc) (m : Prog A) (ms : List M)
      → AddsNothing see ms r
      → QuietOf see m
      → AddsNothing see ms (caught r m)
  caught-AddsNothing (ok a, s) m ms h km = h
  caught-AddsNothing (threw p, s) m ms h km = rw h at (km.at s)
  caught-AddsNothing (out_of_fuel, s) m ms h km = h

  pub Quiet-try : (m n : Prog A) → QuietOf see m → QuietOf see n → QuietOf see (try_catch m n)
  unfolding try_catch
  Quiet-try m n km kn = record {
    at = λ s. caught-AddsNothing (m s) n (seen see s.history) (km.at s) kn;
  }

module _ {M : Type 0} {see : Event → List M → List M} {A B : Type 0} where
  pub Quiet-maybe :
      (o : Option A) (d : Prog B) (f : A → Prog B)
      → QuietOf see d
      → ((a : A) → QuietOf see (f a))
      → QuietOf see (maybe o d f)
  Quiet-maybe none d f kd kf = kd
  Quiet-maybe (some a) d f kd kf = kf a

  continue_with-AddsNothing :
      (r : Outcome A × Proc) (f : A → Prog B) (ms : List M)
      → AddsNothing see ms r
      → ((a : A) → QuietOf see (f a))
      → AddsNothing see ms (continue_with r f)
  continue_with-AddsNothing (ok a, s) f ms h kf = rw h at ((kf a).at s)
  continue_with-AddsNothing (threw p, s) f ms h kf = h
  continue_with-AddsNothing (out_of_fuel, s) f ms h kf = h

  pub Quiet-bind :
      (m : Prog A) (f : A → Prog B)
      → QuietOf see m
      → ((a : A) → QuietOf see (f a))
      → QuietOf see (m >>= f)
  unfolding ◌>>=◌
  Quiet-bind m f km kf = record {
    at = λ s. continue_with-AddsNothing (m s) f (seen see s.history) (km.at s) kf;
  }
