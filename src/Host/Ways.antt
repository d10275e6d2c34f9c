-- ===== src/Host/Ways.antt =====
-- Where a program may end, by what an observer has seen before it and sees after it: a predicate for
-- its value, one for its exceptions, both over what is seen at the end, and a rule for each way to build
-- a program.
use delibera_xyz.Prelude.{
  ◌≡◌, refl, sym, ap, subst, Bool, true, false, Option, none, some, List, ◌∷◌, if◌then◌else◌,
}
use delibera_xyz.Host.{
  Event, Problem, throw, lift, Outcome, ok, threw, out_of_fuel, Proc, Prog, pure, emit,
  continue_with, ◌>>=◌, caught, try_catch, maybe,
}
use delibera_xyz.Host.Observe.{IsSettled, seen, AddsNothing, QuietOf}

abbrev pub WaysOf : Type 0 → Type 0 → Type 1
WaysOf M A = (A → List M → Type 0) × (List M → Type 0)

-- It ends after exactly these.
abbrev pub Exactly : {M : Type 0} (A : Type 0) → List M → WaysOf M A
Exactly A ms = ((λ a here. here ≡ ms), (λ here. here ≡ ms))

abbrev pub LedOf :
    {M A : Type 0} → (Event → List M → List M) → WaysOf M A → Outcome A × Proc → Type 0
LedOf see w (ok a, s) = w.0 a (seen see s.history)
LedOf see w (threw p, s) = w.1 (seen see s.history)
LedOf see w (out_of_fuel, s) = ⊥

-- It ends in one of the ways, if `ms` is what was seen before it.
pub record TakesOf {M A : Type 0} (see : Event → List M → List M) (w : WaysOf M A) (ms : List M)
    (m : Prog A) : Type 0 where
  pub at : (s : Proc) → seen see s.history ≡ ms → LedOf see w (m s)

module _ {M A : Type 0} (see : Event → List M → List M) where
  quiet-LedOf :
      (w : WaysOf M A) (ms : List M) (r : Outcome A × Proc)
      → AddsNothing see ms r
      → ((a : A) → w.0 a ms)
      → w.1 ms
      → LedOf see w r
  quiet-LedOf w ms (ok a, s) q h k = subst (w.0 a) (sym q) (h a)
  quiet-LedOf w ms (threw p, s) q h k = subst w.1 (sym q) k
  quiet-LedOf w ms (out_of_fuel, s) q h k = q

  caught-LedOf :
      (w : WaysOf M A) (thrown : List M → Type 0) (r : Outcome A × Proc) (n : Prog A)
      → LedOf see (w.0, thrown) r
      → ((ms : List M) → thrown ms → TakesOf see w ms n)
      → LedOf see w (caught r n)
  caught-LedOf w thrown (ok a, s) n h k = h
  caught-LedOf w thrown (threw p, s) n h k = (k (seen see s.history) h).at s refl
  caught-LedOf w thrown (out_of_fuel, s) n h k = h

  weaker-LedOf :
      (v w : WaysOf M A) (r : Outcome A × Proc)
      → LedOf see v r
      → ((a : A) (ms : List M) → v.0 a ms → w.0 a ms)
      → ((ms : List M) → v.1 ms → w.1 ms)
      → LedOf see w r
  weaker-LedOf v w (ok a, s) h k t = k a (seen see s.history) h
  weaker-LedOf v w (threw p, s) h k t = t (seen see s.history) h
  weaker-LedOf v w (out_of_fuel, s) h k t = h

  lift-LedOf :
      (w : WaysOf M A) (o : Outcome A) (s : Proc)
      → IsSettled o
      → ((a : A) → o ≡ ok a → w.0 a (seen see s.history))
      → w.1 (seen see s.history)
      → LedOf see w (lift o s)
  unfolding lift
  lift-LedOf w (ok a) s d h k = h a refl
  lift-LedOf w (threw p) s d h k = k
  lift-LedOf w out_of_fuel s d h k = d

module _ {M A B : Type 0} (see : Event → List M → List M) where
  continue_with-LedOf :
      (v : WaysOf M A) (w : WaysOf M B) (r : Outcome A × Proc) (f : A → Prog B)
      → LedOf see v r
      → ((a : A) (ms : List M) → v.0 a ms → TakesOf see w ms (f a))
      → ((ms : List M) → v.1 ms → w.1 ms)
      → LedOf see w (continue_with r f)
  continue_with-LedOf v w (ok a, s) f h k t = (k a (seen see s.history) h).at s refl
  continue_with-LedOf v w (threw p, s) f h k t = t (seen see s.history) h
  continue_with-LedOf v w (out_of_fuel, s) f h k t = h

module _ {M : Type 0} {see : Event → List M → List M} {A : Type 0} where
  pub Takes-pure : (w : WaysOf M A) (ms : List M) (a : A) → w.0 a ms → TakesOf see w ms (pure a)
  unfolding pure
  Takes-pure w ms a h = record { at = λ s e. subst (w.0 a) (sym e) h }

  pub Takes-throw :
      (w : WaysOf M A) (ms : List M) (p : Problem) → w.1 ms → TakesOf see w ms (throw p)
  unfolding throw
  Takes-throw w ms p h = record { at = λ s e. subst w.1 (sym e) h }

  pub Takes-effect :
      (w : WaysOf M A) (ms : List M) (e : Event) (answer : List Event → A)
      → ((a : A) → w.0 a (see e ms))
      → TakesOf see w ms (emit e answer)
  unfolding emit
  Takes-effect w ms e answer h = record {
    at = λ s same.
        subst (λ here. w.0 (answer s.history) (see e here)) (sym same) (h (answer s.history));
  }

  pub Takes-lift :
      (w : WaysOf M A) (ms : List M) (o : Outcome A)
      → IsSettled o
      → ((a : A) → o ≡ ok a → w.0 a ms)
      → w.1 ms
      → TakesOf see w ms (lift o)
  Takes-lift w ms o d h k = record {
    at = λ s e. lift-LedOf see w o s d (λ a q. subst (w.0 a) (sym e) (h a q)) (subst w.1 (sym e) k);
  }

  pub Takes-if :
      (w : WaysOf M A) (ms : List M) (b : Bool) (m n : Prog A)
      → TakesOf see w ms m
      → TakesOf see w ms n
      → TakesOf see w ms (if b then m else n)
  Takes-if w ms true m n km kn = km
  Takes-if w ms false m n km kn = kn

  -- Each branch, with the test's outcome.
  pub Takes-split :
      (w : WaysOf M A) (ms : List M) (b : Bool) (m n : Prog A)
      → (b ≡ true → TakesOf see w ms m)
      → (b ≡ false → TakesOf see w ms n)
      → TakesOf see w ms (if b then m else n)
  Takes-split w ms true m n km kn = km refl
  Takes-split w ms false m n km kn = kn refl

  pub Takes-Quiet :
      (w : WaysOf M A) (ms : List M) (m : Prog A)
      → QuietOf see m
      → ((a : A) → w.0 a ms)
      → w.1 ms
      → TakesOf see w ms m
  Takes-Quiet w ms m q h k = record {
    at = λ s e. quiet-LedOf see w ms (m s) (rw (sym e) (q.at s)) h k;
  }

  -- What ends in some ways ends in weaker ones.
  pub Takes-weaker :
      (v w : WaysOf M A) (ms : List M) (m : Prog A)
      → TakesOf see v ms m
      → ((a : A) (ms' : List M) → v.0 a ms' → w.0 a ms')
      → ((ms' : List M) → v.1 ms' → w.1 ms')
      → TakesOf see w ms m
  Takes-weaker v w ms m h k t = record { at = λ s e. weaker-LedOf see v w (m s) (h.at s e) k t }

  pub Takes-try :
      (w : WaysOf M A) (thrown : List M → Type 0) (ms : List M) (m n : Prog A)
      → TakesOf see (w.0, thrown) ms m
      → ((ms' : List M) → thrown ms' → TakesOf see w ms' n)
      → TakesOf see w ms (try_catch m n)
  unfolding try_catch
  Takes-try w thrown ms m n h k = record {
    at = λ s e. caught-LedOf see w thrown (m s) n (h.at s e) k;
  }

module _ {M : Type 0} {see : Event → List M → List M} {A B : Type 0} where
  pub Takes-maybe :
      (w : WaysOf M B) (ms : List M) (o : Option A) (d : Prog B) (f : A → Prog B)
      → TakesOf see w ms d
      → ((a : A) → TakesOf see w ms (f a))
      → TakesOf see w ms (maybe o d f)
  Takes-maybe w ms none d f kd kf = kd
  Takes-maybe w ms (some a) d f kd kf = kf a

  pub Takes-bind :
      (v : WaysOf M A) (w : WaysOf M B) (ms : List M) (m : Prog A) (f : A → Prog B)
      → TakesOf see v ms m
      → ((a : A) (ms' : List M) → v.0 a ms' → TakesOf see w ms' (f a))
      → ((ms' : List M) → v.1 ms' → w.1 ms')
      → TakesOf see w ms (m >>= f)
  unfolding ◌>>=◌
  Takes-bind v w ms m f h k t = record {
    at = λ s e. continue_with-LedOf see v w (m s) f (h.at s e) k t;
  }

  -- The first step ends after known marks.
  pub Takes-then :
      (w : WaysOf M B) (ms ms' : List M) (m : Prog A) (f : A → Prog B)
      → TakesOf see (Exactly A ms') ms m
      → w.1 ms'
      → ((a : A) → TakesOf see w ms' (f a))
      → TakesOf see w ms (m >>= f)
  Takes-then w ms ms' m f h t k =
      Takes-bind (Exactly A ms') w ms m f h
        (λ a here e. subst (λ there. TakesOf see w there (f a)) (sym e) (k a))
        (λ here e. subst w.1 (sym e) t)

  -- The first step is quiet.
  pub Takes-after :
      (w : WaysOf M B) (ms : List M) (m : Prog A) (f : A → Prog B)
      → QuietOf see m
      → w.1 ms
      → ((a : A) → TakesOf see w ms (f a))
      → TakesOf see w ms (m >>= f)
  Takes-after w ms m f q t k = Takes-then w ms ms m f (Takes-Quiet _ ms m q (λ a. refl) refl) t k

  -- The first step is one effect.
  pub Takes-emit :
      (w : WaysOf M B) (ms : List M) (e : Event) (answer : List Event → A) (f : A → Prog B)
      → ((a : A) → TakesOf see w (see e ms) (f a))
      → TakesOf see w ms (emit e answer >>= f)
  unfolding ◌>>=◌
  Takes-emit w ms e answer f k = record {
    at = λ s same.
        (k (answer s.history)).at (record s { history = e ∷ s.history }) (ap (see e) same);
  }

  -- The first step is one effect, whose answer is that of some history.
  pub Takes-answer :
      (w : WaysOf M B) (ms : List M) (e : Event) (answer : List Event → A) (f : A → Prog B)
      → ((h : List Event) → TakesOf see w (see e ms) (f (answer h)))
      → TakesOf see w ms (emit e answer >>= f)
  unfolding ◌>>=◌
  Takes-answer w ms e answer f k = record {
    at = λ s same. (k s.history).at (record s { history = e ∷ s.history }) (ap (see e) same);
  }
