-- ===== src/Provision/Along/Rules.antt =====
-- The rules for what holds along a flow: one for each way to build a flow.
use delibera_xyz.Prelude.{ℕ, ◌≤◌, arith, ◌≡◌, sym, subst, false}
use delibera_xyz.Json.{Codec}
use delibera_xyz.Host.{Problem}
use delibera_xyz.Provision.Jobs.{Job}
use delibera_xyz.Provision.Flow.{
  Request, clock, sleep, Answer, Flow, done, raise, stuck, change, look, ask, ◌>>=◌, rescue,
}
use delibera_xyz.Provision.Along.{
  Made, note-IsHarmless, Ended, returned, raised, Post, is_awaiting, IsCalm, Along, Later, returns,
  raises, changes, looks, asks,
}

Later-le : (q : Request) (t : ℕ) (r : Answer q) (t' : ℕ) → Later q t r t' → t ≤ t'
Later-le clock t now t' h = omega arith
Later-le (sleep ms) t r t' h = omega arith
Later-le q t r t' h = h

-- What follows comes later.
pub IsCalm-bind_after :
    {A B : Type 0} (m : Flow A) (f : A → Flow B) (t : ℕ)
    → IsCalm m t
    → ((a : A) (t' : ℕ) → t ≤ t' → IsCalm (f a) t')
    → IsCalm (m >>= f) t
unfolding ◌>>=◌
IsCalm-bind_after (done a) f t h k = k a t (omega arith)
IsCalm-bind_after (raise p) f t h k = tt
IsCalm-bind_after stuck f t h k = h
IsCalm-bind_after (change g m) f t h k = h
IsCalm-bind_after (look l) f t h k = λ j. IsCalm-bind_after (l j) f t (h j) k
IsCalm-bind_after (ask q l) f t h k = (
  h.0,
  λ r t' later.
      let sooner : t ≤ t' = Later-le q t r t' later in
      IsCalm-bind_after (l r) f t' (h.1 r t' later) (λ a t'' e. k a t'' (omega arith)),
)

pub IsCalm-bind :
    {A B : Type 0} (m : Flow A) (f : A → Flow B) (t : ℕ)
    → IsCalm m t
    → ((a : A) (t' : ℕ) → IsCalm (f a) t')
    → IsCalm (m >>= f) t
IsCalm-bind m f t h k = IsCalm-bind_after m f t h (λ a t' e. k a t')

module _ (c : Codec) where
  -- What follows the end of the first part.
  abbrev pub Follows : {A B : Type 0} → (A → Flow B) → Post B → Post A
  Follows f P t j g (returned a) = Along c P (f a) t j g
  Follows f P t j g (raised p) = P t j g (raised p)

  pub Along-bind :
      {A B : Type 0} {f : A → Flow B} {P : Post B} {m : Flow A} {t : ℕ} {j : Job} {g : Made}
      → Along c (Follows f P) m t j g
      → Along c P (m >>= f) t j g
  unfolding ◌>>=◌
  Along-bind (returns h) = h
  Along-bind (raises h) = raises h
  Along-bind (changes h) = changes (Along-bind h)
  Along-bind (looks h) = looks (Along-bind h)
  Along-bind (asks s h) = asks s (λ r t' later. Along-bind (h r t' later))

  -- What a handler does with what is thrown.
  abbrev pub Handles : {A : Type 0} → (Problem → Flow A) → Post A → Post A
  Handles f P t j g (returned a) = P t j g (returned a)
  Handles f P t j g (raised p) = Along c P (f p) t j g

  pub Along-rescue :
      {A : Type 0} (f : Problem → Flow A) (P : Post A) {m : Flow A} {t : ℕ} {j : Job} {g : Made}
      → Along c (Handles f P) m t j g
      → Along c P (rescue m f) t j g
  unfolding rescue
  Along-rescue f P (returns h) = returns h
  Along-rescue f P (raises h) = h
  Along-rescue f P (changes h) = changes (Along-rescue f P h)
  Along-rescue f P (looks h) = looks (Along-rescue f P h)
  Along-rescue f P (asks s h) = asks s (λ r t' later. Along-rescue f P (h r t' later))

  pub Along-weaker :
      {A : Type 0} (P Q : Post A) {m : Flow A} {t : ℕ} {j : Job} {g : Made}
      → ((t' : ℕ) (j' : Job) (g' : Made) (e : Ended A) → P t' j' g' e → Q t' j' g' e)
      → Along c P m t j g
      → Along c Q m t j g
  Along-weaker P Q k (returns h) = returns (k _ _ _ _ h)
  Along-weaker P Q k (raises h) = raises (k _ _ _ _ h)
  Along-weaker P Q k (changes h) = changes (Along-weaker P Q k h)
  Along-weaker P Q k (looks h) = looks (Along-weaker P Q k h)
  Along-weaker P Q k (asks s h) = asks s (λ r t' later. Along-weaker P Q k (h r t' later))

  -- A calm flow leaves the job and what was made.
  pub IsCalm-Along :
      {A : Type 0} (m : Flow A) {t : ℕ} {j : Job} {g : Made} {P : Post A}
      → IsCalm m t
      → is_awaiting j.status ≡ false
      → ((t' : ℕ) (e : Ended A) → P t' j g e)
      → Along c P m t j g
  IsCalm-Along (done a) {t} h s k = returns (k t (returned a))
  IsCalm-Along (raise p) {t} h s k = raises (k t (raised p))
  IsCalm-Along stuck h s k = absurd h
  IsCalm-Along (change l m) h s k = absurd h
  IsCalm-Along (look l) {j = j} h s k = looks (IsCalm-Along (l j) (h j) s k)
  IsCalm-Along (ask q l) {j = j} {g = g} {P = P} h s k = asks {g = g} s λ r t' later.
      subst (λ made. Along c P (l r) t' j made) (sym (note-IsHarmless c q r g h.0))
        (IsCalm-Along (l r) (h.1 r t' later) s k)

  Follows-ended :
      {A B : Type 0} (f : A → Flow B) (P : Post B) (t : ℕ) (j : Job) (g : Made) (e : Ended A)
      → ((a : A) → Along c P (f a) t j g)
      → ((p : Problem) → P t j g (raised p))
      → Follows f P t j g e
  Follows-ended f P t j g (returned a) k l = k a
  Follows-ended f P t j g (raised p) k l = l p

  -- First a calm flow, then the rest at any later time.
  pub IsCalm-then :
      {A B : Type 0} (m : Flow A) (f : A → Flow B) {t : ℕ} {j : Job} {g : Made} {P : Post B}
      → IsCalm m t
      → is_awaiting j.status ≡ false
      → ((t' : ℕ) (a : A) → Along c P (f a) t' j g)
      → ((t' : ℕ) (p : Problem) → P t' j g (raised p))
      → Along c P (m >>= f) t j g
  IsCalm-then m f {j = j} {g = g} {P = P} h s k l =
      Along-bind (IsCalm-Along m h s (λ t' e. Follows-ended f P t' j g e (k t') (l t')))
