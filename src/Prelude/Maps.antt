-- ===== src/Prelude/Maps.antt =====
-- A JavaScript Map whose keys are texts: the list of its entries in the order of insertion.
use text.Mathlib.Text.{◌==◌}
use text.Mathlib.TextEquality.{eq_iff}
use Prim.Native.Nat.{suc, ◌≤◌}
use Prim.Native.String.{String}
use mathlib.Core.Path.{◌≡◌, refl, sym, ◌∙◌}
use mathlib.Core.Logic.{◌≢◌, inl, inr}
use mathlib.Core.Bool.{Bool, true, false}
use mathlib.Core.Option.{Option, none, some}
use mathlib.Core.List.{List, [], ◌∷◌}
use native.Mathlib.Omega.{arith}
use delibera_xyz.Prelude.Tests.{if◌then◌else◌, Bool-cases}
use delibera_xyz.Prelude.Lists.{length, filter}

pub eq_refl : (s : String) → (s == s) ≡ true
eq_refl s = (eq_iff s s).1 refl

pub ne_false : (s t : String) → s ≢ t → (s == t) ≡ false
ne_false s t h = elim (Bool-cases (s == t)) [
  | inl same ↦ absurd (h ((eq_iff s t).0 same))
  | inr other ↦ other
]

module _ {A : Type 0} where
  -- `map.get(k)`
  unfoldable pub find : String → List (String × A) → Option A
  find k [] = none
  find k ((j, v) ∷ m) = if j == k then some v else find k m

  -- `map.set(k, v)`: a key keeps its place.
  unfoldable pub store : String → A → List (String × A) → List (String × A)
  store k v [] = (k, v) ∷ []
  store k v ((j, w) ∷ m) = if j == k then (j, v) ∷ m else (j, w) ∷ store k v m

  -- `map.delete(k)`
  unfoldable pub discard : String → List (String × A) → List (String × A)
  discard k [] = []
  discard k ((j, w) ∷ m) = if j == k then m else (j, w) ∷ discard k m

  -- No key stands twice.
  abbrev pub IsDistinct : List (String × A) → Type 0
  IsDistinct [] = Unit
  IsDistinct ((k, v) ∷ m) = (find k m ≡ none) × IsDistinct m

  pub find-store-same : (k : String) (v : A) (m : List (String × A)) → find k (store k v m) ≡ some v
  unfolding find store
  find-store-same k v [] = rw (eq_refl k) refl
  find-store-same k v ((j, w) ∷ m) = elim (Bool-cases (j == k)) [
    | inl same ↦ rw (same, same) refl
    | inr other ↦ rw (other, other) (find-store-same k v m)
  ]

  pub find-store-other :
      (k other : String) (v : A) (m : List (String × A))
      → k ≢ other
      → find other (store k v m) ≡ find other m
  unfolding find store
  find-store-other k other v [] h = rw (ne_false k other h) refl
  find-store-other k other v ((j, w) ∷ m) h = elim (Bool-cases (j == k)) [
    | inl same ↦
        let e : j ≡ k = (eq_iff j k).0 same in
        let apart : (j == other) ≡ false = ne_false j other (λ e'. h (sym e ∙ e')) in
        rw (same, apart) refl
    | inr differs ↦ elim (Bool-cases (j == other)) [
      | inl found ↦ rw (differs, found) refl
      | inr passed ↦ rw (differs, passed) (find-store-other k other v m h)
    ]
  ]

  pub find-discard-other :
      (k other : String) (m : List (String × A))
      → k ≢ other
      → find other (discard k m) ≡ find other m
  unfolding find discard
  find-discard-other k other [] h = refl
  find-discard-other k other ((j, w) ∷ m) h = elim (Bool-cases (j == k)) [
    | inl same ↦
        let e : j ≡ k = (eq_iff j k).0 same in
        let apart : (j == other) ≡ false = ne_false j other (λ e'. h (sym e ∙ e')) in
        rw (same, apart) refl
    | inr differs ↦ elim (Bool-cases (j == other)) [
      | inl found ↦ rw (differs, found) refl
      | inr passed ↦ rw (differs, passed) (find-discard-other k other m h)
    ]
  ]

  pub find-discard-none :
      (k other : String) (m : List (String × A))
      → find other m ≡ none
      → find other (discard k m) ≡ none
  unfolding find discard
  find-discard-none k other [] h = refl
  find-discard-none k other ((j, w) ∷ m) h = elim (Bool-cases (j == other)) [
    | inl found ↦ absurd (ground (arith, h, found))
    | inr passed ↦
        let deeper : find other m ≡ none = rw passed at h in
        elim (Bool-cases (j == k)) [
          | inl same ↦ rw same deeper
          | inr differs ↦ rw (differs, passed) (find-discard-none k other m deeper)
        ]
  ]

  pub find-filter-none :
      (p : String × A → Bool) (k : String) (m : List (String × A))
      → find k m ≡ none
      → find k (filter p m) ≡ none
  unfolding find
  find-filter-none p k [] h = refl
  find-filter-none p k ((j, w) ∷ m) h = elim (Bool-cases (j == k)) [
    | inl found ↦ absurd (ground (arith, h, found))
    | inr passed ↦
        let deeper : find k m ≡ none = rw passed at h in
        elim (Bool-cases (p (j, w))) [
          | inl kept ↦ rw (kept, passed) (find-filter-none p k m deeper)
          | inr dropped ↦ rw dropped (find-filter-none p k m deeper)
        ]
  ]

  pub discard-IsDistinct :
      (k : String) (m : List (String × A)) → IsDistinct m → IsDistinct (discard k m)
  unfolding discard
  discard-IsDistinct k [] h = tt
  discard-IsDistinct k ((j, w) ∷ m) h = elim (Bool-cases (j == k)) [
    | inl same ↦ rw same h.1
    | inr differs ↦ rw differs (find-discard-none k j m h.0, discard-IsDistinct k m h.1)
  ]

  pub filter-IsDistinct :
      (p : String × A → Bool) (m : List (String × A)) → IsDistinct m → IsDistinct (filter p m)
  filter-IsDistinct p [] h = tt
  filter-IsDistinct p ((j, w) ∷ m) h = elim (Bool-cases (p (j, w))) [
    | inl kept ↦ rw kept (find-filter-none p j m h.0, filter-IsDistinct p m h.1)
    | inr dropped ↦ rw dropped (filter-IsDistinct p m h.1)
  ]

  pub store-IsDistinct :
      (k : String) (v : A) (m : List (String × A)) → IsDistinct m → IsDistinct (store k v m)
  unfolding store find
  store-IsDistinct k v [] h = (refl, tt)
  store-IsDistinct k v ((j, w) ∷ m) h = elim (Bool-cases (j == k)) [
    | inl same ↦ rw same h
    | inr differs ↦
        let apart : k ≢ j = λ e. ground (arith, differs, eq_refl k, e) in
        rw differs (find-store-other k j v m apart ∙ h.0, store-IsDistinct k v m h.1)
  ]

  pub length-store_found :
      (k : String) (v w : A) (m : List (String × A))
      → find k m ≡ some w
      → length (store k v m) ≡ length m
  unfolding find store
  length-store_found k v w [] h = absurd (ground (arith, h))
  length-store_found k v w ((j, x) ∷ m) h = elim (Bool-cases (j == k)) [
    | inl same ↦ rw same refl
    | inr differs ↦
        let deeper : find k m ≡ some w = rw differs at h in
        rw differs (omega (arith, length-store_found k v w m deeper))
  ]

  pub length-store_le :
      (k : String) (v : A) (m : List (String × A)) → length (store k v m) ≤ suc (length m)
  unfolding store
  length-store_le k v [] = omega arith
  length-store_le k v ((j, w) ∷ m) = elim (Bool-cases (j == k)) [
    | inl same ↦ rw same (omega arith)
    | inr differs ↦ rw differs (omega (arith, length-store_le k v m))
  ]

  pub length-discard_le : (k : String) (m : List (String × A)) → length (discard k m) ≤ length m
  unfolding discard
  length-discard_le k [] = omega arith
  length-discard_le k ((j, w) ∷ m) = elim (Bool-cases (j == k)) [
    | inl same ↦ rw same (omega arith)
    | inr differs ↦ rw differs (omega (arith, length-discard_le k m))
  ]

  -- Where no key stands twice, a filter keeps exactly the entries that pass it.
  pub find-filter :
      (p : String × A → Bool) (k : String) (m : List (String × A))
      → IsDistinct m
      → find k (filter p m)
        ≡ elim (find k m) [ none ↦ none | some v ↦ if p (k, v) then some v else none ]
  unfolding find
  find-filter p k [] h = refl
  find-filter p k ((j, w) ∷ m) h = elim (Bool-cases (j == k)) [
    | inl same ↦
        let e : j ≡ k = (eq_iff j k).0 same in
        let gone : find k (filter p m) ≡ none = find-filter-none p k m (rw (sym e) h.0) in
        elim (Bool-cases (p (k, w))) [
          | inl kept ↦ rw (e, kept, eq_refl k, kept) refl
          | inr dropped ↦ rw (e, dropped, eq_refl k, dropped) gone
        ]
    | inr differs ↦ elim (Bool-cases (p (j, w))) [
      | inl kept ↦ rw (differs, kept, differs) (find-filter p k m h.1)
      | inr dropped ↦ rw (differs, dropped) (find-filter p k m h.1)
    ]
  ]
