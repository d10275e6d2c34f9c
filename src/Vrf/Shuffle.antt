-- ===== src/Vrf/Shuffle.antt =====
-- The loop of fisherYatesShuffle (coordinator-agent/src/vrf/flow-vrf.ts).
use mathlib.Core.List.{Perm, Permᴰ}
use mathlib.Core.Logic.{∥∥₁_elim}
use native.Mathlib.Nat.{ℕ_set}
use mathlib.Core.Option.{some-injective}
use mathlib.Core.List.Perm
use delibera_xyz.Prelude.{
  ℕ, zero, suc, ◌+◌, ◌-◌, ◌%◌, ◌≡◌, refl, ap, ◌∙◌, String, Option, none, some, List, [], ◌∷◌,
  length, get_elem?, set, Option-cases, inl, inr,
}
use delibera_xyz.Prelude.Int.{ℤ, pos, abs}
use delibera_xyz.Vrf.Seed.{next_seed, first_seed}

module _ {ℓ} {A : Type ℓ} where
  -- `[xs[i], xs[j]] = [xs[j], xs[i]]`; both indices are in range where the loop makes the call.
  unfoldable pub swap : List A → ℕ → ℕ → List A
  swap xs i j = elim (get_elem? xs i) [
    | none ↦ xs
    | some x ↦ elim (get_elem? xs j) [ none ↦ xs | some y ↦ set (set xs i y) j x ]
  ]

  -- The rounds from index `i` down to 1.
  unfoldable pub shuffle_from : ℕ → ℤ → List A → List A
  shuffle_from zero seed xs = xs
  shuffle_from (suc i) seed xs =
      let seed' = next_seed seed in shuffle_from i seed' (swap xs (suc i) (abs seed' % (suc i + 1)))

  -- `none` where `BigInt` throws on the seed.
  unfoldable pub fisher_yates_shuffle : List A → String → Option (List A)
  unfolding shuffle_from swap
  fisher_yates_shuffle pool seed = elim (first_seed seed) [
    | none ↦ none
    | some n ↦ some (shuffle_from (length pool - 1) (pos n) pool)
  ]

  -- To put `x` in the place of the item at `j` and bring that item to the front keeps the items.
  exchange-perm :
      (xs : List A) (j : ℕ) (x y : A) → get_elem? xs j ≡ some y → Perm (y ∷ set xs j x) (x ∷ xs)
  exchange-perm [] j x y e = cc
  exchange-perm (a ∷ xs) zero x y e =
      let same : a ≡ y = some-injective _ _ e in rw same (Perm.swap x y xs)
  exchange-perm (a ∷ xs) (suc j) x y e =
      Perm.trans (Perm.swap a y _)
        (Perm.trans (Perm.cons a (exchange-perm xs j x y e)) (Perm.swap x a xs))

  set-set-perm :
      (xs : List A) (i j : ℕ) (x y : A)
      → get_elem? xs i ≡ some x
      → get_elem? xs j ≡ some y
      → Perm (set (set xs i y) j x) xs
  set-set-perm [] i j x y e f = cc
  set-set-perm (a ∷ xs) zero zero x y e f =
      let same : a ≡ x = some-injective _ _ e in rw same (Perm.refl _)
  set-set-perm (a ∷ xs) zero (suc j) x y e f =
      let same : a ≡ x = some-injective _ _ e in rw same (exchange-perm xs j x y f)
  set-set-perm (a ∷ xs) (suc i) zero x y e f =
      let same : a ≡ y = some-injective _ _ f in rw same (exchange-perm xs i y x e)
  set-set-perm (a ∷ xs) (suc i) (suc j) x y e f = Perm.cons a (set-set-perm xs i j x y e f)

  pub swap-perm : (xs : List A) (i j : ℕ) → Perm (swap xs i j) xs
  unfolding swap
  swap-perm xs i j = elim (Option-cases (get_elem? xs i)) [
    | inl out ↦ rw (out, swap) (Perm.refl xs)
    | inr (x, at_i) ↦ elim (Option-cases (get_elem? xs j)) [
      | inl out ↦ rw (at_i, out, swap) (Perm.refl xs)
      | inr (y, at_j) ↦ rw (at_i, at_j, swap) (set-set-perm xs i j x y at_i at_j)
    ]
  ]

  pub shuffle_from-perm : (i : ℕ) (seed : ℤ) (xs : List A) → Perm (shuffle_from i seed xs) xs
  unfolding shuffle_from
  shuffle_from-perm zero seed xs = Perm.refl xs
  shuffle_from-perm (suc i) seed xs =
      Perm.trans (shuffle_from-perm i (next_seed seed) _) (swap-perm xs (suc i) _)

module _ {ℓ} {A : Type ℓ} where
  length_of_permᴰ : {xs ys : List A} → Permᴰ xs ys → length xs ≡ length ys
  length_of_permᴰ Permᴰ.nil = refl
  length_of_permᴰ (Permᴰ.cons _ p) = ap suc (length_of_permᴰ p)
  length_of_permᴰ (Permᴰ.swap _ _) = refl
  length_of_permᴰ (Permᴰ.trans p q) = length_of_permᴰ p ∙ length_of_permᴰ q

  pub length_of_perm : {xs ys : List A} → Perm xs ys → length xs ≡ length ys
  length_of_perm p = ∥∥₁_elim p (ℕ_set _ _) length_of_permᴰ
