-- ===== src/Ensue/Missing.antt =====
-- Which errors say that a memory is missing: isNotFoundError and the tests beside it in updateMemory of
-- ensue-client/src/ensue-client.ts.
use Prim.Native.Char.{code}
use text.Mathlib.TextEquality.{Char-path}
use text.Mathlib.TextLemmas.{nil-append, cons-append}
use delibera_xyz.Prelude.{
  ℕ, Bool, Option, ◌≡◌, refl, sym, ◌∙◌, ap, String, true, false, ◌||◌, some, none, ◌⊎◌, inl, inr,
  ◌↔◌, arith, ◌==◌, Bool-cases, Option-cases,
}
use delibera_xyz.Prelude.Text.{◌<>◌, has_prefix, includes, strip_prefix, strip_prefix-append}
use delibera_xyz.Ensue.Client.{
  Network, RpcError, http, failure, says_not_found, is_not_found_error, is_missing,
}

-- The text has this part.
abbrev pub Mentions : String → String → Type 0
Mentions part s = (front : String) × ((back : String) × (s ≡ front <> (part <> back)))

abbrev pub SaysNotFound : String → Type 0
SaysNotFound s = Mentions "not found" s ⊎ Mentions "does not exist" s

-- The answer had the status 404, or the message says it; in an error that is none of axios, in letters of
-- either case.
abbrev pub SaysMissing : Network → RpcError → Type 0
SaysMissing N (http status message) = (status ≡ some 404) ⊎ SaysNotFound message
SaysMissing N (failure message) = SaysNotFound (N.lower message) ⊎ SaysNotFound message

strip_prefix-rest : (p s : String) {back : String} → strip_prefix p s ≡ some back → s ≡ p <> back
unfolding strip_prefix
strip_prefix-rest String.[] s {back} h = let same : s ≡ back = cc h in same ∙ sym (nil-append back)
strip_prefix-rest (String.◌∷◌ c p) String.[] h = absurd (ground (arith, h))
strip_prefix-rest (String.◌∷◌ c p) (String.◌∷◌ d s) {back} h =
    elim (Bool-cases (code c == code d)) [
      | inr e ↦ absurd (ground (arith, h, e))
      | inl e ↦
          let same : c ≡ d = Char-path c d (ground (arith, e)) in
          ap (String.◌∷◌ d) (strip_prefix-rest p s (rw e at h))
          ∙ ap (λ x. String.◌∷◌ x (p <> back)) (sym same)
          ∙ sym (cons-append c p back)
    ]

has_prefix-rest : (p s : String) → has_prefix p s ≡ true → (back : String) × (s ≡ p <> back)
unfolding has_prefix
has_prefix-rest p s h = elim (Option-cases (strip_prefix p s)) [
  | inl e ↦ absurd (ground (arith, h, e))
  | inr (back, e) ↦ (back, strip_prefix-rest p s e)
]

has_prefix-append : (p back : String) → has_prefix p (p <> back) ≡ true
unfolding has_prefix
has_prefix-append p back = rw (has_prefix, strip_prefix-append p back) refl

includes-Mentions : (p s : String) → includes p s ≡ true → Mentions p s
unfolding includes
includes-Mentions p String.[] h =
    let k = has_prefix-rest p "" h in (String.[], (k.0, k.1 ∙ sym (nil-append (p <> k.0))))
includes-Mentions p (String.◌∷◌ c s) h = elim (Bool-cases (has_prefix p (String.◌∷◌ c s))) [
  | inl e ↦
      let k = has_prefix-rest p (String.◌∷◌ c s) e in
      (String.[], (k.0, k.1 ∙ sym (nil-append (p <> k.0))))
  | inr e ↦
      let k = includes-Mentions p s (rw e at h) in
      (String.◌∷◌ c k.0, (k.1.0, ap (String.◌∷◌ c) k.1.1 ∙ sym (cons-append c k.0 (p <> k.1.0))))
]

prefix-includes : (p s : String) → has_prefix p s ≡ true → includes p s ≡ true
unfolding includes
prefix-includes p String.[] h = h
prefix-includes p (String.◌∷◌ c s) h = rw h refl

includes-append : (p front back : String) → includes p (front <> (p <> back)) ≡ true
unfolding includes
includes-append p String.[] back =
    rw nil-append (prefix-includes p (p <> back) (has_prefix-append p back))
includes-append p (String.◌∷◌ c front) back =
    rw (cons-append, includes-append p front back) (ground arith)

includes_iff : (p s : String) → includes p s ≡ true ↔ Mentions p s
includes_iff p s = (includes-Mentions p s, λ m. ap (includes p) m.1.1 ∙ includes-append p m.0 m.1.0)

says_not_found_iff : (N : Network) (s : String) → says_not_found N s ≡ true ↔ SaysNotFound s
unfolding says_not_found
says_not_found_iff N s = (
  λ h. elim (Bool-cases (includes "not found" s)) [
    | inl e ↦ inl ((includes_iff "not found" s).0 e)
    | inr e ↦ inr ((includes_iff "does not exist" s).0 (ground (arith, h, e)))
  ],
  λ m. elim m [
    | inl k ↦ let e = (includes_iff "not found" s).1 k in ground (arith, e)
    | inr k ↦ let e = (includes_iff "does not exist" s).1 k in ground (arith, e)
  ],
)

-- The union of two tests.
either_iff : {P Q : Type 0} (a b : Bool) → a ≡ true ↔ P → b ≡ true ↔ Q → ((a || b) ≡ true) ↔ (P ⊎ Q)
either_iff true b h k = ((λ e. inl (h.0 refl)), (λ m. refl))
either_iff false b h k =
    ((λ e. inr (k.0 e)), λ m. elim m [ inl p ↦ absurd (ground (arith, h.1 p)) | inr q ↦ k.1 q ])

status_iff :
    (status : Option ℕ) (message : String) (N : Network)
    → is_not_found_error N (http status message) ≡ true ↔ (status ≡ some 404)
unfolding is_not_found_error
status_iff none message N = ((λ h. absurd (ground (arith, h))), (λ h. absurd (ground (arith, h))))
status_iff (some n) message N = (
  (λ h. let same : n ≡ 404 = ground (arith, h) in ap some same),
  (λ h. let same : n ≡ 404 = cc h in ground (arith, same)),
)

-- The test of the code says what the error says.
pub is_missing_iff : (N : Network) (e : RpcError) → is_missing N e ≡ true ↔ SaysMissing N e
unfolding is_missing is_not_found_error
is_missing_iff N (http status message) =
    either_iff (is_not_found_error N (http status message)) (says_not_found N message)
      (status_iff status message N) (says_not_found_iff N message)
is_missing_iff N (failure message) =
    either_iff (says_not_found N (N.lower message)) (says_not_found N message)
      (says_not_found_iff N (N.lower message)) (says_not_found_iff N message)
