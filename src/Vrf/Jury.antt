-- ===== src/Vrf/Jury.antt =====
-- selectJuryWithVRF (coordinator-agent/src/vrf/flow-vrf.ts), and selectJury and verifyJurySelection
-- (coordinator-agent/src/vrf/jury-selector.ts). An exception is a value of `JuryError`.
use Prim.Native.String
use mathlib.Core.List.{Perm}
use mathlib.Core.Option.{some-injective}
use delibera_xyz.Prelude.{
  ℕ, ◌-◌, ◌≤◌, ◌<◌, ◌≡◌, refl, ◌↔◌, inl, inr, String, Option, none, some, List, ◌++◌, arith, ltb,
  leb, length, take, drop, length-take, take-append-drop, if◌then◌else◌, Option-cases,
}
use delibera_xyz.Prelude.Int.{pos}
use delibera_xyz.Vrf.Seed.{first_seed}
use delibera_xyz.Vrf.Shuffle.{fisher_yates_shuffle, shuffle_from, shuffle_from-perm, length_of_perm}

pub data JuryError : Type 0 where
  size_exceeds_pool : ℕ → ℕ → JuryError
  size_not_positive : JuryError
  query_failed : JuryError
  bad_seed : String → JuryError

pub data JuryResult (A : Type 0) : Type 0 where
  chosen : A → JuryResult A
  threw : JuryError → JuryResult A

-- The object that selectJuryWithVRF returns.
pub record Draw : Type 0 where
  pub jury : List String
  pub vrf_seed : String
  pub vrf_proof : String

infixr 65 ◌<>◌
abbrev ◌<>◌ : String → String → String
s <> t = String.◌++◌ s t

abbrev proof_text : String → String → String
proof_text id seed = "flow-vrf:" <> id <> ":seed=" <> seed

-- From the seed on: the shuffle and the cut.
unfoldable pub draw_with : List String → ℕ → String → String → JuryResult Draw
draw_with pool size id seed = elim (fisher_yates_shuffle pool seed) [
  | none ↦ threw (bad_seed seed)
  | some shuffled ↦
      chosen (record { jury = take size shuffled; vrf_seed = seed; vrf_proof = proof_text id seed })
]

-- `seed` is the answer of getFlowVRFSeed, `none` where the query rejects.
unfoldable pub select_jury_with_vrf : Option String → List String → ℕ → String → JuryResult Draw
unfolding draw_with
select_jury_with_vrf seed pool size id =
    if ltb (length pool) size
    then threw (size_exceeds_pool size (length pool))
    else if leb size 0
    then threw size_not_positive
    else elim seed [ none ↦ threw query_failed | some s ↦ draw_with pool size id s ]

-- JurySelectionResult
pub record JurySelection : Type 0 where
  pub jury : List String
  pub vrf_seed : String
  pub vrf_proof : String
  pub pool_size : ℕ
  pub jury_size : ℕ
  pub deliberation_id : String
  pub selected_at : String

-- `deliberationId || …`: a missing or empty id gives way to the default.
unfoldable pub jury_id : Option String → String → String
jury_id none now = "delib-" <> now
jury_id (some String.[]) now = "delib-" <> now
jury_id (some (String.◌∷◌ c s)) now = String.◌∷◌ c s

-- `now` and `iso` are the texts of `Date.now()` and of `new Date().toISOString()`.
unfoldable pub select_jury :
    Option String → String → String → List String → ℕ → Option String → JuryResult JurySelection
unfolding select_jury_with_vrf
select_jury seed now iso pool size id =
    elim (select_jury_with_vrf seed pool size (jury_id id now)) [
      | threw e ↦ threw e
      | chosen d ↦ chosen (record {
        jury = d.jury;
        vrf_seed = d.vrf_seed;
        vrf_proof = d.vrf_proof;
        pool_size = length pool;
        jury_size = size;
        deliberation_id = jury_id id now;
        selected_at = iso;
      })
    ]

unfoldable pub verify_jury_selection : List String → ℕ → String → Option (List String)
verify_jury_selection pool size seed = elim (fisher_yates_shuffle pool seed) [
  | none ↦ none
  | some shuffled ↦ some (take size shuffled)
]

-- The jurors are as many as asked for, and with the members left out they are the pool.
pub record IsJuryOf (pool : List String) (size : ℕ) (jury : List String) : Type 0 where
  pub positive : 0 < size
  pub fits : size ≤ length pool
  pub sized : length jury ≡ size
  pub others : List String
  pub drawn : Perm (jury ++ others) pool

fisher_yates_shuffle-perm :
    (pool : List String) (seed : String) {out : List String}
    → fisher_yates_shuffle pool seed ≡ some out
    → Perm out pool
unfolding fisher_yates_shuffle
fisher_yates_shuffle-perm pool seed e = elim (Option-cases (first_seed seed)) [
  | inl bad ↦ absurd (ground arith)
  | inr (n, good) ↦
      let same = some-injective _ _ (rw (good, fisher_yates_shuffle) at e) in
      rw (← same) (shuffle_from-perm (length pool - 1) (pos n) pool)
]

take-IsJuryOf :
    (pool shuffled : List String) (size : ℕ)
    → 0 < size
    → size ≤ length pool
    → Perm shuffled pool
    → IsJuryOf pool size (take size shuffled)
take-IsJuryOf pool shuffled size h k p = record {
  positive = h;
  fits = k;
  sized = omega (arith, length-take size shuffled, length_of_perm p);
  others = drop size shuffled;
  drawn = rw (take-append-drop size shuffled) p;
}

select_jury-inverse :
    (seed : Option String) (now iso : String) (pool : List String) (size : ℕ) (id : Option String)
    {r : JurySelection}
    → select_jury seed now iso pool size id ≡ chosen r
    → (out : List String) × (fisher_yates_shuffle pool r.vrf_seed ≡ some out)
      × (r.jury ≡ take size out)
      × (0 < size)
      × (size ≤ length pool)
unfolding select_jury
select_jury-inverse none now iso pool size id e = absurd (ground arith)
select_jury-inverse (some s) now iso pool size id e =
    elim (Option-cases (fisher_yates_shuffle pool s)) [
      | inl bad ↦ absurd (ground arith)
      | inr (out, good) ↦ (out, ground arith, ground arith, ground arith, ground arith)
    ]

-- A jury that selectJury returns is drawn from the pool without repetition, has the size asked for,
-- which lies between 1 and the size of the pool, and is the one that verifyJurySelection computes
-- from the seed in the result.
pub select_jury-IsJuryOf :
    (seed : Option String) (now iso : String) (pool : List String) (size : ℕ) (id : Option String)
    {r : JurySelection}
    → select_jury seed now iso pool size id ≡ chosen r
    → IsJuryOf pool size r.jury × (verify_jury_selection pool size r.vrf_seed ≡ some r.jury)
unfolding verify_jury_selection
select_jury-IsJuryOf seed now iso pool size id {r} e =
    let (out, shuffled, cut, positive, fits) = select_jury-inverse seed now iso pool size id e in
    (
      rw cut (
          take-IsJuryOf pool out size positive fits
            (fisher_yates_shuffle-perm pool r.vrf_seed shuffled)),
      ground arith,
    )

-- The jury that the seed `s`, read as `n`, gives.
abbrev jury_of : List String → ℕ → Option String → String → String → String → ℕ → JurySelection
jury_of pool size id now iso s n = record {
  jury = take size (shuffle_from (length pool - 1) (pos n) pool);
  vrf_seed = s;
  vrf_proof = proof_text (jury_id id now) s;
  pool_size = length pool;
  jury_size = size;
  deliberation_id = jury_id id now;
  selected_at = iso;
}

-- selectJury returns a jury exactly when the size asked for lies between 1 and the size of the pool
-- and the Flow query answered with a seed that BigInt reads.
pub select_jury-chosen_iff :
    (seed : Option String) (now iso : String) (pool : List String) (size : ℕ) (id : Option String)
    → ((r : JurySelection) × (select_jury seed now iso pool size id ≡ chosen r)) ↔ (
        (s : String) × (n : ℕ) × (seed ≡ some s)
        × (first_seed s ≡ some n)
        × (0 < size)
        × (size ≤ length pool))
unfolding select_jury fisher_yates_shuffle
select_jury-chosen_iff none now iso pool size id =
    (λ h. absurd (ground (arith, h.1)), λ h. absurd (ground (arith, h.2)))
select_jury-chosen_iff (some s) now iso pool size id = (
  λ h. elim (Option-cases (first_seed s)) [
    | inl bad ↦ absurd (ground (arith, h.1))
    | inr (n, good) ↦ (s, n, refl, good, ground (arith, h.1), ground (arith, h.1))
  ],
  λ h. (jury_of pool size id now iso s h.1, ground (arith, h.2, h.3, h.4, h.5)),
)

-- The seed in the result is the answer of the query.
pub select_jury-seed :
    (seed : String) (now iso : String) (pool : List String) (size : ℕ) (id : Option String)
    {r : JurySelection}
    → select_jury (some seed) now iso pool size id ≡ chosen r
    → r.vrf_seed ≡ seed
unfolding select_jury
select_jury-seed seed now iso pool size id e =
    elim (Option-cases (fisher_yates_shuffle pool seed)) [
      | inl bad ↦ absurd (ground arith)
      | inr (out, good) ↦ ground arith
    ]
