-- ===== src/Vrf/Tests.antt =====
-- Draws of a jury at concrete inputs.
use delibera_xyz.Prelude.{ℕ, ◌≡◌, refl, ◌↔◌, ◌<◌, ◌≤◌, ◌*◌, String, some, List, [], ◌∷◌, length}
use delibera_xyz.Prelude.Int.{pos, abs}
use delibera_xyz.Vrf.Seed.{first_seed, next_seed, scale}
use delibera_xyz.Vrf.Shuffle.{fisher_yates_shuffle}
use delibera_xyz.Vrf.Jury.{
  chosen, JurySelection, select_jury, jury_id, verify_jury_selection, IsJuryOf,
  select_jury-IsJuryOf, select_jury-chosen_iff,
}
use delibera_xyz.Vrf.SafeInts.{first, later, safe_limit, scale-safe}

abbrev pool : List String
pool = "ann" ∷ "ben" ∷ "cem" ∷ "dee" ∷ []

abbrev selection : JurySelection
selection = record {
  jury = "cem" ∷ "dee" ∷ [];
  vrf_seed = "12345";
  vrf_proof = "flow-vrf:d1:seed=12345";
  pool_size = 4;
  jury_size = 2;
  deliberation_id = "d1";
  selected_at = "now";
}

selected : select_jury (some "12345") "0" "now" pool 2 (some "d1") ≡ chosen selection
unfolding select_jury fisher_yates_shuffle first_seed next_seed jury_id
selected = refl

select_jury-IsJuryOf_example :
    IsJuryOf pool 2 selection.jury
    × (verify_jury_selection pool 2 selection.vrf_seed ≡ some selection.jury)
select_jury-IsJuryOf_example =
    select_jury-IsJuryOf (some "12345") "0" "now" pool 2 (some "d1") selected

select_jury-chosen_iff_example :
    ((r : JurySelection) × (select_jury (some "12345") "0" "now" pool 2 (some "d1") ≡ chosen r)) ↔ (
      (s : String) × (n : ℕ) × (some "12345" ≡ some s)
      × (first_seed s ≡ some n)
      × (0 < 2)
      × (2 ≤ length pool))
select_jury-chosen_iff_example = select_jury-chosen_iff (some "12345") "0" "now" pool 2 (some "d1")

seeded : first_seed "12345" ≡ some 12345
unfolding first_seed
seeded = refl

scale-safe_example :
    (abs (next_seed (pos 12345)) * 1664525 < safe_limit)
    × (abs (scale (next_seed (pos 12345))) < safe_limit)
scale-safe_example = scale-safe (later (first seeded))
