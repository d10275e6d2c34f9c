-- ===== src/Vrf/SafeInts.antt =====
-- The numbers of the generator (coordinator-agent/src/vrf/flow-vrf.ts), and the range in which a
-- JavaScript number is an exact integer.
use delibera_xyz.Prelude.{ℕ, ◌*◌, ◌^◌, ◌≤◌, ◌<◌, ◌≡◌, String, some, arith}
use delibera_xyz.Prelude.Int.{ℤ, pos, negsuc, abs}
use delibera_xyz.Vrf.Seed.{first_seed, next_seed, to_int32, scale}

-- Number.MAX_SAFE_INTEGER + 1
abbrev pub safe_limit : ℕ
safe_limit = 2 ^ 53

-- What `x & 0xffffffff` gives is a signed 32-bit integer.
to_int32-abs : (x : ℤ) → abs (to_int32 x) ≤ 2147483648
unfolding to_int32
to_int32-abs (pos n) = ground arith
to_int32-abs (negsuc n) = ground arith

scale-abs : (seed : ℤ) → abs seed < 4294967296 → abs (scale seed) < safe_limit
unfolding scale
scale-abs (pos n) h = ground arith
scale-abs (negsuc n) h = ground arith

-- The seeds of the rounds: the first is what BigInt gives, each later one the generator's next.
pub data SeedOf (s : String) : ℤ → Type 0 where
  first : {n : ℕ} → first_seed s ≡ some n → SeedOf s (pos n)
  later : {x : ℤ} → SeedOf s x → SeedOf s (next_seed x)

first_seed-lt : (s : String) {n : ℕ} → first_seed s ≡ some n → n < 4294967295
unfolding first_seed
first_seed-lt s e = ground arith

SeedOf-abs : {s : String} {x : ℤ} → SeedOf s x → abs x < 4294967296
unfolding next_seed
SeedOf-abs {s} (first e) = omega (arith, first_seed-lt s e)
SeedOf-abs (later {x} r) = omega (arith, to_int32-abs (scale x))

-- In every round of fisherYatesShuffle the product `seed * 1664525` and the sum
-- `seed * 1664525 + 1013904223` lie strictly between -2^53 and 2^53, so the doubles that the program
-- computes are exact.
pub scale-safe :
    {s : String} {x : ℤ}
    → SeedOf s x
    → (abs x * 1664525 < safe_limit) × (abs (scale x) < safe_limit)
scale-safe {x} r = (omega (arith, SeedOf-abs r), scale-abs x (SeedOf-abs r))
