-- ===== src/Vrf/Seed.antt =====
-- The generator of fisherYatesShuffle (coordinator-agent/src/vrf/flow-vrf.ts): reading the seed, and
-- one step of the linear congruential generator with its 32-bit wrap-around. Seeds are the unsigned
-- decimal numerals that Flow's UInt64 and UFix64 print as.
use Prim.Native.Char.{code}
use delibera_xyz.Prelude.{
  ℕ, suc, ◌+◌, ◌-◌, ◌*◌, ◌%◌, String, Option, none, some, ◌&&◌, leb, ltb, ◌==◌, if◌then◌else◌,
}
use delibera_xyz.Prelude.Int.{ℤ, pos, negsuc, sub_ℕ}

-- `s.replace('.', '')`: the first point goes.
unfoldable pub drop_point : String → String
drop_point String.[] = String.[]
drop_point (String.◌∷◌ c s) = if code c == b'.' then s else String.◌∷◌ c (drop_point s)

-- `BigInt(s)`; `none` where it throws a SyntaxError.
unfoldable pub big_int : ℕ → String → Option ℕ
big_int acc String.[] = some acc
big_int acc (String.◌∷◌ c s) =
    let rest = big_int (acc * 10 + (code c - b'0')) s in
    if leb b'0' (code c) && leb (code c) b'9' then rest else none

abbrev pub word : ℕ
word = 4294967296

-- `Number(BigInt(seedStr.replace('.', '')) % BigInt(0xffffffff))`
unfoldable pub first_seed : String → Option ℕ
unfolding drop_point big_int
first_seed s = elim (big_int 0 (drop_point s)) [ none ↦ none | some n ↦ some (n % 0xffffffff) ]

-- The signed reading of a 32-bit pattern.
abbrev pub signed : ℕ → ℤ
signed m = if ltb m 2147483648 then pos m else negsuc (4294967295 - m)

-- `x & 0xffffffff` on an integer.
unfoldable pub to_int32 : ℤ → ℤ
to_int32 (pos n) = signed (n % word)
to_int32 (negsuc n) = signed (4294967295 - n % word)

-- `seed * 1664525 + 1013904223`
unfoldable pub scale : ℤ → ℤ
scale (pos n) = pos (n * 1664525 + 1013904223)
scale (negsuc n) = sub_ℕ 1013904223 (suc n * 1664525)

unfoldable pub next_seed : ℤ → ℤ
unfolding to_int32 scale
next_seed seed = to_int32 (scale seed)
