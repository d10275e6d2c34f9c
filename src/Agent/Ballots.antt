-- ===== src/Agent/Ballots.antt =====
-- Which votes worker-agent/src/workers/ai-voter.ts takes from the model.
use text.Mathlib.Text.{◌==◌}
use text.Mathlib.TextEquality.{eq_iff}
use delibera_xyz.Prelude.{
  ℕ, ◌≤◌, ◌≡◌, String, true, ◌||◌, Option, none, some, ◌⊎◌, inl, inr, arith, ltb, Bool-cases,
  Option-cases,
}
use delibera_xyz.Prelude.Text.{size}
use delibera_xyz.Json.{Json, null, bool, num, str, arr, obj, member}
use delibera_xyz.Host.{Outcome, ok, threw, out_of_fuel}
use delibera_xyz.Host.Observe.{IsSettled}
use delibera_xyz.Agent.Services.{Services, ToolCall}
use delibera_xyz.Agent.Voting.{length_of, check_reasoning, check_fields, check_vote, read_tool_call}

abbrev pub IsDecision : String → Type 0
IsDecision v = (v ≡ "Approved") ⊎ (v ≡ "Rejected")

-- A vote with its reasoning, which has at most 10000 characters where it is a text.
abbrev pub IsBallot : String → Json → Type 0
IsBallot v j = IsDecision v × ((s : String) → j ≡ str s → size s ≤ 10000)

-- If it is a value, it is such a vote.
abbrev pub Ballot : Outcome (String × Json) → Type 0
Ballot (ok b) = IsBallot b.0 b.1
Ballot (threw p) = Unit
Ballot out_of_fuel = ⊥

pub Ballot-IsSettled : (o : Outcome (String × Json)) → Ballot o → IsSettled o
Ballot-IsSettled (ok b) h = tt
Ballot-IsSettled (threw p) h = tt
Ballot-IsSettled out_of_fuel h = h

module _ (V : Services) (vote : String) (h : IsDecision vote) where
  unlimited-Ballot :
      (j : Json) (o : Outcome (Option ℕ))
      → ((s : String) → j ≡ str s → size s ≤ 10000)
      → IsSettled o
      → Ballot (check_reasoning V vote (some j) o)
  unfolding check_reasoning
  unlimited-Ballot j (ok none) k d = (h, k)
  unlimited-Ballot j (ok (some n)) k d = elim (Bool-cases (ltb 10000 n)) [
    | inl long ↦ rw long tt
    | inr short ↦ rw short (h, k)
  ]
  unlimited-Ballot j (threw p) k d = tt
  unlimited-Ballot j out_of_fuel k d = d

  check_reasoning-Ballot : (j : Option Json) → Ballot (check_reasoning V vote j (length_of j))
  unfolding check_reasoning
  check_reasoning-Ballot none = tt
  check_reasoning-Ballot (some null) = tt
  check_reasoning-Ballot (some (str s)) = elim (Bool-cases (ltb 10000 (size s))) [
    | inl long ↦ rw long tt
    | inr short ↦ rw short (h, λ t e. ground (arith, short, e))
  ]
  check_reasoning-Ballot (some (arr xs)) =
      unlimited-Ballot (arr xs) (length_of (some (arr xs))) (λ s e. absurd (ground (arith, e))) tt
  check_reasoning-Ballot (some (obj fs)) =
      unlimited-Ballot (obj fs) (length_of (some (obj fs))) (λ s e. absurd (ground (arith, e)))
        (ground arith)
  check_reasoning-Ballot (some (bool b)) =
      unlimited-Ballot (bool b) (ok none) (λ s e. absurd (ground (arith, e))) tt
  check_reasoning-Ballot (some (num n)) =
      unlimited-Ballot (num n) (ok none) (λ s e. absurd (ground (arith, e))) tt

module _ (V : Services) where
  decision : (v : String) → (v == "Approved" || v == "Rejected") ≡ true → IsDecision v
  decision v h = elim (Bool-cases (v == "Approved")) [
    | inl same ↦ inl ((eq_iff v "Approved").0 same)
    | inr other ↦ inr ((eq_iff v "Rejected").0 (rw other at h))
  ]

  check_fields-Ballot : (vote reasoning : Option Json) → Ballot (check_fields V vote reasoning)
  unfolding check_fields
  check_fields-Ballot (some (str s)) reasoning =
      elim (Bool-cases (s == "Approved" || s == "Rejected")) [
        | inl good ↦ rw good (check_reasoning-Ballot V s (decision s good) reasoning)
        | inr bad ↦ rw bad tt
      ]
  check_fields-Ballot none reasoning = tt
  check_fields-Ballot (some j) reasoning = tt

  check_vote-Ballot : (raw : Json) → Ballot (check_vote V raw)
  unfolding check_vote
  check_vote-Ballot null = tt
  check_vote-Ballot raw = check_fields-Ballot (member "vote" raw) (member "reasoning" raw)

  pub read_tool_call-Ballot : (call : Option ToolCall) → Ballot (read_tool_call V call)
  unfolding read_tool_call
  read_tool_call-Ballot none = tt
  read_tool_call-Ballot (some call) = elim (Bool-cases (call.type == "function")) [
    | inr other ↦ rw other tt
    | inl function ↦ elim (Option-cases (V.env.codec.parse call.arguments)) [
      | inl e ↦ rw (function, e) tt
      | inr (raw, e) ↦ rw (function, e) (check_vote-Ballot raw)
    ]
  ]
