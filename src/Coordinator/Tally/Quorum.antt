-- ===== src/Coordinator/Tally/Quorum.antt =====
-- What the decision of aggregateResults means.
use delibera_xyz.Prelude.{
  ℕ, ◌+◌, ◌*◌, ◌/◌, ◌≤◌, ◌<◌, ◌≡◌, ◌↔◌, inl, inr, true, Option, none, some, List, [], ◌∷◌, arith,
  any, count, length, leb, if◌then◌else◌, Bool-cases,
}
use delibera_xyz.Json.{Json, num}
use delibera_xyz.Host.{ok}
use delibera_xyz.Coordinator.Tally.{approved, rejected, Count, min_positives, decide_votes}
use delibera_xyz.Coordinator.Tally.Counts.{
  is_null, voted, casts, casts_exclusive, expected_count, decide_votes-expected_count,
}

-- A count that is returned is the expected one.
pub decide_votes-inverse :
    (quorum : Option Json) (n : ℕ) (rs : List Json) {c : Count}
    → decide_votes quorum n rs ≡ ok c
    → c ≡ expected_count quorum n rs
decide_votes-inverse quorum n rs e = elim (Bool-cases (any is_null rs)) [
  | inl bad ↦ absurd (cc (e, rw bad at (decide_votes-expected_count quorum n rs)))
  | inr good ↦ cc (e, rw good at (decide_votes-expected_count quorum n rs))
]

half_iff : (n a : ℕ) → (n / 2 + 1 ≤ a) ↔ (n < 2 * a)
half_iff n a = (λ h. omega arith, λ h. omega arith)

decision_iff_leb :
    {P : Type 0} (m a : ℕ) → (m ≤ a) ↔ P → ((if leb m a then approved else rejected) ≡ approved) ↔ P
decision_iff_leb m a h = (λ e. h.0 (ground arith), λ p. let le = h.1 p in ground arith)

-- With no quorum configured and at least one vote cast, a proposal is approved exactly when more
-- than half of the workers of the snapshot voted for it.
pub approved_iff_majority :
    (n : ℕ) (rs : List Json) {c : Count}
    → decide_votes none n rs ≡ ok c
    → any voted rs ≡ true
    → (c.decision ≡ approved) ↔ (n < 2 * count (casts "Approved") rs)
unfolding min_positives
approved_iff_majority n rs e v =
    rw (decide_votes-inverse none n rs e, v) (decision_iff_leb _ _ (half_iff n _))

-- With a quorum configured and at least one vote cast, a proposal is approved exactly when the votes
-- for it reach the quorum, which counts no rejections; so with the quorum 0, each such proposal is
-- approved.
pub approved_iff_quorum :
    (q n : ℕ) (rs : List Json) {c : Count}
    → decide_votes (some (num q)) n rs ≡ ok c
    → any voted rs ≡ true
    → (c.decision ≡ approved) ↔ (q ≤ count (casts "Approved") rs)
unfolding min_positives
approved_iff_quorum q n rs e v =
    rw (decide_votes-inverse (some (num q)) n rs e, v) (decision_iff_leb _ _ ((λ h. h), (λ h. h)))

counts-le : (rs : List Json) → count (casts "Approved") rs + count (casts "Rejected") rs ≤ length rs
counts-le [] = omega arith
counts-le (r ∷ rs) = ground (arith, counts-le rs, casts_exclusive r)

-- No worker is counted twice: the votes for and against together are at most as many as the results.
pub decide_votes-le :
    (quorum : Option Json) (n : ℕ) (rs : List Json) {c : Count}
    → decide_votes quorum n rs ≡ ok c
    → c.approved + c.rejected ≤ length rs
decide_votes-le quorum n rs e =
    rw (decide_votes-inverse quorum n rs e) (ground (arith, counts-le rs))
