-- ===== src/Coordinator/Tally/Counts.antt =====
-- The loops of aggregateResults over the workers' results, against what they count.
use text.Mathlib.TextEquality.{eq_iff}
use native.Mathlib.Nat.{zero-add}
use delibera_xyz.Prelude.{
  ℕ, suc, ◌+◌, ◌≡◌, refl, ◌⊎◌, ◌∙◌, inl, inr, Bool, true, false, ◌||◌, String, Option, none, some,
  List, [], ◌∷◌, arith, any, count, leb, if◌then◌else◌, Bool-cases,
}
use delibera_xyz.Json.{Json, null, str, obj, member, member?, truthy, truthy?}
use delibera_xyz.Host.{Outcome, ok, threw, type_error}
use delibera_xyz.Coordinator.Tally.{
  approved, rejected, Count, extract_vote, has_votes, count_votes, is_vote, sum_values,
  min_positives, decide_votes,
}

abbrev pub is_null : Json → Bool
is_null null = true
is_null j = false

abbrev pub output_vote : Json → Option Json
output_vote r = member? "vote" (member "output" r)

abbrev filled_text : Option Json → Bool
filled_text (some (str s)) = truthy (str s)
filled_text none = false
filled_text (some j) = false

-- The result holds a vote: one of the TypeScript workers, or else one of the IronClaw workers.
abbrev pub voted : Json → Bool
voted r = truthy? (output_vote r) || filled_text (member "option" r)

-- The result's vote is the text `s`.
abbrev pub casts : String → Json → Bool
casts s r =
    if truthy? (output_vote r) then is_vote (output_vote r) s else is_vote (member "option" r) s

extract_vote-null : (r : Json) → is_null r ≡ true → extract_vote r ≡ threw type_error
unfolding extract_vote
extract_vote-null null e = refl
extract_vote-null (obj fs) e = cc
extract_vote-null r e = cc

abbrev text_only : Option Json → Option Json
text_only (some (str s)) = some (str s)
text_only none = none
text_only (some j) = none

abbrev vote_of : Json → Option Json
vote_of r = if truthy? (output_vote r) then output_vote r else text_only (member "option" r)

-- What a vote counts as, for a text `s`.
record Reads (v : Option Json) (r : Json) : Type 0 where
  truth : truthy? v ≡ voted r
  yes_vote : is_vote v "Approved" ≡ casts "Approved" r
  no_vote : is_vote v "Rejected" ≡ casts "Rejected" r

text_only-filled : (o : Option Json) → truthy? (text_only o) ≡ filled_text o
text_only-filled none = refl
text_only-filled (some (str s)) = refl
text_only-filled (some null) = refl
text_only-filled (some j) = refl

text_only-is_vote : (o : Option Json) (s : String) → is_vote (text_only o) s ≡ is_vote o s
text_only-is_vote none s = refl
text_only-is_vote (some (str t)) s = refl
text_only-is_vote (some null) s = refl
text_only-is_vote (some j) s = refl

vote_of-Reads : (r : Json) → Reads (vote_of r) r
vote_of-Reads r = elim (Bool-cases (truthy? (output_vote r))) [
  | inl here ↦ record { truth = rw here here; yes_vote = rw here; no_vote = rw here }
  | inr not_here ↦ record {
    truth = rw not_here (text_only-filled (member "option" r));
    yes_vote = rw not_here (text_only-is_vote (member "option" r) "Approved");
    no_vote = rw not_here (text_only-is_vote (member "option" r) "Rejected");
  }
]

option-ok :
    (o : Option Json)
    → ◌≡◌ {A = Outcome (Option Json)}
        (elim o [ some (str s) ↦ ok (some (str s)) | _ ↦ ok none ])
        (ok (text_only o))
option-ok none = refl
option-ok (some (str s)) = refl
option-ok (some null) = refl
option-ok (some j) = refl

extract_vote-ok : (r : Json) → is_null r ≡ false → extract_vote r ≡ ok (vote_of r)
unfolding extract_vote
extract_vote-ok null e = cc
extract_vote-ok (obj fs) e = elim (Bool-cases (truthy? (output_vote (obj fs)))) [
  | inl here ↦ rw here
  | inr not_here ↦ rw not_here (option-ok (member "option" (obj fs)))
]
extract_vote-ok r e = refl

-- The search for a first vote.
has_votes-any : (rs : List Json) → any is_null rs ≡ false → has_votes rs ≡ ok (any voted rs)
unfolding has_votes
has_votes-any [] e = refl
has_votes-any (r ∷ rs) e =
    let seen = vote_of-Reads r in
    rw (extract_vote-ok r (ground arith), has_votes)
      (rw seen.truth (ground (arith, has_votes-any rs)))

is_vote_exclusive : (v : Option Json) → is_vote v "Approved" ≡ true → is_vote v "Rejected" ≡ false
is_vote_exclusive none e = cc
is_vote_exclusive (some (str t)) e = let same = (eq_iff t "Approved").0 e in rw same refl
is_vote_exclusive (some null) e = cc
is_vote_exclusive (some j) e = cc

-- One result makes one of the counters grow at most.
pub casts_exclusive : (r : Json) → casts "Approved" r ≡ true → casts "Rejected" r ≡ false
casts_exclusive r e = elim (Bool-cases (truthy? (output_vote r))) [
  | inl here ↦ rw here (is_vote_exclusive (output_vote r) (rw here at e))
  | inr not_here ↦ rw not_here (is_vote_exclusive (member "option" r) (rw not_here at e))
]

bump_counts :
    (a b m n : ℕ) (p q : Bool)
    → (p ≡ true → q ≡ false)
    → ◌≡◌ {A = Outcome (ℕ × ℕ)}
        (ok ((if p then suc a else a) + m, (if p then b else (if q then suc b else b)) + n))
        (ok (a + (if p then suc m else m), b + (if q then suc n else n)))
bump_counts a b m n p q h = ground arith

-- The two counters.
count_votes-count :
    (rs : List Json) (a b : ℕ)
    → any is_null rs ≡ false
    → count_votes a b rs ≡ ok (a + count (casts "Approved") rs, b + count (casts "Rejected") rs)
unfolding count_votes
count_votes-count [] a b e = ground arith
count_votes-count (r ∷ rs) a b e =
    let seen = vote_of-Reads r in
    rw (extract_vote-ok r (ground arith), count_votes)
      (rw (seen.yes_vote, seen.no_vote)
        (count_votes-count rs _ _ (ground arith)
          ∙ bump_counts a b _ _ (casts "Approved" r) (casts "Rejected" r) (casts_exclusive r)))

count_votes-null :
    (rs : List Json) (a b : ℕ) → any is_null rs ≡ true → count_votes a b rs ≡ threw type_error
unfolding count_votes
count_votes-null [] a b e = cc
count_votes-null (r ∷ rs) a b e = elim (Bool-cases (is_null r)) [
  | inl here ↦ rw (extract_vote-null r here, count_votes)
  | inr not_here ↦
      rw (extract_vote-ok r not_here, count_votes) (count_votes-null rs _ _ (ground arith))
]

has_votes-null :
    (rs : List Json)
    → any is_null rs ≡ true
    → (has_votes rs ≡ ok true) ⊎ (has_votes rs ≡ threw type_error)
unfolding has_votes
has_votes-null [] e = cc
has_votes-null (r ∷ rs) e = elim (Bool-cases (is_null r)) [
  | inl here ↦ inr (rw (extract_vote-null r here, has_votes))
  | inr not_here ↦ elim (Bool-cases (truthy? (vote_of r))) [
    | inl found ↦ inl (rw (extract_vote-ok r not_here, found, has_votes))
    | inr not_found ↦
        rw (extract_vote-ok r not_here, not_found, has_votes) (has_votes-null rs (ground arith))
  ]
]

-- What aggregateResults decides, without its loops.
abbrev pub expected_count : Option Json → ℕ → List Json → Count
expected_count quorum n rs =
    let yes_votes = count (casts "Approved") rs in
    if any voted rs
    then record {
      aggregated_value = yes_votes;
      approved = yes_votes;
      rejected = count (casts "Rejected") rs;
      decision = if leb (min_positives quorum n) yes_votes then approved else rejected;
    }
    else record {
      aggregated_value = sum_values rs;
      approved = 0;
      rejected = 0;
      decision = approved;
    }

-- The loops of aggregateResults throw a TypeError exactly when one of the results is null. Otherwise
-- they return the number of the results whose vote is "Approved", the number of those whose vote is
-- "Rejected", and "Approved" as the decision exactly when the quorum is met or nobody voted.
pub decide_votes-expected_count :
    (quorum : Option Json) (n : ℕ) (rs : List Json)
    → decide_votes quorum n rs
      ≡ (if any is_null rs then threw type_error else ok (expected_count quorum n rs))
unfolding decide_votes
decide_votes-expected_count quorum n rs = elim (Bool-cases (any is_null rs)) [
  | inl bad ↦ elim (has_votes-null rs bad) [
    | inl found ↦ rw (found, count_votes-null rs 0 0 bad, bad, decide_votes) refl
    | inr thrown ↦ rw (thrown, bad, decide_votes) refl
  ]
  | inr good ↦ elim (Bool-cases (any voted rs)) [
    | inl some_vote ↦
        rw (has_votes-any rs good, some_vote, count_votes-count rs 0 0 good, good, decide_votes)
          (simp zero-add)
    | inr no_vote ↦ rw (has_votes-any rs good, no_vote, good, decide_votes) refl
  ]
]
