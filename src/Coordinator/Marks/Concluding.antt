-- ===== src/Coordinator/Marks/Concluding.antt =====
-- The steps from the last result of a worker to the archive and what follows a timeout on the chain.
use delibera_xyz.Prelude.{
  ℕ, String, Bool, true, false, Option, none, some, List, [], ◌∷◌, arith, if◌then◌else◌,
}
use delibera_xyz.Prelude.Text.{is_empty}
use delibera_xyz.Json.{Json, null, str, arr, obj, find_field, truthy?}
use delibera_xyz.Host.{Env, Config, Outcome, ok, threw, out_of_fuel}
use delibera_xyz.Coordinator.Marks.{Quiet}
use delibera_xyz.Coordinator.Marks.Rules.{quiet_rules, IsSettled, Quiet-bind, Quiet-pure}
use delibera_xyz.Coordinator.Marks.Parts.{resolve_all-Quiet, get_active_workers-Quiet}
use delibera_xyz.Coordinator.Marks.Loops.{read_results_with_retry-Quiet}
use delibera_xyz.Coordinator.Contract.{verify_record, verify_resume}
use delibera_xyz.Coordinator.Tally.{TallyResult, extract_vote, has_votes, count_votes, decide_votes}
use delibera_xyz.Coordinator.Aggregation.{
  snapshot_ids, has_length_zero, snapshot_workers, aggregate_results, copy_result, archive_workers,
  extend_index, archive_index, archive_proposal,
}

module _ {A B : Type 0} where
  -- What goes on after a settled outcome is settled, if its continuation is.
  after-IsSettled :
      (o : Outcome A) (f : A → Outcome B)
      → IsSettled o
      → ((a : A) → IsSettled (f a))
      → IsSettled (elim o as (λ _. Outcome B) [
        | ok a ↦ f a
        | threw p ↦ threw p
        | out_of_fuel ↦ out_of_fuel
      ])
  after-IsSettled (ok a) f h k = k a
  after-IsSettled (threw p) f h k = tt
  after-IsSettled out_of_fuel f h k = h

if-IsSettled :
    {A : Type 0} (b : Bool) (o p : Outcome A)
    → IsSettled o
    → IsSettled p
    → IsSettled (if b then o else p)
if-IsSettled true o p ho hp = ho
if-IsSettled false o p ho hp = hp

extract_vote-IsSettled : (r : Json) → IsSettled (extract_vote r)
unfolding extract_vote
extract_vote-IsSettled null = tt
extract_vote-IsSettled (obj fs) = ground arith
extract_vote-IsSettled r = tt

has_votes-IsSettled : (rs : List Json) → IsSettled (has_votes rs)
unfolding has_votes
has_votes-IsSettled [] = tt
has_votes-IsSettled (r ∷ rs) =
    after-IsSettled (extract_vote r) _ (extract_vote-IsSettled r)
      λ vote. if-IsSettled (truthy? vote) _ _ tt (has_votes-IsSettled rs)

count_votes-IsSettled : (rs : List Json) (a b : ℕ) → IsSettled (count_votes a b rs)
unfolding count_votes
count_votes-IsSettled [] a b = tt
count_votes-IsSettled (r ∷ rs) a b =
    after-IsSettled (extract_vote r) _ (extract_vote-IsSettled r)
      λ vote. count_votes-IsSettled rs _ _

decide_votes-IsSettled :
    (quorum : Option Json) (n : ℕ) (rs : List Json) → IsSettled (decide_votes quorum n rs)
unfolding decide_votes
decide_votes-IsSettled quorum n rs =
    let found = has_votes-IsSettled rs in let counted = count_votes-IsSettled rs 0 0 in ground arith

snapshot_ids-IsSettled : (E : Env) (j : Option Json) → IsSettled (snapshot_ids E j)
unfolding snapshot_ids
snapshot_ids-IsSettled E none = tt
snapshot_ids-IsSettled E (some (arr xs)) = tt
snapshot_ids-IsSettled E (some (str s)) = if-IsSettled (is_empty s) _ _ tt tt
snapshot_ids-IsSettled E (some (obj fs)) =
    if-IsSettled (has_length_zero (find_field "length" fs)) _ _ tt tt
snapshot_ids-IsSettled E (some j) = tt

extend_index-IsSettled : (E : Env) (id : String) (j : Json) → IsSettled (extend_index E id j)
unfolding extend_index
extend_index-IsSettled E id (arr xs) = ground arith
extend_index-IsSettled E id (str s) = ground arith
extend_index-IsSettled E id j = tt

module _ (E : Env) where
  snapshot_workers-Quiet : (c : Config) (id : ℕ) → Quiet (snapshot_workers E c id)
  unfolding snapshot_workers
  snapshot_workers-Quiet c id =
      search (quiet_rules, snapshot_ids-IsSettled, get_active_workers-Quiet) depth 9

  pub aggregate_results-Quiet : (c : Config) (id : ℕ) → Quiet (aggregate_results E c id)
  unfolding aggregate_results
  aggregate_results-Quiet c id =
      search
        (
          quiet_rules, snapshot_workers-Quiet, read_results_with_retry-Quiet,
          decide_votes-IsSettled, resolve_all-Quiet,
        )
        depth 15

  copy_result-Quiet : (id did text : String) → Quiet (copy_result E id did text)
  unfolding copy_result
  copy_result-Quiet id did text = search quiet_rules depth 9

  archive_workers-Quiet : (id : String) (dids : List String) → Quiet (archive_workers E id dids)
  unfolding archive_workers
  archive_workers-Quiet id [] = Quiet-pure tt
  archive_workers-Quiet id (did ∷ dids) = Quiet-bind _ _ (search quiet_rules) λ result.
      Quiet-bind _ _ (search (quiet_rules, copy_result-Quiet)) λ _. archive_workers-Quiet id dids

  archive_index-Quiet : (id : String) → Quiet (archive_index E id)
  unfolding archive_index
  archive_index-Quiet id = search (quiet_rules, extend_index-IsSettled) depth 9

  pub archive_proposal-Quiet :
      (id task : String) (tally : TallyResult) (dids : List String)
      → Quiet (archive_proposal E id task tally dids)
  unfolding archive_proposal
  archive_proposal-Quiet id task tally dids =
      search (quiet_rules, archive_workers-Quiet, archive_index-Quiet) depth 15

  pub verify_record-Quiet : (id : ℕ) → Quiet (verify_record E id)
  unfolding verify_record
  verify_record-Quiet id = search quiet_rules depth 9

  pub verify_resume-Quiet : (id : ℕ) → Quiet (verify_resume E id)
  unfolding verify_resume
  verify_resume-Quiet id = search quiet_rules depth 9
