-- ===== src/Coordinator/Tally.antt =====
-- aggregateResults of coordinator-agent/src/monitor/memory-monitor.ts.
pub mod Counts
pub mod Quorum
use text.Mathlib.Text.{◌==◌}
use delibera_xyz.Prelude.{
  ℕ, zero, suc, ◌+◌, ◌/◌, String, Bool, true, false, ◌&&◌, ◌||◌, Option, none, some, List, [], ◌∷◌,
  map, length, any, leb, if◌then◌else◌,
}
use delibera_xyz.Prelude.Text.{is_empty}
use delibera_xyz.Json.{
  Json, Items, null, bool, num, str, arr, obj, items, list_of, object, strings, fields, member,
  member?, truthy, truthy?, is_text, number_or, template_text,
}
use delibera_xyz.Ensue.Keys.{
  worker_keys, all_worker_result_keys, coordinator_snapshot_key, config_task_definition,
}
use delibera_xyz.Host.{
  Env, Config, Worker, Problem, type_error, Outcome, ok, threw, out_of_fuel, Prog, pure, lift,
  ◌>>=◌, ◌>>◌,
}
use delibera_xyz.Coordinator.Memory.{read_memory, clock}
use delibera_xyz.Coordinator.Names.{resolve_all}
use delibera_xyz.Coordinator.Discovery.{get_active_workers}
use delibera_xyz.Coordinator.Waiting.{read_results_with_retry}

pub data Decision : Type 0 where
  approved rejected : Decision

-- TallyResult of shared/src/types.ts
pub record TallyResult : Type 0 where
  pub aggregated_value : ℕ
  pub approved : ℕ
  pub rejected : ℕ
  pub decision : Decision
  pub worker_count : ℕ
  pub workers : List Json
  pub timestamp : String
  pub proposal_id : ℕ
  pub worker_names : List (String × String)

-- The vote in a worker's result: `output.vote`, or `option` if it is a text. Reading a field of null
-- throws.
unfoldable pub extract_vote : Json → Outcome (Option Json)
extract_vote null = threw type_error
extract_vote r =
    if truthy? (member? "vote" (member "output" r))
    then ok (member? "vote" (member "output" r))
    else (elim (member "option" r) [ some (str s) ↦ ok (some (str s)) | _ ↦ ok none ])

-- `workerResults.some(r => extractVote(r))`: the first vote ends the search.
unfoldable pub has_votes : List Json → Outcome Bool
unfolding extract_vote
has_votes [] = ok false
has_votes (r ∷ rs) = elim (extract_vote r) [
  | ok vote ↦ if truthy? vote then ok true else has_votes rs
  | threw p ↦ threw p
  | out_of_fuel ↦ out_of_fuel
]

abbrev pub is_vote : Option Json → String → Bool
is_vote none s = false
is_vote (some v) s = is_text v s

-- The loop over the votes; the two counters.
unfoldable pub count_votes : ℕ → ℕ → List Json → Outcome (ℕ × ℕ)
unfolding extract_vote
count_votes yes_votes no_votes [] = ok (yes_votes, no_votes)
count_votes yes_votes no_votes (r ∷ rs) = elim (extract_vote r) [
  | ok vote ↦
      count_votes (if is_vote vote "Approved" then suc yes_votes else yes_votes)
        (if is_vote vote "Approved"
          then no_votes
          else (if is_vote vote "Rejected" then suc no_votes else no_votes))
        rs
  | threw p ↦ threw p
  | out_of_fuel ↦ out_of_fuel
]

-- `output?.value || 0`; a value that is no natural number counts as 0, while the source adds a number of
-- another kind and concatenates a text.
abbrev output_value : Json → ℕ
output_value r = number_or (member? "value" (member "output" r)) 0

unfoldable pub sum_values : List Json → ℕ
sum_values [] = 0
sum_values (r ∷ rs) = output_value r + sum_values rs

-- `votingConfig?.quorum ?? Math.floor(n / 2) + 1`
unfoldable pub min_positives : Option Json → ℕ → ℕ
min_positives quorum n = number_or quorum (n / 2 + 1)

-- The votes, the aggregated value and the decision, from the results read.
pub record Count : Type 0 where
  pub aggregated_value : ℕ
  pub approved : ℕ
  pub rejected : ℕ
  pub decision : Decision

unfoldable pub decide_votes : Option Json → ℕ → List Json → Outcome Count
unfolding has_votes count_votes sum_values min_positives
decide_votes quorum n results = elim (has_votes results) [
  | ok true ↦ elim (count_votes 0 0 results) [
    | ok (a, r) ↦ ok (record {
      aggregated_value = a;
      approved = a;
      rejected = r;
      decision = if leb (min_positives quorum n) a then approved else rejected;
    })
    | threw p ↦ threw p
    | out_of_fuel ↦ out_of_fuel
  ]
  | ok false ↦ ok (record {
    aggregated_value = sum_values results;
    approved = 0;
    rejected = 0;
    decision = approved;
  })
  | threw p ↦ threw p
  | out_of_fuel ↦ out_of_fuel
]
