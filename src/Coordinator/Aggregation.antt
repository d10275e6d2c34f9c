-- ===== src/Coordinator/Aggregation.antt =====
-- aggregateResults and archiveProposal of coordinator-agent/src/monitor/memory-monitor.ts.
use text.Mathlib.Text.{◌==◌}
use delibera_xyz.Prelude.{
  ℕ, zero, String, Bool, true, false, Option, none, some, List, [], ◌∷◌, ◌++◌, map, length, any,
  if◌then◌else◌,
}
use delibera_xyz.Prelude.Text.{is_empty, includes}
use delibera_xyz.Json.{
  Json, null, num, str, arr, obj, items, find_field, list_of, object, member, member?,
  template_text,
}
use delibera_xyz.Ensue.Keys.{
  worker_keys, all_worker_result_keys, coordinator_snapshot_key, config_task_definition,
  proposal_keys, proposal_worker_keys, proposal_index_key,
}
use delibera_xyz.Host.{
  Env, Config, Worker, type_error, Outcome, ok, threw, Prog, pure, lift, try_catch, maybe, ◌>>=◌,
  ◌>>◌,
}
use delibera_xyz.Coordinator.Memory.{read_memory, update_memory, clock}
use delibera_xyz.Coordinator.Names.{resolve_all}
use delibera_xyz.Coordinator.Discovery.{get_active_workers}
use delibera_xyz.Coordinator.Waiting.{read_results_with_retry}
use delibera_xyz.Coordinator.Tally.{Decision, approved, rejected, TallyResult, decide_votes}

-- `await`ed text, where null and the empty text both fail the test `if (s)`.
abbrev pub parse_given : Env → Option String → Option Json
parse_given E none = none
parse_given E (some s) = if is_empty s then none else E.codec.parse s

-- `length === 0` on the object that was parsed.
abbrev pub has_length_zero : Option Json → Bool
has_length_zero (some (num zero)) = true
has_length_zero none = false
has_length_zero (some j) = false

-- The ids in a parsed snapshot. What is no array has no `map`, or no length at all; but what has the
-- length 0 counts as a missing snapshot.
unfoldable pub snapshot_ids : Env → Option Json → Outcome (List String)
snapshot_ids E none = ok []
snapshot_ids E (some (arr xs)) = ok (map (template_text E.codec) (list_of xs))
snapshot_ids E (some (str s)) = if is_empty s then ok [] else threw type_error
snapshot_ids E (some (obj fs)) =
    if has_length_zero (find_field "length" fs) then ok [] else threw type_error
snapshot_ids E (some j) = threw type_error

-- The results that are present and parse, in the order of the keys.
unfoldable pub parse_results : Env → (String → Option String) → List String → List Json
parse_results E results [] = []
parse_results E results (k ∷ ks) = elim (parse_given E (results k)) [
  | none ↦ parse_results E results ks
  | some j ↦ j ∷ parse_results E results ks
]

abbrev pub voting_config : Env → Option String → Option Json
voting_config E none = none
voting_config E (some s) = elim (E.codec.parse s) [
  | none ↦ none
  | some j ↦ member? "voting_config" (member "parameters" j)
]

abbrev pub worker_ids : List Worker → List String
worker_ids ws = map (λ w. w.worker_did) ws

abbrev decision_text : Decision → String
decision_text approved = "Approved"
decision_text rejected = "Rejected"

abbrev name_fields : List (String × String) → List (String × Json)
name_fields [] = []
name_fields ((k, v) ∷ m) = (k, str v) ∷ name_fields m

-- The object that is stored as the tally.
abbrev pub tally_json : TallyResult → Json
tally_json t = object (
    ("aggregatedValue", num t.aggregated_value)
    ∷ ("approved", num t.approved)
    ∷ ("rejected", num t.rejected)
    ∷ ("decision", str (decision_text t.decision))
    ∷ ("workerCount", num t.worker_count)
    ∷ ("workers", arr (items t.workers))
    ∷ ("timestamp", str t.timestamp)
    ∷ ("proposalId", num t.proposal_id)
    ∷ ("workerNames", object (name_fields t.worker_names))
    ∷ [])

-- The object that is sent to the chain.
abbrev pub on_chain_json : TallyResult → ℕ → Json
on_chain_json t id = object (
    ("aggregatedValue", num t.aggregated_value)
    ∷ ("approved", num t.approved)
    ∷ ("rejected", num t.rejected)
    ∷ ("decision", str (decision_text t.decision))
    ∷ ("workerCount", num t.worker_count)
    ∷ ("timestamp", str t.timestamp)
    ∷ ("proposalId", num id)
    ∷ [])

module _ (E : Env) where
  abbrev no_ids : List String → Bool
  no_ids [] = true
  no_ids (did ∷ dids) = false

  -- The workers of the snapshot, or those that are active now if there is none.
  unfoldable pub snapshot_workers : Config → ℕ → Prog (List String)
  unfolding snapshot_ids
  snapshot_workers c id = do
    text ← read_memory E (coordinator_snapshot_key (E.codec.decimal id))
    ids ← lift (snapshot_ids E (parse_given E text))
    if no_ids ids then (do ws ← get_active_workers E c; pure (worker_ids ws)) else pure ids

  unfoldable pub aggregate_results : Config → ℕ → Prog TallyResult
  unfolding snapshot_workers parse_results
  aggregate_results c id = do
    dids ← snapshot_workers c id
    task ← read_memory E config_task_definition
    results ← read_results_with_retry E (all_worker_result_keys dids)
    let found = parse_results E results (all_worker_result_keys dids)
    count ← lift (decide_votes (member? "quorum" (voting_config E task)) (length dids) found)
    names ← resolve_all E dids
    t ← clock E
    pure (record {
      aggregated_value = count.aggregated_value;
      approved = count.approved;
      rejected = count.rejected;
      decision = count.decision;
      worker_count = length found;
      workers = found;
      timestamp = E.iso t;
      proposal_id = id;
      worker_names = names;
    })

  -- The result of one worker, unless it is empty.
  unfoldable pub copy_result : String → String → String → Prog (Unit {0})
  copy_result id did text = if is_empty text then pure tt else (do
    update_memory (proposal_worker_keys id did).result text
    t ← clock E
    update_memory (proposal_worker_keys id did).timestamp (E.iso t))

  -- The results of the workers, copied under the proposal.
  unfoldable pub archive_workers : String → List String → Prog (Unit {0})
  unfolding copy_result
  archive_workers id [] = pure tt
  archive_workers id (did ∷ dids) = do
    result ← read_memory E (worker_keys did).result
    maybe result (pure tt) (copy_result id did)
    archive_workers id dids

  -- The ids in the index: none where it is missing or does not parse.
  abbrev index_of : Option String → Json
  index_of text = elim (parse_given E text) [ none ↦ arr (items []) | some j ↦ j ]

  abbrev same_text : String → Json → Bool
  same_text id (str s) = s == id
  same_text id null = false
  same_text id j = false

  -- The new index, if it changes. A parsed index that is no array fails the step, but for a text
  -- that includes the id.
  unfoldable pub extend_index : String → Json → Outcome (Option Json)
  extend_index id (arr xs) =
      if any (same_text id) (list_of xs)
      then ok none
      else ok (some (arr (items (list_of xs ++ str id ∷ []))))
  extend_index id (str s) = if includes id s then ok none else threw type_error
  extend_index id j = threw type_error

  unfoldable pub archive_index : String → Prog (Unit {0})
  unfolding extend_index includes
  archive_index id = do
    text ← read_memory E proposal_index_key
    changed ← lift (extend_index id (index_of text))
    maybe changed (pure tt) (λ j. update_memory proposal_index_key (E.codec.stringify j))

  -- A failure is logged and passed over.
  unfoldable pub archive_proposal : String → String → TallyResult → List String → Prog (Unit {0})
  unfolding archive_workers archive_index
  archive_proposal id task_config tally dids =
      try_catch
        (do
          update_memory (proposal_keys id).config task_config
          update_memory (proposal_keys id).tally (E.codec.stringify (tally_json tally))
          update_memory (proposal_keys id).status "completed"
          archive_workers id dids
          archive_index id)
        (pure tt)
