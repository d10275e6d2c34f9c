-- ===== src/Routes/Proposals.antt =====
-- GET proposals and GET proposals/:id of coordinator-agent/src/routes/coordinate.ts. The reads that the
-- program makes at once are made one after the other.
use delibera_xyz.Prelude.{String, Option, none, some, List, [], ◌∷◌, length, map, if◌then◌else◌}
use delibera_xyz.Prelude.Text.{set_text}
use delibera_xyz.Prelude.Maps.{store}
use delibera_xyz.Json.{
  Json, null, num, str, arr, obj, items, list_of, find_field, object, member, value_or_else,
  template_text,
}
use delibera_xyz.Ensue.Keys.{
  proposal_keys, proposal_worker_keys, proposal_index_key, coordinator_snapshot_key,
}
use delibera_xyz.Host.{
  Env, Config, error, type_error, Outcome, ok, threw, Prog, pure, lift, maybe, ◌>>=◌,
}
use delibera_xyz.Host.Answers.{Response, Engine, error_response, details_response, answering}
use delibera_xyz.Coordinator.Memory.{read_memory}
use delibera_xyz.Coordinator.Aggregation.{has_length_zero}
use delibera_xyz.Routes.Validation.{get_worker_dids}
use delibera_xyz.Routes.Workers.{set_or, text_or_null, parsed_or_null}

-- `v ?? null`
abbrev pub or_null : Option Json → Json
or_null none = null
or_null (some j) = j

-- The characters of a text, as iterating over it gives them.
abbrev pub characters : String → List Json
characters String.[] = []
characters (String.◌∷◌ c s) = str (String.◌∷◌ c String.[]) ∷ characters s

-- What comes of a proposal's summary in the list, if it is not left out.
abbrev pub and_then : Option Json → List Json → List Json
and_then none js = js
and_then (some j) js = j ∷ js

-- The DIDs in a parsed snapshot, none where it counts as missing. What has no length 0 and is neither an
-- array nor a text cannot be iterated.
unfoldable pub snapshot_dids : Option Json → Outcome (List Json)
snapshot_dids none = ok []
snapshot_dids (some (arr xs)) = ok (list_of xs)
snapshot_dids (some (str s)) = ok (characters s)
snapshot_dids (some (obj fs)) =
    if has_length_zero (find_field "length" fs) then ok [] else threw type_error
snapshot_dids (some j) = threw type_error

module _ (E : Env) (J : Engine) where
  abbrev pub text_of : Json → String
  text_of j = template_text E.codec j

  unfoldable pub summary : Json → Option String → Json → Json
  summary id status tally = object (
      ("proposalId", id)
      ∷ ("status", str (set_or status "unknown"))
      ∷ ("decision", value_or_else (member "decision" tally) null)
      ∷ ("approved", or_null (member "approved" tally))
      ∷ ("rejected", or_null (member "rejected" tally))
      ∷ ("workerCount", or_null (member "workerCount" tally))
      ∷ ("timestamp", value_or_else (member "timestamp" tally) null)
      ∷ [])

  -- The result of the worker that is asked for; without one, what stands for it.
  unfoldable pub filter_result : Option String → Json → Prog (Option String)
  filter_result worker id =
      maybe (set_text worker) (pure (some "skip"))
        (λ did. read_memory E (proposal_worker_keys (text_of id) did).result)

  -- A proposal in which the worker has no result is left out.
  unfoldable pub list_proposal : Option String → Json → Prog (Option Json)
  unfolding filter_result parsed_or_null summary
  list_proposal worker id = do
    status ← read_memory E (proposal_keys (text_of id)).status
    tally_text ← read_memory E (proposal_keys (text_of id)).tally
    result ← filter_result worker id
    maybe (set_text result) (pure none) (λ found. do
      tally ← lift (parsed_or_null E J tally_text)
      pure (some (summary id status tally)))

  unfoldable pub list_each : Option String → List Json → Prog (List Json)
  unfolding list_proposal
  list_each worker [] = pure []
  list_each worker (id ∷ ids) = do
    one ← list_proposal worker id
    rest ← list_each worker ids
    pure (and_then one rest)

  -- The index is an array; another value has no `map`.
  unfoldable pub index_ids : Option String → Outcome (List Json)
  index_ids text = elim (set_text text) [
    | none ↦ ok []
    | some s ↦ elim (E.codec.parse s) [
      | none ↦ threw (error J.syntax_error)
      | some (arr xs) ↦ ok (list_of xs)
      | some j ↦ threw type_error
    ]
  ]

  unfoldable pub proposals_route : Option String → Prog Response
  unfolding answering index_ids list_each
  proposals_route worker =
      answering (λ p. details_response 500 "Failed to list proposals" (J.describe p))
        (do
          text ← read_memory E proposal_index_key
          ids ← lift (index_ids text)
          proposals ← list_each worker ids
          pure (record {
            code = 200;
            body =
                object
                  (("proposals", arr (items proposals)) ∷ ("total", num (length proposals)) ∷ []);
          }))

  -- `JSON.parse` of the configuration, or its text.
  abbrev pub config_json : Option String → Json
  config_json o = elim (set_text o) [
    | none ↦ null
    | some s ↦ elim (E.codec.parse s) [ none ↦ str s | some j ↦ j ]
  ]

  abbrev pub snapshot_json : Option String → Option Json
  snapshot_json o = elim (set_text o) [ none ↦ none | some s ↦ E.codec.parse s ]

  abbrev pub ids_or_chosen : Config → List Json → Prog (List Json)
  ids_or_chosen c [] = do dids ← get_worker_dids E c; pure (map str dids)
  ids_or_chosen c (id ∷ ids) = pure (id ∷ ids)

  unfoldable pub result_entry :
      Json → Option String → Option String → List (String × Json) → Prog (List (String × Json))
  unfolding parsed_or_null store
  result_entry worker text timestamp known = maybe (set_text text) (pure known) (λ s. do
    result ← lift (parsed_or_null E J (some s))
    pure (
        store (text_of worker)
          (object (("result", result) ∷ ("timestamp", text_or_null timestamp) ∷ [])) known))

  unfoldable pub worker_results :
      (id : String) → List Json → List (String × Json) → Prog (List (String × Json))
  unfolding result_entry
  worker_results id [] known = pure known
  worker_results id (worker ∷ workers) known = do
    text ← read_memory E (proposal_worker_keys id (text_of worker)).result
    timestamp ← read_memory E (proposal_worker_keys id (text_of worker)).timestamp
    more ← result_entry worker text timestamp known
    worker_results id workers more

  unfoldable pub proposal_details :
      Config → (id status : String) → (config tally_text : Option String) → Prog Response
  unfolding parsed_or_null snapshot_dids get_worker_dids worker_results
  proposal_details c id status config tally_text = do
    tally ← lift (parsed_or_null E J tally_text)
    snapshot ← read_memory E (coordinator_snapshot_key id)
    listed ← lift (snapshot_dids (snapshot_json snapshot))
    workers ← ids_or_chosen c listed
    results ← worker_results id workers []
    pure (record {
      code = 200;
      body = object (
          ("proposalId", str id)
          ∷ ("status", str status)
          ∷ ("config", config_json config)
          ∷ ("tally", tally)
          ∷ ("workers", object results)
          ∷ []);
    })

  unfoldable pub proposal_route : Config → String → Prog Response
  unfolding answering proposal_details
  proposal_route c id =
      answering (λ p. details_response 500 "Failed to get proposal details" (J.describe p))
        (do
          config ← read_memory E (proposal_keys id).config
          status ← read_memory E (proposal_keys id).status
          tally_text ← read_memory E (proposal_keys id).tally
          maybe (set_text status) (pure (error_response 404 "Proposal not found"))
              (λ s. proposal_details c id s config tally_text))
