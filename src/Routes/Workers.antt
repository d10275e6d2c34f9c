-- ===== src/Routes/Workers.antt =====
-- GET status and GET workers of coordinator-agent/src/routes/coordinate.ts.
use delibera_xyz.Prelude.{String, Option, none, some, List, [], ◌∷◌, ◌++◌, map, if◌then◌else◌}
use delibera_xyz.Prelude.Text.{◌<>◌, set_text}
use delibera_xyz.Prelude.Maps.{store}
use delibera_xyz.Json.{Json, null, bool, num, str, items, arr, object, given}
use delibera_xyz.Ensue.Keys.{
  worker_keys, all_worker_status_keys, agent_registry_keys, coordinator_status,
  coordinator_proposal_id, coordinator_tally,
}
use delibera_xyz.Host.{
  Env, Config, Worker, Reply, unreachable, response, error, Outcome, ok, threw, Prog, pure, lift,
  maybe, ◌>>=◌,
}
use delibera_xyz.Host.Answers.{Response, Engine, details_response, answering}
use delibera_xyz.Coordinator.Memory.{read_memory, read_multiple, clock, fetch}
use delibera_xyz.Coordinator.Names.{Cache, cached, resolve_all}
use delibera_xyz.Routes.Validation.{get_registry_workers, get_worker_dids}

abbrev pub set_or : Option String → String → String
set_or o d = elim (set_text o) [ none ↦ d | some s ↦ s ]

abbrev pub text_or_null : Option String → Json
text_or_null none = null
text_or_null (some s) = str s

module _ (E : Env) (J : Engine) where
  -- `s ? JSON.parse(s) : null`
  unfoldable pub parsed_or_null : Option String → Outcome Json
  parsed_or_null o = elim (set_text o) [
    | none ↦ ok null
    | some s ↦ elim (E.codec.parse s) [ none ↦ threw (error J.syntax_error) | some j ↦ ok j ]
  ]

  abbrev pub number_of : Option String → Json
  number_of o = elim (set_text o) [
    | none ↦ null
    | some s ↦ elim (J.parse_int s) [ none ↦ null | some n ↦ num n ]
  ]

  unfoldable pub status_route : Prog Response
  unfolding answering parsed_or_null
  status_route =
      answering (λ p. details_response 500 "Failed to get coordinator status" (J.describe p))
        (do
          status ← read_memory E coordinator_status
          proposal_id ← read_memory E coordinator_proposal_id
          tally_text ← read_memory E coordinator_tally
          tally ← lift (parsed_or_null tally_text)
          now ← clock E
          pure (record {
            code = 200;
            body = object (
                ("status", str (set_or status "idle"))
                ∷ ("proposalId", number_of proposal_id)
                ∷ ("tally", tally)
                ∷ ("timestamp", str (E.iso now))
                ∷ []);
          }))

  -- One worker of the registry, with its status in the memory and its display name.
  unfoldable pub worker_json : (String → Option String) → Cache → Worker → Json
  unfolding cached
  worker_json statuses names w = object (
      ("did", str w.worker_did)
      ∷ ("account_id", str w.account_id)
      ∷ ("display_name", text_or_null (set_text (cached w.worker_did names)))
      ∷ (given "endpoint_url" (elim w.endpoint_url [ none ↦ none | some u ↦ some (str u) ])
          ++ ("is_active", bool w.is_active)
            ∷ ("registered_at", num w.registered_at)
            ∷ (
              "ensue_status",
              str (
                  set_or (statuses (worker_keys w.worker_did).status)
                    (if w.is_active then "idle" else "offline")),
            )
            ∷ []))

  abbrev pub workers_answer : Json → String → Prog Response
  workers_answer workers source = do
    now ← clock E
    pure (record {
      code = 200;
      body =
          object
            (("workers", workers) ∷ ("source", str source) ∷ ("timestamp", str (E.iso now)) ∷ []);
    })

  unfoldable pub registry_answer : List Worker → Prog Response
  unfolding worker_json resolve_all
  registry_answer ws = do
    statuses ← read_multiple E (all_worker_status_keys (map (λ w. w.worker_did) ws))
    names ← resolve_all E (map (λ w. w.worker_did) ws)
    workers_answer (arr (items (map (worker_json statuses names) ws))) "registry"

  abbrev pub state_of : Reply → String
  state_of unreachable = "offline"
  state_of (response good status body) = if good then "idle" else "offline"

  -- A worker without a status is probed at the endpoint in the agent registry.
  unfoldable pub probed_state : String → Prog String
  probed_state did = do
    endpoint ← read_memory E (agent_registry_keys did).endpoint
    maybe (set_text endpoint) (pure "offline")
        (λ url. do reply ← fetch E (url <> "/"); pure (state_of reply))

  abbrev pub state_or_probe : String → Option String → Prog String
  state_or_probe did status = maybe (set_text status) (probed_state did) (λ s. pure s)

  -- The object from DID to state; a DID that comes twice keeps its place.
  unfoldable pub states :
      (String → Option String) → List String → List (String × Json) → Prog (List (String × Json))
  unfolding probed_state store
  states statuses [] known = pure known
  states statuses (did ∷ dids) known = do
    state ← state_or_probe did (statuses (worker_keys did).status)
    states statuses dids (store did (str state) known)

  unfoldable pub fallback_answer : Config → Prog Response
  unfolding get_worker_dids states
  fallback_answer c = do
    dids ← get_worker_dids E c
    statuses ← read_multiple E (all_worker_status_keys dids)
    workers ← states statuses dids []
    workers_answer (object workers) "env_fallback"

  abbrev pub answer_workers : Config → List Worker → Prog Response
  answer_workers c [] = fallback_answer c
  answer_workers c (w ∷ ws) = registry_answer (w ∷ ws)

  unfoldable pub workers_route : Config → Prog Response
  unfolding answering get_registry_workers registry_answer fallback_answer
  workers_route c =
      answering (λ p. details_response 500 "Failed to get worker statuses" (J.describe p))
        (do ws ← get_registry_workers E; answer_workers c ws)
