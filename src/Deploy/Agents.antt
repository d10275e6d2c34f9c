-- ===== src/Deploy/Agents.antt =====
-- The handlers of protocol-api/src/routes/agents.ts.
use delibera_xyz.Prelude.{ℕ, String, true, Option, none, some, List, [], ◌∷◌, if◌then◌else◌}
use delibera_xyz.Prelude.Maps.{store}
use delibera_xyz.Json.{
  Json, null, bool, str, arr, list_of, object, member, member?, truthy?, is_text,
}
use delibera_xyz.Host.{error, type_error, Outcome, ok, threw}
use delibera_xyz.Host.Answers.{Response, error_response}
use delibera_xyz.Provision.Flow.{
  Ran, ran, not_ran, clock, run_near, Flow, done, raise, ◌>>=◌, rescue, send, settled,
}
use delibera_xyz.Provision.Services.{Tools, value_text}
use delibera_xyz.Deploy.Registry.{
  DeployEnv, AgentType, coordinator_agent, worker_agent, by_type, registry_id, true_or,
}
use delibera_xyz.Deploy.Contract.{view_call}

-- The characters of a text, as `for ... of` goes through them.
unfoldable pub letters : String → List Json
letters String.[] = []
letters (String.◌∷◌ c s) = str (String.◌∷◌ c String.[]) ∷ letters s

-- `for (const entry of v ?? [])`
abbrev pub list_entries : Json → Outcome (List Json)
list_entries null = ok []
list_entries (arr entries) = ok (list_of entries)
list_entries (str s) = ok (letters s)
list_entries j = threw type_error

abbrev pub agent_json : AgentType → Json → Json
agent_json type entry = object (
    ("endpoint", true_or (member "endpoint_url" entry) null)
    ∷ ("type", str (by_type type "coordinator" "worker"))
    ∷ ("cvmId", true_or (member "phala_cvm_id" entry) null)
    ∷ [])

module _ (T : Tools) (decode : Json → String) (iso : ℕ → String) (E : DeployEnv) where
  -- An entry stands under its id; a later one takes its place.
  unfoldable pub add_agents :
      AgentType → List Json → List (String × Json) → Outcome (List (String × Json))
  unfolding store
  add_agents type [] agents = ok agents
  add_agents type (null ∷ entries) agents = threw type_error
  add_agents type (entry ∷ entries) agents = add_agents type entries (
      store (value_text T.codec (member (by_type type "coordinator_id" "worker_id") entry))
        (agent_json type entry) agents)

  -- GET endpoints
  unfoldable pub endpoints_route : Flow Response
  unfolding letters add_agents view_call rescue
  endpoints_route =
      rescue
        (do
          coordinators ← view_call T decode (registry_id E) "list_active_coordinators" (object [])
          workers ← view_call T decode (registry_id E) "list_active_workers" (object [])
          first ← settled (list_entries coordinators)
          agents ← settled (add_agents coordinator_agent first [])
          second ← settled (list_entries workers)
          all_agents ← settled (add_agents worker_agent second agents)
          now ← send clock
          done (record {
            code = 200;
            body = object (("agents", object all_agents) ∷ ("timestamp", str (iso now)) ∷ []);
          }))
        (λ p. done (error_response 500 "Failed to get agent endpoints"))

  abbrev endpoint_response : String → Option Json → Response
  endpoint_response id entry = record {
    code = 200;
    body = object (
        ("agentId", str id)
        ∷ ("endpoint", true_or (member? "endpoint_url" entry) null)
        ∷ ("cvmId", true_or (member? "phala_cvm_id" entry) null)
        ∷ []);
  }

  -- The coordinator of a name, or else the worker.
  unfoldable pub find_agent : (id : String) → Flow Json
  unfolding view_call
  find_agent id = do
    entry ← view_call T decode (registry_id E) "get_coordinator" (object (("name", str id) ∷ []))
    if truthy? (some entry)
        then done entry
        else view_call T decode (registry_id E) "get_worker" (object (("worker_id", str id) ∷ []))

  -- GET :agentId/endpoint
  unfoldable pub endpoint_route : (id : String) → Flow Response
  unfolding find_agent rescue
  endpoint_route id =
      rescue (do entry ← find_agent id; done (endpoint_response id (some entry)))
        (λ p. done (endpoint_response id none))

  -- `(body.type || 'worker') === 'coordinator'`
  abbrev given_type : Option Json → AgentType
  given_type none = worker_agent
  given_type (some type) = if is_text type "coordinator" then coordinator_agent else worker_agent

  abbrev cvm_field : Option Json → List (String × Json)
  cvm_field none = []
  cvm_field (some cvm_id) = if truthy? (some cvm_id) then ("phala_cvm_id", cvm_id) ∷ [] else []

  abbrev put_response : String → (endpoint : Json) → Ran → Response
  put_response id endpoint (ran output) = record {
    code = 200;
    body = object (("success", bool true) ∷ ("agentId", str id) ∷ ("endpoint", endpoint) ∷ []);
  }
  put_response id endpoint (not_ran message) = error_response 500 "Failed to update endpoint"

  -- The update of an endpoint that counts as true.
  unfoldable pub put_endpoint : (id : String) → (body endpoint : Json) → Flow Response
  put_endpoint id body endpoint = do
    let type = given_type (member "type" body)
    result ← send (
        run_near (registry_id E) (by_type type "update_coordinator" "update_worker")
          (object (
            (by_type type "name" "worker_id", str id)
            ∷ ("endpoint_url", endpoint)
            ∷ cvm_field (member "cvmId" body)))
          "0 NEAR")
    done (put_response id endpoint result)

  -- PUT :agentId/endpoint
  unfoldable pub put_endpoint_route : (id : String) → (body : Option Json) → Flow Response
  unfolding put_endpoint
  put_endpoint_route id none = raise (error T.syntax_error)
  put_endpoint_route id (some null) = raise type_error
  put_endpoint_route id (some body) =
      if truthy? (member "endpoint" body)
      then put_endpoint id body (true_or (member "endpoint" body) null)
      else done (error_response 400 "endpoint is required")
