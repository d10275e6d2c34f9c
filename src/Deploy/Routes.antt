-- ===== src/Deploy/Routes.antt =====
-- The handlers of protocol-api/src/routes/deploy.ts. A deployment answers with a response, and may leave a flow
-- that goes on in the background.
use delibera_xyz.Prelude.{
  ℕ, ltb, String, Bool, true, false, not, Option, none, some, List, [], ◌∷◌, length, if◌then◌else◌,
}
use delibera_xyz.Prelude.Text.{◌<>◌, size, set_text, last_chars}
use delibera_xyz.Json.{
  Json, null, bool, str, arr, list_of, object, member, truthy, truthy?, is_text, template_text,
}
use delibera_xyz.Host.{error, type_error}
use delibera_xyz.Host.Answers.{Response, error_response}
use delibera_xyz.Provision.Flow.{
  clock, read_template, Flow, done, raise, ◌>>=◌, ◌>>◌, rescue, send, received,
}
use delibera_xyz.Provision.Services.{Tools, value_text, set_or_text}
use delibera_xyz.Provision.Phala.{Deployed, deploy_cvm}
use delibera_xyz.Provision.Registering.{given_fields, text_field}
use delibera_xyz.Deploy.Registry.{
  DeployEnv, AgentType, coordinator_agent, worker_agent, by_type, true_or, register_in_registry,
  update_registry_endpoint, register_worker_in_coordinator_contract,
}
use delibera_xyz.Deploy.Watch.{watch_for_endpoint, get_cvm_status}

abbrev pub Deployment : Type 0
Deployment = Response × Option (Flow (Unit {0}))

abbrev pub failed_response : ℕ → String → Response
failed_response code message = record {
  code = code;
  body = object (("success", bool false) ∷ ("error", str message) ∷ []);
}

-- `!name || name.length < 2`: only a text and an array have a length.
abbrev pub too_short : Option Json → Bool
too_short none = true
too_short (some (str s)) = ltb (size s) 2
too_short (some (arr xs)) = ltb (length (list_of xs)) 2
too_short (some j) = not (truthy j)

abbrev pub name_of : Option Json → Json
name_of none = null
name_of (some j) = j

abbrev pub type_text : AgentType → String
type_text type = by_type type "coordinator" "worker"

-- The answer to a request without a key of Phala.
abbrev pub local_response : AgentType → (name : Json) → (nova_group_id : Option Json) → Response
local_response type name nova_group_id = record {
  code = 200;
  body = object (
      given_fields (
        ("success", some (bool true))
        ∷ ("cvmId", some null)
        ∷ ("status", some (str "local"))
        ∷ ("type", some (str (type_text type)))
        ∷ ("name", some name)
        ∷ ("novaGroupId", nova_group_id)
        ∷ []));
}

abbrev pub deployed_response :
    AgentType → (name : Json) → (nova_group_id : Option Json) → Deployed → Response
deployed_response type name nova_group_id result = record {
  code = 200;
  body = object (
      given_fields (
        ("success", some (bool true))
        ∷ ("cvmId", some (str result.cvm_id))
        ∷ ("status", some (str result.status))
        ∷ ("dashboardUrl", some (str result.dashboard_url))
        ∷ ("endpointUrl", text_field result.endpoint_url)
        ∷ ("type", some (str (type_text type)))
        ∷ ("name", some name)
        ∷ ("novaGroupId", nova_group_id)
        ∷ []));
}

module _ (T : Tools) (E : DeployEnv) where
  -- `nearNetwork`
  abbrev network_of : Json → Json
  network_of body = true_or (member "nearNetwork" body) (str (set_or_text E.near_network "testnet"))

  abbrev contract_or_default : String
  contract_or_default = set_or_text E.contract_id "coordinator.agents-coordinator.testnet"

  -- envs of deployCoordinator
  unfoldable pub deployed_coordinator_env : Json → List (String × Json)
  deployed_coordinator_env body =
      ("ENSUE_API_KEY", true_or (member "ensueApiKey" body) (str ""))
      ∷ (
        "ENSUE_TOKEN",
        true_or (member "ensueToken" body) (true_or (member "ensueApiKey" body) (str "")),
      )
      ∷ ("AGENT_CONTRACT_ID", true_or (member "agentContractId" body) (str contract_or_default))
      ∷ ("SPONSOR_ACCOUNT_ID", true_or (member "sponsorAccountId" body) (str ""))
      ∷ ("SPONSOR_PRIVATE_KEY", true_or (member "sponsorPrivateKey" body) (str ""))
      ∷ ("NEAR_NETWORK", network_of body)
      ∷ (
        "NEAR_RPC_JSON",
        str (
            if is_text (network_of body) "mainnet"
            then "https://rpc.fastnear.com"
            else "https://test.rpc.fastnear.com"),
      )
      ∷ []

  -- envs of deployWorker
  unfoldable pub deployed_worker_env : Json → (name nova_group_id : Json) → List (String × Json)
  deployed_worker_env body name nova_group_id =
      ("WORKER_ID", name)
      ∷ ("ENSUE_API_KEY", true_or (member "ensueApiKey" body) (str ""))
      ∷ (
        "ENSUE_TOKEN",
        true_or (member "ensueToken" body) (true_or (member "ensueApiKey" body) (str "")),
      )
      ∷ ("NEAR_AI_API_KEY", true_or (member "nearAiApiKey" body) (str ""))
      ∷ ("NOVA_API_KEY", true_or (member "novaApiKey" body) (str ""))
      ∷ ("NOVA_ACCOUNT_ID", true_or (member "novaAccountId" body) (str ""))
      ∷ ("NOVA_GROUP_ID", nova_group_id)
      ∷ ("CONTRACT_ID", str contract_or_default)
      ∷ []

  -- The registry learns the endpoint that is known, or the CVM, with a watch for its endpoint.
  unfoldable pub publish_endpoint :
      (api_key : String) → AgentType → (id : Json) → Deployed → Flow (Option (Flow (Unit {0})))
  unfolding update_registry_endpoint watch_for_endpoint
  publish_endpoint api_key type id result = elim (set_text result.endpoint_url) [
    | some url ↦ (do
      update_registry_endpoint E type id (some (str url)) (some (str result.cvm_id))
      done none)
    | none ↦ (do
      update_registry_endpoint E type id none (some (str result.cvm_id))
      done (
          some (
            watch_for_endpoint T api_key result.cvm_id (λ url.
              update_registry_endpoint E type id (some (str url)) (some (str result.cvm_id))))))
  ]

  -- An agent that has no id in the registry is not published.
  abbrev publish_registered :
      (api_key : String) → AgentType → Option Json → Deployed → Flow (Option (Flow (Unit {0})))
  publish_registered api_key type none result = done none
  publish_registered api_key type (some id) result =
      if truthy id then publish_endpoint api_key type id result else done none

  unfoldable pub deploy_agent :
      (api_key : String)
      → AgentType
      → (name : Json) → (registered : Option Json) → (template : String) → List (String × Json)
      → (nova_group_id : Option Json) → Flow Deployment
  unfolding deploy_cvm publish_endpoint
  deploy_agent api_key type name registered template envs nova_group_id = do
    read ← send (read_template template)
    compose ← received read
    now ← send clock
    result ←
        deploy_cvm T api_key
          (by_type type "delibera-coord-" "delibera-worker-"
            <> (template_text T.codec name <> ("-" <> last_chars 4 (T.base36 now))))
          compose envs "3001"
    watch ← publish_registered api_key type registered result
    done (deployed_response type name nova_group_id result, watch)

  unfoldable pub deploy_named_coordinator : Json → (name : Json) → Flow Deployment
  unfolding register_in_registry deployed_coordinator_env deploy_agent
  deploy_named_coordinator body name = do
    registered ← register_in_registry E coordinator_agent name none
    if truthy? (member "phalaApiKey" body)
        then deploy_agent (value_text T.codec (member "phalaApiKey" body)) coordinator_agent name
            (some name) "coordinator-compose.yml" (deployed_coordinator_env body) none
        else done (local_response coordinator_agent name none, none)

  -- novaGroupId
  unfoldable pub nova_group : Json → (name : Json) → Flow Json
  nova_group body name =
      if truthy? (member "novaGroupId" body)
      then done (name_of (member "novaGroupId" body))
      else (do
        now ← send clock
        done (
            str
              ("delibera-worker-" <> (template_text T.codec name <> ("-" <> T.codec.decimal now)))))

  abbrev join_coordinator : Option Json → (name : Json) → Flow (Unit {0})
  join_coordinator coordinator_id name =
      if truthy? coordinator_id then register_worker_in_coordinator_contract E name else done tt

  unfoldable pub deploy_named_worker : Json → (name : Json) → Flow Deployment
  unfolding nova_group register_in_registry register_worker_in_coordinator_contract
      deployed_worker_env deploy_agent
  deploy_named_worker body name = do
    group ← nova_group body name
    registered ← register_in_registry E worker_agent name (member "coordinatorId" body)
    join_coordinator (member "coordinatorId" body) name
    if truthy? (member "phalaApiKey" body)
        then deploy_agent (value_text T.codec (member "phalaApiKey" body)) worker_agent name
            registered "worker-compose.yml" (deployed_worker_env body name group) (some group)
        else done (local_response worker_agent name (some group), none)

  abbrev deploy_typed : Json → (type : Option Json) → (name : Json) → Flow Deployment
  deploy_typed body none name =
      done (failed_response 400 "Invalid type. Must be \"coordinator\" or \"worker\"", none)
  deploy_typed body (some type) name =
      if is_text type "coordinator"
      then deploy_named_coordinator body name
      else (if is_text type "worker"
          then deploy_named_worker body name
          else done
              (failed_response 400 "Invalid type. Must be \"coordinator\" or \"worker\"", none))

  abbrev deploy_body : Option Json → Flow Deployment
  deploy_body none = raise (error T.syntax_error)
  deploy_body (some null) = raise type_error
  deploy_body (some body) =
      if too_short (member "name" body)
      then done (failed_response 400 "Name must be at least 2 characters", none)
      else deploy_typed body (member "type" body) (name_of (member "name" body))

  -- POST /
  unfoldable pub deploy_route : (body : Option Json) → Flow Deployment
  unfolding rescue deploy_named_coordinator deploy_named_worker
  deploy_route body =
      rescue (deploy_body body) (λ p. done (failed_response 500 (T.describe p), none))

  -- GET status/:cvmId
  unfoldable pub cvm_status_route : (cvm_id : String) → (api_key : Option String) → Flow Response
  unfolding rescue get_cvm_status
  cvm_status_route cvm_id api_key = elim (set_text api_key) [
    | none ↦ done (error_response 400 "x-phala-api-key header required")
    | some key ↦
        rescue
          (do status ← get_cvm_status T key cvm_id; done (record { code = 200; body = status }))
          (λ p. done (error_response 500 (T.describe p)))
  ]
