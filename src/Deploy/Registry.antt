-- ===== src/Deploy/Registry.antt =====
-- The calls on the registry and the coordinator contract in protocol-api/src/routes/deploy.ts. The command line that
-- sends them is asked; a call that fails is no error.
use Prim.Native.Char.{code}
use text.Mathlib.Text.{◌==◌}
use delibera_xyz.Prelude.{
  ℕ, leb, ◌&&◌, String, Bool, Option, none, some, List, [], ◌∷◌, ◌++◌, if◌then◌else◌,
}
use delibera_xyz.Prelude.Text.{strip_prefix, trim_start, set_text}
use delibera_xyz.Json.{Json, null, str, object, truthy}
use delibera_xyz.Provision.Flow.{Ran, ran, not_ran, run_near, Flow, done, ◌>>=◌, send}
use delibera_xyz.Provision.Services.{set_or_text}

-- The variables of the environment that the module reads.
pub record DeployEnv : Type 0 where
  pub near_network : Option String
  pub registry_contract_id : Option String
  pub contract_id : Option String

pub data AgentType : Type 0 where
  coordinator_agent worker_agent : AgentType

abbrev pub by_type : {A : Type 0} → AgentType → A → A → A
by_type coordinator_agent a b = a
by_type worker_agent a b = b

-- NEAR_NETWORK
abbrev pub network : DeployEnv → String
network E = set_or_text E.near_network "testnet"

-- REGISTRY_CONTRACT_ID
abbrev pub registry_id : DeployEnv → String
registry_id E = set_or_text E.registry_contract_id (
    if network E == "mainnet"
    then "registry.agents-coordinator.near"
    else "registry.agents-coordinator.testnet")

-- COORDINATOR_CONTRACT_ID
abbrev pub coordinator_contract_id : DeployEnv → String
coordinator_contract_id E = set_or_text E.contract_id (
    if network E == "mainnet"
    then "coordinator.agents-coordinator.near"
    else "coordinator.agents-coordinator.testnet")

-- `v || null`, and `v || ''`
abbrev pub true_or : Option Json → Json → Json
true_or none d = d
true_or (some j) d = if truthy j then j else d

abbrev is_quote : ℕ → Bool
is_quote c = leb c b'"' && leb b'"' c

-- The text up to the quote that must end it, if it is not empty.
unfoldable pub quoted : String → Option String
quoted String.[] = none
quoted (String.◌∷◌ c s) =
    let rest = quoted s in
    if is_quote (code c)
    then some String.[]
    else (elim rest [ none ↦ none | some t ↦ some (String.◌∷◌ c t) ])

-- The text between two quotes.
abbrev set_quoted : Option String → Option String
set_quoted none = none
set_quoted (some s) = set_text (quoted s)

abbrev after_colon : Option String → Option String
after_colon none = none
after_colon (some s) = set_quoted (strip_prefix "\"" (trim_start s))

abbrev after_id_key : Option String → Option String
after_id_key none = none
after_id_key (some s) = after_colon (strip_prefix ":" (trim_start s))

-- `match(/"worker_id"\s*:\s*"([^"]+)"/)` at the start of a text.
unfoldable pub id_at_start : String → Option String
unfolding strip_prefix trim_start quoted
id_at_start s = after_id_key (strip_prefix "\"worker_id\"" s)

unfoldable pub worker_id_in : String → Option String
unfolding id_at_start
worker_id_in String.[] = none
worker_id_in (String.◌∷◌ c s) =
    let rest = worker_id_in s in
    elim (id_at_start (String.◌∷◌ c s)) [ none ↦ rest | some id ↦ some id ]

abbrev id_or_name : Option String → Json → Json
id_or_name none name = name
id_or_name (some id) name = str id

module _ (E : DeployEnv) where
  abbrev registered_id : AgentType → (name : Json) → Ran → Option Json
  registered_id coordinator_agent name r = some name
  registered_id worker_agent name (ran output) = some (id_or_name (worker_id_in output) name)
  registered_id worker_agent name (not_ran message) = none

  -- registerInRegistry
  unfoldable pub register_in_registry :
      AgentType → (name : Json) → (coordinator_id : Option Json) → Flow (Option Json)
  unfolding worker_id_in
  register_in_registry type name coordinator_id = do
    result ← send (
        run_near (registry_id E) (by_type type "register_coordinator" "register_worker")
          (object (
            ("name", name)
            ∷ by_type type [] (("coordinator_id", true_or coordinator_id null) ∷ [])))
          "0.1 NEAR")
    done (registered_id type name result)

  abbrev optional_field : String → Option Json → List (String × Json)
  optional_field k none = []
  optional_field k (some j) = if truthy j then (k, j) ∷ [] else []

  -- updateRegistryEndpoint
  unfoldable pub update_registry_endpoint :
      AgentType → (name : Json) → (endpoint_url cvm_id : Option Json) → Flow (Unit {0})
  update_registry_endpoint type name endpoint_url cvm_id = do
    result ← send (
        run_near (registry_id E) (by_type type "update_coordinator" "update_worker")
          (object (
            (by_type type "name" "worker_id", name)
            ∷ (optional_field "endpoint_url" endpoint_url ++ optional_field "phala_cvm_id" cvm_id)))
          "0 NEAR")
    done tt

  -- registerWorkerInCoordinatorContract, without an account
  unfoldable pub register_worker_in_coordinator_contract : (worker_id : Json) → Flow (Unit {0})
  register_worker_in_coordinator_contract worker_id = do
    result ← send (
        run_near (coordinator_contract_id E) "register_worker"
          (object (("worker_id", worker_id) ∷ ("account_id", null) ∷ [])) "0 NEAR")
    done tt
