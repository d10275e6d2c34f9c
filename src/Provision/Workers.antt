-- ===== src/Provision/Workers.antt =====
-- provisionWorker of protocol-api/src/routes/provision.ts.
use delibera_xyz.Prelude.{String, Option, none, some, List, [], ◌∷◌}
use delibera_xyz.Prelude.Text.{set_text}
use delibera_xyz.Json.{Json, str}
use delibera_xyz.Host.{Problem, error}
use delibera_xyz.Provision.Jobs.{
  generating_identity, creating_space, preparing_phala, deploying_phala, waiting_for_url, Job,
  updated, failed_with, awaiting_at,
}
use delibera_xyz.Provision.Flow.{
  Identity, clock, Flow, raise, ◌>>=◌, ◌>>◌, rescue, send, assign, own_job, settled, when_given,
}
use delibera_xyz.Provision.Services.{
  Tools, ServerEnv, Delegation, set_or_text, message_of, generate_worker_identity,
  create_worker_delegation, cvm_name,
}
use delibera_xyz.Provision.Phala.{Deployed, wait_for_healthy, deploy_cvm}
use delibera_xyz.Provision.Compose.{worker_compose_content}

abbrev pub with_identity : Identity → Job → Job
with_identity i job = record job { worker_did = i.did; storacha_private_key = i.private_key }

abbrev pub with_deployed : Deployed → Job → Job
with_deployed d job = record job { cvm_id = some d.cvm_id; dashboard_url = some d.dashboard_url }

abbrev pub at_endpoint : String → Job → Job
at_endpoint url job = record job { phala_endpoint = some url }

-- `result.endpointUrl || result.deterministicUrl`, if it counts as true.
abbrev pub endpoint_of : Deployed → Option String
endpoint_of d = elim (set_text d.endpoint_url) [
  | some url ↦ some url
  | none ↦ set_text d.deterministic_url
]

abbrev pub registry_or_default : ServerEnv → String
registry_or_default E = set_or_text E.registry_contract_id "registry.agents-coordinator.testnet"

-- envVars
unfoldable pub worker_env : ServerEnv → Identity → Delegation → Job → List (String × Json)
worker_env E i d job =
    ("PORT", str "3001")
    ∷ ("NEAR_NETWORK", str (set_or_text E.near_network "testnet"))
    ∷ ("ENSUE_API_KEY", str (set_or_text E.ensue_api_key ""))
    ∷ ("ENSUE_TOKEN", str (set_or_text E.ensue_token (set_or_text E.ensue_api_key "")))
    ∷ ("NEAR_API_KEY", str (set_or_text E.near_api_key ""))
    ∷ ("STORACHA_AGENT_PRIVATE_KEY", str i.private_key)
    ∷ ("STORACHA_DELEGATION_PROOF", str d.proof)
    ∷ ("STORACHA_SPACE_DID", str d.space_did)
    ∷ ("COORDINATOR_DID", job.coordinator_did)
    ∷ ("REGISTRY_CONTRACT_ID", str (registry_or_default E))
    ∷ ("NEAR_ACCOUNT_ID", job.near_account)
    ∷ ("NEAR_SEED_PHRASE", str "")
    ∷ ("LIT_NETWORK", str (set_or_text E.lit_network "naga-dev"))
    ∷ ("WORKER_DISPLAY_NAME", job.display_name)
    ∷ []

module _ (T : Tools) where
  -- What follows a deployment: the job waits for the endpoint, and then for the signature, also if the
  -- endpoint has not become healthy.
  unfoldable pub await_endpoint : Option String → Flow (Unit {0})
  unfolding wait_for_healthy
  await_endpoint endpoint =
      when_given endpoint (assign (failed_with "Could not determine endpoint URL")) (λ url. do
        assign (updated waiting_for_url)
        assign (at_endpoint url)
        healthy ← wait_for_healthy T url 40 15000
        assign (awaiting_at url))

  -- What follows the name of a CVM, in both flows.
  unfoldable pub finish_deployment : Deployed → Flow (Unit {0})
  unfolding await_endpoint
  finish_deployment result = do assign (with_deployed result); await_endpoint (endpoint_of result)

  unfoldable pub deploy_named :
      (api_key compose : String) → List (String × Json) → (port name : String) → Flow (Unit {0})
  unfolding deploy_cvm finish_deployment
  deploy_named api_key compose envs port name = do
    result ← deploy_cvm T api_key name compose envs port
    finish_deployment result

  unfoldable pub deploy_worker : (api_key : String) → Identity → Delegation → Flow (Unit {0})
  unfolding worker_env cvm_name deploy_named
  deploy_worker api_key i d = do
    job ← own_job
    assign (updated deploying_phala)
    now ← send clock
    name ← settled (cvm_name T "delibera-worker-" job.display_name now)
    deploy_named api_key worker_compose_content (worker_env T.env i d job) "3001" name

  -- The end of the catch clause of all three flows.
  abbrev pub give_up : Problem → Flow (Unit {0})
  give_up p = assign (failed_with (message_of T p))

  unfoldable pub prepare_worker : Identity → Delegation → Flow (Unit {0})
  unfolding deploy_worker
  prepare_worker i d = do
    assign (updated preparing_phala)
    when_given (set_text T.env.phala_api_key)
        (raise (error "PHALA_API_KEY not configured on server"))
        (λ api_key. deploy_worker api_key i d)

  unfoldable pub delegate_worker : Identity → Flow (Unit {0})
  unfolding create_worker_delegation prepare_worker
  delegate_worker i = do
    assign (with_identity i)
    assign (updated creating_space)
    d ← create_worker_delegation T i.did
    prepare_worker i d

  unfoldable pub set_up_worker : Flow (Unit {0})
  unfolding generate_worker_identity delegate_worker
  set_up_worker = do
    assign (updated generating_identity)
    i ← generate_worker_identity T
    delegate_worker i

  unfoldable pub provision_worker : Flow (Unit {0})
  unfolding rescue set_up_worker
  provision_worker = rescue set_up_worker give_up
