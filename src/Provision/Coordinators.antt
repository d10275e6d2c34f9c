-- ===== src/Provision/Coordinators.antt =====
-- provisionCoordinator of protocol-api/src/routes/provision.ts.
use delibera_xyz.Prelude.{String, Option, none, some, List, [], ◌∷◌}
use delibera_xyz.Prelude.Text.{set_text}
use delibera_xyz.Json.{Json, Codec, str, value_or_else, template_text}
use delibera_xyz.Host.{error}
use delibera_xyz.Provision.Jobs.{
  Number, not_a_number, natural, generating_identity, creating_space, provisioning_ensue,
  preparing_phala, deploying_phala, Job, updated,
}
use delibera_xyz.Provision.Flow.{
  Identity, clock, Flow, raise, ◌>>=◌, ◌>>◌, rescue, send, assign, own_job, settled, when_given,
}
use delibera_xyz.Provision.Services.{
  Tools, Delegation, EnsueOrg, set_or_text, generate_worker_identity, create_worker_delegation,
  provision_coordinator_ensue_org, cvm_name,
}
use delibera_xyz.Provision.Compose.{coordinator_compose_content}
use delibera_xyz.Provision.Workers.{with_identity, registry_or_default, deploy_named, give_up}

abbrev json_text : Codec → Option Json → Option String
json_text c none = none
json_text c (some j) = some (template_text c j)

abbrev pub with_org : Codec → EnsueOrg → Job → Job
with_org c o job = record job {
  ensue_api_key = some o.api_key;
  ensue_org_name = some o.org_name;
  ensue_claim_url = json_text c o.claim_url;
  ensue_verification_code = json_text c o.verification_code;
}

-- `String(n ?? d)`
abbrev pub number_text : Codec → Option Number → String → String
number_text c none d = d
number_text c (some not_a_number) d = "NaN"
number_text c (some (natural n)) d = c.decimal n

-- envVars
unfoldable pub coordinator_env :
    Tools → Identity → Delegation → EnsueOrg → Job → List (String × Json)
coordinator_env T i d o job =
    ("PORT", str "3000")
    ∷ ("LOCAL_MODE", str "true")
    ∷ ("NEAR_NETWORK", str (set_or_text T.env.near_network "testnet"))
    ∷ ("NEAR_RPC_URL", str (set_or_text T.env.near_rpc_url "https://test.rpc.fastnear.com"))
    ∷ ("REGISTRY_CONTRACT_ID", str (registry_or_default T.env))
    ∷ ("COORDINATOR_DID", str i.did)
    ∷ ("COORDINATOR_STORACHA_PRIVATE_KEY", str i.private_key)
    ∷ ("COORDINATOR_STORACHA_SPACE_DID", str d.space_did)
    ∷ ("COORDINATOR_STORACHA_DELEGATION_BASE64", str d.proof)
    ∷ ("NEAR_ACCOUNT_ID", job.near_account)
    ∷ ("MIN_WORKERS", str (number_text T.codec job.min_workers "1"))
    ∷ ("MAX_WORKERS", str (number_text T.codec job.max_workers "10"))
    ∷ ("ENSUE_API_KEY", str o.api_key)
    ∷ ("ENSUE_ORG_NAME", str o.org_name)
    ∷ ("NEXT_PUBLIC_contractId", value_or_else job.contract_address (str ""))
    ∷ []

module _ (T : Tools) where
  unfoldable pub deploy_coordinator :
      (api_key : String) → Identity → Delegation → EnsueOrg → Flow (Unit {0})
  unfolding coordinator_env cvm_name deploy_named
  deploy_coordinator api_key i d o = do
    job ← own_job
    assign (updated deploying_phala)
    now ← send clock
    name ← settled (cvm_name T "delibera-coord-" job.display_name now)
    deploy_named T api_key coordinator_compose_content (coordinator_env T i d o job) "3000" name

  unfoldable pub prepare_coordinator : Identity → Delegation → EnsueOrg → Flow (Unit {0})
  unfolding deploy_coordinator
  prepare_coordinator i d o = do
    assign (with_org T.codec o)
    assign (updated preparing_phala)
    when_given (set_text T.env.phala_api_key)
        (raise (error "PHALA_API_KEY not configured on server"))
        (λ api_key. deploy_coordinator api_key i d o)

  unfoldable pub provide_memory : Identity → Delegation → Flow (Unit {0})
  unfolding provision_coordinator_ensue_org prepare_coordinator
  provide_memory i d = do
    assign (updated provisioning_ensue)
    o ← provision_coordinator_ensue_org T i.did
    prepare_coordinator i d o

  unfoldable pub delegate_coordinator : Identity → Flow (Unit {0})
  unfolding create_worker_delegation provide_memory
  delegate_coordinator i = do
    assign (with_identity i)
    assign (updated creating_space)
    d ← create_worker_delegation T i.did
    provide_memory i d

  unfoldable pub set_up_coordinator : Flow (Unit {0})
  unfolding generate_worker_identity delegate_coordinator
  set_up_coordinator = do
    assign (updated generating_identity)
    i ← generate_worker_identity T
    delegate_coordinator i

  unfoldable pub provision_coordinator : Flow (Unit {0})
  unfolding rescue set_up_coordinator
  provision_coordinator = rescue set_up_coordinator (give_up T)
