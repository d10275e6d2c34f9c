-- ===== src/Provision/Jobs.antt =====
-- The jobs of protocol-api/src/routes/provision.ts: their statuses and what a change of the status does.
use delibera_xyz.Prelude.{ℕ, String, Option, some}
use delibera_xyz.Json.{Json}

-- ProvisionStatus
pub data Status : Type 0 where
  generating_identity creating_space provisioning_ensue preparing_phala deploying_phala : Status
  waiting_for_url awaiting_near_signature registering complete failed : Status
  creating_droplet waiting_for_ip waiting_for_ssh waiting_for_cloud_init : Status
  configuring_agent starting_agent waiting_for_webhook : Status

pub data Role : Type 0 where
  worker coordinator : Role

-- What `Number(v)` gives; no other number is read from a request.
pub data Number : Type 0 where
  not_a_number : Number
  natural : ℕ → Number

-- ProvisionJob. What a request leaves unchecked beside its truth is a value of JSON.
pub record Job : Type 0 where
  pub id : String
  pub role : Role
  pub worker_did : String
  pub storacha_private_key : String
  pub coordinator_did : Json
  pub display_name : Json
  pub near_account : Json
  pub status : Status
  pub step : String
  pub phala_endpoint : Option String
  pub cvm_id : Option String
  pub dashboard_url : Option String
  pub error : Option String
  pub created_at : ℕ
  pub do_api_token : Option Json
  pub droplet_id : Option Json
  pub droplet_ip : Option String
  pub webhook_secret : Option String
  pub near_ai_api_key : Option Json
  pub min_workers : Option Number
  pub max_workers : Option Number
  pub contract_address : Option Json
  pub ensue_api_key : Option String
  pub ensue_org_name : Option String
  pub ensue_claim_url : Option String
  pub ensue_verification_code : Option String

abbrev pub by_role : Role → String → String → String
by_role coordinator s t = s
by_role worker s t = t

-- statusToStep
unfoldable pub status_to_step : Status → Role → String
status_to_step generating_identity role =
    by_role role "Generating coordinator identity" "Generating worker identity"
status_to_step creating_space role = "Creating Storacha space"
status_to_step provisioning_ensue role = "Provisioning coordination memory"
status_to_step preparing_phala role = "Preparing Phala deployment"
status_to_step deploying_phala role = "Deploying to Phala TEE"
status_to_step waiting_for_url role = "Waiting for public URL (3-10 min)"
status_to_step awaiting_near_signature role = "Waiting for NEAR wallet signature"
status_to_step registering role =
    by_role role "Registering coordinator on NEAR" "Registering on NEAR"
status_to_step complete role = by_role role "Coordinator active" "Worker active"
status_to_step failed role = "Deployment failed"
status_to_step creating_droplet role = "Creating DigitalOcean Droplet"
status_to_step waiting_for_ip role = "Waiting for server IP"
status_to_step waiting_for_ssh role = "Server booting (cloud-init)"
status_to_step waiting_for_cloud_init role = "Waiting for cloud-init to finish"
status_to_step configuring_agent role = "Configuring Delibera agent"
status_to_step starting_agent role = "Starting IronClaw agent"
status_to_step waiting_for_webhook role = "Waiting for agent to come online (3-5 min)"

-- updateJob without further fields, on the job that stands under the id.
abbrev pub updated : Status → Job → Job
updated status job = record job { status = status; step = status_to_step status job.role }

-- updateJob with the field `error`.
abbrev pub failed_with : String → Job → Job
failed_with message job = record (updated failed job) { error = some message }

-- updateJob with the field `phalaEndpoint`.
abbrev pub awaiting_at : String → Job → Job
awaiting_at url job = record (updated awaiting_near_signature job) { phala_endpoint = some url }
