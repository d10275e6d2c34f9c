-- ===== src/Provision/IronClaw.antt =====
-- provisionIronClawWorker of protocol-api/src/routes/provision.ts.
use delibera_xyz.Prelude.{String, Option, none, some, [], ◌∷◌}
use delibera_xyz.Prelude.Text.{text_given}
use delibera_xyz.Json.{Json, null, str, num}
use delibera_xyz.Host.{Problem}
use delibera_xyz.Provision.Jobs.{
  generating_identity, creating_space, awaiting_near_signature, Job, updated, failed_with,
}
use delibera_xyz.Provision.Flow.{
  turn, Identity, random_uuid, Flow, ◌>>=◌, ◌>>◌, rescue, send, assign, own_job,
}
use delibera_xyz.Provision.Services.{
  Tools, Delegation, generate_worker_identity, create_worker_delegation,
}
use delibera_xyz.Provision.Droplets.{IronClawConfig, DeployedDroplet, deploy_ironclaw_worker}
use delibera_xyz.Provision.Workers.{with_identity}

-- `v ?? ''`
abbrev given_or_empty : Option Json → Json
given_or_empty none = str ""
given_or_empty (some null) = str ""
given_or_empty (some j) = j

-- ironcfg
unfoldable pub ironclaw_config :
    Tools → Identity → Delegation → (webhook_secret : String) → Job → IronClawConfig
ironclaw_config T i d webhook_secret job = record {
  do_api_token = given_or_empty job.do_api_token;
  do_region = "nyc3";
  webhook_secret = webhook_secret;
  webhook_port = "8080";
  settings =
      ("doSize", str "s-1vcpu-1gb")
      ∷ ("workerDid", str i.did)
      ∷ ("workerNearAccount", job.near_account)
      ∷ ("storachaPrivateKey", str i.private_key)
      ∷ ("storachaDelegation", str d.proof)
      ∷ ("storachaSpaceDid", str d.space_did)
      ∷ ("coordinatorDid", job.coordinator_did)
      ∷ ("ensueApiKey", str (text_given T.env.ensue_api_key ""))
      ∷ ("ensueCoordinatorOrg", str (text_given T.env.ensue_org_name ""))
      ∷ ("nearAiApiKey", given_or_empty job.near_ai_api_key)
      ∷ ("webhookSecret", str webhook_secret)
      ∷ ("webhookPort", num 8080)
      ∷ (
        "coordinatorContract",
        str (text_given T.env.registry_contract_id "registry.agents-coordinator.testnet"),
      )
      ∷ [];
}

abbrev pub without_token : Job → Job
without_token job = record job { do_api_token = some (str "") }

abbrev pub with_secret : String → Job → Job
with_secret secret job = record job { webhook_secret = some secret }

abbrev pub with_droplet : DeployedDroplet → Job → Job
with_droplet d job = record job {
  cvm_id = some d.cvm_id;
  droplet_id = d.droplet_id;
  droplet_ip = some d.droplet_ip;
  phala_endpoint = some d.webhook_url;
}

abbrev pub awaiting_droplet : DeployedDroplet → Job → Job
awaiting_droplet d job = record (updated awaiting_near_signature job) {
  phala_endpoint = some d.webhook_url;
  cvm_id = some d.cvm_id;
}

unfoldable pub finish_droplet : DeployedDroplet → Flow (Unit {0})
finish_droplet deployed = do
  assign without_token
  assign (with_droplet deployed)
  assign (awaiting_droplet deployed)

module _ (T : Tools) where
  unfoldable pub deploy_ironclaw :
      Identity → Delegation → (webhook_secret : String) → Flow (Unit {0})
  unfolding ironclaw_config deploy_ironclaw_worker finish_droplet
  deploy_ironclaw i d webhook_secret = do
    assign (with_secret webhook_secret)
    send turn
    job ← own_job
    deployed ← deploy_ironclaw_worker T (ironclaw_config T i d webhook_secret job)
    finish_droplet deployed

  unfoldable pub prepare_ironclaw : Identity → Delegation → Flow (Unit {0})
  unfolding deploy_ironclaw
  prepare_ironclaw i d = do secret ← send random_uuid; deploy_ironclaw i d secret

  unfoldable pub delegate_ironclaw : Identity → Flow (Unit {0})
  unfolding create_worker_delegation prepare_ironclaw
  delegate_ironclaw i = do
    assign (with_identity i)
    assign (updated creating_space)
    d ← create_worker_delegation T i.did
    prepare_ironclaw i d

  unfoldable pub set_up_ironclaw_worker : Flow (Unit {0})
  unfolding generate_worker_identity delegate_ironclaw
  set_up_ironclaw_worker = do
    assign (updated generating_identity)
    i ← generate_worker_identity T
    delegate_ironclaw i

  -- The token is cleared on a failure too; `error?.message ?? 'Unknown error'` is the message.
  abbrev pub give_up_droplet : Problem → Flow (Unit {0})
  give_up_droplet p = do assign without_token; assign (failed_with (T.describe p))

  unfoldable pub provision_ironclaw_worker : Flow (Unit {0})
  unfolding rescue set_up_ironclaw_worker
  provision_ironclaw_worker = rescue set_up_ironclaw_worker give_up_droplet
