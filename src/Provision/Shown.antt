-- ===== src/Provision/Shown.antt =====
-- The handlers of protocol-api/src/routes/provision.ts that leave the jobs alone: the status of a job, and the
-- identity of an external worker.
use delibera_xyz.Prelude.{
  String, Bool, true, false, ◌||◌, Option, none, some, List, [], ◌∷◌, if◌then◌else◌,
}
use delibera_xyz.Prelude.Text.{set_text}
use delibera_xyz.Prelude.Maps.{find}
use delibera_xyz.Json.{Json, null, str, object, member}
use delibera_xyz.Host.{error, type_error}
use delibera_xyz.Host.Answers.{Response, error_response}
use delibera_xyz.Provision.Jobs.{Status, complete, Job}
use delibera_xyz.Provision.Flow.{Flow, done, raise, ◌>>=◌}
use delibera_xyz.Provision.Along.{is_awaiting}
use delibera_xyz.Provision.Services.{Tools, generate_worker_identity}
use delibera_xyz.Provision.Desk.{Desk}
use delibera_xyz.Provision.Starting.{all_given}
use delibera_xyz.Provision.Registering.{
  status_text, role_text, given_fields, text_field, number_field,
}

abbrev pub is_complete : Status → Bool
is_complete complete = true
is_complete status = false

-- revealSecrets
abbrev pub reveals : Status → Bool
reveals status = is_awaiting status || is_complete status

abbrev pub revealed : Bool → Option Json → Option Json
revealed true j = j
revealed false j = none

abbrev pub status_fields : Job → List (String × Option Json)
status_fields job =
    ("jobId", some (str job.id))
    ∷ ("role", some (str (role_text job.role)))
    ∷ ("status", some (str (status_text job.status)))
    ∷ ("step", some (str job.step))
    ∷ ("workerDid", text_field (set_text (some job.worker_did)))
    ∷ ("storachaPrivateKey", revealed (reveals job.status) (some (str job.storacha_private_key)))
    ∷ ("phalaEndpoint", text_field job.phala_endpoint)
    ∷ ("cvmId", text_field job.cvm_id)
    ∷ ("dashboardUrl", text_field job.dashboard_url)
    ∷ ("coordinatorDid", some job.coordinator_did)
    ∷ ("displayName", some job.display_name)
    ∷ ("nearAccount", some job.near_account)
    ∷ ("error", text_field job.error)
    ∷ ("dropletIp", text_field job.droplet_ip)
    ∷ ("webhookSecret", revealed (reveals job.status) (text_field job.webhook_secret))
    ∷ ("minWorkers", number_field job.min_workers)
    ∷ ("maxWorkers", number_field job.max_workers)
    ∷ ("contractAddress", job.contract_address)
    ∷ ("ensueOrgName", revealed (reveals job.status) (text_field job.ensue_org_name))
    ∷ ("ensueClaimUrl", revealed (reveals job.status) (text_field job.ensue_claim_url))
    ∷ (
      "ensueVerificationCode",
      revealed (reveals job.status) (text_field job.ensue_verification_code),
    )
    ∷ []

-- GET status/:jobId
unfoldable pub job_status_route : (id : String) → Desk → Response
job_status_route id desk = elim (find id desk) [
  | none ↦ error_response 404 "Job not found"
  | some entry ↦ record { code = 200; body = object (given_fields (status_fields entry.job)) }
]

module _ (T : Tools) where
  abbrev pub external_body : Json → Flow Response
  external_body body =
      if all_given (
        member "displayName" body
        ∷ member "nearAccount" body
        ∷ member "endpointUrl" body
        ∷ member "coordinatorDid" body
        ∷ [])
      then (do
        i ← generate_worker_identity T
        done (record {
          code = 200;
          body = object (("workerDid", str i.did) ∷ ("privateKeyString", str i.private_key) ∷ []);
        }))
      else done (
          error_response 400
            "displayName, nearAccount, endpointUrl, and coordinatorDid are required")

  -- POST external-worker
  unfoldable pub external_worker_route : (body : Option Json) → Flow Response
  unfolding generate_worker_identity
  external_worker_route none = raise (error T.syntax_error)
  external_worker_route (some null) = raise type_error
  external_worker_route (some body) = external_body body
