-- ===== src/Provision/Registering.antt =====
-- The handlers of protocol-api/src/routes/provision.ts that finish a job or show it: the registrations, the status,
-- and the identity of an external worker.
use delibera_xyz.Prelude.{ℕ, String, Option, none, some, List, [], ◌∷◌, ◌++◌, if◌then◌else◌}
use delibera_xyz.Prelude.Text.{◌<>◌}
use delibera_xyz.Prelude.Maps.{find, store}
use delibera_xyz.Json.{Json, null, str, num, object, member, truthy?}
use delibera_xyz.Host.{error, type_error, Outcome, ok, threw}
use delibera_xyz.Host.Answers.{Response, error_response}
use delibera_xyz.Provision.Jobs.{
  Status, generating_identity, creating_space, provisioning_ensue, preparing_phala, deploying_phala,
  waiting_for_url, awaiting_near_signature, registering, complete, failed, creating_droplet,
  waiting_for_ip, waiting_for_ssh, waiting_for_cloud_init, configuring_agent, starting_agent,
  waiting_for_webhook, Role, worker, coordinator, Number, not_a_number, natural, Job, updated,
}
use delibera_xyz.Provision.Flow.{
  write_memory, turn, Flow, done, ◌>>=◌, ◌>>◌, rescue, send, assign, own_job, received,
}
use delibera_xyz.Provision.Along.{is_awaiting}
use delibera_xyz.Provision.Services.{Tools}
use delibera_xyz.Provision.Desk.{Entry, Desk, advance, tasks_of}

abbrev pub status_text : Status → String
status_text generating_identity = "generating_identity"
status_text creating_space = "creating_space"
status_text provisioning_ensue = "provisioning_ensue"
status_text preparing_phala = "preparing_phala"
status_text deploying_phala = "deploying_phala"
status_text waiting_for_url = "waiting_for_url"
status_text awaiting_near_signature = "awaiting_near_signature"
status_text registering = "registering"
status_text complete = "complete"
status_text failed = "failed"
status_text creating_droplet = "creating_droplet"
status_text waiting_for_ip = "waiting_for_ip"
status_text waiting_for_ssh = "waiting_for_ssh"
status_text waiting_for_cloud_init = "waiting_for_cloud_init"
status_text configuring_agent = "configuring_agent"
status_text starting_agent = "starting_agent"
status_text waiting_for_webhook = "waiting_for_webhook"

abbrev pub role_text : Role → String
role_text worker = "worker"
role_text coordinator = "coordinator"

-- A field that is undefined is left out of an answer.
abbrev pub given_fields : List (String × Option Json) → List (String × Json)
given_fields [] = []
given_fields ((k, none) ∷ fs) = given_fields fs
given_fields ((k, some j) ∷ fs) = (k, j) ∷ given_fields fs

abbrev pub text_field : Option String → Option Json
text_field none = none
text_field (some s) = some (str s)

-- NaN is printed as null.
abbrev pub number_field : Option Number → Option Json
number_field none = none
number_field (some not_a_number) = some null
number_field (some (natural n)) = some (num n)

-- A handler that has answered, or works on.
pub data Reply : Type 0 where
  replied : Outcome Response → Reply
  underway : Flow Response → Reply

abbrev pub rejected : ℕ → String → Reply
rejected code message = replied (ok (error_response code message))

-- `jobs.get(id)` with what the handler does with the job. No other value than a text is a key.
abbrev pub with_job : Option Json → (String → Entry → Desk → Reply × Desk) → Desk → Reply × Desk
with_job (some (str id)) k desk = elim (find id desk) [
  | none ↦ (rejected 404 "Job not found", desk)
  | some entry ↦ k id entry desk
]
with_job id k desk = (rejected 404 "Job not found", desk)

abbrev pub wrong_status : Job → String
wrong_status job =
    "Job is in status '" <> (status_text job.status <> "', expected 'awaiting_near_signature'")

-- The `try` of POST register: what is thrown is dropped.
unfoldable pub put_name : Flow (Unit {0})
unfolding rescue
put_name =
    rescue
      (do
        send turn
        send turn
        job ← own_job
        answer ←
            send (write_memory ("agent/" <> (job.worker_did <> "/display_name")) job.display_name)
        received answer)
      (λ p. done tt)

abbrev pub registered_response : (tx_hash : Option Json) → Job → Response
registered_response tx_hash job = record {
  code = 200;
  body = object (
      given_fields (
        ("status", some (str "complete"))
        ∷ ("workerDid", some (str job.worker_did))
        ∷ ("phalaEndpoint", text_field job.phala_endpoint)
        ∷ ("txHash", tx_hash)
        ∷ []));
}

abbrev pub finish_registration : (tx_hash : Option Json) → Flow Response
finish_registration tx_hash = do
  assign (updated complete)
  job ← own_job
  done (registered_response tx_hash job)

-- The end of POST register, from its `try` on.
unfoldable pub registered : (tx_hash : Option Json) → Flow Response
unfolding put_name
registered tx_hash = do put_name; finish_registration tx_hash

-- The flow of a handler, as a task.
unfoldable pub silently : Flow Response → Flow (Unit {0})
silently m = m >>= λ response. done tt

-- An entry on whose job one flow more works.
unfoldable pub joined : Flow (Unit {0}) → Job → (now : ℕ) → Entry → Entry
unfolding advance
joined flow job now entry = record entry {
  job = (advance flow job).0;
  tasks = entry.tasks ++ tasks_of (advance flow job).1 now;
}

module _ (T : Tools) where
  abbrev pub reading_body : Option Json → (Json → Desk → Reply × Desk) → Desk → Reply × Desk
  reading_body none k desk = (replied (threw (error T.syntax_error)), desk)
  reading_body (some null) k desk = (replied (threw type_error), desk)
  reading_body (some body) k desk = k body desk

  abbrev pub begin_register :
      (tx_hash : Option Json) → (now : ℕ) → String → Entry → Desk → Reply × Desk
  begin_register tx_hash now id entry desk =
      if is_awaiting entry.job.status
      then (
        underway (registered tx_hash),
        store id (joined (silently (registered tx_hash)) (updated registering entry.job) now entry)
            desk,
      )
      else (rejected 400 (wrong_status entry.job), desk)

  abbrev pub register_body : (now : ℕ) → Json → Desk → Reply × Desk
  register_body now body desk =
      if truthy? (member "jobId" body)
      then with_job (member "jobId" body) (begin_register (member "txHash" body) now) desk
      else (rejected 400 "jobId is required", desk)

  -- POST register
  unfoldable pub register_route : (body : Option Json) → (now : ℕ) → Desk → Reply × Desk
  unfolding registered silently joined
  register_route body now desk = reading_body body (register_body now) desk

  abbrev pub coordinator_registered : Json → Job → Response
  coordinator_registered body job = record {
    code = 200;
    body = object (
        given_fields (
          ("status", some (str "complete"))
          ∷ ("coordinatorDid", some (str job.worker_did))
          ∷ ("phalaEndpoint", text_field job.phala_endpoint)
          ∷ ("contractAddress", member "contractAddress" body)
          ∷ ("txHash", member "txHash" body)
          ∷ ("ensueOrgName", text_field job.ensue_org_name)
          ∷ ("ensueClaimUrl", text_field job.ensue_claim_url)
          ∷ ("ensueVerificationCode", text_field job.ensue_verification_code)
          ∷ []));
  }

  abbrev pub finish_coordinator : Json → Role → String → Entry → Desk → Reply × Desk
  finish_coordinator body worker id entry desk = (rejected 400 "Job is not a coordinator job", desk)
  finish_coordinator body coordinator id entry desk =
      if is_awaiting entry.job.status
      then (
        replied (ok (coordinator_registered body (updated complete entry.job))),
        store id (record entry { job = updated complete entry.job }) desk,
      )
      else (rejected 400 (wrong_status entry.job), desk)

  abbrev pub coordinator_register_body : Json → Desk → Reply × Desk
  coordinator_register_body body desk =
      if truthy? (member "jobId" body)
      then with_job (member "jobId" body)
          (λ id entry. finish_coordinator body entry.job.role id entry) desk
      else (rejected 400 "jobId is required", desk)

  -- POST coordinator-register
  unfoldable pub coordinator_register_route : (body : Option Json) → Desk → Reply × Desk
  coordinator_register_route body desk = reading_body body coordinator_register_body desk
