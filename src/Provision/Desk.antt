-- ===== src/Provision/Desk.antt =====
-- The job store of protocol-api/src/routes/provision.ts. A job stands with the flows that work on it and are not
-- over, each at its open request.
use delibera_xyz.Prelude.{ℕ, String, Option, none, some, List, [], ◌∷◌}
use delibera_xyz.Json.{Json}
use delibera_xyz.Host.{Outcome}
use delibera_xyz.Host.Answers.{Response}
use delibera_xyz.Provision.Jobs.{generating_identity, Role, Job, status_to_step}
use delibera_xyz.Provision.Flow.{Flow, done, raise, stuck, change, look, ask}
use delibera_xyz.Provision.Along.{Made}

-- A flow at its open request, and a time before which it was not made.
pub record Task : Type 0 where
  pub flow : Flow (Unit {0})
  pub since : ℕ

-- A job, its flows, and what an observer has seen the services make for it.
pub record Entry : Type 0 where
  pub job : Job
  pub tasks : List Task
  pub made : Made

abbrev pub Desk : Type 0
Desk = List (String × Entry)

-- A flow runs up to its next request.
unfoldable pub advance : Flow (Unit {0}) → Job → Job × Option (Flow (Unit {0}))
advance (done u) job = (job, none)
advance (raise p) job = (job, none)
advance stuck job = (job, some stuck)
advance (change f m) job = advance m (f job)
advance (look k) job = advance (k job) job
advance (ask q k) job = (job, some (ask q k))

abbrev pub tasks_of : Option (Flow (Unit {0})) → (now : ℕ) → List Task
tasks_of none now = []
tasks_of (some flow) now = record { flow = flow; since = now } ∷ []

abbrev pub entry_at : Job × Option (Flow (Unit {0})) → (now : ℕ) → Made → Entry
entry_at left now made = record { job = left.0; tasks = tasks_of left.1 now; made = made }

abbrev pub Handled : Type 0
Handled = Outcome Response × Desk

-- A job at its start.
abbrev pub new_job :
    (id : String) → Role → (coordinator_did display_name near_account : Json) → (now : ℕ) → Job
new_job id role coordinator_did display_name near_account now = record {
  id = id;
  role = role;
  worker_did = "";
  storacha_private_key = "";
  coordinator_did = coordinator_did;
  display_name = display_name;
  near_account = near_account;
  status = generating_identity;
  step = status_to_step generating_identity role;
  phala_endpoint = none;
  cvm_id = none;
  dashboard_url = none;
  error = none;
  created_at = now;
  do_api_token = none;
  droplet_id = none;
  droplet_ip = none;
  webhook_secret = none;
  near_ai_api_key = none;
  min_workers = none;
  max_workers = none;
  contract_address = none;
  ensue_api_key = none;
  ensue_org_name = none;
  ensue_claim_url = none;
  ensue_verification_code = none;
}
