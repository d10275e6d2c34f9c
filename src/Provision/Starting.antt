-- ===== src/Provision/Starting.antt =====
-- The handlers of protocol-api/src/routes/provision.ts that start a job.
use delibera_xyz.Prelude.{
  ℕ, String, Bool, true, false, ◌&&◌, Option, none, some, List, [], ◌∷◌, ltb, if◌then◌else◌,
}
use delibera_xyz.Prelude.Maps.{store}
use delibera_xyz.Json.{Json, null, str, object, member, truthy?}
use delibera_xyz.Host.{Problem, error, type_error, ok, threw}
use delibera_xyz.Host.Answers.{Response, error_response}
use delibera_xyz.Provision.Jobs.{failed_with, worker, coordinator, Number, natural, Job}
use delibera_xyz.Provision.Flow.{assign, Flow, rescue}
use delibera_xyz.Provision.Along.{nothing_made}
use delibera_xyz.Provision.Services.{message_of, Tools}
use delibera_xyz.Provision.Workers.{provision_worker}
use delibera_xyz.Provision.Coordinators.{provision_coordinator}
use delibera_xyz.Provision.IronClaw.{provision_ironclaw_worker}
use delibera_xyz.Provision.Desk.{Desk, advance, entry_at, Handled, new_job}

abbrev pub started_response : String → Response
started_response id = record {
  code = 200;
  body = object (("jobId", str id) ∷ ("status", str "provisioning") ∷ []);
}

-- A field that was found to count as true.
abbrev pub field_or_null : Option Json → Json
field_or_null none = null
field_or_null (some j) = j

abbrev pub all_given : List (Option Json) → Bool
all_given [] = true
all_given (v ∷ vs) = truthy? v && all_given vs

-- `Number(v ?? d)`
abbrev pub number_given : (Json → Number) → Option Json → ℕ → Number
number_given f none d = natural d
number_given f (some null) d = natural d
number_given f (some j) d = f j

-- `a < b` on numbers: nothing is less than NaN, and NaN than nothing.
abbrev pub less : Number → Number → Bool
less (natural a) (natural b) = ltb a b
less a b = false

abbrev pub has_worker_fields : Json → Bool
has_worker_fields body =
    all_given
      (member "coordinatorDid" body ∷ member "displayName" body ∷ member "nearAccount" body ∷ [])

abbrev pub worker_job : Json → (id : String) → (now : ℕ) → Job
worker_job body id now =
    new_job id worker (field_or_null (member "coordinatorDid" body))
      (field_or_null (member "displayName" body)) (field_or_null (member "nearAccount" body)) now

abbrev pub has_coordinator_fields : Json → Bool
has_coordinator_fields body = all_given (member "displayName" body ∷ member "nearAccount" body ∷ [])

abbrev pub coordinator_job :
    Json → (id : String) → (min_workers max_workers : Number) → (now : ℕ) → Job
coordinator_job body id min_workers max_workers now =
    record (new_job id coordinator (str "") (field_or_null (member "displayName" body))
      (field_or_null (member "nearAccount" body)) now) {
        min_workers = some min_workers;
        max_workers = some max_workers;
        contract_address = member "contractAddress" body;
      }

abbrev pub has_ironclaw_fields : Json → Bool
has_ironclaw_fields body = all_given (
    member "coordinatorDid" body
    ∷ member "displayName" body
    ∷ member "nearAccount" body
    ∷ member "doApiToken" body
    ∷ member "nearAiApiKey" body
    ∷ [])

abbrev pub ironclaw_job : Json → (id : String) → (now : ℕ) → Job
ironclaw_job body id now = record (worker_job body id now) {
  do_api_token = member "doApiToken" body;
  near_ai_api_key = member "nearAiApiKey" body;
}

abbrev pub refused : String → Desk → Handled
refused message desk = (ok (error_response 400 message), desk)

module _ (T : Tools) where
  -- `await c.req.json()`: what is read of it throws on null.
  abbrev pub with_body : Option Json → (Json → Desk → Handled) → Desk → Handled
  with_body none k desk = (threw (error T.syntax_error), desk)
  with_body (some null) k desk = (threw type_error, desk)
  with_body (some body) k desk = k body desk

  -- The flow in the background, with the `.catch` of its handler, which knows the message of an error.
  unfoldable pub background : (Problem → String) → Flow (Unit {0}) → Flow (Unit {0})
  unfolding rescue
  background message flow = rescue flow (λ p. assign (failed_with (message p)))

  unfoldable pub start_job : (Problem → String) → Flow (Unit {0}) → Job → (now : ℕ) → Desk → Handled
  unfolding advance background
  start_job message flow job now desk = (
    ok (started_response job.id),
    store job.id (entry_at (advance (background message flow) job) now nothing_made) desk,
  )

  abbrev pub worker_body : (id : String) → (now : ℕ) → Json → Desk → Handled
  worker_body id now body desk =
      if has_worker_fields body
      then start_job (message_of T) (provision_worker T) (worker_job body id now) now desk
      else refused "coordinatorDid, displayName, and nearAccount are required" desk

  -- POST worker
  unfoldable pub worker_route : (body : Option Json) → (id : String) → (now : ℕ) → Desk → Handled
  unfolding start_job provision_worker
  worker_route body id now desk = with_body body (worker_body id now) desk

  abbrev pub check_workers :
      Json → (id : String) → (min_workers max_workers : Number) → (now : ℕ) → Desk → Handled
  check_workers body id min_workers max_workers now desk =
      if less min_workers (natural 1)
      then refused "minWorkers must be >= 1" desk
      else (if less max_workers min_workers
          then refused "maxWorkers must be >= minWorkers" desk
          else start_job (message_of T) (provision_coordinator T)
              (coordinator_job body id min_workers max_workers now) now desk)

  abbrev pub coordinator_body : (id : String) → (now : ℕ) → Json → Desk → Handled
  coordinator_body id now body desk =
      if has_coordinator_fields body
      then check_workers body id (number_given T.to_number (member "minWorkers" body) 1)
          (number_given T.to_number (member "maxWorkers" body) 10) now desk
      else refused "displayName and nearAccount are required" desk

  -- POST coordinator
  unfoldable pub coordinator_route :
      (body : Option Json) → (id : String) → (now : ℕ) → Desk → Handled
  unfolding start_job provision_coordinator
  coordinator_route body id now desk = with_body body (coordinator_body id now) desk

  abbrev pub ironclaw_body : (id : String) → (now : ℕ) → Json → Desk → Handled
  ironclaw_body id now body desk =
      if has_ironclaw_fields body
      then start_job T.describe (provision_ironclaw_worker T) (ironclaw_job body id now) now desk
      else refused
          "coordinatorDid, displayName, nearAccount, doApiToken, and nearAiApiKey are required" desk

  -- POST ironclaw-worker
  unfoldable pub ironclaw_route : (body : Option Json) → (id : String) → (now : ℕ) → Desk → Handled
  unfolding start_job provision_ironclaw_worker
  ironclaw_route body id now desk = with_body body (ironclaw_body id now) desk
