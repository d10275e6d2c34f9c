-- ===== src/Provision/Tests.antt =====
-- The routes of protocol-api/src/routes/provision.ts at concrete requests.
use delibera_xyz.Prelude.{◌≡◌, refl, String, Option, true, none, some, [], ◌∷◌, arith}
use delibera_xyz.Prelude.Maps.{find, store}
use delibera_xyz.Json.{Json, str, template_text, Codec, object}
use delibera_xyz.Host.{Problem, error}
use delibera_xyz.Provision.Jobs.{
  Status, awaiting_near_signature, complete, not_a_number, failed_with,
}
use delibera_xyz.Provision.Flow.{
  Identity, Fetched, got, lost, archived, fetched, generate_identity, create_delegation,
  provision_cvm, commit_cvm, fetch_url, turn, write_memory, clock, ◌>>=◌, rescue,
}
use delibera_xyz.Provision.Along.{nothing_made, Along}
use delibera_xyz.Provision.Services.{ServerEnv, Tools, generate_worker_identity}
use delibera_xyz.Provision.Workers.{
  finish_deployment, await_endpoint, set_up_worker, provision_worker,
}
use delibera_xyz.Provision.Coordinators.{set_up_coordinator, provision_coordinator}
use delibera_xyz.Provision.IronClaw.{provision_ironclaw_worker}
use delibera_xyz.Provision.Provisioned.{EndsProvisioned}
use delibera_xyz.Provision.Droplet.{provision_ironclaw_worker-Along}
use delibera_xyz.Provision.Desk.{Entry, Desk, advance}
use delibera_xyz.Provision.Starting.{
  background, start_job, worker_job, ironclaw_job, worker_route, coordinator_route,
}
use delibera_xyz.Provision.System.{
  first, resumed, worker_requested, coordinator_requested, register_requested, answered, Reach,
  start, onward,
}
use delibera_xyz.Provision.Registering.{register_route, registered, silently, joined, put_name}
use delibera_xyz.Prelude.Text.{includes, has_prefix, strip_prefix}
use delibera_xyz.Provision.Phala.{is_running, find_endpoint, wait_for_healthy}
use delibera_xyz.Provision.Sound.{Sound}
use delibera_xyz.Provision.Reached.{Reach-AllSound}

abbrev codec : Codec
codec = record { parse = λ s. none; stringify = λ j. "json"; decimal = λ n. "7" }

abbrev message : Problem → String
message (error s) = s
message p = "Error"

abbrev server_env : ServerEnv
server_env = record {
  storacha_agent_private_key = some "agent-key";
  storacha_delegation_proof = some "proof";
  phala_api_key = some "phala";
  near_network = none;
  near_rpc_url = none;
  ensue_api_key = none;
  ensue_token = none;
  ensue_org_name = none;
  near_api_key = none;
  registry_contract_id = none;
  lit_network = none;
}

abbrev tools : Tools
tools = record {
  codec = codec;
  describe = message;
  syntax_error = "Unexpected end of JSON input";
  lower = λ s. s;
  base36 = λ n. "abc";
  to_number = λ j. not_a_number;
  env = server_env;
}

abbrev worker_request : Json
worker_request = object (
    ("coordinatorDid", str "did:key:c")
    ∷ ("displayName", str "Ann")
    ∷ ("nearAccount", str "ann.near")
    ∷ ("doApiToken", str "secret")
    ∷ ("nearAiApiKey", str "key")
    ∷ [])

-- Two jobs that have begun.
abbrev one_begun : Desk
one_begun = (worker_route tools (some worker_request) "w" 5 []).1

abbrev two_begun : Desk
two_begun = (coordinator_route tools (some worker_request) "k" 6 one_begun).1

-- The first has failed: no identity was generated.
abbrev failed_entry : Entry
failed_entry = record {
  job = failed_with "no entropy" (worker_job worker_request "w" 5);
  tasks = [];
  made = nothing_made;
}

two_begun-Reach : Reach tools two_begun
unfolding find store worker_route coordinator_route start_job advance
two_begun-Reach =
    onward (onward start (worker_requested (some worker_request) "w" 5 refl))
      (coordinator_requested (some worker_request) "k" 6 refl)

failed_desk-Reach : Reach tools (store "w" failed_entry two_begun)
unfolding find store worker_route coordinator_route start_job background advance resumed
    provision_worker provision_coordinator set_up_worker set_up_coordinator generate_worker_identity
    rescue ◌>>=◌
failed_desk-Reach =
    onward two_begun-Reach
      (answered "w" {q = generate_identity} (lost (error "no entropy")) 9 refl first (omega arith))

provision_ironclaw_worker-Along_example :
    Along codec
      (EndsProvisioned codec)
      (provision_ironclaw_worker tools)
      5
      (ironclaw_job worker_request "w" 5)
      nothing_made
provision_ironclaw_worker-Along_example =
    provision_ironclaw_worker-Along tools 5 (ironclaw_job worker_request "w" 5)

abbrev identity : Identity
identity = record { did = "did:key:w"; private_key = "w-key" }

abbrev running : Fetched
running = fetched true 200 (got "running") (some (object (("message", str "running") ∷ [])))

-- The first job is deployed, and waits for its signature.
unfoldable ready_run : (desk : Desk) × Reach tools desk
unfolding find store worker_route coordinator_route register_route registered silently joined
    put_name start_job background advance resumed provision_worker provision_coordinator
    set_up_worker set_up_coordinator generate_worker_identity is_running template_text includes
    has_prefix strip_prefix find_endpoint finish_deployment await_endpoint wait_for_healthy rescue
    ◌>>=◌
ready_run = (
  _,
  onward
      (onward
        (onward
          (onward
            (onward
              (onward
                (onward (two_begun-Reach)
                  (answered "w" {q = generate_identity} (got identity) 9 refl first (omega arith)))
                (answered "w" {q = create_delegation "agent-key" "proof" "did:key:w"}
                  (got (archived "did:key:s" "car")) 10 refl first (omega arith)))
              (answered "w" {q = clock} 11 11 refl first (omega arith, omega arith)))
            (answered "w" {q = provision_cvm _ _ _ _} (got (object (("app_id", str "app") ∷ []))) 12
              refl first (omega arith)))
          (answered "w" {q = commit_cvm _ _ _ _} (got (object (("vm_uuid", str "vm") ∷ []))) 13 refl
            first (omega arith)))
        (answered "w" {q = fetch_url _} running 14 refl first (omega arith)))
      (answered "w" {q = fetch_url _} running 15 refl first (omega arith)),
)

-- It is registered.
unfoldable complete_run : (desk : Desk) × Reach tools desk
unfolding find store worker_route coordinator_route register_route registered silently joined
    put_name start_job background advance resumed provision_worker provision_coordinator
    set_up_worker set_up_coordinator generate_worker_identity is_running template_text includes
    has_prefix strip_prefix find_endpoint finish_deployment await_endpoint wait_for_healthy rescue
    ◌>>=◌ ready_run
complete_run = (
  _,
  onward
      (onward
        (onward
          (onward (ready_run.1) (register_requested (some (object (("jobId", str "w") ∷ []))) 16))
          (answered "w" {q = turn} tt 17 refl first (omega arith)))
        (answered "w" {q = turn} tt 18 refl first (omega arith)))
      (answered "w" {q = write_memory _ _} (got tt) 19 refl first (omega arith)),
)

unfoldable status_at : String → Desk → Option Status
unfolding find
status_at id desk = elim (find id desk) [ none ↦ none | some e ↦ some e.job.status ]

ready_status : status_at "w" ready_run.0 ≡ some awaiting_near_signature
unfolding find store worker_route coordinator_route register_route registered silently joined
    put_name start_job background advance resumed provision_worker provision_coordinator
    set_up_worker set_up_coordinator generate_worker_identity is_running template_text includes
    has_prefix strip_prefix find_endpoint finish_deployment await_endpoint wait_for_healthy rescue
    ◌>>=◌ status_at ready_run
ready_status = refl

complete_status : status_at "w" complete_run.0 ≡ some complete
unfolding find store worker_route coordinator_route register_route registered silently joined
    put_name start_job background advance resumed provision_worker provision_coordinator
    set_up_worker set_up_coordinator generate_worker_identity is_running template_text includes
    has_prefix strip_prefix find_endpoint finish_deployment await_endpoint wait_for_healthy rescue
    ◌>>=◌ status_at ready_run complete_run
complete_status = refl

abbrev entry_or : Entry → Option Entry → Entry
entry_or d none = d
entry_or d (some e) = e

Reach-AllSound_example : Sound codec (entry_or failed_entry (find "w" complete_run.0))
unfolding find store worker_route coordinator_route register_route registered silently joined
    put_name start_job background advance resumed provision_worker provision_coordinator
    set_up_worker set_up_coordinator generate_worker_identity is_running template_text includes
    has_prefix strip_prefix find_endpoint finish_deployment await_endpoint wait_for_healthy rescue
    ◌>>=◌ ready_run complete_run
Reach-AllSound_example =
    Reach-AllSound tools complete_run.1 "w" (entry_or failed_entry (find "w" complete_run.0)) refl
