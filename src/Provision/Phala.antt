-- ===== src/Provision/Phala.antt =====
-- The deployment on Phala: deployCvm, getAppUrl and waitForAppReady of protocol-api/src/phala/phala-client.ts, and
-- waitForHealthy of routes/provision.ts. The SDK, the encryption among it, is asked.
use delibera_xyz.Prelude.{
  ℕ, zero, suc, String, Bool, true, false, ◌&&◌, Option, none, some, List, [], ◌∷◌, map,
  if◌then◌else◌,
}
use delibera_xyz.Prelude.Text.{◌<>◌, is_empty, set_text, includes, trim}
use delibera_xyz.Json.{Json, null, str, arr, list_of, member, truthy, truthy?, template_text}
use delibera_xyz.Host.{type_error}
use delibera_xyz.Provision.Flow.{
  Fetched, fetched, provision_cvm, encrypt_env, commit_cvm, fetch_cvm, fetch_url, sleep, Flow, done,
  raise, ◌>>=◌, ◌>>◌, send, received, when_given,
}
use delibera_xyz.Provision.Services.{Tools, value_text}

-- DeployCvmResult
pub record Deployed : Type 0 where
  pub cvm_id : String
  pub status : String
  pub dashboard_url : String
  pub app_id : String
  pub endpoint_url : Option String
  pub deterministic_url : Option String

-- Rounds of a question, with a pause between two of them; `none` asks again.
unfoldable pub attempts : {A : Type 0} → ℕ → (delay : ℕ) → Flow (Option A) → Flow (Option A)
attempts zero delay round = done none
attempts (suc zero) delay round = round
attempts (suc (suc n)) delay round = do
  found ← round
  when_given found (do send (sleep delay); attempts (suc n) delay round) (λ a. done (some a))

-- `none` where an item cannot be read, which ends the attempt.
abbrev also_url : Option Json → Option (List Json) → Option (List Json)
also_url none rest = rest
also_url (some (str s)) rest =
    if is_empty (trim s) then rest else (elim rest [ none ↦ none | some us ↦ some (str s ∷ us) ])
also_url (some j) rest = if truthy j then none else rest

-- The filter of `public_urls`; `none` stands for an error.
unfoldable pub valid_urls : List Json → Option (List Json)
unfolding trim
valid_urls [] = some []
valid_urls (null ∷ us) = none
valid_urls (u ∷ us) = also_url (member "app" u) (valid_urls us)

abbrev first_url : Option (List Json) → Option String
first_url (some (str s ∷ us)) = some s
first_url found = none

-- The first valid URL in an answer of the API.
unfoldable pub reported_url : Fetched → Option String
unfolding valid_urls
reported_url (fetched true status text (some body)) =
    if truthy? (member "error" body) then none else (elim (member "public_urls" body) [
      | some (arr us) ↦ first_url (valid_urls (list_of us))
      | _ ↦ none
    ])
reported_url r = none

module _ (T : Tools) where
  -- Whether the application answers that it is running.
  unfoldable pub is_running : Fetched → Bool
  unfolding includes
  is_running (fetched true status text (some body)) =
      truthy? (member "message" body)
      && includes "running" (T.lower (value_text T.codec (member "message" body)))
  is_running r = false

  abbrev pub is_good : Fetched → Bool
  is_good (fetched good status text body) = good
  is_good r = false

  abbrev pub when_true : Bool → Option (Unit {0})
  when_true true = some tt
  when_true false = none

  abbrev pub is_given : {A : Type 0} → Option A → Bool
  is_given none = false
  is_given (some a) = true

  -- waitForAppReady
  unfoldable pub wait_for_app_ready : (url : String) → (max_attempts delay : ℕ) → Flow Bool
  unfolding attempts is_running
  wait_for_app_ready url max_attempts delay = do
    ready ←
        attempts max_attempts delay
          (do answer ← send (fetch_url url); done (when_true (is_running answer)))
    done (is_given ready)

  -- waitForHealthy of routes/provision.ts
  unfoldable pub wait_for_healthy : (url : String) → (max_attempts delay : ℕ) → Flow Bool
  unfolding attempts
  wait_for_healthy url max_attempts delay = do
    healthy ←
        attempts max_attempts delay
          (do answer ← send (fetch_url url); done (when_true (is_good answer)))
    done (is_given healthy)

  -- getAppUrl
  unfoldable pub get_app_url :
      (api_key cvm_id : String) → (max_attempts delay : ℕ) → Flow (Option String)
  unfolding attempts reported_url
  get_app_url api_key cvm_id max_attempts delay =
      attempts max_attempts delay
        (do answer ← send (fetch_cvm api_key cvm_id); done (reported_url answer))

  abbrev dashboard : String → String
  dashboard id = "https://cloud.phala.com/dashboard/cvms/" <> id

  -- `j` is an object: a field of undefined and of null cannot be read.
  abbrev pub as_object : Json → Flow Json
  as_object null = raise type_error
  as_object j = done j

  -- `vm_uuid ?? String(id)`
  abbrev pub vm_id : Json → String
  vm_id result = elim (member "vm_uuid" result) [
    | none ↦ value_text T.codec (member "id" result)
    | some null ↦ value_text T.codec (member "id" result)
    | some j ↦ template_text T.codec j
  ]

  -- `v ?? ''`
  abbrev pub or_empty : Option Json → Json
  or_empty none = str ""
  or_empty (some null) = str ""
  or_empty (some j) = j

  abbrev pub encrypted_env : List (String × Json) → Option Json → Flow (Option String)
  encrypted_env [] key = done none
  encrypted_env envs none = done none
  encrypted_env envs (some key) =
      if truthy key
      then (do answer ← send (encrypt_env envs key); text ← received answer; done (some text))
      else done none

  -- Without a ready application: the reported endpoint, or none yet.
  abbrev pub reported_endpoint :
      (id app_id deterministic_url : String) → Option String → Flow Deployed
  reported_endpoint id app_id deterministic_url none = done (record {
    cvm_id = id;
    status = "deploying";
    dashboard_url = dashboard id;
    app_id = app_id;
    endpoint_url = none;
    deterministic_url = some deterministic_url;
  })
  reported_endpoint id app_id deterministic_url (some url) = done (record {
    cvm_id = id;
    status = "running";
    dashboard_url = dashboard id;
    app_id = app_id;
    endpoint_url = some url;
    deterministic_url = none;
  })

  -- What deployCvm returns, once it has looked for the application.
  unfoldable pub find_endpoint :
      (api_key id app_id deterministic_url : String) → (ready : Bool) → Flow Deployed
  unfolding get_app_url
  find_endpoint api_key id app_id deterministic_url true = done (record {
    cvm_id = id;
    status = "running";
    dashboard_url = dashboard id;
    app_id = app_id;
    endpoint_url = some deterministic_url;
    deterministic_url = some deterministic_url;
  })
  find_endpoint api_key id app_id deterministic_url false = do
    reported ← get_app_url api_key id 2 3000
    reported_endpoint id app_id deterministic_url (set_text reported)

  -- deployCvm
  unfoldable pub deploy_cvm :
      (api_key name compose : String) → List (String × Json) → (port : String) → Flow Deployed
  unfolding wait_for_app_ready find_endpoint
  deploy_cvm api_key name compose envs port = do
    answer ← send (provision_cvm api_key name compose envs)
    given ← received answer
    provision ← as_object given
    encrypted ← encrypted_env envs (member "app_env_encrypt_pubkey" provision)
    committed ← send (
        commit_cvm (or_empty (member "app_id" provision))
          (or_empty (member "compose_hash" provision)) encrypted
          (map (λ (e : String × Json). e.0) envs))
    created ← received committed
    result ← as_object created
    let app_id = template_text T.codec (or_empty (member "app_id" provision))
    let url = "https://" <> (app_id <> ("-" <> (port <> ".dstack-pha-prod5.phala.network")))
    ready ← wait_for_app_ready url 3 5000
    find_endpoint api_key (vm_id result) app_id url ready
