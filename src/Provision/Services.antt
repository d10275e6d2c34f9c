-- ===== src/Provision/Services.antt =====
-- What the provisioning of protocol-api/src/routes/provision.ts takes from its surroundings, and the services it
-- asks first: the identity, the delegation, and the organisation of lib/ensue.ts.
use delibera_xyz.Prelude.{
  ℕ, String, Bool, true, false, ◌||◌, ◌==◌, Option, none, some, if◌then◌else◌,
}
use delibera_xyz.Prelude.Text.{
  ◌<>◌, set_text, text_given, last_chars, keep_chars, replace_chars, is_alphanumeric,
}
use delibera_xyz.Json.{Json, null, str, Codec, member, member?, truthy?, template_text}
use delibera_xyz.Host.{Problem, error, type_error, Outcome, ok, threw}
use delibera_xyz.Provision.Jobs.{Number}
use delibera_xyz.Provision.Flow.{
  Got, got, lost, Fetched, unfetched, fetched, Identity, Archive, archived, not_archived,
  generate_identity, create_delegation, register_org, Flow, done, raise, ◌>>=◌, send, received,
  when_given,
}

-- The variables of the environment of the server.
pub record ServerEnv : Type 0 where
  pub storacha_agent_private_key : Option String
  pub storacha_delegation_proof : Option String
  pub phala_api_key : Option String
  pub near_network : Option String
  pub near_rpc_url : Option String
  pub ensue_api_key : Option String
  pub ensue_token : Option String
  pub ensue_org_name : Option String
  pub near_api_key : Option String
  pub registry_contract_id : Option String
  pub lit_network : Option String

-- The JavaScript engine, and the environment.
pub record Tools : Type 0 where
  pub codec : Codec
  pub describe : Problem → String
  pub syntax_error : String
  pub lower : String → String
  pub base36 : ℕ → String
  pub to_number : Json → Number
  pub env : ServerEnv

-- `[a-zA-Z0-9-]`
abbrev is_name_char : ℕ → Bool
is_name_char c = is_alphanumeric c || c == b'-'

-- `s || d`
abbrev pub set_or_text : Option String → String → String
set_or_text s d = text_given (set_text s) d

-- `String(v)`
abbrev pub value_text : Codec → Option Json → String
value_text c none = "undefined"
value_text c (some j) = template_text c j

pub record Delegation : Type 0 where
  pub space_did : String
  pub proof : String

-- EnsueOrgResult
pub record EnsueOrg : Type 0 where
  pub api_key : String
  pub claim_url : Option Json
  pub verification_code : Option Json
  pub org_name : String

module _ (T : Tools) where
  -- `error?.message || 'Unknown error'`
  abbrev pub message_of : Problem → String
  message_of p = set_or_text (some (T.describe p)) "Unknown error"

  -- generateWorkerIdentity
  unfoldable pub generate_worker_identity : Flow Identity
  generate_worker_identity = do answer ← send generate_identity; received answer

  abbrev pub delegation_of : Archive → Flow Delegation
  delegation_of (archived space_did proof) = done (record { space_did = space_did; proof = proof })
  delegation_of (not_archived reason) = raise (error ("Failed to archive delegation: " <> reason))

  -- createWorkerDelegation
  unfoldable pub create_worker_delegation : (worker_did : String) → Flow Delegation
  create_worker_delegation worker_did =
      when_given (set_text T.env.storacha_agent_private_key) (raise unset) (λ key.
        when_given (set_text T.env.storacha_delegation_proof) (raise unset) (λ proof. do
          answer ← send (create_delegation key proof worker_did)
          archive ← received answer
          delegation_of archive))
    where
      unset : Problem
      unset =
          error
            "STORACHA_AGENT_PRIVATE_KEY and STORACHA_DELEGATION_PROOF must be set for provisioning"

  -- The name of the organisation in provisionCoordinatorEnsueOrg.
  unfoldable pub org_name : (coordinator_did : String) → String
  unfolding keep_chars
  org_name coordinator_did =
      "delibera-coord-" <> T.lower (keep_chars is_alphanumeric (last_chars 12 coordinator_did))

  abbrev pub org_of : (name : String) → Option Json → Flow EnsueOrg
  org_of name agent =
      if truthy? (member? "api_key" agent)
      then done (record {
        api_key = value_text T.codec (member? "api_key" agent);
        claim_url = member? "claim_url" agent;
        verification_code = member? "verification_code" agent;
        org_name = name;
      })
      else raise (error "Ensue agent-register returned no api_key")

  -- `await res.text().catch(() => '')`
  abbrev pub text_or_empty : Got String → String
  text_or_empty (got text) = text
  text_or_empty (lost p) = ""

  abbrev pub org_answer : (name : String) → Fetched → Flow EnsueOrg
  org_answer name (unfetched p) = raise p
  org_answer name (fetched false status text body) = raise (
      error (
        "Ensue agent-register failed ("
        <> (T.codec.decimal status <> ("): " <> text_or_empty text))))
  org_answer name (fetched true status text none) = raise (error T.syntax_error)
  org_answer name (fetched true status text (some null)) = raise type_error
  org_answer name (fetched true status text (some body)) = org_of name (member "agent" body)

  -- provisionCoordinatorEnsueOrg
  unfoldable pub provision_coordinator_ensue_org : (coordinator_did : String) → Flow EnsueOrg
  unfolding org_name
  provision_coordinator_ensue_org coordinator_did = do
    answer ← send (register_org (org_name coordinator_did))
    org_answer (org_name coordinator_did) answer

  -- The name of a CVM: `displayName.replace(/[^a-zA-Z0-9-]/g, '-')` exists on texts only.
  unfoldable pub cvm_name : (prefix : String) → (display_name : Json) → (now : ℕ) → Outcome String
  unfolding replace_chars
  cvm_name prefix (str s) now = ok (
      prefix
      <> (T.lower (replace_chars is_name_char "-" s) <> ("-" <> last_chars 4 (T.base36 now))))
  cvm_name prefix j now = threw type_error
