-- ===== src/Agent/Services.antt =====
-- What surrounds the worker agent, besides the memory, the clock and the network: the contract with the
-- manifesto and the registry, the agent's identity, the model, chance, and the process environment.
use delibera_xyz.Prelude.{ℕ, String, Bool, Option, none, some, List, if◌then◌else◌}
use delibera_xyz.Prelude.Text.{is_empty}
use delibera_xyz.Json.{Json}
use delibera_xyz.Host.{Env, Event, Problem, Prog, emit}

pub record Manifesto : Type 0 where
  pub text : String
  pub hash : String

pub record ToolCall : Type 0 where
  pub type : String
  pub arguments : String

-- The answer of the model: an exception, or the id of the completion with its first tool call.
pub data Completion : Type 0 where
  no_completion : Problem → Completion
  completion : (id : String) (tool_call : Option ToolCall) → Completion

pub record Services : Type 0 where
  pub env : Env
  -- nearViewCall of get_manifesto and of get_worker_by_did; `none` is null
  pub manifesto : List Event → Option Manifesto
  pub registered_worker : List Event → String → Option Json
  -- the formatted identity, unless loading it fails or takes more than 15 s
  pub identity : List Event → Option String
  pub complete : List Event → String → Completion
  -- getAgentDid(), unless it throws
  pub agent_did : List Event → Option String
  -- `Math.floor(Math.random() * n)`, and 32 random bytes in hexadecimal
  pub random : List Event → ℕ → ℕ
  pub nonce : List Event → String
  -- encodeURIComponent, parseInt, and the messages of a TypeError and of the SyntaxError for a text
  pub encode : String → String
  pub parse_int : String → Option ℕ
  pub type_error_message : String
  pub syntax_error_message : String → String

-- The variables of the process environment that the worker reads, and whether it can sign for its
-- NEAR account.
pub record AgentConfig : Type 0 where
  pub near_ai_api_key : Option String
  pub near_api_key : Option String
  pub registry_contract_id : Option String
  pub coordinator_did : Option String
  pub worker_endpoint_url : Option String
  pub port : Option String
  pub has_storacha_key : Bool
  pub display_name : Option String
  pub has_account : Bool

-- `a || b`
abbrev pub first_set : Option String → Option String → Option String
first_set none b = b
first_set (some s) b = if is_empty s then b else some s

module _ (V : Services) where
  abbrev pub ask : {A : Type 0} → String → String → (List Event → A) → Prog A
  ask service request answer = emit (Event.asked service request) answer

  abbrev pub fetch_manifesto : Prog (Option Manifesto)
  fetch_manifesto = ask "get_manifesto" "" (λ h. V.manifesto h)

  abbrev pub load_identity : Prog (Option String)
  load_identity = ask "identity" "" (λ h. V.identity h)

  abbrev pub create_completion : String → Prog Completion
  create_completion message = ask "completion" message (λ h. V.complete h message)

  abbrev pub record_decision : String → Prog (Unit {0})
  record_decision proposal_id = ask "decision" proposal_id (λ h. tt)

  abbrev pub draw : ℕ → Prog ℕ
  draw n = ask "random" "" (λ h. V.random h n)

  abbrev pub draw_nonce : Prog String
  draw_nonce = ask "nonce" "" (λ h. V.nonce h)
