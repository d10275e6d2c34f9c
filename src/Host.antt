-- ===== src/Host.antt =====
-- What surrounds the coordinator: the shared memory, the clock, the network, the chain. Every answer
-- of the surroundings is a function of all that the program has done before, most recent first, so a
-- theorem over every `Env` covers every order in which other agents act between two of its steps.
-- A program is a function of the state of the process, which returns, throws, or runs out of the fuel
-- of one of its loops.
pub mod Answers
pub mod Observe
pub mod Ways
use delibera_xyz.Prelude.{ℕ, ◌+◌, ◌≤◌, String, Bool, Option, none, some, List, ◌∷◌}
use delibera_xyz.Json.{Json, Codec}

-- WorkerRecord of coordinator-agent/src/monitor/memory-monitor.ts. The registry may leave the last
-- two texts out.
pub record Worker : Type 0 where
  pub account_id : String
  pub worker_did : String
  pub endpoint_url : Option String
  pub cvm_id : Option String
  pub registered_at : ℕ
  pub is_active : Bool

-- WorkerSubmissionInput of shared/src/types.ts; the id is whatever the worker's JSON holds.
pub record Submission : Type 0 where
  pub worker_id : Json
  pub result_hash : String

-- The change calls on the coordinator contract, and those on the registry contract.
pub data Call : Type 0 where
  start_coordination : String → ℕ → ℕ → Call
  record_worker_submissions : ℕ → List Submission → Call
  coordinator_resume : ℕ → String → String → String → Call
  -- the worker's id, and its account if it is given
  register_worker : String → Option String → Call
  remove_worker : String → Call
  -- DID, endpoint, CVM id, and the least and the largest number of workers
  register_coordinator : String → String → String → ℕ → ℕ → Call
  -- DID, endpoint and CVM id
  register_in_registry : String → String → String → Call

-- `rejected` carries the error's message.
pub data CallReply : Type 0 where
  accepted : CallReply
  rejected : String → CallReply

-- The answer of `fetch`: it rejects, or there is a response whose body is JSON or not.
pub data Reply : Type 0 where
  unreachable : Reply
  response : (good : Bool) (status : ℕ) (body : Option Json) → Reply

-- What the process does that its surroundings can see, or whose answer depends on the moment.
pub data Event : Type 0 where
  read : String → Event
  read_multiple : List String → Event
  wrote : String → String → Event
  checked_clock : Event
  slept : ℕ → Event
  drew_uuid : Event
  listed_workers : Event
  fetched : String → Event
  -- the address, the X-Hub-Signature-256 header if there is one, and the body
  posted : String → String → String → Event
  viewed : String → Event
  called : Call → Event
  backed_up : String → Event
  deleted : String → Event
  -- a service outside, and what it is asked
  asked : String → String → Event

pub record Env : Type 0 where
  pub codec : Codec
  pub sha256 : String → String
  pub hmac : String → String → String
  pub iso : ℕ → String
  pub read : List Event → String → Option String
  pub read_multiple : List Event → List String → String → Option String
  pub now : List Event → ℕ
  pub uuid : List Event → String
  -- localViewRegistry('list_active_workers')
  pub registry : List Event → Option (List Worker)
  pub fetch : List Event → String → Reply
  pub post : List Event → String → String → String → Reply
  pub call : List Event → Call → CallReply
  -- localViewCall of get_current_proposal_id, of the state in get_proposal, of
  -- get_finalized_coordination and of the ids in get_pending_coordinations
  pub current_proposal_id : List Event → Option ℕ
  pub proposal_state : List Event → ℕ → Option String
  pub finalized : List Event → ℕ → Option String
  pub pending : List Event → Option (List ℕ)

-- The clock never runs back, and a timer of `ms` milliseconds fires no earlier than that.
pub record ClockRuns (E : Env) : Type 0 where
  pub forward : (e : Event) (h : List Event) → E.now h ≤ E.now (e ∷ h)
  pub timer : (ms : ℕ) (h : List Event) → E.now h + ms ≤ E.now (slept ms ∷ h)

-- The variables of the process environment that the coordinator reads, and whether the Storacha
-- vault is configured. The bounds are the numbers that parseInt gives.
pub record Config : Type 0 where
  pub local_mode : Bool
  pub workers : Option String
  pub min_workers : ℕ
  pub max_workers : ℕ
  pub webhook_secret : String
  pub vault_configured : Bool

-- Whether a worker was found valid, and when: an entry of validationCache in
-- coordinator-agent/src/routes/coordinate.ts.
pub record Check : Type 0 where
  pub valid : Bool
  pub checked_at : ℕ

-- The history of the process, the cache of its NameResolver, and its validationCache.
pub record Proc : Type 0 where
  pub history : List Event
  pub names : List (String × String)
  pub checks : List (String × Check)

pub data Problem : Type 0 where
  error : String → Problem
  type_error : Problem

pub data Outcome (A : Type 0) : Type 0 where
  ok : A → Outcome A
  threw : Problem → Outcome A
  out_of_fuel : Outcome A

abbrev pub Prog : Type 0 → Type 0
Prog A = Proc → Outcome A × Proc

unfoldable pub pure : {A : Type 0} → A → Prog A
pure a s = (ok a, s)

unfoldable pub throw : {A : Type 0} → Problem → Prog A
throw p s = (threw p, s)

unfoldable pub lift : {A : Type 0} → Outcome A → Prog A
lift o s = (o, s)

-- An effect: it is added to the history.
unfoldable pub emit : {A : Type 0} → Event → (List Event → A) → Prog A
emit e answer s = (ok (answer s.history), record s { history = e ∷ s.history })

abbrev pub continue_with : {A B : Type 0} → Outcome A × Proc → (A → Prog B) → Outcome B × Proc
continue_with (ok a, s) f = f a s
continue_with (threw p, s) f = (threw p, s)
continue_with (out_of_fuel, s) f = (out_of_fuel, s)

-- To open this opens the programs above too.
infixl 5 ◌>>=◌ ◌>>◌
unfoldable pub ◌>>=◌ : {A B : Type 0} → Prog A → (A → Prog B) → Prog B
unfolding pure throw lift emit
◌>>=◌ m f s = continue_with (m s) f

abbrev pub ◌>>◌ : {B : Type 0} → Prog (Unit {0}) → Prog B → Prog B
m >> k = m >>= λ _. k

abbrev pub caught : {A : Type 0} → Outcome A × Proc → Prog A → Outcome A × Proc
caught (ok a, s) handler = (ok a, s)
caught (threw p, s) handler = handler s
caught (out_of_fuel, s) handler = (out_of_fuel, s)

-- `try { m } catch { handler }`
unfoldable pub try_catch : {A : Type 0} → Prog A → Prog A → Prog A
unfolding ◌>>=◌
try_catch m handler s = caught (m s) handler

-- A branch on a value that may be null.
abbrev pub maybe : {A B : Type 0} → Option A → B → (A → B) → B
maybe none d f = d
maybe (some a) d f = f a
