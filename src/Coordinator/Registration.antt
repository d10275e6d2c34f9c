-- ===== src/Coordinator/Registration.antt =====
-- The registration calls of coordinator-agent/src/contract/local-contract.ts: localRegisterWorker,
-- localRemoveWorker, localRegisterCoordinator and localRegisterWorkerInRegistry. The answer of the
-- query for a coordinator is an argument.
use delibera_xyz.Prelude.{ℕ, String, Bool, true, false, Option, none, some, if◌then◌else◌}
use delibera_xyz.Prelude.Text.{is_empty}
use delibera_xyz.Json.{Json, truthy?}
use delibera_xyz.Host.{Env, Event, Call, CallReply, accepted, rejected, Prog, pure, emit, ◌>>=◌}
use delibera_xyz.Coordinator.Memory.{call}
use delibera_xyz.Coordinator.Names.{take_text}

abbrev is_accepted : CallReply → Bool
is_accepted accepted = true
is_accepted (rejected message) = false

-- `accountId || null`
abbrev given_account : Option String → Option String
given_account none = none
given_account (some s) = if is_empty s then none else some s

-- The result of localRegisterWorkerInRegistry.
pub record Registered : Type 0 where
  pub success : Bool
  pub error : Option String

abbrev registered : CallReply → Registered
registered accepted = record { success = true; error = none }
registered (rejected message) = record { success = false; error = some (take_text 500 message) }

module _ (E : Env) where
  -- A change call whose error is only logged.
  abbrev succeeds : Call → Prog Bool
  succeeds c = do reply ← call E c; pure (is_accepted reply)

  unfoldable pub local_register_worker : String → Option String → Prog Bool
  local_register_worker id account = succeeds (Call.register_worker id (given_account account))

  unfoldable pub local_remove_worker : String → Prog Bool
  local_remove_worker id = succeeds (Call.remove_worker id)

  -- A coordinator that the registry knows is not registered again.
  unfoldable pub local_register_coordinator :
      (existing : Option Json) (did url : String) (least most : ℕ) (cvm_id : String) → Prog Bool
  local_register_coordinator existing did url least most cvm_id = do
    found ← emit (Event.viewed "get_coordinator_by_did") (λ h. truthy? existing)
    if found then pure true else succeeds (Call.register_coordinator did url cvm_id least most)

  unfoldable pub local_register_worker_in_registry : (did url cvm_id : String) → Prog Registered
  local_register_worker_in_registry did url cvm_id = do
    reply ← call E (Call.register_in_registry did url cvm_id)
    pure (registered reply)
