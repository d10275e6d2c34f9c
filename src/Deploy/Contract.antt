-- ===== src/Deploy/Contract.antt =====
-- The contract calls of protocol-api/src/contract/local-contract.ts, and registryViewCall of routes/agents.ts.
use delibera_xyz.Prelude.{String, Bool, true, false, Option, none, some, [], ◌∷◌, if◌then◌else◌}
use delibera_xyz.Json.{Json, null, num, str, arr, nil, object, member, member?, truthy, truthy?}
use delibera_xyz.Provision.Flow.{
  Ran, ran, not_ran, Fetched, fetched, view_contract, run_near, Flow, done, ◌>>=◌, send,
}
use delibera_xyz.Provision.Services.{Tools}
use delibera_xyz.Deploy.Registry.{DeployEnv, coordinator_contract_id, true_or}

abbrev pub is_ran : Ran → Bool
is_ran (ran output) = true
is_ran (not_ran message) = false

abbrev pub or_if_null : Json → Json → Json
or_if_null null d = d
or_if_null j d = j

-- `decode` is the text whose bytes a value holds.
module _ (T : Tools) (decode : Json → String) where
  abbrev parsed_or_null_value : Option Json → Json
  parsed_or_null_value none = null
  parsed_or_null_value (some j) = j

  abbrev decoded : Option Json → Json
  decoded none = null
  decoded (some r) = if truthy r then parsed_or_null_value (T.codec.parse (decode r)) else null

  -- What a view call returns: null where it fails.
  unfoldable pub viewed : Fetched → Json
  viewed (fetched good status text (some body)) =
      if truthy? (member "error" body)
      then null
      else decoded (member? "result" (member "result" body))
  viewed r = null

  -- localViewCall, registryViewCall
  unfoldable pub view_call : (contract method : String) → (args : Json) → Flow Json
  unfolding viewed
  view_call contract method args = do
    answer ← send (view_contract contract method args)
    done (viewed answer)

  module _ (E : DeployEnv) where
    -- localRegisterWorker
    unfoldable pub register_worker_call :
        (worker_id : Json) → (account_id : Option Json) → Flow Bool
    register_worker_call worker_id account_id = do
      result ← send (
          run_near (coordinator_contract_id E) "register_worker"
            (object (("worker_id", worker_id) ∷ ("account_id", true_or account_id null) ∷ []))
            "0 NEAR")
      done (is_ran result)

    -- localRemoveWorker
    unfoldable pub remove_worker_call : (worker_id : String) → Flow Bool
    remove_worker_call worker_id = do
      result ← send (
          run_near (coordinator_contract_id E) "remove_worker"
            (object (("worker_id", str worker_id) ∷ [])) "0 NEAR")
      done (is_ran result)

    -- localGetRegisteredWorkers
    unfoldable pub get_registered_workers : Flow Json
    unfolding view_call
    get_registered_workers = do
      workers ← view_call (coordinator_contract_id E) "get_registered_workers" (object [])
      done (or_if_null workers (arr nil))

    -- localGetWorkerCount
    unfoldable pub get_worker_count : Flow Json
    unfolding view_call
    get_worker_count = do
      count ← view_call (coordinator_contract_id E) "get_worker_count" (object [])
      done (or_if_null count (num 0))
