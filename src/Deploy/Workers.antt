-- ===== src/Deploy/Workers.antt =====
-- The handlers of protocol-api/src/routes/workers.ts.
use delibera_xyz.Prelude.{String, Bool, true, false, Option, none, some, [], ◌∷◌, if◌then◌else◌}
use delibera_xyz.Prelude.Text.{◌<>◌}
use delibera_xyz.Json.{Json, null, str, object, member, truthy?}
use delibera_xyz.Host.{error, type_error}
use delibera_xyz.Host.Answers.{Response, error_response, details_response}
use delibera_xyz.Provision.Flow.{Flow, done, raise, ◌>>=◌, rescue}
use delibera_xyz.Provision.Services.{Tools, value_text}
use delibera_xyz.Deploy.Registry.{DeployEnv, true_or}
use delibera_xyz.Deploy.Contract.{
  register_worker_call, remove_worker_call, get_registered_workers, get_worker_count,
}

module _ (T : Tools) (decode : Json → String) (E : DeployEnv) where
  abbrev failing : (message : String) → Flow Response → Flow Response
  failing message m = rescue m (λ p. done (details_response 500 message (T.describe p)))

  -- GET registered
  unfoldable pub registered_workers_route : Flow Response
  unfolding get_registered_workers get_worker_count rescue
  registered_workers_route = failing "Failed to get registered workers" (do
    workers ← get_registered_workers T decode E
    count ← get_worker_count T decode E
    done
        (record { code = 200; body = object (("workers", workers) ∷ ("activeCount", count) ∷ []) }))

  abbrev worker_registered : (worker_id account_id : Option Json) → Bool → Response
  worker_registered worker_id account_id true = record {
    code = 200;
    body = object (
        ("message", str ("Worker " <> (value_text T.codec worker_id <> " registered")))
        ∷ ("workerId", true_or worker_id null)
        ∷ ("accountId", true_or account_id null)
        ∷ []);
  }
  worker_registered worker_id account_id false =
      error_response 500 ("Failed to register worker " <> value_text T.codec worker_id)

  abbrev register_worker_body : Option Json → Flow Response
  register_worker_body none = raise (error T.syntax_error)
  register_worker_body (some null) = raise type_error
  register_worker_body (some body) =
      if truthy? (member "workerId" body)
      then (do
        success ←
            register_worker_call T decode E (true_or (member "workerId" body) null)
              (member "accountId" body)
        done (worker_registered (member "workerId" body) (member "accountId" body) success))
      else done (error_response 400 "workerId is required")

  -- POST register
  unfoldable pub register_worker_route : (body : Option Json) → Flow Response
  unfolding register_worker_call rescue
  register_worker_route body = failing "Failed to register worker" (register_worker_body body)

  abbrev worker_removed : String → Bool → Response
  worker_removed worker_id true = record {
    code = 200;
    body = object (("message", str ("Worker " <> (worker_id <> " removed"))) ∷ []);
  }
  worker_removed worker_id false = error_response 500 ("Failed to remove worker " <> worker_id)

  -- DELETE :workerId
  unfoldable pub remove_worker_route : (worker_id : String) → Flow Response
  unfolding remove_worker_call rescue
  remove_worker_route worker_id = failing "Failed to remove worker" (do
    success ← remove_worker_call T decode E worker_id
    done (worker_removed worker_id success))
