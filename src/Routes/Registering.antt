-- ===== src/Routes/Registering.antt =====
-- POST workers/register, DELETE workers/:did and PATCH workers/:did/name of
-- coordinator-agent/src/routes/coordinate.ts. The DID in the path is decoded already.
use Prim.Native.Char.{code}
use delibera_xyz.Prelude.{
  String, Bool, true, false, not, ◌&&◌, Option, none, some, List, [], ◌∷◌, if◌then◌else◌,
}
use delibera_xyz.Prelude.Tests
use delibera_xyz.Prelude.Text.{◌<>◌, is_empty, has_prefix, trim, text_given}
use delibera_xyz.Prelude.Maps.{discard}
use delibera_xyz.Json.{Json, null, str, object, member, truthy, truthy?, is_text, template_text}
use delibera_xyz.Host.{
  Env, Reply, unreachable, response, Problem, error, type_error, Outcome, ok, threw, Prog, pure,
  throw, lift, ◌>>=◌, ◌>>◌,
}
use delibera_xyz.Host.Answers.{Response, Engine, error_response, details_response, answering}
use delibera_xyz.Coordinator.Memory.{fetch}
use delibera_xyz.Coordinator.Names.{set_name}
use delibera_xyz.Coordinator.Registration.{
  Registered, local_remove_worker, local_register_worker_in_registry,
}

-- `body.k?.trim() || ''`
unfoldable pub trimmed : Option Json → Outcome String
unfolding trim
trimmed none = ok ""
trimmed (some null) = ok ""
trimmed (some (str s)) = ok (trim s)
trimmed (some j) = threw type_error

-- `s.replace(/\/+$/, '')`
unfoldable pub strip_slashes : String → String
strip_slashes String.[] = String.[]
strip_slashes (String.◌∷◌ c s) =
    let rest = strip_slashes s in
    if is_empty rest && delibera_xyz.Prelude.Tests.◌==◌ (code c) b'/'
    then String.[]
    else String.◌∷◌ c rest

-- What a probe of the endpoint tells: a value for the DID, or the answer to give.
pub data Discovery : Type 0 where
  reported : Json → Discovery
  unusable : Response → Discovery

-- validationCache.delete(did)
unfoldable pub forget_check : String → Prog (Unit {0})
unfolding discard
forget_check did s = (ok tt, record s { checks = discard did s.checks })

module _ (E : Env) (J : Engine) where
  abbrev pub unreached : String → Problem → Discovery
  unreached endpoint p =
      unusable
        (error_response 400 ("Cannot reach worker at " <> (endpoint <> (": " <> J.describe p))))

  -- The DID in the body of the endpoint's response, next to the one that was given.
  unfoldable pub compare_did : String → Option Json → Discovery
  compare_did did none =
      unusable (error_response 400 "Worker endpoint did not return a workerDid field")
  compare_did did (some found) =
      if truthy found
      then (if not (is_empty did) && not (is_text found did)
          then unusable (
              error_response 400 (
                "DID mismatch: provided "
                <> (did <> (" but worker reports " <> template_text E.codec found))))
          else reported found)
      else unusable (error_response 400 "Worker endpoint did not return a workerDid field")

  unfoldable pub discovered : (did endpoint : String) → Reply → Discovery
  unfolding compare_did
  discovered did endpoint unreachable = unreached endpoint type_error
  discovered did endpoint (response true status none) = unreached endpoint (error J.syntax_error)
  discovered did endpoint (response true status (some null)) = unreached endpoint type_error
  discovered did endpoint (response true status (some info)) =
      compare_did did (member "workerDid" info)
  discovered did endpoint (response false status body) =
      unusable (error_response 400 ("Worker endpoint returned HTTP " <> E.codec.decimal status))

  abbrev pub registration_answer : (did endpoint : String) → Registered → Prog Response
  registration_answer did endpoint result =
      if result.success
      then (do
        forget_check did
        pure (record {
          code = 200;
          body = object (
              ("message", str ("Worker " <> (did <> " registered on-chain")))
              ∷ ("workerDid", str did)
              ∷ ("endpointUrl", str endpoint)
              ∷ []);
        }))
      else pure (
          details_response 500 "Registration failed on-chain."
            (text_given result.error "Unknown error"))

  unfoldable pub register_known : (did endpoint : String) → Prog Response
  unfolding forget_check has_prefix
  register_known did endpoint =
      if is_empty did
      then pure (error_response 400 "Provide a worker endpoint URL or a DID (did:key:z6Mk...)")
      else (if has_prefix "did:" did
          then (if is_empty endpoint
              then pure
                  (error_response 400 "Worker endpoint URL is required for registry registration")
              else (do
                result ← local_register_worker_in_registry E did endpoint "manual"
                registration_answer did endpoint result))
          else pure (
              error_response 400
                ("Invalid worker DID \"" <> (did <> "\" — must start with \"did:\""))))

  -- A DID that is no text has no `startsWith`.
  abbrev pub register_discovered : String → Discovery → Prog Response
  register_discovered endpoint (unusable r) = pure r
  register_discovered endpoint (reported (str did)) = register_known did endpoint
  register_discovered endpoint (reported j) = throw type_error

  unfoldable pub register_with : (did endpoint : String) → Prog Response
  unfolding strip_slashes discovered register_known
  register_with did endpoint = if is_empty endpoint then register_known did endpoint else (do
    reply ← fetch E (strip_slashes endpoint <> "/")
    register_discovered endpoint (discovered did endpoint reply))

  -- A URL that was passed as the worker's id is the endpoint.
  unfoldable pub register_fields : (did endpoint : String) → Prog Response
  unfolding register_with has_prefix
  register_fields did endpoint =
      if has_prefix "http" did && is_empty endpoint
      then register_with "" did
      else register_with did endpoint

  unfoldable pub register_body : Option Json → Prog Response
  unfolding trimmed register_fields
  register_body none = throw (error J.syntax_error)
  register_body (some null) = throw type_error
  register_body (some body) = do
    did ← lift (trimmed (member "workerId" body))
    endpoint ← lift (trimmed (member "endpointUrl" body))
    register_fields did endpoint

  unfoldable pub register_route : Option Json → Prog Response
  unfolding answering register_body
  register_route body =
      answering (λ p. error_response 500 ("Failed to register worker: " <> J.describe p))
        (register_body body)

  unfoldable pub remove_route : (did : String) → Prog Response
  unfolding local_remove_worker
  remove_route did = do
    success ← local_remove_worker E did
    pure (
        if success
        then record {
          code = 200;
          body = object (("message", str ("Worker " <> (did <> " removed"))) ∷ []);
        }
        else error_response 500 "Removal failed on-chain")

  -- The name is a text that is not blank.
  abbrev pub name_field : String → Option Json → Prog Response
  name_field did (some (str s)) =
      if is_empty (trim s) then pure (error_response 400 "name is required") else (do
        set_name E did (trim s)
        pure (record {
          code = 200;
          body =
              object (("did", str did) ∷ ("name", str (trim s)) ∷ ("status", str "updated") ∷ []);
        }))
  name_field did j =
      if truthy? j then throw type_error else pure (error_response 400 "name is required")

  abbrev pub name_body : String → Option Json → Prog Response
  name_body did none = throw (error J.syntax_error)
  name_body did (some null) = throw type_error
  name_body did (some body) = name_field did (member "name" body)

  unfoldable pub name_route : (did : String) → Option Json → Prog Response
  unfolding answering trim set_name
  name_route did body =
      answering (λ p. error_response 500 "Failed to set name") (name_body did body)
