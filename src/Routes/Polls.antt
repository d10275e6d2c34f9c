-- ===== src/Routes/Polls.antt =====
-- The routes for keyless polling workers in coordinator-agent/src/routes/coordinate.ts: GET poll/task and
-- POST poll/vote/:worker_did, whose parameter is decoded already. The argument `client` is the message of
-- the error with which getEnsueClient throws, as it does where no key is configured, and none where it
-- gives the client; its operations do not throw. The query of the registry answers null on its errors, so
-- that the catch clause around it never runs.
use text.Mathlib.Text.{◌==◌}
use delibera_xyz.Prelude.{String, Bool, ◌&&◌, Option, none, some, List, [], ◌∷◌, any, if◌then◌else◌}
use delibera_xyz.Prelude.Text.{◌<>◌, is_empty, has_prefix}
use delibera_xyz.Json.{Json, null, str, object, member}
use delibera_xyz.Ensue.Keys.{worker_keys, config_task_definition}
use delibera_xyz.Host.{Env, Worker, type_error, Prog, pure, throw, maybe, ◌>>=◌, ◌>>◌}
use delibera_xyz.Host.Answers.{Response, error_response, details_response}
use delibera_xyz.Coordinator.Memory.{read_memory, clock, list_active_workers, update_memory}
use delibera_xyz.Routes.Validation.{listed}

-- `body.option`, a text that is not empty.
unfoldable pub vote_option : Json → Option String
vote_option body = elim (member "option" body) [
  | some (str s) ↦ if is_empty s then none else some s
  | _ ↦ none
]

-- `body.rationale`, the empty text where there is none, and nothing where it is no text.
unfoldable pub vote_rationale : Json → Option String
vote_rationale body = elim (member "rationale" body) [
  | none ↦ some ""
  | some null ↦ some ""
  | some (str s) ↦ some s
  | some j ↦ none
]

abbrev pub vote_json : (option rationale timestamp : String) → Json
vote_json option rationale timestamp =
    object
      (("option", str option) ∷ ("rationale", str rationale) ∷ ("timestamp", str timestamp) ∷ [])

-- Whether the workers have an active one with this DID.
abbrev pub is_active_worker : String → List Worker → Bool
is_active_worker did ws = any (λ w. w.worker_did == did && w.is_active) ws

abbrev text_or_null : Option String → Json
text_or_null none = null
text_or_null (some s) = str s

module _ (E : Env) where
  unfoldable pub poll_task_route : (client : Option String) → Prog Response
  poll_task_route (some message) =
      pure (details_response 502 "Failed to read task_definition from Ensue" message)
  poll_task_route none = do
    task ← read_memory E config_task_definition
    now ← clock E
    pure (record {
      code = 200;
      body = object (("task", text_or_null task) ∷ ("timestamp", str (E.iso now)) ∷ []);
    })

  abbrev pub store_vote : (client : Option String) (did vote : String) → Prog Response
  store_vote (some message) did vote =
      pure (details_response 502 "Failed to write vote to Ensue" message)
  store_vote none did vote = do
    update_memory (worker_keys did).result vote
    later ← clock E
    pure (record {
      code = 200;
      body = object (
          ("status", str "ok")
          ∷ ("worker_did", str did)
          ∷ ("key", str (worker_keys did).result)
          ∷ ("timestamp", str (E.iso later))
          ∷ []);
    })

  unfoldable pub write_vote :
      (client : Option String) (did option rationale : String) → Prog Response
  write_vote client did option rationale = do
    now ← clock E
    store_vote client did (E.codec.stringify (vote_json option rationale (E.iso now)))

  unfoldable pub accept_vote :
      (client : Option String) (did option rationale : String) → Prog Response
  unfolding write_vote
  accept_vote client did option rationale = do
    found ← list_active_workers E
    if is_active_worker did (listed E found)
        then write_vote client did option rationale
        else pure
            (error_response 403 ("worker_did not registered or not active in registry: " <> did))

  unfoldable pub check_vote_body : (client : Option String) → String → Json → Prog Response
  unfolding vote_option vote_rationale accept_vote
  check_vote_body client did body =
      maybe (vote_option body) (pure (error_response 400 "\"option\" is required (string)"))
        (λ option.
          maybe (vote_rationale body)
            (pure (error_response 400 "\"rationale\" must be a string if present"))
            (λ rationale. accept_vote client did option rationale))

  abbrev pub read_vote_body : (client : Option String) → String → Option Json → Prog Response
  read_vote_body client did none = pure (error_response 400 "request body must be JSON")
  read_vote_body client did (some null) = throw type_error
  read_vote_body client did (some body) = check_vote_body client did body

  unfoldable pub poll_vote_route :
      (client : Option String) (worker_did : String) → (body : Option Json) → Prog Response
  unfolding has_prefix check_vote_body
  poll_vote_route client worker_did body =
      if has_prefix "did:" worker_did
      then read_vote_body client worker_did body
      else pure (error_response 400 "worker_did must start with \"did:\"")
