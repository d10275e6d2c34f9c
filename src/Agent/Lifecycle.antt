-- ===== src/Agent/Lifecycle.antt =====
-- The life of a worker in worker-agent/src/workers/task-handler.ts: its registration, its start, the
-- answer about its status and one tick of its polling loop; and the routes of
-- worker-agent/src/routes/task.ts. What runs without being awaited runs to its end here.
use text.Mathlib.Text.{◌==◌}
use delibera_xyz.Prelude.{String, Bool, false, Option, none, some, ◌∷◌, ◌++◌, if◌then◌else◌}
use delibera_xyz.Prelude.Text.{◌<>◌, is_empty, set_text, text_given}
use delibera_xyz.Json.{Json, null, num, str, object, member, given, truthy, is_text}
use delibera_xyz.Ensue.Keys.{worker_keys, display_name_key, config_task_definition}
use delibera_xyz.Host.{Event, error, Prog, pure, throw, emit, try_catch, maybe, ◌>>=◌, ◌>>◌}
use delibera_xyz.Coordinator.Memory.{read_memory, update_memory}
use delibera_xyz.Agent.Services.{Services, AgentConfig, ask}
use delibera_xyz.Agent.Work.{execute_task}

abbrev pub delete_memory : String → Prog (Unit {0})
delete_memory key = emit (Event.deleted key) (λ h. tt)

abbrev pub endpoint_of : AgentConfig → String
endpoint_of c = text_given c.worker_endpoint_url ("http://localhost:" <> text_given c.port "3001")

abbrev pub is_pending : Option String → Bool
is_pending none = false
is_pending (some status) = status == "pending"

module _ (V : Services) (c : AgentConfig) where
  -- A change call on the registry, which needs the NEAR account. Its errors are only logged.
  abbrev pub change_registry : String → String → Prog (Unit {0})
  change_registry method argument =
      if c.has_account then ask V method argument (λ h. tt) else pure tt

  -- A field of a value that is not null.
  unfoldable pub update_endpoint : Json → Prog (Unit {0})
  update_endpoint existing = elim (member "endpoint_url" existing) [
    | none ↦ change_registry "update_worker_endpoint" (endpoint_of c)
    | some url ↦
        if is_text url (endpoint_of c)
        then pure tt
        else change_registry "update_worker_endpoint" (endpoint_of c)
  ]

  unfoldable pub register_unless : String → Option Json → Prog (Unit {0})
  unfolding update_endpoint
  register_unless did none = change_registry "register_worker" did
  register_unless did (some existing) =
      if truthy existing then update_endpoint existing else change_registry "register_worker" did

  unfoldable pub ensure_registered : String → Prog (Unit {0})
  unfolding register_unless
  ensure_registered did = maybe (set_text c.registry_contract_id) (pure tt) (λ registry.
      maybe (set_text c.coordinator_did) (pure tt) (λ coordinator. do
        existing ← ask V "get_worker_by_did" did (λ h. V.registered_worker h did)
        register_unless did existing))

  -- The worker's DID.
  unfoldable pub derive_did : Prog String
  derive_did =
      if c.has_storacha_key
      then (do
        found ← ask V "agent_did" "" (λ h. V.agent_did h)
        maybe found (throw (error "agent DID")) (λ did. pure did))
      else pure ("did:local:" <> text_given c.port "3001")

  -- The answer is the DID that the process keeps.
  unfoldable pub initialize_worker : Prog String
  unfolding derive_did ensure_registered
  initialize_worker = do
    did ← derive_did
    update_memory (worker_keys did).status "idle"
    delete_memory (worker_keys did).error
    maybe (set_text c.display_name) (pure tt) (λ name. update_memory (display_name_key did) name)
    ensure_registered did
    ask V "initialize_identity" "" (λ h. tt)
    pure did

  -- The answer of getTaskStatus: a number that parseInt does not find is null in JSON.
  unfoldable pub task_status : String → (status timestamp failure : Option String) → Json
  task_status did status timestamp failure = object (
      ("workerId", str did)
      ∷ ("status", str (text_given (set_text status) "idle"))
      ∷ (given "timestamp" (elim (set_text timestamp) [
        | none ↦ none
        | some t ↦ some (elim (V.parse_int t) [ none ↦ null | some n ↦ num n ])
      ])
          ++ given "error" (elim (set_text failure) [ none ↦ none | some e ↦ some (str e) ])))

  unfoldable pub get_task_status : Option String → Prog Json
  unfolding task_status
  get_task_status known = do
    status ← read_memory V.env (worker_keys (text_given known "not-initialized")).status
    timestamp ← read_memory V.env (worker_keys (text_given known "not-initialized")).timestamp
    failure ← read_memory V.env (worker_keys (text_given known "not-initialized")).error
    pure (task_status (text_given known "not-initialized") status timestamp failure)

  -- The task in the text of the memory, which may be the JSON of a text that is JSON again.
  unfoldable pub read_task : String → Option Json
  read_task text = elim (V.env.codec.parse text) [
    | none ↦ none
    | some (str inner) ↦ V.env.codec.parse inner
    | some config ↦ some config
  ]

  unfoldable pub run_pending : String → Option String → Prog (Unit {0})
  unfolding execute_task read_task
  run_pending did none = pure tt
  run_pending did (some text) =
      if is_empty text
      then pure tt
      else maybe (read_task text) (throw (error (V.syntax_error_message text)))
          (λ config. execute_task V c (some did) config)

  -- What a tick does for a worker that is initialized.
  unfoldable pub poll_worker : String → Prog (Unit {0})
  unfolding run_pending
  poll_worker did = do
    status ← read_memory V.env (worker_keys did).status
    if is_pending status
        then (do text ← read_memory V.env config_task_definition; run_pending did text)
        else pure tt

  -- One tick, which no other tick of the loop overlaps: what is executing is an argument.
  unfoldable pub poll_tick : (is_executing : Bool) → (worker_did : Option String) → Prog (Unit {0})
  unfolding poll_worker
  poll_tick is_executing worker_did =
      if is_executing then pure tt else try_catch (maybe worker_did (pure tt) poll_worker) (pure tt)
