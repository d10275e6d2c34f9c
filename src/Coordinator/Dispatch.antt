-- ===== src/Coordinator/Dispatch.antt =====
-- triggerWorkers of coordinator-agent/src/monitor/memory-monitor.ts. The requests to the workers are
-- made one after the other, where the program makes them at once. The array that the program filters
-- in place is the list that is returned.
pub mod Kept
use Prim.Native.Char.{code}
use text.Mathlib.Text.{◌==◌ as text_eq}
use delibera_xyz.Prelude.{
  ℕ, ◌+◌, String, Bool, true, false, not, ◌&&◌, ◌||◌, Option, none, some, List, [], ◌∷◌, ◌++◌,
  filter, any, leb, ◌==◌, if◌then◌else◌,
}
use delibera_xyz.Prelude.Text.{◌<>◌, is_empty, has_prefix, text_given}
use delibera_xyz.Json.{Json, null, str, object, member, member?, template_text}
use delibera_xyz.Ensue.Keys.{worker_keys, config_task_definition}
use delibera_xyz.Host.{
  Env, Config, Worker, Reply, response, error, type_error, Prog, pure, throw, ◌>>=◌, ◌>>◌,
}
use delibera_xyz.Coordinator.Memory.{post, uuid, clock, update_memory}

-- A code point without its case, within ASCII.
abbrev lower : ℕ → ℕ
lower c = if leb b'A' c && leb c b'Z' then c + 32 else c

-- Whether a text begins with `p`, a text in lower case, whatever the case of its letters.
unfoldable pub has_prefix_any_case : String → String → Bool
has_prefix_any_case String.[] s = true
has_prefix_any_case (String.◌∷◌ c p) String.[] = false
has_prefix_any_case (String.◌∷◌ c p) (String.◌∷◌ d s) =
    (code c == lower (code d)) && has_prefix_any_case p s

unfoldable pub is_polling_worker : Worker → Bool
unfolding has_prefix_any_case
is_polling_worker w = not (
    has_prefix_any_case "http://" (text_given w.endpoint_url "")
    || has_prefix_any_case "https://" (text_given w.endpoint_url ""))

unfoldable pub is_ironclaw : Worker → Bool
unfolding has_prefix
is_ironclaw w = elim w.cvm_id [ none ↦ false | some id ↦ has_prefix "ironclaw-" id ]

abbrev pub contains : List String → String → Bool
contains dids did = any (λ d. text_eq d did) dids

-- The workers of the push kinds.
abbrev pub is_http_worker : Worker → Bool
is_http_worker w = not (is_ironclaw w) && not (is_polling_worker w)

abbrev pub is_webhook_worker : Worker → Bool
is_webhook_worker w = is_ironclaw w && not (is_polling_worker w)

-- `res.json()` resolves.
abbrev pub has_body : Reply → Bool
has_body (response good status (some body)) = true
has_body r = false

-- `res.ok`, and `res.json()` resolves to something that has properties.
abbrev pub is_accepted : Reply → Bool
is_accepted (response good status (some null)) = false
is_accepted (response good status (some body)) = good
is_accepted r = false

module _ (E : Env) where
  abbrev parse_or : String → Json → Json
  parse_or text d = elim (E.codec.parse text) [ none ↦ d | some j ↦ j ]

  unfoldable pub set_pending : List Worker → Prog (Unit {0})
  set_pending [] = pure tt
  set_pending (w ∷ ws) = do
    update_memory (worker_keys w.worker_did).status "pending"
    set_pending ws

  -- Sends each worker its request; the ids of the workers whose answer does not count, which are
  -- set idle.
  unfoldable pub send_all :
      (Worker → String) → String → String → (Reply → Bool) → List Worker → Prog (List String)
  send_all url signature body counts [] = pure []
  send_all url signature body counts (w ∷ ws) = do
    reply ← post E (url w) signature body
    if counts reply then send_all url signature body counts ws else (do
      update_memory (worker_keys w.worker_did).status "idle"
      lost ← send_all url signature body counts ws
      pure (w.worker_did ∷ lost))

  abbrev task_url : Worker → String
  task_url w = text_given w.endpoint_url "" <> "/api/task/execute"

  abbrev pub webhook_url : Worker → String
  webhook_url w = text_given w.endpoint_url "" <> "/webhook"

  -- The block under LOCAL_MODE.
  unfoldable pub trigger_http : Config → String → List Worker → Prog (List String)
  unfolding send_all
  trigger_http c task_config workers =
      if c.local_mode
      then send_all task_url ""
          (E.codec.stringify (
            object
              (("taskConfig", parse_or task_config (object (("type", str "random") ∷ []))) ∷ [])))
          has_body (filter is_http_worker workers)
      else pure []

  -- `v ?? d`, where finding `d` may be an effect.
  unfoldable pub or_else : Option Json → Prog Json → Prog Json
  or_else none d = d
  or_else (some null) d = d
  or_else (some j) d = pure j

  -- The request that every webhook worker is sent.
  abbrev webhook_body : Json → Json → Json → String
  webhook_body task_id proposal_id parsed = E.codec.stringify (
      object (
        ("user_id", str "coordinator")
        ∷ (
          "content",
          str (
              "deliberate task_id:"
              <> (template_text E.codec task_id
                  <> (" proposal_id:" <> template_text E.codec proposal_id))),
        )
        ∷ (
          "metadata",
          object (("taskId", task_id) ∷ ("proposalId", proposal_id) ∷ ("taskConfig", parsed) ∷ []),
        )
        ∷ []))

  abbrev pub signature : Config → String → String
  signature c body = "sha256=" <> E.hmac c.webhook_secret body

  abbrev is_null : Json → Bool
  is_null null = true
  is_null j = false

  -- The block for the IronClaw workers.
  unfoldable pub trigger_webhooks : Config → String → List Worker → Prog (List String)
  unfolding send_all or_else
  trigger_webhooks c task_config [] = pure []
  trigger_webhooks c task_config (w ∷ ws) =
      let parsed = parse_or task_config (object []) in
      if is_null parsed then throw type_error else (do
        task_id ← or_else (member "taskId" parsed) (do u ← uuid E; pure (str u))
        proposal_id ←
            or_else (member? "proposalId" (member "parameters" parsed))
              (do t ← clock E; pure (str (E.codec.decimal t)))
        let body = webhook_body task_id proposal_id parsed
        if is_empty c.webhook_secret
            then throw (error "IRONCLAW_WEBHOOK_SECRET is empty")
            else send_all webhook_url (signature c body) body is_accepted (w ∷ ws))

  -- The workers that were reached, or that read the task from the shared memory by themselves.
  unfoldable pub trigger_workers : Config → String → List Worker → Prog (List Worker)
  unfolding set_pending trigger_http trigger_webhooks
  trigger_workers c task_config workers = do
    update_memory config_task_definition task_config
    set_pending workers
    lost ← trigger_http c task_config workers
    lost' ← trigger_webhooks c task_config (filter is_webhook_worker workers)
    pure (filter (λ w. not (contains (lost ++ lost') w.worker_did)) workers)
