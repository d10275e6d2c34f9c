-- ===== src/Coordinator/Dispatch/Kept.antt =====
-- Which workers triggerWorkers keeps.
use delibera_xyz.Prelude.{
  ◌≡◌, ℕ, ◌⊎◌, String, Bool, true, false, not, some, List, [], ◌∷◌, ◌++◌, filter,
}
use delibera_xyz.Prelude.Text.{◌<>◌, is_empty, text_given}
use delibera_xyz.Json.{Json, null}
use delibera_xyz.Host.{Env, Config, Event, Worker, Reply, response}
use delibera_xyz.Coordinator.Rounds.Ways.{Ways}
use delibera_xyz.Coordinator.Dispatch.{contains, signature, is_http_worker, is_webhook_worker}

-- The response has a body that is JSON.
abbrev pub Answered : Reply → Type 0
Answered reply =
    (good : Bool) × ((status : ℕ) × ((j : Json) × (reply ≡ response good status (some j))))

-- The response is ok, and its body is JSON, and not null.
abbrev pub Accepted : Reply → Type 0
Accepted reply =
    (status : ℕ) × ((j : Json) × ((reply ≡ response true status (some j)) × (j ≡ null → ⊥)))

-- Each of the workers has been sent the request, and the ids are those of the workers whose answer is not
-- of this kind.
pub data Asked (E : Env) (url : Worker → String) (signature body : String)
    (Reached : Reply → Type 0) : List Worker → List String → Type 0 where
  nobody : Asked E url signature body Reached [] []
  reached :
      (past : List Event) {w : Worker} {ws : List Worker} {lost : List String}
      → Reached (E.post past (url w) signature body)
      → Asked E url signature body Reached ws lost
      → Asked E url signature body Reached (w ∷ ws) lost
  missed :
      (past : List Event) {w : Worker} {ws : List Worker} {lost : List String}
      → (Reached (E.post past (url w) signature body) → ⊥)
      → Asked E url signature body Reached ws lost
      → Asked E url signature body Reached (w ∷ ws) (w.worker_did ∷ lost)

abbrev endpoint : String → Worker → String
endpoint path w = text_given w.endpoint_url "" <> path

-- In local mode, the workers of HTTP are sent a body without a signature; otherwise none of them is lost.
abbrev pub LostOverHttp : Env → Bool → List Worker → List String → Type 0
LostOverHttp E true ws lost =
    (body : String) × Asked E (endpoint "/api/task/execute") "" body Answered ws lost
LostOverHttp E false ws lost = lost ≡ []

-- The workers of webhooks are sent a body with its signature, under a secret that is not empty.
abbrev pub LostOverWebhook : Env → String → List Worker → List String → Type 0
LostOverWebhook E secret ws lost =
    (body : String) × (((is_empty secret ≡ false) ⊎ (ws ≡ []))
      × Asked E (endpoint "/webhook") ("sha256=" <> E.hmac secret body) body Accepted ws lost)

-- What triggerWorkers may return.
abbrev pub KeptOf : Env → Config → List Worker → List Worker → Type 0
KeptOf E c ws kept =
    (lost more : List String) × (LostOverHttp E c.local_mode (filter is_http_worker ws) lost
      × LostOverWebhook E c.webhook_secret (filter is_webhook_worker ws) more
      × (kept ≡ filter (λ w. not (contains (lost ++ more) w.worker_did)) ws))

-- A program that returns such ids, and any exception.
abbrev Losing :
    Env → (Worker → String) → String → String → (Reply → Type 0) → List Worker → Ways (List String)
Losing E url signature body Reached ws =
    ((λ lost ms. Asked E url signature body Reached ws lost), (λ ms. Unit))

module _ (E : Env) where
  abbrev OfWebhook : Config → List Worker → Ways (List String)
  OfWebhook c ws = ((λ lost ms. LostOverWebhook E c.webhook_secret ws lost), (λ ms. Unit))
