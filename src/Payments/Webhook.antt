-- ===== src/Payments/Webhook.antt =====
-- POST webhook of protocol-api/src/routes/payments.ts. The text of a request can be read.
use text.Mathlib.Text.{◌==◌}
use delibera_xyz.Prelude.{String, Bool, true, ◌||◌, Option, none, some, [], ◌∷◌, if◌then◌else◌}
use delibera_xyz.Prelude.Text.{◌<>◌, is_empty, set_text}
use delibera_xyz.Json.{Json, null, bool, object, member, truthy, template_text}
use delibera_xyz.Host.{error, type_error, Prog, pure, throw, ◌>>=◌, ◌>>◌}
use delibera_xyz.Host.Answers.{Response, error_response, details_response, answering}
use delibera_xyz.Coordinator.Memory.{clock, update_memory}
use delibera_xyz.Payments.Checkout.{PaymentServices}

abbrev pub received_response : Response
received_response = record { code = 200; body = object (("received", bool true) ∷ []) }

abbrev pub event_key : String → String
event_key id = "coordination/payments/events/" <> id

module _ (P : PaymentServices) where
  -- Whether the signature is the expected one, where a secret and both headers are given.
  abbrev signed_by : (signature timestamp : Option String) → String → Bool
  signed_by none timestamp raw = true
  signed_by (some signature) none raw = true
  signed_by (some signature) (some timestamp) raw =
      is_empty P.pingpay_webhook_secret
      || P.env.hmac P.pingpay_webhook_secret (timestamp <> raw) == signature

  unfoldable pub is_admitted : (signature timestamp : Option String) → String → Bool
  is_admitted signature timestamp raw = signed_by (set_text signature) (set_text timestamp) raw

  -- `event.id || Date.now()`
  unfoldable pub event_id : Option Json → Prog String
  event_id none = do now ← clock P.env; pure (P.env.codec.decimal now)
  event_id (some id) =
      if truthy id
      then pure (template_text P.env.codec id)
      else (do now ← clock P.env; pure (P.env.codec.decimal now))

  -- If the client cannot be made, the error is caught and the event is not stored.
  unfoldable pub store_event : String → Json → Prog Response
  unfolding event_id
  store_event raw event = do
    id ← event_id (member "id" event)
    if P.connected
        then (do update_memory (event_key id) raw; pure received_response)
        else pure received_response

  abbrev pub take_event : String → Option Json → Prog Response
  take_event raw none = throw (error P.engine.syntax_error)
  take_event raw (some null) = throw type_error
  take_event raw (some event) = store_event raw event

  unfoldable pub webhook_route :
      (signature timestamp : Option String) → (raw_body : String) → Prog Response
  unfolding is_admitted store_event answering
  webhook_route signature timestamp raw_body =
      answering (λ p. details_response 500 "Failed to process webhook" (P.engine.describe p))
        (if is_admitted signature timestamp raw_body
          then take_event raw_body (P.env.codec.parse raw_body)
          else pure (error_response 401 "Invalid signature"))
