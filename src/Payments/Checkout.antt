-- ===== src/Payments/Checkout.antt =====
-- POST checkout of protocol-api/src/routes/payments.ts. What the payment service answers is a function of
-- the history and of the request's text; the base address of the service is left out.
use delibera_xyz.Prelude.{
  ℕ, String, Bool, true, false, ◌&&◌, Option, none, some, List, [], ◌∷◌, ◌++◌, if◌then◌else◌,
}
use delibera_xyz.Prelude.Text.{◌<>◌, is_empty}
use delibera_xyz.Json.{Json, null, str, object, member, member?, truthy?, value_or_else, given}
use delibera_xyz.Host.{
  Env, Event, asked, Reply, unreachable, response, Problem, error, type_error, Prog, pure, throw,
  emit, ◌>>=◌,
}
use delibera_xyz.Host.Answers.{Response, Engine, error_response, details_response, answering}

-- The variables of the environment that the routes read, the payment service, and whether a client of
-- the shared memory can be made.
pub record PaymentServices : Type 0 where
  pub env : Env
  pub engine : Engine
  pub pingpay_api_key : String
  pub pingpay_webhook_secret : String
  pub pingpay : List Event → String → Reply
  pub fetch_failed : Problem
  pub connected : Bool

-- A default of a destructured member: only undefined gives way to it.
abbrev pub defined_or : Option Json → Json → Json
defined_or none d = d
defined_or (some j) d = j

unfoldable pub checkout_body : Json → Json
checkout_body body = object (
    given "amount" (member "amount" body)
    ++ ((
      "asset",
      object (
          ("chain", defined_or (member "chain" body) (str "NEAR"))
          ∷ ("symbol", defined_or (member "symbol" body) (str "USDC"))
          ∷ []),
    )
        ∷ [])
    ++ given "successUrl" (member "successUrl" body)
    ++ given "cancelUrl" (member "cancelUrl" body)
    ++ (("metadata", value_or_else (member "metadata" body) (object [])) ∷ []))

unfoldable pub session_json : Json → Json
session_json created = object (
    given "sessionUrl" (member "sessionUrl" created)
    ++ given "sessionId" (member? "sessionId" (member "session" created))
    ++ given "expiresAt" (member? "expiresAt" (member "session" created)))

module _ (P : PaymentServices) where
  -- The error of the service, or a message with its status.
  abbrev pub checkout_error : ℕ → Option Json → Json
  checkout_error status none =
      object (("message", str ("HTTP " <> P.env.codec.decimal status)) ∷ [])
  checkout_error status (some j) = j

  unfoldable pub checkout_reply : Reply → Prog Response
  unfolding session_json
  checkout_reply unreachable = throw P.fetch_failed
  checkout_reply (response false status body) = pure (record {
    code = status;
    body = object (
        ("error", str "Failed to create checkout session")
        ∷ ("details", checkout_error status body)
        ∷ []);
  })
  checkout_reply (response true status none) = throw (error P.engine.syntax_error)
  checkout_reply (response true status (some null)) = throw type_error
  checkout_reply (response true status (some created)) =
      pure (record { code = 200; body = session_json created })

  unfoldable pub create_checkout : Json → Prog Response
  unfolding checkout_body checkout_reply
  create_checkout body =
      if truthy? (member "amount" body)
        && truthy? (member "successUrl" body)
        && truthy? (member "cancelUrl" body)
      then (do
        reply ←
            emit (asked "checkout/sessions" (P.env.codec.stringify (checkout_body body)))
              (λ h. P.pingpay h (P.env.codec.stringify (checkout_body body)))
        checkout_reply reply)
      else pure (error_response 400 "amount, successUrl, and cancelUrl are required")

  abbrev pub read_checkout : Option Json → Prog Response
  read_checkout none = throw (error P.engine.syntax_error)
  read_checkout (some null) = throw type_error
  read_checkout (some body) = create_checkout body

  unfoldable pub checkout_route : Option Json → Prog Response
  unfolding create_checkout answering
  checkout_route body =
      answering
        (λ p. details_response 500 "Failed to create checkout session" (P.engine.describe p))
        (if is_empty P.pingpay_api_key
          then pure (error_response 500 "PingPay API key not configured")
          else read_checkout body)
