-- ===== src/Payments/Tests.antt =====
-- Requests to the payments at concrete inputs: the service creates a session, and a secret is set.
use delibera_xyz.Prelude.{ℕ, ◌≡◌, refl, true, Option, none, some, [], ◌∷◌}
use delibera_xyz.Json.{Json, str, object}
use delibera_xyz.Host.{response, type_error, Outcome, ok, Proc, ◌>>=◌}
use delibera_xyz.Host.Answers.{Response}
use delibera_xyz.Host.Ways.{LedOf}
use delibera_xyz.Coordinator.World.{world, fresh}
use delibera_xyz.Agent.Writes.{add_write, writes}
use delibera_xyz.Payments.Checkout.{PaymentServices, checkout_route}
use delibera_xyz.Payments.Webhook.{webhook_route}
use delibera_xyz.Payments.Received.{OfWebhook, webhook_route-Received}

abbrev shop : PaymentServices
shop = record {
  env = record world {
    codec = record {
      parse = λ s. some (object (("id", str "e1") ∷ []));
      stringify = λ j. "text";
      decimal = λ n. "7";
    };
    hmac = λ key text. text;
  };
  engine = record {
    describe = λ p. "failed";
    syntax_error = "syntax error";
    parse_int = λ s. none;
  };
  pingpay_api_key = "key";
  pingpay_webhook_secret = "secret";
  pingpay = λ h request. response true 200 (some (object (("sessionUrl", str "https://pay") ∷ [])));
  fetch_failed = type_error;
  connected = true;
}

abbrev code_of : Outcome Response × Proc → Option ℕ
code_of (ok r, s) = some r.code
code_of (o, s) = none

abbrev order : Json
order = object (("amount", str "10") ∷ ("successUrl", str "/yes") ∷ ("cancelUrl", str "/no") ∷ [])

session-created : code_of (checkout_route shop (some order) fresh) ≡ some 200
unfolding checkout_route ◌>>=◌
session-created = refl

amount-missing : code_of (checkout_route shop (some (object [])) fresh) ≡ some 400
unfolding checkout_route ◌>>=◌
amount-missing = refl

signature-wrong : code_of (webhook_route shop (some "x") (some "1") "{}" fresh) ≡ some 401
unfolding webhook_route ◌>>=◌
signature-wrong = refl

-- Without the headers nothing is checked.
unsigned-stored :
    writes (webhook_route shop none none "{}" fresh).1.history
    ≡ ("coordination/payments/events/e1", "{}") ∷ []
unfolding webhook_route ◌>>=◌ delibera_xyz.Json.template_text
unsigned-stored = refl

webhook_route-Received_example :
    LedOf add_write
      ((OfWebhook shop (some "1{}") (some "1") "{}" (writes fresh.history)).0, (λ _. ⊥))
      (webhook_route shop (some "1{}") (some "1") "{}" fresh)
webhook_route-Received_example = webhook_route-Received shop (some "1{}") (some "1") "{}" fresh
