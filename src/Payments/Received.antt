-- ===== src/Payments/Received.antt =====
-- What POST webhook of protocol-api/src/routes/payments.ts admits and stores.
use text.Mathlib.Text.{◌==◌}
use text.Mathlib.TextEquality.{eq_iff}
use delibera_xyz.Prelude.{
  ◌≡◌, refl, String, true, false, Option, none, some, List, ◌∷◌, ◌⊎◌, inl, inr, arith, Bool-cases,
  Option-cases,
}
use delibera_xyz.Prelude.Text.{◌<>◌, is_empty, set_text}
use delibera_xyz.Json.{Json, null, member, truthy}
use delibera_xyz.Host.{Event, wrote, Problem, Outcome, ok, threw, out_of_fuel, Proc, pure}
use delibera_xyz.Host.Answers.{Response, answered_at, answering}
use delibera_xyz.Host.Ways.{
  WaysOf, TakesOf, LedOf, Takes-pure, Takes-throw, Takes-emit, Takes-split, Takes-bind,
}
use delibera_xyz.Agent.Writes.{Write, add_write, writes}
use delibera_xyz.Payments.Checkout.{PaymentServices}
use delibera_xyz.Payments.Webhook.{
  event_key, is_admitted, event_id, store_event, take_event, webhook_route,
}

-- The signature is the one of the time and the body, or it cannot be checked.
pub data Admitted (P : PaymentServices) (signature timestamp : Option String) (raw : String)
    : Type 0 where
  without_secret : is_empty P.pingpay_webhook_secret ≡ true → Admitted P signature timestamp raw
  without_signature : set_text signature ≡ none → Admitted P signature timestamp raw
  without_time : set_text timestamp ≡ none → Admitted P signature timestamp raw
  signed :
      (time : String)
      → timestamp ≡ some time
      → signature ≡ some (P.env.hmac P.pingpay_webhook_secret (time <> raw))
      → Admitted P signature timestamp raw

-- What is answered, with what is written then.
pub data Received (P : PaymentServices) (signature timestamp : Option String) (raw : String)
    (before : List Write) : Response → List Write → Type 0 where
  forged :
      (r : Response) (given time : String)
      → r.code ≡ 401
      → is_empty P.pingpay_webhook_secret ≡ false
      → timestamp ≡ some time
      → signature ≡ some given
      → (P.env.hmac P.pingpay_webhook_secret (time <> raw) == given) ≡ false
      → Received P signature timestamp raw before r before
  unreadable :
      (r : Response)
      → r.code ≡ 500
      → Admitted P signature timestamp raw
      → (P.env.codec.parse raw ≡ none) ⊎ (P.env.codec.parse raw ≡ some null)
      → Received P signature timestamp raw before r before
  lost :
      (r : Response)
      → r.code ≡ 200
      → Admitted P signature timestamp raw
      → P.connected ≡ false
      → Received P signature timestamp raw before r before
  stored :
      (r : Response) (event : Json) (id : String)
      → r.code ≡ 200
      → Admitted P signature timestamp raw
      → P.connected ≡ true
      → P.env.codec.parse raw ≡ some event
      → Received P signature timestamp raw before r ((event_key id, raw) ∷ before)

set_text-some : (o : Option String) (s : String) → set_text o ≡ some s → o ≡ some s
set_text-some none s h = h
set_text-some (some t) s h = elim (Bool-cases (is_empty t)) [
  | inl e ↦ absurd (ground (arith, h, e))
  | inr full ↦ rw full at h
]

module _ (P : PaymentServices) (signature timestamp : Option String) (raw : String) where
  is_admitted-Admitted :
      is_admitted P signature timestamp raw ≡ true → Admitted P signature timestamp raw
  unfolding is_admitted
  is_admitted-Admitted h = elim (Option-cases (set_text signature)) [
    | inl s ↦ without_signature s
    | inr (given, s) ↦ elim (Option-cases (set_text timestamp)) [
      | inl t ↦ without_time t
      | inr (time, t) ↦ elim (Bool-cases (is_empty P.pingpay_webhook_secret)) [
        | inl none_set ↦ without_secret none_set
        | inr secret ↦
            let same : P.env.hmac P.pingpay_webhook_secret (time <> raw) ≡ given =
              (eq_iff (P.env.hmac P.pingpay_webhook_secret (time <> raw)) given).0
                (rw (s, t, secret) at h) in
            signed time (set_text-some timestamp time t) (rw same (set_text-some signature given s))
      ]
    ]
  ]

  module _ (before : List Write) where
    abbrev Unreadable : Type 0
    Unreadable = (P.env.codec.parse raw ≡ none) ⊎ (P.env.codec.parse raw ≡ some null)

    -- Only a text that is not read as an event throws, with nothing written.
    abbrev pub OfWebhook : WaysOf Write Response
    OfWebhook = (
      (λ r here. Received P signature timestamp raw before r here),
      (λ here. (here ≡ before) × Unreadable),
    )

    refused-Received :
        (r : Response)
        → r.code ≡ 401
        → is_admitted P signature timestamp raw ≡ false
        → Received P signature timestamp raw before r before
    unfolding is_admitted
    refused-Received r c h = elim (Option-cases (set_text signature)) [
      | inl s ↦ absurd (ground (arith, rw s at h))
      | inr (given, s) ↦ elim (Option-cases (set_text timestamp)) [
        | inl t ↦ absurd (ground (arith, rw (s, t) at h))
        | inr (time, t) ↦ elim (Bool-cases (is_empty P.pingpay_webhook_secret)) [
          | inl none_set ↦ absurd (ground (arith, rw (s, t, none_set) at h))
          | inr secret ↦
              forged r given time c secret (set_text-some timestamp time t)
                (set_text-some signature given s) (rw (s, t, secret) at h)
        ]
      ]
    ]

    event_id-Takes :
        (o : Option Json)
        → TakesOf add_write ((λ _ here. here ≡ before), (λ _. ⊥)) before (event_id P o)
    unfolding event_id
    event_id-Takes none =
        Takes-emit _ before Event.checked_clock (λ h. P.env.now h) _
          (λ now. Takes-pure _ before _ refl)
    event_id-Takes (some id) =
        Takes-split _ before (truthy id) _ _ (λ e. Takes-pure _ before _ refl)
          (λ e.
            Takes-emit _ before Event.checked_clock (λ h. P.env.now h) _
              (λ now. Takes-pure _ before _ refl))

    store_event-Takes :
        (event : Json)
        → Admitted P signature timestamp raw
        → P.env.codec.parse raw ≡ some event
        → TakesOf add_write OfWebhook before (store_event P raw event)
    unfolding store_event
    store_event-Takes event a p =
        Takes-bind ((λ _ here. here ≡ before), (λ _. ⊥)) OfWebhook before _ _
          (event_id-Takes (member "id" event))
          (λ id here e. rw e (
            Takes-split OfWebhook before P.connected _ _
              (λ there.
                Takes-emit OfWebhook before (wrote (event_key id) raw) (λ h. tt) _
                  (λ _. Takes-pure OfWebhook _ _ (stored _ event id refl a there p)))
              (λ away. Takes-pure OfWebhook before _ (lost _ refl a away))))
          (λ here e. absurd e)

    take_event-Takes :
        (o : Option Json)
        → P.env.codec.parse raw ≡ o
        → Admitted P signature timestamp raw
        → TakesOf add_write OfWebhook before (take_event P raw o)
    take_event-Takes none p a = Takes-throw OfWebhook before _ (refl, inl p)
    take_event-Takes (some null) p a = Takes-throw OfWebhook before _ (refl, inr p)
    take_event-Takes (some event) p a = store_event-Takes event a p

    answered-Received :
        (describe : Problem → Response) (r : Outcome Response × Proc)
        → ((p : Problem) → (describe p).code ≡ 500)
        → Admitted P signature timestamp raw
        → LedOf add_write OfWebhook r
        → LedOf add_write (OfWebhook.0, (λ _. ⊥)) (answered_at describe r)
    answered-Received describe (ok a, s) c d h = h
    answered-Received describe (threw p, s) c d (e, u) = rw e (unreadable (describe p) (c p) d u)
    answered-Received describe (out_of_fuel, s) c d h = h

-- From every state, a webhook is answered as `Received` says, never with an exception. With the code 401
-- nothing is written, and a secret and both headers were given with a signature that is not that of the
-- time and the body. Otherwise the signature is the right one, or it or the time is missing, or there is no
-- secret; then the code is 500 with nothing written, if the body is no JSON or is null, or it is 200,
-- with nothing written if no client of the memory can be made, and else with the body stored under the
-- events' prefix and nothing else.
pub webhook_route-Received :
    (P : PaymentServices) (signature timestamp : Option String) (raw : String) (s : Proc)
    → LedOf add_write
        ((OfWebhook P signature timestamp raw (writes s.history)).0, (λ _. ⊥))
        (webhook_route P signature timestamp raw s)
unfolding webhook_route answering pure
webhook_route-Received P signature timestamp raw s =
    elim (Bool-cases (is_admitted P signature timestamp raw)) [
      | inl good ↦ rw good (
          answered-Received P signature timestamp raw (writes s.history) _ _ (λ p. refl)
            (is_admitted-Admitted P signature timestamp raw good)
            ((take_event-Takes P signature timestamp raw (writes s.history) (P.env.codec.parse raw)
                refl (is_admitted-Admitted P signature timestamp raw good)).at
              s refl))
      | inr bad ↦ rw bad (refused-Received P signature timestamp raw (writes s.history) _ refl bad)
    ]
