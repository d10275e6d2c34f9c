-- ===== src/Routes/Registered.antt =====
-- What POST workers/register of coordinator-agent/src/routes/coordinate.ts asks of the chain, and when.
use delibera_xyz.Prelude.{
  ℕ, ◌≡◌, refl, String, true, false, not, ◌&&◌, Option, none, some, List, ◌∷◌, ◌⊎◌, inl, inr, arith,
  Bool-cases,
}
use delibera_xyz.Prelude.Text.{◌<>◌, is_empty, has_prefix}
use delibera_xyz.Json.{Json, null, str, member, truthy, is_text}
use delibera_xyz.Host.{
  Env, Event, called, Call, Reply, unreachable, response, Problem, Outcome, ok, threw, out_of_fuel,
  Proc, Prog, lift, ◌>>=◌,
}
use delibera_xyz.Host.Answers.{Response, Engine, answered_at, answering}
use delibera_xyz.Host.Observe.{seen, IsSettled}
use delibera_xyz.Host.Ways.{
  WaysOf, TakesOf, LedOf, Takes-pure, Takes-throw, Takes-lift, Takes-if, Takes-split, Takes-bind,
  Takes-emit, Takes-answer,
}
use delibera_xyz.Coordinator.Registration.{Registered, local_register_worker_in_registry}
use delibera_xyz.Routes.Registering.{
  trimmed, strip_slashes, Discovery, reported, unusable, forget_check, compare_did, discovered,
  registration_answer, register_known, register_discovered, register_with, register_fields,
  register_body, register_route,
}

abbrev pub add_call : Event → List Call → List Call
add_call (called c) cs = c ∷ cs
add_call e cs = cs

-- The change calls of a history, the most recent first.
abbrev pub calls : List Event → List Call
calls h = seen add_call h

-- The endpoint has reported the DID itself, in the JSON of a response that is ok.
pub record Vouched (E : Env) (did endpoint : String) : Type 0 where
  pub past : List Event
  pub status : ℕ
  pub info : Json
  pub answer : E.fetch past (strip_slashes endpoint <> "/") ≡ response true status (some info)
  pub named : member "workerDid" info ≡ some (str did)

-- The ways in which a registration ends: refused or failed with no call, or with one call, that the
-- chain rejects or accepts. The call is made only for a DID that begins with "did:", at an endpoint
-- that has reported it.
pub data Registering (E : Env) (before : List Call) : Response → List Call → Type 0 where
  refused : (r : Response) → r.code ≡ 400 → Registering E before r before
  failed : (r : Response) → r.code ≡ 500 → Registering E before r before
  asked :
      (r : Response) (did endpoint : String)
      → (r.code ≡ 200) ⊎ (r.code ≡ 500)
      → has_prefix "did:" did ≡ true
      → Vouched E did endpoint
      → Registering E before r (Call.register_in_registry did endpoint "manual" ∷ before)

-- What a discovery says is what the field of the response holds.
abbrev Agrees : Option Json → Discovery → Type 0
Agrees field (reported v) = field ≡ some v
Agrees field (unusable r) = r.code ≡ 400

abbrev Sound : Reply → Discovery → Type 0
Sound reply (reported v) =
    (status : ℕ) × (info : Json) × (reply ≡ response true status (some info))
    × (member "workerDid" info ≡ some v)
Sound reply (unusable r) = r.code ≡ 400

module _ (E : Env) (J : Engine) where
  compare_did-Agrees : (did : String) (o : Option Json) → Agrees o (compare_did E J did o)
  unfolding compare_did
  compare_did-Agrees did none = refl
  compare_did-Agrees did (some found) = elim (Bool-cases (truthy found)) [
    | inr absent ↦ rw absent refl
    | inl given ↦ elim (Bool-cases (not (is_empty did) && not (is_text found did))) [
      | inl other ↦ rw (given, other) refl
      | inr same ↦ rw (given, same) refl
    ]
  ]

  agreed-Sound :
      (status : ℕ) (info : Json) (d : Discovery)
      → Agrees (member "workerDid" info) d
      → Sound (response true status (some info)) d
  agreed-Sound status info (reported v) h = (status, info, refl, h)
  agreed-Sound status info (unusable r) h = h

  discovered-Sound :
      (did endpoint : String) (reply : Reply) → Sound reply (discovered E J did endpoint reply)
  unfolding discovered
  discovered-Sound did endpoint unreachable = refl
  discovered-Sound did endpoint (response true status none) = refl
  discovered-Sound did endpoint (response true status (some null)) = refl
  discovered-Sound did endpoint (response true status (some info)) =
      agreed-Sound status info (compare_did E J did (member "workerDid" info))
        (compare_did-Agrees did (member "workerDid" info))
  discovered-Sound did endpoint (response false status body) = refl

  trimmed-IsSettled : (o : Option Json) → IsSettled (trimmed o)
  unfolding trimmed
  trimmed-IsSettled none = tt
  trimmed-IsSettled (some null) = tt
  trimmed-IsSettled (some (str s)) = tt
  trimmed-IsSettled (some j) = tt

  module _ (before : List Call) where
    -- An exception comes before any call.
    abbrev pub OfRegister : WaysOf Call Response
    OfRegister = ((λ r here. Registering E before r here), (λ here. here ≡ before))

    abbrev Takes : Prog Response → Type 0
    Takes m = TakesOf add_call OfRegister before m

    forget_check-Takes :
        (did : String) (ms : List Call)
        → TakesOf add_call ((λ _ here. here ≡ ms), (λ _. ⊥)) ms (forget_check did)
    unfolding forget_check
    forget_check-Takes did ms = record { at = λ s e. e }

    registration_answer-Takes :
        (did endpoint : String) (result : Registered)
        → has_prefix "did:" did ≡ true
        → Vouched E did endpoint
        → TakesOf add_call OfRegister
            (Call.register_in_registry did endpoint "manual" ∷ before)
            (registration_answer E J did endpoint result)
    registration_answer-Takes did endpoint result d v =
        let ms = Call.register_in_registry did endpoint "manual" ∷ before in
        Takes-if OfRegister ms result.success _ _
          (Takes-bind ((λ _ here. here ≡ ms), (λ _. ⊥)) OfRegister ms (forget_check did) _
            (forget_check-Takes did ms)
            (λ _ here e. Takes-pure OfRegister here _ (rw e (asked _ did endpoint (inl refl) d v)))
            (λ here e. absurd e))
          (Takes-pure OfRegister ms _ (asked _ did endpoint (inr refl) d v))

    asking-Takes :
        (did endpoint : String)
        → has_prefix "did:" did ≡ true
        → Vouched E did endpoint
        → Takes (
            local_register_worker_in_registry E did endpoint "manual"
            >>= registration_answer E J did endpoint)
    unfolding local_register_worker_in_registry
    asking-Takes did endpoint d v =
        let ms = Call.register_in_registry did endpoint "manual" ∷ before in
        Takes-bind ((λ _ here. here ≡ ms), (λ _. ⊥)) OfRegister before _ _
          (Takes-emit _ before (called (Call.register_in_registry did endpoint "manual"))
            (λ h. E.call h (Call.register_in_registry did endpoint "manual")) _
            (λ reply. Takes-pure _ ms _ refl))
          (λ result here e. rw e (registration_answer-Takes did endpoint result d v))
          (λ here e. absurd e)

    register_known-Takes :
        (did endpoint : String)
        → (is_empty endpoint ≡ false → Vouched E did endpoint)
        → Takes (register_known E J did endpoint)
    unfolding register_known local_register_worker_in_registry
    register_known-Takes did endpoint v =
        Takes-if OfRegister before (is_empty did) _ _
          (Takes-pure OfRegister before _ (refused _ refl))
          (Takes-split OfRegister before (has_prefix "did:" did) _ _
            (λ good.
              Takes-split OfRegister before (is_empty endpoint) _ _
                (λ blank. Takes-pure OfRegister before _ (refused _ refl))
                (λ given. asking-Takes did endpoint good (v given)))
            (λ bad. Takes-pure OfRegister before _ (refused _ refl)))

    register_discovered-Takes :
        (endpoint : String) (past : List Event) (d : Discovery)
        → Sound (E.fetch past (strip_slashes endpoint <> "/")) d
        → Takes (register_discovered E J endpoint d)
    register_discovered-Takes endpoint past (unusable r) h =
        Takes-pure OfRegister before r (refused r h)
    register_discovered-Takes endpoint past (reported (str did)) (status, info, answer, named) =
        register_known-Takes did endpoint (λ _. record {
          past = past;
          status = status;
          info = info;
          answer = answer;
          named = named;
        })
    register_discovered-Takes endpoint past (reported j) h = Takes-throw OfRegister before _ refl

    register_with-Takes : (did endpoint : String) → Takes (register_with E J did endpoint)
    unfolding register_with
    register_with-Takes did endpoint =
        Takes-split OfRegister before (is_empty endpoint) _ _
          (λ blank.
            register_known-Takes did endpoint (λ given. absurd (ground (arith, blank, given))))
          (λ given.
            Takes-answer OfRegister before (Event.fetched (strip_slashes endpoint <> "/"))
              (λ past. E.fetch past (strip_slashes endpoint <> "/")) _
              (λ past.
                register_discovered-Takes endpoint past _
                  (discovered-Sound did endpoint (E.fetch past (strip_slashes endpoint <> "/")))))

    register_fields-Takes : (did endpoint : String) → Takes (register_fields E J did endpoint)
    unfolding register_fields
    register_fields-Takes did endpoint =
        Takes-if OfRegister before (has_prefix "http" did && is_empty endpoint) _ _
          (register_with-Takes "" did) (register_with-Takes did endpoint)

    trimmed-Takes :
        (o : Option Json) (f : String → Prog Response)
        → ((s : String) → Takes (f s))
        → Takes (lift (trimmed o) >>= f)
    trimmed-Takes o f h =
        Takes-bind ((λ _ here. here ≡ before), (λ here. here ≡ before)) OfRegister before _ f
          (Takes-lift _ before (trimmed o) (trimmed-IsSettled o) (λ s e. refl) refl)
          (λ s here e. rw e (h s)) (λ here e. e)

    register_body-Takes : (body : Option Json) → Takes (register_body E J body)
    unfolding register_body
    register_body-Takes none = Takes-throw OfRegister before _ refl
    register_body-Takes (some null) = Takes-throw OfRegister before _ refl
    register_body-Takes (some body) = trimmed-Takes (member "workerId" body) _ (λ did.
        trimmed-Takes (member "endpointUrl" body) _
          (λ endpoint. register_fields-Takes did endpoint))

    answered-Registering :
        (describe : Problem → Response) (r : Outcome Response × Proc)
        → ((p : Problem) → (describe p).code ≡ 500)
        → LedOf add_call OfRegister r
        → LedOf add_call (OfRegister.0, (λ _. ⊥)) (answered_at describe r)
    answered-Registering describe (ok a, s) c h = h
    answered-Registering describe (threw p, s) c h = rw h (failed (describe p) (c p))
    answered-Registering describe (out_of_fuel, s) c h = h

-- From every state, whatever the body, a registration is answered as `Registering` says, never with an
-- exception: the code is 400 or 500 with no call on the chain, or there is exactly one call, which
-- registers a DID that begins with "did:" at an endpoint whose response was ok and reported this very
-- DID, and the code is 200 or 500.
pub register_route-Registering :
    (E : Env) (J : Engine) (body : Option Json) (s : Proc)
    → LedOf add_call ((OfRegister E J (calls s.history)).0, (λ _. ⊥)) (register_route E J body s)
unfolding register_route answering
register_route-Registering E J body s =
    answered-Registering E J (calls s.history) _ _ (λ p. refl)
      ((register_body-Takes E J (calls s.history) body).at s refl)
