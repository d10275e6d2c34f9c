-- ===== src/Routes/Known.antt =====
-- Which workers filterValidatedWorkers of coordinator-agent/src/routes/coordinate.ts takes from the cache,
-- which it asks, and which of these pass.
use delibera_xyz.Prelude.{
  ℕ, ◌+◌, ◌≤◌, ◌<◌, ◌≡◌, refl, ◌∙◌, ap, String, Bool, true, false, none, some, List, [], ◌∷◌, ◌++◌,
  ◌⊎◌, inl, inr, arith, filter, ltb, Bool-cases, Option-cases, if◌then◌else◌,
}
use delibera_xyz.Prelude.Maps.{find}
use delibera_xyz.Host.{Env, Event, fetched, Worker, Check, Proc, pure, ◌>>=◌}
use delibera_xyz.Host.Observe.{seen}
use delibera_xyz.Host.Ways.{
  WaysOf, TakesOf, LedOf, Takes-pure, Takes-split, Takes-bind, Takes-emit, Takes-answer,
}
use delibera_xyz.Coordinator.Dispatch.{is_polling_worker}
use delibera_xyz.Routes.Passing.{root_of, IsGood, passes-IsGood, IsGood-passes}
use delibera_xyz.Routes.Validation.{
  passes, known, is_known_valid, is_unknown, note_check, validate_worker, check_worker,
  validation_cache, check_all, filter_validated_workers,
}

abbrev pub add_fetch : Event → List String → List String
add_fetch (fetched url) us = url ∷ us
add_fetch e us = us

-- The addresses that a history has fetched, the most recent first.
abbrev pub fetches : List Event → List String
fetches h = seen add_fetch h

-- How the check of a worker ends: it polls, or its endpoint has given a good answer, or one that is not.
abbrev pub Tested : Env → Worker → Bool → Type 0
Tested E w true =
    (is_polling_worker w ≡ true) ⊎ ((past : List Event) × IsGood w (E.fetch past (root_of w)))
Tested E w false =
    (is_polling_worker w ≡ false)
    × ((past : List Event) × (IsGood w (E.fetch past (root_of w)) → ⊥))

-- Those of the workers that pass their check, in their order.
pub data Validated (E : Env) : List Worker → List Worker → Type 0 where
  nobody : Validated E [] []
  tested :
      (w : Worker) (valid : Bool) {ws vs : List Worker}
      → Tested E w valid
      → Validated E ws vs
      → Validated E (w ∷ ws) (if valid then w ∷ vs else vs)

-- One request for each worker that does not poll.
abbrev pub requested : List Worker → List String → List String
requested [] us = us
requested (w ∷ ws) us = requested ws (if is_polling_worker w then us else root_of w ∷ us)

-- A check of the worker with this outcome is less than five minutes old.
abbrev pub HasRecent : ℕ → List (String × Check) → Worker → Bool → Type 0
HasRecent now cache w valid =
    (k : Check) × (find w.worker_did cache ≡ some k)
    × (now < k.checked_at + 300000)
    × (k.valid ≡ valid)

-- The workers that the cache vouches for, and those about whom it knows nothing recent.
pub data Parted (now : ℕ) (cache : List (String × Check))
    : List Worker → List Worker → List Worker → Type 0 where
  none_left : Parted now cache [] [] []
  vouched :
      {w : Worker} {ws kept asked : List Worker}
      → HasRecent now cache w true
      → Parted now cache ws kept asked
      → Parted now cache (w ∷ ws) (w ∷ kept) asked
  dismissed :
      {w : Worker} {ws kept asked : List Worker}
      → HasRecent now cache w false
      → Parted now cache ws kept asked
      → Parted now cache (w ∷ ws) kept asked
  outdated :
      {w : Worker} {ws kept asked : List Worker}
      → ((k : Check) → find w.worker_did cache ≡ some k → k.checked_at + 300000 ≤ now)
      → Parted now cache ws kept asked
      → Parted now cache (w ∷ ws) kept (w ∷ asked)

-- What the cache knows, read from the check that it holds.
known-HasRecent :
    (now : ℕ) (cache : List (String × Check)) (w : Worker)
    → ((known now cache w ≡ none)
        × ((k : Check) → find w.worker_did cache ≡ some k → k.checked_at + 300000 ≤ now))
      ⊎ ((valid : Bool) × ((known now cache w ≡ some valid) × HasRecent now cache w valid))
unfolding known
known-HasRecent now cache w = elim (Option-cases (find w.worker_did cache)) [
  | inl e ↦ inl (rw (known, e) refl, λ k e'. absurd (ground (arith, e, e')))
  | inr (k, e) ↦ elim (Bool-cases (ltb now (k.checked_at + 300000))) [
    | inr old ↦ inl (
      rw (known, e, old) refl,
      λ k' e'. let same : k ≡ k' = cc (e, e') in rw (← same) (ground (arith, old)),
    )
    | inl recent ↦ inr (k.valid, (rw (known, e, recent) refl, (k, e, ground (arith, recent), refl)))
  ]
]

filter-Parted :
    (now : ℕ) (cache : List (String × Check)) (ws : List Worker)
    → Parted now cache ws
        (filter (λ w. is_known_valid (known now cache w)) ws)
        (filter (λ w. is_unknown (known now cache w)) ws)
filter-Parted now cache [] = none_left
filter-Parted now cache (w ∷ ws) = elim (known-HasRecent now cache w) [
  | inl (e, old) ↦ rw e (outdated old (filter-Parted now cache ws))
  | inr (true, (e, recent)) ↦ rw e (vouched recent (filter-Parted now cache ws))
  | inr (false, (e, recent)) ↦ rw e (dismissed recent (filter-Parted now cache ws))
]

module _ (E : Env) where
  test_of :
      (w : Worker)
      → is_polling_worker w ≡ false
      → (past : List Event) → Tested E w (passes w (E.fetch past (root_of w)))
  test_of w served past = elim (Bool-cases (passes w (E.fetch past (root_of w)))) [
    | inl good ↦ rw good (inr (past, passes-IsGood w (E.fetch past (root_of w)) good))
    | inr bad ↦ rw bad (
      served,
      (past, λ g. absurd (ground (arith, IsGood-passes w (E.fetch past (root_of w)) g, bad))),
    )
  ]

  abbrev asked_of : Worker → List String → List String
  asked_of w us = if is_polling_worker w then us else root_of w ∷ us

  abbrev OfTest : Worker → List String → WaysOf String Bool
  OfTest w us = ((λ valid here. Tested E w valid × (here ≡ asked_of w us)), (λ here. ⊥))

  validate_worker-Takes :
      (w : Worker) (us : List String) → TakesOf add_fetch (OfTest w us) us (validate_worker E w)
  unfolding validate_worker
  validate_worker-Takes w us =
      Takes-split _ us (is_polling_worker w) _ _
        (λ polls. Takes-pure _ us true (inl polls, rw polls refl))
        (λ served.
          Takes-answer _ us _ (λ past. E.fetch past (root_of w)) _
            (λ past. Takes-pure _ _ _ (test_of w served past, rw served refl)))

  check_worker-Takes :
      (w : Worker) (us : List String) → TakesOf add_fetch (OfTest w us) us (check_worker E w)
  unfolding check_worker note_check
  check_worker-Takes w us =
      Takes-bind (OfTest w us) (OfTest w us) us _ _ (validate_worker-Takes w us)
        (λ valid here k.
          Takes-emit _ here _ (λ h. E.now h) _
            (λ now.
              Takes-bind ((λ _ there. there ≡ here), (λ there. ⊥)) (OfTest w us) here _ _
                (record { at = λ s e. e })
                (λ _ there same. Takes-pure (OfTest w us) there valid (k.0, same ∙ k.1))
                (λ there t. t)))
        (λ here k. k)

  abbrev OfAll : List Worker → List String → WaysOf String (List Worker)
  OfAll ws us = ((λ vs here. Validated E ws vs × (here ≡ requested ws us)), (λ here. ⊥))

  check_all-Takes :
      (ws : List Worker) (us : List String) → TakesOf add_fetch (OfAll ws us) us (check_all E ws)
  unfolding check_all
  check_all-Takes [] us = Takes-pure _ us [] (nobody, refl)
  check_all-Takes (w ∷ ws) us =
      Takes-bind (OfTest w us) (OfAll (w ∷ ws) us) us _ _ (check_worker-Takes w us)
        (λ valid here k.
          Takes-bind (OfAll ws here) (OfAll (w ∷ ws) us) here _ _ (check_all-Takes ws here)
            (λ vs there l.
              Takes-pure _ there _ (tested w valid k.0 l.0, l.1 ∙ ap (requested ws) k.1))
            (λ there l. l))
        (λ here k. k)

  abbrev unknown : List Worker → Proc → List Worker
  unknown ws s = filter (λ w. is_unknown (known (E.now s.history) s.checks w)) ws

  -- The workers are parted by what the cache knows at the time `now`; those that it does not know are
  -- asked, each once, and those that pass follow those that it vouches for.
  abbrev pub Checked :
      ℕ → List (String × Check) → List Worker → List String → List Worker → List String → Type 0
  Checked now cache ws before found here =
      (kept asked passed : List Worker) × (Parted now cache ws kept asked
        × Validated E asked passed
        × (found ≡ kept ++ passed)
        × (here ≡ requested asked before))

  abbrev pub OfFilter : List Worker → Proc → WaysOf String (List Worker)
  OfFilter ws s = (
    (λ found here. Checked (E.now s.history) s.checks ws (fetches s.history) found here),
    (λ here. ⊥),
  )

  -- From every state, the filter returns without an exception. A worker with a check that is less than five
  -- minutes old is not asked, and returned exactly if it was found valid then; every other worker is asked
  -- by one request, unless it polls, and returned, behind the former, exactly if it polls or its endpoint
  -- gives a response that is no server error and, if it is ok, does not name another DID. Both parts keep
  -- the order of the workers, and nothing else is fetched.
  pub filter_validated_workers-Checked :
      (ws : List Worker) (s : Proc)
      → LedOf add_fetch (OfFilter ws s) (filter_validated_workers E ws s)
  unfolding filter_validated_workers validation_cache ◌>>=◌
  filter_validated_workers-Checked ws s =
      (Takes-bind (OfAll (unknown ws s) (fetches s.history)) (OfFilter ws s) (fetches s.history)
          (check_all E (unknown ws s))
          (λ passed.
            pure (filter (λ w. is_known_valid (known (E.now s.history) s.checks w)) ws ++ passed))
          (check_all-Takes (unknown ws s) (fetches s.history))
          (λ passed here k. Takes-pure (OfFilter ws s) here _ (
            filter (λ w. is_known_valid (known (E.now s.history) s.checks w)) ws,
            unknown ws s,
            passed,
            (filter-Parted (E.now s.history) s.checks ws, k.0, refl, k.1),
          ))
          (λ here k. k)).at
        (record s { history = Event.checked_clock ∷ s.history }) refl
