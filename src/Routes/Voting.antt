-- ===== src/Routes/Voting.antt =====
-- What POST poll/vote/:worker_did of coordinator-agent/src/routes/coordinate.ts does, and how the
-- coordinator reads the vote.
use delibera_xyz.Prelude.{
  ◌≡◌, refl, String, true, false, Option, none, some, List, ◌∷◌, ◌⊎◌, inl, inr, Bool-cases,
  Option-cases,
}
use delibera_xyz.Prelude.Text.{is_empty, has_prefix}
use delibera_xyz.Json.{Json, null, str}
use delibera_xyz.Ensue.Keys.{worker_keys}
use delibera_xyz.Host.{Env, Event, wrote, type_error, ok, Proc, Prog, pure}
use delibera_xyz.Host.Answers.{Response, details_response}
use delibera_xyz.Host.Ways.{
  WaysOf, TakesOf, LedOf, Takes-pure, Takes-throw, Takes-emit, Takes-answer,
}
use delibera_xyz.Agent.Writes.{Write, add_write, writes}
use delibera_xyz.Routes.Validation.{listed}
use delibera_xyz.Routes.Polls.{
  vote_option, vote_rationale, vote_json, is_active_worker, store_vote, write_vote, accept_vote,
  check_vote_body, read_vote_body, poll_vote_route,
}
use delibera_xyz.Coordinator.Tally.{extract_vote}
use delibera_xyz.Coordinator.Submissions.{submission_from, submission_of}
use delibera_xyz.Coordinator.Submissions.Ids.{has_slash, extract_worker_id-worker_keys}

-- The body holds this option and this rationale, and the DID begins with "did:" and is that of an active
-- worker in the registry's answer.
abbrev pub Admitted : Env → String → Option Json → String → String → Type 0
Admitted E did body option rationale =
    (sent : Json) × (body ≡ some sent)
    × (vote_option sent ≡ some option)
    × (vote_rationale sent ≡ some rationale)
    × (has_prefix "did:" did ≡ true)
    × ((past : List Event) × (is_active_worker did (listed E (E.registry past)) ≡ true))

-- Refused with nothing written; or admitted, and either the client of the memory cannot be made, the code
-- is 502 with the message, and nothing is written, or it is made, the code is 200, and the vote of the body
-- is written under the worker's key and nothing else.
pub data Polled (E : Env) (client : Option String) (did : String) (body : Option Json)
    (before : List Write) : Response → List Write → Type 0 where
  refused :
      (r : Response) → (r.code ≡ 400) ⊎ (r.code ≡ 403) → Polled E client did body before r before
  unsent :
      (message option rationale : String)
      → client ≡ some message
      → Admitted E did body option rationale
      → Polled E client did body before
          (details_response 502 "Failed to write vote to Ensue" message)
          before
  accepted :
      (r : Response) (option rationale at : String)
      → r.code ≡ 200
      → client ≡ none
      → Admitted E did body option rationale
      → Polled E client did body before r
          (((worker_keys did).result, E.codec.stringify (vote_json option rationale at)) ∷ before)

module _ (E : Env) (client : Option String) (did : String) (body : Option Json)
    (before : List Write) where
  -- Only a body that is null throws, with nothing written.
  abbrev pub OfPoll : WaysOf Write Response
  OfPoll = (
    (λ r here. Polled E client did body before r here),
    (λ here. (here ≡ before) × (body ≡ some null)),
  )

  abbrev Takes : Prog Response → Type 0
  Takes m = TakesOf add_write OfPoll before m

store_vote-Takes :
    (E : Env) (client : Option String) (did : String) (body : Option Json) (before : List Write)
    (option rationale at : String)
    → Admitted E did body option rationale
    → Takes E client did body before
        (store_vote E client did (E.codec.stringify (vote_json option rationale at)))
store_vote-Takes E (some message) did body before option rationale at h =
    Takes-pure (OfPoll E (some message) did body before) before _
      (unsent message option rationale refl h)
store_vote-Takes E none did body before option rationale at h =
    Takes-emit (OfPoll E none did body before) before
      (wrote (worker_keys did).result (E.codec.stringify (vote_json option rationale at))) (λ h. tt)
      _
      (λ _.
        Takes-emit (OfPoll E none did body before) _ Event.checked_clock (λ h. E.now h) _
          (λ later.
            Takes-pure (OfPoll E none did body before) _ _
              (accepted _ option rationale at refl refl h)))

module _ (E : Env) (client : Option String) (did : String) (body : Option Json)
    (before : List Write) where
  abbrev OfThis : WaysOf Write Response
  OfThis = OfPoll E client did body before

  accept_vote-Takes :
      (sent : Json) (option rationale : String)
      → body ≡ some sent
      → vote_option sent ≡ some option
      → vote_rationale sent ≡ some rationale
      → has_prefix "did:" did ≡ true
      → Takes E client did body before (accept_vote E client did option rationale)
  unfolding accept_vote write_vote
  accept_vote-Takes sent option rationale b o r d =
      Takes-answer OfThis before Event.listed_workers (λ past. E.registry past) _
        (λ past. elim (Bool-cases (is_active_worker did (listed E (E.registry past)))) [
          | inr unknown ↦ rw unknown (Takes-pure OfThis before _ (refused _ (inr refl)))
          | inl active ↦ rw active (
              Takes-emit OfThis before Event.checked_clock (λ h. E.now h) _
                (λ now.
                  store_vote-Takes E client did body before option rationale (E.iso now)
                    (sent, b, o, r, d, (past, active))))
        ])

  check_vote_body-Takes :
      (sent : Json)
      → body ≡ some sent
      → has_prefix "did:" did ≡ true
      → Takes E client did body before (check_vote_body E client did sent)
  unfolding check_vote_body
  check_vote_body-Takes sent b d = elim (Option-cases (vote_option sent)) [
    | inl e ↦ rw e (Takes-pure OfThis before _ (refused _ (inl refl)))
    | inr (option, o) ↦ elim (Option-cases (vote_rationale sent)) [
      | inl e ↦ rw (o, e) (Takes-pure OfThis before _ (refused _ (inl refl)))
      | inr (rationale, r) ↦ rw (o, r) (accept_vote-Takes sent option rationale b o r d)
    ]
  ]

read_vote_body-Takes :
    (E : Env) (client : Option String) (did : String) (body : Option Json) (before : List Write)
    → has_prefix "did:" did ≡ true
    → Takes E client did body before (read_vote_body E client did body)
read_vote_body-Takes E client did none before d =
    Takes-pure (OfPoll E client did none before) before _ (refused _ (inl refl))
read_vote_body-Takes E client did (some null) before d =
    Takes-throw (OfPoll E client did (some null) before) before type_error (refl, refl)
read_vote_body-Takes E client did (some sent) before d =
    check_vote_body-Takes E client did (some sent) before sent refl d

-- From every state, a vote for a worker that polls is answered as `Polled` says, or the body is null, and
-- the handler throws with nothing written. With the code 400 or 403 nothing is written. Otherwise the DID
-- begins with "did:" and is active in the registry's answer, and the body holds an option that is a text,
-- not empty, and no rationale that is something else than a text. With the code 502 the client of the
-- memory cannot be made, and nothing is written; with the code 200 it is made, and exactly this vote is
-- written, under the key of the worker's result.
pub poll_vote_route-Polled :
    (E : Env) (client : Option String) (did : String) (body : Option Json) (s : Proc)
    → LedOf add_write
        (OfPoll E client did body (writes s.history))
        (poll_vote_route E client did body s)
unfolding poll_vote_route pure
poll_vote_route-Polled E client did body s = elim (Bool-cases (has_prefix "did:" did)) [
  | inl good ↦ rw good ((read_vote_body-Takes E client did body (writes s.history) good).at s refl)
  | inr bad ↦ rw bad (refused _ (inl refl))
]

-- Where the text of a vote that the route has written is not empty and is parsed to the vote again, the
-- coordinator finds in it the option as the vote, and records it under the DID, if that is not empty and
-- has no slash.
pub vote_json-submission_of :
    (E : Env) (did option rationale at : String)
    → E.codec.parse (E.codec.stringify (vote_json option rationale at))
      ≡ some (vote_json option rationale at)
    → is_empty (E.codec.stringify (vote_json option rationale at)) ≡ false
    → is_empty did ≡ false
    → has_slash did ≡ false
    → extract_vote (vote_json option rationale at) ≡ ok (some (str option))
      × submission_of E
          (worker_keys did).result
          (some (E.codec.stringify (vote_json option rationale at)))
        ≡ some (record {
          worker_id = str did;
          result_hash = E.sha256 (E.codec.stringify (vote_json option rationale at));
        })
unfolding extract_vote submission_of submission_from
vote_json-submission_of E did option rationale at read_back filled full plain =
    (refl, rw (filled, read_back, extract_worker_id-worker_keys did full plain, full) refl)
