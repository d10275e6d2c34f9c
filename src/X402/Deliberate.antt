-- ===== src/X402/Deliberate.antt =====
-- coordinator-agent/src/x402/x402-deliberate.ts: the check of the request, the task for the
-- coordination, what its end does to the store, and the answer to the buyer.
use delibera_xyz.Prelude.{
  ℕ, zero, suc, String, Option, none, some, List, [], ◌∷◌, ◌++◌, ltb, if◌then◌else◌,
}
use delibera_xyz.Prelude.Text.{◌<>◌, is_empty, trim, size}
use delibera_xyz.Json.{Json, null, num, str, object, member, member?, given}
use delibera_xyz.Host.{Problem, Outcome, ok, threw, out_of_fuel}
use delibera_xyz.Host.Answers.{Response, error_response}
use delibera_xyz.Coordinator.Tally.{TallyResult}
use delibera_xyz.Coordinator.Aggregation.{tally_json}
use delibera_xyz.X402.Store.{
  VerdictStatus, pending, completed, failed, VerdictRecord, Updates, no_updates, Store,
  update_record,
}

-- What becomes of a request: an answer at once, an exception of the handler, or a deliberation.
pub data Request : Type 0 where
  refused : Response → Request
  crashed : Request
  accepted : (proposal : String) (context : Option Json) → Request

abbrev pub check_proposal : String → Option Json → Request
check_proposal proposal context =
    if is_empty proposal
    then refused (error_response 400 "proposal is required (non-empty string)")
    else (if ltb 8000 (size proposal)
        then refused (error_response 400 "proposal too long (max 8000 characters)")
        else accepted proposal context)

-- `(body.proposal ?? '').trim()`: a proposal that is no text has no `trim`.
abbrev pub check_field : Option Json → Option Json → Request
check_field none context = check_proposal "" context
check_field (some null) context = check_proposal "" context
check_field (some (str s)) context = check_proposal (trim s) context
check_field (some j) context = crashed

-- The body of the request, if it is JSON.
unfoldable pub check_request : Option Json → Request
unfolding trim
check_request none = refused (error_response 400 "Request body must be valid JSON")
check_request (some null) = crashed
check_request (some body) = check_field (member "proposal" body) (member "context" body)

abbrev or_else : Option Json → Json → Json
or_else none d = d
or_else (some null) d = d
or_else (some j) d = j

-- The task that the coordination loop is given.
unfoldable pub task_config : String → String → Option Json → Json
task_config id proposal context = object (
    ("type", str "vote")
    ∷ ("x402DeliberationId", str id)
    ∷ ("proposal", str proposal)
    ∷ (
      "parameters",
      object (
          ("proposal", str proposal)
          ∷ ("context", or_else context (object []))
          ∷ given "voting_config" (member? "voting_config" context)),
    )
    ∷ [])

abbrev pub null_tally : String
null_tally =
    "Coordination returned null (timeout, insufficient workers, or contract resume failed — check coordinator logs)"

-- What the end of the coordination changes in the record; `none` while it runs.
unfoldable pub deliberation_updates :
    (Problem → String) → Outcome (Option TallyResult) → Option Updates
deliberation_updates message (ok none) =
    some (record no_updates { status = some failed; error = some null_tally })
deliberation_updates message (ok (some tally)) = some (record no_updates {
  status = some completed;
  verdict = some tally;
  near_proposal_id = some tally.proposal_id;
})
deliberation_updates message (threw p) =
    some (record no_updates { status = some failed; error = some (message p) })
deliberation_updates message out_of_fuel = none

-- runDeliberation, from the end of the coordination on.
unfoldable pub run_deliberation :
    (message : Problem → String) (id : String) (r : Outcome (Option TallyResult)) (now : ℕ)
    → Store
    → Option VerdictRecord × Store
unfolding deliberation_updates update_record
run_deliberation message id r now m = elim (deliberation_updates message r) [
  | none ↦ (none, m)
  | some u ↦ update_record id u now m
]

abbrev pub status_text : VerdictStatus → String
status_text pending = "pending"
status_text completed = "completed"
status_text failed = "failed"

abbrev pub text_or_null : Option String → Json
text_or_null none = null
text_or_null (some s) = str s

abbrev pub number_or_null : Option ℕ → Json
number_or_null none = null
number_or_null (some n) = num n

-- `record.completedAt ? new Date(record.completedAt).toISOString() : null`
abbrev pub time_or_null : (ℕ → String) → Option ℕ → Json
time_or_null iso none = null
time_or_null iso (some zero) = null
time_or_null iso (some (suc n)) = str (iso (suc n))

abbrev pub verdict_field : Option TallyResult → List (String × Json)
verdict_field none = []
verdict_field (some t) = ("verdict", tally_json t) ∷ []

abbrev error_field : Option String → List (String × Json)
error_field none = []
error_field (some s) = ("error", str s) ∷ []

-- The fields of a record that both handlers answer with.
abbrev pub base_fields : (ℕ → String) → VerdictRecord → List (String × Json)
base_fields iso r =
    ("deliberationId", str r.id)
    ∷ ("status", str (status_text r.status))
    ∷ ("proposal", str r.proposal)
    ∷ ("stellarPaymentTx", text_or_null r.stellar_payment_tx)
    ∷ ("nearProposalId", number_or_null r.near_proposal_id)
    ∷ ("createdAt", str (iso r.created_at))
    ∷ ("completedAt", time_or_null iso r.completed_at)
    ∷ []

unfoldable pub serialize_record : (ℕ → String) → VerdictRecord → Json
serialize_record iso r =
    object (base_fields iso r ++ (verdict_field r.verdict ++ error_field r.error))

-- The answer where the await window is over first.
abbrev still_running : (ℕ → String) → String → VerdictRecord → Response
still_running iso window r = record {
  code = 202;
  body = object (
      ("deliberationId", str r.id)
      ∷ ("status", str "pending")
      ∷ ("statusUrl", str ("/x402/verdict/" <> r.id))
      ∷ ("verdictUrl", str ("/x402/verdict/" <> r.id))
      ∷ ("stellarPaymentTx", text_or_null r.stellar_payment_tx)
      ∷ ("createdAt", str (iso r.created_at))
      ∷ (
        "message",
        str (
            "Coordination exceeded the "
            <> (window
                <> ("s await window. Poll GET /x402/verdict/"
                    <> (r.id <> " to retrieve the result.")))),
      )
      ∷ []);
}

-- The answer of the handler: `created` is the record it made, and `finished` the one that the
-- coordination ended with, if it won the race against the timer.
unfoldable pub deliberate_response :
    (iso : ℕ → String) (window : String) (created : VerdictRecord) (finished : Option VerdictRecord)
    → Response
unfolding serialize_record
deliberate_response iso window created none = still_running iso window created
deliberate_response iso window created (some r) = elim r.status [
  | pending ↦ still_running iso window created
  | completed ↦ record { code = 200; body = serialize_record iso r }
  | failed ↦ record { code = 422; body = serialize_record iso r }
]
