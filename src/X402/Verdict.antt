-- ===== src/X402/Verdict.antt =====
-- coordinator-agent/src/x402/x402-verdict.ts: GET /x402/verdict/:id.
use delibera_xyz.Prelude.{ℕ, String, Option, none, some, [], ◌∷◌, ◌++◌}
use delibera_xyz.Json.{str, object}
use delibera_xyz.X402.Store.{pending, completed, failed, VerdictRecord, Store, get_record}
use delibera_xyz.Host.Answers.{Response}
use delibera_xyz.X402.Deliberate.{base_fields, verdict_field}

abbrev error_or : Option String → String
error_or none = "Deliberation failed with no error message"
error_or (some s) = s

abbrev not_found : String → Response
not_found id = record {
  code = 404;
  body = object (
      ("error", str "Deliberation not found")
      ∷ ("id", str id)
      ∷ (
        "hint",
        str
            "The id may be invalid or from a previous server instance (verdict store is in-memory).",
      )
      ∷ []);
}

unfoldable pub record_response : (ℕ → String) → VerdictRecord → Response
record_response iso r = elim r.status [
  | pending ↦ record {
    code = 202;
    body = object (
        base_fields iso r
        ++ (("message", str "Workers are still deliberating. Retry in a few seconds.") ∷ []));
  }
  | failed ↦ record {
    code = 422;
    body = object (base_fields iso r ++ (("error", str (error_or r.error)) ∷ []));
  }
  | completed ↦ record { code = 200; body = object (base_fields iso r ++ verdict_field r.verdict) }
]

unfoldable pub verdict_response : (ℕ → String) → String → Store → Response
unfolding record_response
verdict_response iso id m = elim (get_record id m) [
  | none ↦ not_found id
  | some r ↦ record_response iso r
]
