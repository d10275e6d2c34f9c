-- ===== src/Agent/Voting.antt =====
-- The model's vote: worker-agent/src/workers/ai-voter.ts.
use text.Mathlib.Text.{◌==◌}
use delibera_xyz.Prelude.{
  ℕ, String, ◌||◌, Option, none, some, List, [], ◌∷◌, ◌++◌, length, get_elem?, ltb, if◌then◌else◌,
}
use delibera_xyz.Prelude.Text.{◌<>◌, is_empty, size, split}
use delibera_xyz.Json.{
  Json, null, num, str, arr, obj, list_of, find_field, object, member, given, template_text,
}
use delibera_xyz.Host.{
  Reply, unreachable, response, error, type_error, Outcome, ok, threw, out_of_fuel, Prog, pure,
  throw, lift, try_catch, maybe, ◌>>=◌,
}
use delibera_xyz.Coordinator.Memory.{fetch, clock}
use delibera_xyz.Agent.Services.{
  Services, ToolCall, Completion, no_completion, completion, AgentConfig, first_set,
  create_completion, draw_nonce,
}

pub record AiVoteResult : Type 0 where
  pub vote : String
  pub reasoning : Json
  pub verification_proof : Option Json

abbrev pub model_name : String
model_name = "deepseek-ai/DeepSeek-V3.1"

unfoldable pub user_message : (manifesto proposal : String) → Option String → String
user_message manifesto proposal context =
    let prefix : String = elim context [
      | none ↦ ""
      | some c ↦ if is_empty c then "" else c <> "\n\n"
    ] in
    prefix <> ("=== DAO MANIFESTO ===\n" <> (manifesto <> ("\n\n=== PROPOSAL ===\n" <> proposal)))

-- `v.length`, where undefined and null throw and most values have none.
abbrev pub length_of : Option Json → Outcome (Option ℕ)
length_of none = threw type_error
length_of (some null) = threw type_error
length_of (some (str s)) = ok (some (size s))
length_of (some (arr xs)) = ok (some (length (list_of xs)))
length_of (some (obj fs)) = elim (find_field "length" fs) [
  | some (num n) ↦ ok (some n)
  | _ ↦ ok none
]
length_of (some j) = ok none

-- What is kept of a value that has passed `length_of`.
abbrev pub value_of : Option Json → Json
value_of none = null
value_of (some j) = j

module _ (V : Services) where
  abbrev pub shown : Option Json → String
  shown none = "undefined"
  shown (some j) = template_text V.env.codec j

  unfoldable pub check_reasoning :
      String → Option Json → Outcome (Option ℕ) → Outcome (String × Json)
  check_reasoning vote reasoning (ok none) = ok (vote, value_of reasoning)
  check_reasoning vote reasoning (ok (some n)) =
      if ltb 10000 n
      then threw (error ("AI reasoning too long: " <> (V.env.codec.decimal n <> " chars")))
      else ok (vote, value_of reasoning)
  check_reasoning vote reasoning (threw p) = threw p
  check_reasoning vote reasoning out_of_fuel = out_of_fuel

  abbrev pub invalid_vote : String → Outcome (String × Json)
  invalid_vote shown =
      threw (error ("Invalid vote: \"" <> (shown <> "\". Must be \"Approved\" or \"Rejected\"")))

  -- The fields `vote` and `reasoning`.
  unfoldable pub check_fields : Option Json → Option Json → Outcome (String × Json)
  unfolding check_reasoning
  check_fields (some (str s)) reasoning =
      if s == "Approved" || s == "Rejected"
      then check_reasoning s reasoning (length_of reasoning)
      else invalid_vote s
  check_fields vote reasoning = invalid_vote (shown vote)

  -- The arguments of the tool call.
  unfoldable pub check_vote : Json → Outcome (String × Json)
  unfolding check_fields
  check_vote null = threw type_error
  check_vote raw = check_fields (member "vote" raw) (member "reasoning" raw)

  unfoldable pub read_tool_call : Option ToolCall → Outcome (String × Json)
  unfolding check_vote
  read_tool_call none = threw (error "Expected function tool call response from AI")
  read_tool_call (some call) =
      if call.type == "function"
      then (elim (V.env.codec.parse call.arguments) [
        | none ↦ threw (error (V.syntax_error_message call.arguments))
        | some raw ↦ check_vote raw
      ])
      else threw (error "Expected function tool call response from AI")

  -- The parts of the field `text`, "request_hash:response_hash".
  unfoldable pub hashes : Json → Outcome (List String)
  unfolding split
  hashes sig = elim (member "text" sig) [
    | some (str s) ↦ ok (split b':' s)
    | other ↦ threw type_error
  ]

  abbrev pub part : List String → ℕ → Option Json
  part parts i = elim (get_elem? parts i) [ none ↦ none | some h ↦ some (str h) ]

  abbrev pub proof_fields : String → List String → ℕ → Json → List (String × Json)
  proof_fields chat_id parts now sig =
      ("chat_id", str chat_id)
      ∷ ("model", str model_name)
      ∷ (given "request_hash" (part parts 0)
          ++ given "response_hash" (part parts 1)
          ++ given "signature" (member "signature" sig)
          ++ given "signing_address" (member "signing_address" sig)
          ++ given "signing_algo" (member "signing_algo" sig)
          ++ ("timestamp", num now) ∷ [])

  -- The JSON of a response that is ok. The messages are only logged, and leave the body of an error out.
  unfoldable pub json_of : String → Reply → Outcome Json
  json_of name unreachable = threw type_error
  json_of name (response good status body) =
      if good
      then (elim body [ none ↦ threw (error (V.syntax_error_message "")) | some j ↦ ok j ])
      else threw (error (name <> (" API returned " <> V.env.codec.decimal status)))

  unfoldable pub fetch_verification_proof : String → Prog (List (String × Json))
  unfolding hashes json_of
  fetch_verification_proof chat_id = do
    reply ← fetch V.env (
        "https://cloud-api.near.ai/v1/signature/"
        <> (V.encode chat_id <> ("?model=" <> (V.encode model_name <> "&signing_algo=ecdsa"))))
    sig ← lift (json_of "Signature" reply)
    parts ← lift (hashes sig)
    now ← clock V.env
    pure (proof_fields chat_id parts now sig)

  unfoldable pub attestation_fields : String → Json → Outcome Json
  attestation_fields nonce null = threw type_error
  attestation_fields nonce report = ok (
      object (
        given "signing_address" (member "signing_address" report)
        ++ ("model", str model_name)
          ∷ ("nonce", str nonce)
          ∷ (given "attestation_report" (member "attestation_report" report)
              ++ given "attestation_type" (member "attestation_type" report))))

  unfoldable pub fetch_model_attestation : Prog Json
  unfolding attestation_fields json_of
  fetch_model_attestation = do
    nonce ← draw_nonce V
    reply ← fetch V.env (
        "https://cloud-api.near.ai/v1/attestation/report?model="
        <> (V.encode model_name <> ("&signing_algo=ecdsa&nonce=" <> nonce)))
    report ← lift (json_of "Attestation" reply)
    lift (attestation_fields nonce report)

  -- A proof without its attestation is kept, and a vote without a proof.
  unfoldable pub proof_of : String → Prog (Option Json)
  unfolding fetch_verification_proof fetch_model_attestation
  proof_of chat_id =
      if is_empty chat_id
      then pure none
      else try_catch
          (do
            proof ← fetch_verification_proof chat_id
            try_catch
                (do
                  attestation ← fetch_model_attestation
                  pure (some (object (proof ++ ("attestation", attestation) ∷ []))))
                (pure (some (object proof))))
          (pure none)

  unfoldable pub read_completion : Completion → Prog AiVoteResult
  unfolding read_tool_call proof_of
  read_completion (no_completion p) = throw p
  read_completion (completion id tool_call) = do
    voted ← lift (read_tool_call tool_call)
    proof ← proof_of id
    pure (record { vote = voted.0; reasoning = voted.1; verification_proof = proof })

  unfoldable pub ai_vote :
      AgentConfig → (manifesto proposal : String) → Option String → Prog AiVoteResult
  unfolding user_message read_completion
  ai_vote c manifesto proposal context =
      maybe (first_set c.near_ai_api_key (first_set c.near_api_key none))
        (throw (error "NEAR_AI_API_KEY or NEAR_API_KEY environment variable is not set"))
        (λ key. do
          answer ← create_completion V (user_message manifesto proposal context)
          read_completion answer)
