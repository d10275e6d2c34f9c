-- ===== src/Agent/Work.antt =====
-- A task of the worker: performWork and executeTask of worker-agent/src/workers/task-handler.ts. The DID
-- of the worker is an argument, `none` until it is initialized. A parameter that is to be a number and
-- is not counts as missing.
use text.Mathlib.Text.{◌==◌}
use delibera_xyz.Prelude.{
  ℕ, ◌+◌, ◌-◌, ◌*◌, String, Bool, true, false, Option, none, some, [], ◌∷◌, ◌++◌, if◌then◌else◌,
}
use delibera_xyz.Prelude.Text.{◌<>◌, set_text}
use delibera_xyz.Json.{
  number_or_else, value_or_else, Json, null, num, str, object, member, member?, given, truthy?,
  template_text,
}
use delibera_xyz.Ensue.Keys.{worker_keys, coordinator_proposal_id}
use delibera_xyz.Host.{
  Problem, error, type_error, Prog, pure, throw, ok, threw, out_of_fuel, Outcome, Proc, ◌>>=◌, ◌>>◌,
  maybe,
}
use delibera_xyz.Coordinator.Memory.{read_memory, clock, update_memory, sleep}
use delibera_xyz.Agent.Services.{
  Services, AgentConfig, fetch_manifesto, load_identity, record_decision, draw,
}
use delibera_xyz.Agent.Voting.{AiVoteResult, ai_vote}

pub record WorkResult : Type 0 where
  pub value : Json
  pub vote : Option Json
  pub reasoning : Option Json
  pub verification_proof : Option Json

abbrev only_value : Json → WorkResult
only_value j = record { value = j; vote = none; reasoning = none; verification_proof = none }

-- `config.parameters?.k`
abbrev pub parameter : String → Json → Option Json
parameter k config = member? k (member "parameters" config)

-- `voteResult.reasoning.substring(…)` throws on what is no text.
abbrev pub is_string : Json → Bool
is_string (str s) = true
is_string j = false

unfoldable pub vote_value : String → Json
vote_value vote = if vote == "Approved" then num 1 else num 0

module _ (V : Services) (c : AgentConfig) where
  -- The id under which the decision is recorded.
  unfoldable pub decision_id : Json → Prog String
  decision_id config =
      if truthy? (parameter "proposalId" config)
      then pure (template_text V.env.codec (value_or_else (parameter "proposalId" config) null))
      else (do
        on_chain ← read_memory V.env coordinator_proposal_id
        maybe (set_text on_chain)
            (do now ← clock V.env; pure ("proposal-" <> V.env.codec.decimal now)) (λ id. pure id))

  unfoldable pub vote_result : Json → AiVoteResult → Prog WorkResult
  unfolding decision_id vote_value
  vote_result config voted =
      if is_string voted.reasoning
      then (do
        id ← decision_id config
        record_decision V id
        pure (record {
          value = vote_value voted.vote;
          vote = some (str voted.vote);
          reasoning = some voted.reasoning;
          verification_proof = voted.verification_proof;
        }))
      else throw type_error

  unfoldable pub perform_vote : Json → Prog WorkResult
  unfolding ai_vote vote_result
  perform_vote config =
      if truthy? (parameter "proposal" config)
      then (do
        found ← fetch_manifesto V
        maybe found (throw (error "Could not fetch manifesto from contract")) (λ manifesto. do
          context ← load_identity V
          voted ←
              ai_vote V c manifesto.text
                (template_text V.env.codec (value_or_else (parameter "proposal" config) null))
                context
          vote_result config voted))
      else throw (error "Vote task requires parameters.proposal")

  unfoldable pub perform_random : Json → Prog WorkResult
  perform_random config = do
    extra ← draw V (number_or_else (member "timeout" config) 3000)
    sleep (1000 + extra)
    value ← draw V 100
    pure (only_value (num value))

  unfoldable pub perform_other : Prog WorkResult
  perform_other = do value ← draw V 100; pure (only_value (num value))

  -- The tasks that are no vote.
  unfoldable pub perform_plain : String → Json → Prog WorkResult
  unfolding perform_random perform_other
  perform_plain type config =
      if type == "random"
      then perform_random config
      else (if type == "count"
          then pure (only_value (value_or_else (parameter "count" config) (num 42)))
          else (if type == "multiply"
              then pure (
                  only_value (
                    num (
                      number_or_else (parameter "a" config) 1
                      * number_or_else (parameter "b" config) 1)))
              else perform_other))

  unfoldable pub perform_typed : Option Json → Json → Prog WorkResult
  unfolding perform_vote perform_plain perform_other
  perform_typed (some (str type)) config =
      if type == "vote" then perform_vote config else perform_plain type config
  perform_typed type config = perform_other

  unfoldable pub perform_work : Json → Prog WorkResult
  unfolding perform_typed
  perform_work null = throw type_error
  perform_work config = perform_typed (member "type" config) config

  -- The JSON that is stored. The fields that are undefined are left out.
  unfoldable pub worker_result :
      (did : String) (config : Json) (r : WorkResult) (at : String) (time : ℕ) → Json
  worker_result did config r at time = object (
      ("workerId", str did)
      ∷ (given "taskType" (member "type" config)
          ++ (
            "output",
            object (
                ("value", r.value)
                ∷ (given "vote" r.vote
                    ++ given "reasoning" r.reasoning
                    ++ ("data", object (given "parameters" (member "parameters" config)))
                      ∷ ("computedAt", str at)
                      ∷ [])),
          )
            ∷ ("processingTime", num time)
            ∷ []))

  unfoldable pub store_proof : String → Option Json → Prog (Unit {0})
  store_proof did proof =
      maybe proof (pure tt)
        (λ p. update_memory (worker_keys did).verification_proof (V.env.codec.stringify p))

  -- From the result on.
  unfoldable pub store_result : (did text : String) → Option Json → Prog (Unit {0})
  unfolding store_proof
  store_result did text proof = do
    update_memory (worker_keys did).result text
    store_proof did proof
    done ← clock V.env
    update_memory (worker_keys did).timestamp (V.env.codec.decimal done)
    update_memory (worker_keys did).status "completed"

  -- From the work on. The clock does not run back, so that no difference is negative.
  unfoldable pub do_task : String → Json → Prog (Unit {0})
  unfolding perform_work worker_result store_result
  do_task did config = do
    update_memory (worker_keys did).status "processing"
    start ← clock V.env
    result ← perform_work config
    end ← clock V.env
    now ← clock V.env
    store_result did
        (V.env.codec.stringify (worker_result did config result (V.env.iso now) (end - start)))
        result.verification_proof

  abbrev pub message_of : Problem → String
  message_of (error m) = m
  message_of type_error = V.type_error_message

  unfoldable pub report : String → Problem → Prog (Unit {0})
  report did p = do
    update_memory (worker_keys did).error (message_of p)
    update_memory (worker_keys did).status "failed"

  -- The catch clause, which reads the error.
  abbrev pub reported : String → Outcome (Unit {0}) × Proc → Outcome (Unit {0}) × Proc
  reported did (ok a, s) = (ok a, s)
  reported did (threw p, s) = report did p s
  reported did (out_of_fuel, s) = (out_of_fuel, s)

  unfoldable pub execute_task : Option String → Json → Prog (Unit {0})
  unfolding do_task report
  execute_task none config s =
      (threw (error "Worker DID not initialized — call initializeWorker() first"), s)
  execute_task (some did) config s = reported did (do_task did config s)
