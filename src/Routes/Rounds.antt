-- ===== src/Routes/Rounds.antt =====
-- POST trigger and POST reset of coordinator-agent/src/routes/coordinate.ts. The round that a request
-- triggers is not awaited: the handler returns it beside the answer, as a program that runs on its own. In
-- the code it begins before the time of the answer is read.
use delibera_xyz.Prelude.{ℕ, String, Option, none, some, List, [], ◌∷◌}
use delibera_xyz.Json.{Json, null, num, str, object, member, value_or_else}
use delibera_xyz.Ensue.Keys.{worker_keys}
use delibera_xyz.Host.{
  Env, Config, Event, error, type_error, Outcome, ok, threw, out_of_fuel, Prog, pure, emit,
  try_catch, ◌>>=◌, ◌>>◌,
}
use delibera_xyz.Host.Answers.{Response, Engine, details_response}
use delibera_xyz.Coordinator.Memory.{clock, update_memory}
use delibera_xyz.Coordinator.Rounds.{trigger_local_coordination}
use delibera_xyz.Routes.Validation.{get_worker_dids}

abbrev default_task : Json
default_task = object (("type", str "random") ∷ ("timeout", num 3000) ∷ [])

unfoldable pub set_idle : List String → Prog (Unit {0})
set_idle [] = pure tt
set_idle (did ∷ dids) = do update_memory (worker_keys did).status "idle"; set_idle dids

module _ (E : Env) (J : Engine) where
  -- The task as a JSON text, which it may be already.
  abbrev pub task_text : Json → String
  task_text (str s) = s
  task_text j = E.codec.stringify j

  unfoldable pub trigger_text : Option Json → Outcome String
  trigger_text none = threw (error J.syntax_error)
  trigger_text (some null) = threw type_error
  trigger_text (some body) = ok (task_text (value_or_else (member "taskConfig" body) default_task))

  abbrev pub triggered_response : String → ℕ → Response
  triggered_response text now = record {
    code = 200;
    body = object (
        ("message", str "Coordination triggered")
        ∷ ("taskConfig", str text)
        ∷ ("timestamp", str (E.iso now))
        ∷ []);
  }

  -- The round in the background, whose errors are logged.
  unfoldable pub background_round : Config → String → Prog (Unit {0})
  unfolding trigger_local_coordination try_catch
  background_round c text =
      try_catch (do _ ← trigger_local_coordination E c text; pure tt) (pure tt)

  -- The answer, and the round that is started, if one is.
  unfoldable pub trigger_route : Config → Option Json → Prog (Response × Option (Prog (Unit {0})))
  unfolding trigger_text background_round
  trigger_route c body = elim (trigger_text body) [
    | ok text ↦ do now ← clock E; pure (triggered_response text now, some (background_round c text))
    | threw p ↦ pure (details_response 500 "Failed to trigger coordination" (J.describe p), none)
    | out_of_fuel ↦ λ s. (out_of_fuel, s)
  ]

  -- clearPrefix does not throw; the other keys of the coordinator are gone afterwards.
  unfoldable pub reset_route : Config → Prog Response
  unfolding get_worker_dids set_idle
  reset_route c = do
    emit (Event.asked "clear_prefix" "coordination/coordinator/") (λ h. tt)
    dids ← get_worker_dids E c
    set_idle dids
    now ← clock E
    pure (record {
      code = 200;
      body =
          object (("message", str "Memory reset complete") ∷ ("timestamp", str (E.iso now)) ∷ []);
    })
