-- ===== src/Coordinator/World.antt =====
-- Surroundings for the tests: two polling workers that vote for the proposal at once, a chain that
-- accepts every call, and a clock that moves with the timers.
use text.Mathlib.Text.{◌==◌}
use delibera_xyz.Prelude.{
  ℕ, ◌+◌, ◌≤◌, String, true, false, Option, none, some, List, [], ◌∷◌, arith, if◌then◌else◌,
}
use delibera_xyz.Json.{Json, str, object}
use delibera_xyz.Host.{Env, ClockRuns, Config, Event, slept, called, accepted, unreachable, Proc}

abbrev pub vote_for : Json
vote_for = object (("output", object (("vote", str "Approved") ∷ [])) ∷ [])

abbrev pub clock_at : List Event → ℕ
clock_at [] = 1000
clock_at (slept ms ∷ h) = clock_at h + ms
clock_at (e ∷ h) = clock_at h

abbrev proposal_after : List Event → Option ℕ
proposal_after [] = some 6
proposal_after (called c ∷ h) = some 7
proposal_after (e ∷ h) = proposal_after h

abbrev memory : String → Option String
memory key =
    if key == "coordination/tasks/ann/status"
    then some "completed"
    else (if key == "coordination/tasks/ben/status"
        then some "completed"
        else (if key == "coordination/tasks/ann/result"
            then some "yes"
            else (if key == "coordination/tasks/ben/result" then some "yes" else none)))

abbrev pub world : Env
world = record {
  codec = record {
    parse = λ s. if s == "yes" then some vote_for else none;
    stringify = λ j. "text";
    decimal = λ n. "7";
  };
  sha256 = λ s. s;
  hmac = λ k s. s;
  iso = λ n. "2025-01-01T00:00:00.000Z";
  read = λ h k. memory k;
  read_multiple = λ h ks k. memory k;
  now = clock_at;
  uuid = λ h. "id";
  registry = λ h. none;
  fetch = λ h u. unreachable;
  post = λ h u g b. unreachable;
  call = λ h c. accepted;
  current_proposal_id = proposal_after;
  proposal_state = λ h n. none;
  finalized = λ h n. none;
  pending = λ h. none;
}

abbrev pub config : Config
config = record {
  local_mode = true;
  workers = some "ann|ensue://a, ben|ensue://b";
  min_workers = 1;
  max_workers = 10;
  webhook_secret = "";
  vault_configured = false;
}

abbrev pub fresh : Proc
fresh = record { history = []; names = []; checks = [] }

forward_le : (e : Event) (h : List Event) → clock_at h ≤ clock_at (e ∷ h)
forward_le (slept ms) h = omega arith
forward_le e h = omega arith

pub world_runs : ClockRuns world
world_runs = record { forward = forward_le; timer = λ ms h. omega arith }
