-- ===== src/Mcp/Tests.antt =====
-- Sessions, requests and runs at concrete inputs. The transports are named by texts.
use text.Mathlib.TextEquality.{eq_iff}
use delibera_xyz.Prelude.{
  ◌≡◌, refl, String, Bool, true, false, Option, none, some, List, [], ◌∷◌, arith, if◌then◌else◌,
}
use delibera_xyz.Prelude.Maps.{find, store}
use delibera_xyz.Json.{Json, null}
use delibera_xyz.Mcp.Sessions.{
  SessionStore, SessionStoreOptions, new_session_store, has, touch, register, sweep, is_idle,
  is_at_capacity,
}
use delibera_xyz.Mcp.Reachable.{
  Action, registering, removing, sweeping, step, run, IsValid, run-new_session_store-IsValid,
}
use delibera_xyz.Mcp.Sweeping.{is_overdue, lists, sweep-is_overdue}
use delibera_xyz.Mcp.Surviving.{run-touch-has, register-sweep}
use delibera_xyz.Mcp.Requests.{
  refused, initializing, is_mcp_path, new_session, handle_request, on_session_initialized,
}
use delibera_xyz.Mcp.Admission.{handle_request-on_session_initialized}

abbrev small : SessionStoreOptions
small = record { max_sessions = some 2; idle_ttl_ms = some 100 }

abbrev Actions : Type 0
Actions = List (Action String String)

abbrev busy : Actions
busy =
    registering 10 "a" "ta" "sa" ∷ registering 20 "b" "tb" "sb" ∷ registering 30 "c" "tc" "sc" ∷ []

-- Two sessions, of which the first is idle at the time 115.
abbrev two : SessionStore String String
two = record {
  sessions =
      ("a", record { transport = "ta"; server = "sa"; last_activity = 10 })
      ∷ ("b", record { transport = "tb"; server = "sb"; last_activity = 20 })
      ∷ [];
  max_sessions = 2;
  idle_ttl_ms = 100;
}

two-IsValid : IsValid two
unfolding find
two-IsValid = record { bounded = omega arith; distinct = (refl, (refl, tt)) }

busy-run : run busy (new_session_store small) ≡ two
unfolding run step register is_at_capacity store new_session_store
busy-run = refl

two-sweep : (sweep 115 two).0 ≡ "a" ∷ []
unfolding sweep is_idle
two-sweep = refl

-- A session is idle only after the whole idle time.
early-sweep : (sweep 110 two).0 ≡ []
unfolding sweep is_idle
early-sweep = refl

abbrev starts : Option Json → Bool
starts none = false
starts (some j) = true

refused_at_capacity :
    new_session starts true (some null) two
    ≡ refused 503 "Server at capacity — too many active sessions"
unfolding new_session is_at_capacity
refused_at_capacity = refl

run-new_session_store-IsValid_example : IsValid (run busy (new_session_store small))
run-new_session_store-IsValid_example = run-new_session_store-IsValid small busy

sweep-is_overdue_example :
    lists "a" (sweep 115 two).0 ≡ is_overdue 115 "a" two
    × find "a" (sweep 115 two).1.sessions
      ≡ (if is_overdue 115 "a" two then none else find "a" two.sessions)
sweep-is_overdue_example = sweep-is_overdue 115 "a" two two-IsValid

two-has : has "b" two ≡ true
unfolding has find
two-has = refl

a-has : has "a" two ≡ true
unfolding has find
a-has = refl

abbrev later : Actions
later = sweeping 115 ∷ removing "a" ∷ sweeping 125 ∷ []

run-touch-has_example : has "b" (run later (touch 30 "b" two).1) ≡ true
run-touch-has_example =
    run-touch-has 30 "b" later two two-IsValid two-has
      (omega arith, ((λ e. ground (arith, (eq_iff "a" "b").1 e)), (omega arith, tt)))

register-sweep_example :
    (register 201 "c" "tc" "sc" (sweep 200 two).1).0 ≡ true
    × has "c" (register 201 "c" "tc" "sc" (sweep 200 two).1).1 ≡ true
register-sweep_example =
    register-sweep 200 201 "c" "tc" "sc" two (omega arith) (omega arith, (omega arith, tt))

abbrev empty : SessionStore String String
empty = record { sessions = []; max_sessions = 2; idle_ttl_ms = 100 }

begins :
    (handle_request starts 40 "/mcp" (some "old") (some (some null)) true empty).0 ≡ initializing
unfolding handle_request is_mcp_path touch new_session is_at_capacity find
begins = refl

handle_request-on_session_initialized_example :
    (handle_request starts 40 "/mcp" (some "old") (some (some null)) true empty).1 ≡ empty
    × (on_session_initialized 41 "a" "ta" "sa" empty).0 ≡ false
    × has "a" (on_session_initialized 41 "a" "ta" "sa" empty).1 ≡ true
handle_request-on_session_initialized_example =
    handle_request-on_session_initialized starts 40 41 "/mcp" "a" (some "old") (some (some null))
      true "ta" "sa" empty begins
