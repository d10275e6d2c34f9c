-- ===== src/Mcp/Reachable.antt =====
-- Sequences of operations on the SessionStore of ensue-mcp-server/src/session-store.ts: the requests,
-- the callbacks of the transports and the timer of the sweep may come in any order.
use delibera_xyz.Prelude.{
  ℕ, ◌≤◌, String, not, List, [], ◌∷◌, arith, length, length-filter-le, leb, Bool-cases,
  Option-cases, inl, inr,
}
use delibera_xyz.Prelude.Maps.{
  find, IsDistinct, store-IsDistinct, discard-IsDistinct, filter-IsDistinct, length-store_found,
  length-store_le, length-discard_le,
}
use delibera_xyz.Mcp.Sessions.{
  SessionEntry, SessionStoreOptions, SessionStore, new_session_store, is_at_capacity, touch,
  register, remove, sweep, is_idle,
}

-- One operation, at the time that the clock shows then.
pub data Action (T S : Type 0) : Type 0 where
  touching : (now : ℕ) (id : String) → Action T S
  registering : (now : ℕ) (id : String) (transport : T) (server : S) → Action T S
  removing : (id : String) → Action T S
  sweeping : (now : ℕ) → Action T S

module _ {T S : Type 0} where
  unfoldable pub step : Action T S → SessionStore T S → SessionStore T S
  unfolding touch register remove sweep
  step (touching now id) s = (touch now id s).1
  step (registering now id transport server) s = (register now id transport server s).1
  step (removing id) s = (remove id s).1
  step (sweeping now) s = (sweep now s).1

  unfoldable pub run : List (Action T S) → SessionStore T S → SessionStore T S
  unfolding step
  run [] s = s
  run (a ∷ acts) s = run acts (step a s)

  -- No more sessions than allowed, and no id twice.
  pub record IsValid (s : SessionStore T S) : Type 0 where
    pub bounded : length s.sessions ≤ s.max_sessions
    pub distinct : IsDistinct s.sessions

  pub touch-IsValid :
      (now : ℕ) (id : String) (s : SessionStore T S) → IsValid s → IsValid (touch now id s).1
  unfolding touch
  touch-IsValid now id s h = elim (Option-cases (find id s.sessions)) [
    | inl e ↦ rw (e, touch) h
    | inr (v, e) ↦
        let touched = record v { last_activity = now } in
        rw (e, touch)
          (record {
            bounded = omega (arith, h.bounded, length-store_found id touched v s.sessions e);
            distinct = store-IsDistinct id touched s.sessions h.distinct;
          })
  ]

  pub register-IsValid :
      (now : ℕ) (id : String) (transport : T) (server : S) (s : SessionStore T S)
      → IsValid s
      → IsValid (register now id transport server s).1
  unfolding register is_at_capacity
  register-IsValid now id transport server s h =
      elim (Bool-cases (leb s.max_sessions (length s.sessions))) [
        | inl full ↦ rw (full, register) h
        | inr room ↦
            let new : SessionEntry T S = record {
              transport = transport;
              server = server;
              last_activity = now;
            } in
            rw (room, register)
              (record {
                bounded = ground (arith, length-store_le id new s.sessions, room);
                distinct = store-IsDistinct id new s.sessions h.distinct;
              })
      ]

  pub remove-IsValid : (id : String) (s : SessionStore T S) → IsValid s → IsValid (remove id s).1
  unfolding remove
  remove-IsValid id s h = elim (Option-cases (find id s.sessions)) [
    | inl e ↦ rw (e, remove) h
    | inr (v, e) ↦
        rw (e, remove)
          (record {
            bounded = omega (arith, h.bounded, length-discard_le id s.sessions);
            distinct = discard-IsDistinct id s.sessions h.distinct;
          })
  ]

  pub sweep-IsValid : (now : ℕ) (s : SessionStore T S) → IsValid s → IsValid (sweep now s).1
  unfolding sweep
  sweep-IsValid now s h = record {
    bounded =
        omega
          (arith, h.bounded, length-filter-le (λ e. not (is_idle now s.idle_ttl_ms e)) s.sessions);
    distinct = filter-IsDistinct (λ e. not (is_idle now s.idle_ttl_ms e)) s.sessions h.distinct;
  }

  pub step-IsValid : (a : Action T S) (s : SessionStore T S) → IsValid s → IsValid (step a s)
  unfolding step
  step-IsValid (touching now id) s h = touch-IsValid now id s h
  step-IsValid (registering now id transport server) s h =
      register-IsValid now id transport server s h
  step-IsValid (removing id) s h = remove-IsValid id s h
  step-IsValid (sweeping now) s h = sweep-IsValid now s h

  pub run-IsValid :
      (acts : List (Action T S)) (s : SessionStore T S) → IsValid s → IsValid (run acts s)
  unfolding run
  run-IsValid [] s h = h
  run-IsValid (a ∷ acts) s h = run-IsValid acts (step a s) (step-IsValid a s h)

  new_session_store-IsValid : (opts : SessionStoreOptions) → IsValid (new_session_store opts)
  unfolding new_session_store
  new_session_store-IsValid opts = record { bounded = omega arith; distinct = tt }

  -- Whatever the operations after its construction and their times, the store never holds more
  -- sessions than allowed, and no id twice.
  pub run-new_session_store-IsValid :
      (opts : SessionStoreOptions) (acts : List (Action T S))
      → IsValid (run acts (new_session_store opts))
  run-new_session_store-IsValid opts acts =
      run-IsValid acts (new_session_store opts) (new_session_store-IsValid opts)
