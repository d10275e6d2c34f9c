-- ===== src/Mcp/Surviving.antt =====
-- How long a session of ensue-mcp-server/src/session-store.ts is sure to stay, and that the sweep makes
-- room for new ones.
use text.Mathlib.Text.{◌==◌}
use text.Mathlib.TextEquality.{eq_iff}
use delibera_xyz.Prelude.{
  ℕ, ◌+◌, ◌≤◌, ◌<◌, ◌≡◌, ◌≢◌, refl, ◌∙◌, String, true, false, not, some, List, [], ◌∷◌, arith,
  length, filter, All, ltb, leb, Bool-cases, Option-cases, inl, inr,
}
use delibera_xyz.Prelude.Maps.{
  eq_refl, find, store, find-filter, find-store-same, find-store-other, find-discard-other,
}
use delibera_xyz.Mcp.Sessions.{
  SessionEntry, SessionStore, has, is_at_capacity, touch, register, remove, sweep, is_idle,
}
use delibera_xyz.Mcp.Reachable.{
  Action, touching, registering, removing, sweeping, step, run, IsValid, step-IsValid,
  touch-IsValid,
}

module _ {T S : Type 0} where
  -- An operation that comes no earlier than `t`, does not remove the session, and sweeps no later
  -- than the idle time after `t`.
  abbrev pub Spares : ℕ → ℕ → String → Action T S → Type 0
  Spares t ttl id (touching now other) = t ≤ now
  Spares t ttl id (registering now other transport server) = t ≤ now
  Spares t ttl id (removing other) = other ≢ id
  Spares t ttl id (sweeping now) = now ≤ t + ttl

  -- The session stands in the store, with an activity no earlier than `t`.
  pub record Lives (t ttl : ℕ) (id : String) (s : SessionStore T S) : Type 0 where
    pub valid : IsValid s
    pub limit : s.idle_ttl_ms ≡ ttl
    pub entry : SessionEntry T S
    pub found : find id s.sessions ≡ some entry
    pub fresh : t ≤ entry.last_activity

  module _ (t ttl : ℕ) (id : String) (s : SessionStore T S) (h : Lives t ttl id s) where
    store-Lives :
        (other : String) (e : SessionEntry T S)
        → t ≤ e.last_activity
        → IsValid (record s { sessions = store other e s.sessions })
        → Lives t ttl id (record s { sessions = store other e s.sessions })
    store-Lives other e le v = elim (Bool-cases (other == id)) [
      | inl same ↦ record {
        valid = v;
        limit = h.limit;
        entry = e;
        found = rw ((eq_iff other id).0 same) (find-store-same id e s.sessions);
        fresh = le;
      }
      | inr differs ↦
          let apart : other ≢ id = λ q. ground (arith, differs, (eq_iff other id).1 q) in
          record {
            valid = v;
            limit = h.limit;
            entry = h.entry;
            found = find-store-other other id e s.sessions apart ∙ h.found;
            fresh = h.fresh;
          }
    ]

    touch-Lives :
        (now : ℕ) (other : String)
        → t ≤ now
        → IsValid (touch now other s).1
        → Lives t ttl id (touch now other s).1
    unfolding touch
    touch-Lives now other le v = elim (Option-cases (find other s.sessions)) [
      | inl e ↦ rw (e, touch) h
      | inr (w, e) ↦
          let kept = rw (e, touch) at v in
          rw (e, touch) (store-Lives other (record w { last_activity = now }) le kept)
    ]

    register-Lives :
        (now : ℕ) (other : String) (transport : T) (server : S)
        → t ≤ now
        → IsValid (register now other transport server s).1
        → Lives t ttl id (register now other transport server s).1
    unfolding register is_at_capacity
    register-Lives now other transport server le v =
        elim (Bool-cases (leb s.max_sessions (length s.sessions))) [
          | inl full ↦ rw (full, register) h
          | inr room ↦
              let kept = rw (room, register) at v in
              rw (room, register)
                (store-Lives other
                  (record { transport = transport; server = server; last_activity = now }) le kept)
        ]

    remove-Lives :
        (other : String)
        → other ≢ id
        → IsValid (remove other s).1
        → Lives t ttl id (remove other s).1
    unfolding remove
    remove-Lives other apart v = elim (Option-cases (find other s.sessions)) [
      | inl e ↦ rw (e, remove) h
      | inr (w, e) ↦
          let kept = rw (e, remove) at v in
          rw (e, remove)
            (record {
              valid = kept;
              limit = h.limit;
              entry = h.entry;
              found = find-discard-other other id s.sessions apart ∙ h.found;
              fresh = h.fresh;
            })
    ]

    sweep-Lives :
        (now : ℕ) → now ≤ t + ttl → IsValid (sweep now s).1 → Lives t ttl id (sweep now s).1
    unfolding sweep is_idle
    sweep-Lives now le v =
        let young : ltb (h.entry.last_activity + s.idle_ttl_ms) now ≡ false =
          ground (arith, le, h.fresh, h.limit) in
        record {
          valid = v;
          limit = h.limit;
          entry = h.entry;
          found =
              rw
                (
                  find-filter (λ x. not (is_idle now s.idle_ttl_ms x)) id s.sessions
                      h.valid.distinct,
                  h.found,
                  young,
                )
                refl;
          fresh = h.fresh;
        }

  step-Lives :
      (t ttl : ℕ) (id : String) (a : Action T S) (s : SessionStore T S)
      → Spares t ttl id a
      → Lives t ttl id s
      → Lives t ttl id (step a s)
  unfolding step
  step-Lives t ttl id (touching now other) s ok h =
      touch-Lives t ttl id s h now other ok (touch-IsValid now other s h.valid)
  step-Lives t ttl id (registering now other transport server) s ok h =
      register-Lives t ttl id s h now other transport server ok
        (step-IsValid (registering now other transport server) s h.valid)
  step-Lives t ttl id (removing other) s ok h =
      remove-Lives t ttl id s h other ok (step-IsValid (removing other) s h.valid)
  step-Lives t ttl id (sweeping now) s ok h =
      sweep-Lives t ttl id s h now ok (step-IsValid (sweeping now) s h.valid)

  run-Lives :
      (t ttl : ℕ) (id : String) (acts : List (Action T S)) (s : SessionStore T S)
      → All (Spares t ttl id) acts
      → Lives t ttl id s
      → Lives t ttl id (run acts s)
  unfolding run
  run-Lives t ttl id [] s ok h = h
  run-Lives t ttl id (a ∷ acts) s ok h =
      run-Lives t ttl id acts (step a s) ok.1 (step-Lives t ttl id a s ok.0 h)

  touched-Lives :
      (t : ℕ) (id : String) (s : SessionStore T S)
      → IsValid s
      → has id s ≡ true
      → Lives t s.idle_ttl_ms id (touch t id s).1
  unfolding touch has
  touched-Lives t id s v there = elim (Option-cases (find id s.sessions)) [
    | inl e ↦ absurd (ground (arith, there, e))
    | inr (w, e) ↦
        let kept = rw (e, touch) at (touch-IsValid t id s v) in
        rw (e, touch)
          (record {
            valid = kept;
            limit = refl;
            entry = record w { last_activity = t };
            found = find-store-same id (record w { last_activity = t }) s.sessions;
            fresh = omega arith;
          })
  ]

  -- In a store with no more sessions than allowed and no id twice, a session that is touched at `t`
  -- is still there after any operations that come no earlier than `t`, do not remove it, and sweep
  -- no later than the idle time after `t`.
  pub run-touch-has :
      (t : ℕ) (id : String) (acts : List (Action T S)) (s : SessionStore T S)
      → IsValid s
      → has id s ≡ true
      → All (Spares t s.idle_ttl_ms id) acts
      → has id (run acts (touch t id s).1) ≡ true
  unfolding has
  run-touch-has t id acts s v there ok =
      let lives =
        run-Lives t s.idle_ttl_ms id acts (touch t id s).1 ok (touched-Lives t id s v there) in
      rw (lives.found, has) refl

  filter-idle :
      (now ttl : ℕ) (m : List (String × SessionEntry T S))
      → All (λ e. e.1.last_activity + ttl < now) m
      → filter (λ e. not (is_idle now ttl e)) m ≡ []
  unfolding is_idle
  filter-idle now ttl [] h = refl
  filter-idle now ttl (e ∷ m) h =
      let old : ltb (e.1.last_activity + ttl) now ≡ true = ground (arith, h.0) in
      rw old (filter-idle now ttl m h.1)

  -- However full the store, once all its sessions have been idle for longer than the idle time, a
  -- sweep makes room: the next registration succeeds and its session is found, if at least one
  -- session is allowed.
  pub register-sweep :
      (now later : ℕ) (id : String) (transport : T) (server : S) (s : SessionStore T S)
      → 0 < s.max_sessions
      → All (λ e. e.1.last_activity + s.idle_ttl_ms < now) s.sessions
      → (register later id transport server (sweep now s).1).0 ≡ true
        × has id (register later id transport server (sweep now s).1).1 ≡ true
  unfolding register is_at_capacity sweep has find store
  register-sweep now later id transport server s room old =
      let empty = filter-idle now s.idle_ttl_ms s.sessions old in
      let below : leb s.max_sessions 0 ≡ false = ground (arith, room) in
      rw (empty, below) (refl, rw (has, eq_refl id) refl)
