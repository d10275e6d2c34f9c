-- ===== src/Mcp/Sessions.antt =====
-- SessionStore of ensue-mcp-server/src/session-store.ts. The time that `this.now()` gives is an
-- argument of each call. The transports are closed without waiting, so their closing shows only in
-- the list of the swept ids.
use delibera_xyz.Prelude.{
  ℕ, ◌+◌, String, Bool, true, false, not, Option, none, some, List, [], map, length, filter, ltb,
  leb, if◌then◌else◌,
}
use delibera_xyz.Prelude.Maps.{find, store, discard}

pub record SessionEntry (T S : Type 0) : Type 0 where
  pub transport : T
  pub server : S
  pub last_activity : ℕ

pub record SessionStoreOptions : Type 0 where
  pub max_sessions : Option ℕ
  pub idle_ttl_ms : Option ℕ

pub record SessionStore (T S : Type 0) : Type 0 where
  pub sessions : List (String × SessionEntry T S)
  pub max_sessions : ℕ
  pub idle_ttl_ms : ℕ

-- `o ?? d`
abbrev number_given : Option ℕ → ℕ → ℕ
number_given none d = d
number_given (some n) d = n

module _ {T S : Type 0} where
  unfoldable pub new_session_store : SessionStoreOptions → SessionStore T S
  new_session_store opts = record {
    sessions = [];
    max_sessions = number_given opts.max_sessions 50;
    idle_ttl_ms = number_given opts.idle_ttl_ms 1800000;
  }

  abbrev pub size : SessionStore T S → ℕ
  size s = length s.sessions

  unfoldable pub is_at_capacity : SessionStore T S → Bool
  is_at_capacity s = leb s.max_sessions (size s)

  unfoldable pub has : String → SessionStore T S → Bool
  unfolding find
  has id s = elim (find id s.sessions) [ none ↦ false | some e ↦ true ]

  unfoldable pub touch :
      ℕ → String → SessionStore T S → Option (SessionEntry T S) × SessionStore T S
  unfolding find store
  touch now id s = elim (find id s.sessions) [
    | none ↦ (none, s)
    | some e ↦
        let touched = record e { last_activity = now } in
        (some touched, record s { sessions = store id touched s.sessions })
  ]

  unfoldable pub register : ℕ → String → T → S → SessionStore T S → Bool × SessionStore T S
  unfolding is_at_capacity store
  register now id transport server s = if is_at_capacity s then (false, s) else (
    true,
    record s {
      sessions =
          store id (record { transport = transport; server = server; last_activity = now })
            s.sessions;
    },
  )

  unfoldable pub remove : String → SessionStore T S → Option (SessionEntry T S) × SessionStore T S
  unfolding find discard
  remove id s = elim (find id s.sessions) [
    | none ↦ (none, s)
    | some e ↦ (some e, record s { sessions = discard id s.sessions })
  ]

  -- `entry.lastActivity < now - ttl`, on integers.
  unfoldable pub is_idle : ℕ → ℕ → String × SessionEntry T S → Bool
  is_idle now ttl e = ltb (e.1.last_activity + ttl) now

  -- The swept ids, and the store without them.
  unfoldable pub sweep : ℕ → SessionStore T S → List String × SessionStore T S
  unfolding is_idle
  sweep now s = (
    map (λ e. e.0) (filter (is_idle now s.idle_ttl_ms) s.sessions),
    record s { sessions = filter (λ e. not (is_idle now s.idle_ttl_ms e)) s.sessions },
  )

  abbrev pub active_ids : SessionStore T S → List String
  active_ids s = map (λ e. e.0) s.sessions
