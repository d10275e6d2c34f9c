-- ===== src/Mcp/Sweeping.antt =====
-- What the sweep of ensue-mcp-server/src/session-store.ts closes, and what it leaves.
use text.Mathlib.Text.{◌==◌}
use text.Mathlib.TextEquality.{eq_iff}
use delibera_xyz.Prelude.{
  ℕ, ◌+◌, ◌≡◌, refl, sym, String, Bool, false, not, none, some, List, [], ◌∷◌, arith, map, filter,
  any, ltb, Bool-cases, Option-cases, inl, inr, if◌then◌else◌,
}
use delibera_xyz.Prelude.Maps.{eq_refl, find, IsDistinct, find-filter, find-filter-none}
use delibera_xyz.Mcp.Sessions.{SessionEntry, SessionStore, sweep, is_idle}
use delibera_xyz.Mcp.Reachable.{IsValid}

-- Whether an id is among these.
abbrev pub lists : String → List String → Bool
lists id ids = any (λ j. j == id) ids

module _ {T S : Type 0} where
  -- Whether a session stands in the store and is idle.
  unfoldable pub is_overdue : ℕ → String → SessionStore T S → Bool
  unfolding find
  is_overdue now id s = elim (find id s.sessions) [
    | none ↦ false
    | some e ↦ ltb (e.last_activity + s.idle_ttl_ms) now
  ]

  lists-filter-none :
      (p : String × SessionEntry T S → Bool) (id : String) (m : List (String × SessionEntry T S))
      → find id m ≡ none
      → lists id (map (λ e. e.0) (filter p m)) ≡ false
  unfolding find
  lists-filter-none p id [] h = refl
  lists-filter-none p id ((j, w) ∷ m) h = elim (Bool-cases (j == id)) [
    | inl found ↦ absurd (ground (arith, h, found))
    | inr passed ↦
        let deeper : find id m ≡ none = rw passed at h in
        elim (Bool-cases (p (j, w))) [
          | inl kept ↦ rw (kept, passed) (lists-filter-none p id m deeper)
          | inr dropped ↦ rw dropped (lists-filter-none p id m deeper)
        ]
  ]

  lists-filter :
      (p : String × SessionEntry T S → Bool) (id : String) (m : List (String × SessionEntry T S))
      → IsDistinct m
      → lists id (map (λ e. e.0) (filter p m))
        ≡ elim (find id m) [ none ↦ false | some v ↦ p (id, v) ]
  unfolding find
  lists-filter p id [] h = refl
  lists-filter p id ((j, w) ∷ m) h = elim (Bool-cases (j == id)) [
    | inl same ↦
        let e : j ≡ id = (eq_iff j id).0 same in
        elim (Bool-cases (p (id, w))) [
          | inl kept ↦ rw (e, kept, eq_refl id, kept) refl
          | inr dropped ↦
              rw (e, dropped, eq_refl id, dropped) (lists-filter-none p id m (rw (sym e) h.0))
        ]
    | inr differs ↦ elim (Bool-cases (p (j, w))) [
      | inl kept ↦ rw (differs, kept, differs) (lists-filter p id m h.1)
      | inr dropped ↦ rw (differs, dropped) (lists-filter p id m h.1)
    ]
  ]

  -- In a store with no more sessions than allowed and no id twice, the sweep returns exactly the ids of
  -- the sessions whose last activity lies more than the idle time back, and they are gone
  -- afterwards, while every other session stays with the time it had.
  pub sweep-is_overdue :
      (now : ℕ) (id : String) (s : SessionStore T S)
      → IsValid s
      → lists id (sweep now s).0 ≡ is_overdue now id s
        × find id (sweep now s).1.sessions
          ≡ (if is_overdue now id s then none else find id s.sessions)
  unfolding sweep is_idle is_overdue
  sweep-is_overdue now id s h =
      let idle : String × SessionEntry T S → Bool = is_idle now s.idle_ttl_ms in
      elim (Option-cases (find id s.sessions)) [
        | inl e ↦
            rw (e, is_overdue)
              (
                rw (lists-filter idle id s.sessions h.distinct, e) refl,
                find-filter-none (λ x. not (idle x)) id s.sessions e,
              )
        | inr (v, e) ↦
            rw (e, is_overdue)
              (
                rw (lists-filter idle id s.sessions h.distinct, e) refl,
                rw (find-filter (λ x. not (idle x)) id s.sessions h.distinct, e)
                    (elim (Bool-cases (ltb (v.last_activity + s.idle_ttl_ms) now)) [
                      | inl old ↦ rw old refl
                      | inr young ↦ rw young refl
                    ]),
              )
      ]
