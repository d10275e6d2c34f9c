-- ===== src/X402/StoreLaws.antt =====
-- What the store of the verdicts keeps.
use text.Mathlib.Text.{◌==◌}
use text.Mathlib.TextEquality.{eq_iff}
use delibera_xyz.Prelude.{
  ℕ, suc, ◌≡◌, ◌≢◌, refl, sym, ◌∙◌, String, true, false, none, some, [], ◌∷◌, Option-cases,
  Bool-cases, inl, inr,
}
use delibera_xyz.Prelude.Maps.{eq_refl, ne_false}
use delibera_xyz.X402.Store.{
  VerdictRecord, Updates, Store, get_record, put, updated, update_record, is_terminal, merge_field,
}

pub get_record-put_same :
    (id : String) (r : VerdictRecord) (m : Store) → get_record id (put id r m) ≡ some r
unfolding get_record put
get_record-put_same id r [] = rw (eq_refl id) refl
get_record-put_same id r ((k, q) ∷ m) = elim (Bool-cases (k == id)) [
  | inl same ↦ rw (same, same) refl
  | inr other ↦ rw (other, other) (get_record-put_same id r m)
]

pub get_record-put_other :
    (id other : String) (r : VerdictRecord) (m : Store)
    → id ≢ other
    → get_record other (put id r m) ≡ get_record other m
unfolding get_record put
get_record-put_other id other r [] h = rw (ne_false id other h) refl
get_record-put_other id other r ((k, q) ∷ m) h = elim (Bool-cases (k == id)) [
  | inl same ↦
      let e : k ≡ id = (eq_iff k id).0 same in
      let apart : (k == other) ≡ false = ne_false k other (λ e'. h (sym e ∙ e')) in
      rw (same, apart) refl
  | inr differs ↦ elim (Bool-cases (k == other)) [
    | inl found ↦ rw (differs, found) refl
    | inr passed ↦ rw (differs, passed) (get_record-put_other id other r m h)
  ]
]

-- An update answers with the record that is found afterwards, and touches no other.
pub update_record-get_record :
    (id : String) (u : Updates) (now : ℕ) (m : Store) (other : String)
    → (update_record id u now m).0 ≡ get_record id (update_record id u now m).1
      × (id ≢ other → get_record other (update_record id u now m).1 ≡ get_record other m)
unfolding update_record
update_record-get_record id u now m other = elim (Option-cases (get_record id m)) [
  | inl e ↦ rw (e, update_record) (sym e, λ _. refl)
  | inr (r, e) ↦
      rw (e, update_record)
        (
          sym (get_record-put_same id (updated now u r) m),
          get_record-put_other id other (updated now u r) m,
        )
]

keeps-completed_at :
    (n later : ℕ) (v : Updates) (r : VerdictRecord)
    → r.completed_at ≡ some (suc n)
    → v.completed_at ≡ none
    → (updated later v r).completed_at ≡ some (suc n)
unfolding updated
keeps-completed_at n later v r hr hv = rw (hr, hv) refl

-- The time of the end is set once: on a record without one, an update to a terminal status at a time
-- that is not 0 sets it, and a later update that carries no time leaves it.
pub updated-completed_at :
    (n later : ℕ) (u v : Updates) (r : VerdictRecord)
    → r.completed_at ≡ none
    → v.completed_at ≡ none
    → is_terminal (merge_field r.status u.status) ≡ true
    → (updated later v (updated (suc n) u r)).completed_at ≡ some (suc n)
unfolding updated
updated-completed_at n later u v r hr hv ht =
    let set : (updated (suc n) u r).completed_at ≡ some (suc n) = rw (hr, ht) refl in
    keeps-completed_at n later v (updated (suc n) u r) set hv
