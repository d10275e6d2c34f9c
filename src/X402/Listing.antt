-- ===== src/X402/Listing.antt =====
-- The list of the records that listRecords of coordinator-agent/src/x402/verdict-store.ts returns.
use mathlib.Core.List.{Perm}
use mathlib.Core.List.Perm
use delibera_xyz.Prelude.{◌≤◌, List, [], ◌∷◌, map, All, arith, leb, Bool-cases, inl, inr}
use delibera_xyz.X402.Store.{VerdictRecord, Store, insert, newest_first, list_records}

-- No record is newer than one before it.
abbrev pub IsNewestFirst : List VerdictRecord → Type 0
IsNewestFirst [] = Unit
IsNewestFirst (r ∷ rs) = All (λ q. q.created_at ≤ r.created_at) rs × IsNewestFirst rs

insert-perm : (r : VerdictRecord) (rs : List VerdictRecord) → Perm (insert r rs) (r ∷ rs)
insert-perm r [] = Perm.refl _
insert-perm r (q ∷ rs) = elim (Bool-cases (leb q.created_at r.created_at)) [
  | inl older ↦ rw older (Perm.refl _)
  | inr newer ↦ rw newer (Perm.trans (Perm.cons q (insert-perm r rs)) (Perm.swap r q rs))
]

newest_first-perm : (rs : List VerdictRecord) → Perm (newest_first rs) rs
newest_first-perm [] = Perm.refl _
newest_first-perm (r ∷ rs) =
    Perm.trans (insert-perm r (newest_first rs)) (Perm.cons r (newest_first-perm rs))

All-insert :
    (P : VerdictRecord → Type 0) (r : VerdictRecord) (rs : List VerdictRecord)
    → P r
    → All P rs
    → All P (insert r rs)
All-insert P r [] h k = (h, k)
All-insert P r (q ∷ rs) h k = elim (Bool-cases (leb q.created_at r.created_at)) [
  | inl older ↦ rw older (h, k)
  | inr newer ↦ rw newer (k.0, All-insert P r rs h k.1)
]

All-older :
    (q r : VerdictRecord) (rs : List VerdictRecord)
    → q.created_at ≤ r.created_at
    → All (λ x. x.created_at ≤ q.created_at) rs
    → All (λ x. x.created_at ≤ r.created_at) rs
All-older q r [] h k = tt
All-older q r (x ∷ rs) h k = (omega (arith, h, k.0), All-older q r rs h k.1)

insert-IsNewestFirst :
    (r : VerdictRecord) (rs : List VerdictRecord) → IsNewestFirst rs → IsNewestFirst (insert r rs)
insert-IsNewestFirst r [] h = (tt, tt)
insert-IsNewestFirst r (q ∷ rs) h = elim (Bool-cases (leb q.created_at r.created_at)) [
  | inl older ↦
      let le : q.created_at ≤ r.created_at = ground arith in
      rw older ((le, All-older q r rs le h.0), h)
  | inr newer ↦
      let le : r.created_at ≤ q.created_at = ground arith in
      rw newer
        (All-insert (λ x. x.created_at ≤ q.created_at) r rs le h.0, insert-IsNewestFirst r rs h.1)
]

newest_first-IsNewestFirst : (rs : List VerdictRecord) → IsNewestFirst (newest_first rs)
newest_first-IsNewestFirst [] = tt
newest_first-IsNewestFirst (r ∷ rs) =
    insert-IsNewestFirst r (newest_first rs) (newest_first-IsNewestFirst rs)

-- listRecords returns the records of the store, each as often as it stands there, the newest first.
pub list_records-IsNewestFirst :
    (m : Store) → IsNewestFirst (list_records m) × Perm (list_records m) (map (λ e. e.1) m)
unfolding list_records
list_records-IsNewestFirst m = (newest_first-IsNewestFirst (map (λ e. e.1) m), newest_first-perm _)
