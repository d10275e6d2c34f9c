-- ===== src/X402/Store.antt =====
-- coordinator-agent/src/x402/verdict-store.ts: the records of the paid deliberations. The Map is the
-- list of its entries in the order of insertion; the clock and the random text are arguments.
use text.Mathlib.Text.{◌==◌}
use delibera_xyz.Prelude.{
  ℕ, zero, suc, String, Bool, true, false, ◌&&◌, Option, none, some, List, [], ◌∷◌, map, leb,
  if◌then◌else◌,
}
use delibera_xyz.Prelude.Text.{◌<>◌}
use delibera_xyz.Json.{Json}
use delibera_xyz.Coordinator.Tally.{TallyResult}

pub data VerdictStatus : Type 0 where
  pending completed failed : VerdictStatus

pub record VerdictRecord : Type 0 where
  pub id : String
  pub proposal : String
  pub context : Option Json
  pub stellar_payment_tx : Option String
  pub near_proposal_id : Option ℕ
  pub near_tx_hash : Option String
  pub status : VerdictStatus
  pub verdict : Option TallyResult
  pub error : Option String
  pub created_at : ℕ
  pub completed_at : Option ℕ

-- The fields of an update; `none` is a field that the update does not have.
pub record Updates : Type 0 where
  pub proposal : Option String
  pub context : Option Json
  pub stellar_payment_tx : Option String
  pub near_proposal_id : Option ℕ
  pub near_tx_hash : Option String
  pub status : Option VerdictStatus
  pub verdict : Option TallyResult
  pub error : Option String
  pub completed_at : Option ℕ

abbrev pub no_updates : Updates
no_updates = record {
  proposal = none;
  context = none;
  stellar_payment_tx = none;
  near_proposal_id = none;
  near_tx_hash = none;
  status = none;
  verdict = none;
  error = none;
  completed_at = none;
}

abbrev pub Store : Type 0
Store = List (String × VerdictRecord)

unfoldable pub get_record : String → Store → Option VerdictRecord
get_record id [] = none
get_record id ((k, r) ∷ m) = if k == id then some r else get_record id m

-- `store.set(id, record)`: a key keeps its place.
unfoldable pub put : String → VerdictRecord → Store → Store
put id r [] = (id, r) ∷ []
put id r ((k, q) ∷ m) = if k == id then (k, r) ∷ m else (k, q) ∷ put id r m

-- The time in base 36 and the random text are the JavaScript engine's.
unfoldable pub generate_id : String → String → String
generate_id ts rand = "delib-" <> (ts <> ("-" <> rand))

unfoldable pub create_record :
    (id : String) (proposal : String) (context : Option Json) (tx : Option String) (now : ℕ)
    → Store
    → VerdictRecord × Store
unfolding put
create_record id proposal context tx now m =
    let r : VerdictRecord = record {
      id = id;
      proposal = proposal;
      context = context;
      stellar_payment_tx = tx;
      near_proposal_id = none;
      near_tx_hash = none;
      status = pending;
      verdict = none;
      error = none;
      created_at = now;
      completed_at = none;
    } in
    (r, put id r m)

-- One field of `{ ...existing, ...updates }`.
abbrev pub merge_option : {A : Type 0} → Option A → Option A → Option A
merge_option old none = old
merge_option old (some new) = some new

abbrev pub merge_field : {A : Type 0} → A → Option A → A
merge_field old none = old
merge_field old (some new) = new

abbrev pub merge : VerdictRecord → Updates → VerdictRecord
merge r u = record {
  id = r.id;
  proposal = merge_field r.proposal u.proposal;
  context = merge_option r.context u.context;
  stellar_payment_tx = merge_option r.stellar_payment_tx u.stellar_payment_tx;
  near_proposal_id = merge_option r.near_proposal_id u.near_proposal_id;
  near_tx_hash = merge_option r.near_tx_hash u.near_tx_hash;
  status = merge_field r.status u.status;
  verdict = merge_option r.verdict u.verdict;
  error = merge_option r.error u.error;
  created_at = r.created_at;
  completed_at = merge_option r.completed_at u.completed_at;
}

-- The time 0 counts as unset.
abbrev pub is_unset : Option ℕ → Bool
is_unset none = true
is_unset (some zero) = true
is_unset (some (suc n)) = false

abbrev pub is_terminal : VerdictStatus → Bool
is_terminal pending = false
is_terminal completed = true
is_terminal failed = true

-- The record that the update leaves.
unfoldable pub updated : ℕ → Updates → VerdictRecord → VerdictRecord
updated now u r =
    let merged = merge r u in
    if is_unset r.completed_at && is_terminal merged.status
    then record merged { completed_at = some now }
    else merged

unfoldable pub update_record : String → Updates → ℕ → Store → Option VerdictRecord × Store
unfolding get_record put updated
update_record id u now m = elim (get_record id m) [
  | none ↦ (none, m)
  | some r ↦ (some (updated now u r), put id (updated now u r) m)
]

-- `sort((a, b) => b.createdAt - a.createdAt)` keeps the order of equal times.
abbrev pub insert : VerdictRecord → List VerdictRecord → List VerdictRecord
insert r [] = r ∷ []
insert r (q ∷ rs) = if leb q.created_at r.created_at then r ∷ q ∷ rs else q ∷ insert r rs

abbrev pub newest_first : List VerdictRecord → List VerdictRecord
newest_first [] = []
newest_first (r ∷ rs) = insert r (newest_first rs)

unfoldable pub list_records : Store → List VerdictRecord
list_records m = newest_first (map (λ e. e.1) m)

abbrev pub clear_store : Store → Store
clear_store m = []
