-- ===== src/Coordinator/Submissions/Ids.antt =====
-- The ids of workers in the keys of their results: extractWorkerIdFromKey of
-- coordinator-agent/src/monitor/memory-monitor.ts and getWorkerKeys of shared/src/constants.ts.
use Prim.Native.Char.{code}
use text.Mathlib.TextLemmas.{cons-append}
use delibera_xyz.Prelude.{
  ◌≡◌, refl, ap, String, Bool, false, ◌||◌, some, arith, ◌==◌, Bool-cases, inl, inr,
}
use delibera_xyz.Prelude.Text.{◌<>◌, is_empty, has_prefix, strip_prefix, strip_prefix-append}
use delibera_xyz.Ensue.Keys.{worker_keys}
use delibera_xyz.Coordinator.Submissions.{before_slash, from_slash, id_at, extract_worker_id}

unfoldable pub has_slash : String → Bool
has_slash String.[] = false
has_slash (String.◌∷◌ c s) = code c == b'/' || has_slash s

before_slash-append : (id : String) → has_slash id ≡ false → before_slash (id <> "/result") ≡ id
unfolding before_slash has_slash
before_slash-append String.[] h = refl
before_slash-append (String.◌∷◌ c id) h = elim (Bool-cases (code c == b'/')) [
  | inl slash ↦ absurd (ground (arith, slash, h))
  | inr other ↦
      let rest : has_slash id ≡ false = rw other at h in
      rw (cons-append, other) (ap (String.◌∷◌ c) (before_slash-append id rest))
]

from_slash-append : (id : String) → has_slash id ≡ false → from_slash (id <> "/result") ≡ "/result"
unfolding from_slash has_slash
from_slash-append String.[] h = refl
from_slash-append (String.◌∷◌ c id) h = elim (Bool-cases (code c == b'/')) [
  | inl slash ↦ absurd (ground (arith, slash, h))
  | inr other ↦
      let rest : has_slash id ≡ false = rw other at h in
      rw (cons-append, other) (from_slash-append id rest)
]

id_at-key :
    (id : String)
    → is_empty id ≡ false
    → has_slash id ≡ false
    → id_at ("coordination/tasks/" <> (id <> "/result")) ≡ some id
unfolding id_at has_prefix strip_prefix
id_at-key id full h =
    rw (strip_prefix-append "coordination/tasks/" (id <> "/result"), id_at)
      (rw (before_slash-append id h, from_slash-append id h, full) refl)

extract_worker_id-found :
    (s id : String) → id_at s ≡ some id → is_empty s ≡ false → extract_worker_id s ≡ id
unfolding extract_worker_id
extract_worker_id-found String.[] id e h = absurd (ground (arith, h))
extract_worker_id-found (String.◌∷◌ c s) id e h = rw (e, extract_worker_id) refl

key-filled : (s : String) → is_empty ("coordination/tasks/" <> s) ≡ false
key-filled s = rw cons-append refl

-- The id that extractWorkerIdFromKey finds in the key of a worker's result is the worker's, for every
-- id that is not empty and has no slash.
pub extract_worker_id-worker_keys :
    (id : String)
    → is_empty id ≡ false
    → has_slash id ≡ false
    → extract_worker_id (worker_keys id).result ≡ id
extract_worker_id-worker_keys id full h =
    extract_worker_id-found _ id (id_at-key id full h) (key-filled (id <> "/result"))
