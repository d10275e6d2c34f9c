-- ===== src/Coordinator/Submissions.antt =====
-- The submissions that are recorded on the chain, in triggerLocalCoordination and in
-- processCoordination of coordinator-agent/src/monitor/memory-monitor.ts: for each worker its id and
-- the hash of its result.
pub mod Ids
use Prim.Native.Char.{code}
use delibera_xyz.Prelude.{String, not, ◌&&◌, Option, none, some, List, [], ◌∷◌, ◌==◌, if◌then◌else◌}
use delibera_xyz.Prelude.Text.{is_empty, has_prefix, strip_prefix}
use delibera_xyz.Json.{Json, null, str, member, truthy}
use delibera_xyz.Host.{Env, Submission}

-- The longest beginning without a slash, `[^/]+`, and what follows it.
unfoldable pub before_slash : String → String
before_slash String.[] = String.[]
before_slash (String.◌∷◌ c s) = if code c == b'/' then String.[] else String.◌∷◌ c (before_slash s)

unfoldable pub from_slash : String → String
from_slash String.[] = String.[]
from_slash (String.◌∷◌ c s) = if code c == b'/' then String.◌∷◌ c s else from_slash s

-- A match of /coordination\/tasks\/([^/]+)\/result/ at the beginning of a text: the group.
unfoldable pub id_at : String → Option String
unfolding before_slash from_slash strip_prefix has_prefix
id_at s = elim (strip_prefix "coordination/tasks/" s) [
  | none ↦ none
  | some rest ↦
      if not (is_empty (before_slash rest)) && has_prefix "/result" (from_slash rest)
      then some (before_slash rest)
      else none
]

-- The first match in a text, or the empty text.
unfoldable pub extract_worker_id : String → String
unfolding id_at
extract_worker_id String.[] = String.[]
extract_worker_id (String.◌∷◌ c s) = elim (id_at (String.◌∷◌ c s)) [
  | some id ↦ id
  | none ↦ extract_worker_id s
]

-- `result.workerId || extractWorkerIdFromKey(key)`
abbrev worker_id_or : Option Json → Json → Json
worker_id_or none d = d
worker_id_or (some j) d = if truthy j then j else d

module _ (E : Env) where
  -- The submission for one parsed result; `none` where it is left out.
  unfoldable pub submission_from : String → String → Json → Option Submission
  unfolding extract_worker_id
  submission_from key text null = none
  submission_from key text result =
      let id = worker_id_or (member "workerId" result) (str (extract_worker_id key)) in
      if truthy id then some (record { worker_id = id; result_hash = E.sha256 text }) else none

  unfoldable pub submission_of : String → Option String → Option Submission
  unfolding submission_from
  submission_of key none = none
  submission_of key (some text) = if is_empty text then none else (elim (E.codec.parse text) [
    | none ↦ none
    | some result ↦ submission_from key text result
  ])

  unfoldable pub submissions : (String → Option String) → List String → List Submission
  unfolding submission_of
  submissions results [] = []
  submissions results (k ∷ ks) = elim (submission_of k (results k)) [
    | none ↦ submissions results ks
    | some s ↦ s ∷ submissions results ks
  ]
