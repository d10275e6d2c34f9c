-- ===== src/Routes/Validation.antt =====
-- Which registered workers are valid: validateWorker, filterValidatedWorkers, getRegistryWorkers and
-- getWorkerDIDs of coordinator-agent/src/routes/coordinate.ts. The probes are made one after the other,
-- where the program makes them at once; as none rejects, the loop over the rejected ones is left out.
use delibera_xyz.Prelude.{
  ℕ, ◌+◌, String, Bool, true, false, not, Option, none, some, List, [], ◌∷◌, ◌++◌, map, filter,
  get_elem?, ltb, leb, if◌then◌else◌,
}
use delibera_xyz.Prelude.Text.{◌<>◌, is_empty, includes, split, trim, text_given}
use delibera_xyz.Prelude.Maps.{find, store}
use delibera_xyz.Json.{Json, null, member, truthy, is_text}
use delibera_xyz.Host.{
  Env, Config, Worker, Reply, unreachable, response, Check, ok, Prog, pure, ◌>>=◌, ◌>>◌,
}
use delibera_xyz.Coordinator.Memory.{fetch, clock, list_active_workers}
use delibera_xyz.Coordinator.Dispatch.{is_polling_worker}

-- Whether the JSON body of a response does not contradict the DID.
abbrev pub matches : Worker → Option Json → Bool
matches w none = true
matches w (some null) = true
matches w (some body) = elim (member "workerDid" body) [
  | none ↦ true
  | some did ↦ if truthy did then is_text did w.worker_did else true
]

unfoldable pub passes : Worker → Reply → Bool
passes w unreachable = false
passes w (response good status body) =
    if leb 500 status then false else (if good then matches w body else true)

-- Five minutes.
abbrev pub validation_ttl : ℕ
validation_ttl = 300000

-- What the cache knows: a check that is not older than that.
unfoldable pub known : ℕ → List (String × Check) → Worker → Option Bool
unfolding find
known now cache w = elim (find w.worker_did cache) [
  | none ↦ none
  | some c ↦ if ltb now (c.checked_at + validation_ttl) then some c.valid else none
]

abbrev pub is_known_valid : Option Bool → Bool
is_known_valid none = false
is_known_valid (some b) = b

abbrev pub is_unknown : Option Bool → Bool
is_unknown none = true
is_unknown (some b) = false

unfoldable pub validation_cache : Prog (List (String × Check))
validation_cache s = (ok s.checks, s)

unfoldable pub note_check : String → Check → Prog (Unit {0})
unfolding store
note_check did check s = (ok tt, record s { checks = store did check s.checks })

module _ (E : Env) where
  unfoldable pub validate_worker : Worker → Prog Bool
  unfolding is_polling_worker passes
  validate_worker w =
      if is_polling_worker w
      then pure true
      else (do reply ← fetch E (text_given w.endpoint_url "" <> "/"); pure (passes w reply))

  unfoldable pub check_worker : Worker → Prog Bool
  unfolding validate_worker note_check
  check_worker w = do
    valid ← validate_worker w
    now ← clock E
    note_check w.worker_did (record { valid = valid; checked_at = now })
    pure valid

  -- Those that pass.
  unfoldable pub check_all : List Worker → Prog (List Worker)
  unfolding check_worker
  check_all [] = pure []
  check_all (w ∷ ws) = do
    valid ← check_worker w
    rest ← check_all ws
    pure (if valid then w ∷ rest else rest)

  unfoldable pub filter_validated_workers : List Worker → Prog (List Worker)
  unfolding validation_cache known check_all
  filter_validated_workers ws = do
    now ← clock E
    cache ← validation_cache
    fresh ← check_all (filter (λ w. is_unknown (known now cache w)) ws)
    pure (filter (λ w. is_known_valid (known now cache w)) ws ++ fresh)

  abbrev pub listed : Option (List Worker) → List Worker
  listed none = []
  listed (some ws) = ws

  -- Valid active workers first, then the inactive ones.
  unfoldable pub get_registry_workers : Prog (List Worker)
  unfolding filter_validated_workers
  get_registry_workers = do
    found ← list_active_workers E
    valid ← filter_validated_workers (filter (λ w. w.is_active) (listed found))
    pure (valid ++ filter (λ w. not w.is_active) (listed found))

abbrev first_of : List String → String
first_of parts = elim (get_elem? parts 0) [ none ↦ "" | some s ↦ s ]

-- The DID in an entry "did|url" or "id:port" of WORKERS.
unfoldable pub entry_did : String → String
unfolding includes split
entry_did trimmed =
    if includes "|" trimmed then first_of (split b'|' trimmed) else first_of (split b':' trimmed)

-- The DIDs in the variable WORKERS, if it is set.
unfoldable pub dids_of_env : Option String → List String
unfolding entry_did split trim
dids_of_env none = []
dids_of_env (some text) =
    if is_empty text then [] else map (λ e. entry_did (trim e)) (split b',' text)

-- The active workers of the registry, or those of WORKERS where the registry shows none.
unfoldable pub chosen_dids : Config → List Worker → List String
unfolding dids_of_env
chosen_dids c [] = dids_of_env c.workers
chosen_dids c (w ∷ ws) = map (λ v. v.worker_did) (filter (λ v. v.is_active) (w ∷ ws))

unfoldable pub get_worker_dids : Env → Config → Prog (List String)
unfolding get_registry_workers chosen_dids
get_worker_dids E c = do ws ← get_registry_workers E; pure (chosen_dids c ws)
