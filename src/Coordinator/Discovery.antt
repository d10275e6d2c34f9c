-- ===== src/Coordinator/Discovery.antt =====
-- Which workers take part: probeWorker, getWorkerRecordsFromEnv and getActiveWorkers of
-- coordinator-agent/src/monitor/memory-monitor.ts. The probes are made one after the other, where the
-- program makes them at once.
use delibera_xyz.Prelude.{
  String, Bool, true, false, not, ◌&&◌, ◌||◌, Option, none, some, List, [], ◌∷◌, map, filter,
  get_elem?, if◌then◌else◌,
}
use delibera_xyz.Prelude.Text.{◌<>◌, is_empty, includes, split, trim, text_given}
use delibera_xyz.Json.{Json, null, member, truthy?, is_text}
use delibera_xyz.Host.{Env, Config, Worker, Reply, unreachable, response, Prog, pure, ◌>>=◌}
use delibera_xyz.Coordinator.Memory.{fetch, list_active_workers}

-- An entry `{ id, url, cvm_id }` of the list, as the record that it becomes.
abbrev entry : String → String → String → Worker
entry id url cvm_id = record {
  account_id = "";
  worker_did = id;
  endpoint_url = some url;
  cvm_id = some cvm_id;
  registered_at = 0;
  is_active = true;
}

-- One entry of WORKERS: "did|url", "did|url|cvm_id" or "id:port".
unfoldable pub parse_entry : String → Worker
unfolding includes split
parse_entry trimmed =
    if includes "|" trimmed
    then (let parts = split b'|' trimmed in
        entry (text_given (get_elem? parts 0) "") (text_given (get_elem? parts 1) "")
          (text_given (get_elem? parts 2) ""))
    else (let parts = split b':' trimmed in
        entry (text_given (get_elem? parts 0) "")
          ("http://localhost:" <> text_given (get_elem? parts 1) "undefined") "")

abbrev pub not_blank : String → Bool
not_blank s = not (is_empty s)

abbrev pub has_id : Worker → Bool
has_id w = not_blank w.worker_did

unfoldable pub parse_workers : String → List Worker
unfolding parse_entry split trim
parse_workers text = map parse_entry (filter not_blank (map trim (split b',' text)))

abbrev default_workers : List Worker
default_workers =
    entry "worker1" "http://localhost:3001" ""
    ∷ entry "worker2" "http://localhost:3002" ""
    ∷ entry "worker3" "http://localhost:3003" ""
    ∷ []

abbrev is_set : Option String → Bool
is_set none = false
is_set (some s) = not_blank s

unfoldable pub worker_records_from_env : Config → List Worker
unfolding parse_workers
worker_records_from_env c = filter has_id (
    if is_set c.workers
    then parse_workers (text_given c.workers "")
    else (if c.local_mode then default_workers else []))

-- Whether the body of a probe's response does not contradict the record.
abbrev vouches : Worker → Json → Bool
vouches w null = false
vouches w body = elim (member "workerDid" body) [
  | none ↦ true
  | some did ↦ not (truthy? (some did)) || is_text did w.worker_did
]

unfoldable pub alive : Worker → Reply → Bool
alive w unreachable = false
alive w (response good status none) = false
alive w (response good status (some body)) = good && vouches w body

module _ (E : Env) where
  unfoldable pub probe_worker : Worker → Prog Bool
  unfolding alive
  probe_worker w =
      if is_set w.endpoint_url
      then (do reply ← fetch E (text_given w.endpoint_url "" <> "/"); pure (alive w reply))
      else pure false

  unfoldable pub probe_all : List Worker → Prog (List Worker)
  unfolding probe_worker
  probe_all [] = pure []
  probe_all (w ∷ ws) = do
    up ← probe_worker w
    rest ← probe_all ws
    pure (if up then w ∷ rest else rest)

  -- What the registry's answer leads to.
  unfoldable pub workers_from_registry : Config → Option (List Worker) → Prog (List Worker)
  unfolding probe_all worker_records_from_env
  workers_from_registry c none = pure (worker_records_from_env c)
  workers_from_registry c (some []) = pure (worker_records_from_env c)
  workers_from_registry c (some (w ∷ ws)) = probe_all (filter (λ v. v.is_active) (w ∷ ws))

  unfoldable pub get_active_workers : Config → Prog (List Worker)
  unfolding workers_from_registry worker_records_from_env
  get_active_workers c =
      if c.local_mode && is_set c.workers
      then pure (worker_records_from_env c)
      else (do listed ← list_active_workers E; workers_from_registry c listed)
