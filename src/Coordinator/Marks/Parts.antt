-- ===== src/Coordinator/Marks/Parts.antt =====
-- The steps of a round that neither write the coordinator's status nor call the chain.
use delibera_xyz.Prelude.{refl, String, Bool, Option, none, some, List, [], ◌∷◌}
use delibera_xyz.Json.{Json, null}
use delibera_xyz.Host.{Env, Config, Worker, Reply, Prog}
use delibera_xyz.Coordinator.Marks.{Quiet}
use delibera_xyz.Coordinator.Marks.Rules.{quiet_rules, Quiet-bind, Quiet-if, Quiet-pure}
use delibera_xyz.Coordinator.Names.{
  cache, store_name, fall_back, fetch_name, resolve_name, resolve_all,
}
use delibera_xyz.Coordinator.Discovery.{
  probe_worker, probe_all, workers_from_registry, get_active_workers,
}
use delibera_xyz.Coordinator.Dispatch.{
  set_pending, send_all, or_else, trigger_http, trigger_webhooks, trigger_workers,
}

Quiet-cache : Quiet cache
unfolding cache
Quiet-cache = record { at = λ s. refl }

Quiet-store_name : (did name : String) → Quiet (store_name did name)
unfolding store_name
Quiet-store_name did name = record { at = λ s. refl }

module _ (E : Env) where
  fetch_name-Quiet : (did : String) → Quiet (fetch_name E did)
  unfolding fetch_name fall_back
  fetch_name-Quiet did = search (quiet_rules, Quiet-store_name) depth 9

  resolve_name-Quiet : (did : String) → Quiet (resolve_name E did)
  unfolding resolve_name
  resolve_name-Quiet did = search (quiet_rules, Quiet-cache, fetch_name-Quiet) depth 9

  pub resolve_all-Quiet : (dids : List String) → Quiet (resolve_all E dids)
  unfolding resolve_all
  resolve_all-Quiet [] = Quiet-cache
  resolve_all-Quiet (did ∷ dids) =
      Quiet-bind _ _ (resolve_name-Quiet did) (λ _. resolve_all-Quiet dids)

  probe_worker-Quiet : (w : Worker) → Quiet (probe_worker E w)
  unfolding probe_worker
  probe_worker-Quiet w = search quiet_rules

  probe_all-Quiet : (ws : List Worker) → Quiet (probe_all E ws)
  unfolding probe_all
  probe_all-Quiet [] = Quiet-pure []
  probe_all-Quiet (w ∷ ws) =
      Quiet-bind _ _ (probe_worker-Quiet w)
        λ up. Quiet-bind _ _ (probe_all-Quiet ws) λ rest. Quiet-pure _

  workers_from_registry-Quiet :
      (c : Config) (ws : Option (List Worker)) → Quiet (workers_from_registry E c ws)
  unfolding workers_from_registry
  workers_from_registry-Quiet c none = Quiet-pure _
  workers_from_registry-Quiet c (some []) = Quiet-pure _
  workers_from_registry-Quiet c (some (w ∷ ws)) = probe_all-Quiet _

  pub get_active_workers-Quiet : (c : Config) → Quiet (get_active_workers E c)
  unfolding get_active_workers
  get_active_workers-Quiet c = search (quiet_rules, workers_from_registry-Quiet)

  pub set_pending-Quiet : (ws : List Worker) → Quiet (set_pending E ws)
  unfolding set_pending
  set_pending-Quiet [] = Quiet-pure tt
  set_pending-Quiet (w ∷ ws) = Quiet-bind _ _ (search quiet_rules) λ _. set_pending-Quiet ws

  send_all-Quiet :
      (url : Worker → String) (signature body : String) (counts : Reply → Bool) (ws : List Worker)
      → Quiet (send_all E url signature body counts ws)
  unfolding send_all
  send_all-Quiet url signature body counts [] = Quiet-pure []
  send_all-Quiet url signature body counts (w ∷ ws) = Quiet-bind _ _ (search quiet_rules) λ reply.
      Quiet-if _ _ _ (send_all-Quiet url signature body counts ws) (
        Quiet-bind _ _ (search quiet_rules)
          λ _. Quiet-bind _ _ (send_all-Quiet url signature body counts ws) λ _. Quiet-pure _)

  trigger_http-Quiet :
      (c : Config) (task : String) (ws : List Worker) → Quiet (trigger_http E c task ws)
  unfolding trigger_http
  trigger_http-Quiet c task ws = search (quiet_rules, send_all-Quiet)

  pub or_else-Quiet : (o : Option Json) (d : Prog Json) → Quiet d → Quiet (or_else E o d)
  unfolding or_else
  or_else-Quiet none d h = h
  or_else-Quiet (some null) d h = h
  or_else-Quiet (some j) d h = Quiet-pure j

  trigger_webhooks-Quiet :
      (c : Config) (task : String) (ws : List Worker) → Quiet (trigger_webhooks E c task ws)
  unfolding trigger_webhooks
  trigger_webhooks-Quiet c task [] = Quiet-pure []
  trigger_webhooks-Quiet c task (w ∷ ws) =
      search (quiet_rules, or_else-Quiet, send_all-Quiet) depth 12

  pub trigger_workers-Quiet :
      (c : Config) (task : String) (ws : List Worker) → Quiet (trigger_workers E c task ws)
  unfolding trigger_workers
  trigger_workers-Quiet c task ws =
      search (quiet_rules, set_pending-Quiet, trigger_http-Quiet, trigger_webhooks-Quiet) depth 9
