-- ===== src/Provision/System.antt =====
-- The routes of protocol-api/src/routes/provision.ts over one store of jobs: requests that arrive, and open
-- requests of the flows that are answered, in any order.
use delibera_xyz.Prelude.{ℕ, ◌≡◌, String, Option, none, some, List, [], ◌∷◌, ◌++◌}
use delibera_xyz.Prelude.Maps.{find, store}
use delibera_xyz.Json.{Json}
use delibera_xyz.Provision.Jobs.{Job}
use delibera_xyz.Provision.Flow.{Request, Answer, Flow, ask}
use delibera_xyz.Provision.Along.{Made, note, Later}
use delibera_xyz.Provision.Services.{Tools}
use delibera_xyz.Provision.Desk.{Task, Entry, Desk, advance, tasks_of}
use delibera_xyz.Provision.Starting.{worker_route, coordinator_route, ironclaw_route}
use delibera_xyz.Provision.Registering.{register_route, coordinator_register_route}

-- One task of a list, and the others.
pub data Picks (task : Task) : List Task → List Task → Type 0 where
  first : {tasks : List Task} → Picks task (task ∷ tasks) tasks
  after :
      {other : Task} {tasks others : List Task}
      → Picks task tasks others
      → Picks task (other ∷ tasks) (other ∷ others)

-- The flow goes on up to its next request.
unfoldable pub resumed : Flow (Unit {0}) → Job → (now : ℕ) → Made → List Task → Entry
unfolding advance
resumed flow job now made others = record {
  job = (advance flow job).0;
  tasks = others ++ tasks_of (advance flow job).1 now;
  made = made;
}

-- The id of a new job is that of no other.
pub data Step (T : Tools) (desk : Desk) : Desk → Type 0 where
  worker_requested :
      (body : Option Json) (id : String) (now : ℕ)
      → find id desk ≡ none
      → Step T desk (worker_route T body id now desk).1
  coordinator_requested :
      (body : Option Json) (id : String) (now : ℕ)
      → find id desk ≡ none
      → Step T desk (coordinator_route T body id now desk).1
  ironclaw_requested :
      (body : Option Json) (id : String) (now : ℕ)
      → find id desk ≡ none
      → Step T desk (ironclaw_route T body id now desk).1
  register_requested :
      (body : Option Json) (now : ℕ) → Step T desk (register_route T body now desk).1
  coordinator_register_requested :
      (body : Option Json) → Step T desk (coordinator_register_route T body desk).1
  answered :
      (id : String) {entry : Entry} {q : Request} {k : Answer q → Flow (Unit {0})} {since : ℕ}
      {others : List Task} (r : Answer q) (now : ℕ)
      → find id desk ≡ some entry
      → Picks (record { flow = ask q k; since = since }) entry.tasks others
      → Later q since r now
      → Step T desk
          (store id (resumed (k r) entry.job now (note T.codec q r entry.made) others) desk)

pub data Reach (T : Tools) : Desk → Type 0 where
  start : Reach T []
  onward : {desk desk' : Desk} → Reach T desk → Step T desk desk' → Reach T desk'
