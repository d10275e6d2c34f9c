-- ===== src/Provision/Flow.antt =====
-- The asynchronous functions of protocol-api/src/routes/provision.ts that work on one job. A flow changes
-- its own job, reads it, and asks: what stands between two requests runs without a break, and while a
-- request is open, other flows and handlers run; what the program is answered at once, as the clock, counts as
-- a request too. `stuck` is a loop without fuel.
use delibera_xyz.Prelude.{ℕ, String, Bool, Option, none, some, List}
use delibera_xyz.Json.{Json}
use delibera_xyz.Host.{Problem, Outcome, ok, threw, out_of_fuel}
use delibera_xyz.Provision.Jobs.{Job}

-- A value, or what was thrown.
pub data Got (A : Type 0) : Type 0 where
  got : A → Got A
  lost : Problem → Got A

-- The answer of `fetch`: a response with its text, or what reading it throws, and its JSON, if it is some.
pub data Fetched : Type 0 where
  unfetched : Problem → Fetched
  fetched : (good : Bool) (status : ℕ) (text : Got String) (body : Option Json) → Fetched

-- The ed25519 key pair of an agent.
pub record Identity : Type 0 where
  pub did : String
  pub private_key : String

-- A delegation of the Storacha library, archived or with the error of that.
pub data Archive : Type 0 where
  archived : (space_did proof : String) → Archive
  not_archived : (reason : String) → Archive

pub record SshKey : Type 0 where
  pub private_key : String
  pub public_key : String

-- The end of a command: its output, or the text of its error.
pub data Ran : Type 0 where
  ran : (output : String) → Ran
  not_ran : (message : String) → Ran

pub data Request : Type 0 where
  generate_identity : Request
  create_delegation : (coordinator_key coordinator_proof worker_did : String) → Request
  register_org : (name : String) → Request
  provision_cvm : (api_key name compose : String) (envs : List (String × Json)) → Request
  encrypt_env : (envs : List (String × Json)) (key : Json) → Request
  commit_cvm :
      (app_id compose_hash : Json) (encrypted : Option String) (env_keys : List String) → Request
  fetch_cvm : (api_key cvm_id : String) → Request
  fetch_url : String → Request
  generate_ssh_key : Request
  create_droplet : (token : Json) (name region user_data : String) → Request
  get_droplet : (token : Json) (id : String) → Request
  delete_droplet : (token : Json) (id : String) → Request
  probe_port : (ip : String) → Request
  configure_agent : (ip private_key : String) (settings : List (String × Json)) → Request
  watch_webhook : (url secret : String) → Request
  write_memory : (key : String) (value : Json) → Request
  random_uuid : Request
  -- a change call by the command line of NEAR
  run_near : (contract method : String) (args : Json) (deposit : String) → Request
  -- a view call by the RPC of NEAR
  view_contract : (contract method : String) (args : Json) → Request
  read_template : (name : String) → Request
  clock : Request
  sleep : (ms : ℕ) → Request
  -- the end of an awaited function: a break, after which the flow goes on
  turn : Request

abbrev pub Answer : Request → Type 0
Answer generate_identity = Got Identity
Answer (create_delegation key proof did) = Got Archive
Answer (register_org name) = Fetched
Answer (provision_cvm api_key name compose envs) = Got Json
Answer (encrypt_env envs key) = Got String
Answer (commit_cvm app_id hash encrypted keys) = Got Json
Answer (fetch_cvm api_key id) = Fetched
Answer (fetch_url url) = Fetched
Answer generate_ssh_key = Got SshKey
Answer (create_droplet token name region user_data) = Fetched
Answer (get_droplet token id) = Fetched
Answer (delete_droplet token id) = Fetched
Answer (probe_port ip) = Bool
Answer (configure_agent ip key settings) = Got (Unit {0})
Answer (watch_webhook url secret) = Unit
Answer (write_memory key value) = Got (Unit {0})
Answer random_uuid = String
Answer (run_near contract method args deposit) = Ran
Answer (view_contract contract method args) = Fetched
Answer (read_template name) = Got String
Answer clock = ℕ
Answer (sleep ms) = Unit
Answer turn = Unit

pub data Flow (A : Type 0) : Type 0 where
  done : A → Flow A
  raise : Problem → Flow A
  stuck : Flow A
  change : (Job → Job) → Flow A → Flow A
  look : (Job → Flow A) → Flow A
  ask : (q : Request) → (Answer q → Flow A) → Flow A

infixl 5 ◌>>=◌ ◌>>◌
unfoldable pub ◌>>=◌ : {A B : Type 0} → Flow A → (A → Flow B) → Flow B
done a >>= f = f a
raise p >>= f = raise p
stuck >>= f = stuck
change g m >>= f = change g (m >>= f)
look k >>= f = look (λ j. k j >>= f)
ask q k >>= f = ask q (λ r. k r >>= f)

abbrev pub ◌>>◌ : {B : Type 0} → Flow (Unit {0}) → Flow B → Flow B
m >> n = m >>= λ _. n

-- `try { m } catch (p) { h p }`
unfoldable pub rescue : {A : Type 0} → Flow A → (Problem → Flow A) → Flow A
rescue (done a) h = done a
rescue (raise p) h = h p
rescue stuck h = stuck
rescue (change g m) h = change g (rescue m h)
rescue (look k) h = look (λ j. rescue (k j) h)
rescue (ask q k) h = ask q (λ r. rescue (k r) h)

abbrev pub send : (q : Request) → Flow (Answer q)
send q = ask q (λ r. done r)

abbrev pub assign : (Job → Job) → Flow (Unit {0})
assign f = change f (done tt)

abbrev pub own_job : Flow Job
own_job = look (λ j. done j)

abbrev pub received : {A : Type 0} → Got A → Flow A
received (got a) = done a
received (lost p) = raise p

abbrev pub settled : {A : Type 0} → Outcome A → Flow A
settled (ok a) = done a
settled (threw p) = raise p
settled out_of_fuel = stuck

abbrev pub when_given : {A B : Type 0} → Option A → Flow B → (A → Flow B) → Flow B
when_given none d f = d
when_given (some a) d f = f a
