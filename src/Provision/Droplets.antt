-- ===== src/Provision/Droplets.antt =====
-- The deployment on a droplet: ironclaw-provisioner.ts and deployIronClawWorker of ironclaw-deployer.ts in
-- protocol-api/src/ironclaw. The commands of the SSH configurator and the watch for the webhook, which runs
-- in the background, are asked. An address of a droplet is read as a text.
use delibera_xyz.Prelude.{
  ℕ, zero, suc, ◌+◌, String, true, false, Option, none, some, List, [], ◌∷◌, ltb, if◌then◌else◌,
}
use delibera_xyz.Prelude.Text.{◌<>◌, last_chars}
use delibera_xyz.Json.{
  Json, null, arr, list_of, Codec, member, member?, truthy, is_text, template_text,
}
use delibera_xyz.Host.{Problem, error, type_error, Outcome, ok, threw, out_of_fuel}
use delibera_xyz.Provision.Jobs.{
  Status, creating_droplet, waiting_for_ip, waiting_for_ssh, configuring_agent, starting_agent,
  complete, Job, updated,
}
use delibera_xyz.Provision.Flow.{
  Got, got, lost, Fetched, unfetched, fetched, SshKey, Request, generate_ssh_key, get_droplet,
  delete_droplet, probe_port, configure_agent, watch_webhook, clock, sleep, turn, Flow, done, raise,
  stuck, ◌>>=◌, ◌>>◌, rescue, send, assign, received, settled, when_given,
}
use delibera_xyz.Provision.Services.{Tools, value_text}
use delibera_xyz.Provision.CloudInit.{render_cloud_init}

-- IronClawWorkerConfig: what the deployer reads itself, and the settings that the configurator writes.
pub record IronClawConfig : Type 0 where
  pub do_api_token : Json
  pub do_region : String
  pub webhook_secret : String
  pub webhook_port : String
  pub settings : List (String × Json)

-- DeployedIronClawWorker
pub record DeployedDroplet : Type 0 where
  pub droplet_id : Option Json
  pub droplet_ip : String
  pub webhook_url : String
  pub cvm_id : String

-- onProgress, with a detail.
abbrev pub progress : Status → (detail : String) → Job → Job
progress status detail job = record (updated status job) { step = detail }

-- The address of a network whose type is public, or what follows it.
abbrev pub public_or :
    (type ip_address : Option Json) → Outcome (Option Json) → Outcome (Option Json)
public_or none ip_address rest = rest
public_or (some type) ip_address rest = if is_text type "public" then ok ip_address else rest

-- `v4.find(n => n.type === 'public')?.ip_address`
unfoldable pub find_public : List Json → Outcome (Option Json)
find_public [] = ok none
find_public (null ∷ ns) = threw type_error
find_public (n ∷ ns) = public_or (member "type" n) (member "ip_address" n) (find_public ns)

-- An address that counts as true.
abbrev pub address_text : Codec → Outcome (Option Json) → Outcome (Option String)
address_text c (threw p) = threw p
address_text c out_of_fuel = out_of_fuel
address_text c (ok none) = ok none
address_text c (ok (some ip)) = if truthy ip then ok (some (template_text c ip)) else ok none

abbrev pub ip_among : Codec → Option Json → Outcome (Option String)
ip_among c (some (arr ns)) = address_text c (find_public (list_of ns))
ip_among c v4 = threw type_error

unfoldable pub public_ip : Codec → Option Json → Outcome (Option String)
unfolding find_public
public_ip c droplet = ip_among c (member? "v4" (member? "networks" droplet))

-- `droplet.id`
abbrev pub id_of : Option Json → Flow (Option Json)
id_of none = raise type_error
id_of (some null) = raise type_error
id_of (some j) = done (member "id" j)

-- The rounds that are enough at a deadline of 5 minutes, and at one of 180 s: each sleeps 10 s.
abbrev pub ip_fuel : ℕ
ip_fuel = 31

abbrev pub ssh_fuel : ℕ
ssh_fuel = 19

module _ (T : Tools) where
  -- The error of a response that is not ok, or what the reading of its text has thrown.
  abbrev pub failure_of : (action : String) → (status : ℕ) → (detail : Got String) → Problem
  failure_of action status (lost p) = p
  failure_of action status (got detail) =
      error ("DO " <> (action <> (" failed (" <> (T.codec.decimal status <> (")" <> detail)))))

  abbrev pub droplet_of : (action : String) → (detail : Got String) → Fetched → Flow (Option Json)
  droplet_of action detail (unfetched p) = raise p
  droplet_of action detail (fetched false status text body) =
      raise (failure_of action status detail)
  droplet_of action detail (fetched true status text none) = raise (error T.syntax_error)
  droplet_of action detail (fetched true status text (some null)) = raise type_error
  droplet_of action detail (fetched true status text (some body)) = done (member "droplet" body)

  -- `: ${await res.text()}`
  abbrev pub detail_of : Got String → Got String
  detail_of (got text) = got (": " <> text)
  detail_of (lost p) = lost p

  abbrev pub text_detail : Fetched → Got String
  text_detail (unfetched p) = lost p
  text_detail (fetched good status text body) = detail_of text

  -- createDroplet with the `droplet.id` of its caller.
  unfoldable pub create_droplet :
      (token : Json) → (name region user_data : String) → Flow (Option Json)
  create_droplet token name region user_data = do
    answer ← send (Request.create_droplet token name region user_data)
    droplet ← droplet_of "createDroplet" (text_detail answer) answer
    id_of droplet

  unfoldable pub ip_loop : ℕ → (token : Json) → (id : String) → (deadline : ℕ) → Flow String
  unfolding public_ip
  ip_loop zero token id deadline = stuck
  ip_loop (suc fuel) token id deadline = do
    now ← send clock
    if ltb now deadline
        then (do
          answer ← send (get_droplet token id)
          droplet ← droplet_of "getDroplet" (got "") answer
          ip ← settled (public_ip T.codec droplet)
          when_given ip (do send (sleep 10000); ip_loop fuel token id deadline)
              (λ found. done found))
        else raise (error ("Droplet " <> (id <> " IP timeout after 5 minutes")))

  -- waitForDropletIp for 5 minutes
  unfoldable pub wait_for_droplet_ip : (token : Json) → (id : String) → Flow String
  unfolding ip_loop
  wait_for_droplet_ip token id = do now ← send clock; ip_loop ip_fuel token id (now + 300000)

  unfoldable pub ssh_loop : ℕ → (ip : String) → (deadline : ℕ) → Flow (Unit {0})
  ssh_loop zero ip deadline = stuck
  ssh_loop (suc fuel) ip deadline = do
    now ← send clock
    if ltb now deadline
        then (do
          open_now ← send (probe_port ip)
          if open_now then done tt else (do send (sleep 10000); ssh_loop fuel ip deadline))
        else raise (error ("SSH port 2222 not reachable on " <> (ip <> " after 180s")))

  -- waitForSshPort
  unfoldable pub wait_for_ssh_port : (ip : String) → Flow (Unit {0})
  unfolding ssh_loop
  wait_for_ssh_port ip = do now ← send clock; ssh_loop ssh_fuel ip (now + 180000)

  -- destroyDroplet: whatever the answer, it returns.
  unfoldable pub destroy_droplet : (token : Json) → (id : String) → Flow (Unit {0})
  destroy_droplet token id = do answer ← send (delete_droplet token id); done tt

  -- The end of deployIronClawWorker, whose return ends an awaited function.
  unfoldable pub start_agent :
      IronClawConfig → (id : Option Json) → (ip : String) → Flow DeployedDroplet
  start_agent config id ip = do
    assign (progress starting_agent "IronClaw started in tmux session")
    let url = "http://" <> (ip <> (":" <> (config.webhook_port <> "/webhook")))
    send (watch_webhook url config.webhook_secret)
    assign (updated complete)
    send turn
    done (record {
      droplet_id = id;
      droplet_ip = ip;
      webhook_url = url;
      cvm_id = "ironclaw-" <> value_text T.codec id;
    })

  unfoldable pub configure_droplet :
      IronClawConfig → SshKey → (id : Option Json) → (ip : String) → Flow DeployedDroplet
  unfolding start_agent
  configure_droplet config key id ip = do
    assign (progress configuring_agent "Running SSH configurator...")
    answer ← send (configure_agent ip key.private_key config.settings)
    received answer
    start_agent config id ip

  unfoldable pub connect_droplet :
      IronClawConfig → SshKey → (id : Option Json) → (ip : String) → Flow DeployedDroplet
  unfolding wait_for_ssh_port configure_droplet
  connect_droplet config key id ip = do
    assign (progress waiting_for_ssh ("Waiting for SSH port 2222 on " <> (ip <> "...")))
    wait_for_ssh_port ip
    configure_droplet config key id ip

  -- What deployIronClawWorker does with a droplet.
  unfoldable pub set_up_droplet :
      IronClawConfig → SshKey → (id : Option Json) → Flow DeployedDroplet
  unfolding wait_for_droplet_ip connect_droplet
  set_up_droplet config key id = do
    assign (
        progress waiting_for_ip
          ("Droplet id=" <> (value_text T.codec id <> ", waiting for public IP...")))
    ip ← wait_for_droplet_ip config.do_api_token (value_text T.codec id)
    connect_droplet config key id ip

  -- The catch clause: a droplet with an id is destroyed.
  abbrev pub destroyed_after : (token : Json) → Option Json → Problem → Flow DeployedDroplet
  destroyed_after token none p = raise p
  destroyed_after token (some id) p = do destroy_droplet token (template_text T.codec id); raise p

  unfoldable pub guard_droplet : IronClawConfig → SshKey → (id : Option Json) → Flow DeployedDroplet
  unfolding rescue set_up_droplet destroy_droplet
  guard_droplet config key id =
      rescue (set_up_droplet config key id) (destroyed_after config.do_api_token id)

  unfoldable pub provide_droplet : IronClawConfig → SshKey → Flow DeployedDroplet
  unfolding create_droplet guard_droplet render_cloud_init
  provide_droplet config key = do
    now ← send clock
    id ←
        create_droplet config.do_api_token ("delibera-ironclaw-" <> last_chars 4 (T.base36 now))
          config.do_region (render_cloud_init key.public_key)
    guard_droplet config key id

  -- deployIronClawWorker
  unfoldable pub deploy_ironclaw_worker : IronClawConfig → Flow DeployedDroplet
  unfolding provide_droplet
  deploy_ironclaw_worker config = do
    assign (progress creating_droplet "Generating ephemeral SSH keypair...")
    answer ← send generate_ssh_key
    key ← received answer
    provide_droplet config key
