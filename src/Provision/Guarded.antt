-- ===== src/Provision/Guarded.antt =====
-- How the provisioning of an IronClaw worker ends, in protocol-api/src/routes/provision.ts with
-- ironclaw/ironclaw-deployer.ts: what becomes of its droplet and of the user's token.
use text.Mathlib.Text.{◌==◌}
use delibera_xyz.Prelude.{
  ℕ, ◌≡◌, refl, ap, ◌∙◌, String, false, not, Option, none, some, List, [], ◌∷◌, filter,
}
use delibera_xyz.Prelude.Text.{◌<>◌}
use delibera_xyz.Prelude.Maps.{eq_refl}
use delibera_xyz.Json.{Json, template_text}
use delibera_xyz.Host.{Problem}
use delibera_xyz.Provision.Jobs.{waiting_for_ip, waiting_for_ssh, configuring_agent, Job}
use delibera_xyz.Provision.Flow.{Got, got, lost, Identity, SshKey, received, ◌>>=◌, ◌>>◌}
use delibera_xyz.Provision.Along.{
  Made, raised, Post, is_awaiting, Along, returns, raises, changes, asks,
}
use delibera_xyz.Provision.Along.Rules.{Follows, Handles, Along-rescue, IsCalm-then}
use delibera_xyz.Provision.Services.{Tools, value_text}
use delibera_xyz.Provision.Droplets.{
  IronClawConfig, DeployedDroplet, progress, start_agent, configure_droplet, connect_droplet,
  set_up_droplet, destroy_droplet, destroyed_after, guard_droplet, wait_for_droplet_ip,
  wait_for_ssh_port,
}
use delibera_xyz.Provision.IronClaw.{finish_droplet, give_up_droplet}
use delibera_xyz.Provision.Provisioned.{id_texts, ready, broken, EndsProvisioned}
use delibera_xyz.Provision.Deadlines.{wait_for_droplet_ip-IsCalm, wait_for_ssh_port-IsCalm}

-- What stays while the droplets `ids` are there.
abbrev pub CarriedWith : Identity → List String → Job → Made → Type 0
CarriedWith i ids j g =
    (j.worker_did ≡ i.did)
    × (j.storacha_private_key ≡ i.private_key)
    × (g.identities ≡ i ∷ [])
    × (g.droplets ≡ ids)

-- A list of one text without this text.
without_only : (d : String) → filter (λ x. not (x == d)) (d ∷ []) ≡ []
without_only d = rw (eq_refl d) refl

module _ (T : Tools) where
  abbrev pub IronEnds : Post (Unit {0})
  IronEnds = Handles T.codec (give_up_droplet T) (EndsProvisioned T.codec)

  pub give_up_droplet-Ends :
      (t : ℕ) (j : Job) (g : Made) (p : Problem) → g.droplets ≡ [] → IronEnds t j g (raised p)
  unfolding ◌>>=◌
  give_up_droplet-Ends t j g p e =
      changes (changes (returns (broken (T.describe p) refl refl e refl)))

  abbrev pub Deploys : Post DeployedDroplet
  Deploys = Follows T.codec finish_droplet IronEnds

  finish_droplet-Along :
      (i : Identity) (d : DeployedDroplet) (t : ℕ) (j : Job) (g : Made)
      → CarriedWith i (id_texts T.codec d.droplet_id) j g
      → Along T.codec IronEnds (finish_droplet d) t j g
  unfolding finish_droplet ◌>>=◌
  finish_droplet-Along i d t j g h =
      changes (changes (changes (returns (ready i d.webhook_url refl refl h.2 h.0 h.1 h.3 refl))))

  -- What is thrown while the droplet is set up: it is destroyed.
  destroyed-Guards :
      (token : Json) (id : Option Json) (i : Identity) (t : ℕ) (j : Job) (g : Made) (p : Problem)
      → CarriedWith i (id_texts T.codec id) j g
      → is_awaiting j.status ≡ false
      → Handles T.codec (destroyed_after T token id) Deploys t j g (raised p)
  unfolding destroy_droplet ◌>>=◌
  destroyed-Guards token none i t j g p h s = raises (give_up_droplet-Ends t j g p h.3)
  destroyed-Guards token (some id) i t j g p h s = asks s λ r t' later. raises (
      give_up_droplet-Ends t' j _ p (
        ap (filter (λ d. not (d == template_text T.codec id))) h.3
        ∙ without_only (template_text T.codec id)))

  module _ (config : IronClawConfig) (key : SshKey) (id : Option Json) (i : Identity) where
    abbrev Guards : Post DeployedDroplet
    Guards = Handles T.codec (destroyed_after T config.do_api_token id) Deploys

    start_agent-Along :
        (ip : String) (t : ℕ) (j : Job) (g : Made)
        → CarriedWith i (id_texts T.codec id) j g
        → Along T.codec Guards (start_agent T config id ip) t j g
    unfolding start_agent ◌>>=◌
    start_agent-Along ip t j g h = changes (
        asks refl
          λ r t1 l1. changes (asks refl λ r' t2 l2. returns (finish_droplet-Along i _ t2 _ g h)))

    -- The job while the droplet is set up.
    abbrev Guarded : Job → Made → Type 0
    Guarded j g = CarriedWith i (id_texts T.codec id) j g

    configure_droplet-Along :
        (ip : String) (t : ℕ) (j : Job) (g : Made)
        → Guarded j g
        → Along T.codec Guards (configure_droplet T config key id ip) t j g
    unfolding configure_droplet ◌>>=◌
    configure_droplet-Along ip t j g h =
        let j' : Job = progress configuring_agent "Running SSH configurator..." j in
        changes (asks refl λ r t' later. configured r t' j' g h refl)
      where
        configured :
            (r : Got (Unit {0})) (t' : ℕ) (j' : Job) (g' : Made)
            → Guarded j' g'
            → is_awaiting j'.status ≡ false
            → Along T.codec Guards (received r >> start_agent T config id ip) t' j' g'
        configured (got u) t' j' g' h' s = start_agent-Along ip t' j' g' h'
        configured (lost p) t' j' g' h' s =
            raises (destroyed-Guards config.do_api_token id i t' j' g' p h' s)

    connect_droplet-Along :
        (ip : String) (t : ℕ) (j : Job) (g : Made)
        → Guarded j g
        → Along T.codec Guards (connect_droplet T config key id ip) t j g
    unfolding connect_droplet ◌>>=◌
    connect_droplet-Along ip t j g h =
        let j' : Job =
          progress waiting_for_ssh ("Waiting for SSH port 2222 on " <> (ip <> "...")) j in
        changes (
          IsCalm-then T.codec (wait_for_ssh_port T ip) (λ u. configure_droplet T config key id ip)
            (wait_for_ssh_port-IsCalm T ip t) refl (λ t' u. configure_droplet-Along ip t' j' g h)
            (λ t' p. destroyed-Guards config.do_api_token id i t' j' g p h refl))

    set_up_droplet-Along :
        (t : ℕ) (j : Job) (g : Made)
        → Guarded j g
        → Along T.codec Guards (set_up_droplet T config key id) t j g
    unfolding set_up_droplet ◌>>=◌
    set_up_droplet-Along t j g h =
        let text : String = value_text T.codec id in
        let j' : Job =
          progress waiting_for_ip ("Droplet id=" <> (text <> ", waiting for public IP...")) j in
        changes (
          IsCalm-then T.codec (wait_for_droplet_ip T config.do_api_token text)
            (connect_droplet T config key id)
            (wait_for_droplet_ip-IsCalm T config.do_api_token text t) refl
            (λ t' ip. connect_droplet-Along ip t' j' g h)
            (λ t' p. destroyed-Guards config.do_api_token id i t' j' g p h refl))

    pub guard_droplet-Along :
        (t : ℕ) (j : Job) (g : Made)
        → Guarded j g
        → Along T.codec Deploys (guard_droplet T config key id) t j g
    unfolding guard_droplet
    guard_droplet-Along t j g h =
        Along-rescue T.codec (destroyed_after T config.do_api_token id) Deploys
          (set_up_droplet-Along t j g h)
