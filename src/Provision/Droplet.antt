-- ===== src/Provision/Droplet.antt =====
-- The provisioning of an IronClaw worker as a whole: protocol-api/src/routes/provision.ts.
use delibera_xyz.Prelude.{ℕ, ◌≡◌, refl, ap, String, true, false, Option, none, some, [], ◌∷◌}
use delibera_xyz.Json.{Json, null, member, member?, template_text}
use delibera_xyz.Host.{type_error}
use delibera_xyz.Provision.Jobs.{
  generating_identity, creating_space, creating_droplet, Job, updated,
}
use delibera_xyz.Provision.Flow.{
  Got, got, lost, Fetched, unfetched, fetched, Identity, SshKey, Request, generate_identity,
  received, ◌>>=◌, rescue,
}
use delibera_xyz.Provision.Along.{
  Made, nothing_made, id_text, add_droplet, note, is_awaiting, Along, raises, changes, looks, asks,
}
use delibera_xyz.Provision.Along.Rules.{Along-bind, Along-rescue, IsCalm-then}
use delibera_xyz.Provision.Services.{
  Tools, Delegation, generate_worker_identity, create_worker_delegation,
}
use delibera_xyz.Prelude.Text.{◌<>◌, last_chars}
use delibera_xyz.Provision.CloudInit.{render_cloud_init}
use delibera_xyz.Provision.Droplets.{
  IronClawConfig, progress, id_of, text_detail, droplet_of, create_droplet, guard_droplet,
  provide_droplet, deploy_ironclaw_worker,
}
use delibera_xyz.Provision.Workers.{with_identity}
use delibera_xyz.Provision.IronClaw.{
  with_secret, ironclaw_config, finish_droplet, deploy_ironclaw, prepare_ironclaw,
  delegate_ironclaw, set_up_ironclaw_worker, give_up_droplet, provision_ironclaw_worker,
}
use delibera_xyz.Provision.Calm.{create_worker_delegation-IsCalm}
use delibera_xyz.Provision.Provisioned.{EndsProvisioned}
use delibera_xyz.Provision.Guarded.{
  CarriedWith, IronEnds, Deploys, give_up_droplet-Ends, guard_droplet-Along,
}

module _ (T : Tools) where
  module _ (config : IronClawConfig) (key : SshKey) (i : Identity) where
    with_id-Along :
        (id : Option Json) (t : ℕ) (j : Job) (g : Made)
        → CarriedWith i [] j g
        → Along T.codec
            (Deploys T)
            (guard_droplet T config key id)
            t
            j
            (add_droplet (id_text T.codec id) g)
    with_id-Along none t j g h = guard_droplet-Along T config key none i t j g h
    with_id-Along (some id) t j g h =
        guard_droplet-Along T config key (some id) i t j
          (record g { droplets = template_text T.codec id ∷ g.droplets })
          (h.0, h.1, h.2, ap (λ ds. template_text T.codec id ∷ ds) h.3)

    -- The droplet of an answer, with its id or without one.
    identified-Along :
        (droplet : Option Json) (t : ℕ) (j : Job) (g : Made)
        → CarriedWith i [] j g
        → Along T.codec
            (Deploys T)
            (id_of droplet >>= guard_droplet T config key)
            t
            j
            (add_droplet (id_text T.codec (member? "id" droplet)) g)
    unfolding ◌>>=◌
    identified-Along none t j g h = raises (give_up_droplet-Ends T t j g type_error h.3)
    identified-Along (some null) t j g h = raises (give_up_droplet-Ends T t j g type_error h.3)
    identified-Along (some droplet) t j g h = with_id-Along (member "id" droplet) t j g h

    created-Along :
        (name region user_data : String) (r : Fetched) (t : ℕ) (j : Job) (g : Made)
        → CarriedWith i [] j g
        → Along T.codec
            (Deploys T)
            (droplet_of T "createDroplet" (text_detail T r) r
              >>= id_of
              >>= guard_droplet T config key)
            t
            j
            (note T.codec (Request.create_droplet config.do_api_token name region user_data) r g)
    unfolding ◌>>=◌
    created-Along name region user_data (unfetched p) t j g h =
        raises (give_up_droplet-Ends T t j g p h.3)
    created-Along name region user_data (fetched false status text body) t j g h =
        raises (give_up_droplet-Ends T t j g _ h.3)
    created-Along name region user_data (fetched true status text none) t j g h =
        raises (give_up_droplet-Ends T t j g _ h.3)
    created-Along name region user_data (fetched true status text (some null)) t j g h =
        raises (give_up_droplet-Ends T t j g type_error h.3)
    created-Along name region user_data (fetched true status text (some body)) t j g h =
        identified-Along (member "droplet" body) t j g h

    provide_droplet-Along :
        (t : ℕ) (j : Job) (g : Made)
        → CarriedWith i [] j g
        → is_awaiting j.status ≡ false
        → Along T.codec (Deploys T) (provide_droplet T config key) t j g
    unfolding provide_droplet create_droplet ◌>>=◌
    provide_droplet-Along t j g h s = asks s λ now t1 l1. asks s λ r t2 l2.
        created-Along ("delibera-ironclaw-" <> last_chars 4 (T.base36 now)) config.do_region
          (render_cloud_init key.public_key) r t2 j g h

  keyed-Along :
      (config : IronClawConfig) (i : Identity) (r : Got SshKey) (t : ℕ) (j : Job) (g : Made)
      → CarriedWith i [] j g
      → is_awaiting j.status ≡ false
      → Along T.codec (Deploys T) (received r >>= provide_droplet T config) t j g
  unfolding ◌>>=◌
  keyed-Along config i (got key) t j g h s = provide_droplet-Along config key i t j g h s
  keyed-Along config i (lost p) t j g h s = raises (give_up_droplet-Ends T t j g p h.3)

  deploy_ironclaw_worker-Along :
      (config : IronClawConfig) (i : Identity) (t : ℕ) (j : Job) (g : Made)
      → CarriedWith i [] j g
      → Along T.codec (Deploys T) (deploy_ironclaw_worker T config) t j g
  unfolding deploy_ironclaw_worker ◌>>=◌
  deploy_ironclaw_worker-Along config i t j g h =
      let j' : Job = progress creating_droplet "Generating ephemeral SSH keypair..." j in
      changes (asks refl λ r t' later. keyed-Along config i r t' j' g h refl)

  deploy_ironclaw-Along :
      (i : Identity) (d : Delegation) (secret : String) (t : ℕ) (j : Job) (g : Made)
      → CarriedWith i [] j g
      → is_awaiting j.status ≡ false
      → Along T.codec (IronEnds T) (deploy_ironclaw T i d secret) t j g
  unfolding deploy_ironclaw ◌>>=◌
  deploy_ironclaw-Along i d secret t j g h s =
      let j' : Job = with_secret secret j in
      let config : IronClawConfig = ironclaw_config T i d secret j' in
      changes (
        asks s λ r t' later. looks (
          Along-bind T.codec {f = finish_droplet} {m = deploy_ironclaw_worker T config}
            (deploy_ironclaw_worker-Along config i t' j' g h)))

  prepare_ironclaw-Along :
      (i : Identity) (d : Delegation) (t : ℕ) (j : Job) (g : Made)
      → CarriedWith i [] j g
      → is_awaiting j.status ≡ false
      → Along T.codec (IronEnds T) (prepare_ironclaw T i d) t j g
  unfolding prepare_ironclaw ◌>>=◌
  prepare_ironclaw-Along i d t j g h s =
      asks s λ secret t' later. deploy_ironclaw-Along i d secret t' j g h s

  delegate_ironclaw-Along :
      (i : Identity) (t : ℕ) (j : Job)
      → Along T.codec
          (IronEnds T)
          (delegate_ironclaw T i)
          t
          j
          (record { identities = i ∷ []; droplets = [] })
  unfolding delegate_ironclaw ◌>>=◌
  delegate_ironclaw-Along i t j =
      let j' : Job = updated creating_space (with_identity i j) in
      let h : CarriedWith i [] j' (record { identities = i ∷ []; droplets = [] }) =
        (refl, refl, refl, refl) in
      changes (
        changes (
          IsCalm-then T.codec (create_worker_delegation T i.did) (prepare_ironclaw T i)
            (create_worker_delegation-IsCalm T i.did t) refl
            (λ t' d. prepare_ironclaw-Along i d t' j' _ h refl)
            (λ t' p. give_up_droplet-Ends T t' j' _ p refl)))

  identity-Along :
      (r : Got Identity) (t : ℕ) (j : Job)
      → Along T.codec
          (IronEnds T)
          (received r >>= delegate_ironclaw T)
          t
          j
          (note T.codec generate_identity r nothing_made)
  unfolding ◌>>=◌
  identity-Along (got i) t j = delegate_ironclaw-Along i t j
  identity-Along (lost p) t j = raises (give_up_droplet-Ends T t j nothing_made p refl)

  -- From every job, whatever its requests are answered, if the clock does not run back and no timer fires
  -- early, the provisioning of an IronClaw worker returns, with enough fuel for its loops, and throws nothing. Then
  -- the job waits for its signature with an endpoint, the key pair of the one identity that was
  -- generated, no token of the user, and the only droplet that was created and not asked to be deleted, if its
  -- id was given, on record; or it has failed with a message, without the token, and each such
  -- droplet has been asked to be deleted. While a request is open, the job does not wait for its signature.
  pub provision_ironclaw_worker-Along :
      (t : ℕ) (j : Job)
      → Along T.codec (EndsProvisioned T.codec) (provision_ironclaw_worker T) t j nothing_made
  unfolding provision_ironclaw_worker set_up_ironclaw_worker generate_worker_identity ◌>>=◌ rescue
  provision_ironclaw_worker-Along t j =
      Along-rescue T.codec (give_up_droplet T) (EndsProvisioned T.codec)
        (changes (asks refl λ r t' later. identity-Along r t' (updated generating_identity j)))
