-- ===== src/Provision/Provisioned.antt =====
-- How the provisioning of a worker ends, in protocol-api/src/routes/provision.ts.
use delibera_xyz.Prelude.{
  ℕ, ◌≡◌, refl, String, false, Option, none, some, List, [], ◌∷◌, Option-cases, inl, inr,
}
use delibera_xyz.Prelude.Text.{set_text}
use delibera_xyz.Json.{Json, Codec, truthy?, template_text}
use delibera_xyz.Host.{Problem}
use delibera_xyz.Provision.Jobs.{
  Status, awaiting_near_signature, failed, generating_identity, creating_space, waiting_for_url,
  deploying_phala, preparing_phala, Job, updated, failed_with, awaiting_at,
}
use delibera_xyz.Provision.Flow.{
  Got, got, lost, Identity, generate_identity, received, Flow, ◌>>=◌, assign, settled, rescue,
}
use delibera_xyz.Provision.Along.{
  Made, nothing_made, returned, raised, Post, is_awaiting, Along, returns, raises, changes, looks,
  asks, note,
}
use delibera_xyz.Provision.Along.Rules.{Handles, Along-rescue, IsCalm-then}
use delibera_xyz.Provision.Services.{
  Tools, Delegation, message_of, cvm_name, generate_worker_identity, create_worker_delegation,
}
use delibera_xyz.Provision.Workers.{
  with_identity, with_deployed, at_endpoint, worker_env, await_endpoint, give_up, finish_deployment,
  deploy_named, deploy_worker, prepare_worker, delegate_worker, set_up_worker, provision_worker,
  endpoint_of,
}
use delibera_xyz.Provision.Compose.{worker_compose_content}
use delibera_xyz.Provision.Phala.{wait_for_healthy, deploy_cvm}
use delibera_xyz.Provision.Calm.{
  wait_for_healthy-IsCalm, deploy_cvm-IsCalm, create_worker_delegation-IsCalm, cvm_name-IsCalm,
}

abbrev pub id_texts : Codec → Option Json → List String
id_texts c none = []
id_texts c (some id) = template_text c id ∷ []

-- The droplet of a job, by the text of its id.
abbrev pub droplets_of : Codec → Job → List String
droplets_of c job = id_texts c job.droplet_id

-- The job keeps no token of the user.
abbrev pub IsCleared : Job → Type 0
IsCleared job = truthy? job.do_api_token ≡ false

-- The end of a provisioning: the job has its last status with the one identity that was generated, an
-- endpoint, and the droplets that were not asked to be deleted, or it has failed with a message, and none are such.
pub data Provisioned (c : Codec) (final : Status) (j : Job) (g : Made) : Type 0 where
  ready :
      (i : Identity) (url : String)
      → j.status ≡ final
      → j.phala_endpoint ≡ some url
      → g.identities ≡ i ∷ []
      → j.worker_did ≡ i.did
      → j.storacha_private_key ≡ i.private_key
      → g.droplets ≡ droplets_of c j
      → IsCleared j
      → Provisioned c final j g
  broken :
      (message : String)
      → j.status ≡ failed
      → j.error ≡ some message
      → g.droplets ≡ []
      → IsCleared j
      → Provisioned c final j g

-- A flow ends with a return, and the job waits for its signature unless it has failed.
abbrev pub EndsProvisioned : Codec → Post (Unit {0})
EndsProvisioned c t j g (returned u) = Provisioned c awaiting_near_signature j g
EndsProvisioned c t j g (raised p) = ⊥

-- What stays between the generation of the identity and the end.
abbrev pub Carried : Identity → Job → Made → Type 0
Carried i j g =
    (j.worker_did ≡ i.did)
    × (j.storacha_private_key ≡ i.private_key)
    × (g.identities ≡ i ∷ [])
    × (j.droplet_id ≡ none)
    × (j.do_api_token ≡ none)
    × (g.droplets ≡ [])

-- A job of a worker or a coordinator that is to be provisioned on Phala.
abbrev pub IsPlain : Job → Type 0
IsPlain j = (j.droplet_id ≡ none) × (j.do_api_token ≡ none)

awaiting_at-Provisioned :
    (c : Codec) (i : Identity) (url : String) (j : Job) (g : Made)
    → Carried i j g
    → Provisioned c awaiting_near_signature (awaiting_at url j) g
awaiting_at-Provisioned c i url j g h =
    ready i url refl refl h.2 h.0 h.1 (rw (h.3, h.5) refl) (rw h.4 refl)

failed_with-Provisioned :
    (c : Codec) (i : Identity) (message : String) (j : Job) (g : Made)
    → Carried i j g
    → Provisioned c awaiting_near_signature (failed_with message j) g
failed_with-Provisioned c i message j g h = broken message refl refl h.5 (rw h.4 refl)

module _ (T : Tools) where
  abbrev pub Ends : Post (Unit {0})
  Ends = Handles T.codec (give_up T) (EndsProvisioned T.codec)

  pub give_up-Ends :
      (i : Identity) (t : ℕ) (j : Job) (g : Made) (p : Problem)
      → Carried i j g
      → Ends t j g (raised p)
  give_up-Ends i t j g p h =
      changes (returns (failed_with-Provisioned T.codec i (message_of T p) j g h))

  await_endpoint-Along :
      (i : Identity) (o : Option String) (t : ℕ) (j : Job) (g : Made)
      → Carried i j g
      → Along T.codec Ends (await_endpoint T o) t j g
  unfolding await_endpoint ◌>>=◌
  await_endpoint-Along i none t j g h =
      changes (returns (failed_with-Provisioned T.codec i "Could not determine endpoint URL" j g h))
  await_endpoint-Along i (some url) t j g h =
      let j' : Job = at_endpoint url (updated waiting_for_url j) in
      changes (
        changes (
          IsCalm-then T.codec (wait_for_healthy T url 40 15000)
            (λ healthy. assign (awaiting_at url)) (wait_for_healthy-IsCalm T url 40 15000 t) refl
            (λ t' healthy. changes (returns (awaiting_at-Provisioned T.codec i url j' g h)))
            (λ t' p. give_up-Ends i t' j' g p h)))

  pub deploy_named-Along :
      (api_key compose : String) (envs : List (String × Json)) (port name : String) (i : Identity)
      (t : ℕ) (j : Job) (g : Made)
      → Carried i j g
      → is_awaiting j.status ≡ false
      → Along T.codec Ends (deploy_named T api_key compose envs port name) t j g
  unfolding deploy_named finish_deployment ◌>>=◌
  deploy_named-Along api_key compose envs port name i t j g h s =
      IsCalm-then T.codec (deploy_cvm T api_key name compose envs port) (finish_deployment T)
        (deploy_cvm-IsCalm T api_key name compose envs port t) s
        (λ t' result.
          changes (await_endpoint-Along i (endpoint_of result) t' (with_deployed result j) g h))
        (λ t' p. give_up-Ends i t' j g p h)

  deploy_worker-Along :
      (api_key : String) (i : Identity) (d : Delegation) (t : ℕ) (j : Job) (g : Made)
      → Carried i j g
      → Along T.codec Ends (deploy_worker T api_key i d) t j g
  unfolding deploy_worker ◌>>=◌
  deploy_worker-Along api_key i d t j g h =
      let j' : Job = updated deploying_phala j in
      let deploy : String → Flow (Unit {0}) =
        deploy_named T api_key worker_compose_content (worker_env T.env i d j) "3001" in
      looks (
        changes (
          asks refl λ now t1 later.
            IsCalm-then T.codec (settled (cvm_name T "delibera-worker-" j.display_name now)) deploy
              (cvm_name-IsCalm T "delibera-worker-" j.display_name now t1) refl
              (λ t2 name. deploy_named-Along api_key _ _ "3001" name i t2 j' g h refl)
              (λ t2 p. give_up-Ends i t2 j' g p h)))

  prepare_worker-Along :
      (i : Identity) (d : Delegation) (t : ℕ) (j : Job) (g : Made)
      → Carried i j g
      → Along T.codec Ends (prepare_worker T i d) t j g
  unfolding prepare_worker ◌>>=◌
  prepare_worker-Along i d t j g h = elim (Option-cases (set_text T.env.phala_api_key)) [
    | inl unset ↦ rw unset (changes (raises (give_up-Ends i t (updated preparing_phala j) g _ h)))
    | inr (key, is_set) ↦
        rw is_set (changes (deploy_worker-Along key i d t (updated preparing_phala j) g h))
  ]

  delegate_worker-Along :
      (i : Identity) (t : ℕ) (j : Job)
      → IsPlain j
      → Along T.codec Ends (delegate_worker T i) t j (record { identities = i ∷ []; droplets = [] })
  unfolding delegate_worker ◌>>=◌
  delegate_worker-Along i t j plain =
      let j' : Job = updated creating_space (with_identity i j) in
      let h : Carried i j' (record { identities = i ∷ []; droplets = [] }) =
        (refl, refl, refl, plain.0, plain.1, refl) in
      changes (
        changes (
          IsCalm-then T.codec (create_worker_delegation T i.did) (prepare_worker T i)
            (create_worker_delegation-IsCalm T i.did t) refl
            (λ t' d. prepare_worker-Along i d t' j' _ h) (λ t' p. give_up-Ends i t' j' _ p h)))

  -- What is thrown before there is an identity.
  lost_identity-Ends :
      (t : ℕ) (j : Job) (p : Problem) → IsPlain j → Ends t j nothing_made (raised p)
  lost_identity-Ends t j p plain =
      changes (returns (broken (message_of T p) refl refl refl (rw plain.1 refl)))

  pub identity-Along :
      (rest : Identity → Flow (Unit {0})) (r : Got Identity) (t : ℕ) (j : Job)
      → IsPlain j
      → ((i : Identity)
          → Along T.codec Ends (rest i) t j (record { identities = i ∷ []; droplets = [] }))
      → Along T.codec Ends (received r >>= rest) t j (note T.codec generate_identity r nothing_made)
  unfolding ◌>>=◌
  identity-Along rest (got i) t j plain k = k i
  identity-Along rest (lost p) t j plain k = raises (lost_identity-Ends t j p plain)

  -- Whatever its requests are answered, the provisioning of a worker returns, and has made of the job what
  -- `Provisioned` says.
  pub provision_worker-Along :
      (t : ℕ) (j : Job)
      → IsPlain j
      → Along T.codec (EndsProvisioned T.codec) (provision_worker T) t j nothing_made
  unfolding provision_worker set_up_worker generate_worker_identity ◌>>=◌ rescue
  provision_worker-Along t j plain = Along-rescue T.codec (give_up T) (EndsProvisioned T.codec) (
      changes (
        asks refl λ r t' later.
          identity-Along (delegate_worker T) r t' (updated generating_identity j) plain
            (λ i. delegate_worker-Along i t' (updated generating_identity j) plain)))
