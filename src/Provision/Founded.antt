-- ===== src/Provision/Founded.antt =====
-- How the provisioning of a coordinator ends, in protocol-api/src/routes/provision.ts.
use delibera_xyz.Prelude.{ℕ, refl, String, [], ◌∷◌, Option-cases, inl, inr}
use delibera_xyz.Prelude.Text.{set_text}
use delibera_xyz.Provision.Jobs.{
  creating_space, provisioning_ensue, preparing_phala, deploying_phala, generating_identity, Job,
  updated,
}
use delibera_xyz.Provision.Flow.{Identity, settled, Flow, ◌>>=◌, rescue}
use delibera_xyz.Provision.Along.{Made, nothing_made, Along, raises, changes, looks, asks}
use delibera_xyz.Provision.Along.Rules.{Along-rescue, IsCalm-then}
use delibera_xyz.Provision.Services.{
  Tools, Delegation, EnsueOrg, cvm_name, generate_worker_identity, create_worker_delegation,
  provision_coordinator_ensue_org,
}
use delibera_xyz.Provision.Compose.{coordinator_compose_content}
use delibera_xyz.Provision.Workers.{with_identity, deploy_named, give_up}
use delibera_xyz.Provision.Coordinators.{
  with_org, coordinator_env, deploy_coordinator, prepare_coordinator, provide_memory,
  delegate_coordinator, set_up_coordinator, provision_coordinator,
}
use delibera_xyz.Provision.Calm.{
  create_worker_delegation-IsCalm, provision_coordinator_ensue_org-IsCalm, cvm_name-IsCalm,
}
use delibera_xyz.Provision.Provisioned.{
  IsPlain, Carried, Ends, EndsProvisioned, give_up-Ends, deploy_named-Along, identity-Along,
}

module _ (T : Tools) where
  deploy_coordinator-Along :
      (api_key : String) (i : Identity) (d : Delegation) (o : EnsueOrg) (t : ℕ) (j : Job) (g : Made)
      → Carried i j g
      → Along T.codec (Ends T) (deploy_coordinator T api_key i d o) t j g
  unfolding deploy_coordinator ◌>>=◌
  deploy_coordinator-Along api_key i d o t j g h =
      let j' : Job = updated deploying_phala j in
      let deploy : String → Flow (Unit {0}) =
        deploy_named T api_key coordinator_compose_content (coordinator_env T i d o j) "3000" in
      looks (
        changes (
          asks refl λ now t1 later.
            IsCalm-then T.codec (settled (cvm_name T "delibera-coord-" j.display_name now)) deploy
              (cvm_name-IsCalm T "delibera-coord-" j.display_name now t1) refl
              (λ t2 name. deploy_named-Along T api_key _ _ "3000" name i t2 j' g h refl)
              (λ t2 p. give_up-Ends T i t2 j' g p h)))

  prepare_coordinator-Along :
      (i : Identity) (d : Delegation) (o : EnsueOrg) (t : ℕ) (j : Job) (g : Made)
      → Carried i j g
      → Along T.codec (Ends T) (prepare_coordinator T i d o) t j g
  unfolding prepare_coordinator ◌>>=◌
  prepare_coordinator-Along i d o t j g h =
      let j' : Job = updated preparing_phala (with_org T.codec o j) in
      elim (Option-cases (set_text T.env.phala_api_key)) [
        | inl unset ↦ rw unset (changes (changes (raises (give_up-Ends T i t j' g _ h))))
        | inr (key, is_set) ↦
            rw is_set (changes (changes (deploy_coordinator-Along key i d o t j' g h)))
      ]

  provide_memory-Along :
      (i : Identity) (d : Delegation) (t : ℕ) (j : Job) (g : Made)
      → Carried i j g
      → Along T.codec (Ends T) (provide_memory T i d) t j g
  unfolding provide_memory ◌>>=◌
  provide_memory-Along i d t j g h =
      let j' : Job = updated provisioning_ensue j in
      changes (
        IsCalm-then T.codec (provision_coordinator_ensue_org T i.did) (prepare_coordinator T i d)
          (provision_coordinator_ensue_org-IsCalm T i.did t) refl
          (λ t' o. prepare_coordinator-Along i d o t' j' g h)
          (λ t' p. give_up-Ends T i t' j' g p h))

  delegate_coordinator-Along :
      (i : Identity) (t : ℕ) (j : Job)
      → IsPlain j
      → Along T.codec
          (Ends T)
          (delegate_coordinator T i)
          t
          j
          (record { identities = i ∷ []; droplets = [] })
  unfolding delegate_coordinator ◌>>=◌
  delegate_coordinator-Along i t j plain =
      let j' : Job = updated creating_space (with_identity i j) in
      let h : Carried i j' (record { identities = i ∷ []; droplets = [] }) =
        (refl, refl, refl, plain.0, plain.1, refl) in
      changes (
        changes (
          IsCalm-then T.codec (create_worker_delegation T i.did) (provide_memory T i)
            (create_worker_delegation-IsCalm T i.did t) refl
            (λ t' d. provide_memory-Along i d t' j' _ h) (λ t' p. give_up-Ends T i t' j' _ p h)))

  -- Whatever its requests are answered, the provisioning of a coordinator returns, and has made of the job
  -- what `Provisioned` says.
  pub provision_coordinator-Along :
      (t : ℕ) (j : Job)
      → IsPlain j
      → Along T.codec (EndsProvisioned T.codec) (provision_coordinator T) t j nothing_made
  unfolding provision_coordinator set_up_coordinator generate_worker_identity ◌>>=◌ rescue
  provision_coordinator-Along t j plain =
      let j' : Job = updated generating_identity j in
      Along-rescue T.codec (give_up T) (EndsProvisioned T.codec) (
        changes (
          asks refl λ r t' later.
            identity-Along T (delegate_coordinator T) r t' j' plain
              (λ i. delegate_coordinator-Along i t' j' plain)))
