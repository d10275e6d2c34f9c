-- ===== src/Provision/Calm.antt =====
-- The parts of the provisioning flows that leave the job alone and make nothing of their own.
use delibera_xyz.Prelude.{
  ℕ, zero, suc, String, Bool, true, false, Option, none, some, List, [], ◌∷◌, inl, inr, Bool-cases,
}
use delibera_xyz.Prelude.Text.{set_text}
use delibera_xyz.Json.{Json, null, str, member, member?, truthy, truthy?}
use delibera_xyz.Host.{Outcome, ok, threw, out_of_fuel}
use delibera_xyz.Host.Observe.{IsSettled}
use delibera_xyz.Provision.Flow.{
  Got, got, lost, Fetched, unfetched, fetched, archived, not_archived, fetch_cvm, Flow, done, raise,
  ◌>>=◌, received, settled, when_given,
}
use delibera_xyz.Provision.Along.{IsCalm}
use delibera_xyz.Provision.Along.Rules.{IsCalm-bind}
use delibera_xyz.Provision.Services.{
  Tools, delegation_of, create_worker_delegation, org_of, org_name, org_answer,
  provision_coordinator_ensue_org, cvm_name,
}
use delibera_xyz.Provision.Phala.{
  attempts, wait_for_app_ready, wait_for_healthy, get_app_url, as_object, encrypted_env,
  reported_endpoint, find_endpoint, deploy_cvm,
}

pub received-IsCalm : {A : Type 0} (r : Got A) (t : ℕ) → IsCalm (received r) t
received-IsCalm (got a) t = tt
received-IsCalm (lost p) t = tt

pub settled-IsCalm : {A : Type 0} (o : Outcome A) (t : ℕ) → IsSettled o → IsCalm (settled o) t
settled-IsCalm (ok a) t h = tt
settled-IsCalm (threw p) t h = tt
settled-IsCalm out_of_fuel t h = h

pub when_given-IsCalm :
    {A B : Type 0} (o : Option A) (d : Flow B) (f : A → Flow B) (t : ℕ)
    → IsCalm d t
    → ((a : A) → IsCalm (f a) t)
    → IsCalm (when_given o d f) t
when_given-IsCalm none d f t h k = h
when_given-IsCalm (some a) d f t h k = k a

-- However many rounds, there are finitely many.
attempts-IsCalm :
    {A : Type 0} (n delay : ℕ) (round : Flow (Option A)) (t : ℕ)
    → ((t' : ℕ) → IsCalm round t')
    → IsCalm (attempts n delay round) t
unfolding attempts ◌>>=◌
attempts-IsCalm zero delay round t h = tt
attempts-IsCalm (suc zero) delay round t h = h t
attempts-IsCalm (suc (suc n)) delay round t h = IsCalm-bind round _ t (h t) (λ found t'.
    when_given-IsCalm found _ _ t' (tt, λ r t'' later. attempts-IsCalm (suc n) delay round t'' h)
      (λ a. tt))

module _ (T : Tools) where
  pub wait_for_healthy-IsCalm :
      (url : String) (n delay t : ℕ) → IsCalm (wait_for_healthy T url n delay) t
  unfolding wait_for_healthy ◌>>=◌
  wait_for_healthy-IsCalm url n delay t =
      IsCalm-bind _ _ t (attempts-IsCalm n delay _ t (λ t'. (tt, λ r t'' later. tt)))
        (λ found t'. tt)

  wait_for_app_ready-IsCalm :
      (url : String) (n delay t : ℕ) → IsCalm (wait_for_app_ready T url n delay) t
  unfolding wait_for_app_ready ◌>>=◌
  wait_for_app_ready-IsCalm url n delay t =
      IsCalm-bind _ _ t (attempts-IsCalm n delay _ t (λ t'. (tt, λ r t'' later. tt)))
        (λ found t'. tt)

  get_app_url-IsCalm :
      (api_key id : String) (n delay t : ℕ) → IsCalm (get_app_url T api_key id n delay) t
  unfolding get_app_url ◌>>=◌
  get_app_url-IsCalm api_key id n delay t =
      attempts-IsCalm n delay _ t (λ t'. (tt, λ r t'' later. tt))

  reported_endpoint-IsCalm :
      (id app_id url : String) (found : Option String) (t : ℕ)
      → IsCalm (reported_endpoint T id app_id url found) t
  reported_endpoint-IsCalm id app_id url none t = tt
  reported_endpoint-IsCalm id app_id url (some reported) t = tt

  find_endpoint-IsCalm :
      (api_key id app_id url : String) (ready : Bool) (t : ℕ)
      → IsCalm (find_endpoint T api_key id app_id url ready) t
  unfolding find_endpoint ◌>>=◌
  find_endpoint-IsCalm api_key id app_id url true t = tt
  find_endpoint-IsCalm api_key id app_id url false t =
      IsCalm-bind (get_app_url T api_key id 2 3000)
        (λ found. reported_endpoint T id app_id url (set_text found)) t
        (get_app_url-IsCalm api_key id 2 3000 t)
        (λ found t'. reported_endpoint-IsCalm id app_id url (set_text found) t')

  as_object-IsCalm : (j : Json) (t : ℕ) → IsCalm (as_object T j) t
  as_object-IsCalm null t = tt
  as_object-IsCalm j t = tt

  encrypted_env-IsCalm :
      (envs : List (String × Json)) (key : Option Json) (t : ℕ)
      → IsCalm (encrypted_env T envs key) t
  unfolding ◌>>=◌
  encrypted_env-IsCalm [] key t = tt
  encrypted_env-IsCalm (e ∷ envs) none t = tt
  encrypted_env-IsCalm (e ∷ envs) (some key) t = elim (Bool-cases (truthy key)) [
    | inr absent ↦ rw absent tt
    | inl there ↦
        rw there
          (tt, λ r t' later. IsCalm-bind (received r) _ t' (received-IsCalm r t') (λ text t''. tt))
  ]

  pub deploy_cvm-IsCalm :
      (api_key name compose : String) (envs : List (String × Json)) (port : String) (t : ℕ)
      → IsCalm (deploy_cvm T api_key name compose envs port) t
  unfolding deploy_cvm ◌>>=◌
  deploy_cvm-IsCalm api_key name compose envs port t = (
    tt,
    λ answer t1 later. IsCalm-bind (received answer) _ t1 (received-IsCalm answer t1) λ provided t2.
        IsCalm-bind (as_object T provided) _ t2 (as_object-IsCalm provided t2) λ provision t3.
          IsCalm-bind (encrypted_env T envs (member "app_env_encrypt_pubkey" provision)) _ t3
            (encrypted_env-IsCalm envs (member "app_env_encrypt_pubkey" provision) t3)
            λ encrypted t4. (
              tt,
              λ committed t5 later'.
                  IsCalm-bind (received committed) _ t5 (received-IsCalm committed t5) λ created t6.
                    IsCalm-bind (as_object T created) _ t6 (as_object-IsCalm created t6)
                      λ result t7.
                        IsCalm-bind (wait_for_app_ready T _ 3 5000) _ t7
                          (wait_for_app_ready-IsCalm _ 3 5000 t7)
                          λ ready t8. find_endpoint-IsCalm api_key _ _ _ ready t8,
            ),
  )

  pub create_worker_delegation-IsCalm :
      (did : String) (t : ℕ) → IsCalm (create_worker_delegation T did) t
  unfolding create_worker_delegation ◌>>=◌
  create_worker_delegation-IsCalm did t =
      when_given-IsCalm (set_text T.env.storacha_agent_private_key) _ _ t tt (λ key.
        when_given-IsCalm (set_text T.env.storacha_delegation_proof) _ _ t tt (λ proof. (
          tt,
          λ answer t' later.
              IsCalm-bind (received answer) _ t' (received-IsCalm answer t') calm_end,
        )))
    where
      calm_end : (a : delibera_xyz.Provision.Flow.Archive) (t' : ℕ) → IsCalm (delegation_of T a) t'
      calm_end (archived space proof) t' = tt
      calm_end (not_archived reason) t' = tt

  org_of-IsCalm : (name : String) (agent : Option Json) (t : ℕ) → IsCalm (org_of T name agent) t
  org_of-IsCalm name agent t = elim (Bool-cases (truthy? (member? "api_key" agent))) [
    | inl there ↦ rw there tt
    | inr absent ↦ rw absent tt
  ]

  org_answer-IsCalm : (name : String) (r : Fetched) (t : ℕ) → IsCalm (org_answer T name r) t
  org_answer-IsCalm name (unfetched p) t = tt
  org_answer-IsCalm name (fetched false status text body) t = tt
  org_answer-IsCalm name (fetched true status text none) t = tt
  org_answer-IsCalm name (fetched true status text (some null)) t = tt
  org_answer-IsCalm name (fetched true status text (some body)) t =
      org_of-IsCalm name (member "agent" body) t

  pub provision_coordinator_ensue_org-IsCalm :
      (did : String) (t : ℕ) → IsCalm (provision_coordinator_ensue_org T did) t
  unfolding provision_coordinator_ensue_org ◌>>=◌
  provision_coordinator_ensue_org-IsCalm did t =
      (tt, λ answer t' later. org_answer-IsCalm (org_name T did) answer t')

  pub cvm_name-IsCalm :
      (prefix : String) (name : Json) (now t : ℕ) → IsCalm (settled (cvm_name T prefix name now)) t
  unfolding cvm_name ◌>>=◌
  cvm_name-IsCalm prefix (str s) now t = tt
  cvm_name-IsCalm prefix null now t = tt
  cvm_name-IsCalm prefix j now t = tt
