-- ===== src/Agent/Writes.antt =====
-- What the worker of worker-agent/src/workers/task-handler.ts writes to the shared memory, and its steps
-- that write nothing.
use delibera_xyz.Prelude.{ℕ, refl, String, List, ◌∷◌, arith}
use delibera_xyz.Json.{Json, null, obj}
use delibera_xyz.Host.{Event, wrote, Prog, emit, Reply, unreachable, response}
use delibera_xyz.Host.Observe.{
  seen, QuietOf, IsSettled, Quiet-pure, Quiet-throw, Quiet-lift, Quiet-emit, Quiet-if, Quiet-try,
  Quiet-maybe, Quiet-bind,
}
use delibera_xyz.Agent.Services.{Services, AgentConfig}
use delibera_xyz.Agent.Voting.{
  hashes, json_of, attestation_fields, fetch_verification_proof, fetch_model_attestation, proof_of,
}
use delibera_xyz.Agent.Work.{decision_id}

abbrev pub Write : Type 0
Write = String × String

abbrev pub add_write : Event → List Write → List Write
add_write (wrote key value) ws = (key, value) ∷ ws
add_write e ws = ws

-- The writes of a history, the most recent first.
abbrev pub writes : List Event → List Write
writes h = seen add_write h

abbrev pub Silent : {A : Type 0} → Prog A → Type 0
Silent m = QuietOf add_write m

module _ {A : Type 0} where
  pub Silent-read : (k : String) (f : List Event → A) → Silent (emit (Event.read k) f)
  Silent-read k f = Quiet-emit (Event.read k) f (λ ms. refl)

  pub Silent-clock : (f : List Event → A) → Silent (emit Event.checked_clock f)
  Silent-clock f = Quiet-emit Event.checked_clock f (λ ms. refl)

  pub Silent-slept : (n : ℕ) (f : List Event → A) → Silent (emit (Event.slept n) f)
  Silent-slept n f = Quiet-emit (Event.slept n) f (λ ms. refl)

  pub Silent-fetched : (u : String) (f : List Event → A) → Silent (emit (Event.fetched u) f)
  Silent-fetched u f = Quiet-emit (Event.fetched u) f (λ ms. refl)

  pub Silent-asked : (a b : String) (f : List Event → A) → Silent (emit (Event.asked a b) f)
  Silent-asked a b f = Quiet-emit (Event.asked a b) f (λ ms. refl)

pub ruleset silent_rules = (
  Quiet-pure, Quiet-throw, Quiet-lift, Quiet-if, Quiet-try, Quiet-maybe, Quiet-bind, Silent-read,
  Silent-clock, Silent-slept, Silent-fetched, Silent-asked,
)

module _ (V : Services) where
  hashes-IsSettled : (sig : Json) → IsSettled (hashes V sig)
  unfolding hashes
  hashes-IsSettled sig = ground arith

  json_of-IsSettled : (name : String) (r : Reply) → IsSettled (json_of V name r)
  unfolding json_of
  json_of-IsSettled name unreachable = tt
  json_of-IsSettled name (response good status body) = ground arith

  attestation_fields-IsSettled :
      (nonce : String) (j : Json) → IsSettled (attestation_fields V nonce j)
  unfolding attestation_fields
  attestation_fields-IsSettled nonce null = tt
  attestation_fields-IsSettled nonce (obj fs) = tt
  attestation_fields-IsSettled nonce j = tt

  fetch_verification_proof-Silent : (id : String) → Silent (fetch_verification_proof V id)
  unfolding fetch_verification_proof
  fetch_verification_proof-Silent id =
      search (silent_rules, hashes-IsSettled, json_of-IsSettled) depth 9

  fetch_model_attestation-Silent : Silent (fetch_model_attestation V)
  unfolding fetch_model_attestation
  fetch_model_attestation-Silent =
      search (silent_rules, attestation_fields-IsSettled, json_of-IsSettled) depth 9

  pub proof_of-Silent : (id : String) → Silent (proof_of V id)
  unfolding proof_of
  proof_of-Silent id =
      search (silent_rules, fetch_verification_proof-Silent, fetch_model_attestation-Silent) depth 9

  pub decision_id-Silent : (c : AgentConfig) (j : Json) → Silent (decision_id V c j)
  unfolding decision_id
  decision_id-Silent c j = search silent_rules depth 9
