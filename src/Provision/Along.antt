-- ===== src/Provision/Along.antt =====
-- What holds along a flow, whatever its requests are answered: the job while a request is open, and the job
-- at the end. Times are lower bounds of the clock, which never runs back, with timers that fire no
-- earlier than asked; what the services have made is what an observer of the answers sees.
pub mod Rules
use text.Mathlib.Text.{◌==◌}
use delibera_xyz.Prelude.{
  ℕ, ◌+◌, ◌≤◌, ◌≡◌, refl, String, Bool, true, false, not, Option, none, some, List, [], ◌∷◌, filter,
  arith,
}
use delibera_xyz.Json.{Json, Codec, member, member?, template_text}
use delibera_xyz.Host.{Problem}
use delibera_xyz.Provision.Jobs.{Status, awaiting_near_signature, Job}
use delibera_xyz.Provision.Flow.{
  Got, got, lost, Fetched, fetched, Identity, Request, generate_identity, create_droplet,
  delete_droplet, clock, sleep, Answer, Flow, done, raise, stuck, change, look, ask, ◌>>=◌, rescue,
}

-- The identities that were generated and the droplets that were created and not asked to be deleted since, by the
-- texts of their ids.
pub record Made : Type 0 where
  pub identities : List Identity
  pub droplets : List String

abbrev pub nothing_made : Made
nothing_made = record { identities = []; droplets = [] }

abbrev pub id_text : Codec → Option Json → Option String
id_text c none = none
id_text c (some id) = some (template_text c id)

abbrev pub add_droplet : Option String → Made → Made
add_droplet none made = made
add_droplet (some id) made = record made { droplets = id ∷ made.droplets }

abbrev pub note : Codec → (q : Request) → Answer q → Made → Made
note c generate_identity (got i) made = record made { identities = i ∷ made.identities }
note c (create_droplet token name region user_data) (fetched true status text (some body)) made =
    add_droplet (id_text c (member? "id" (member "droplet" body))) made
note c (delete_droplet token id) r made = record made {
  droplets = filter (λ d. not (d == id)) made.droplets;
}
note c q r made = made

abbrev pub Later : (q : Request) → ℕ → Answer q → ℕ → Type 0
Later clock t now t' = (t ≤ now) × (now ≤ t')
Later (sleep ms) t r t' = t + ms ≤ t'
Later q t r t' = t ≤ t'

pub data Ended (A : Type 0) : Type 0 where
  returned : A → Ended A
  raised : Problem → Ended A

abbrev pub Post : Type 0 → Type 1
Post A = ℕ → Job → Made → Ended A → Type 0

abbrev pub is_awaiting : Status → Bool
is_awaiting awaiting_near_signature = true
is_awaiting status = false

-- Requests after which the services have made what they had.
abbrev pub IsHarmless : Request → Type 0
IsHarmless generate_identity = ⊥
IsHarmless (create_droplet token name region user_data) = ⊥
IsHarmless (delete_droplet token id) = ⊥
IsHarmless q = Unit

-- A flow that leaves the job alone and makes only harmless requests, and whose loops have enough fuel.
abbrev pub IsCalm : {A : Type 0} → Flow A → ℕ → Type 0
IsCalm (done a) t = Unit
IsCalm (raise p) t = Unit
IsCalm stuck t = ⊥
IsCalm (change f m) t = ⊥
IsCalm (look k) t = (j : Job) → IsCalm (k j) t
IsCalm (ask q k) t = IsHarmless q × ((r : Answer q) (t' : ℕ) → Later q t r t' → IsCalm (k r) t')

module _ (c : Codec) where
  pub note-IsHarmless : (q : Request) (r : Answer q) (g : Made) → IsHarmless q → note c q r g ≡ g
  note-IsHarmless generate_identity r g h = absurd h
  note-IsHarmless (create_droplet token name region user_data) r g h = absurd h
  note-IsHarmless (delete_droplet token id) r g h = absurd h
  note-IsHarmless q r g h = refl

  -- No request is open while the job waits for its signature, no loop runs out of fuel, and the end
  -- satisfies `P`.
  pub data Along {A : Type 0} (P : Post A) : Flow A → ℕ → Job → Made → Type 0 where
    returns : {a : A} {t : ℕ} {j : Job} {g : Made} → P t j g (returned a) → Along P (done a) t j g
    raises :
        {p : Problem} {t : ℕ} {j : Job} {g : Made} → P t j g (raised p) → Along P (raise p) t j g
    changes :
        {f : Job → Job} {m : Flow A} {t : ℕ} {j : Job} {g : Made}
        → Along P m t (f j) g
        → Along P (change f m) t j g
    looks :
        {k : Job → Flow A} {t : ℕ} {j : Job} {g : Made}
        → Along P (k j) t j g
        → Along P (look k) t j g
    asks :
        {q : Request} {k : Answer q → Flow A} {t : ℕ} {j : Job} {g : Made}
        → is_awaiting j.status ≡ false
        → ((r : Answer q) (t' : ℕ) → Later q t r t' → Along P (k r) t' j (note c q r g))
        → Along P (ask q k) t j g
