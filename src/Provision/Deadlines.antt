-- ===== src/Provision/Deadlines.antt =====
-- The loops of the deployment of an IronClaw worker have enough fuel: protocol-api/src/ironclaw.
use delibera_xyz.Prelude.{
  ℕ, zero, suc, ◌+◌, ◌*◌, ◌≤◌, ◌<◌, String, Bool, true, false, Option, none, some, List, [], ◌∷◌,
  inl, inr, arith, ltb, ltb→lt, Bool-cases, if◌then◌else◌,
}
use delibera_xyz.Json.{Json, null, arr, list_of, Codec, member, member?, is_text, truthy}
use delibera_xyz.Host.{Outcome, ok, threw, out_of_fuel}
use delibera_xyz.Host.Observe.{IsSettled}
use delibera_xyz.Provision.Flow.{
  Got, got, Fetched, unfetched, fetched, done, ◌>>=◌, ◌>>◌, settled, send, when_given, sleep,
}
use delibera_xyz.Provision.Along.{IsCalm}
use delibera_xyz.Provision.Along.Rules.{IsCalm-bind_after}
use delibera_xyz.Provision.Services.{Tools}
use delibera_xyz.Provision.Calm.{settled-IsCalm}
use delibera_xyz.Provision.Droplets.{
  public_or, find_public, address_text, ip_among, public_ip, droplet_of, ip_loop,
  wait_for_droplet_ip, ssh_loop, wait_for_ssh_port,
}

-- The search for the address needs no fuel.
public_or-IsSettled :
    (type ip : Option Json) (rest : Outcome (Option Json))
    → IsSettled rest
    → IsSettled (public_or type ip rest)
public_or-IsSettled none ip rest h = h
public_or-IsSettled (some type) ip rest h = elim (Bool-cases (is_text type "public")) [
  | inl e ↦ rw e tt
  | inr e ↦ rw e h
]

find_public-IsSettled : (ns : List Json) → IsSettled (find_public ns)
unfolding find_public
find_public-IsSettled [] = tt
find_public-IsSettled (null ∷ ns) = tt
find_public-IsSettled (n ∷ ns) =
    public_or-IsSettled (member "type" n) (member "ip_address" n) (find_public ns)
      (find_public-IsSettled ns)

address_text-IsSettled :
    (c : Codec) (o : Outcome (Option Json)) → IsSettled o → IsSettled (address_text c o)
address_text-IsSettled c (threw p) h = tt
address_text-IsSettled c out_of_fuel h = h
address_text-IsSettled c (ok none) h = tt
address_text-IsSettled c (ok (some ip)) h = elim (Bool-cases (truthy ip)) [
  | inl e ↦ rw e tt
  | inr e ↦ rw e tt
]

ip_among-IsSettled : (c : Codec) (v4 : Option Json) → IsSettled (ip_among c v4)
ip_among-IsSettled c none = tt
ip_among-IsSettled c (some (arr ns)) =
    address_text-IsSettled c (find_public (list_of ns)) (find_public-IsSettled (list_of ns))
ip_among-IsSettled c (some v4) = tt

public_ip-IsSettled : (c : Codec) (droplet : Option Json) → IsSettled (public_ip c droplet)
unfolding public_ip
public_ip-IsSettled c droplet = ip_among-IsSettled c (member? "v4" (member? "networks" droplet))

module _ (T : Tools) where
  droplet_of-IsCalm :
      (action : String) (detail : Got String) (r : Fetched) (t : ℕ)
      → IsCalm (droplet_of T action detail r) t
  droplet_of-IsCalm action detail (unfetched p) t = tt
  droplet_of-IsCalm action detail (fetched false status text body) t = tt
  droplet_of-IsCalm action detail (fetched true status text none) t = tt
  droplet_of-IsCalm action detail (fetched true status text (some null)) t = tt
  droplet_of-IsCalm action detail (fetched true status text (some body)) t = tt

  -- A round that has not found an address sleeps, and calls the rest.
  ip_again-IsCalm :
      (f : ℕ) (token : Json) (id : String) (deadline t : ℕ) (ip : Option String)
      → ((t' : ℕ) → t + 10000 ≤ t' → IsCalm (ip_loop T f token id deadline) t')
      → IsCalm
          (when_given ip
            (do send (sleep 10000); ip_loop T f token id deadline)
            (λ found. done found))
          t
  unfolding ◌>>=◌
  ip_again-IsCalm f token id deadline t none k = (tt, λ r t' slept. k t' slept)
  ip_again-IsCalm f token id deadline t (some found) k = tt

  -- The rest is called before the deadline.
  ip_round-IsCalm :
      (f : ℕ) (token : Json) (id : String) (deadline t : ℕ)
      → (t < deadline → (t' : ℕ) → t + 10000 ≤ t' → IsCalm (ip_loop T f token id deadline) t')
      → IsCalm (ip_loop T (suc f) token id deadline) t
  unfolding ip_loop ◌>>=◌
  ip_round-IsCalm f token id deadline t k = (
    tt,
    λ now t1 clocked. elim (Bool-cases (ltb now deadline)) [
      | inr over ↦ rw over tt
      | inl left ↦ rw left (
        tt,
        λ r t2 later.
            IsCalm-bind_after (droplet_of T "getDroplet" (got "") r) _ t2
              (droplet_of-IsCalm "getDroplet" (got "") r t2)
              λ droplet t3 e3.
                IsCalm-bind_after (settled (public_ip T.codec droplet)) _ t3
                  (settled-IsCalm (public_ip T.codec droplet) t3
                    (public_ip-IsSettled T.codec droplet))
                  λ ip t4 e4.
                    let before : now < deadline = ltb→lt now deadline left in
                    ip_again-IsCalm f token id deadline t4 ip
                      (λ t5 e5. k (omega arith) t5 (omega arith)),
      )
    ],
  )

  -- A round sleeps 10 s, so the rounds are enough if as much time as is left.
  ip_loop-IsCalm :
      (f : ℕ) (token : Json) (id : String) (deadline t : ℕ)
      → deadline ≤ t + f * 10000
      → IsCalm (ip_loop T (suc f) token id deadline) t
  ip_loop-IsCalm zero token id deadline t h =
      ip_round-IsCalm zero token id deadline t (λ left t' e. absurd (omega arith))
  ip_loop-IsCalm (suc f) token id deadline t h =
      ip_round-IsCalm (suc f) token id deadline t
        (λ left t' e. ip_loop-IsCalm f token id deadline t' (omega arith))

  pub wait_for_droplet_ip-IsCalm :
      (token : Json) (id : String) (t : ℕ) → IsCalm (wait_for_droplet_ip T token id) t
  unfolding wait_for_droplet_ip ◌>>=◌
  wait_for_droplet_ip-IsCalm token id t =
      (tt, λ now t' clocked. ip_loop-IsCalm 30 token id (now + 300000) t' (omega arith))

  ssh_again-IsCalm :
      (f : ℕ) (ip : String) (deadline t : ℕ) (open_now : Bool)
      → ((t' : ℕ) → t + 10000 ≤ t' → IsCalm (ssh_loop T f ip deadline) t')
      → IsCalm (if open_now then done tt else (do send (sleep 10000); ssh_loop T f ip deadline)) t
  unfolding ◌>>=◌
  ssh_again-IsCalm f ip deadline t true k = tt
  ssh_again-IsCalm f ip deadline t false k = (tt, λ r t' slept. k t' slept)

  ssh_round-IsCalm :
      (f : ℕ) (ip : String) (deadline t : ℕ)
      → (t < deadline → (t' : ℕ) → t + 10000 ≤ t' → IsCalm (ssh_loop T f ip deadline) t')
      → IsCalm (ssh_loop T (suc f) ip deadline) t
  unfolding ssh_loop ◌>>=◌
  ssh_round-IsCalm f ip deadline t k = (
    tt,
    λ now t1 clocked. elim (Bool-cases (ltb now deadline)) [
      | inr over ↦ rw over tt
      | inl left ↦ rw left (
        tt,
        λ open_now t2 later.
            let before : now < deadline = ltb→lt now deadline left in
            ssh_again-IsCalm f ip deadline t2 open_now (λ t3 e3. k (omega arith) t3 (omega arith)),
      )
    ],
  )

  ssh_loop-IsCalm :
      (f : ℕ) (ip : String) (deadline t : ℕ)
      → deadline ≤ t + f * 10000
      → IsCalm (ssh_loop T (suc f) ip deadline) t
  ssh_loop-IsCalm zero ip deadline t h =
      ssh_round-IsCalm zero ip deadline t (λ left t' e. absurd (omega arith))
  ssh_loop-IsCalm (suc f) ip deadline t h =
      ssh_round-IsCalm (suc f) ip deadline t
        (λ left t' e. ssh_loop-IsCalm f ip deadline t' (omega arith))

  pub wait_for_ssh_port-IsCalm : (ip : String) (t : ℕ) → IsCalm (wait_for_ssh_port T ip) t
  unfolding wait_for_ssh_port ◌>>=◌
  wait_for_ssh_port-IsCalm ip t =
      (tt, λ now t' clocked. ssh_loop-IsCalm 18 ip (now + 180000) t' (omega arith))
