-- ===== src/Routes/Passing.antt =====
-- When the answer of an endpoint passes: the tests of validateWorker in
-- coordinator-agent/src/routes/coordinate.ts.
use text.Mathlib.TextEquality.{eq_iff}
use delibera_xyz.Prelude.{
  ℕ, ◌<◌, ◌≡◌, refl, sym, ◌∙◌, ap, String, Bool, true, false, Option, none, some, inl, inr, arith,
  Bool-cases, Option-cases, if◌then◌else◌,
}
use delibera_xyz.Prelude.Text.{◌<>◌, text_given}
use delibera_xyz.Json.{Json, null, str, member, truthy, is_text}
use delibera_xyz.Host.{Worker, Reply, unreachable, response}
use delibera_xyz.Routes.Validation.{matches, passes}

abbrev pub root_of : Worker → String
root_of w = text_given w.endpoint_url "" <> "/"

-- The JSON of the response, if there is any, does not name another DID.
abbrev pub Agrees : Worker → Option Json → Type 0
Agrees w body =
    (j did : Json)
    → body ≡ some j
    → member "workerDid" j ≡ some did
    → truthy did ≡ true
    → did ≡ str w.worker_did

-- There is a response, no server error, and one that is ok does not name another DID.
abbrev pub IsGood : Worker → Reply → Type 0
IsGood w reply =
    (good : Bool) × ((status : ℕ) × ((body : Option Json) × (reply ≡ response good status body)
        × (status < 500)
        × (good ≡ true → Agrees w body)))

is_text-str : (j : Json) (s : String) → is_text j s ≡ true → j ≡ str s
is_text-str (str t) s h = ap str ((eq_iff t s).0 h)
is_text-str j s h = absurd (ground (arith, h))

abbrev names : Worker → Option Json → Bool
names w none = true
names w (some did) = if truthy did then is_text did w.worker_did else true

matches-member : (w : Worker) (b : Json) → matches w (some b) ≡ names w (member "workerDid" b)
matches-member w null = refl
matches-member w b = refl

matches-Agrees : (w : Worker) (body : Option Json) → matches w body ≡ true → Agrees w body
matches-Agrees w body h j did e m t =
    let named : names w (member "workerDid" j) ≡ true =
      sym (matches-member w j) ∙ ap (matches w) (sym e) ∙ h in
    is_text-str did w.worker_did (rw (m, t) at named)

Agrees-matches : (w : Worker) (body : Option Json) → Agrees w body → matches w body ≡ true
Agrees-matches w none h = refl
Agrees-matches w (some b) h = elim (Option-cases (member "workerDid" b)) [
  | inl e ↦ matches-member w b ∙ rw e refl
  | inr (did, e) ↦ elim (Bool-cases (truthy did)) [
    | inr f ↦ matches-member w b ∙ rw (e, f) refl
    | inl t ↦
        matches-member w b
        ∙ rw (e, t)
            (ap (λ d. is_text d w.worker_did) (h b did refl e t)
              ∙ (eq_iff w.worker_did w.worker_did).1 refl)
  ]
]

pub passes-IsGood : (w : Worker) (reply : Reply) → passes w reply ≡ true → IsGood w reply
unfolding passes
passes-IsGood w unreachable h = absurd (ground (arith, h))
passes-IsGood w (response good status body) h = (
  good,
  (
    status,
    (body, refl, ground (arith, h), λ fine. matches-Agrees w body (ground (arith, h, fine))),
  ),
)

pub IsGood-passes : (w : Worker) (reply : Reply) → IsGood w reply → passes w reply ≡ true
unfolding passes
IsGood-passes w reply (true, (status, (body, e, small, agrees))) =
    let fine = Agrees-matches w body (agrees refl) in rw e (ground (arith, small, fine))
IsGood-passes w reply (false, (status, (body, e, small, agrees))) = rw e (ground (arith, small))
