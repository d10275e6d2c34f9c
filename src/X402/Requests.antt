-- ===== src/X402/Requests.antt =====
-- Which requests coordinator-agent/src/x402/x402-deliberate.ts accepts.
use delibera_xyz.Prelude.{
  ◌≡◌, ◌≤◌, String, false, Option, none, some, arith, ltb, Bool-cases, inl, inr,
}
use delibera_xyz.Prelude.Text.{is_empty, size, trim}
use delibera_xyz.Json.{Json, null, str, member}
use delibera_xyz.X402.Deliberate.{accepted, check_proposal, check_field, check_request}

-- A text that may be put to the workers.
abbrev pub IsProposal : String → Type 0
IsProposal p = (is_empty p ≡ false) × (size p ≤ 8000)

check_proposal-accepted :
    (p : String) (context : Option Json) {q : String} {found : Option Json}
    → check_proposal p context ≡ accepted q found
    → IsProposal q
check_proposal-accepted p context {q} {found} e = elim (Bool-cases (is_empty p)) [
  | inl blank ↦ absurd (ground (arith, rw blank at e))
  | inr filled ↦ elim (Bool-cases (ltb 8000 (size p))) [
    | inl long ↦ absurd (ground (arith, rw (filled, long) at e))
    | inr short ↦
        let passed : accepted p context ≡ accepted q found = rw (filled, short) at e in
        let same : p ≡ q = cc passed in
        let fits : size p ≤ 8000 = ground arith in rw (← same) (filled, fits)
  ]
]

check_field-accepted :
    (field context : Option Json) {q : String} {found : Option Json}
    → check_field field context ≡ accepted q found
    → IsProposal q
check_field-accepted none context e = check_proposal-accepted "" context e
check_field-accepted (some null) context e = check_proposal-accepted "" context e
check_field-accepted (some (str s)) context e = check_proposal-accepted (trim s) context e
check_field-accepted (some j) context e = absurd (ground (arith, e))

-- A proposal that is accepted is not empty and has at most 8000 characters.
pub check_request-accepted :
    (body : Option Json) {q : String} {found : Option Json}
    → check_request body ≡ accepted q found
    → IsProposal q
unfolding check_request
check_request-accepted none e = absurd (ground (arith, e))
check_request-accepted (some null) e = absurd (ground (arith, e))
check_request-accepted (some j) e =
    check_field-accepted (member "proposal" j) (member "context" j) e
