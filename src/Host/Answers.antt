-- ===== src/Host/Answers.antt =====
-- The answers of the HTTP handlers: a code with a JSON body.
use delibera_xyz.Prelude.{ℕ, String, Option, [], ◌∷◌}
use delibera_xyz.Json.{Json, str, object}
use delibera_xyz.Host.{Problem, Outcome, ok, threw, out_of_fuel, Proc, Prog}

pub record Response : Type 0 where
  pub code : ℕ
  pub body : Json

abbrev pub error_response : ℕ → String → Response
error_response code message = record { code = code; body = object (("error", str message) ∷ []) }

abbrev pub details_response : ℕ → String → String → Response
details_response code message details = record {
  code = code;
  body = object (("error", str message) ∷ ("details", str details) ∷ []);
}

-- What the JavaScript engine contributes: the message of an error, the one of JSON that cannot be
-- parsed, and parseInt.
pub record Engine : Type 0 where
  pub describe : Problem → String
  pub syntax_error : String
  pub parse_int : String → Option ℕ

-- The catch clause of a handler, which answers with what `describe` makes of the error.
abbrev pub answered_at : (Problem → Response) → Outcome Response × Proc → Outcome Response × Proc
answered_at describe (ok r, s) = (ok r, s)
answered_at describe (threw p, s) = (ok (describe p), s)
answered_at describe (out_of_fuel, s) = (out_of_fuel, s)

unfoldable pub answering : (Problem → Response) → Prog Response → Prog Response
answering describe m s = answered_at describe (m s)
