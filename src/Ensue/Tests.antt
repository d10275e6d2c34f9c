-- ===== src/Ensue/Tests.antt =====
-- The client of the shared memory at concrete answers: a memory that the
-- server does not know, and lists of entries.
use delibera_xyz.Prelude.{◌≡◌, refl, true, List, Option, String, none, some, [], ◌∷◌}
use delibera_xyz.Prelude.Text.{◌<>◌}
use delibera_xyz.Prelude.Maps.{find}
use delibera_xyz.Ensue.Listing.{read_multiple, clear_prefix}
use delibera_xyz.Ensue.Listed.{
  giving, last_given, read_multiple-last_given, listing, list_request, deleting,
  clear_prefix-deleting, event,
}
use delibera_xyz.Ensue.Client.{
  answered, Network, http, rejected, sse_data, read_answer, update_memory,
}
use delibera_xyz.Json.{Json, str}
use delibera_xyz.Ensue.Events.{sse_data-event, Sends, update_request, update_memory-Sends}

abbrev missing : Network
missing = record {
  codec = record { parse = λ s. none; stringify = λ j. "text"; decimal = λ n. "7" };
  post = λ before r. rejected (http (some 404) "Request failed with status code 404");
  lower = λ s. s;
  syntax_error = "syntax error";
  type_error = "type error";
}

sse_data-event_example : sse_data (("data: " <> "{}") <> ("\n" <> "\n")) ≡ some "{}"
sse_data-event_example = sse_data-event "{}" refl

update_memory-Sends_example :
    Sends missing "k" "v" []
      (read_answer missing (missing.post [] (update_request "k" "v")))
      (update_memory missing "k" "v" []).1
update_memory-Sends_example = update_memory-Sends missing "k" "v" []

-- A server that answers each request with one event, whose text is parsed to an answer.
abbrev serving : Json → Network
serving answer = record missing {
  codec = record { parse = λ s. some answer; stringify = λ j. "text"; decimal = λ n. "7" };
  post = λ before r. answered (event "{}");
}

abbrev copies : List (String × Option Json)
copies = ("a", some (str "1")) ∷ ("b", some (str "2")) ∷ ("a", some (str "3")) ∷ ("a", none) ∷ []

abbrev shelf : Network
shelf = serving (giving true copies)

last-read : last_given "a" copies ≡ some (str "3")
last-read = refl

read_multiple-last_given_example :
    find "a" (read_multiple shelf ("a" ∷ "b" ∷ []) []).0 ≡ last_given "a" copies
read_multiple-last_given_example =
    read_multiple-last_given shelf ("a" ∷ "b" ∷ []) [] "{}" "a" true copies refl refl refl refl

clear_prefix-deleting_example :
    (clear_prefix (serving (listing ("a" ∷ "b" ∷ []))) "p" []).1
    ≡ deleting ("a" ∷ "b" ∷ []) (list_request "p" ∷ [])
clear_prefix-deleting_example =
    clear_prefix-deleting (serving (listing ("a" ∷ "b" ∷ []))) "p" "{}" ("a" ∷ "b" ∷ []) [] refl
      refl refl
