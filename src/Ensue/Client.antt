-- ===== src/Ensue/Client.antt =====
-- The client of the shared memory: ensue-client/src/ensue-client.ts. What axios answers to a request is a
-- function of the requests before it; an answer whose `data` is no text stands as its JSON text. The
-- logger is left out, and so are the headers, the base address and the
-- number of a request.
use delibera_xyz.Prelude.{
  ℕ, String, Bool, true, false, not, ◌&&◌, ◌||◌, Option, none, some, List, [], ◌∷◌, ◌++◌, map,
  filter, if◌then◌else◌,
}
use delibera_xyz.Prelude.Tests
use delibera_xyz.Prelude.Text.{set_text, text_given, ◌<>◌, strip_prefix, includes, split}
use delibera_xyz.Json.{
  Json, Codec, cons, null, str, arr, items, list_of, object, strings, member, member?, truthy,
  truthy?, is_text, template_text,
}

-- One JSON-RPC request: the tool and its arguments.
pub record Rpc : Type 0 where
  pub method : String
  pub arguments : Json

-- An error of axios with the status of the response, if there is one, or another one.
pub data RpcError : Type 0 where
  http : (status : Option ℕ) (message : String) → RpcError
  failure : (message : String) → RpcError

pub data Posted : Type 0 where
  rejected : RpcError → Posted
  answered : (raw : String) → Posted

-- The server and the JavaScript engine.
pub record Network : Type 0 where
  pub codec : Codec
  pub post : List Rpc → Rpc → Posted
  pub lower : String → String
  pub syntax_error : String
  pub type_error : String

-- A value, or what was thrown.
pub data Result (A : Type 0) : Type 0 where
  done : A → Result A
  thrown : RpcError → Result A

-- A program that sends requests; the most recent one stands first.
abbrev pub Client : Type 0 → Type 0
Client A = List Rpc → A × List Rpc

abbrev pub and_then : {A B : Type 0} → Result A → (A → Result B) → Result B
and_then (done a) f = f a
and_then (thrown e) f = thrown e

-- `v || d` for the message of an error.
abbrev message_or : Codec → Option Json → String → String
message_or c none d = d
message_or c (some j) d = if truthy j then template_text c j else d

abbrev pub first_item : Option Json → Option Json
first_item (some (arr (cons j js))) = some j
first_item v = none

-- The lines of an answer that carry data, without their prefix.
unfoldable pub data_lines : List String → List String
unfolding strip_prefix
data_lines [] = []
data_lines (l ∷ ls) = elim (strip_prefix "data: " l) [
  | none ↦ data_lines ls
  | some rest ↦ rest ∷ data_lines ls
]

abbrev pub last_of : List String → Option String
last_of [] = none
last_of (x ∷ []) = some x
last_of (x ∷ y ∷ xs) = last_of (y ∷ xs)

-- The last line with data of a stream of events.
unfoldable pub sse_data : String → Option String
unfolding data_lines split
sse_data raw = last_of (data_lines (split 10 raw))

abbrev pub message_of : RpcError → String
message_of (http status message) = message
message_of (failure message) = message

abbrev pub create_arguments : (key value : String) → Option String → Json
create_arguments key value description = object (
    (
      "items",
      arr (
          items (
            object (
              ("key_name", str key)
              ∷ ("value", str value)
              ∷ ("description", str (text_given (set_text description) ("Memory at " <> key)))
              ∷ [])
            ∷ [])),
    )
    ∷ [])

abbrev pub update_arguments : (key value : String) → Json
update_arguments key value = object (("key_name", str key) ∷ ("value", str value) ∷ [])

module _ (N : Network) where
  -- The errors that the answer holds itself.
  unfoldable pub check_errors : Json → Result Json
  check_errors parsed =
      if truthy? (member "error" parsed)
      then thrown (
          failure
            (message_or N.codec (member? "message" (member "error" parsed)) "Ensue API error"))
      else (if truthy? (member? "isError" (member "result" parsed))
          then thrown (
              failure (
                message_or N.codec
                  (member? "text" (first_item (member? "content" (member "result" parsed))))
                  "Ensue API error"))
          else done parsed)

  unfoldable pub read_answer : Posted → Result Json
  unfolding sse_data check_errors
  read_answer (rejected e) = thrown e
  read_answer (answered raw) = elim (sse_data raw) [
    | none ↦ done null
    | some text ↦ elim (N.codec.parse text) [
      | none ↦ thrown (failure N.syntax_error)
      | some parsed ↦ check_errors parsed
    ]
  ]

  unfoldable pub rpc : String → Json → Client (Result Json)
  unfolding read_answer
  rpc method arguments sent =
      let r : Rpc = record { method = method; arguments = arguments } in
      (read_answer (N.post sent r), r ∷ sent)

  -- `content?.find(c => c.type === 'text')`, which throws on null.
  unfoldable pub find_text : List Json → Result (Option Json)
  find_text [] = done none
  find_text (null ∷ js) = thrown (failure N.type_error)
  find_text (j ∷ js) = elim (member "type" j) [
    | none ↦ find_text js
    | some t ↦ if is_text t "text" then done (some j) else find_text js
  ]

  -- The text of a content item, parsed if it is JSON.
  abbrev pub text_data : Option Json → Json
  text_data none = null
  text_data (some text) =
      if truthy text
      then (elim (N.codec.parse (template_text N.codec text)) [ none ↦ text | some j ↦ j ])
      else null

  abbrev pub content_data : Option Json → Result Json
  content_data none = done null
  content_data (some null) = done null
  content_data (some (arr xs)) =
      and_then (find_text (list_of xs)) (λ found. done (text_data (member? "text" found)))
  content_data (some j) = thrown (failure N.type_error)

  unfoldable pub extract_data : Json → Result Json
  unfolding find_text
  extract_data response =
      if truthy? (member "result" response)
      then (elim (member? "structuredContent" (member "result" response)) [
        | some content ↦ done content
        | none ↦ content_data (member? "content" (member "result" response))
      ])
      else done null

  -- `v || null`
  abbrev pub set_value : Option Json → Option Json
  set_value none = none
  set_value (some j) = if truthy j then some j else none

  -- The value in the data of get_memory; `none` is null, as JSON's own null is.
  unfoldable pub memory_value : Json → Option Json
  memory_value (arr xs) = set_value (member? "value" (first_item (some (arr xs))))
  memory_value content =
      if truthy content
      then (elim (member "results" content) [
        | some (arr xs) ↦ set_value (member? "value" (first_item (some (arr xs))))
        | _ ↦ member "value" content
      ])
      else none

  -- The error is logged, and null is the answer.
  abbrev pub value_or_null : Result Json → Option Json
  value_or_null (done content) = memory_value content
  value_or_null (thrown e) = none

  unfoldable pub read_memory : String → Client (Option Json)
  unfolding rpc extract_data memory_value
  read_memory key sent =
      let (answer, after) =
        rpc "get_memory" (object (("key_names", strings (key ∷ [])) ∷ [])) sent in
      (value_or_null (and_then answer extract_data), after)

  unfoldable pub says_not_found : String → Bool
  unfolding includes
  says_not_found message = includes "not found" message || includes "does not exist" message

  unfoldable pub is_not_found_error : RpcError → Bool
  unfolding says_not_found
  is_not_found_error (http (some status) message) = delibera_xyz.Prelude.Tests.◌==◌ status 404
  is_not_found_error (http none message) = false
  is_not_found_error (failure message) = says_not_found (N.lower message)

  -- Whether a failed update is followed by the creation of the memory.
  unfoldable pub is_missing : RpcError → Bool
  unfolding is_not_found_error says_not_found
  is_missing e = is_not_found_error e || says_not_found (message_of e)

  -- An error is only logged.
  unfoldable pub create_memory : (key value : String) → Option String → Client (Unit {0})
  unfolding rpc
  create_memory key value description sent =
      (tt, (rpc "create_memory" (create_arguments key value description) sent).1)

  abbrev pub after_update : (key value : String) → Result Json × List Rpc → Unit {0} × List Rpc
  after_update key value (done j, sent) = (tt, sent)
  after_update key value (thrown e, sent) =
      if is_missing e then create_memory key value none sent else (tt, sent)

  unfoldable pub update_memory : (key value : String) → Client (Unit {0})
  unfolding rpc is_missing create_memory
  update_memory key value sent =
      after_update key value (rpc "update_memory" (update_arguments key value) sent)

  -- Whatever becomes of it, nothing is thrown.
  unfoldable pub delete_memory : String → Client (Unit {0})
  unfolding rpc
  delete_memory key sent =
      (tt, (rpc "delete_memory" (object (("key_names", strings (key ∷ [])) ∷ [])) sent).1)
