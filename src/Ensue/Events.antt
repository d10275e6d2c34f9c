-- ===== src/Ensue/Events.antt =====
-- What the client of ensue-client/src/ensue-client.ts reads from a stream of events, and what it sends for
-- an update.
use Prim.Native.Char.{code}
use text.Mathlib.TextLemmas.{nil-append, cons-append}
use delibera_xyz.Prelude.{
  ◌≡◌, refl, ap, String, Bool, true, not, ◌&&◌, some, none, List, ◌∷◌, ◌==◌, inl, inr, arith,
  Bool-cases,
}
use delibera_xyz.Prelude.Text.{◌<>◌, split, push_head, strip_prefix, strip_prefix-append}
use delibera_xyz.Json.{Json}
use delibera_xyz.Ensue.Missing.{SaysMissing, is_missing_iff}
use delibera_xyz.Ensue.Client.{
  Rpc, Network, Result, done, thrown, RpcError, data_lines, sse_data, read_answer, rpc, is_missing,
  create_arguments, update_arguments, after_update, create_memory, update_memory,
}

-- Whether a text has no line end.
abbrev pub is_one_line : String → Bool
is_one_line String.[] = true
is_one_line (String.◌∷◌ c s) = not (code c == 10) && is_one_line s

is_one_line-append :
    (s t : String) → is_one_line s ≡ true → is_one_line t ≡ true → is_one_line (s <> t) ≡ true
is_one_line-append String.[] t h k = rw nil-append k
is_one_line-append (String.◌∷◌ c s) t h k = elim (Bool-cases (code c == 10)) [
  | inl e ↦ absurd (ground (arith, h, e))
  | inr e ↦ rw (cons-append, e) (is_one_line-append s t (rw e at h) k)
]

abbrev pub update_request : (key value : String) → Rpc
update_request key value = record {
  method = "update_memory";
  arguments = update_arguments key value;
}

abbrev pub create_request : (key value : String) → Rpc
create_request key value = record {
  method = "create_memory";
  arguments = create_arguments key value none;
}

-- A line up to its end is one part, and the rest follows.
split-line :
    (s rest : String) → is_one_line s ≡ true → split 10 (s <> ("\n" <> rest)) ≡ s ∷ split 10 rest
unfolding split
split-line String.[] rest h = rw (nil-append, cons-append, nil-append) refl
split-line (String.◌∷◌ c s) rest h = elim (Bool-cases (code c == 10)) [
  | inl e ↦ absurd (ground (arith, h, e))
  | inr e ↦ rw (cons-append, e) (ap (push_head c) (split-line s rest (rw e at h)))
]

-- An event that carries a text without line ends, as the server sends it, is read as this text.
pub sse_data-event :
    (text : String)
    → is_one_line text ≡ true
    → sse_data (("data: " <> text) <> ("\n" <> "\n")) ≡ some text
unfolding sse_data data_lines split strip_prefix
sse_data-event text h =
    rw
      (
        split-line ("data: " <> text) "\n" (is_one_line-append "data: " text refl h),
        strip_prefix-append "data: " text,
        data_lines,
      )
      refl

-- What an update leaves to be sent: nothing more once the answer is read, a creation exactly when the error
-- says that the memory is missing, by its status or in its message, nothing after any other error.
pub data Sends (N : Network) (key value : String) (before : List Rpc)
    : Result Json → List Rpc → Type 0 where
  stored : {j : Json} → Sends N key value before (done j) (update_request key value ∷ before)
  created :
      {e : RpcError}
      → SaysMissing N e
      → Sends N key value before
          (thrown e)
          (create_request key value ∷ update_request key value ∷ before)
  lost :
      {e : RpcError}
      → (SaysMissing N e → ⊥)
      → Sends N key value before (thrown e) (update_request key value ∷ before)

after_update-Sends :
    (N : Network) (key value : String) (before : List Rpc) (r : Result Json)
    → Sends N key value before r (after_update N key value (r, update_request key value ∷ before)).1
unfolding create_memory rpc
after_update-Sends N key value before (done j) = stored
after_update-Sends N key value before (thrown e) = elim (Bool-cases (is_missing N e)) [
  | inl y ↦ rw y (created ((is_missing_iff N e).0 y))
  | inr n ↦ rw n (lost (λ m. absurd (ground (arith, (is_missing_iff N e).1 m, n))))
]

-- An update sends one request with the key and the value; after it the memory is created exactly when the
-- answer is read as an error that says that the memory is missing, that is, an error of axios with the
-- status 404, or one whose message has the words "not found" or "does not exist", in letters of either case
-- if it is none of axios; after anything else nothing more is sent.
pub update_memory-Sends :
    (N : Network) (key value : String) (before : List Rpc)
    → Sends N key value before
        (read_answer N (N.post before (update_request key value)))
        (update_memory N key value before).1
unfolding update_memory rpc
update_memory-Sends N key value before =
    after_update-Sends N key value before (read_answer N (N.post before (update_request key value)))
