-- ===== src/Ensue/Listed.antt =====
-- What the operations on several keys of ensue-client/src/ensue-client.ts find and delete.
use text.Mathlib.Text.{◌==◌}
use text.Mathlib.TextEquality.{eq_iff}
use delibera_xyz.Prelude.{
  ◌≡◌, refl, sym, ◌∙◌, ap, String, Bool, true, false, not, Option, none, some, List, [], ◌∷◌,
  filter, map, inl, inr, arith, Bool-cases, if◌then◌else◌,
}
use delibera_xyz.Prelude.Maps.{find, find-store-same, find-store-other, eq_refl}
use delibera_xyz.Prelude.Text.{◌<>◌, is_empty}
use delibera_xyz.Json.{template_text, Json, null, str, arr, items, list_of, object, strings}
use delibera_xyz.Ensue.Client.{
  Rpc, Network, done, answered, and_then, rpc, extract_data, read_answer, check_errors,
}
use delibera_xyz.Ensue.Events.{is_one_line, sse_data-event}
use delibera_xyz.Ensue.Listing.{
  or_default, entries_of, entry_of, note_entry, gather, read_multiple, listed_keys, keys_of,
  list_arguments, list_keys, clear_prefix, delete_listed,
}

abbrev or_else : Option Json → Option Json → Option Json
or_else none v = v
or_else (some w) v = some w

or_else_assoc : (u v w : Option Json) → or_else u (or_else v w) ≡ or_else (or_else u v) w
or_else_assoc none v w = refl
or_else_assoc (some x) v w = refl

or_else-none : (v : Option Json) → or_else v none ≡ v
or_else-none none = refl
or_else-none (some x) = refl

abbrev pub get_request : List String → Rpc
get_request keys = record {
  method = "get_memory";
  arguments = object (("key_names", strings keys) ∷ []);
}

abbrev named : String → Json
named key = object (("key_name", str key) ∷ [])

-- The answer of the server that lists keys.
abbrev pub listing : List String → Json
listing keys = object (
    (
      "result",
      object (("structuredContent", object (("keys", arr (items (map named keys))) ∷ [])) ∷ []),
    )
    ∷ [])

-- An item with a key, and with a value, if one is given.
abbrev given_item : String × Option Json → Json
given_item (key, none) = object (("key_name", str key) ∷ [])
given_item (key, some value) = object (("key_name", str key) ∷ ("value", value) ∷ [])

-- The data with the items: their array, or an object that holds it.
abbrev given_data : Bool → List (String × Option Json) → Json
given_data true xs = object (("results", arr (items (map given_item xs))) ∷ [])
given_data false xs = arr (items (map given_item xs))

-- The answer of the server that gives the values of keys.
abbrev pub giving : (wrapped : Bool) → List (String × Option Json) → Json
giving wrapped xs =
    object (("result", object (("structuredContent", given_data wrapped xs) ∷ [])) ∷ [])

-- The value of the last item with this key that has one.
abbrev pub last_given : String → List (String × Option Json) → Option Json
last_given k [] = none
last_given k ((key, value) ∷ rest) = or_else (last_given k rest) (if key == k then value else none)

abbrev pub event : String → String
event text = ("data: " <> text) <> ("\n" <> "\n")

abbrev pub list_request : String → Rpc
list_request prefix = record { method = "list_keys"; arguments = list_arguments (some prefix) 100 }

abbrev pub deleting : List String → List Rpc → List Rpc
deleting [] sent = sent
deleting (key ∷ keys) sent =
    record {
      method = "delete_memory";
      arguments = object (("key_names", strings (key ∷ keys)) ∷ []);
    }
    ∷ sent

listed_keys-map :
    (keys : List String)
    → listed_keys (list_of (items (map named keys)))
      ≡ map str (filter (λ key. not (is_empty key)) keys)
unfolding listed_keys
listed_keys-map [] = refl
listed_keys-map (key ∷ keys) = elim (Bool-cases (is_empty key)) [
  | inl y ↦ rw y (listed_keys-map keys)
  | inr n ↦ rw n (ap (λ js. str key ∷ js) (listed_keys-map keys))
]

module _ (N : Network) where
  abbrev value_under : String → Option (String × Json) → Option Json
  value_under k none = none
  value_under k (some (key, value)) = if key == k then some value else none

  -- The value of the last item with a key.
  abbrev last_value : String → List Json → Option Json
  last_value k [] = none
  last_value k (item ∷ rest) = or_else (last_value k rest) (value_under k (entry_of N item))

  find-note_entry :
      (k : String) (e : Option (String × Json)) (found : List (String × Json))
      → find k (note_entry e found) ≡ or_else (value_under k e) (find k found)
  find-note_entry k none found = refl
  find-note_entry k (some (key, value)) found = elim (Bool-cases (key == k)) [
    | inl same ↦ rw (same, (eq_iff key k).0 same) (find-store-same k value found)
    | inr other ↦ rw other (
        find-store-other key k value found
          (λ e. ground (arith, sym other ∙ ap (λ x. x == k) e ∙ eq_refl k)))
  ]

  find-gather :
      (k : String) (js : List Json) (found : List (String × Json))
      → find k (gather N js found) ≡ or_else (last_value k js) (find k found)
  unfolding gather
  find-gather k [] found = refl
  find-gather k (item ∷ rest) found =
      find-gather k rest (note_entry (entry_of N item) found)
      ∙ ap (or_else (last_value k rest)) (find-note_entry k (entry_of N item) found)
      ∙ or_else_assoc (last_value k rest) (value_under k (entry_of N item)) (find k found)

  read_answer-event :
      (text : String) (answer : Json)
      → is_one_line text ≡ true
      → N.codec.parse text ≡ some answer
      → read_answer N (answered (event text)) ≡ check_errors N answer
  unfolding read_answer
  read_answer-event text answer h p = rw (sse_data-event text h, read_answer, p) refl

  value_under-given_item :
      (k key : String) (value : Option Json)
      → is_empty k ≡ false
      → value_under k (entry_of N (given_item (key, value))) ≡ (if key == k then value else none)
  unfolding entry_of template_text
  value_under-given_item k key none full = elim (Bool-cases (key == k)) [
    | inl e ↦ rw e refl
    | inr e ↦ rw e refl
  ]
  value_under-given_item k key (some value) full = elim (Bool-cases (is_empty key)) [
    | inr full_key ↦ rw full_key refl
    | inl blank ↦ elim (Bool-cases (key == k)) [
      | inr other ↦ rw (blank, other) refl
      | inl same ↦ absurd (ground (arith, blank, full, ap is_empty ((eq_iff key k).0 same)))
    ]
  ]

  last_value-given_item :
      (k : String) (xs : List (String × Option Json))
      → is_empty k ≡ false
      → last_value k (list_of (items (map given_item xs))) ≡ last_given k xs
  last_value-given_item k [] full = refl
  last_value-given_item k ((key, value) ∷ xs) full =
      ap (λ v. or_else v (value_under k (entry_of N (given_item (key, value)))))
        (last_value-given_item k xs full)
      ∙ ap (or_else (last_given k xs)) (value_under-given_item k key value full)

  find-read_multiple :
      (keys : List String) (sent : List Rpc) (k : String)
      → find k (read_multiple N keys sent).0
        ≡ last_value k (
            entries_of (
              or_default null
                (and_then (read_answer N (N.post sent (get_request keys))) (extract_data N))))
  unfolding read_multiple rpc find
  find-read_multiple keys sent k =
      find-gather k
        (entries_of (
          or_default null
            (and_then (read_answer N (N.post sent (get_request keys))) (extract_data N))))
        []
      ∙ or_else-none _

  -- If the server answers the request for several keys with one event that lists items, as an array or
  -- under `results`, reading them finds under each key that is not empty the value of the last item that
  -- has this key and a value, and nothing where no item does.
  pub read_multiple-last_given :
      (keys : List String) (sent : List Rpc) (text k : String) (wrapped : Bool)
      (xs : List (String × Option Json))
      → N.post sent (get_request keys) ≡ answered (event text)
      → is_one_line text ≡ true
      → N.codec.parse text ≡ some (giving wrapped xs)
      → is_empty k ≡ false
      → find k (read_multiple N keys sent).0 ≡ last_given k xs
  unfolding check_errors extract_data entries_of
  read_multiple-last_given keys sent text k true xs a h p full =
      find-read_multiple keys sent k
      ∙ rw (a, read_answer-event text (giving true xs) h p) (last_value-given_item k xs full)
  read_multiple-last_given keys sent text k false xs a h p full =
      find-read_multiple keys sent k
      ∙ rw (a, read_answer-event text (giving false xs) h p) (last_value-given_item k xs full)

  read_answer-listing :
      (text : String) (keys : List String)
      → is_one_line text ≡ true
      → N.codec.parse text ≡ some (listing keys)
      → read_answer N (answered (event text)) ≡ done (listing keys)
  unfolding check_errors
  read_answer-listing text keys h p = read_answer-event text (listing keys) h p

  delete_listed-deleting :
      (keys : List String) (sent : List Rpc)
      → (delete_listed N (map str keys, sent)).1 ≡ deleting keys sent
  unfolding rpc
  delete_listed-deleting [] sent = refl
  delete_listed-deleting (key ∷ keys) sent = refl

  -- If the server answers the list of a prefix with one event that lists keys, clearing the prefix asks
  -- to delete exactly these keys, less the empty ones, and nothing if none is left.
  pub clear_prefix-deleting :
      (prefix text : String) (keys : List String) (sent : List Rpc)
      → N.post sent (list_request prefix) ≡ answered (event text)
      → is_one_line text ≡ true
      → N.codec.parse text ≡ some (listing keys)
      → (clear_prefix N prefix sent).1
        ≡ deleting (filter (λ key. not (is_empty key)) keys) (list_request prefix ∷ sent)
  unfolding clear_prefix list_keys rpc extract_data keys_of
  clear_prefix-deleting prefix text keys sent a h p =
      rw (a, read_answer-listing text keys h p, listed_keys-map keys)
        (delete_listed-deleting (filter (λ key. not (is_empty key)) keys)
          (list_request prefix ∷ sent))
