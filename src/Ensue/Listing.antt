-- ===== src/Ensue/Listing.antt =====
-- The operations of ensue-client/src/ensue-client.ts on several keys: reading them, listing those with a
-- prefix, searching, and deleting those that are listed.
use delibera_xyz.Prelude.{ℕ, String, Option, none, some, List, [], ◌∷◌, if◌then◌else◌}
use delibera_xyz.Prelude.Maps.{store}
use delibera_xyz.Prelude.Text.{◌<>◌, is_empty}
use delibera_xyz.Json.{
  Json, null, num, str, arr, items, list_of, object, strings, member, truthy, template_text,
}
use delibera_xyz.Ensue.Client.{
  Rpc, Network, Result, done, thrown, Client, and_then, rpc, extract_data,
}

-- What stands in the place of a value whose computation has thrown.
abbrev pub or_default : {A : Type 0} → A → Result A → A
or_default d (done a) = a
or_default d (thrown e) = d

-- The items of the data. A text has no items that name a key; going through another value throws.
abbrev pub array_or_empty : Option Json → List Json
array_or_empty (some (arr xs)) = list_of xs
array_or_empty v = []

unfoldable pub entries_of : Json → List Json
entries_of (arr xs) = list_of xs
entries_of content = array_or_empty (member "results" content)

abbrev pub note_entry : Option (String × Json) → List (String × Json) → List (String × Json)
note_entry none found = found
note_entry (some (key, value)) found = store key value found

-- The name in an item of a list: undefined is false.
abbrev pub listed_key : Json → Option Json
listed_key (str key) = some (str key)
listed_key item = member "key_name" item

abbrev keep_key : Option Json → List Json → List Json
keep_key none keys = keys
keep_key (some key) keys = if truthy key then key ∷ keys else keys

unfoldable pub listed_keys : List Json → List Json
listed_keys [] = []
listed_keys (item ∷ rest) = keep_key (listed_key item) (listed_keys rest)

-- The keys in the data. The member `keys` of an array is its method, which is no array.
unfoldable pub keys_of : Json → List Json
unfolding listed_keys
keys_of (arr xs) = []
keys_of content = listed_keys (array_or_empty (member "keys" content))

unfoldable pub list_arguments : Option String → ℕ → Json
list_arguments none limit = object (("limit", num limit) ∷ [])
list_arguments (some prefix) limit =
    if is_empty prefix
    then object (("limit", num limit) ∷ [])
    else object (("limit", num limit) ∷ ("prefix", str (prefix <> "%")) ∷ [])

abbrev results_of : Json → Json
results_of (arr xs) = arr xs
results_of content = elim (member "results" content) [
  | none ↦ arr (items [])
  | some results ↦ if truthy results then results else arr (items [])
]

module _ (N : Network) where
  -- The key and the value of an item that has both.
  abbrev entry_with : Option Json → Option Json → Option (String × Json)
  entry_with (some key) (some value) =
      if truthy key then some (template_text N.codec key, value) else none
  entry_with key value = none

  unfoldable pub entry_of : Json → Option (String × Json)
  entry_of item = entry_with (member "key_name" item) (member "value" item)

  -- The entries of the items in the object, the later ones over the earlier ones.
  unfoldable pub gather : List Json → List (String × Json) → List (String × Json)
  unfolding entry_of
  gather [] found = found
  gather (item ∷ rest) found = gather rest (note_entry (entry_of item) found)

  unfoldable pub read_multiple : List String → Client (List (String × Json))
  unfolding rpc extract_data gather entries_of
  read_multiple keys sent =
      let (answer, after) = rpc N "get_memory" (object (("key_names", strings keys) ∷ [])) sent in
      (gather (entries_of (or_default null (and_then answer (extract_data N)))) [], after)

  unfoldable pub list_keys : Option String → ℕ → Client (List Json)
  unfolding rpc extract_data keys_of list_arguments
  list_keys prefix limit sent =
      let (answer, after) = rpc N "list_keys" (list_arguments prefix limit) sent in
      (keys_of (or_default null (and_then answer (extract_data N))), after)

  unfoldable pub search_memories : String → ℕ → Client Json
  unfolding rpc extract_data
  search_memories query limit sent =
      let (answer, after) =
        rpc N "search_memories" (object (("query", str query) ∷ ("limit", num limit) ∷ [])) sent in
      (results_of (or_default null (and_then answer (extract_data N))), after)

  abbrev pub delete_listed : List Json × List Rpc → Unit {0} × List Rpc
  delete_listed ([], sent) = (tt, sent)
  delete_listed (key ∷ keys, sent) =
      (tt, (rpc N "delete_memory" (object (("key_names", arr (items (key ∷ keys))) ∷ [])) sent).1)

  unfoldable pub clear_prefix : String → Client (Unit {0})
  unfolding rpc list_keys
  clear_prefix prefix sent = delete_listed (list_keys (some prefix) 100 sent)
