-- ===== src/Coordinator/Names.antt =====
-- NameResolver and truncateDid (shared/src/name-resolver.ts). The cache is a Map, here the list of
-- its entries in the order of insertion; the names of several workers are resolved one after the
-- other, where the program makes the requests at once.
use text.Mathlib.Text.{◌==◌}
use delibera_xyz.Prelude.{
  ℕ, zero, suc, ◌-◌, String, Option, none, some, List, [], ◌∷◌, ltb, if◌then◌else◌,
}
use delibera_xyz.Prelude.Text.{◌<>◌, is_empty, strip_prefix, trim, size}
use delibera_xyz.Ensue.Keys.{display_name_key}
use delibera_xyz.Host.{Env, Prog, pure, ok, maybe, ◌>>=◌, ◌>>◌}
use delibera_xyz.Coordinator.Memory.{read_memory, update_memory}

abbrev pub Cache : Type 0
Cache = List (String × String)

unfoldable pub cached : String → Cache → Option String
cached k [] = none
cached k ((j, v) ∷ m) = if j == k then some v else cached k m

-- `map.set(k, v)`: a key keeps its place.
unfoldable pub remember : String → String → Cache → Cache
remember k v [] = (k, v) ∷ []
remember k v ((j, w) ∷ m) = if j == k then (j, v) ∷ m else (j, w) ∷ remember k v m

-- `map.delete(k)`
unfoldable pub forget : String → Cache → Cache
forget k [] = []
forget k ((j, w) ∷ m) = if j == k then m else (j, w) ∷ forget k m

-- `s.slice(0, n)`
abbrev pub take_text : ℕ → String → String
take_text zero s = String.[]
take_text (suc n) String.[] = String.[]
take_text (suc n) (String.◌∷◌ c s) = String.◌∷◌ c (take_text n s)

abbrev drop_text : ℕ → String → String
drop_text zero s = s
drop_text (suc n) String.[] = String.[]
drop_text (suc n) (String.◌∷◌ c s) = drop_text n s

-- `s.slice(-n)`, for a text of at least `n` characters
abbrev last_text : ℕ → String → String
last_text n s = drop_text (size s - n) s

unfoldable pub truncate_did : String → String
unfolding strip_prefix
truncate_did did = elim (strip_prefix "did:key:" did) [
  | some key ↦ if ltb 16 (size key) then take_text 8 key <> "..." <> last_text 4 key else key
  | none ↦ if ltb 24 (size did) then take_text 12 did <> "..." <> last_text 6 did else did
]

unfoldable pub cache : Prog Cache
cache s = (ok s.names, s)

unfoldable pub store_name : String → String → Prog (Unit {0})
store_name did name s = (ok tt, record s { names = remember did name s.names })

unfoldable pub fall_back : String → Prog String
unfolding remember truncate_did
fall_back did = do store_name did (truncate_did did); pure (truncate_did did)

module _ (E : Env) where
  -- The part of resolveName that runs when the cache has no name, or an empty one.
  unfoldable pub fetch_name : String → Prog String
  unfolding fall_back remember trim
  fetch_name did = do
    found ← read_memory E (display_name_key did)
    maybe found (fall_back did) (λ name.
        if is_empty (trim name) then fall_back did else (do store_name did name; pure name))

  unfoldable pub resolve_name : String → Prog String
  unfolding fetch_name cached
  resolve_name did = do
    names ← cache
    maybe (cached did names) (fetch_name did)
        (λ name. if is_empty name then fetch_name did else pure name)

  -- The copy of the cache after all names are resolved.
  unfoldable pub resolve_all : List String → Prog Cache
  unfolding resolve_name
  resolve_all [] = cache
  resolve_all (did ∷ dids) = do _ ← resolve_name did; resolve_all dids

  unfoldable pub set_name : String → String → Prog (Unit {0})
  unfolding remember
  set_name did name = do update_memory (display_name_key did) name; store_name did name

unfoldable pub invalidate : String → Prog (Unit {0})
unfolding forget
invalidate did s = (ok tt, record s { names = forget did s.names })
