-- ===== src/Routes/Juries.antt =====
-- POST select-jury and POST verify-jury of coordinator-agent/src/routes/coordinate.ts. A candidate stands
-- as its text, a jury size that is no number counts as missing, and the answer of the Flow query is an
-- argument, as in Vrf/Jury.
use delibera_xyz.Prelude.{
  ℕ, suc, ◌≡◌, refl, ap, String, true, false, Option, none, some, List, [], ◌∷◌, map, length, ltb,
  if◌then◌else◌, Bool-cases, inl, inr, arith,
}
use delibera_xyz.Prelude.Text.{◌<>◌, is_empty}
use delibera_xyz.Json.{
  Json, Codec, Items, nil, cons, null, bool, num, str, arr, items, object, strings, member, truthy?,
  number_or_else, template_text,
}
use delibera_xyz.Host.Answers.{Response, error_response, details_response}
use delibera_xyz.Vrf.Jury.{
  JuryError, chosen, threw, JuryResult, JurySelection, IsJuryOf, select_jury, verify_jury_selection,
  select_jury-IsJuryOf, select_jury-seed,
}

abbrev pub candidates : Codec → Items → List String
candidates c nil = []
candidates c (cons j js) = template_text c j ∷ candidates c js

-- `body.deliberationId`, where a text is expected.
abbrev pub text_field : Option Json → Option String
text_field (some (str s)) = some s
text_field v = none

abbrev pub selection_json : JurySelection → Json
selection_json r = object (
    ("jury", strings r.jury)
    ∷ ("vrfSeed", str r.vrf_seed)
    ∷ ("vrfProof", str r.vrf_proof)
    ∷ ("poolSize", num r.pool_size)
    ∷ ("jurySize", num r.jury_size)
    ∷ ("deliberationId", str r.deliberation_id)
    ∷ ("selectedAt", str r.selected_at)
    ∷ [])

abbrev pub verified_json : List String → (seed iso : String) → Json
verified_json jury seed iso = object (
    ("jury", strings jury)
    ∷ ("vrfSeed", str seed)
    ∷ ("verified", bool true)
    ∷ ("timestamp", str iso)
    ∷ [])

-- The body of a request to select, and that of one to verify.
abbrev pub select_body : List String → ℕ → Json
select_body pool size = object (("pool", strings pool) ∷ ("jurySize", num size) ∷ [])

abbrev pub verify_body : List String → ℕ → String → Json
verify_body pool size seed =
    object (("pool", strings pool) ∷ ("jurySize", num size) ∷ ("vrfSeed", str seed) ∷ [])

-- `describe` gives the message of an error, `type_error` and `syntax_error` those of the engine's.
module _ (c : Codec) (describe : JuryError → String) (type_error syntax_error : String) where
  abbrev pub selection_response : JuryResult JurySelection → Response
  selection_response (chosen r) = record { code = 200; body = selection_json r }
  selection_response (threw e) = details_response 500 "Failed to select jury" (describe e)

  unfoldable pub select_from :
      (seed : Option String) (now iso : String) (pool : List String) (size : ℕ)
      → Option String
      → Response
  unfolding select_jury
  select_from seed now iso [] size id =
      error_response 400 "pool must be a non-empty array of candidate IDs"
  select_from seed now iso (x ∷ xs) size id =
      if ltb (length (x ∷ xs)) size
      then error_response 400 (
          "jurySize ("
          <> (c.decimal size <> (") exceeds pool size (" <> (c.decimal (length (x ∷ xs)) <> ")"))))
      else selection_response (select_jury seed now iso (x ∷ xs) size id)

  -- `seed` is the answer of the Flow query, `now` and `iso` are the texts of the times.
  unfoldable pub select_jury_route :
      (seed : Option String) (now iso : String) → Option Json → Response
  unfolding select_from
  select_jury_route seed now iso none = details_response 500 "Failed to select jury" syntax_error
  select_jury_route seed now iso (some null) =
      details_response 500 "Failed to select jury" type_error
  select_jury_route seed now iso (some body) = elim (member "pool" body) [
    | some (arr xs) ↦
        select_from seed now iso (candidates c xs) (number_or_else (member "jurySize" body) 3)
          (text_field (member "deliberationId" body))
    | _ ↦ error_response 400 "pool must be a non-empty array of candidate IDs"
  ]

  abbrev pub verified_response : (seed iso : String) → Option (List String) → Response
  verified_response seed iso none =
      details_response 500 "Failed to verify jury" (describe (JuryError.bad_seed seed))
  verified_response seed iso (some jury) = record { code = 200; body = verified_json jury seed iso }

  abbrev pub verify_from : (iso : String) (pool : List String) (size : ℕ) → Option Json → Response
  verify_from iso pool size (some (str seed)) =
      if is_empty seed
      then error_response 400 "pool and vrfSeed are required"
      else verified_response seed iso (verify_jury_selection pool size seed)
  verify_from iso pool size seed =
      if truthy? seed
      then details_response 500 "Failed to verify jury" type_error
      else error_response 400 "pool and vrfSeed are required"

  unfoldable pub verify_jury_route : (iso : String) → Option Json → Response
  unfolding verify_jury_selection
  verify_jury_route iso none = details_response 500 "Failed to verify jury" syntax_error
  verify_jury_route iso (some null) = details_response 500 "Failed to verify jury" type_error
  verify_jury_route iso (some body) = elim (member "pool" body) [
    | some (arr xs) ↦
        verify_from iso (candidates c xs) (number_or_else (member "jurySize" body) 3)
          (member "vrfSeed" body)
    | _ ↦ error_response 400 "pool and vrfSeed are required"
  ]

  candidates-strings : (ss : List String) → candidates c (items (map str ss)) ≡ ss
  unfolding template_text
  candidates-strings [] = refl
  candidates-strings (s ∷ ss) = ap (◌∷◌ s) (candidates-strings ss)

  chosen-response :
      (o : JuryResult JurySelection)
      → (selection_response o).code ≡ 200
      → (r : JurySelection) × (o ≡ chosen r)
  chosen-response (chosen r) h = (r, refl)
  chosen-response (threw e) h = absurd (ground (arith, h))

  select_from-chosen :
      (seed now iso : String) (pool : List String) (size : ℕ) (id : Option String)
      → (select_from (some seed) now iso pool size id).code ≡ 200
      → (r : JurySelection) × (select_jury (some seed) now iso pool size id ≡ chosen r)
        × (select_from (some seed) now iso pool size id).body ≡ selection_json r
  unfolding select_from
  select_from-chosen seed now iso [] size id h = absurd (ground (arith, h))
  select_from-chosen seed now iso (x ∷ xs) size id h =
      elim (Bool-cases (ltb (length (x ∷ xs)) size)) [
        | inl over ↦ absurd (ground (arith, h, over))
        | inr fits ↦
            let (r, e) =
              chosen-response (select_jury (some seed) now iso (x ∷ xs) size id) (rw fits at h) in
            (r, e, rw (fits, e) refl)
      ]

  -- If the request to select from a pool of texts, with a size that is not 0, is answered with the code
  -- 200, the answer shows a jury that is drawn from the pool without repetition and has the size asked
  -- for; and the request to verify with the same pool and size and with the seed of the answer, if that
  -- is not empty, is answered with the code 200 and the same jury.
  pub select_jury_route-verify_jury_route :
      (seed now iso later : String) (pool : List String) (n : ℕ)
      → is_empty seed ≡ false
      → (select_jury_route (some seed) now iso (some (select_body pool (suc n)))).code ≡ 200
      → (r : JurySelection) × ((select_jury_route
            (some seed)
            now
            iso
            (some (select_body pool (suc n)))).body
          ≡ selection_json r)
        × IsJuryOf pool (suc n) r.jury
        × (verify_jury_route later (some (verify_body pool (suc n) r.vrf_seed))
            ≡ record { code = 200; body = verified_json r.jury r.vrf_seed later })
  unfolding select_jury_route verify_jury_route
  select_jury_route-verify_jury_route seed now iso later pool n full h =
      let same = candidates-strings pool in
      let (r, e, shown) = select_from-chosen seed now iso pool (suc n) none (rw same at h) in
      let jury = select_jury-IsJuryOf (some seed) now iso pool (suc n) none e in
      let from = select_jury-seed seed now iso pool (suc n) none e in
      (r, rw same shown, jury.0, rw (same, jury.1, from, full) refl)
