-- ===== src/Routes/Tests.antt =====
-- Requests at concrete inputs: the registry lists one active worker that polls and one that is served over
-- HTTP, whose endpoint reports its DID.
use text.Mathlib.Text.{◌==◌}
use delibera_xyz.Prelude.{
  ℕ, ◌≡◌, refl, String, true, false, Option, none, some, List, [], ◌∷◌, if◌then◌else◌,
}
use delibera_xyz.Json.{Json, str, object}
use delibera_xyz.Ensue.Keys.{worker_keys}
use delibera_xyz.Host.{Env, Worker, response, unreachable, Outcome, ok, Proc, ◌>>=◌}
use delibera_xyz.Coordinator.Registration.{local_register_worker_in_registry}
use delibera_xyz.Coordinator.Submissions.Ids.{has_slash}
use delibera_xyz.Vrf.Seed.{first_seed}
use delibera_xyz.Vrf.Shuffle.{fisher_yates_shuffle}
use delibera_xyz.Host.Answers.{Response, Engine}
use delibera_xyz.Host.Ways.{LedOf}
use delibera_xyz.Coordinator.World.{world, fresh}
use delibera_xyz.Coordinator.Tally.{extract_vote}
use delibera_xyz.Coordinator.Submissions.{submission_of}
use delibera_xyz.Vrf.Jury.{JuryError, JurySelection, IsJuryOf}
use delibera_xyz.Agent.Writes.{add_write, writes}
use delibera_xyz.Prelude.Maps.{find, store}
use delibera_xyz.Coordinator.Dispatch.{is_polling_worker}
use delibera_xyz.Routes.Validation.{
  filter_validated_workers, check_worker, known, validation_cache, check_all, note_check, passes,
  validate_worker,
}
use delibera_xyz.Routes.Known.{OfFilter, add_fetch, filter_validated_workers-Checked}
use delibera_xyz.Routes.Polls.{vote_json, poll_vote_route}
use delibera_xyz.Routes.Voting.{OfPoll, poll_vote_route-Polled, vote_json-submission_of}
use delibera_xyz.Routes.Registering.{register_route}
use delibera_xyz.Routes.Registered.{OfRegister, add_call, calls, register_route-Registering}
use delibera_xyz.Routes.Juries.{
  selection_json, verified_json, select_jury_route, verify_jury_route, select_body, verify_body,
  select_jury_route-verify_jury_route,
}

abbrev worker : String → String → Worker
worker did url = record {
  account_id = "";
  worker_did = did;
  endpoint_url = some url;
  cvm_id = none;
  registered_at = 0;
  is_active = true;
}

abbrev ann : Worker
ann = worker "did:ann" "ensue://ann"

abbrev ben : Worker
ben = worker "did:ben" "https://ben"

abbrev town : Env
town = record world {
  codec = record {
    parse = λ s. some (vote_json "Approved" "" "now");
    stringify = λ j. "text";
    decimal = λ n. "7";
  };
  iso = λ n. "now";
  registry = λ h. some (ann ∷ ben ∷ []);
  fetch = λ h u.
      if u == "https://ben/"
      then response true 200 (some (object (("workerDid", str "did:ben") ∷ [])))
      else unreachable;
}

abbrev engine : Engine
engine = record { describe = λ p. "error"; syntax_error = "syntax error"; parse_int = λ s. some 7 }

abbrev ballot : Json
ballot = object (("option", str "Approved") ∷ [])

-- What a handler has answered, as the code.
abbrev code_of : Outcome Response × Proc → Option ℕ
code_of (ok r, s) = some r.code
code_of r = none

vote-accepted : code_of (poll_vote_route town none "did:ann" (some ballot) fresh) ≡ some 200
unfolding poll_vote_route ◌>>=◌
vote-accepted = refl

vote-refused : code_of (poll_vote_route town none "did:eve" (some ballot) fresh) ≡ some 403
unfolding poll_vote_route ◌>>=◌
vote-refused = refl

vote-unsent :
    code_of (poll_vote_route town (some "no key") "did:ann" (some ballot) fresh) ≡ some 502
unfolding poll_vote_route ◌>>=◌
vote-unsent = refl

poll_vote_route-Polled_example :
    LedOf add_write
      (OfPoll town none "did:ann" (some ballot) (writes fresh.history))
      (poll_vote_route town none "did:ann" (some ballot) fresh)
poll_vote_route-Polled_example = poll_vote_route-Polled town none "did:ann" (some ballot) fresh

vote_json-submission_of_example :
    extract_vote (vote_json "Approved" "" "now") ≡ ok (some (str "Approved"))
    × submission_of town (worker_keys "did:ann").result (some "text")
      ≡ some (record { worker_id = str "did:ann"; result_hash = "text" })
unfolding has_slash
vote_json-submission_of_example =
    vote_json-submission_of town "did:ann" "Approved" "" "now" refl refl refl refl

abbrev registration : Json
registration = object (("endpointUrl", str "https://ben/") ∷ [])

registered : code_of (register_route town engine (some registration) fresh) ≡ some 200
unfolding register_route ◌>>=◌ local_register_worker_in_registry
registered = refl

register_route-Registering_example :
    LedOf add_call
      ((OfRegister town engine (calls fresh.history)).0, (λ _. ⊥))
      (register_route town engine (some registration) fresh)
register_route-Registering_example =
    register_route-Registering town engine (some registration) fresh

-- Ann was found valid lately, and Ben is asked: the check of him is too old.
abbrev outdated_check : Proc
outdated_check = record fresh {
  checks =
      ("did:ann", record { valid = true; checked_at = 900 })
      ∷ ("did:ben", record { valid = false; checked_at = 0 })
      ∷ [];
}

abbrev noon : Env
noon = record town { now = λ h. 300000 }

passing : (filter_validated_workers noon (ann ∷ ben ∷ []) outdated_check).0 ≡ ok (ann ∷ ben ∷ [])
unfolding filter_validated_workers ◌>>=◌ check_worker known validation_cache check_all find store
    note_check passes validate_worker is_polling_worker
passing = refl

filter_validated_workers-Checked_example :
    LedOf add_fetch
      (OfFilter noon (ann ∷ ben ∷ []) outdated_check)
      (filter_validated_workers noon (ann ∷ ben ∷ []) outdated_check)
filter_validated_workers-Checked_example =
    filter_validated_workers-Checked noon (ann ∷ ben ∷ []) outdated_check

abbrev pool : List String
pool = "a" ∷ "b" ∷ "c" ∷ []

abbrev blame : JuryError → String
blame e = "jury"

jury-selected :
    (select_jury_route town.codec blame "type" "syntax"
      (some "42")
      "1000"
      "now"
      (some (select_body pool 2))).code
    ≡ 200
unfolding select_jury_route fisher_yates_shuffle first_seed
jury-selected = refl

select_jury_route-verify_jury_route_example :
    (r : JurySelection) × ((select_jury_route town.codec blame "type" "syntax"
        (some "42")
        "1000"
        "now"
        (some (select_body pool 2))).body
      ≡ selection_json r)
    × IsJuryOf pool 2 r.jury
    × (verify_jury_route town.codec blame "type" "syntax" "later"
          (some (verify_body pool 2 r.vrf_seed))
        ≡ record { code = 200; body = verified_json r.jury r.vrf_seed "later" })
select_jury_route-verify_jury_route_example =
    select_jury_route-verify_jury_route town.codec blame "type" "syntax" "42" "1000" "now" "later"
      pool 1 refl jury-selected
