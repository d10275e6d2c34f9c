-- ===== src/X402/Tests.antt =====
-- The paid interface at concrete inputs.
use mathlib.Core.List.{Perm}
use delibera_xyz.Prelude.{◌≡◌, ◌≢◌, refl, String, Option, none, some, [], ◌∷◌}
use delibera_xyz.Json.{str, object}
use delibera_xyz.Host.{ok}
use delibera_xyz.Coordinator.World.{world, world_runs, config, fresh}
use delibera_xyz.Coordinator.Tally.{TallyResult}
use delibera_xyz.Coordinator.Rounds.{trigger_local_coordination}
use delibera_xyz.X402.Store.{
  list_records, failed, VerdictRecord, Updates, no_updates, Store, get_record, create_record,
  updated, update_record,
}
use delibera_xyz.X402.Listing.{IsNewestFirst, list_records-IsNewestFirst}
use delibera_xyz.X402.Requests.{IsProposal, check_request-accepted}
use delibera_xyz.X402.StoreLaws.{update_record-get_record, updated-completed_at}
use delibera_xyz.X402.Deliberate.{accepted, check_request, run_deliberation}
use delibera_xyz.X402.Agreement.{Answered, trigger-Answered}

abbrev first_record : VerdictRecord
first_record = (create_record "delib-1" "Fund it" none none 1000 []).0

abbrev store : Store
store = ("delib-1", first_record) ∷ []

found : get_record "delib-1" store ≡ some first_record
unfolding get_record
found = refl

checked :
    check_request (some (object (("proposal", str "  Fund it ") ∷ []))) ≡ accepted "Fund it" none
unfolding check_request
checked = refl

trigger-Answered_example :
    (result : Option TallyResult) × ((trigger_local_coordination world config "task" fresh).0
      ≡ ok result)
    × Answered world.iso "115" "delib-1" first_record result (
        run_deliberation
          (λ p. "error")
          "delib-1"
          (trigger_local_coordination world config "task" fresh).0
          2000
          store)
trigger-Answered_example =
    trigger-Answered world world_runs config (λ p. "error") "115" "delib-1" "task" fresh 2000 store
      first_record found

abbrev to_failed : Updates
to_failed = record no_updates { status = some failed }

update_record-get_record_example :
    (update_record "delib-1" to_failed 2000 store).0
      ≡ get_record "delib-1" (update_record "delib-1" to_failed 2000 store).1
    × (◌≢◌ {A = String} "delib-1" "delib-2"
        → get_record "delib-2" (update_record "delib-1" to_failed 2000 store).1
          ≡ get_record "delib-2" store)
update_record-get_record_example = update_record-get_record "delib-1" to_failed 2000 store "delib-2"

updated-completed_at_example :
    (updated 3000 no_updates (updated 2000 to_failed first_record)).completed_at ≡ some 2000
unfolding create_record
updated-completed_at_example =
    updated-completed_at 1999 3000 to_failed no_updates first_record refl refl refl

abbrev second_record : VerdictRecord
second_record = record first_record { id = "delib-2"; created_at = 2000 }

abbrev two_records : Store
two_records = ("delib-1", first_record) ∷ ("delib-2", second_record) ∷ []

list_records-IsNewestFirst_example :
    IsNewestFirst (list_records two_records)
    × Perm (list_records two_records) (first_record ∷ second_record ∷ [])
list_records-IsNewestFirst_example = list_records-IsNewestFirst two_records

check_request-accepted_example : IsProposal "Fund it"
check_request-accepted_example =
    check_request-accepted (some (object (("proposal", str "  Fund it ") ∷ []))) checked
