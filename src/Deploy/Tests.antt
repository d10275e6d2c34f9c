-- ===== src/Deploy/Tests.antt =====
-- protocol-api/src/routes/deploy.ts at concrete requests.
use delibera_xyz.Prelude.{◌≡◌, refl, true, none, some, [], ◌∷◌}
use delibera_xyz.Prelude.Text.{strip_prefix, trim_start}
use delibera_xyz.Json.{str, object}
use delibera_xyz.Provision.Flow.{done, rescue}
use delibera_xyz.Provision.Services.{Tools}
use delibera_xyz.Deploy.Registry.{DeployEnv, worker_id_in, id_at_start, quoted}
use delibera_xyz.Deploy.Routes.{too_short, failed_response, deploy_route}

found_id : worker_id_in "ok: {\"worker_id\" : \"ann-3\"}" ≡ some "ann-3"
unfolding worker_id_in id_at_start quoted strip_prefix trim_start
found_id = refl

short_names : (too_short (some (str "a")) ≡ true) × (too_short none ≡ true)
short_names = (refl, refl)

no_type :
    (T : Tools) (E : DeployEnv)
    → deploy_route T E (some (object (("name", str "ann") ∷ [])))
      ≡ done (failed_response 400 "Invalid type. Must be \"coordinator\" or \"worker\"", none)
unfolding deploy_route rescue
no_type T E = refl
