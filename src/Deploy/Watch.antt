-- ===== src/Deploy/Watch.antt =====
-- watchForEndpoint and getCvmStatus of protocol-api/src/phala/phala-client.ts.
use delibera_xyz.Prelude.{ℕ, zero, suc, String, none, some}
use delibera_xyz.Prelude.Text.{set_text}
use delibera_xyz.Json.{Json}
use delibera_xyz.Host.{error}
use delibera_xyz.Provision.Flow.{
  Fetched, unfetched, fetched, fetch_cvm, sleep, Flow, done, raise, ◌>>=◌, ◌>>◌, rescue, send,
  when_given,
}
use delibera_xyz.Provision.Services.{Tools}
use delibera_xyz.Provision.Phala.{get_app_url}

-- The rounds that are left, and how many of them are still to pass until the API is asked. The pause between
-- two rounds is 15 s.
module _ (T : Tools) (api_key cvm_id : String) (on_found : String → Flow (Unit {0})) where
  -- An error of `onFound` is dropped.
  abbrev found : String → Flow (Unit {0})
  found url = rescue (on_found url) (λ p. done tt)

  abbrev paused : (left : ℕ) → Flow (Unit {0}) → Flow (Unit {0})
  paused zero rest = done tt
  paused (suc left) rest = do send (sleep 15000); rest

  -- `i % 3 === 2` holds in every third round.
  unfoldable pub watch_rounds : (rounds : ℕ) → (until_api : ℕ) → Flow (Unit {0})
  unfolding rescue get_app_url
  watch_rounds zero until_api = done tt
  watch_rounds (suc left) (suc until_api) = paused left (watch_rounds left until_api)
  watch_rounds (suc left) zero = do
    reported ← get_app_url T api_key cvm_id 1 0
    when_given (set_text reported) (paused left (watch_rounds left 2)) found

  -- watchForEndpoint, for 15 minutes and without a deterministic URL
  unfoldable pub watch_for_endpoint : Flow (Unit {0})
  unfolding watch_rounds
  watch_for_endpoint = watch_rounds 60 2

module _ (T : Tools) where
  abbrev status_of : Fetched → Flow Json
  status_of (unfetched p) = raise p
  status_of (fetched good status text none) = raise (error T.syntax_error)
  status_of (fetched good status text (some body)) = done body

  -- getCvmStatus
  unfoldable pub get_cvm_status : (api_key cvm_id : String) → Flow Json
  get_cvm_status api_key cvm_id = do answer ← send (fetch_cvm api_key cvm_id); status_of answer
