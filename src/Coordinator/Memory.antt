-- ===== src/Coordinator/Memory.antt =====
-- The effects of the coordinator, one program each. EnsueClient catches and logs every error of its
-- requests (ensue-client/src/ensue-client.ts), so that none of these throws.
use delibera_xyz.Prelude.{ℕ, String, Option, List}
use delibera_xyz.Host.{Env, Event, Worker, Reply, Call, CallReply, Prog, emit}

module _ (E : Env) where
  abbrev pub read_memory : String → Prog (Option String)
  read_memory key = emit (Event.read key) (λ h. E.read h key)

  abbrev pub read_multiple : List String → Prog (String → Option String)
  read_multiple keys = emit (Event.read_multiple keys) (λ h. E.read_multiple h keys)

  abbrev pub clock : Prog ℕ
  clock = emit Event.checked_clock (λ h. E.now h)

  abbrev pub uuid : Prog String
  uuid = emit Event.drew_uuid (λ h. E.uuid h)

  abbrev pub list_active_workers : Prog (Option (List Worker))
  list_active_workers = emit Event.listed_workers (λ h. E.registry h)

  abbrev pub fetch : String → Prog Reply
  fetch url = emit (Event.fetched url) (λ h. E.fetch h url)

  abbrev pub post : String → String → String → Prog Reply
  post url signature body =
      emit (Event.posted url signature body) (λ h. E.post h url signature body)

  abbrev pub call : Call → Prog CallReply
  call c = emit (Event.called c) (λ h. E.call h c)

abbrev pub update_memory : String → String → Prog (Unit {0})
update_memory key value = emit (Event.wrote key value) (λ h. tt)

abbrev pub sleep : ℕ → Prog (Unit {0})
sleep ms = emit (Event.slept ms) (λ h. tt)
