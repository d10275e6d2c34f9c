-- ===== src/Mcp/Requests.antt =====
-- The handler of a request in ensue-mcp-server/src/index.ts, with the callbacks of the transport. What
-- the MCP library decides, whether a body is an initialize request and whether a server connects, are
-- arguments; a transport that is found answers for itself.
use text.Mathlib.Text.{◌==◌}
use delibera_xyz.Prelude.{
  ℕ, String, Bool, true, not, Option, none, some, List, get_elem?, if◌then◌else◌,
}
use delibera_xyz.Prelude.Text.{is_empty, split}
use delibera_xyz.Json.{Json}
use delibera_xyz.Mcp.Sessions.{SessionEntry, SessionStore, is_at_capacity, touch, register, remove}

-- An error response with its message, the transport that the request is passed on to, or a new
-- transport for an initialize request.
pub data Answer (T : Type 0) : Type 0 where
  refused : (code : ℕ) (message : String) → Answer T
  passed_to : T → Answer T
  initializing : Answer T

abbrev first_part : List String → String
first_part parts = elim (get_elem? parts 0) [ none ↦ "" | some s ↦ s ]

-- The path of the request, `(req.url ?? '').split('?')[0]`.
unfoldable pub is_mcp_path : String → Bool
unfolding split
is_mcp_path url =
    let path = first_part (split b'?' url) in if path == "/mcp" then true else path == "/mcp/"

-- `sessionId ? sessionStore.touch(sessionId) : undefined`
abbrev pub touch_given :
    {T S : Type 0}
    → ℕ
    → Option String
    → SessionStore T S
    → Option (SessionEntry T S) × SessionStore T S
touch_given now none s = (none, s)
touch_given now (some id) s = if is_empty id then (none, s) else touch now id s

module _ {T S : Type 0} (is_initialize_request : Option Json → Bool) where
  -- A request without a session.
  unfoldable pub new_session : (connects : Bool) → Option Json → SessionStore T S → Answer T
  unfolding is_at_capacity
  new_session connects body s =
      if not (is_initialize_request body)
      then refused 400 "Bad Request: Server not initialized"
      else (if is_at_capacity s
          then refused 503 "Server at capacity — too many active sessions"
          else (if connects then initializing else refused 500 "Internal server error"))

  abbrev pub routed :
      Bool
      → Option Json
      → Option (SessionEntry T S) × SessionStore T S
      → Answer T × SessionStore T S
  routed connects body (none, s) = (new_session connects body s, s)
  routed connects body (some e, s) = (passed_to e.transport, s)

  -- `body` is `none` where reading or parsing the body fails.
  unfoldable pub handle_request :
      (now : ℕ) (url : String) (session_id : Option String) (body : Option (Option Json))
      (connects : Bool)
      → SessionStore T S
      → Answer T × SessionStore T S
  unfolding is_mcp_path touch new_session
  handle_request now url session_id none connects s =
      if is_mcp_path url
      then (refused 500 "Internal server error", s)
      else (refused 404 "Not found. Use /mcp endpoint.", s)
  handle_request now url session_id (some body) connects s =
      if is_mcp_path url
      then routed connects body (touch_given now session_id s)
      else (refused 404 "Not found. Use /mcp endpoint.", s)

-- What the transport does once it is initialized: whether it is closed at once, and the store.
unfoldable pub on_session_initialized :
    {T S : Type 0} (now : ℕ) (id : String) (transport : T) (server : S)
    → SessionStore T S
    → Bool × SessionStore T S
unfolding register
on_session_initialized now id transport server s =
    let r = register now id transport server s in (not r.0, r.1)

-- The end of a transport, whose id may not be set.
unfoldable pub on_close : {T S : Type 0} → Option String → SessionStore T S → SessionStore T S
unfolding remove
on_close none s = s
on_close (some id) s = if is_empty id then s else (remove id s).1
