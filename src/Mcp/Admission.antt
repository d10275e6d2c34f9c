-- ===== src/Mcp/Admission.antt =====
-- Which requests of ensue-mcp-server/src/index.ts are served, and which begin a session.
use delibera_xyz.Prelude.{
  ℕ, ◌≡◌, refl, ◌∙◌, String, Bool, true, false, Option, none, some, arith, Bool-cases, Option-cases,
  inl, inr,
}
use delibera_xyz.Prelude.Text.{is_empty}
use delibera_xyz.Prelude.Maps.{find, find-store-same}
use delibera_xyz.Json.{Json}
use delibera_xyz.Mcp.Sessions.{SessionEntry, SessionStore, is_at_capacity, has, touch, register}
use delibera_xyz.Mcp.Requests.{
  initializing, is_mcp_path, new_session, touch_given, routed, handle_request,
  on_session_initialized,
}

touch_given-none :
    {T S : Type 0} (now : ℕ) (id : Option String) (s : SessionStore T S)
    → (touch_given now id s).0 ≡ none
    → (touch_given now id s).1 ≡ s
unfolding touch
touch_given-none now none s h = refl
touch_given-none now (some id) s h = elim (Bool-cases (is_empty id)) [
  | inl blank ↦ rw blank refl
  | inr given ↦ elim (Option-cases (find id s.sessions)) [
    | inl e ↦ rw (given, e, touch) refl
    | inr (v, e) ↦ absurd (ground (arith, h, given, e))
  ]
]

register-room :
    {T S : Type 0} (now : ℕ) (id : String) (transport : T) (server : S) (s : SessionStore T S)
    → is_at_capacity s ≡ false
    → (register now id transport server s).0 ≡ true
      × has id (register now id transport server s).1 ≡ true
unfolding register has
register-room now id transport server s room =
    let new : SessionEntry _ _ = record {
      transport = transport;
      server = server;
      last_activity = now;
    } in
    rw room (refl, rw (find-store-same id new s.sessions, has) refl)

module _ {T S : Type 0} (is_initialize_request : Option Json → Bool) where
  new_session-initializing :
      (connects : Bool) (body : Option Json) (s : SessionStore T S)
      → new_session is_initialize_request connects body s ≡ initializing
      → is_initialize_request body ≡ true × is_at_capacity s ≡ false
  unfolding new_session
  new_session-initializing connects body s h = elim (Bool-cases (is_initialize_request body)) [
    | inr other ↦ absurd (ground (arith, h, other))
    | inl first ↦ elim (Bool-cases (is_at_capacity s)) [
      | inl full ↦ absurd (ground (arith, h, first, full))
      | inr room ↦ (first, room)
    ]
  ]

  routed-initializing :
      (connects : Bool) (body : Option Json) (r : Option (SessionEntry T S) × SessionStore T S)
      → (routed is_initialize_request connects body r).0 ≡ initializing
      → r.0 ≡ none
        × (routed is_initialize_request connects body r).1 ≡ r.1
        × is_initialize_request body ≡ true
        × is_at_capacity r.1 ≡ false
  routed-initializing connects body (none, s) h =
      let k = new_session-initializing connects body s h in (refl, refl, k.0, k.1)
  routed-initializing connects body (some e, s) h = absurd (ground (arith, h))

  handle_request-initializing :
      (now : ℕ) (url : String) (session_id : Option String) (body : Option (Option Json))
      (connects : Bool) (s : SessionStore T S)
      → (handle_request is_initialize_request now url session_id body connects s).0 ≡ initializing
      → (handle_request is_initialize_request now url session_id body connects s).1 ≡ s
        × is_at_capacity s ≡ false
  unfolding handle_request
  handle_request-initializing now url session_id none connects s h = absurd (ground (arith, h))
  handle_request-initializing now url session_id (some body) connects s h =
      elim (Bool-cases (is_mcp_path url)) [
        | inr other ↦ absurd (ground (arith, h, other))
        | inl path ↦
            let k =
              routed-initializing connects body (touch_given now session_id s) (rw path at h) in
            let same = touch_given-none now session_id s k.0 in rw path (k.1 ∙ same, rw same at k.3)
      ]

  -- A request that is to begin a session leaves the store as it is, and if no other operation comes
  -- between it and the callback of its transport, the session is registered, is found, and is not closed.
  pub handle_request-on_session_initialized :
      (now later : ℕ) (url id : String) (session_id : Option String) (body : Option (Option Json))
      (connects : Bool) (transport : T) (server : S) (s : SessionStore T S)
      → (handle_request is_initialize_request now url session_id body connects s).0 ≡ initializing
      → (handle_request is_initialize_request now url session_id body connects s).1 ≡ s
        × (on_session_initialized later id transport server s).0 ≡ false
        × has id (on_session_initialized later id transport server s).1 ≡ true
  unfolding on_session_initialized
  handle_request-on_session_initialized now later url id session_id body connects transport server s
        h =
      let k = handle_request-initializing now url session_id body connects s h in
      let r = register-room later id transport server s k.1 in (k.0, rw r.0 refl, r.1)
