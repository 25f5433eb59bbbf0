-- ===== src/Gateway/Client/Session.antt =====
-- When the client resumes a session and when it starts a new one.
use polarix.Gateway.Client.Frames.{Beats, authorize-sent, expected_frame, read_loop-Beats}
use polarix.Prelude.{
  ℕ, ◌≡◌, refl, ◌≢◌, inl, inr, Bool, true, false, not, ◌&&◌, ◌||◌, Option, none, some, List, [],
  ◌∷◌, arith, if◌then◌else◌, Bool-cases, Text, is_empty, ℤ, pos,
}
use polarix.Gateway.Client.Reading.{
  Exit, Read, failed, garbled, go_on, handle_message, invalid_session, message, read_failed,
  read_loop, reading, reconnect_requested,
}
use polarix.Gateway.Client.Connecting.{
  connect, ended, get_gateway_url, greet, hello_interval, serve, wait_hello,
}
use polarix.Gateway.Client.{
  Client, GatewayMessage, close_conn, handle_disconnect, is_fatal, is_resumable, is_session_error,
  keep,
}

-- The ways of losing a connection that lose the session.
abbrev pub kills : Exit → Bool
kills reading = false
kills (read_failed none) = false
kills (read_failed (some code)) =
    not (is_resumable code) && (is_session_error code || is_fatal code)
kills reconnect_requested = false
kills invalid_session = true

-- The session has been lost: none is known and none would be resumed.
abbrev pub IsLost : Client → Type 0
IsLost c = (c.session_id ≡ []) × (c.latest_seq ≡ pos 0) × (c.can_resume ≡ false)

-- A session that is known would be resumed.
abbrev pub IsKept : Client → Type 0
IsKept c = c.session_id ≢ [] → c.can_resume ≡ true

-- The client after a connection that ended as it did.
abbrev pub IsAfter : Client → Exit → Type 0
IsAfter c reading = Unit
IsAfter c e = if kills e then IsLost c else IsKept c

empty_text : (t : Text) → is_empty t ≡ true → t ≡ []
empty_text [] e = refl
empty_text (c ∷ t) e = cc

keep-IsKept : (c : Client) → IsKept (keep c)
keep-IsKept c = elim (Bool-cases (is_empty c.session_id)) [
  | inl e ↦ rw e (λ known. absurd (known (empty_text c.session_id e)))
  | inr e ↦ rw e (λ known. refl)
]

handle_disconnect-IsAfter :
    (c : Client) (code : Option ℕ) → IsAfter (handle_disconnect c code) (read_failed code)
unfolding handle_disconnect
handle_disconnect-IsAfter c none = keep-IsKept c
handle_disconnect-IsAfter c (some code) = elim (Bool-cases (is_resumable code)) [
  | inl e ↦ rw e (λ known. refl)
  | inr e ↦ elim (Bool-cases (is_session_error code)) [
    | inl d ↦ rw (e, d) (refl, refl, refl)
    | inr d ↦ elim (Bool-cases (is_fatal code)) [
      | inl f ↦ rw (e, d, f) (refl, refl, refl)
      | inr f ↦ rw (e, d, f) (keep-IsKept c)
    ]
  ]
]

go_on-IsAfter :
    (x rest : Client × Exit)
    → IsAfter x.0 x.1
    → IsAfter rest.0 rest.1
    → IsAfter (go_on x rest).0 (go_on x rest).1
go_on-IsAfter (c, reading) rest h k = k
go_on-IsAfter (c, read_failed code) rest h k = h
go_on-IsAfter (c, reconnect_requested) rest h k = h
go_on-IsAfter (c, invalid_session) rest h k = h

close_conn-IsAfter : (c : Client) (e : Exit) → IsAfter c e → IsAfter (close_conn c) e
unfolding close_conn
close_conn-IsAfter c reading h = h
close_conn-IsAfter c (read_failed none) h = h
close_conn-IsAfter c (read_failed (some code)) h =
    elim (Bool-cases (kills (read_failed (some code)))) [
      | inl e ↦ ground (arith, h, e)
      | inr e ↦ ground (arith, h, e)
    ]
close_conn-IsAfter c reconnect_requested h = h
close_conn-IsAfter c invalid_session h = h

module _ (ready_session : Text → Option Text) (is_payload : Text → Bool)
    (hello_data : Text → Option ℤ) where
  handle_message-IsAfter :
      (c : Client) (m : GatewayMessage) (raw : Text) (now : ℕ) (written : Bool)
      → let (c', e) = handle_message ready_session is_payload hello_data c m raw now written in
        IsAfter c' e
  unfolding handle_message close_conn
  handle_message-IsAfter c m raw now written = ground arith

  read_loop-IsAfter :
      (rs : List Read) (c : Client)
      → let (c', e) = read_loop ready_session is_payload hello_data c rs in IsAfter c' e
  unfolding read_loop
  read_loop-IsAfter [] c = tt
  read_loop-IsAfter (failed code ∷ rs) c = handle_disconnect-IsAfter c code
  read_loop-IsAfter (garbled ∷ rs) c = read_loop-IsAfter rs c
  read_loop-IsAfter (message m raw now written ∷ rs) c =
      let handled = handle_message ready_session is_payload hello_data c m raw now written in
      go_on-IsAfter handled (read_loop ready_session is_payload hello_data handled.0 rs)
        (handle_message-IsAfter c m raw now written) (read_loop-IsAfter rs handled.0)

  -- Where the gateway's address is known, the dial and Hello succeed, there is a token and the first
  -- write succeeds, connect writes one frame, a Resume with the session and its sequence number if a
  -- session is known and may be resumed, an Identify if not; then only heartbeats are written; the
  -- connection is closed at the end; and if the connection was lost in a way that loses the session,
  -- none is known any more, if it was lost in another way a known session would be resumed next.
  pub connect-session :
      (c : Client) (asked : Option Text) (url : Text) (k : ℕ) (first : Option GatewayMessage)
      (now : ℕ) (ms : ℤ) (token : Text) (rs : List Read)
      → get_gateway_url c asked ≡ some url
      → wait_hello ready_session is_payload hello_data first ≡ some ms
      → let (c', e) = connect ready_session is_payload hello_data c (record {
        url = asked;
        dialed = some k;
        first = first;
        now = now;
        token = some token;
        written = true;
        reads = rs;
      }) in
        (c'.conn ≡ none)
        × Beats (expected_frame ready_session is_payload hello_data c token ∷ c.sent) c'.sent
        × ((x : Exit) × (e ≡ ended x) × IsAfter c' x)
  unfolding connect greet serve close_conn
  connect-session c asked url k first now ms token rs at_url at_hello =
      let g : Client = record c {
        conn = some k;
        heartbeat_interval = hello_interval ms;
        last_ack_received = now;
      } in
      let d : Client = record g {
        sent = expected_frame ready_session is_payload hello_data c token ∷ c.sent;
      } in
      let (c', x) = read_loop ready_session is_payload hello_data d rs in
      rw (at_url, connect)
        (rw (at_hello, greet)
          (rw (authorize-sent ready_session is_payload hello_data g k token refl, serve)
            (
              refl,
              read_loop-Beats ready_session is_payload hello_data rs d,
              (x, refl, close_conn-IsAfter c' x (read_loop-IsAfter rs d)),
            )))
