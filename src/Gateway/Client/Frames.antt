-- ===== src/Gateway/Client/Frames.antt =====
-- The frames that the client writes on a connection.
use polarix.Prelude.{
  ℕ, ◌≡◌, sym, ap, subst, inl, inr, Bool, true, false, not, ◌&&◌, Option, none, some, List, [], ◌∷◌,
  arith, if◌then◌else◌, Bool-cases, Option-cases, Text, is_empty, ℤ, pos,
}
use polarix.Gateway.Client.Reading.{
  Exit, Read, failed, garbled, go_on, handle_dispatch, handle_message, invalid_session, message,
  read_failed, read_loop, reading, reconnect_requested, store_seq,
}
use polarix.Gateway.Client.Connecting.{authorize}
use polarix.Gateway.Client.{
  Client, Frame, GatewayMessage, bearer, close_conn, eq_ℤ, handle_disconnect, heartbeat, identify,
  resume, send_heartbeat, send_identify, send_resume, shard_pair, write_json, write_on,
}

write_open :
    (c : Client) (f : Frame) (k : ℕ)
    → c.conn ≡ some k
    → write_json c f true ≡ (record c { sent = f ∷ c.sent }, true)
unfolding write_json
write_open c f k h = ap (λ (o : Option ℕ). write_on o c f true) h

-- The second list of frames is the first with heartbeats in front.
pub data Beats (s : List Frame) : List Frame → Type 0 where
  no_beat : Beats s s
  beat : {t : List Frame} {n : Option ℤ} → Beats s t → Beats s (heartbeat n ∷ t)

Beats-trans : {s t u : List Frame} → Beats s t → Beats t u → Beats s u
Beats-trans h no_beat = h
Beats-trans h (beat k) = beat (Beats-trans h k)

if-Beats :
    (b : Bool) (s : List Frame) (x y : Client × Exit)
    → Beats s x.0.sent
    → Beats s y.0.sent
    → Beats s (if b then x else y).0.sent
if-Beats true s x y h k = h
if-Beats false s x y h k = k

go_on-Beats :
    (s : List Frame) (x rest : Client × Exit)
    → Beats s x.0.sent
    → Beats x.0.sent rest.0.sent
    → Beats s (go_on x rest).0.sent
go_on-Beats s (c, reading) rest h k = Beats-trans h k
go_on-Beats s (c, read_failed code) rest h k = h
go_on-Beats s (c, reconnect_requested) rest h k = h
go_on-Beats s (c, invalid_session) rest h k = h

write_on-Beats :
    (o : Option ℕ) (c : Client) (n : Option ℤ) (written : Bool)
    → Beats c.sent (write_on o c (heartbeat n) written).0.sent
write_on-Beats none c n written = no_beat
write_on-Beats (some k) c n true = beat no_beat
write_on-Beats (some k) c n false = no_beat

send_heartbeat-Beats :
    (c : Client) (written : Bool) → Beats c.sent (send_heartbeat c written).0.sent
unfolding send_heartbeat write_json
send_heartbeat-Beats c written = write_on-Beats c.conn c _ written

sent-handle_disconnect : (c : Client) (code : Option ℕ) → (handle_disconnect c code).sent ≡ c.sent
unfolding handle_disconnect
sent-handle_disconnect c none = ground arith
sent-handle_disconnect c (some code) = ground arith

module _ (ready_session : Text → Option Text) (is_payload : Text → Bool)
    (hello_data : Text → Option ℤ) where
  -- What the client writes first on a connection, given that it has a token and the write succeeds.
  abbrev pub expected_frame : Client → Text → Frame
  expected_frame c token =
      if c.can_resume && not (is_empty c.session_id)
      then resume (bearer token) c.session_id c.latest_seq
      else identify (bearer token) c.config.intents (shard_pair c.config.shard)

  pub authorize-sent :
      (c : Client) (k : ℕ) (token : Text)
      → c.conn ≡ some k
      → authorize ready_session is_payload hello_data c (some token) true
        ≡ (record c { sent = expected_frame c token ∷ c.sent }, true)
  unfolding authorize send_resume send_identify
  authorize-sent c k token open_at =
      elim (Bool-cases (c.can_resume && not (is_empty c.session_id))) [
        | inl e ↦ rw e (write_open c _ k open_at)
        | inr e ↦ rw e (write_open c _ k open_at)
      ]

  sent-handle_dispatch :
      (c : Client) (t d raw : Text)
      → (handle_dispatch ready_session is_payload hello_data c t d raw).sent ≡ c.sent
  unfolding handle_dispatch
  sent-handle_dispatch c t d raw = elim (Option-cases (ready_session d)) [
    | inl e ↦ ground (arith, e)
    | inr (id, e) ↦ ground (arith, e)
  ]

  sent-store_seq :
      (c : Client) (m : GatewayMessage)
      → (store_seq ready_session is_payload hello_data c m).sent ≡ c.sent
  unfolding store_seq
  sent-store_seq c m = ground arith

  handle_message-Beats :
      (c : Client) (m : GatewayMessage) (raw : Text) (now : ℕ) (written : Bool)
      → Beats c.sent (handle_message ready_session is_payload hello_data c m raw now written).0.sent
  unfolding handle_message close_conn
  handle_message-Beats c m raw now written =
      let d = store_seq ready_session is_payload hello_data c m in
      let same_sent : d.sent ≡ c.sent = sent-store_seq c m in
      subst
        (λ (s : List Frame).
          Beats s (handle_message ready_session is_payload hello_data c m raw now written).0.sent)
        same_sent
        (if-Beats (eq_ℤ m.op (pos 0)) d.sent _ _
          (subst (λ (s : List Frame). Beats d.sent s) (sym (sent-handle_dispatch d m.t m.d raw))
            no_beat)
          (if-Beats (eq_ℤ m.op (pos 1)) d.sent _ _ (send_heartbeat-Beats d written) (
            if-Beats (eq_ℤ m.op (pos 11)) d.sent _ _ no_beat (
              if-Beats (eq_ℤ m.op (pos 7)) d.sent _ _ no_beat
                (if-Beats (eq_ℤ m.op (pos 9)) d.sent _ _ no_beat no_beat)))))

  pub read_loop-Beats :
      (rs : List Read) (c : Client)
      → Beats c.sent (read_loop ready_session is_payload hello_data c rs).0.sent
  unfolding read_loop
  read_loop-Beats [] c = no_beat
  read_loop-Beats (failed code ∷ rs) c =
      subst (λ (s : List Frame). Beats c.sent s) (sym (sent-handle_disconnect c code)) no_beat
  read_loop-Beats (garbled ∷ rs) c = read_loop-Beats rs c
  read_loop-Beats (message m raw now written ∷ rs) c =
      let handled = handle_message ready_session is_payload hello_data c m raw now written in
      go_on-Beats c.sent handled (read_loop ready_session is_payload hello_data handled.0 rs)
        (handle_message-Beats c m raw now written) (read_loop-Beats rs handled.0)
