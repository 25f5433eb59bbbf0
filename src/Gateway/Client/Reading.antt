-- ===== src/Gateway/Client/Reading.antt =====
-- lib/gateway/client.go: handleDispatch and readLoop, over what the reads return.
use polarix.Prelude.{
  ℕ, Bool, true, not, Option, none, some, List, [], ◌∷◌, if◌then◌else◌, Text, str, same, ℤ, pos,
  ltb_ℤ,
}
use polarix.Gateway.Client.{
  Client, GatewayMessage, close_conn, eq_ℤ, forget, handle_disconnect, is_valid_event_type,
  send_heartbeat,
}

-- What ends readLoop; `reading` stands for a loop that still waits for its next message.
pub data Exit : Type 0 where
  reading : Exit
  read_failed : Option ℕ → Exit
  reconnect_requested : Exit
  invalid_session : Exit

pub data Read : Type 0 where
  failed : Option ℕ → Read
  garbled : Read
  message : GatewayMessage → Text → ℕ → Bool → Read  -- with its raw text, its time, and a write's luck

-- A message that ends the loop leaves nothing for the rest of it.
abbrev pub go_on : Client × Exit → Client × Exit → Client × Exit
go_on (c, reading) rest = rest
go_on (c, read_failed code) rest = (c, read_failed code)
go_on (c, reconnect_requested) rest = (c, reconnect_requested)
go_on (c, invalid_session) rest = (c, invalid_session)

-- The decoding of JSON by the standard library: the session id of a READY event, whether a raw
-- message is a payload, and the interval of a Hello message.
module _ (ready_session : Text → Option Text) (is_payload : Text → Bool)
    (hello_data : Text → Option ℤ) where
  -- handleDispatch
  unfoldable pub handle_dispatch : Client → Text → Text → Text → Client
  unfolding is_valid_event_type
  handle_dispatch c t d raw =
      let ready : Client = elim (ready_session d) [
        | none ↦ c
        | some id ↦ record c { session_id = id; can_resume = true }
      ] in
      if same t (str "READY")
      then ready
      else if same t (str "RESUMED")
      then record c { can_resume = true }
      else if not (is_valid_event_type t)
      then c
      else if is_payload raw
      then record c { dispatched = (t, raw) ∷ c.dispatched }
      else c

  -- `if msg.S > 0`
  unfoldable pub store_seq : Client → GatewayMessage → Client
  store_seq c m = if ltb_ℤ (pos 0) m.s then record c { latest_seq = m.s } else c

  -- The switch of readLoop.
  unfoldable pub handle_message : Client → GatewayMessage → Text → ℕ → Bool → Client × Exit
  unfolding handle_dispatch send_heartbeat close_conn store_seq
  handle_message c₀ m raw now written =
      let c = store_seq c₀ m in
      if eq_ℤ m.op (pos 0)
      then (handle_dispatch c m.t m.d raw, reading)
      else if eq_ℤ m.op (pos 1)
      then ((send_heartbeat c written).0, reading)
      else if eq_ℤ m.op (pos 11)
      then (record c { last_ack_received = now }, reading)
      else if eq_ℤ m.op (pos 7)
      then (close_conn (record c { can_resume = true }), reconnect_requested)
      else if eq_ℤ m.op (pos 9)
      then (close_conn (forget c), invalid_session)
      else (c, reading)

  -- readLoop over what the reads return.
  unfoldable pub read_loop : Client → List Read → Client × Exit
  unfolding handle_message handle_disconnect
  read_loop c [] = (c, reading)
  read_loop c (failed code ∷ rs) = (handle_disconnect c code, read_failed code)
  read_loop c (garbled ∷ rs) = read_loop c rs
  read_loop c (message m raw now written ∷ rs) =
      let handled = handle_message c m raw now written in go_on handled (read_loop handled.0 rs)
