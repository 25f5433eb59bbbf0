-- ===== src/Gateway/Client/Connecting.antt =====
-- lib/gateway/client.go: connect and the backoff of Start.
use polarix.Prelude.{
  ℕ, ◌*◌, Bool, not, ◌&&◌, Option, none, some, List, [], ◌∷◌, ltb, if◌then◌else◌, Text, is_empty, ℤ,
  pos, pos_part, neg_part, sub_ℕ, leb_ℤ,
}
use polarix.Gateway.Client.{
  Client, GatewayMessage, close_conn, eq_ℤ, int64, send_identify, send_resume,
}
use polarix.Gateway.Client.Reading.{Exit, Read, read_loop}

-- What connect meets: the gateway's address, the connection, the first message, the time, the access
-- token, whether the first frame is taken, and what the reads return.
pub record Attempt : Type 0 where
  pub url : Option Text
  pub dialed : Option ℕ
  pub first : Option GatewayMessage
  pub now : ℕ
  pub token : Option Text
  pub written : Bool
  pub reads : List Read

pub data ConnectEnd : Type 0 where
  no_url : ConnectEnd
  no_connection : ConnectEnd
  no_hello : ConnectEnd
  no_authorization : ConnectEnd
  ended : Exit → ConnectEnd

-- The heartbeat interval in nanoseconds, from the milliseconds of Hello.
unfoldable pub hello_interval : ℤ → ℤ
hello_interval ms =
    let interval = int64 (sub_ℕ (1000000 * pos_part ms) (1000000 * neg_part ms)) in
    if leb_ℤ interval (pos 0) then pos 45000000000 else interval

-- getGatewayURL up to the rewriting for a proxy: the configured address, or what the API says.
unfoldable pub get_gateway_url : Client → Option Text → Option Text
get_gateway_url c asked =
    if is_empty c.config.gateway
    then elim asked [ none ↦ none | some url ↦ if is_empty url then none else some url ]
    else some c.config.gateway

-- The decoding of JSON by the standard library: the session id of a READY event, whether a raw
-- message is a payload, and the interval of a Hello message.
module _ (ready_session : Text → Option Text) (is_payload : Text → Bool)
    (hello_data : Text → Option ℤ) where
  -- waitHello
  unfoldable pub wait_hello : Option GatewayMessage → Option ℤ
  wait_hello none = none
  wait_hello (some m) = if eq_ℤ m.op (pos 10) then hello_data m.d else none

  -- The choice of connect between Resume and Identify.
  unfoldable pub authorize : Client → Option Text → Bool → Client × Bool
  unfolding send_resume send_identify
  authorize c token written =
      if c.can_resume && not (is_empty c.session_id)
      then send_resume c token written
      else send_identify c token written

  -- The part of connect after Hello.
  unfoldable pub serve : Client → Attempt → Client × ConnectEnd
  unfolding authorize read_loop
  serve c a =
      let (c', ok) = authorize c a.token a.written in
      let (c'', e) = read_loop ready_session is_payload hello_data c' a.reads in
      if ok then (c'', ended e) else (c', no_authorization)

  -- The part of connect after the dial, before the deferred closeConn.
  unfoldable pub greet : Client → Attempt → Client × ConnectEnd
  unfolding wait_hello serve hello_interval
  greet c a = elim (wait_hello a.first) [
    | none ↦ (c, no_hello)
    | some ms ↦
        serve (record c { heartbeat_interval = hello_interval ms; last_ack_received = a.now }) a
  ]

  -- connect
  unfoldable pub connect : Client → Attempt → Client × ConnectEnd
  unfolding get_gateway_url greet close_conn
  connect c a = elim (get_gateway_url c a.url) [
    | none ↦ (c, no_url)
    | some url ↦ elim a.dialed [
      | none ↦ (c, no_connection)
      | some k ↦ let (c', e) = greet (record c { conn = some k }) a in (close_conn c', e)
    ]
  ]

-- `backoff *= 2` and the bound after it, in seconds.
unfoldable pub next_backoff : ℕ → ℕ
next_backoff b = if ltb 30 (b * 2) then 30 else b * 2

-- The waits of Start, given how many seconds each attempt to connect lasted.
unfoldable pub waits : ℕ → List ℕ → List ℕ
unfolding next_backoff
waits b [] = []
waits b (t ∷ ts) = let b' = if ltb 60 t then 1 else b in b' ∷ waits (next_backoff b') ts

-- The waits of Start.
unfoldable pub start_waits : List ℕ → List ℕ
unfolding waits
start_waits ts = waits 1 ts
