-- ===== src/Gateway/Client.antt =====
-- lib/gateway/client.go and lib/gateway/model.go: the session with the gateway. What the network does
-- is an argument: a connection is a number, `Attempt` (Connecting) holds what an attempt to connect
-- meets, and `Read` (Reading) is what one read of the connection returns. The frames that are written and the payloads
-- that are handed to the middleware are recorded in the client.
pub mod Reading
pub mod Connecting
pub mod Session
pub mod Frames
pub mod Backoff
pub mod Tests
use polarix.Prelude.{
  ℕ, suc, ◌+◌, ◌-◌, ◌*◌, ◌/◌, ◌%◌, ◌^◌, Bool, true, false, not, ◌&&◌, ◌||◌, Option, none, some,
  List, [], ◌∷◌, ◌++◌, ltb, leb, ◌==◌, if◌then◌else◌, length, Text, str, same, is_empty, ℤ, pos,
  negsuc, pos_part, ltb_ℤ, leb_ℤ,
}

abbrev pub eq_ℤ : ℤ → ℤ → Bool
eq_ℤ a b = leb_ℤ a b && leb_ℤ b a

abbrev pub to_int64 : ℕ → ℤ
to_int64 m = if ltb m (2 ^ 63) then pos m else negsuc (2 ^ 64 - m - 1)

-- The value of an int64 whose bits are those of the integer.
abbrev pub int64 : ℤ → ℤ
int64 (pos n) = to_int64 (n % 2 ^ 64)
int64 (negsuc n) = to_int64 (2 ^ 64 - 1 - n % 2 ^ 64)

-- The conversion to uint32.
abbrev pub u32 : ℤ → ℕ
u32 (pos n) = n % 2 ^ 32
u32 (negsuc n) = 2 ^ 32 - 1 - n % 2 ^ 32

pub record Config : Type 0 where
  pub intents : ℤ
  pub shard : List ℤ
  pub gateway : Text

pub record GatewayMessage : Type 0 where
  pub op : ℤ
  pub d : Text
  pub s : ℤ
  pub t : Text

pub data Frame : Type 0 where
  identify : Text → ℤ → List ℤ → Frame
  resume : Text → Text → ℤ → Frame
  heartbeat : Option ℤ → Frame

pub record Client : Type 0 where
  pub config : Config
  pub conn : Option ℕ
  pub session_id : Text
  pub latest_seq : ℤ
  pub can_resume : Bool
  pub stopped : Bool
  pub heartbeat_interval : ℤ
  pub last_ack_received : ℕ
  pub sent : List Frame
  pub dispatched : List (Text × Text)  -- event type and raw message, newest first

-- NewClient
unfoldable pub new_client : Config → Client
new_client c = record {
  config = record {
    intents = if eq_ℤ c.intents (pos 0) then pos (2 ^ 25 + 2 ^ 26) else c.intents;
    shard = if ltb (length c.shard) 2 then pos 0 ∷ pos 1 ∷ [] else c.shard;
    gateway = c.gateway;
  };
  conn = none;
  session_id = [];
  latest_seq = pos 0;
  can_resume = false;
  stopped = false;
  heartbeat_interval = pos 0;
  last_ack_received = 0;
  sent = [];
  dispatched = [];
}

-- closeConn
unfoldable pub close_conn : Client → Client
close_conn c = record c { conn = none }

-- Stop
unfoldable pub stop : Client → Client
unfolding close_conn
stop c = if c.stopped then c else close_conn (record c { stopped = true })

abbrev pub write_on : Option ℕ → Client → Frame → Bool → Client × Bool
write_on none c f written = (c, false)
write_on (some k) c f true = (record c { sent = f ∷ c.sent }, true)
write_on (some k) c f false = (c, false)

-- writeJSON, given whether the connection takes the frame
unfoldable pub write_json : Client → Frame → Bool → Client × Bool
write_json c f written = write_on c.conn c f written

-- The token of sendIdentify and of sendResume.
abbrev pub bearer : Text → Text
bearer token = str "QQBot " ++ token

-- The shard that is sent.
abbrev pub shard_pair : List ℤ → List ℤ
shard_pair (i ∷ n ∷ rest) = pos (u32 i) ∷ pos (u32 n) ∷ []
shard_pair _ = []

-- sendIdentify, given the access token, or none where it is not to be had
unfoldable pub send_identify : Client → Option Text → Bool → Client × Bool
unfolding write_json
send_identify c none written = (c, false)
send_identify c (some token) written =
    write_json c (identify (bearer token) c.config.intents (shard_pair c.config.shard)) written

-- sendResume
unfoldable pub send_resume : Client → Option Text → Bool → Client × Bool
unfolding write_json
send_resume c none written = (c, false)
send_resume c (some token) written =
    write_json c (resume (bearer token) c.session_id c.latest_seq) written

-- sendHeartbeat
unfoldable pub send_heartbeat : Client → Bool → Client × Bool
unfolding write_json
send_heartbeat c written =
    write_json c (heartbeat (if ltb_ℤ (pos 0) c.latest_seq then some c.latest_seq else none))
      written

-- A tick of heartbeatLoop at the time `now`: the client, and whether the loop goes on.
unfoldable pub heartbeat_tick : Client → ℤ → ℕ → Bool → Client × Bool
unfolding send_heartbeat close_conn
heartbeat_tick c interval now written =
    let (c', ok) = send_heartbeat c written in
    if ltb_ℤ (int64 (pos (3 * pos_part interval))) (pos (now - c.last_ack_received))
    then (close_conn c, false)
    else if not ok
    then (close_conn c', false)
    else (c', true)

unfoldable pub is_valid_event_type : Text → Bool
is_valid_event_type t =
    same t (str "INTERACTION_CREATE")
    || same t (str "C2C_MESSAGE_CREATE")
    || same t (str "GROUP_AT_MESSAGE_CREATE")
    || same t (str "GROUP_MESSAGE_CREATE")
    || same t (str "GROUP_JOIN_REQUEST")
    || same t (str "GROUP_MEMBER_ADD")

-- The session is lost.
abbrev pub forget : Client → Client
forget c = record c { session_id = []; latest_seq = pos 0; can_resume = false }

abbrev pub keep : Client → Client
keep c = if is_empty c.session_id then c else record c { can_resume = true }

abbrev pub one_of : ℕ → List ℕ → Bool
one_of n [] = false
one_of n (k ∷ ks) = (n == k) || one_of n ks

-- The three kinds of close codes that handleDisconnect knows.
unfoldable pub is_resumable : ℕ → Bool
is_resumable code = one_of code (4009 ∷ 4008 ∷ [])

unfoldable pub is_session_error : ℕ → Bool
is_session_error code = one_of code (4006 ∷ 4007 ∷ [])

unfoldable pub is_fatal : ℕ → Bool
is_fatal code = one_of code (4001 ∷ 4002 ∷ 4010 ∷ 4011 ∷ 4012 ∷ 4013 ∷ 4014 ∷ 4914 ∷ 4915 ∷ [])

-- handleDisconnect, given the code of a close error, or none for another error
unfoldable pub handle_disconnect : Client → Option ℕ → Client
unfolding is_resumable is_session_error is_fatal
handle_disconnect c none = keep c
handle_disconnect c (some code) =
    if is_resumable code
    then record c { can_resume = true }
    else if is_session_error code
    then forget c
    else if is_fatal code
    then forget c
    else keep c
