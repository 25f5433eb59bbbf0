-- ===== src/Gateway/Client/Tests.antt =====
-- Concrete runs of the gateway's client.
use polarix.Prelude.{
  ◌≡◌, refl, Bool, true, Option, none, some, [], ◌∷◌, arith, get_elem?, Text, str, ℤ, pos,
}
use polarix.Gateway.Client.Reading.{failed}
use polarix.Gateway.Client.Connecting.{
  connect, get_gateway_url, next_backoff, start_waits, wait_hello, waits,
}
use polarix.Gateway.Client.{Client, GatewayMessage, new_client}
use polarix.Gateway.Client.Backoff.{start_waits-IsWait}
use polarix.Gateway.Client.Session.{connect-session}

abbrev no_ready : Text → Option Text
no_ready d = none

abbrev all_payloads : Text → Bool
all_payloads raw = true

abbrev half_second : Text → Option ℤ
half_second d = some (pos 500)

abbrev hello : GatewayMessage
hello = record { op = pos 10; d = []; s = pos 0; t = [] }

abbrev fresh : Client
fresh = new_client (record { intents = pos 0; shard = []; gateway = str "wss://x" })

default_shard : fresh.config.shard ≡ pos 0 ∷ pos 1 ∷ []
unfolding new_client
default_shard = refl

six_waits : start_waits (1 ∷ 1 ∷ 1 ∷ 1 ∷ 1 ∷ 1 ∷ 90 ∷ 1 ∷ []) ≡ 1 ∷ 2 ∷ 4 ∷ 8 ∷ 16 ∷ 30 ∷ 1 ∷ 2 ∷ []
unfolding start_waits waits next_backoff
six_waits = refl

start_waits-IsWait_example : get_elem? (start_waits (1 ∷ 1 ∷ 1 ∷ [])) 2 ≡ some 4
start_waits-IsWait_example = (start_waits-IsWait (1 ∷ 1 ∷ 1 ∷ [])).2 (ground arith) 2 (ground arith)

connect-session_example :
    (connect no_ready all_payloads half_second fresh (record {
      url = none;
      dialed = some 1;
      first = some hello;
      now = 5;
      token = some (str "t");
      written = true;
      reads = failed (some 4006) ∷ [];
    })).0.conn
    ≡ none
unfolding wait_hello get_gateway_url new_client
connect-session_example =
    (connect-session no_ready all_payloads half_second fresh none (str "wss://x") 1 (some hello) 5
      (pos 500) (str "t") (failed (some 4006) ∷ []) refl refl).0
