-- ===== src/QqApi.antt =====
-- lib/qqapi/client.go: the access token of the bot, which is kept until 50 seconds before it expires.
-- The lock is released between the two looks at the token, so that each look is a step. The response to
-- the request for a token and the times are arguments; times are in nanoseconds.
pub mod Kept
pub mod Tests
use polarix.Prelude.{
  ℕ, suc, ◌-◌, ◌*◌, ◌/◌, ◌%◌, ◌^◌, ap, Bool, not, ◌&&◌, Option, none, some, List, [], ◌∷◌, ltb, leb,
  if◌then◌else◌, Text, is_empty, ℤ, pos, negsuc, sub_ℕ, ltb_ℤ, wrap64, AtoiResult, parsed, atoi,
}
use polarix.Routes.{plus_ℤ}

pub record TokenData : Type 0 where
  pub access_token : Text
  pub expire_time : Text

pub record TokenClient : Type 0 where
  pub access_token : Text
  pub expire_at : ℤ

pub data TokenError : Type 0 where
  request_failed null_token bad_expiry : TokenError

pub data TokenReply : Type 0 where
  token : Text → TokenReply
  no_token : TokenError → TokenReply

-- `c.accessToken != "" && time.Now().Before(c.expireAt)`
unfoldable pub is_fresh : TokenClient → ℤ → Bool
is_fresh c now = not (is_empty c.access_token) && ltb_ℤ now c.expire_at

abbrev pub second_ns : ℕ
second_ns = 10 ^ 9

-- A number of seconds as a Duration, a 64-bit number of nanoseconds: the product is wrapped.
abbrev pub seconds : ℤ → ℤ
seconds (pos n) =
    let r = n * second_ns % 2 ^ 64 in if ltb r (2 ^ 63) then pos r else sub_ℕ r (2 ^ 64)
seconds (negsuc n) =
    let r = suc n * second_ns % 2 ^ 64 in if leb r (2 ^ 63) then sub_ℕ 0 r else pos (2 ^ 64 - r)

-- When a token that lives for `n` seconds is no longer used.
unfoldable pub expiry : ℤ → ℤ → ℤ
expiry now n = plus_ℤ now (wrap64 (plus_ℤ (seconds n) (sub_ℕ 0 (50 * second_ns))))

abbrev pub parsed_int : AtoiResult → Option ℤ
parsed_int (parsed n) = some n
parsed_int _ = none

-- A response to the request for a token, at the time at which it is stored.
unfoldable pub store_token : TokenClient → Option TokenData → ℤ → TokenClient × TokenReply
unfolding expiry atoi
store_token c none now = (c, no_token request_failed)
store_token c (some d) now =
    if is_empty d.access_token
    then (c, no_token null_token)
    else elim (parsed_int (atoi d.expire_time)) [
      | none ↦ (c, no_token bad_expiry)
      | some n ↦
          (record { access_token = d.access_token; expire_at = expiry now n }, token d.access_token)
    ]

-- getAccessToken behind the second look
unfoldable pub refresh : TokenClient → ℤ → Option TokenData → ℤ → TokenClient × TokenReply
unfolding is_fresh store_token
refresh c now response stored_at =
    if is_fresh c now then (c, token c.access_token) else store_token c response stored_at

-- The calls of the program: the first look, which is the whole of getAccessToken where the token is
-- fresh, and the rest of it.
pub data TokenOp : Type 0 where
  looks : ℤ → TokenOp
  refreshes : ℤ → Option TokenData → ℤ → TokenOp

unfoldable pub token_step : TokenClient → TokenOp → TokenClient × Option TokenReply
unfolding is_fresh refresh
token_step c (looks now) = if is_fresh c now then (c, some (token c.access_token)) else (c, none)
token_step c (refreshes now response stored_at) =
    let (d, reply) = refresh c now response stored_at in (d, some reply)

-- Init; while the token is empty, the expiry is not looked at.
abbrev pub new_token_client : TokenClient
new_token_client = record { access_token = []; expire_at = pos 0 }

-- The client after the operations, the latest of which is in front.
unfoldable pub token_run : List TokenOp → TokenClient
unfolding token_step
token_run [] = new_token_client
token_run (o ∷ os) = (token_step (token_run os) o).0
