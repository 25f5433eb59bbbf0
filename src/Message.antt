-- ===== src/Message.antt =====
-- lib/message/base.go and lib/message/ref.go: sending a reply and the counter that replies to one
-- message share. The JSON encoder and the API client are arguments: whether the body encodes, and the
-- id that the API returns, or none for its error.
pub mod Replies
pub mod Tests
use polarix.Prelude.{
  ℕ, ◌+◌, ◌-◌, ◌/◌, ◌%◌, ◌^◌, ap, Bool, true, not, ◌||◌, Option, none, some, List, [], ◌∷◌, ◌==◌,
  if◌then◌else◌, set, In, Text, fields,
}

-- The fields of Message that Send reads or writes; `ref_seq` is the shared counter, a uint8.
pub record Message : Type 0 where
  pub msg_id : Text
  pub msg_seq : ℕ
  pub event_id : Text
  pub has_client : Bool
  pub target : ℕ
  pub used : Bool
  pub initiative_push : Bool
  pub ref_seq : ℕ

pub data SendError : Type 0 where
  message_used : Text → SendError
  reply_message_reach_limit : SendError
  json_marshal_error : SendError
  api_error : SendError
  unknown_message_target : ℕ → SendError
  nil_client : SendError  -- the panic where there is no client

pub data Sent : Type 0 where
  sent : Sent
  not_sent : SendError → Sent

-- InitRef
unfoldable pub init_ref : Message → Message
init_ref m = record m { ref_seq = 1 }

-- SetInitiativeMessage
unfoldable pub set_initiative_message : Message → Message
set_initiative_message m = record m { initiative_push = true }

-- MsgRef.Count: the counter after it, and the number, or none at the limit.
unfoldable pub count : ℕ → ℕ × Option ℕ
count seq = if seq == 5 then (seq, none) else ((seq + 1) % 2 ^ 8, some seq)

-- The part of Send that numbers the message.
unfoldable pub number : Message → ℕ → ℕ → Message
number m next seq =
    let counted = record m { msg_seq = seq; ref_seq = next } in
    if m.initiative_push
    then record counted { event_id = []; msg_id = []; ref_seq = 0 }
    else counted

-- The part of Send from the encoding on.
unfoldable pub deliver : Message → Bool → Option Text → Message × Sent
deliver m encodes answer =
    let answered : Message × Sent = elim answer [
      | none ↦ (m, not_sent api_error)
      | some id ↦ (record m { msg_id = id }, sent)
    ] in
    if not encodes
    then (m, not_sent json_marshal_error)
    else if not m.has_client
    then (m, not_sent nil_client)
    else if (m.target == 0) || (m.target == 1)
    then answered
    else (m, not_sent (unknown_message_target m.target))

-- Send
unfoldable pub send : Message → Bool → Option Text → Message × Sent
unfolding count number deliver
send m encodes answer =
    let (next, seq) = count m.ref_seq in
    let counted : Message × Sent = elim seq [
      | none ↦ (record m { ref_seq = next }, not_sent reply_message_reach_limit)
      | some n ↦ deliver (number m next n) encodes answer
    ] in
    if m.used then (m, not_sent (message_used m.msg_id)) else counted

-- Sends one after the other, each with the luck of its encoding and the API's answer.
unfoldable pub sends : Message → List (Bool × Option Text) → Message × List Sent
unfolding send
sends m [] = (m, [])
sends m ((encodes, answer) ∷ rest) =
    let (m', x) = send m encodes answer in let (m'', xs) = sends m' rest in (m'', x ∷ xs)
