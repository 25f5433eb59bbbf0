-- ===== src/Message/Replies.antt =====
-- How many replies a message allows.
use polarix.Prelude.{
  ℕ, suc, ◌+◌, ◌-◌, ◌≤◌, ◌<◌, ◌≡◌, refl, ap, ◌∙◌, inl, inr, Bool, true, false, Option, List, [],
  ◌∷◌, arith, ltb, if◌then◌else◌, Bool-cases, Option-cases, length, Text,
}
use polarix.Message.{
  Message, Sent, count, deliver, init_ref, not_sent, number, reply_message_reach_limit, send, sends,
  sent, set_initiative_message,
}

abbrev pub is_limit : Sent → Bool
is_limit sent = false
is_limit (not_sent reply_message_reach_limit) = true
is_limit (not_sent _) = false

-- How many sends were not refused at the limit.
unfoldable pub tries : List Sent → ℕ
tries [] = 0
tries (x ∷ xs) = if is_limit x then tries xs else suc (tries xs)

abbrev pub min_of : ℕ → ℕ → ℕ
min_of a b = if ltb a b then a else b

-- A send from a counter that is not at its limit.
send-next :
    (m : Message) (encodes : Bool) (answer : Option Text)
    → m.used ≡ false
    → m.ref_seq < 5
    → let (m', x) = send m encodes answer in
      (is_limit x ≡ false)
      × (m'.used ≡ false)
      × (m'.initiative_push ≡ m.initiative_push)
      × (m'.ref_seq ≡ (if m.initiative_push then 0 else m.ref_seq + 1))
unfolding send count number deliver
send-next m encodes answer fresh below = elim (Option-cases answer) [
  | inl e ↦ ground (arith, e, fresh, below)
  | inr (id, e) ↦ ground (arith, e, fresh, below)
]

send-limit :
    (m : Message) (encodes : Bool) (answer : Option Text)
    → m.used ≡ false
    → m.ref_seq ≡ 5
    → let (m', x) = send m encodes answer in
      (is_limit x ≡ true) × (m'.used ≡ false) × (m'.ref_seq ≡ 5)
unfolding send count
send-limit m encodes answer fresh full = ground (arith, fresh, full)

tries-limit :
    (rs : List (Bool × Option Text)) (m : Message)
    → m.used ≡ false
    → m.ref_seq ≡ 5
    → tries (sends m rs).1 ≡ 0
unfolding tries sends
tries-limit [] m fresh full = refl
tries-limit ((encodes, answer) ∷ rs) m fresh full =
    let (limit, fresh', full') = send-limit m encodes answer fresh full in
    rw limit (tries-limit rs _ fresh' full')

tries-below :
    (rs : List (Bool × Option Text)) (m : Message) (n : ℕ)
    → m.used ≡ false
    → m.initiative_push ≡ false
    → m.ref_seq ≡ n
    → n ≤ 5
    → tries (sends m rs).1 ≡ min_of (length rs) (5 - n)
unfolding tries sends
tries-below [] m n fresh reply at below = ground arith
tries-below ((encodes, answer) ∷ rs) m n fresh reply at below = elim (Bool-cases (ltb n 5)) [
  | inl e ↦
      let m' = (send m encodes answer).0 in
      let (tried, fresh', push', seq') = send-next m encodes answer fresh (ground (arith, e, at)) in
      let at' : m'.ref_seq ≡ n + 1 = ground (arith, seq', reply, at) in
      let rest : tries (sends m' rs).1 ≡ min_of (length rs) (5 - (n + 1)) =
        tries-below rs m' (n + 1) fresh' (push' ∙ reply) at' (ground (arith, e)) in
      rw tried (ap suc rest ∙ ground (arith, e))
  | inr e ↦
      tries-limit ((encodes, answer) ∷ rs) m fresh (ground (arith, at, e, below))
      ∙ ground (arith, e, below)
]

tries-initiative :
    (rs : List (Bool × Option Text)) (m : Message)
    → m.used ≡ false
    → m.initiative_push ≡ true
    → m.ref_seq < 5
    → tries (sends m rs).1 ≡ length rs
unfolding tries sends
tries-initiative [] m fresh push below = refl
tries-initiative ((encodes, answer) ∷ rs) m fresh push below =
    let m' = (send m encodes answer).0 in
    let (tried, fresh', push', seq') = send-next m encodes answer fresh below in
    let below' : m'.ref_seq < 5 = ground (arith, seq', push) in
    rw tried (ap suc (tries-initiative rs m' fresh' (push' ∙ push) below'))

-- Of any sequence of sends of a reply that is not yet used up and whose counter was just set up,
-- whatever the encoder and the API do, exactly the first four are tried and the rest are refused at the limit.
pub sends-init_ref :
    (m : Message) (rs : List (Bool × Option Text))
    → m.used ≡ false
    → m.initiative_push ≡ false
    → tries (sends (init_ref m) rs).1 ≡ min_of (length rs) 4
unfolding init_ref
sends-init_ref m rs fresh reply = tries-below rs (init_ref m) 1 fresh reply refl (ground arith)

-- A message that is not yet used up, whose reply counter is at most 5, is made an initiative one.
-- Where the counter is below 5, none of its sends is refused at the limit, however many they are;
-- where it is 5 already, all of them are, since Count tests the limit before it looks at the kind of
-- the message.
pub sends-initiative :
    (m : Message) (rs : List (Bool × Option Text))
    → m.used ≡ false
    → m.ref_seq ≤ 5
    → tries (sends (set_initiative_message m) rs).1 ≡ (if ltb m.ref_seq 5 then length rs else 0)
unfolding set_initiative_message
sends-initiative m rs fresh within = elim (Bool-cases (ltb m.ref_seq 5)) [
  | inl e ↦ rw e (tries-initiative rs (set_initiative_message m) fresh refl (ground (arith, e)))
  | inr e ↦ rw e (tries-limit rs (set_initiative_message m) fresh (ground (arith, e, within)))
]
