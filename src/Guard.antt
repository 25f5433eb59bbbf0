-- ===== src/Guard.antt =====
-- plugins/group/guard.go: the verification of new group members by mail. It keeps its settings in the
-- group's store and opens a temporary route for each mail. `calls` records the calls of the API and of
-- the mail client, with the latest in front; their errors, the random token and the time are arguments.
-- The texts are left out.
pub mod Joining
pub mod Tests
use polarix.Prelude.{
  ℕ, ◌+◌, ◌-◌, ◌*◌, ◌/◌, ◌^◌, Bool, true, false, not, ◌&&◌, ◌||◌, Option, none, some, List, [], ◌∷◌,
  leb, ◌==◌, if◌then◌else◌, set, Text, str, is_empty, split, join, ℤ, pos,
}
use polarix.Storage.{Answer, Storage, Store, found, get_value, group_store, set_value}
use polarix.Storage.Database.{Json, Sql, StoredValue, a_flag, a_text}
use polarix.Routes.{
  Registration, TemporaryRoute, TemporaryRouteOptions, refused, register_temporary_route,
  registered_at,
}

pub data Call : Type 0 where
  sends_invalid_mail : Call
  denies : Call
  accepts : Call
  bans : ℕ → Call
  welcomes : Option Text → Call  -- with the address of the group's rules
  mails : Text → Text → Call  -- the path of the route, and to whom

pub record Guard (D : Type 0) : Type 0 where
  pub storage : Storage D
  pub smtp : Option Text  -- the host of the mail client
  pub items : List (Text × TemporaryRoute)
  pub calls : List Call

pub record JoinContext : Type 0 where
  pub plugin_id : Text
  pub group_id : Text
  pub answer : Text

-- What the calls of a request return: an error, or none; the token and the time.
pub record Outcomes : Type 0 where
  pub message_error : Option Text
  pub deny_error : Option Text
  pub accept_error : Option Text
  pub token : Option Text
  pub now : ℤ
  pub welcome_error : Option Text
  pub mail_error : Option Text

-- The store of a group; without an id there is none.
abbrev pub group_storage : Text → Option Store
group_storage id = if is_empty id then none else some (group_store id)

abbrev pub is_mail_byte : ℕ → Bool
is_mail_byte c = not ((c == 32) || leb 9 c && leb c 13 && not (c == 11) || (c == b'@'))

-- `[^\s@]+\.[^\s@]+$` behind a first character
abbrev pub is_domain_rest : Bool → Text → Bool
is_domain_rest dotted [] = false
is_domain_rest dotted (c ∷ []) = dotted && is_mail_byte c
is_domain_rest dotted (c ∷ d ∷ s) =
    let rest = is_domain_rest (dotted || (c == b'.')) (d ∷ s) in is_mail_byte c && rest

abbrev pub is_domain : Text → Bool
is_domain [] = false
is_domain (c ∷ s) = is_mail_byte c && is_domain_rest false s

abbrev pub is_address_rest : Text → Bool
is_address_rest [] = false
is_address_rest (c ∷ s) =
    let rest = is_address_rest s in if c == b'@' then is_domain s else is_mail_byte c && rest

-- mailRe, `^[^\s@]+@[^\s@]+\.[^\s@]+$`
unfoldable pub is_mail : Text → Bool
is_mail [] = false
is_mail (c ∷ s) = is_mail_byte c && is_address_rest s

abbrev pub has_host : Option Text → Bool
has_host none = false
has_host (some host) = not (is_empty host)

-- `ok && err == nil` with a target of the type string
abbrev pub text_of : Answer StoredValue → Option Text
text_of (found (a_text t)) = some t
text_of _ = none

abbrev pub flag_of : Answer StoredValue → Option Bool
flag_of (found (a_flag b)) = some b
flag_of _ = none

abbrev pub second : List Text → Option Text
second (a ∷ b ∷ rest) = some b
second _ = none

pub data RuleReply : Type 0 where
  asks_for_url rule_set : RuleReply
  index_panic : RuleReply  -- the second part of the text is taken where there is none

abbrev pub enable_guard : Text
enable_guard = str "enable_guard"

abbrev pub path_of_route : Registration → Text
path_of_route (registered_at path) = path
path_of_route (refused e) = []

abbrev pub verify_options : TemporaryRouteOptions
verify_options = record {
  ttl = pos (10 * 60 * 10 ^ 9);
  method = [];
  one_time = true;
  content_type = str "text/html; charset=utf-8";
}

module _ {D : Type 0} (sql : Sql D) (json : Json StoredValue) (upper : ℕ → ℕ) where
  -- The reading of the setting, which is written as off where it cannot be read.
  unfoldable pub guard_enabled : Storage D → Text → Storage D × Bool
  unfolding get_value set_value
  guard_enabled s group_id =
      let (t, a) = get_value sql json s (group_storage group_id) enable_guard in
      elim (flag_of a) [
        | some b ↦ (t, b)
        | none ↦
            ((set_value sql json t (group_storage group_id) enable_guard (a_flag false)).0, false)
      ]

  -- setGuardStatus, with the status that is replied
  unfoldable pub set_guard_status : Storage D → Text → Storage D × Bool
  unfolding guard_enabled set_value
  set_guard_status s group_id =
      let (t, on) = guard_enabled s group_id in
      ((set_value sql json t (group_storage group_id) enable_guard (a_flag (not on))).0, not on)

  -- getGuardStatus
  unfoldable pub get_guard_status : Storage D → Text → Storage D × Bool
  unfolding guard_enabled
  get_guard_status s group_id = guard_enabled s group_id

  -- setGroupRule
  unfoldable pub set_group_rule : Storage D → Text → Text → Storage D × RuleReply
  unfolding split set_value
  set_group_rule s group_id content =
      if is_empty content then (s, asks_for_url) else elim (second (split b' ' content)) [
        | none ↦ (s, index_panic)
        | some url ↦ (
          (set_value sql json s (group_storage group_id) (str "group_rule") (a_text url)).0,
          rule_set,
        )
      ]

  -- handle from the welcome message on
  unfoldable pub finish_join : Guard D → JoinContext → Text → Outcomes → Guard D × Option Text
  unfolding get_value
  finish_join g ctx path o =
      let (s, a) = get_value sql json g.storage (group_storage ctx.group_id) (str "group_rule") in
      let welcomed : Guard D = record g { storage = s; calls = welcomes (text_of a) ∷ g.calls } in
      elim o.welcome_error [
        | some e ↦ (welcomed, some e)
        | none ↦ (record welcomed { calls = mails path ctx.answer ∷ welcomed.calls }, o.mail_error)
      ]

  -- handle behind the checks: the request is accepted, and the member banned until the mail is answered
  unfoldable pub accept_join : Guard D → JoinContext → Outcomes → Guard D × Option Text
  unfolding finish_join register_temporary_route
  accept_join g ctx o = elim o.accept_error [
    | some e ↦ (record g { calls = accepts ∷ g.calls }, some e)
    | none ↦
        let (items, r) =
          register_temporary_route upper g.items ctx.plugin_id verify_options (some 0) o.token
            o.now in
        finish_join
          (record g { items = items; calls = bans (43200 * 60 * 10 ^ 9) ∷ accepts ∷ g.calls }) ctx
          (path_of_route r) o
  ]

  -- MarkdownTemplate is taken not to fail: the source drops its error and goes on with the message.
  unfoldable pub refuse_mail : Guard D → Outcomes → Guard D × Option Text
  refuse_mail g o = elim o.message_error [
    | some e ↦ (record g { calls = sends_invalid_mail ∷ g.calls }, some e)
    | none ↦ (record g { calls = denies ∷ sends_invalid_mail ∷ g.calls }, o.deny_error)
  ]

  -- handle, with the error that it returns
  unfoldable pub handle_join : Guard D → JoinContext → Outcomes → Guard D × Option Text
  unfolding guard_enabled is_mail accept_join refuse_mail
  handle_join g ctx o =
      let (s, on) = guard_enabled g.storage ctx.group_id in
      let h : Guard D = record g { storage = s } in
      if not on || not (has_host h.smtp)
      then (h, none)
      else if not (is_mail ctx.answer)
      then refuse_mail h o
      else accept_join h ctx o
