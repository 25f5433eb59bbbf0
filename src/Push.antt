-- ===== src/Push.antt =====
-- plugins/push/push.go: messages that are pushed to a conversation over HTTP. The commands and the
-- handler work on the store of the module Storage; `sent` records the messages that were handed to the
-- API client, with the latest in front. Replies are named, not written out.
pub mod Allowed
pub mod Disabled
pub mod Tests
use polarix.Prelude.{
  ℕ, zero, suc, ◌+◌, ◌-◌, ◌/◌, ◌⊎◌, inl, inr, Bool, true, false, not, ◌&&◌, ◌||◌, Option, none,
  some, List, [], ◌∷◌, ◌++◌, if◌then◌else◌, set, All, Text, str, same, is_empty, trim_space, fields,
  delete, ascii_lower,
}
use polarix.Storage.{
  Answer, Storage, StorageError, delete_value, done, failed, found, get_value, global, has_value,
  holds, set_value,
}
use polarix.Storage.Database.{Json, Sql, StoredValue, a_flag, a_text}

pub data PushPayload : Type 0 where
  text_payload : Text → PushPayload
  markdown_payload : Text → PushPayload

pub record Sent : Type 0 where
  pub scope : Text
  pub openid : Text
  pub payload : PushPayload

pub record Push (D : Type 0) : Type 0 where
  pub storage : Storage D
  pub has_client : Bool
  pub sent : List Sent

-- The conversation of a command.
pub data Conversation : Type 0 where
  group_message private_message other_target : Conversation

pub record PushContext : Type 0 where
  pub target : Conversation
  pub group_id : Text
  pub user_id : Text
  pub content : Text

pub data Reply : Type 0 where
  no_group no_user bad_target : Reply
  usage no_key key_updated : Reply
  enabled disabled : Text → Reply
  status : Text → Bool → Reply
  store_failed : StorageError → Reply
  -- an answer that the store does not give to this operation
  unexpected : Reply

pub record PushRequest : Type 0 where
  pub key : Text
  pub type : Text
  pub content : Text

-- resolveTarget: the scope and the open id
unfoldable pub resolve_target : PushContext → Reply ⊎ (Text × Text)
resolve_target ctx = elim ctx.target [
  | group_message ↦ if is_empty ctx.group_id then inl no_group else inr (str "group", ctx.group_id)
  | private_message ↦ if is_empty ctx.user_id then inl no_user else inr (str "private", ctx.user_id)
  | other_target ↦ inl bad_target
]

-- enabledKey
unfoldable pub enabled_key : Text → Text → Text
enabled_key scope openid = str "enabled" ++ (b':' ∷ scope ++ (b':' ∷ openid))

abbrev pub push_key : Text → Text
push_key openid = openid ++ str "push_key"

-- buildPayload
unfoldable pub build_payload : Text → Text → Option PushPayload
unfolding same
build_payload kind content =
    if is_empty kind || same kind (str "text")
    then some (text_payload content)
    else if same kind (str "markdown") || same kind (str "md")
    then some (markdown_payload content)
    else none

abbrev pub is_stored : Text → Answer StoredValue → Bool
is_stored provided (found (a_text stored)) = same stored provided
is_stored provided _ = false

abbrev pub reply_to : Reply → Answer StoredValue → Reply
reply_to fine done = fine
reply_to fine (failed e) = store_failed e
reply_to fine _ = unexpected

abbrev pub status_reply : Text → Answer StoredValue → Reply
status_reply scope (holds b) = status scope b
status_reply scope (failed e) = store_failed e
status_reply scope _ = unexpected

abbrev pub nth_field : ℕ → List Text → Option Text
nth_field n [] = none
nth_field zero (w ∷ ws) = some w
nth_field (suc n) (w ∷ ws) = nth_field n ws

abbrev pub provided_key : Text → PushRequest → Text
provided_key header req = if is_empty header then req.key else header

module _ {D : Type 0} (sql : Sql D) (json : Json StoredValue) where
  -- enablePush
  unfoldable pub enable_push : Push D → PushContext → Push D × Reply
  unfolding resolve_target set_value enabled_key global
  enable_push p ctx = elim (resolve_target ctx) [
    | inl e ↦ (p, e)
    | inr (scope, openid) ↦
        let (s, a) =
          set_value sql json p.storage (some global) (enabled_key scope openid) (a_flag true) in
        (record p { storage = s }, reply_to (enabled scope) a)
  ]

  -- disablePush
  unfoldable pub disable_push : Push D → PushContext → Push D × Reply
  unfolding resolve_target delete_value enabled_key global
  disable_push p ctx = elim (resolve_target ctx) [
    | inl e ↦ (p, e)
    | inr (scope, openid) ↦
        let (s, a) = delete_value sql json p.storage (some global) (enabled_key scope openid) in
        (record p { storage = s }, reply_to (disabled scope) a)
  ]

  -- pushStatus
  unfoldable pub push_status : Push D → PushContext → Push D × Reply
  unfolding resolve_target has_value enabled_key global
  push_status p ctx = elim (resolve_target ctx) [
    | inl e ↦ (p, e)
    | inr (scope, openid) ↦
        let (s, a) = has_value sql json p.storage (some global) (enabled_key scope openid) in
        (record p { storage = s }, status_reply scope a)
  ]

  abbrev pub store_key : Push D → Text → Text → Push D × Reply
  store_key p id key =
      let (s, a) = set_value sql json p.storage (some global) (push_key id) (a_text key) in
      (record p { storage = s }, reply_to key_updated a)

  -- setPushKey
  unfoldable pub set_push_key : Push D → PushContext → Push D × Reply
  unfolding fields
  set_push_key p ctx = elim (nth_field 1 (fields ctx.content)) [
    | none ↦ (p, usage)
    | some key ↦
        if is_empty key
        then (p, no_key)
        else store_key p (if is_empty ctx.group_id then ctx.user_id else ctx.group_id) key
  ]

  -- verifyPushKey
  unfoldable pub verify_push_key : Storage D → Text → Text → Storage D × Bool
  unfolding get_value global
  verify_push_key s openid provided =
      if is_empty provided
      then (s, false)
      else (let (t, a) = get_value sql json s (some global) (push_key openid) in
          (t, is_stored provided a))

  -- HTTPHandle behind the key, given the error of the sending
  unfoldable pub push_allowed : Push D → Text → Text → PushRequest → Option Text → Push D × ℕ
  unfolding trim_space ascii_lower build_payload same
  push_allowed p scope openid req failure =
      let content = trim_space req.content in
      if not p.has_client
      then (p, 500)
      else if is_empty content
      then (p, 400)
      else elim (build_payload (ascii_lower req.type) content) [
        | none ↦ (p, 400)
        | some payload ↦
            let item : Sent = record { scope = scope; openid = openid; payload = payload } in
            (record p { sent = item ∷ p.sent }, elim failure [ none ↦ 200 | some x ↦ 502 ])
      ]

  abbrev pub push_enabled :
      Push D → Text → Text → PushRequest → Option Text → Answer StoredValue → Push D × ℕ
  push_enabled p scope openid req failure (holds true) = push_allowed p scope openid req failure
  push_enabled p scope openid req failure (holds false) = (p, 403)
  push_enabled p scope openid req failure _ = (p, 500)

  abbrev pub check_enabled : Push D → Text → Text → PushRequest → Option Text → Push D × ℕ
  check_enabled p scope openid req failure =
      let (s, a) = has_value sql json p.storage (some global) (enabled_key scope openid) in
      push_enabled (record p { storage = s }) scope openid req failure a

  -- HTTPHandle, given the path's parameters, the body if it is JSON, the header X-Push-Key and the error
  -- of the sending; the result has the response's status.
  unfoldable pub http_handle :
      Push D → Text → Text → Option PushRequest → Text → Option Text → Push D × ℕ
  unfolding same verify_push_key
  http_handle p scope openid body header failure =
      if not (same scope (str "group")) && not (same scope (str "private"))
      then (p, 400)
      else if is_empty openid
      then (p, 400)
      else elim body [
        | none ↦ (p, 400)
        | some req ↦
            let (s, allowed) = verify_push_key p.storage openid (provided_key header req) in
            let q = record p { storage = s } in
            if not allowed then (q, 401) else check_enabled q scope openid req failure
      ]
