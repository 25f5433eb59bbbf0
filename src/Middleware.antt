-- ===== src/Middleware.antt =====
-- lib/middleware/handle.go and lib/constant/role.go: what an event makes the program do. The handlers
-- that are run, the hooks and the callbacks are recorded as effects; a command's parser is an argument.
-- A resolved command is the message's own command exactly when its path is the command's prefix.
pub mod Guards
pub mod Permission
pub mod Tests
use polarix.Prelude.{
  ℕ, ◌-◌, ◌/◌, ◌<◌, Bool, true, not, ◌&&◌, ◌||◌, Option, none, some, List, [], ◌∷◌, ltb,
  if◌then◌else◌, length, Text, str, same, is_empty, trim_space, fields, split, join, has_prefix,
  has_suffix, parsed,
}
use polarix.Plugin.Commands.{
  Command, Commands, behind_first, command, filter_at, first_word, get_command, info, own,
  resolve_command,
}
use polarix.Plugin.Access.{Plugins, can_use}

-- RoleRequired.CanUse
unfoldable pub role_can_use : Text → Text → Bool
role_can_use require user =
    if is_empty require
    then true
    else if same require (str "owner")
    then same user (str "owner")
    else if same require (str "admin")
    then same user (str "admin") || same user (str "owner")
    else true

pub record Author : Type 0 where
  pub role : Text
  pub member_open_id : Text
  pub union_id : Text
  pub user_open_id : Text

-- The fields of a payload that ProcessPayload reads.
pub record Payload : Type 0 where
  pub event_type : Text
  pub content : Text
  pub group_open_id : Text
  pub author : Author
  pub button_id : Text
  pub group_member_open_id : Text
  pub user_open_id : Text
  pub resolved_user_id : Text
  pub member_open_id : Text
  pub method : Text
  pub verify_msg : Text
  pub answer_list : List Text

pub data Effect : Type 0 where
  ignored : Effect
  denied : Option ℕ → Effect  -- the hook that is called, if there is one
  not_parsed : Effect
  runs : Command → Command → Text → Text → Text → Effect  -- root, resolved, path, user, group
  clicks : Text → Text → Text → Effect  -- button, user, group
  joins : Text → Text → Text → Effect  -- answer, group, member
  added : Text → Text → Effect  -- group, member

-- The first of two texts that is not empty.
abbrev pub or_else : Text → Text → Text
or_else a b = if is_empty a then b else a

-- The user of an interaction.
unfoldable pub clicker : Payload → Text
clicker p = or_else p.group_member_open_id (
    or_else p.user_open_id (
      or_else p.resolved_user_id (
        or_else p.member_open_id
          (or_else p.author.member_open_id (or_else p.author.user_open_id p.author.union_id)))))

-- The prefix of a message in a group, whose text has been filtered once.
unfoldable pub group_prefix : Text → Text
group_prefix content =
    let msgs = split 32 content in
    let head = first_word msgs in
    if ltb 1 (length msgs) && has_prefix head (str "<@") && has_suffix head (str ">")
    then first_word (behind_first msgs)
    else head

module _ (parses : Command → Text → Bool) where
  -- The guards that a message in a group passes, from the command's role to its parser.
  unfoldable pub guard_group :
      Plugins → Text → Text → Text → Text → Command → Command × Text → Effect
  unfolding role_can_use can_use
  guard_group s content role user group cmd (target, path) =
      if not (role_can_use (info cmd).role role)
      then denied (info cmd).permission_denied
      else if not (same path (info cmd).prefix) && not (role_can_use (info target).role role)
      then denied (info target).permission_denied
      else if not (can_use s (info cmd).plugin_id path user group)
      then denied (info target).permission_denied
      else if parses cmd content
      then runs cmd target path user group
      else not_parsed

  -- The guards that a private message passes.
  unfoldable pub guard_private : Plugins → Text → Text → Text → Command → Command × Text → Effect
  unfolding role_can_use can_use
  guard_private s content role user cmd (target, path) =
      if not (role_can_use (info cmd).role role)
      then denied (info cmd).permission_denied
      else if not (same path (info cmd).prefix) && not (role_can_use (info target).role role)
      then denied (info target).permission_denied
      else if (info cmd).disable_private || (info target).disable_private
      then denied (info target).permission_denied
      else if not (can_use s (info cmd).plugin_id path user [])
      then denied (info target).permission_denied
      else if parses cmd content
      then runs cmd target path user []
      else not_parsed

  -- The case of messages in groups.
  unfoldable pub process_group : List (Text × Command) → Plugins → Payload → Effect
  unfolding get_command group_prefix filter_at guard_group resolve_command
  process_group globals s p =
      let content = filter_at p.content in
      let user = or_else p.author.member_open_id p.author.union_id in
      elim (get_command globals (group_prefix content)) [
        | none ↦ ignored
        | some cmd ↦
            guard_group s content p.author.role user p.group_open_id cmd
              (resolve_command cmd content)
      ]

  -- The case of private messages.
  unfoldable pub process_private : List (Text × Command) → Plugins → Payload → Effect
  unfolding get_command guard_private resolve_command
  process_private globals s p =
      let content = trim_space p.content in
      if is_empty content
      then ignored
      else elim (get_command globals (first_word (fields content))) [
        | none ↦ ignored
        | some cmd ↦
            guard_private s content p.author.role p.author.user_open_id cmd
              (resolve_command cmd content)
      ]

  -- The case of requests to join a group.
  unfoldable pub process_join : Payload → Effect
  process_join p =
      if same p.method (str "verify_message")
      then joins p.verify_msg p.group_open_id p.member_open_id
      else if same p.method (str "admin_review_qa")
      then elim p.answer_list [
        | [] ↦ ignored
        | answer ∷ more ↦ joins answer p.group_open_id p.member_open_id
      ]
      else ignored

  -- ProcessPayload
  unfoldable pub process_payload : List (Text × Command) → Plugins → Payload → Effect
  unfolding process_group process_private process_join clicker
  process_payload globals s p =
      if same p.event_type (str "GROUP_AT_MESSAGE_CREATE")
        || same p.event_type (str "GROUP_MESSAGE_CREATE")
      then process_group globals s p
      else if same p.event_type (str "C2C_MESSAGE_CREATE")
      then process_private globals s p
      else if same p.event_type (str "INTERACTION_CREATE")
      then clicks p.button_id (clicker p) p.group_open_id
      else if same p.event_type (str "GROUP_JOIN_REQUEST")
      then process_join p
      else if same p.event_type (str "GROUP_MEMBER_ADD")
      then added p.group_open_id p.member_open_id
      else ignored
