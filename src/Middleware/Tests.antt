-- ===== src/Middleware/Tests.antt =====
-- Messages to a program with one command for administrators.
use polarix.Prelude.{
  ◌≡◌, refl, ◌↔◌, Bool, true, none, some, [], ◌∷◌, Text, str, same, fields, split, join, has_prefix,
  lookup,
}
use polarix.Plugin.Commands.{Command, command, no_commands, own}
use polarix.Plugin.Access.{Plugins}
use polarix.Middleware.{Payload, denied, process_group, process_payload, process_private, runs}
use polarix.Middleware.Permission.{
  IsGroupRun, IsPrivateRun, process_group-runs, process_private-runs,
}

abbrev ban : Command
ban =
    command
      (record {
        prefix = str "ban";
        role = str "admin";
        disable_private = true;
        handle = some (own 1);
        permission_denied = some 2;
        handle_error = none;
        plugin_id = str "p";
        sub_command_fallback = none;
      })
      no_commands

abbrev no_rules : Plugins
no_rules = record { global_plugins = []; plugin_access = [] }

abbrev any_text : Command → Text → Bool
any_text c t = true

abbrev ban_by : Text → Payload
ban_by role = record {
  event_type = str "GROUP_AT_MESSAGE_CREATE";
  content = str "<@bot> ban";
  group_open_id = str "g";
  author = record { role = role; member_open_id = str "u"; union_id = []; user_open_id = str "v" };
  button_id = [];
  group_member_open_id = [];
  user_open_id = [];
  resolved_user_id = [];
  member_open_id = [];
  method = [];
  verify_msg = [];
  answer_list = [];
}

by_admin :
    process_payload any_text ((str "ban", ban) ∷ []) no_rules (ban_by (str "admin"))
    ≡ runs ban ban (str "ban") (str "u") (str "g")
unfolding process_payload same lookup split join fields has_prefix
by_admin = refl

by_member :
    process_payload any_text ((str "ban", ban) ∷ []) no_rules (ban_by (str "member"))
    ≡ denied (some 2)
unfolding process_payload same lookup split join fields has_prefix
by_member = refl

process_group-runs_example :
    (process_group any_text ((str "ban", ban) ∷ []) no_rules (ban_by (str "admin"))
      ≡ runs ban ban (str "ban") (str "u") (str "g"))
    ↔ IsGroupRun any_text
        ((str "ban", ban) ∷ [])
        no_rules
        (ban_by (str "admin"))
        (ban, ban, str "ban", str "u", str "g")
process_group-runs_example =
    process_group-runs any_text ((str "ban", ban) ∷ []) no_rules (ban_by (str "admin")) ban ban
      (str "ban") (str "u") (str "g")

process_private-runs_example :
    (process_private any_text ((str "ban", ban) ∷ []) no_rules (ban_by (str "owner"))
      ≡ runs ban ban (str "ban") (str "v") [])
    ↔ IsPrivateRun any_text
        ((str "ban", ban) ∷ [])
        no_rules
        (ban_by (str "owner"))
        (ban, ban, str "ban", str "v", [])
process_private-runs_example =
    process_private-runs any_text ((str "ban", ban) ∷ []) no_rules (ban_by (str "owner")) ban ban
      (str "ban") (str "v") []
