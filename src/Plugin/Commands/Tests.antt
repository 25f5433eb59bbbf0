-- ===== src/Plugin/Commands/Tests.antt =====
-- A command with two levels of subcommands.
use polarix.Prelude.{
  ℕ, ◌≡◌, refl, false, none, some, [], ◌∷◌, Text, str, same, fields, split, join, has_prefix,
  lookup, insert,
}
use polarix.Plugin.Commands.{
  Command, Info, and_command, calls, command, get_command, no_commands, own, register_commands,
  sub_command_dispatch,
}

abbrev plain : Text → ℕ → Info
plain prefix h = record {
  prefix = prefix;
  role = [];
  disable_private = false;
  handle = some (own h);
  permission_denied = none;
  handle_error = none;
  plugin_id = [];
  sub_command_fallback = none;
}

abbrev push : Command
push = command (plain (str "push") 1) (
    and_command (command (plain (str "on") 2) no_commands)
      (and_command (command (plain (str "off") 3) no_commands) no_commands))

push_off :
    sub_command_dispatch (register_commands (str "p") (push ∷ []) []) false (str "@bot  push off")
    ≡ calls (own 3) (str "p") (str "push off")
unfolding sub_command_dispatch register_commands get_command insert lookup same split join fields
    has_prefix
push_off = refl

unknown_sub :
    sub_command_dispatch (register_commands (str "p") (push ∷ []) []) false (str "push never")
    ≡ calls (own 1) (str "p") (str "push")
unfolding sub_command_dispatch register_commands get_command insert lookup same split join fields
    has_prefix
unknown_sub = refl
