-- ===== src/SshAuth/Settings.antt =====
-- plugins/sshauth/sshauth.go: the settings of the plugin.
use polarix.Prelude.{
  Bool, true, not, ◌&&◌, Option, none, some, List, [], ◌∷◌, if◌then◌else◌, Text, str, same,
  is_empty, trim_space, split, lookup, ℤ, pos, ltb_ℤ, ascii_lower,
}
use polarix.Plugin.Settings.{Hook, Values}
use polarix.Plugin.Settings.Values.{Value, flag, int, text}
use polarix.SshAuth.Connections.{restart_worker}
use polarix.SshAuth.{Config, World}

abbrev trimmed : List Text → List Text
trimmed [] = []
trimmed (p ∷ ps) =
    let rest = trimmed ps in if is_empty (trim_space p) then rest else trim_space p ∷ rest

-- parseAllowedUsers
unfoldable pub parse_allowed_users : Text → List Text
unfolding trim_space split
parse_allowed_users raw = if is_empty (trim_space raw) then [] else trimmed (split b',' raw)

-- `v, ok := values[key].(string)`, and so on
abbrev pub text_or : Text → Option Value → Text
text_or t (some (text s)) = s
text_or t _ = t

abbrev pub flag_or : Bool → Option Value → Bool
flag_or b (some (flag c)) = c
flag_or b _ = b

abbrev pub int_or : ℤ → Option Value → ℤ
int_or z (some (int y)) = y
int_or z _ = z

abbrev pub users_of : Option Value → List Text
users_of (some (text s)) = parse_allowed_users s
users_of _ = []

abbrev pub network_error : Text
network_error = str "network"

abbrev pub timeout_error : Text
timeout_error = str "timeout_seconds"

-- validateConfig; an error is named by its setting
unfoldable pub validate_config : Hook
unfolding trim_space ascii_lower lookup same
validate_config values =
    let network = trim_space (text_or [] (lookup (str "network") values)) in
    if not (is_empty network) && not (same (ascii_lower network) (str "unix"))
    then some network_error
    else if ltb_ℤ (int_or (pos 0) (lookup (str "timeout_seconds") values)) (pos 0)
    then some timeout_error
    else none

-- The configuration that applyConfig reads from the values.
unfoldable pub next_config : Values → Config
unfolding trim_space lookup parse_allowed_users
next_config values =
    let path = trim_space (text_or [] (lookup (str "socket_path") values)) in
    let timeout = int_or (pos 0) (lookup (str "timeout_seconds") values) in
    record {
      enabled = flag_or true (lookup (str "enabled") values);
      group_id = trim_space (text_or [] (lookup (str "group_id") values));
      socket_path = if is_empty path then str "/tmp/botipc-dev.sock" else path;
      allowed_users = users_of (lookup (str "allowed_users") values);
      timeout_seconds = if ltb_ℤ (pos 0) timeout then timeout else pos 60;
    }

-- applyConfig
unfoldable pub apply_config : World → Values → World
unfolding next_config restart_worker
apply_config w values = restart_worker (record w { config = next_config values })
