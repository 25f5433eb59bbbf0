-- ===== src/Plugin/Access/Tests.antt =====
-- A whitelist for one command of a plugin.
use polarix.Prelude.{
  ◌≡◌, refl, true, false, some, List, [], ◌∷◌, In, Text, str, same, trim_space, lookup, insert,
}
use polarix.Schedule.Cron.{err}
use polarix.Plugin.Access.{
  AccessConfig, AccessRule, Plugins, apply_access, can_use, clean_ids, command_path_set,
  effective_rule, has_text, insert_sorted, normalize_rule, prepare_access, rule_allows,
  sort_strings, text_leb, unknown_path, validate_access_rule, Command,
}
use polarix.Plugin.Access.Prepared.{IsKept, prepare_access-IsKept}

abbrev lists : AccessConfig
lists = record {
  default = record { mode = str "off"; users = []; groups = [] };
  commands =
      (str "push", record { mode = str "whitelist"; users = str "ann" ∷ []; groups = [] }) ∷ [];
}

abbrev one_plugin : Plugins
one_plugin = record { global_plugins = (str "p", []) ∷ []; plugin_access = [] }

cleaned : clean_ids (str "b" ∷ str " a " ∷ [] ∷ str "a" ∷ []) ≡ str "a" ∷ str "b" ∷ []
unfolding clean_ids sort_strings insert_sorted text_leb has_text trim_space same
cleaned = refl

stranger :
    can_use (apply_access one_plugin (str "p") lists) (str "p") (str "push") (str "bob") [] ≡ false
unfolding can_use apply_access insert lookup same effective_rule rule_allows
stranger = refl

unknown : prepare_access (λ c. c) one_plugin (str "p") lists ≡ err (unknown_path (str "push"))
unfolding prepare_access lookup same trim_space insert
unknown = refl

abbrev open_config : AccessConfig
open_config = record {
  default = record { mode = str " WhiteList "; users = []; groups = [] };
  commands = [];
}

abbrev normalized : AccessConfig
normalized = record {
  default = record { mode = str "whitelist"; users = []; groups = [] };
  commands = [];
}

prepare_access-IsKept_example :
    (cs : List Command) × (lookup (str "p") one_plugin.global_plugins ≡ some cs)
    × (normalized.default ≡ normalize_rule (λ c. c) open_config.default)
    × (validate_access_rule normalized.default ≡ true)
    × ((e : Text × AccessRule) → In e normalized.commands → IsKept (command_path_set cs) e)
unfolding prepare_access lookup same trim_space
prepare_access-IsKept_example =
    prepare_access-IsKept (λ c. c) one_plugin (str "p") open_config normalized refl
