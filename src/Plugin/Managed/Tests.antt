-- ===== src/Plugin/Managed/Tests.antt =====
-- The panel's list for one plugin, and the theorem at a concrete input.
use polarix.Prelude.{◌≡◌, refl, true, false, none, some, [], ◌∷◌, In, str, same, lookup, insert}
use polarix.Plugin.Access.{Plugins, command_path_set, or_zero, sort_strings}
use polarix.Plugin.Settings.{
  ConfigField, Plugin, Settings, configured_plugins, is_password, password_field,
}
use polarix.Plugin.Settings.Values.{flag, text}
use polarix.Plugin.Managed.{ManagedPlugin, managed_plugin_by_id}
use polarix.Plugin.Managed.Hidden.{IsHidden, managed_plugin_by_id-hides}

abbrev secret_plugin : Plugin
secret_plugin = record {
  name = [];
  config = record { key = str "secret"; type = password_field } ∷ [];
  validate_config = none;
  apply_config = none;
  has_config_saved = false;
}

abbrev one_stored : Settings
one_stored = record {
  global_plugins = (str "mail", secret_plugin) ∷ [];
  plugin_settings = (str "mail", (str "secret", text (str "hush")) ∷ []) ∷ [];
  applied = [];
  notified = [];
}

abbrev no_rules : Plugins
no_rules = record { global_plugins = []; plugin_access = [] }

abbrev shown_entry : ManagedPlugin
shown_entry = record {
  base = record {
    id = str "mail";
    name = str "mail";
    fields = secret_plugin.config;
    values = (str "secret", flag true) ∷ [];
  };
  commands = [];
  access = record { default = record { mode = []; users = []; groups = [] }; commands = [] };
}

entry_shown : managed_plugin_by_id one_stored no_rules (str "mail") ≡ some shown_entry
unfolding managed_plugin_by_id configured_plugins sort_strings command_path_set lookup insert same
entry_shown = refl

managed_plugin_by_id-hides_example :
    (str "mail" ≡ str "mail")
    × (shown_entry.access ≡ or_zero (lookup (str "mail") no_rules.plugin_access))
    × ((p : Plugin) × In (str "mail", p) one_stored.global_plugins
        × ((f : ConfigField)
            → In f p.config
            → is_password f.type ≡ true
            → IsHidden shown_entry.base.values f))
managed_plugin_by_id-hides_example =
    managed_plugin_by_id-hides one_stored no_rules (str "mail") shown_entry entry_shown
