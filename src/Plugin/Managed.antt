-- ===== src/Plugin/Managed.antt =====
-- lib/plugin/register.go: the list of plugins that the panel is shown, with their settings, commands
-- and access rules. The plugins' settings and their access rules are held apart.
pub mod Hidden
pub mod Tests
use polarix.Prelude.{
  zero, ◌-◌, ◌/◌, ap, Option, none, some, List, [], ◌∷◌, leb, if◌then◌else◌, set, Text, str, same,
  is_empty, fields, lookup, insert,
}
use polarix.Plugin.Commands.{Command, Commands}
use polarix.Plugin.Access.{AccessConfig, Plugins, command_path_set, or_zero, sort_strings, text_leb}
use polarix.Plugin.Settings.{ConfiguredPlugin, Plugin, Settings, configured_plugins}

pub record ManagedPlugin : Type 0 where
  pub base : ConfiguredPlugin
  pub commands : List Text
  pub access : AccessConfig

-- The entry of `byID`: the last one of the list.
unfoldable pub by_id : Text → List ConfiguredPlugin → Option ConfiguredPlugin
unfolding same
by_id id [] = none
by_id id (c ∷ cs) = elim (by_id id cs) [
  | some d ↦ some d
  | none ↦ if same c.id id then some c else none
]

abbrev pub base_of : Text → Plugin → Option ConfiguredPlugin → ConfiguredPlugin
base_of id p (some c) = c
base_of id p none = record {
  id = id;
  name = if is_empty p.name then id else p.name;
  fields = [];
  values = [];
}

abbrev pub commands_of : Option (List Command) → List Command
commands_of none = []
commands_of (some cs) = cs

abbrev pub managed_plugin : Settings → Plugins → Text → Plugin → ManagedPlugin
managed_plugin s a id p = record {
  base = base_of id p (by_id id (configured_plugins s));
  commands = sort_strings (command_path_set (commands_of (lookup id a.global_plugins)));
  access = or_zero (lookup id a.plugin_access);
}

unfoldable pub insert_managed : ManagedPlugin → List ManagedPlugin → List ManagedPlugin
unfolding text_leb
insert_managed c [] = c ∷ []
insert_managed c (d ∷ ds) =
    let rest = insert_managed c ds in if text_leb c.base.id d.base.id then c ∷ d ∷ ds else d ∷ rest

unfoldable pub managed_from : Settings → Plugins → List (Text × Plugin) → List ManagedPlugin
unfolding insert_managed by_id sort_strings
managed_from s a [] = []
managed_from s a ((id, p) ∷ ps) = insert_managed (managed_plugin s a id p) (managed_from s a ps)

-- ManagedPlugins
unfoldable pub managed_plugins : Settings → Plugins → List ManagedPlugin
unfolding managed_from
managed_plugins s a = managed_from s a s.global_plugins

abbrev pub first_by_id : Text → List ManagedPlugin → Option ManagedPlugin
first_by_id id [] = none
first_by_id id (c ∷ cs) = let rest = first_by_id id cs in if same c.base.id id then some c else rest

-- ManagedPluginByID
unfoldable pub managed_plugin_by_id : Settings → Plugins → Text → Option ManagedPlugin
unfolding managed_plugins
managed_plugin_by_id s a id = first_by_id id (managed_plugins s a)
