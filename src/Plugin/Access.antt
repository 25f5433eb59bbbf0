-- ===== src/Plugin/Access.antt =====
-- lib/plugin/register.go: the rules that say who may use a plugin's commands. Plugins are held with
-- the paths of their commands. Go's maps are association lists with distinct keys.
pub mod Rules
pub mod Prepared
pub mod Tests
use polarix.Prelude.{
  ℕ, zero, ◌+◌, ◌-◌, ◌/◌, ap, Bool, true, false, not, ◌&&◌, ◌||◌, Option, none, some, List, [], ◌∷◌,
  ◌++◌, map, ltb, leb, ◌==◌, if◌then◌else◌, set, Text, str, same, is_empty, trim_space, lookup,
  insert, delete,
}
use polarix.Schedule.Cron.{Result, err, ok}
use polarix.Plugin.Commands.{Command, Commands, collect_command_paths, info}

pub record AccessRule : Type 0 where
  pub mode : Text
  pub users : List Text
  pub groups : List Text

pub record AccessConfig : Type 0 where
  pub default : AccessRule
  pub commands : List (Text × AccessRule)

pub data AccessError : Type 0 where
  not_registered : AccessError
  bad_default : AccessError
  unknown_path : Text → AccessError
  bad_rule : Text → AccessError

-- globalPlugins, with each plugin's commands, and pluginAccess.
pub record Plugins : Type 0 where
  pub global_plugins : List (Text × List Command)
  pub plugin_access : List (Text × AccessConfig)

-- The zero value of a missing key.
abbrev pub or_zero : Option AccessConfig → AccessConfig
or_zero none = record { default = record { mode = []; users = []; groups = [] }; commands = [] }
or_zero (some a) = a

unfoldable pub has_text : Text → List Text → Bool
has_text t [] = false
has_text t (s ∷ ss) = same t s || has_text t ss

-- contains
unfoldable pub contains : List Text → Text → Bool
unfolding has_text
contains values target = if is_empty target then false else has_text target values

-- Strings are ordered by their bytes, and so by their code points.
unfoldable pub text_leb : Text → Text → Bool
text_leb [] t = true
text_leb (a ∷ s) [] = false
text_leb (a ∷ s) (b ∷ t) = ltb a b || ((a == b) && text_leb s t)

unfoldable pub insert_sorted : Text → List Text → List Text
unfolding text_leb
insert_sorted t [] = t ∷ []
insert_sorted t (s ∷ ss) =
    let rest = insert_sorted t ss in if text_leb t s then t ∷ s ∷ ss else s ∷ rest

-- sort.Strings
unfoldable pub sort_strings : List Text → List Text
unfolding insert_sorted
sort_strings [] = []
sort_strings (t ∷ ts) = insert_sorted t (sort_strings ts)

-- The loop of cleanIDs, with the values that have been seen.
unfoldable pub clean_from : List Text → List Text → List Text
unfolding has_text
clean_from seen [] = []
clean_from seen (v ∷ vs) =
    let value = trim_space v in
    let keep = value ∷ clean_from (value ∷ seen) vs in
    let skip = clean_from seen vs in
    if not (is_empty value) && not (has_text value seen) then keep else skip

-- cleanIDs
unfoldable pub clean_ids : List Text → List Text
unfolding clean_from sort_strings
clean_ids values = sort_strings (clean_from [] values)

-- validateAccessRule: is there no error?
unfoldable pub validate_access_rule : AccessRule → Bool
validate_access_rule r =
    same r.mode (str "off") || same r.mode (str "whitelist") || same r.mode (str "blacklist")

-- commandPathSet, as the list of the paths
unfoldable pub command_path_set : List Command → List Text
unfolding collect_command_paths
command_path_set [] = []
command_path_set (c ∷ cs) = collect_command_paths c (info c).prefix ++ command_path_set cs

-- The loop of PrepareAccessConfiguration and of LoadAccessConfigurations over a snapshot of the rules.
unfoldable pub check_rules :
    List Text
    → List (Text × AccessRule)
    → List (Text × AccessRule)
    → Result AccessError (List (Text × AccessRule))
unfolding has_text validate_access_rule
check_rules valid [] commands = ok commands
check_rules valid ((path, rule) ∷ rs) commands =
    let dropped = check_rules valid rs (delete path commands) in
    let kept = check_rules valid rs commands in
    if not (has_text path valid)
    then err (unknown_path path)
    else if not (validate_access_rule rule)
    then err (bad_rule path)
    else if same rule.mode (str "off")
    then dropped
    else kept

-- What a user in a group may do under a rule.
unfoldable pub rule_allows : AccessRule → Text → Text → Bool
unfolding contains
rule_allows r user group =
    let user_matched = contains r.users user in
    let group_matched = contains r.groups group in
    if same r.mode (str "whitelist")
    then user_matched || group_matched
    else if same r.mode (str "blacklist")
    then not user_matched && not group_matched
    else true

-- The rule that CanUse applies.
unfoldable pub effective_rule : AccessConfig → Text → AccessRule
effective_rule a path = elim (lookup path a.commands) [ none ↦ a.default | some r ↦ r ]

-- CanUse
unfoldable pub can_use : Plugins → Text → Text → Text → Text → Bool
unfolding effective_rule rule_allows
can_use s id path user group =
    rule_allows (effective_rule (or_zero (lookup id s.plugin_access)) path) user group

-- ApplyAccessConfiguration; the copies that the source makes have no other holder here.
unfoldable pub apply_access : Plugins → Text → AccessConfig → Plugins
apply_access s id a = record s { plugin_access = insert id a s.plugin_access }

-- unicode.ToLower beyond ASCII, from the standard library's tables.
module _ (lower : ℕ → ℕ) where
  -- strings.ToLower
  unfoldable pub to_lower : Text → Text
  to_lower [] = []
  to_lower (c ∷ s) =
      (if leb 65 c && leb c 90 then c + 32 else if ltb c 128 then c else lower c) ∷ to_lower s

  -- normalizeAccessRule
  unfoldable pub normalize_rule : AccessRule → AccessRule
  unfolding to_lower clean_ids
  normalize_rule r =
      let mode = to_lower (trim_space r.mode) in
      record {
        mode = if is_empty mode then str "off" else mode;
        users = clean_ids r.users;
        groups = clean_ids r.groups;
      }

  -- The loop of normalizeAccessConfig.
  unfoldable pub normalize_rules :
      List (Text × AccessRule) → List (Text × AccessRule) → List (Text × AccessRule)
  unfolding normalize_rule
  normalize_rules [] commands = commands
  normalize_rules ((path, rule) ∷ rs) commands =
      normalize_rules rs (insert (trim_space path) (normalize_rule rule) commands)

  -- normalizeAccessConfig
  unfoldable pub normalize_access : AccessConfig → AccessConfig
  unfolding normalize_rules
  normalize_access a = record {
    default = normalize_rule a.default;
    commands = normalize_rules a.commands [];
  }

  -- PrepareAccessConfiguration behind the lookup of the plugin; a pass of the loop of
  -- LoadAccessConfigurations over the plugins.
  unfoldable pub prepare_rules : List Command → AccessConfig → Result AccessError AccessConfig
  unfolding normalize_access check_rules command_path_set
  prepare_rules cs a =
      let prepared = normalize_access a in
      let checked : Result AccessError (List (Text × AccessRule)) =
        check_rules (command_path_set cs) prepared.commands prepared.commands in
      if not (validate_access_rule prepared.default) then err bad_default else elim checked [
        | err e ↦ err e
        | ok commands ↦ ok (record prepared { commands = commands })
      ]

  -- PrepareAccessConfiguration
  unfoldable pub prepare_access : Plugins → Text → AccessConfig → Result AccessError AccessConfig
  unfolding prepare_rules
  prepare_access s id a = elim (lookup id s.global_plugins) [
    | none ↦ err not_registered
    | some cs ↦ prepare_rules cs a
  ]

  -- LoadAccessConfigurations, over the plugins in the order of the list
  unfoldable pub load_access :
      List (Text × List Command)
      → List (Text × AccessConfig)
      → Plugins
      → Plugins × Option AccessError
  unfolding prepare_rules
  load_access [] configs s = (s, none)
  load_access ((id, cs) ∷ ps) configs s = elim (prepare_rules cs (or_zero (lookup id configs))) [
    | err e ↦ (s, some e)
    | ok a ↦ load_access ps configs (record s { plugin_access = insert id a s.plugin_access })
  ]
