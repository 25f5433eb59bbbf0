-- ===== src/Plugin/Settings.antt =====
-- lib/plugin/register.go, the settings of the plugins, and the panel's request that changes them in
-- lib/admin/admin.go. What the plugin itself does with its settings is a function of the plugin; the
-- writing of the settings file is a parameter. `applied` and `notified` record the calls of
-- ApplyConfig and of ConfigSaved, with the latest in front. Descriptions and the labels
-- of a field are left out.
pub mod Values
pub mod Numbers
pub mod Prepared
pub mod Stored
pub mod Saved
pub mod Shown
pub mod Tests
use polarix.Prelude.{
  ℕ, zero, ◌-◌, ◌/◌, ap, Bool, true, false, not, Option, none, some, List, [], ◌∷◌, map, leb,
  if◌then◌else◌, set, Text, str, is_empty, lookup, insert, pos,
}
use polarix.Schedule.Cron.{Result, err, ok}
use polarix.Plugin.Access.{text_leb}
use polarix.Plugin.Settings.Values.{
  Value, config_float, config_int, finite, flag, float64, int, other, text,
}

pub data ConfigFieldType : Type 0 where
  text_field password_field boolean_field int_field float_field : ConfigFieldType
  -- the empty type, which is a text, and every other string
  no_type : ConfigFieldType
  unknown_type : ConfigFieldType

pub record ConfigField : Type 0 where
  pub key : Text
  pub type : ConfigFieldType

abbrev pub Values : Type 0
Values = List (Text × Value)

-- A hook reports an error, or none.
abbrev pub Hook : Type 0
Hook = Values → Option Text

pub record Plugin : Type 0 where
  pub name : Text
  pub config : List ConfigField
  pub validate_config : Option Hook
  pub apply_config : Option Hook
  pub has_config_saved : Bool

pub data SettingsError : Type 0 where
  no_options : SettingsError
  not_registered : SettingsError
  wrong_type : Text → SettingsError
  unsupported_type : Text → SettingsError
  rejected : Text → SettingsError

-- globalPlugins and pluginSettings, and the calls of the plugins' hooks.
pub record Settings : Type 0 where
  pub global_plugins : List (Text × Plugin)
  pub plugin_settings : List (Text × Values)
  pub applied : List (Text × Values)
  pub notified : List (Text × Values)

-- A missing map is empty.
abbrev pub or_empty : Option Values → Values
or_empty none = []
or_empty (some vs) = vs

abbrev pub zero_value : ConfigFieldType → Value
zero_value boolean_field = flag false
zero_value int_field = int (pos 0)
zero_value float_field = float64 (finite (pos 0) 0 0)
zero_value _ = text []

-- The value that stands for a field in the panel's input: an empty password keeps the current one.
abbrev pub keeps : ConfigFieldType → Option Value → Bool
keeps password_field none = true
keeps password_field (some (text [])) = true
keeps _ _ = false

abbrev pub value_or : Value → Option Value → Value
value_or z none = z
value_or z (some v) = v

unfoldable pub field_value : ConfigField → Values → Values → Value
field_value f current input =
    let given = lookup f.key input in
    value_or (zero_value f.type) (if keeps f.type given then lookup f.key current else given)

abbrev pub some_or : {A : Type 0} → Text → Option A → (A → Value) → Result SettingsError Value
some_or key none f = err (wrong_type key)
some_or key (some a) f = ok (f a)

abbrev pub text_only : Text → Value → Result SettingsError Value
text_only key (text t) = ok (text t)
text_only key _ = err (wrong_type key)

abbrev pub flag_only : Text → Value → Result SettingsError Value
flag_only key (flag b) = ok (flag b)
flag_only key _ = err (wrong_type key)

-- The switch over the field's type.
unfoldable pub check_value : Text → ConfigFieldType → Value → Result SettingsError Value
unfolding config_int config_float
check_value key boolean_field v = flag_only key v
check_value key int_field v = some_or key (config_int v) int
check_value key float_field v = some_or key (config_float v) float64
check_value key unknown_type v = err (unsupported_type key)
check_value key _ v = text_only key v

-- The loop of prepareConfiguration over the fields.
unfoldable pub prepare_fields :
    List ConfigField → Values → Values → Values → Result SettingsError Values
unfolding field_value check_value
prepare_fields [] current input prepared = ok prepared
prepare_fields (f ∷ fs) current input prepared =
    elim (check_value f.key f.type (field_value f current input)) [
      | err e ↦ err e
      | ok v ↦ prepare_fields fs current input (insert f.key v prepared)
    ]

abbrev pub run_hook : Option Hook → Values → Option Text
run_hook none vs = none
run_hook (some h) vs = h vs

abbrev pub or_rejected : Option Text → Values → Result SettingsError Values
or_rejected none vs = ok vs
or_rejected (some e) vs = err (rejected e)

-- prepareConfiguration
unfoldable pub prepare_with : Plugin → Values → Values → Result SettingsError Values
unfolding prepare_fields
prepare_with p current input = elim (prepare_fields p.config current input []) [
  | err e ↦ err e
  | ok vs ↦ or_rejected (run_hook p.validate_config vs) vs
]

abbrev pub no_fields : List ConfigField → Bool
no_fields [] = true
no_fields (f ∷ fs) = false

abbrev pub prepare_found : Option Plugin → Values → Values → Result SettingsError Values
prepare_found none current input = err no_options
prepare_found (some p) current input =
    if no_fields p.config then err no_options else prepare_with p current input

-- PrepareConfiguration
unfoldable pub prepare_configuration : Settings → Text → Values → Result SettingsError Values
unfolding prepare_with
prepare_configuration s id input =
    prepare_found (lookup id s.global_plugins) (or_empty (lookup id s.plugin_settings)) input

abbrev pub log_call :
    {A : Type 0} → Option A → Text → Values → List (Text × Values) → List (Text × Values)
log_call none id vs log = log
log_call (some a) id vs log = (id, vs) ∷ log

-- The settings are given to the plugin, and are kept unless it reports an error.
unfoldable pub store_settings : Settings → Text → Plugin → Values → Settings × Option SettingsError
store_settings s id p vs =
    let called = log_call p.apply_config id vs s.applied in
    elim (run_hook p.apply_config vs) [
      | none ↦
          (record s { applied = called; plugin_settings = insert id vs s.plugin_settings }, none)
      | some e ↦ (record s { applied = called }, some (rejected e))
    ]

-- ApplyConfiguration
unfoldable pub apply_configuration : Settings → Text → Values → Settings × Option SettingsError
unfolding store_settings
apply_configuration s id vs = elim (lookup id s.global_plugins) [
  | none ↦ (s, some not_registered)
  | some p ↦ store_settings s id p vs
]

-- NotifyConfigurationSaved
unfoldable pub notify_configuration_saved :
    Settings → Text → Values → Settings × Option SettingsError
notify_configuration_saved s id vs = elim (lookup id s.global_plugins) [
  | none ↦ (s, some not_registered)
  | some p ↦ (if p.has_config_saved then record s { notified = (id, vs) ∷ s.notified } else s, none)
]

-- A round of LoadConfigurations.
unfoldable pub load_plugin :
    Settings → Text → Plugin → List (Text × Values) → Settings × Option SettingsError
unfolding prepare_with store_settings
load_plugin s id p settings =
    if no_fields p.config
    then (s, none)
    else elim (prepare_with p (or_empty (lookup id s.plugin_settings))
        (or_empty (lookup id settings))) [
          | err e ↦ (s, some e)
          | ok vs ↦ elim (run_hook p.validate_config vs) [
            | some e ↦ (s, some (rejected e))
            | none ↦ store_settings s id p vs
          ]
        ]

-- LoadConfigurations: the first error ends the loop, and what was applied before it stays.
unfoldable pub load_plugins :
    Settings → List (Text × Plugin) → List (Text × Values) → Settings × Option SettingsError
unfolding load_plugin
load_plugins s [] settings = (s, none)
load_plugins s ((id, p) ∷ ps) settings =
    let (t, e) = load_plugin s id p settings in
    elim e [ none ↦ load_plugins t ps settings | some f ↦ (t, some f) ]

unfoldable pub load_configurations :
    Settings → List (Text × Values) → Settings × Option SettingsError
unfolding load_plugins
load_configurations s settings = load_plugins s s.global_plugins settings

-- The prepared settings have been written to the file.
unfoldable pub save_settings : Settings → Text → Values → Settings × ℕ
unfolding notify_configuration_saved apply_configuration
save_settings s id vs =
    let (t, e) = notify_configuration_saved s id vs in
    elim e [
      | some f ↦ (t, 500)
      | none ↦ let (u, f) = apply_configuration t id vs in (u, elim f [ none ↦ 200 | some g ↦ 400 ])
    ]

-- The panel's PUT of a plugin's settings, given its input and whether the file was written, and the
-- status of the response.
unfoldable pub put_plugin : Settings → Text → Values → Bool → Settings × ℕ
unfolding prepare_configuration save_settings
put_plugin s id input written = elim (prepare_configuration s id input) [
  | err e ↦ (s, 400)
  | ok vs ↦ if not written then (s, 500) else save_settings s id vs
]

-- What the panel is shown of a stored value: of a password only whether there is one.
abbrev pub is_configured : Option Value → Bool
is_configured (some (text (c ∷ t))) = true
is_configured _ = false

abbrev pub is_password : ConfigFieldType → Bool
is_password password_field = true
is_password _ = false

unfoldable pub hide_passwords : List ConfigField → Values → Values
hide_passwords [] vs = vs
hide_passwords (f ∷ fs) vs =
    hide_passwords fs
      (if is_password f.type then insert f.key (flag (is_configured (lookup f.key vs))) vs else vs)

pub record ConfiguredPlugin : Type 0 where
  pub id : Text
  pub name : Text
  pub fields : List ConfigField
  pub values : Values

abbrev pub configured_plugin : Settings → Text → Plugin → ConfiguredPlugin
configured_plugin s id p = record {
  id = id;
  name = if is_empty p.name then id else p.name;
  fields = p.config;
  values = hide_passwords p.config (or_empty (lookup id s.plugin_settings));
}

unfoldable pub insert_by_id : ConfiguredPlugin → List ConfiguredPlugin → List ConfiguredPlugin
unfolding text_leb
insert_by_id c [] = c ∷ []
insert_by_id c (d ∷ ds) =
    let rest = insert_by_id c ds in if text_leb c.id d.id then c ∷ d ∷ ds else d ∷ rest

unfoldable pub configured_from : Settings → List (Text × Plugin) → List ConfiguredPlugin
unfolding insert_by_id hide_passwords
configured_from s [] = []
configured_from s ((id, p) ∷ ps) =
    let rest = configured_from s ps in
    if no_fields p.config then rest else insert_by_id (configured_plugin s id p) rest

-- ConfiguredPlugins
unfoldable pub configured_plugins : Settings → List ConfiguredPlugin
unfolding configured_from
configured_plugins s = configured_from s s.global_plugins
