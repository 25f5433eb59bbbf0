-- ===== src/Plugin/Settings/Tests.antt =====
-- Runs of the settings, and the theorems at concrete inputs.
use polarix.Prelude.{
  ◌+◌, ◌*◌, ◌^◌, ◌≡◌, refl, sym, subst, ◌∙◌, ◌↔◌, inl, inr, true, false, none, some, List, [], ◌∷◌,
  if◌then◌else◌, Bool-cases, In, Text, str, same, same_iff, lookup, insert, pos, pos_part, neg_part,
  ltb_ℤ,
}
use polarix.Plugin.Settings.{
  ConfigField, ConfiguredPlugin, Hook, Plugin, Settings, Values, configured_plugins, int_field,
  password_field, put_plugin,
}
use polarix.Plugin.Settings.Values.{config_int, finite, flag, float64, int, text, to_float64}
use polarix.Plugin.Settings.Numbers.{IsInt64, config_int-IsNumber}
use polarix.Plugin.Settings.Prepared.{HasDistinctFields, IsPrepared}
use polarix.Plugin.Settings.Stored.{
  IsDeclared, SettingsOp, loads, puts, registered, settings_run, settings_run-IsPrepared,
}
use polarix.Plugin.Settings.Saved.{put_plugin-password}

abbrev secret_field : ConfigField
secret_field = record { key = str "secret"; type = password_field }

abbrev retries_field : ConfigField
retries_field = record { key = str "retries"; type = int_field }

-- Retries are not negative.
abbrev check_retries : Hook
check_retries vs = elim (lookup (str "retries") vs) [
  | some v ↦ elim v [
    | int z ↦ if ltb_ℤ z (pos 0) then some (str "negative") else none
    | _ ↦ some (str "no int")
  ]
  | none ↦ some (str "missing")
]

abbrev mailer : Plugin
mailer = record {
  name = [];
  config = secret_field ∷ retries_field ∷ [];
  validate_config = some check_retries;
  apply_config = some (λ vs. none);
  has_config_saved = true;
}

abbrev mailers : List (Text × Plugin)
mailers = (str "mail", mailer) ∷ []

abbrev first_input : Values
first_input = (str "secret", text (str "hush")) ∷ (str "retries", float64 (finite (pos 3) 0 0)) ∷ []

abbrev second_input : Values
second_input = (str "retries", float64 (finite (pos 1) 2 0)) ∷ (str "stray", flag true) ∷ []

abbrev mail_history : List SettingsOp
mail_history =
    loads [] ∷ puts (str "mail") first_input true ∷ puts (str "mail") second_input true ∷ []

abbrev first_values : Values
first_values = (str "secret", text (str "hush")) ∷ (str "retries", int (pos 3)) ∷ []

abbrev stored_values : Values
stored_values = (str "secret", text (str "hush")) ∷ (str "retries", int (pos 4)) ∷ []

fractions : config_int (float64 (finite (pos 1) 0 1)) ≡ none
unfolding config_int
fractions = refl

rounded : to_float64 (pos (2 ^ 53 + 3)) ≡ finite (pos (2 ^ 52 + 2)) 1 0
unfolding to_float64
rounded = refl

mailer_distinct : HasDistinctFields mailer.config
unfolding same
mailer_distinct = (
  λ there. elim there [
    | inl e ↦ let clash : false ≡ true = (same_iff (str "retries") (str "secret")).1 e in cc
    | inr e ↦ e
  ],
  ((λ there. there), tt),
)

mailers-IsDeclared : IsDeclared mailers
unfolding lookup same
mailers-IsDeclared = record {
  distinct = (refl, tt);
  fields = λ id p at. elim (Bool-cases (same (str "mail") id)) [
    | inl e ↦
        let found : some mailer ≡ some p = sym (rw (e, lookup) refl) ∙ at in
        let is_p : mailer ≡ p = cc in
        subst (λ (q : Plugin). HasDistinctFields q.config) is_p mailer_distinct
    | inr e ↦ let clash : none ≡ some p = sym (rw (e, lookup) refl) ∙ at in cc
  ];
}

config_int-IsNumber_example : (config_int (float64 (finite (pos 3) 1 0)) ≡ some (pos 6)) ↔ (
    ((pos_part (pos 6) * 2 ^ 0 ≡ 3 * 2 ^ 1) × (neg_part (pos 6) * 2 ^ 0 ≡ 0 * 2 ^ 1))
    × IsInt64 (pos 6))
config_int-IsNumber_example = config_int-IsNumber (float64 (finite (pos 3) 1 0)) (pos 6) tt

stored_at :
    lookup (str "mail") (settings_run (registered mailers) mail_history).plugin_settings
    ≡ some stored_values
unfolding settings_run lookup insert same
stored_at = refl

mailer_at : lookup (str "mail") mailers ≡ some mailer
unfolding lookup same
mailer_at = refl

settings_run-IsPrepared_example : IsPrepared mailer stored_values
settings_run-IsPrepared_example =
    settings_run-IsPrepared mailers mail_history (str "mail") mailer stored_values
      mailers-IsDeclared mailer_at stored_at

-- The settings after the first request.
abbrev after_first : Settings
after_first = record (registered mailers) { plugin_settings = (str "mail", first_values) ∷ [] }

second_done : (put_plugin after_first (str "mail") second_input true).1 ≡ 200
unfolding put_plugin lookup insert same
second_done = refl

first_at : lookup (str "mail") after_first.plugin_settings ≡ some first_values
unfolding lookup same
first_at = refl

secret_at : lookup (str "secret") first_values ≡ some (text (str "hush"))
unfolding lookup same
secret_at = refl

no_secret : lookup (str "secret") second_input ≡ none
unfolding lookup same
no_secret = refl

put_plugin-password_example :
    (us : Values) × (lookup
        (str "mail")
        (put_plugin after_first (str "mail") second_input true).0.plugin_settings
      ≡ some us)
    × (lookup (str "secret") us ≡ some (text (str "hush")))
put_plugin-password_example =
    put_plugin-password after_first (str "mail") second_input mailer secret_field first_values
      (str "hush") mailer_at mailer_distinct (inl refl) refl (inl no_secret) first_at secret_at
      second_done

abbrev shown_mailer : ConfiguredPlugin
shown_mailer = record {
  id = str "mail";
  name = str "mail";
  fields = mailer.config;
  values = (str "secret", flag true) ∷ (str "retries", int (pos 3)) ∷ [];
}

mailer_shown : In shown_mailer (configured_plugins after_first)
unfolding configured_plugins lookup insert same
mailer_shown = inl refl
