-- ===== src/Plugin/Settings/Stored.antt =====
-- The stored settings through the start of the program and the panel's requests.
use polarix.Schedule.Cron.Fields.{Result-cases}
use polarix.Prelude.{
  ◌≡◌, refl, sym, ap, subst, ◌∙◌, inl, inr, Bool, none, some, List, [], ◌∷◌, Bool-cases,
  Option-cases, In, Text, same, same_iff, same_refl, HasDistinctKeys, lookup, lookup-insert,
}
use polarix.Plugin.Settings.{
  Plugin, Settings, Values, apply_configuration, load_configurations, load_plugin, load_plugins,
  no_fields, notify_configuration_saved, or_empty, prepare_configuration, prepare_with, put_plugin,
  run_hook, save_settings, store_settings,
}
use polarix.Plugin.Settings.Prepared.{HasDistinctFields, IsPrepared, prepare_with-IsPrepared}

pub data SettingsOp : Type 0 where
  loads : List (Text × Values) → SettingsOp
  puts : Text → Values → Bool → SettingsOp

unfoldable pub settings_step : Settings → SettingsOp → Settings
unfolding load_configurations put_plugin
settings_step s (loads settings) = (load_configurations s settings).0
settings_step s (puts id input written) = (put_plugin s id input written).0

unfoldable pub settings_run : Settings → List SettingsOp → Settings
unfolding settings_step
settings_run s [] = s
settings_run s (o ∷ os) = settings_run (settings_step s o) os

abbrev pub registered : List (Text × Plugin) → Settings
registered ps = record { global_plugins = ps; plugin_settings = []; applied = []; notified = [] }

-- Plugins are registered under distinct ids, and the fields of each have distinct keys.
pub record IsDeclared (ps : List (Text × Plugin)) : Type 0 where
  pub distinct : HasDistinctKeys ps
  pub fields : (id : Text) (p : Plugin) → lookup id ps ≡ some p → HasDistinctFields p.config

pub record IsStored (ps : List (Text × Plugin)) (s : Settings) : Type 0 where
  pub same_plugins : s.global_plugins ≡ ps
  pub prepared :
      (id : Text) (p : Plugin) (vs : Values)
      → lookup id ps ≡ some p
      → lookup id s.plugin_settings ≡ some vs
      → IsPrepared p vs

In-lookup :
    (ps : List (Text × Plugin)) (id : Text) (p : Plugin)
    → HasDistinctKeys ps
    → In (id, p) ps
    → lookup id ps ≡ some p
unfolding lookup
In-lookup [] id p d there = absurd there
In-lookup ((j, q) ∷ ps) id p d (inl is_q) =
    let ids : id ≡ j = ap (λ (e : Text × Plugin). e.0) is_q in
    let plugins : p ≡ q = ap (λ (e : Text × Plugin). e.1) is_q in
    rw ids (rw (same_refl j) (ap (λ (r : Plugin). some r) (sym plugins)))
In-lookup ((j, q) ∷ ps) id p d (inr there) = elim (Bool-cases (same j id)) [
  | inl e ↦
      let is_id : j ≡ id = (same_iff j id).0 e in
      let below : lookup id ps ≡ some p = In-lookup ps id p d.1 there in
      let clash : none ≡ some p = sym d.0 ∙ ap (λ (t : Text). lookup t ps) is_id ∙ below in cc
  | inr e ↦ rw e (In-lookup ps id p d.1 there)
]

module _ (ps : List (Text × Plugin)) (d : IsDeclared ps) where
  store_settings-IsStored :
      (s : Settings) (id : Text) (p : Plugin) (vs : Values)
      → IsStored ps s
      → lookup id ps ≡ some p
      → IsPrepared p vs
      → IsStored ps (store_settings s id p vs).0
  unfolding store_settings
  store_settings-IsStored s id p vs h at good = elim (Option-cases (run_hook p.apply_config vs)) [
    | inr (x, e) ↦
        rw (e, store_settings) (record { same_plugins = h.same_plugins; prepared = h.prepared })
    | inl e ↦
        rw (e, store_settings)
          (record {
            same_plugins = h.same_plugins;
            prepared = λ j q us q_at us_at. elim (Bool-cases (same id j)) [
              | inr n ↦
                  h.prepared j q us q_at
                    (sym (lookup-insert id j vs s.plugin_settings ∙ rw n refl) ∙ us_at)
              | inl y ↦
                  let is_j : id ≡ j = (same_iff id j).0 y in
                  let is_p : some p ≡ some q =
                    sym at ∙ ap (λ (t : Text). lookup t ps) is_j ∙ q_at in
                  let is_vs : some vs ≡ some us =
                    sym (lookup-insert id j vs s.plugin_settings ∙ rw y refl) ∙ us_at in
                  subst (λ (r : Plugin). IsPrepared r us) (some_injective is_p)
                    (subst (λ (w : Values). IsPrepared p w) (some_injective is_vs) good)
            ];
          })
  ]
    where
      some_injective : {A : Type 0} {a b : A} → some a ≡ some b → a ≡ b
      some_injective e = cc

  load_plugin-IsStored :
      (s : Settings) (id : Text) (p : Plugin) (settings : List (Text × Values))
      → IsStored ps s
      → lookup id ps ≡ some p
      → IsStored ps (load_plugin s id p settings).0
  unfolding load_plugin
  load_plugin-IsStored s id p settings h at = elim (Bool-cases (no_fields p.config)) [
    | inl n ↦ rw (n, load_plugin) h
    | inr n ↦
        elim (Result-cases (
          prepare_with p (or_empty (lookup id s.plugin_settings))
            (or_empty (lookup id settings)))) [
              | inr (x, e) ↦ rw (n, e, load_plugin) h
              | inl (vs, e) ↦
                  let good = (prepare_with-IsPrepared p _ _ vs (d.fields id p at) e).0 in
                  rw (n, e, good.accepted, load_plugin)
                    (store_settings-IsStored s id p vs h at good)
            ]
  ]

  load_plugins-IsStored :
      (qs : List (Text × Plugin)) (s : Settings) (settings : List (Text × Values))
      → IsStored ps s
      → ((id : Text) (p : Plugin) → In (id, p) qs → lookup id ps ≡ some p)
      → IsStored ps (load_plugins s qs settings).0
  unfolding load_plugins
  load_plugins-IsStored [] s settings h among = h
  load_plugins-IsStored ((id, p) ∷ qs) s settings h among =
      let one = load_plugin-IsStored s id p settings h (among id p (inl refl)) in
      elim (Option-cases (load_plugin s id p settings).1) [
        | inr (x, e) ↦ rw (e, load_plugins) one
        | inl e ↦
            rw (e, load_plugins)
              (load_plugins-IsStored qs (load_plugin s id p settings).0 settings one
                (λ j q there. among j q (inr there)))
      ]

  apply_configuration-IsStored :
      (s : Settings) (id : Text) (p : Plugin) (vs : Values)
      → IsStored ps s
      → lookup id ps ≡ some p
      → IsPrepared p vs
      → IsStored ps (apply_configuration s id vs).0
  unfolding apply_configuration
  apply_configuration-IsStored s id p vs h at good =
      let found : lookup id s.global_plugins ≡ some p =
        ap (λ (qs : List (Text × Plugin)). lookup id qs) h.same_plugins ∙ at in
      rw (found, apply_configuration) (store_settings-IsStored s id p vs h at good)

  notify-IsStored :
      (s : Settings) (id : Text) (vs : Values)
      → IsStored ps s
      → IsStored ps (notify_configuration_saved s id vs).0
  unfolding notify_configuration_saved
  notify-IsStored s id vs h = elim (Option-cases (lookup id s.global_plugins)) [
    | inl n ↦ rw (n, notify_configuration_saved) h
    | inr (p, f) ↦ elim (Bool-cases p.has_config_saved) [
      | inr e ↦ rw (f, e, notify_configuration_saved) h
      | inl e ↦
          rw (f, e, notify_configuration_saved)
            (record { same_plugins = h.same_plugins; prepared = h.prepared })
    ]
  ]

  saved-IsStored :
      (s : Settings) (id : Text) (p : Plugin) (vs : Values)
      → IsStored ps s
      → lookup id ps ≡ some p
      → IsPrepared p vs
      → IsStored ps (save_settings s id vs).0
  unfolding save_settings
  saved-IsStored s id p vs h at good = elim (Option-cases (notify_configuration_saved s id vs).1) [
    | inr (x, e) ↦ rw (e, save_settings) (notify-IsStored s id vs h)
    | inl e ↦
        rw (e, save_settings)
          (apply_configuration-IsStored (notify_configuration_saved s id vs).0 id p vs
            (notify-IsStored s id vs h) at good)
  ]

  put_plugin-IsStored :
      (s : Settings) (id : Text) (input : Values) (written : Bool)
      → IsStored ps s
      → IsStored ps (put_plugin s id input written).0
  unfolding put_plugin
  put_plugin-IsStored s id input written h = elim (Option-cases (lookup id s.global_plugins)) [
    | inl n ↦ rw (n, put_plugin, prepare_configuration) h
    | inr (p, found) ↦ elim (Bool-cases (no_fields p.config)) [
      | inl n ↦ rw (found, n, put_plugin, prepare_configuration) h
      | inr n ↦
          elim (Result-cases (prepare_with p (or_empty (lookup id s.plugin_settings)) input)) [
            | inr (x, e) ↦ rw (found, n, e, put_plugin, prepare_configuration) h
            | inl (vs, e) ↦
                let at : lookup id ps ≡ some p =
                  ap (λ (qs : List (Text × Plugin)). lookup id qs) (sym h.same_plugins) ∙ found in
                let good = (prepare_with-IsPrepared p _ _ vs (d.fields id p at) e).0 in
                elim (Bool-cases written) [
                  | inr w ↦ rw (found, n, e, w, put_plugin, prepare_configuration) h
                  | inl w ↦
                      rw (found, n, e, w, put_plugin, prepare_configuration)
                        (saved-IsStored s id p vs h at good)
                ]
          ]
    ]
  ]

  settings_run-IsStored :
      (os : List SettingsOp) (s : Settings) → IsStored ps s → IsStored ps (settings_run s os)
  unfolding settings_run settings_step load_configurations
  settings_run-IsStored [] s h = h
  settings_run-IsStored (loads settings ∷ os) s h = settings_run-IsStored os _ (
      load_plugins-IsStored s.global_plugins s settings h (λ id p there.
        In-lookup ps id p d.distinct
          (subst (λ (qs : List (Text × Plugin)). In (id, p) qs) h.same_plugins there)))
  settings_run-IsStored (puts id input written ∷ os) s h =
      settings_run-IsStored os _ (put_plugin-IsStored s id input written h)

-- Plugins are registered under distinct ids, and the fields of each have distinct keys. After any
-- loads at the start and any requests of the panel, failed ones included, the settings that are stored
-- for a plugin bind every one of its fields to a value of the field's type, bind nothing else, and
-- pass the plugin's own check.
pub settings_run-IsPrepared :
    (ps : List (Text × Plugin)) (os : List SettingsOp) (id : Text) (p : Plugin) (vs : Values)
    → IsDeclared ps
    → lookup id ps ≡ some p
    → lookup id (settings_run (registered ps) os).plugin_settings ≡ some vs
    → IsPrepared p vs
unfolding lookup
settings_run-IsPrepared ps os id p vs d =
    (settings_run-IsStored ps d os (registered ps)
        (record { same_plugins = refl; prepared = λ j q us at none_yet. cc })).prepared
      id p vs
