-- ===== src/Plugin/Settings/Saved.antt =====
-- What a request of the panel that succeeds has stored, the passwords in particular.
use polarix.Prelude.{
  ℕ, ◌≡◌, refl, sym, ap, ◌∙◌, ◌⊎◌, inl, inr, Bool, true, Option, none, some, [], arith, Bool-cases,
  Option-cases, In, Text, same_refl, lookup, lookup-insert,
}
use polarix.Schedule.Cron.{ok}
use polarix.Schedule.Cron.Fields.{Result-cases}
use polarix.Plugin.Settings.Values.{Value, text}
use polarix.Plugin.Settings.{
  ConfigField, Plugin, Settings, Values, apply_configuration, check_value, field_value, keeps,
  no_fields, not_registered, notify_configuration_saved, or_empty, password_field,
  prepare_configuration, prepare_with, put_plugin, rejected, run_hook, save_settings,
  store_settings,
}
use polarix.Plugin.Settings.Prepared.{HasDistinctFields, prepare_with-IsPrepared}

apply_configuration-stores :
    (s : Settings) (id : Text) (vs : Values)
    → (apply_configuration s id vs).1 ≡ none
    → lookup id (apply_configuration s id vs).0.plugin_settings ≡ some vs
unfolding apply_configuration store_settings
apply_configuration-stores s id vs done = elim (Option-cases (lookup id s.global_plugins)) [
  | inl n ↦
      let clash : some not_registered ≡ none = sym (rw (n, apply_configuration) refl) ∙ done in cc
  | inr (p, f) ↦ elim (Option-cases (run_hook p.apply_config vs)) [
    | inr (x, e) ↦
        let clash : some (rejected x) ≡ none =
          sym (rw (f, e, apply_configuration, store_settings) refl) ∙ done in
        cc
    | inl e ↦
        rw (f, e, apply_configuration, store_settings)
          (lookup-insert id id vs s.plugin_settings ∙ (rw (same_refl id) refl))
  ]
]

save_settings-stores :
    (s : Settings) (id : Text) (vs : Values)
    → (save_settings s id vs).1 ≡ 200
    → lookup id (save_settings s id vs).0.plugin_settings ≡ some vs
unfolding save_settings
save_settings-stores s id vs done = elim (Option-cases (notify_configuration_saved s id vs).1) [
  | inr (x, e) ↦
      let clash : 500 ≡ 200 = sym (rw (e, save_settings) refl) ∙ done in
      absurd (ground (arith, clash))
  | inl e ↦
      let t = (notify_configuration_saved s id vs).0 in
      elim (Option-cases (apply_configuration t id vs).1) [
        | inr (x, f) ↦
            let clash : 400 ≡ 200 = sym (rw (e, f, save_settings) refl) ∙ done in
            absurd (ground (arith, clash))
        | inl f ↦ rw (e, save_settings) (apply_configuration-stores t id vs f)
      ]
]

-- A response of 200 to the panel means that the input was prepared and is stored.
put_plugin-stores :
    (s : Settings) (id : Text) (input : Values) (written : Bool)
    → (put_plugin s id input written).1 ≡ 200
    → (p : Plugin) × (vs : Values) × (lookup id s.global_plugins ≡ some p)
      × (prepare_with p (or_empty (lookup id s.plugin_settings)) input ≡ ok vs)
      × (lookup id (put_plugin s id input written).0.plugin_settings ≡ some vs)
unfolding put_plugin
put_plugin-stores s id input written done = elim (Option-cases (lookup id s.global_plugins)) [
  | inl n ↦
      let clash : 400 ≡ 200 = sym (rw (n, put_plugin, prepare_configuration) refl) ∙ done in
      absurd (ground (arith, clash))
  | inr (p, found) ↦ elim (Bool-cases (no_fields p.config)) [
    | inl n ↦
        let clash : 400 ≡ 200 =
          sym (rw (found, n, put_plugin, prepare_configuration) refl) ∙ done in
        absurd (ground (arith, clash))
    | inr n ↦ elim (Result-cases (prepare_with p (or_empty (lookup id s.plugin_settings)) input)) [
      | inr (x, e) ↦
          let clash : 400 ≡ 200 =
            sym (rw (found, n, e, put_plugin, prepare_configuration) refl) ∙ done in
          absurd (ground (arith, clash))
      | inl (vs, e) ↦ elim (Bool-cases written) [
        | inr w ↦
            let clash : 500 ≡ 200 =
              sym (rw (found, n, e, w, put_plugin, prepare_configuration) refl) ∙ done in
            absurd (ground (arith, clash))
        | inl w ↦
            let saved : put_plugin s id input written ≡ save_settings s id vs =
              rw (found, n, e, w, put_plugin, prepare_configuration) refl in
            (
              p,
              vs,
              found,
              e,
              ap (λ (r : Settings × ℕ). lookup id r.0.plugin_settings) saved
                  ∙ save_settings-stores s id vs
                      (ap (λ (r : Settings × ℕ). r.1) (sym saved) ∙ done),
            )
      ]
    ]
  ]
]

keeps-password :
    (v : Option Value) → (v ≡ none) ⊎ (v ≡ some (text [])) → keeps password_field v ≡ true
keeps-password v (inl e) = rw e refl
keeps-password v (inr e) = rw e refl

-- The panel's request for a plugin succeeds, and its input has no value for a password field of the
-- plugin, or an empty one; the plugin's fields have distinct keys. If a text was stored for the field
-- before, the same text is stored after it.
pub put_plugin-password :
    (s : Settings) (id : Text) (input : Values) (p : Plugin) (f : ConfigField) (vs : Values)
    (t : Text)
    → lookup id s.global_plugins ≡ some p
    → HasDistinctFields p.config
    → In f p.config
    → f.type ≡ password_field
    → (lookup f.key input ≡ none) ⊎ (lookup f.key input ≡ some (text []))
    → lookup id s.plugin_settings ≡ some vs
    → lookup f.key vs ≡ some (text t)
    → (put_plugin s id input true).1 ≡ 200
    → (us : Values) × (lookup id (put_plugin s id input true).0.plugin_settings ≡ some us)
      × (lookup f.key us ≡ some (text t))
unfolding field_value check_value
put_plugin-password s id input p f vs t found d there is_password no_input at stored done =
    let (q, us, q_at, prepared, us_at) = put_plugin-stores s id input true done in
    let same_plugin : some q ≡ some p = sym q_at ∙ found in
    let is_p : q ≡ p = cc in
    let prepared_p : prepare_with p vs input ≡ ok us =
      ap (λ (r : Plugin). prepare_with r vs input) (sym is_p)
      ∙ ap (λ (o : Option Values). prepare_with q (or_empty o) input) (sym at)
      ∙ prepared in
    let (v, sound, v_at) = (prepare_with-IsPrepared p vs input us d prepared_p).1 f there in
    let kept : field_value f vs input ≡ text t =
      rw (is_password, keeps-password (lookup f.key input) no_input, stored, field_value) refl in
    let is_v : ok (text t) ≡ ok v = sym (rw (kept, is_password, check_value) refl) ∙ sound in
    (us, us_at, v_at ∙ ap (λ (w : Value). some w) cc)
