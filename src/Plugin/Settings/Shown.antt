-- ===== src/Plugin/Settings/Shown.antt =====
-- What the panel is shown of the settings: never a password.
use polarix.Prelude.{
  ◌≡◌, refl, sym, subst, ◌∙◌, ◌≢◌, ◌⊎◌, inl, inr, Bool, true, some, List, [], ◌∷◌, arith,
  Bool-cases, In, Text, same, same_iff, same_refl, lookup, insert, lookup-insert,
}
use polarix.Plugin.Settings.Values.{flag}
use polarix.Plugin.Settings.{
  ConfigField, ConfiguredPlugin, Plugin, Settings, Values, configured_from, configured_plugin,
  configured_plugins, hide_passwords, insert_by_id, is_configured, is_password, no_fields, or_empty,
  text_leb,
}

-- Where a key holds a flag, the loop leaves a flag there.
hide_passwords-flag :
    (fs : List ConfigField) (vs : Values) (k : Text) (b : Bool)
    → lookup k vs ≡ some (flag b)
    → (c : Bool) × (lookup k (hide_passwords fs vs) ≡ some (flag c))
unfolding hide_passwords
hide_passwords-flag [] vs k b at = (b, at)
hide_passwords-flag (f ∷ fs) vs k b at = elim (Bool-cases (is_password f.type)) [
  | inr n ↦ rw n (hide_passwords-flag fs vs k b at)
  | inl y ↦
      let shown = flag (is_configured (lookup f.key vs)) in
      rw y (elim (Bool-cases (same f.key k)) [
        | inl e ↦
            hide_passwords-flag fs (insert f.key shown vs) k (is_configured (lookup f.key vs))
              (lookup-insert f.key k shown vs ∙ rw e refl)
        | inr e ↦
            hide_passwords-flag fs (insert f.key shown vs) k b
              (lookup-insert f.key k shown vs ∙ rw e at)
      ])
]

hide_passwords-password :
    (fs : List ConfigField) (vs : Values) (f : ConfigField)
    → In f fs
    → is_password f.type ≡ true
    → (c : Bool) × (lookup f.key (hide_passwords fs vs) ≡ some (flag c))
unfolding hide_passwords
hide_passwords-password [] vs f there y = absurd there
hide_passwords-password (g ∷ fs) vs f (inl is_g) y =
    let shown = flag (is_configured (lookup f.key vs)) in
    subst
      (λ (h : ConfigField).
        (c : Bool) × (lookup f.key (hide_passwords (h ∷ fs) vs) ≡ some (flag c)))
      is_g
      (rw y (
        hide_passwords-flag fs (insert f.key shown vs) f.key (is_configured (lookup f.key vs))
          (lookup-insert f.key f.key shown vs ∙ rw (same_refl f.key) refl)))
hide_passwords-password (g ∷ fs) vs f (inr there) y = hide_passwords-password fs _ f there y

-- No password field has the key.
abbrev pub IsOpenKey : Text → List ConfigField → Type 0
IsOpenKey k fs = (f : ConfigField) → In f fs → is_password f.type ≡ true → f.key ≢ k

hide_passwords-others :
    (fs : List ConfigField) (vs : Values) (k : Text)
    → IsOpenKey k fs
    → lookup k (hide_passwords fs vs) ≡ lookup k vs
unfolding hide_passwords
hide_passwords-others [] vs k free = refl
hide_passwords-others (f ∷ fs) vs k free =
    let later = λ (g : ConfigField) (there : In g fs). free g (inr there) in
    elim (Bool-cases (is_password f.type)) [
      | inr n ↦ rw n (hide_passwords-others fs vs k later)
      | inl y ↦
          let shown = flag (is_configured (lookup f.key vs)) in
          rw y (
            hide_passwords-others fs (insert f.key shown vs) k later
            ∙ lookup-insert f.key k shown vs
            ∙ ground (arith, same_iff f.key k, free f (inl refl) y))
    ]

In-insert_by_id :
    (c d : ConfiguredPlugin) (ds : List ConfiguredPlugin)
    → In c (insert_by_id d ds)
    → (c ≡ d) ⊎ In c ds
unfolding insert_by_id
In-insert_by_id c d [] there = there
In-insert_by_id c d (e ∷ ds) there = elim (Bool-cases (text_leb d.id e.id)) [
  | inl b ↦ let here : In c (d ∷ e ∷ ds) = rw b at there in here
  | inr b ↦
      let split_at : In c (e ∷ insert_by_id d ds) = rw b at there in
      elim split_at [
        | inl is_e ↦ inr (inl is_e)
        | inr below ↦ elim (In-insert_by_id c d ds below) [
          | inl is_d ↦ inl is_d
          | inr deeper ↦ inr (inr deeper)
        ]
      ]
]

configured_from-plugin :
    (s : Settings) (ps : List (Text × Plugin)) (c : ConfiguredPlugin)
    → In c (configured_from s ps)
    → (id : Text) × (p : Plugin) × In (id, p) ps × (c ≡ configured_plugin s id p)
unfolding configured_from
configured_from-plugin s [] c there = absurd there
configured_from-plugin s ((id, p) ∷ ps) c there = elim (Bool-cases (no_fields p.config)) [
  | inl n ↦
      let below : In c (configured_from s ps) = rw n at there in
      let (j, q, q_at, is_q) = configured_from-plugin s ps c below in (j, q, inr q_at, is_q)
  | inr n ↦
      let inserted : In c (insert_by_id (configured_plugin s id p) (configured_from s ps)) =
        rw n at there in
      elim (In-insert_by_id c (configured_plugin s id p) (configured_from s ps) inserted) [
        | inl is_p ↦ (id, p, inl refl, is_p)
        | inr below ↦
            let (j, q, q_at, is_q) = configured_from-plugin s ps c below in (j, q, inr q_at, is_q)
      ]
]

-- An entry of the panel's list of plugins stands for a registered plugin. Under the key of a password
-- field it has only a flag, never the stored text; under a key of no password field it has just what
-- is stored for the plugin.
pub configured_plugins-hides :
    (s : Settings) (c : ConfiguredPlugin)
    → In c (configured_plugins s)
    → (p : Plugin) × In (c.id, p) s.global_plugins
      × (c.fields ≡ p.config)
      × ((f : ConfigField)
          → In f p.config
          → is_password f.type ≡ true
          → (b : Bool) × (lookup f.key c.values ≡ some (flag b)))
      × ((k : Text)
          → IsOpenKey k p.config
          → lookup k c.values ≡ lookup k (or_empty (lookup c.id s.plugin_settings)))
unfolding configured_plugins
configured_plugins-hides s c there =
    let (id, p, p_at, is_c) = configured_from-plugin s s.global_plugins c there in
    let stored = or_empty (lookup id s.plugin_settings) in
    subst
      (λ (d : ConfiguredPlugin).
        (q : Plugin) × In (d.id, q) s.global_plugins
        × (d.fields ≡ q.config)
        × ((f : ConfigField)
            → In f q.config
            → is_password f.type ≡ true
            → (b : Bool) × (lookup f.key d.values ≡ some (flag b)))
        × ((k : Text)
            → IsOpenKey k q.config
            → lookup k d.values ≡ lookup k (or_empty (lookup d.id s.plugin_settings))))
      (sym is_c)
      (
        p,
        p_at,
        refl,
        hide_passwords-password p.config stored,
        hide_passwords-others p.config stored,
      )
