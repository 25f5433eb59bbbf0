-- ===== src/Plugin/Managed/Hidden.antt =====
-- The panel's list of plugins, and one entry of it, never show a password.
use polarix.Prelude.{
  ◌≡◌, refl, sym, ap, subst, ◌∙◌, ◌⊎◌, inl, inr, Bool, true, none, some, List, [], ◌∷◌, Bool-cases,
  Option-cases, In, Text, same, same_iff, fields, lookup,
}
use polarix.Plugin.Access.{Plugins, or_zero, text_leb}
use polarix.Plugin.Settings.{
  ConfigField, ConfiguredPlugin, Plugin, Settings, Values, configured_plugins, is_password,
}
use polarix.Plugin.Settings.Values.{flag}
use polarix.Plugin.Settings.Shown.{configured_plugins-hides}
use polarix.Plugin.Managed.{
  ManagedPlugin, base_of, by_id, first_by_id, insert_managed, managed_from, managed_plugin,
  managed_plugin_by_id, managed_plugins,
}

-- What is shown under a password's key is nothing, or a flag.
abbrev pub IsHidden : Values → ConfigField → Type 0
IsHidden vs f = (lookup f.key vs ≡ none) ⊎ ((b : Bool) × (lookup f.key vs ≡ some (flag b)))

by_id-In :
    (id : Text) (cs : List ConfiguredPlugin) (c : ConfiguredPlugin)
    → by_id id cs ≡ some c
    → In c cs × (c.id ≡ id)
unfolding by_id
by_id-In id [] c e = cc
by_id-In id (d ∷ cs) c e = elim (Option-cases (by_id id cs)) [
  | inr (f, g) ↦
      let is_f : some f ≡ some c = sym (rw (g, by_id) refl) ∙ e in
      let (there, same_id) = by_id-In id cs c (g ∙ is_f) in (inr there, same_id)
  | inl g ↦ elim (Bool-cases (same d.id id)) [
    | inl h ↦
        let found_at : some d ≡ some c = sym (rw (g, h, by_id) refl) ∙ e in
        let is_d : c ≡ d = cc in
        (inl is_d, ap (λ (x : ConfiguredPlugin). x.id) is_d ∙ (same_iff d.id id).0 h)
    | inr h ↦ let clash : none ≡ some c = sym (rw (g, h, by_id) refl) ∙ e in cc
  ]
]

In-insert_managed :
    (c d : ManagedPlugin) (ds : List ManagedPlugin) → In c (insert_managed d ds) → (c ≡ d) ⊎ In c ds
unfolding insert_managed
In-insert_managed c d [] there = there
In-insert_managed c d (e ∷ ds) there = elim (Bool-cases (text_leb d.base.id e.base.id)) [
  | inl b ↦ let here : In c (d ∷ e ∷ ds) = rw b at there in here
  | inr b ↦
      let split_at : In c (e ∷ insert_managed d ds) = rw b at there in
      elim split_at [
        | inl is_e ↦ inr (inl is_e)
        | inr below ↦ elim (In-insert_managed c d ds below) [
          | inl is_d ↦ inl is_d
          | inr deeper ↦ inr (inr deeper)
        ]
      ]
]

managed_from-plugin :
    (s : Settings) (a : Plugins) (ps : List (Text × Plugin)) (c : ManagedPlugin)
    → In c (managed_from s a ps)
    → (id : Text) × (p : Plugin) × In (id, p) ps × (c ≡ managed_plugin s a id p)
unfolding managed_from
managed_from-plugin s a [] c there = absurd there
managed_from-plugin s a ((id, p) ∷ ps) c there =
    elim (In-insert_managed c (managed_plugin s a id p) (managed_from s a ps) there) [
      | inl is_p ↦ (id, p, inl refl, is_p)
      | inr below ↦
          let (j, q, q_at, is_q) = managed_from-plugin s a ps c below in (j, q, inr q_at, is_q)
    ]

first_by_id-In :
    (id : Text) (cs : List ManagedPlugin) (c : ManagedPlugin)
    → first_by_id id cs ≡ some c
    → In c cs × (c.base.id ≡ id)
first_by_id-In id [] c e = cc
first_by_id-In id (d ∷ cs) c e = elim (Bool-cases (same d.base.id id)) [
  | inl h ↦
      let found_at : some d ≡ some c = sym (rw (h, first_by_id) refl) ∙ e in
      let is_d : c ≡ d = cc in
      (inl is_d, ap (λ (x : ManagedPlugin). x.base.id) is_d ∙ (same_iff d.base.id id).0 h)
  | inr h ↦
      let rest : first_by_id id cs ≡ some c = sym (rw (h, first_by_id) refl) ∙ e in
      let (there, same_id) = first_by_id-In id cs c rest in (inr there, same_id)
]

-- The base of an entry has the entry's id, and hides the passwords of a plugin with that id.
base_of-hides :
    (s : Settings) (id : Text) (p : Plugin)
    → In (id, p) s.global_plugins
    → let c = base_of id p (by_id id (configured_plugins s)) in
      ((c.id ≡ id)
        × (q : Plugin) × In (id, q) s.global_plugins
        × ((f : ConfigField) → In f q.config → is_password f.type ≡ true → IsHidden c.values f))
unfolding lookup
base_of-hides s id p there = elim (Option-cases (by_id id (configured_plugins s))) [
  | inl e ↦ rw e (refl, p, there, λ f at y. inl refl)
  | inr (c, e) ↦
      let (listed, same_id) = by_id-In id (configured_plugins s) c e in
      let (q, q_at, fields, hidden, others) = configured_plugins-hides s c listed in
      rw e (
        same_id,
        q,
        subst (λ (j : Text). In (j, q) s.global_plugins) same_id q_at,
        λ f at y. inr (hidden f at y),
      )
]

-- The entry that the panel is given for an id has that id and the access rules that are stored for it,
-- and stands for a plugin that is registered under the id. Under the key of a password field of that
-- plugin it has nothing or a flag, never the stored text.
pub managed_plugin_by_id-hides :
    (s : Settings) (a : Plugins) (id : Text) (c : ManagedPlugin)
    → managed_plugin_by_id s a id ≡ some c
    → (c.base.id ≡ id)
      × (c.access ≡ or_zero (lookup id a.plugin_access))
      × ((p : Plugin) × In (id, p) s.global_plugins
          × ((f : ConfigField)
              → In f p.config
              → is_password f.type ≡ true
              → IsHidden c.base.values f))
unfolding managed_plugin_by_id managed_plugins
managed_plugin_by_id-hides s a id c e =
    let (there, same_id) = first_by_id-In id (managed_from s a s.global_plugins) c e in
    let (j, p, p_at, is_c) = managed_from-plugin s a s.global_plugins c there in
    let (base_id, q, q_at, hidden) = base_of-hides s j p p_at in
    let is_id : j ≡ id = sym base_id ∙ ap (λ (d : ManagedPlugin). d.base.id) (sym is_c) ∙ same_id in
    (
      same_id,
      ap (λ (d : ManagedPlugin). d.access) is_c
          ∙ ap (λ (k : Text). or_zero (lookup k a.plugin_access)) is_id,
      (
        q,
        subst (λ (k : Text). In (k, q) s.global_plugins) is_id q_at,
        λ f at y.
            subst (λ (d : ManagedPlugin). IsHidden d.base.values f) (sym is_c) (hidden f at y),
      ),
    )
