-- ===== src/Plugin/Access/Prepared.antt =====
-- What PrepareAccessConfiguration guarantees of a configuration that it accepts.
use polarix.Prelude.{
  ℕ, ◌≡◌, sym, ap, subst, ◌∙◌, ◌≢◌, inl, inr, true, false, some, List, [], ◌∷◌, arith, Bool-cases,
  Option-cases, In, Text, str, same, same_iff, lookup, delete,
}
use polarix.Schedule.Cron.{ok}
use polarix.Schedule.Cron.Fields.{Result-cases}
use polarix.Plugin.Commands.{Command}
use polarix.Plugin.Access.{
  AccessConfig, AccessRule, Plugins, check_rules, command_path_set, has_text, normalize_access,
  normalize_rule, prepare_access, prepare_rules, validate_access_rule,
}

-- A rule that is kept: its path is a command's, and its mode is known and not "off".
abbrev pub IsKept : List Text → Text × AccessRule → Type 0
IsKept valid (path, rule) =
    (has_text path valid ≡ true)
    × (validate_access_rule rule ≡ true)
    × (same rule.mode (str "off") ≡ false)

In-delete :
    (k : Text) (e : Text × AccessRule) (m : List (Text × AccessRule))
    → In e (delete k m)
    → In e m × (e.0 ≢ k)
unfolding delete
In-delete k e [] h = absurd h
In-delete k e ((j, v) ∷ m) h = elim (Bool-cases (same j k)) [
  | inl d ↦ let rest = In-delete k e m (rw d at h) in (inr rest.0, rest.1)
  | inr d ↦
      let place : In e ((j, v) ∷ delete k m) = rw d at h in
      elim place [
        | inl at ↦ (
          inl at,
          λ is_k.
              ground
                (arith, d, (same_iff j k).1 (sym (ap (λ (x : Text × AccessRule). x.0) at) ∙ is_k)),
        )
        | inr there ↦ let rest = In-delete k e m there in (inr rest.0, rest.1)
      ]
]

check_rules-IsKept :
    (valid : List Text) (rs commands out : List (Text × AccessRule))
    → check_rules valid rs commands ≡ ok out
    → (e : Text × AccessRule) → In e out
    → In e commands × (In e rs → IsKept valid e)
unfolding check_rules
check_rules-IsKept valid [] commands out h e at =
    let same_rules : commands ≡ out = ground (arith, h) in
    (
      subst (λ (x : List (Text × AccessRule)). In e x) (sym same_rules) at,
      λ none_left. absurd none_left,
    )
check_rules-IsKept valid ((path, rule) ∷ rs) commands out h e at =
    elim (Bool-cases (has_text path valid)) [
      | inr d ↦ ground (arith, h, d)
      | inl d ↦ elim (Bool-cases (validate_access_rule rule)) [
        | inr v ↦ ground (arith, h, d, v)
        | inl v ↦ elim (Bool-cases (same rule.mode (str "off"))) [
          | inl off ↦
              let rest : check_rules valid rs (delete path commands) ≡ ok out =
                ground (arith, h, d, v, off) in
              let (there, kept) =
                check_rules-IsKept valid rs (delete path commands) out rest e at in
              let (in_commands, ne) = In-delete path e commands there in
              (
                in_commands,
                λ place. elim place [
                  | inl is_path ↦ absurd (ne (ap (λ (x : Text × AccessRule). x.0) is_path))
                  | inr later ↦ kept later
                ],
              )
          | inr on ↦
              let rest : check_rules valid rs commands ≡ ok out = ground (arith, h, d, v, on) in
              let (there, kept) = check_rules-IsKept valid rs commands out rest e at in
              (
                there,
                λ place. elim place [
                  | inl is_rule ↦
                      subst (λ (x : Text × AccessRule). IsKept valid x) (sym is_rule) (d, v, on)
                  | inr later ↦ kept later
                ],
              )
        ]
      ]
    ]

module _ (lower : ℕ → ℕ) where
  prepare_rules-IsKept :
      (cs : List Command) (a b : AccessConfig)
      → prepare_rules lower cs a ≡ ok b
      → (b.default ≡ normalize_rule lower a.default)
        × (validate_access_rule b.default ≡ true)
        × ((e : Text × AccessRule) → In e b.commands → IsKept (command_path_set cs) e)
  unfolding prepare_rules normalize_access
  prepare_rules-IsKept cs a b h =
      let prepared = normalize_access lower a in
      let valid = command_path_set cs in
      elim (Bool-cases (validate_access_rule prepared.default)) [
        | inr bad ↦ ground (arith, h, bad)
        | inl good ↦ elim (Result-cases (check_rules valid prepared.commands prepared.commands)) [
          | inr (x, e) ↦ ground (arith, h, good, e)
          | inl (out, e) ↦
              let made : record prepared { commands = out } ≡ b = ground (arith, h, good, e) in
              (
                sym (ap (λ (c : AccessConfig). c.default) made),
                subst (λ (c : AccessConfig). validate_access_rule c.default ≡ true) made good,
                subst
                    (λ (c : AccessConfig).
                      (r : Text × AccessRule) → In r c.commands → IsKept valid r)
                    made
                    (λ r at.
                      let both =
                        check_rules-IsKept valid prepared.commands prepared.commands out e r at in
                      both.1 both.0),
              )
        ]
      ]

  -- A configuration that PrepareAccessConfiguration accepts is for a registered plugin; its default
  -- rule is the given one, normalized, and has a known mode; and each of its rules is for the path of
  -- one of the plugin's commands and has a known mode that is not off.
  pub prepare_access-IsKept :
      (s : Plugins) (id : Text) (a b : AccessConfig)
      → prepare_access lower s id a ≡ ok b
      → (cs : List Command) × (lookup id s.global_plugins ≡ some cs)
        × (b.default ≡ normalize_rule lower a.default)
        × (validate_access_rule b.default ≡ true)
        × ((e : Text × AccessRule) → In e b.commands → IsKept (command_path_set cs) e)
  unfolding prepare_access
  prepare_access-IsKept s id a b h = elim (Option-cases (lookup id s.global_plugins)) [
    | inl e ↦ ground (arith, h, e)
    | inr (cs, e) ↦
        let accepted : prepare_rules lower cs a ≡ ok b = ground (arith, h, e) in
        let (default_at, mode, rules) = prepare_rules-IsKept cs a b accepted in
        (cs, e, default_at, mode, rules)
  ]
