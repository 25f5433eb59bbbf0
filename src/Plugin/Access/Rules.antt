-- ===== src/Plugin/Access/Rules.antt =====
-- What cleaning a list of ids and applying a configuration mean for CanUse.
use polarix.Prelude.{
  ◌≡◌, refl, sym, ap, subst, ◌∙◌, inl, inr, Bool, true, false, ◌||◌, List, [], ◌∷◌, map, arith,
  if◌then◌else◌, Bool-cases, Text, same, same_iff, is_empty, trim_space, lookup-insert,
}
use polarix.Plugin.Access.{
  AccessConfig, Plugins, apply_access, can_use, clean_from, clean_ids, contains, effective_rule,
  has_text, insert_sorted, rule_allows, sort_strings,
}

has_text-insert_sorted :
    (t s : Text) (ss : List Text) → has_text t (insert_sorted s ss) ≡ same t s || has_text t ss
unfolding has_text insert_sorted
has_text-insert_sorted t s [] = refl
has_text-insert_sorted t s (r ∷ ss) = ground (arith, has_text-insert_sorted t s ss)

has_text-sort_strings : (t : Text) (ts : List Text) → has_text t (sort_strings ts) ≡ has_text t ts
unfolding has_text sort_strings
has_text-sort_strings t [] = refl
has_text-sort_strings t (s ∷ ss) =
    has_text-insert_sorted t s (sort_strings ss)
    ∙ ap (λ (b : Bool). same t s || b) (has_text-sort_strings t ss)

has_text-clean_from :
    (t : Text) (seen vs : List Text)
    → is_empty t ≡ false
    → has_text t (clean_from seen vs) || has_text t seen
      ≡ has_text t (map trim_space vs) || has_text t seen
unfolding has_text clean_from
has_text-clean_from t seen [] full = refl
has_text-clean_from t seen (v ∷ vs) full = elim (Bool-cases (same t (trim_space v))) [
  | inl e ↦
      let at : t ≡ trim_space v = (same_iff t (trim_space v)).0 e in
      let v_full : is_empty (trim_space v) ≡ false =
        subst (λ (x : Text). is_empty x ≡ false) at full in
      elim (Bool-cases (has_text (trim_space v) seen)) [
        | inl d ↦
            let t_seen : has_text t seen ≡ true =
              subst (λ (x : Text). has_text x seen ≡ true) (sym at) d in
            ground (arith, d, e, v_full, t_seen)
        | inr d ↦ rw (d, v_full, e) refl
      ]
  | inr e ↦ ground (
    arith,
    e,
    has_text-clean_from t seen vs full,
    has_text-clean_from t (trim_space v ∷ seen) vs full,
  )
]

-- Cleaning a list of ids, which trims them, drops the empty ones and repetitions and sorts the rest,
-- does not change who is in it: an id is in the cleaned list exactly when it is not empty and one of
-- the values, trimmed, is the id.
pub contains-clean_ids :
    (values : List Text) (target : Text)
    → contains (clean_ids values) target ≡ contains (map trim_space values) target
unfolding contains clean_ids has_text
contains-clean_ids values target = elim (Bool-cases (is_empty target)) [
  | inl e ↦ rw e refl
  | inr e ↦ rw e (
      has_text-sort_strings target (clean_from [] values)
      ∙ ground (arith, has_text-clean_from target [] values e))
]

-- After a configuration has been applied to a plugin, CanUse decides for that plugin by the rule of
-- the command's path, or else by the default rule, of that configuration; every other plugin is
-- decided as before.
pub can_use-apply_access :
    (s : Plugins) (id other : Text) (a : AccessConfig) (path user group : Text)
    → can_use (apply_access s id a) other path user group ≡ (
        if same id other
        then rule_allows (effective_rule a path) user group
        else can_use s other path user group)
unfolding can_use apply_access
can_use-apply_access s id other a path user group = elim (Bool-cases (same id other)) [
  | inl e ↦ rw (lookup-insert id other a s.plugin_access) (rw e refl)
  | inr e ↦ rw (lookup-insert id other a s.plugin_access) (rw e refl)
]
