-- ===== src/Middleware/Permission.antt =====
-- Exactly which messages run a command.
use polarix.Prelude.{
  ◌≡◌, refl, sym, ap, subst, ◌∙◌, ◌↔◌, inl, inr, Bool, true, false, none, some, List, [], arith,
  Bool-cases, Option-cases, Text, is_empty, trim_space, fields,
}
use polarix.Plugin.Commands.{Command, filter_at, first_word, get_command, resolve_command}
use polarix.Plugin.Access.{Plugins}
use polarix.Middleware.{
  Effect, Payload, group_prefix, guard_group, guard_private, ignored, or_else, process_group,
  process_private, runs,
}
use polarix.Middleware.Guards.{
  IsAllowed, IsPrivate, guard_group-allowed, guard_group-runs, guard_private-allowed,
  guard_private-runs,
}

-- What is run: the message's command, the resolved one, its path, the user and the group.
abbrev pub Run : Type 0
Run = Command × Command × Text × Text × Text

abbrev run_of : Run → Effect → Run
run_of d (runs c t q u g) = (c, t, q, u, g)
run_of d _ = d

module _ (parses : Command → Text → Bool) (globals : List (Text × Command)) (s : Plugins)
    (p : Payload) where
  -- The run that the message stands for, with all that allows it.
  abbrev pub IsGroupRun : Run → Type 0
  IsGroupRun (c, t, path, user, group) =
      (get_command globals (group_prefix (filter_at p.content)) ≡ some c)
      × ((t, path) ≡ resolve_command c (filter_at p.content))
      × (user ≡ or_else p.author.member_open_id p.author.union_id)
      × (group ≡ p.group_open_id)
      × (IsAllowed s p.author.role user group c t path × (parses c (filter_at p.content) ≡ true))

  group_missing :
      get_command globals (group_prefix (filter_at p.content)) ≡ none
      → process_group parses globals s p ≡ ignored
  unfolding process_group
  group_missing e = rw (e, process_group) refl

  group_found :
      (c : Command)
      → get_command globals (group_prefix (filter_at p.content)) ≡ some c
      → process_group parses globals s p
        ≡ guard_group parses s
            (filter_at p.content)
            p.author.role
            (or_else p.author.member_open_id p.author.union_id)
            p.group_open_id
            c
            (resolve_command c (filter_at p.content))
  unfolding process_group
  group_found c e = rw (e, process_group) refl

  -- A message in a group runs a command exactly when the command is registered under the message's
  -- prefix, the subcommand and the path are those that ResolveCommand gives, the user has the role of
  -- both, the plugin's rules let the user in at that path, and the parser takes the text.
  pub process_group-runs :
      (c t : Command) (path user group : Text)
      → (process_group parses globals s p ≡ runs c t path user group)
        ↔ IsGroupRun (c, t, path, user, group)
  process_group-runs c t path user group = (
    λ h. elim (Option-cases (get_command globals (group_prefix (filter_at p.content)))) [
      | inl e ↦ let clash : ignored ≡ runs c t path user group = sym (group_missing e) ∙ h in cc
      | inr (cmd, e) ↦
          let content = filter_at p.content in
          let role = p.author.role in
          let u = or_else p.author.member_open_id p.author.union_id in
          let r = resolve_command cmd content in
          let k = sym (group_found cmd e) ∙ h in
          let (allowed, read) =
            guard_group-runs parses s content role u p.group_open_id cmd r.0 c t r.1 path user group
              k in
          let made =
            guard_group-allowed parses s content role u p.group_open_id cmd r.0 r.1 allowed read in
          subst IsGroupRun (ap (run_of (c, t, path, user, group)) (sym made ∙ k))
            (e, refl, refl, refl, (allowed, read))
    ],
    λ (at, resolved, u, g, (allowed, read)).
        let content = filter_at p.content in
        let role = p.author.role in
        let own = or_else p.author.member_open_id p.author.union_id in
        group_found c at
        ∙ ap (guard_group parses s content role own p.group_open_id c) (sym resolved)
        ∙ ap (λ (x : Text). guard_group parses s content role x p.group_open_id c (t, path)) (sym u)
        ∙ ap (λ (y : Text). guard_group parses s content role user y c (t, path)) (sym g)
        ∙ guard_group-allowed parses s content role user group c t path allowed read,
  )

  -- The run that a private message stands for, with all that allows it.
  abbrev pub IsPrivateRun : Run → Type 0
  IsPrivateRun (c, t, path, user, group) =
      (is_empty (trim_space p.content) ≡ false)
      × (get_command globals (first_word (fields (trim_space p.content))) ≡ some c)
      × ((t, path) ≡ resolve_command c (trim_space p.content))
      × (user ≡ p.author.user_open_id)
      × (group ≡ [])
      × (IsAllowed s p.author.role user [] c t path
          × IsPrivate c t
          × (parses c (trim_space p.content) ≡ true))

  private_missing :
      get_command globals (first_word (fields (trim_space p.content))) ≡ none
      → process_private parses globals s p ≡ ignored
  unfolding process_private
  private_missing e = rw (e, get_command) (ground arith)

  private_empty :
      is_empty (trim_space p.content) ≡ true → process_private parses globals s p ≡ ignored
  unfolding process_private
  private_empty e = rw e refl

  private_found :
      (c : Command)
      → is_empty (trim_space p.content) ≡ false
      → get_command globals (first_word (fields (trim_space p.content))) ≡ some c
      → process_private parses globals s p
        ≡ guard_private parses s
            (trim_space p.content)
            p.author.role
            p.author.user_open_id
            c
            (resolve_command c (trim_space p.content))
  unfolding process_private
  private_found c full e = rw (full, e, get_command) refl

  -- A private message runs a command exactly when it is not blank, the command is registered under its
  -- first word, the subcommand and the path are those that ResolveCommand gives, the user has the
  -- role of both, neither is closed to private messages, the plugin's rules let the user in at that
  -- path, and the parser takes the text.
  pub process_private-runs :
      (c t : Command) (path user group : Text)
      → (process_private parses globals s p ≡ runs c t path user group)
        ↔ IsPrivateRun (c, t, path, user, group)
  process_private-runs c t path user group = (
    λ h. elim (Bool-cases (is_empty (trim_space p.content))) [
      | inl blank ↦
          let clash : ignored ≡ runs c t path user group = sym (private_empty blank) ∙ h in cc
      | inr full ↦
          elim (Option-cases (get_command globals (first_word (fields (trim_space p.content))))) [
            | inl e ↦
                let clash : ignored ≡ runs c t path user group = sym (private_missing e) ∙ h in cc
            | inr (cmd, e) ↦
                let content = trim_space p.content in
                let role = p.author.role in
                let u = p.author.user_open_id in
                let r = resolve_command cmd content in
                let k = sym (private_found cmd full e) ∙ h in
                let (allowed, private, read) =
                  guard_private-runs parses s content role u cmd r.0 c t r.1 path user group k in
                let made =
                  guard_private-allowed parses s content role u cmd r.0 r.1 allowed private read in
                subst IsPrivateRun (ap (run_of (c, t, path, user, group)) (sym made ∙ k))
                  (full, e, refl, refl, refl, (allowed, private, read))
          ]
    ],
    λ (full, at, resolved, u, g, (allowed, private, read)).
        let content = trim_space p.content in
        let role = p.author.role in
        private_found c full at
        ∙ ap (guard_private parses s content role p.author.user_open_id c) (sym resolved)
        ∙ ap (λ (x : Text). guard_private parses s content role x c (t, path)) (sym u)
        ∙ guard_private-allowed parses s content role user c t path allowed private read
        ∙ ap (λ (y : Text). runs c t path user y) (sym g),
  )
