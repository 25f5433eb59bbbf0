-- ===== src/Middleware/Guards.antt =====
-- The guards that a message passes before its command runs.
use polarix.Prelude.{
  ◌≡◌, ◌⊎◌, inl, inr, Bool, true, false, [], arith, Bool-cases, Text, same, same_iff,
}
use polarix.Plugin.Commands.{Command, info}
use polarix.Plugin.Access.{Plugins, can_use}
use polarix.Middleware.{guard_group, guard_private, role_can_use, runs}

-- The user has the role of the message's command and of the resolved one, and the plugin's rules
-- let the user in.
abbrev pub IsAllowed : Plugins → Text → Text → Text → Command → Command → Text → Type 0
IsAllowed s role user group cmd target path =
    (role_can_use (info cmd).role role ≡ true)
    × ((path ≡ (info cmd).prefix) ⊎ (role_can_use (info target).role role ≡ true))
    × (can_use s (info cmd).plugin_id path user group ≡ true)

-- Neither command is closed to private messages.
abbrev pub IsPrivate : Command → Command → Type 0
IsPrivate cmd target =
    ((info cmd).disable_private ≡ false) × ((info target).disable_private ≡ false)

module _ (parses : Command → Text → Bool) (s : Plugins) (content role user : Text) where
  pub guard_group-runs :
      (group : Text) (cmd target c t : Command) (path q u g : Text)
      → guard_group parses s content role user group cmd (target, path) ≡ runs c t q u g
      → IsAllowed s role user group cmd target path × (parses cmd content ≡ true)
  unfolding guard_group
  guard_group-runs group cmd target c t path q u g h = (
    (
      ground (arith, h),
      elim (Bool-cases (same path (info cmd).prefix)) [
        | inl e ↦ inl ((same_iff path (info cmd).prefix).0 e)
        | inr e ↦ inr (ground (arith, h, e))
      ],
      ground (arith, h),
    ),
    ground (arith, h),
  )

  pub guard_group-allowed :
      (group : Text) (cmd target : Command) (path : Text)
      → IsAllowed s role user group cmd target path
      → parses cmd content ≡ true
      → guard_group parses s content role user group cmd (target, path)
        ≡ runs cmd target path user group
  unfolding guard_group
  guard_group-allowed group cmd target path (root, inl at, rule) read =
      ground (arith, root, rule, read, (same_iff path (info cmd).prefix).1 at)
  guard_group-allowed group cmd target path (root, inr sub, rule) read =
      ground (arith, root, rule, read, sub)

  pub guard_private-runs :
      (cmd target c t : Command) (path q u g : Text)
      → guard_private parses s content role user cmd (target, path) ≡ runs c t q u g
      → IsAllowed s role user [] cmd target path
        × IsPrivate cmd target
        × (parses cmd content ≡ true)
  unfolding guard_private
  guard_private-runs cmd target c t path q u g h = (
    (
      ground (arith, h),
      elim (Bool-cases (same path (info cmd).prefix)) [
        | inl e ↦ inl ((same_iff path (info cmd).prefix).0 e)
        | inr e ↦ inr (ground (arith, h, e))
      ],
      ground (arith, h),
    ),
    (ground (arith, h), ground (arith, h)),
    ground (arith, h),
  )

  pub guard_private-allowed :
      (cmd target : Command) (path : Text)
      → IsAllowed s role user [] cmd target path
      → IsPrivate cmd target
      → parses cmd content ≡ true
      → guard_private parses s content role user cmd (target, path) ≡ runs cmd target path user []
  unfolding guard_private
  guard_private-allowed cmd target path (root, inl at, rule) (a, b) read =
      ground (arith, root, rule, read, a, b, (same_iff path (info cmd).prefix).1 at)
  guard_private-allowed cmd target path (root, inr sub, rule) (a, b) read =
      ground (arith, root, rule, read, a, b, sub)
