-- ===== src/Plugin/Commands/Walk.antt =====
-- The two walks down a tree of registered commands end at the same command.
use polarix.Prelude.{
  ◌≡◌, refl, subst, ◌⊎◌, inl, inr, Bool, true, none, some, List, [], ◌∷◌, arith, if◌then◌else◌,
  Bool-cases, Option-cases, In, In-append_left, In-append_right, Text, same,
}
use polarix.Plugin.Commands.{
  Command, Commands, Dispatch, and_command, call_fallback, call_handle, collect_command_paths,
  collect_sub_paths, command, extend, find_sub, info, no_commands, no_sub_command, resolve_loop,
  returns_nil, sub_command,
}

-- The handler that the plugin gave the command, with the plugin and the path of its storage.
abbrev pub own_call : Command → Text → Dispatch
own_call c path =
    if no_sub_command (sub_command c) then call_handle c path else call_fallback c path

-- The walk of the dispatch runs the command that the other walk resolves, or it runs nothing, which
-- happens only in a private chat.
abbrev pub IsAgreement : Bool → Dispatch → Command × Text → Type 0
IsAgreement private d r = (d ≡ own_call r.0 r.1) ⊎ ((d ≡ returns_nil) × (private ≡ true))

resolve_loop-missing :
    (p : Text) (ps : List Text) (c : Command) (path : Text)
    → find_sub p (sub_command c) ≡ none
    → resolve_loop c path (p ∷ ps) ≡ (c, path)
unfolding resolve_loop
resolve_loop-missing p ps c path e = rw (e, resolve_loop) refl

resolve_loop-found :
    (p : Text) (ps : List Text) (c t : Command) (path : Text)
    → find_sub p (sub_command c) ≡ some t
    → resolve_loop c path (p ∷ ps) ≡ resolve_loop t (extend path t) ps
unfolding resolve_loop
resolve_loop-found p ps c t path e = rw (e, resolve_loop) refl

find_sub-paths :
    (p path q : Text) (cs : Commands) (c : Command)
    → find_sub p cs ≡ some c
    → In q (collect_command_paths c (extend path c))
    → In q (collect_sub_paths cs path)
unfolding find_sub collect_command_paths
find_sub-paths p path q no_commands c e h = cc
find_sub-paths p path q (and_command d ds) c e h = elim (Bool-cases (same (info d).prefix p)) [
  | inl f ↦
      let at : c ≡ d = ground (arith, e, f) in
      In-append_left q _ _
        (subst (λ (x : Command). In q (collect_command_paths x (extend path x))) at h)
  | inr f ↦ In-append_right q _ _ (find_sub-paths p path q ds c (ground (arith, e, f)) h)
]

paths_sub :
    (c : Command) (path q : Text)
    → In q (collect_sub_paths (sub_command c) path)
    → In q (collect_command_paths c path)
unfolding collect_command_paths
paths_sub (command i subs) path q h = inr h

paths_self : (c : Command) (path : Text) → In path (collect_command_paths c path)
unfolding collect_command_paths
paths_self (command i subs) path = inl refl

-- The path that ResolveCommand gives is one of those that collectCommandPaths lists, so an access
-- rule can be written for every path that is checked.
pub resolve_loop-paths :
    (words : List Text) (c : Command) (path : Text)
    → In (resolve_loop c path words).1 (collect_command_paths c path)
unfolding resolve_loop
resolve_loop-paths [] c path = paths_self c path
resolve_loop-paths (p ∷ ps) c path = elim (Option-cases (find_sub p (sub_command c))) [
  | inl e ↦ rw (resolve_loop-missing p ps c path e) (paths_self c path)
  | inr (t, e) ↦ rw (resolve_loop-found p ps c t path e) (
      paths_sub c path _
        (find_sub-paths p path _ (sub_command c) t e (resolve_loop-paths ps t (extend path t))))
]
