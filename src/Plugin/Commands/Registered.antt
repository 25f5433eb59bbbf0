-- ===== src/Plugin/Commands/Registered.antt =====
-- The trees of commands that registration makes.
use polarix.Prelude.{
  ◌≡◌, refl, sym, subst, inl, inr, Bool, true, false, Option, none, some, arith, Bool-cases, Text,
  same,
}
use polarix.Plugin.Commands.{
  Command, Commands, Handle, Info, and_command, command, default_command_handle, find_sub, info,
  no_commands, no_sub_command, or_default, prepare_info, sub_command, sub_command_handle,
  sub_command_handle_func, sub_command_handles,
}

-- Every command of the tree has what subCommandHandle gives it.
abbrev pub IsPrepared : Text → Bool → Info → Type 0
IsPrepared id true i = (i.plugin_id ≡ id) × ((h : Handle) × (i.handle ≡ some h))
IsPrepared id false i =
    (i.plugin_id ≡ id)
    × (i.handle ≡ some sub_command_handle_func)
    × ((h : Handle) × (i.sub_command_fallback ≡ some h))

mutual
  pub data IsRegistered (id : Text) : Command → Type 0 where
    registered :
        {i : Info} {subs : Commands}
        → IsPrepared id (no_sub_command subs) i
        → AreRegistered id subs
        → IsRegistered id (command i subs)

  pub data AreRegistered (id : Text) : Commands → Type 0 where
    none_registered : AreRegistered id no_commands
    and_registered :
        {c : Command} {cs : Commands}
        → IsRegistered id c
        → AreRegistered id cs
        → AreRegistered id (and_command c cs)

or_default-some : (o : Option Handle) → (h : Handle) × (or_default o ≡ some h)
or_default-some none = (default_command_handle, refl)
or_default-some (some h) = (h, refl)

prepare_info-IsPrepared :
    (id : Text) (leaf : Bool) (i : Info) → IsPrepared id leaf (prepare_info id leaf i)
unfolding prepare_info
prepare_info-IsPrepared id true i = (refl, or_default-some i.handle)
prepare_info-IsPrepared id false i = (refl, refl, or_default-some i.handle)

no_sub-handles :
    (id : Text) (subs : Commands)
    → no_sub_command (sub_command_handles id subs) ≡ no_sub_command subs
unfolding sub_command_handle
no_sub-handles id no_commands = refl
no_sub-handles id (and_command c cs) = refl

mutual
  unfolding sub_command_handle

  pub sub_command_handle-IsRegistered :
      (id : Text) (c : Command) → IsRegistered id (sub_command_handle id c)
  sub_command_handle-IsRegistered id (command i subs) =
      registered
        (subst (λ (b : Bool). IsPrepared id b (prepare_info id (no_sub_command subs) i))
          (sym (no_sub-handles id subs)) (prepare_info-IsPrepared id (no_sub_command subs) i))
        (sub_command_handles-AreRegistered id subs)

  sub_command_handles-AreRegistered :
      (id : Text) (cs : Commands) → AreRegistered id (sub_command_handles id cs)
  sub_command_handles-AreRegistered id no_commands = none_registered
  sub_command_handles-AreRegistered id (and_command c cs) =
      and_registered (sub_command_handle-IsRegistered id c)
        (sub_command_handles-AreRegistered id cs)

pub subs-AreRegistered :
    (id : Text) (c : Command) → IsRegistered id c → AreRegistered id (sub_command c)
subs-AreRegistered id (command i subs) (registered at hs) = hs

pub find_sub-IsRegistered :
    (id p : Text) (cs : Commands) (c : Command)
    → AreRegistered id cs
    → find_sub p cs ≡ some c
    → IsRegistered id c
unfolding find_sub
find_sub-IsRegistered id p no_commands c none_registered e = cc
find_sub-IsRegistered id p (and_command d cs) c (and_registered h hs) e =
    elim (Bool-cases (same (info d).prefix p)) [
      | inl f ↦
          let at : d ≡ c = ground (arith, e, f) in subst (λ (x : Command). IsRegistered id x) at h
      | inr f ↦ find_sub-IsRegistered id p cs c hs (ground (arith, e, f))
    ]
