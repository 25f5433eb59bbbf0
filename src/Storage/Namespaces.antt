-- ===== src/Storage/Namespaces.antt =====
-- The namespaces of the stores that the program opens do not meet.
use polarix.Prelude.{
  ◌≡◌, refl, sym, ap, ◌∙◌, false, Option, some, [], ◌∷◌, ◌++◌, arith, ◌==◌, if◌then◌else◌, Text,
  str, same, contains_byte,
}
use polarix.Storage.{Store, command_store, global, group_store, plugin_store, user_store}

pub data Owner : Type 0 where
  everyone : Owner
  a_plugin : Text → Owner
  a_command : Text → Text → Owner
  a_user : Text → Owner
  a_group : Text → Owner

abbrev pub store_of : Owner → Store
store_of everyone = global
store_of (a_plugin id) = plugin_store id
store_of (a_command id command) = command_store id command
store_of (a_user id) = user_store id
store_of (a_group id) = group_store id

-- The id of a plugin has no colon.
abbrev pub IsPlain : Owner → Type 0
IsPlain (a_command id command) = contains_byte b':' id ≡ false
IsPlain _ = Unit

until_colon : Text → Text
until_colon [] = []
until_colon (c ∷ s) = if c == b':' then [] else c ∷ until_colon s

after_colon : Text → Text
after_colon [] = []
after_colon (c ∷ s) = if c == b':' then s else after_colon s

colon_split :
    (s t : Text)
    → contains_byte b':' s ≡ false
    → (until_colon (s ++ b':' ∷ t) ≡ s) × (after_colon (s ++ b':' ∷ t) ≡ t)
unfolding contains_byte until_colon after_colon
colon_split [] t h = (refl, refl)
colon_split (c ∷ s) t h =
    let (f, g) = colon_split s t (ground (arith, h)) in
    let other : (c == b':') ≡ false = ground (arith, h) in rw other (ap (λ (u : Text). c ∷ u) f, g)

-- Whose a store is.
owner_of : Store → Option Owner
owner_of s =
    if same s.scope (str "global")
    then some everyone
    else if same s.scope (str "plugin")
    then some (a_plugin s.namespace)
    else if same s.scope (str "command")
    then some (a_command (until_colon s.namespace) (after_colon s.namespace))
    else if same s.scope (str "user")
    then some (a_user s.namespace)
    else some (a_group s.namespace)

owner_of-store_of : (o : Owner) → IsPlain o → owner_of (store_of o) ≡ some o
unfolding owner_of same global plugin_store command_store user_store group_store
owner_of-store_of everyone h = refl
owner_of-store_of (a_plugin id) h = refl
owner_of-store_of (a_command id command) h = let (f, g) = colon_split id command h in rw (f, g) refl
owner_of-store_of (a_user id) h = refl
owner_of-store_of (a_group id) h = refl

-- The stores of two owners, be they the program, plugins, commands, users or groups, are the same only
-- if the owners are, provided that the id of a command's plugin has no colon.
pub store_of-injective : (o p : Owner) → IsPlain o → IsPlain p → store_of o ≡ store_of p → o ≡ p
store_of-injective o p h k e =
    let both : some o ≡ some p =
      sym (owner_of-store_of o h) ∙ ap owner_of e ∙ owner_of-store_of p k in
    cc
