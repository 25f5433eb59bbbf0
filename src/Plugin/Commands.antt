-- ===== src/Plugin/Commands.antt =====
-- lib/plugin/register.go and lib/plugin/structer.go: the tree of commands, its registration, and the
-- two walks down the tree: ResolveCommand, whose answer the permission checks use, and
-- subCommandHandleFunc, which runs the handler. A handler that a plugin brings is a number.
pub mod Registered
pub mod Walk
pub mod Tests
use polarix.Prelude.{
  ℕ, ◌+◌, ◌-◌, ◌/◌, ◌<◌, Bool, true, false, not, ◌&&◌, ◌||◌, Option, none, some, List, [], ◌∷◌,
  ◌++◌, ltb, if◌then◌else◌, length, In, Text, str, same, fields, split, join, has_prefix, lookup,
  insert,
}

pub data Handle : Type 0 where
  own : ℕ → Handle
  default_command_handle : Handle
  sub_command_handle_func : Handle

-- The fields of Command but its subcommands; the parser is left out.
pub record Info : Type 0 where
  pub prefix : Text
  pub role : Text
  pub disable_private : Bool
  pub handle : Option Handle
  pub permission_denied : Option ℕ
  pub handle_error : Option ℕ
  pub plugin_id : Text
  pub sub_command_fallback : Option Handle

mutual
  pub data Command : Type 0 where
    command : Info → Commands → Command

  pub data Commands : Type 0 where
    no_commands : Commands
    and_command : Command → Commands → Commands

abbrev pub info : Command → Info
info (command i subs) = i

abbrev pub sub_command : Command → Commands
sub_command (command i subs) = subs

abbrev pub no_sub_command : Commands → Bool
no_sub_command no_commands = true
no_sub_command (and_command c cs) = false

abbrev pub or_default : Option Handle → Option Handle
or_default none = some default_command_handle
or_default (some h) = some h

-- subCommandHandle at one command: its subcommands are handled by the caller.
unfoldable pub prepare_info : Text → Bool → Info → Info
prepare_info id leaf i =
    let h = or_default i.handle in
    if leaf then record i { plugin_id = id; handle = h } else record i {
      plugin_id = id;
      handle = some sub_command_handle_func;
      sub_command_fallback = h;
    }

unfoldable mutual
  unfolding prepare_info

  -- subCommandHandle
  pub sub_command_handle : Text → Command → Command
  sub_command_handle id (command i subs) =
      command (prepare_info id (no_sub_command subs) i) (sub_command_handles id subs)

  -- The loop of subCommandHandle over the subcommands.
  pub sub_command_handles : Text → Commands → Commands
  sub_command_handles id no_commands = no_commands
  sub_command_handles id (and_command c cs) =
      and_command (sub_command_handle id c) (sub_command_handles id cs)

-- The loop of Register over a plugin's commands, which fills GlobalCommands. A command without
-- subcommands gets its plugin and its handler there as it would in subCommandHandle.
unfoldable pub register_commands :
    Text → List Command → List (Text × Command) → List (Text × Command)
unfolding sub_command_handle
register_commands id [] globals = globals
register_commands id (c ∷ cs) globals =
    register_commands id cs (insert (info c).prefix (sub_command_handle id c) globals)

-- GetCommand
unfoldable pub get_command : List (Text × Command) → Text → Option Command
get_command globals prefix = lookup prefix globals

-- The first subcommand with the prefix.
unfoldable pub find_sub : Text → Commands → Option Command
find_sub prefix no_commands = none
find_sub prefix (and_command c cs) =
    let rest = find_sub prefix cs in if same (info c).prefix prefix then some c else rest

-- `path + " " + prefix`
abbrev pub extend : Text → Command → Text
extend path c = path ++ (str " " ++ (info c).prefix)

-- The loop of ResolveCommand over the words behind the first.
unfoldable pub resolve_loop : Command → Text → List Text → Command × Text
unfolding find_sub
resolve_loop c path [] = (c, path)
resolve_loop c path (p ∷ ps) = elim (find_sub p (sub_command c)) [
  | none ↦ (c, path)
  | some next ↦ resolve_loop next (extend path next) ps
]

-- utils.NormalizeWhitespace
unfoldable pub normalize_whitespace : Text → Text
normalize_whitespace s = join (str " ") (fields s)

abbrev pub behind_first : List Text → List Text
behind_first [] = []
behind_first (w ∷ ws) = ws

abbrev pub first_word : List Text → Text
first_word [] = []
first_word (w ∷ ws) = w

-- utils.FilterAt
unfoldable pub filter_at : Text → Text
unfolding normalize_whitespace
filter_at raw =
    let text = normalize_whitespace raw in
    let args = split 32 text in
    if ltb (length args) 2
    then text
    else if has_prefix (first_word args) (str "<@") || has_prefix (first_word args) (str "@")
    then join (str " ") (behind_first args)
    else text

-- ResolveCommand
unfoldable pub resolve_command : Command → Text → Command × Text
unfolding resolve_loop filter_at
resolve_command c raw = resolve_loop c (info c).prefix (behind_first (fields (filter_at raw)))

pub data Dispatch : Type 0 where
  returns_nil : Dispatch
  calls : Handle → Text → Text → Dispatch  -- the handler, and the plugin and path of its storage
  panics : Dispatch

abbrev pub call_handle : Command → Text → Dispatch
call_handle c path = elim (info c).handle [
  | none ↦ panics
  | some h ↦ calls h (info c).plugin_id path
]

abbrev pub call_fallback : Command → Text → Dispatch
call_fallback c path = elim (info c).sub_command_fallback [
  | none ↦ returns_nil
  | some h ↦ calls h (info c).plugin_id path
]

abbrev pub is_some : Option Handle → Bool
is_some none = false
is_some (some h) = true

-- The loop of subCommandHandleFunc, in a private chat or not.
unfoldable pub dispatch_loop : Bool → Command → Text → List Text → Dispatch
unfolding find_sub
dispatch_loop private c path [] =
    if not (is_some (info c).handle) || no_sub_command (sub_command c)
    then call_handle c path
    else call_fallback c path
dispatch_loop private c path (p ∷ ps) =
    let next : Dispatch = elim (find_sub p (sub_command c)) [
      | none ↦ call_fallback c path
      | some target ↦
          let rest = dispatch_loop private target (extend path target) ps in
          if private && (info target).disable_private then returns_nil else rest
    ] in
    if not (is_some (info c).handle) || no_sub_command (sub_command c)
    then call_handle c path
    else next

-- subCommandHandleFunc
unfoldable pub sub_command_dispatch : List (Text × Command) → Bool → Text → Dispatch
unfolding get_command dispatch_loop filter_at
sub_command_dispatch globals private raw =
    let args = split 32 (filter_at raw) in
    elim (get_command globals (first_word args)) [
      | none ↦ returns_nil
      | some c ↦ dispatch_loop private c (info c).prefix (behind_first args)
    ]

unfoldable mutual
  -- collectCommandPaths
  pub collect_command_paths : Command → Text → List Text
  collect_command_paths (command i subs) path = path ∷ collect_sub_paths subs path

  -- Its loop over the subcommands.
  pub collect_sub_paths : Commands → Text → List Text
  collect_sub_paths no_commands path = []
  collect_sub_paths (and_command c cs) path =
      collect_command_paths c (extend path c) ++ collect_sub_paths cs path
