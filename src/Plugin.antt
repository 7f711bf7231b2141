-- ===== src/Plugin.antt =====
-- The plugin registry (lib/plugin): commands, plugins, access rules, and the global variables of
-- register.go as one state. A map is an association list; its order, which Go leaves open, is read
-- only where it does not matter. What a plugin's callbacks do is a parameter.
pub mod Access
pub mod Resolve
pub mod Settings
mod Tests
use polarix_plus.Base.{
  ltb, if◌then◌else◌, Table, insert, length, drop, sort_texts, Text, codes, has_prefix, ℕ, suc, ◌+◌,
  Bool, true, false, ◌&&◌, Option, none, some, List, [], ◌∷◌, map,
}

-- The fields of a command that are not read by the registry: whether `Handle` and `Args` are set, the
-- role, and whether private messages are refused.
pub record Options : Type 0 where
  pub has_handle : Bool
  pub has_args : Bool
  pub role : Text
  pub disable_private : Bool

-- A command with its sub-commands. `children` is left out here: it is `index_of` the sub-commands.
mutual
  pub data Command : Type 0 where
    command : Text → List Text → Text → Options → Commands → Command

  pub data Commands : Type 0 where
    no_commands : Commands
    ◌⨾◌ : Command → Commands → Commands

infixr 40 ◌⨾◌
abbrev pub prefix_of : Command → Text
prefix_of (command p _ _ _ _) = p

abbrev pub aliases_of : Command → List Text
aliases_of (command _ al _ _ _) = al

abbrev pub plugin_of : Command → Text
plugin_of (command _ _ i _ _) = i

abbrev pub options_of : Command → Options
options_of (command _ _ _ h _) = h

abbrev pub subs_of : Command → Commands
subs_of (command _ _ _ _ cs) = cs

-- the fields of a configuration form that the registry reads
pub record ConfigField : Type 0 where
  pub key : Text
  pub is_password : Bool
  pub is_boolean : Bool

pub record Plugin : Type 0 where
  pub id : Text
  pub name : Text
  pub commands : Commands
  pub config : List ConfigField

pub record AccessRule : Type 0 where
  pub mode : Text
  pub users : List Text
  pub groups : List Text

pub record AccessConfig : Type 0 where
  pub default : AccessRule
  pub commands : Table AccessRule
  pub disabled : Bool

-- The zero value of `AccessConfig`, which a missing key of a map gives.
abbrev pub no_access : AccessConfig
no_access = record {
  default = record { mode = []; users = []; groups = [] };
  commands = [];
  disabled = false;
}

-- the snapshot that readers use, `commandIndex`
pub record Index : Type 0 where
  pub commands : Table Command
  pub aliases : Table Command
  pub names : List Text
  pub access : Table AccessConfig

-- The global variables. `disabled` and `index` are atomic values, `none` until they are stored.
pub record Registry : Type 0 where
  pub commands : Table Command
  pub aliases : Table Command
  pub plugins : Table Plugin
  pub access : Table AccessConfig
  pub command_count : ℕ
  pub disabled : Option (Table Bool)
  pub index : Option Index

unfoldable pub new_registry : Registry
new_registry = record {
  commands = [];
  aliases = [];
  plugins = [];
  access = [];
  command_count = 0;
  disabled = none;
  index = none;
}

abbrev pub keys {ℓ} : {V : Type ℓ} → Table V → List Text
keys m = map (λ e. e.0) m

-- `publishRegistryLocked`
unfoldable pub publish : Registry → Registry
unfolding sort_texts
publish r = record r {
  index = some (record {
    commands = r.commands;
    aliases = r.aliases;
    names = sort_texts (keys r.commands);
    access = r.access;
  });
}

-- one prefix of `normalizeName`
abbrev pub strip : Text → Text → Option Text
strip p name =
    if has_prefix p name && ltb (length p) (length name) then some (drop (length p) name) else none

-- the first of the prefixes that can be stripped
unfoldable pub strip_first : List Text → Text → Option Text
unfolding has_prefix
strip_first [] name = none
strip_first (p ∷ ps) name = elim (strip p name) [
  | some rest ↦ some rest
  | none ↦ strip_first ps name
]

abbrev pub or_else {ℓ} : {A : Type ℓ} → Option A → A → A
or_else none a = a
or_else (some b) a = b

unfoldable pub normalize_name : Text → Text
unfolding strip_first
normalize_name name = or_else (strip_first (codes "/" ∷ codes "#" ∷ codes "!" ∷ []) name) name

-- `buildIndex`: the command as it is left
unfoldable mutual
  unfolding normalize_name

  pub build_index : Text → Command → Command
  build_index id (command p al i h cs) = command (normalize_name p) al id h (build_all id cs)

  pub build_all : Text → Commands → Commands
  build_all id no_commands = no_commands
  build_all id (c ⨾ cs) = build_index id c ⨾ build_all id cs

-- how far `buildIndex` raises `commandCount`
unfoldable mutual
  pub count_command : Command → ℕ
  count_command (command p al i h cs) = suc (count_commands cs)

  pub count_commands : Commands → ℕ
  count_commands no_commands = 0
  count_commands (c ⨾ cs) = count_command c + count_commands cs

-- each alias names the command
unfoldable pub add_aliases : List Text → Command → Table Command → Table Command
unfolding normalize_name insert
add_aliases [] c m = m
add_aliases (a ∷ al) c m = add_aliases al c (insert (normalize_name a) c m)

-- the map `children` of a command with these sub-commands
unfoldable pub index_from : Commands → Table Command → Table Command
unfolding add_aliases
index_from no_commands m = m
index_from (c ⨾ cs) m = index_from cs (add_aliases (aliases_of c) c (insert (prefix_of c) c m))

unfoldable pub index_of : Commands → Table Command
unfolding index_from
index_of cs = index_from cs []

-- a root command without a handler gets the default one
abbrev pub with_handle : Command → Command
with_handle (command p al i h cs) = command p al i (record h { has_handle = true }) cs

-- the loop of `Register`
unfoldable pub add_commands : Text → Commands → Registry → Registry
unfolding build_index add_aliases count_command insert
add_commands id no_commands r = r
add_commands id (c ⨾ cs) r =
    let built = build_index id (with_handle c) in
    add_commands id cs (record r {
      commands = insert (prefix_of built) built r.commands;
      aliases = add_aliases (aliases_of built) built r.aliases;
      command_count = r.command_count + count_command c;
    })

-- the commands of a plugin as the loop leaves them, which changes them in place
unfoldable pub built_roots : Text → Commands → Commands
unfolding build_index
built_roots id no_commands = no_commands
built_roots id (c ⨾ cs) = build_index id (with_handle c) ⨾ built_roots id cs

unfoldable pub register : Plugin → Registry → Registry
unfolding add_commands publish built_roots
register p r =
    let built : Plugin = record p { commands = built_roots p.id p.commands } in
    publish (add_commands p.id p.commands (record r { plugins = insert p.id built r.plugins }))
