-- ===== src/Plugin/Tests.antt =====
-- Runs of the registry, and each theorem about it at a concrete input.
use polarix_plus.Base.{
  lookup, Text, codes, text_eq, has_text, ◌≡◌, refl, ◌⊎◌, inl, Bool, true, false, none, some, List,
  [], ◌∷◌,
}
use polarix_plus.Plugin.{
  Options, Command, prefix_of, Plugin, AccessConfig, Index, Registry, new_registry, build_index,
  with_handle, register, command, no_commands, ◌⨾◌,
}
use polarix_plus.Plugin.Resolve.Known.{IsIndexed, resolve_path_known}
use polarix_plus.Plugin.Access.{path_set, prepare_access}
use polarix_plus.Plugin.Access.Rules.{IsPrepared, prepare_access-IsPrepared}
use polarix_plus.Plugin.Resolve.{match_name, glued, resolve_root, resolve, normalize_msg}
use polarix_plus.Plugin.Resolve.Walk.{Reached, resolve-Reached}
use polarix_plus.Plugin.Settings.{Settings, prepare_configuration, text}

abbrev options : Bool → Options
options h = record { has_handle = h; has_args = false; role = []; disable_private = false }

abbrev list_cmd : Command
list_cmd = command (codes "list") (codes "ls" ∷ []) [] (options true) no_commands

abbrev echo_cmd : Command
echo_cmd = command (codes "/echo") (codes "#say" ∷ []) [] (options false) (list_cmd ⨾ no_commands)

abbrev echo_plugin : Plugin
echo_plugin = record {
  id = codes "echo";
  name = [];
  commands = echo_cmd ⨾ no_commands;
  config = record { key = codes "token"; is_password = true; is_boolean = false } ∷ [];
}

abbrev with_echo : Registry
with_echo = register echo_plugin new_registry

abbrev ps : List Text
ps = codes "/" ∷ codes "#" ∷ []

abbrev echo_built : Command
echo_built = build_index (codes "echo") (with_handle echo_cmd)

abbrev echo_index : Index
echo_index = record {
  commands = (codes "echo", echo_built) ∷ [];
  aliases = (codes "say", echo_built) ∷ [];
  names = codes "echo" ∷ [];
  access = [];
}

register_test : with_echo.index ≡ some echo_index
unfolding register new_registry text_eq
register_test = refl

count_test : with_echo.command_count ≡ 2
unfolding register new_registry text_eq
count_test = refl

resolve_test :
    (resolve ps echo_built (codes "ls" ∷ codes "all" ∷ [])).1
    ≡ (codes "echo list", codes "all" ∷ [])
unfolding resolve build_index text_eq
resolve_test = refl

match_test : match_name echo_index ps (codes "/say") false ≡ some echo_built
unfolding match_name text_eq
match_test = refl

glued_test : glued echo_index ps (codes "/echoilove") ≡ some (echo_built, codes "ilove")
unfolding glued text_eq
glued_test = refl

resolve_root_test :
    resolve_root echo_index ps (codes "/echoilove" ∷ codes "you" ∷ [])
    ≡ some (echo_built, codes "ilove" ∷ codes "you" ∷ [])
unfolding resolve_root text_eq
resolve_root_test = refl

-- the name "echo" stands in front of the word, but the greatest name below it is another
glued_missed :
    glued (record echo_index { names = codes "echo" ∷ codes "echoes" ∷ [] }) ps (codes "/echoxy")
    ≡ none
unfolding glued text_eq
glued_missed = refl

normalize_msg_test : normalize_msg echo_index ps (codes "#echo  hi") ≡ codes "/echo hi"
unfolding normalize_msg text_eq
normalize_msg_test = refl

abbrev members : AccessConfig
members = record {
  default = record {
    mode = codes " WhiteList ";
    users = codes " u1" ∷ codes "u1" ∷ [];
    groups = [];
  };
  commands =
      (codes "echo list", record { mode = codes "blacklist"; users = codes "u1" ∷ []; groups = [] })
      ∷ (codes "echo", record { mode = []; users = []; groups = [] })
      ∷ [];
  disabled = false;
}

abbrev members_prepared : AccessConfig
members_prepared = record {
  default = record { mode = codes "whitelist"; users = codes "u1" ∷ []; groups = [] };
  commands =
      (codes "echo list", record { mode = codes "blacklist"; users = codes "u1" ∷ []; groups = [] })
      ∷ [];
  disabled = false;
}

prepare_access_test : prepare_access (codes "echo") members with_echo ≡ some members_prepared
unfolding prepare_access register new_registry build_index text_eq
prepare_access_test = refl

prepare_access-IsPrepared_example :
    (p : Plugin) × (lookup (codes "echo") with_echo.plugins ≡ some p)
    × IsPrepared p members members_prepared
prepare_access-IsPrepared_example =
    prepare_access-IsPrepared (codes "echo") members with_echo prepare_access_test

resolve-Reached_example :
    Reached ps echo_built
      (prefix_of echo_built)
      (codes "ls" ∷ codes "all" ∷ [])
      (resolve ps echo_built (codes "ls" ∷ codes "all" ∷ []))
resolve-Reached_example = resolve-Reached ps echo_built (codes "ls" ∷ codes "all" ∷ [])

echo_indexed : lookup (codes "echo") with_echo.commands ≡ some echo_built
unfolding register new_registry text_eq lookup
echo_indexed = refl

resolve_path_known_example :
    IsIndexed echo_built new_registry
    ⊎ ((q : Plugin) × (lookup (codes "echo") with_echo.plugins ≡ some q)
        × (has_text (resolve ps echo_built (codes "ls" ∷ [])).1.0 (path_set q.commands) ≡ true))
resolve_path_known_example =
    resolve_path_known ps echo_plugin new_registry echo_built (codes "ls" ∷ [])
      (codes "echo", inl echo_indexed)

abbrev accepts : Text → Settings → Bool
accepts id s = true

-- a password that is not sent stays
prepare_configuration_test :
    prepare_configuration accepts accepts
      (codes "echo")
      []
      ((codes "echo", (codes "token", text (codes "x")) ∷ []) ∷ [])
      with_echo
    ≡ some ((codes "token", text (codes "x")) ∷ [])
unfolding prepare_configuration register new_registry text_eq
prepare_configuration_test = refl
