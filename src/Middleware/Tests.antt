-- ===== src/Middleware/Tests.antt =====
-- Runs of the pool, the seed and the dispatch, and each theorem at a concrete input.
use polarix_plus.Base.{
  fields, Text, codes, text_eq, ◌≡◌, refl, true, false, some, List, [], ◌∷◌, ◌++◌,
}
use polarix_plus.Plugin.{
  Options, Command, Registry, new_registry, build_index, register, command, no_commands, ◌⨾◌,
}
use polarix_plus.Plugin.Resolve.{strip_any}
use polarix_plus.Middleware.Pool.{new_pool, Op, run, held, submitted, held-run, go, work, run_one}
use polarix_plus.Middleware.Arguments.{raw_args, usage_text}
use polarix_plus.Middleware.Arguments.Layout.{raw_args-fields}
use polarix_plus.Middleware.Dispatch.{
  Sender, Invocation, dispatch_command, IsAuthorized, dispatch_command-IsAuthorized, denied,
  invoked,
}

abbrev ops : List Op
ops = go 7 ∷ go 8 ∷ work ∷ run_one ∷ []

pool_test : (run ops new_pool).ran ≡ 7 ∷ []
unfolding run new_pool
pool_test = refl

held-run_example : held 7 (run ops new_pool) ≡ submitted 7 ops
held-run_example = held-run 7 ops

abbrev options : Text → Options
options role = record { has_handle = true; has_args = false; role = role; disable_private = false }

abbrev clean_cmd : Command
clean_cmd = command (codes "clean") [] [] (options (codes "owner")) no_commands

abbrev db_cmd : Command
db_cmd = command (codes "db") [] [] (options (codes "admin")) (clean_cmd ⨾ no_commands)

abbrev with_db : Registry
with_db =
    register (record { id = codes "db"; name = []; commands = db_cmd ⨾ no_commands; config = [] })
      new_registry

abbrev ps : List Text
ps = codes "/" ∷ []

abbrev sender : Text → Sender
sender role = record { user = codes "u"; group = codes "g"; role = role; check_private = false }

abbrev db_built : Command
db_built = build_index (codes "db") db_cmd

abbrev clean_built : Command
clean_built = build_index (codes "db") clean_cmd

abbrev clean_call : Invocation
clean_call = record { root = db_built; leaf = clean_built; path = codes "db clean"; rest = [] }

invoked_test :
    dispatch_command ps (sender (codes "owner")) with_db (codes "/db clean") ≡ invoked clean_call
unfolding dispatch_command register new_registry text_eq strip_any
invoked_test = refl

denied_test :
    dispatch_command ps (sender (codes "admin")) with_db (codes "/db clean") ≡ denied clean_built
unfolding dispatch_command register new_registry text_eq strip_any
denied_test = refl

dispatch_command-IsAuthorized_example : IsAuthorized (sender (codes "owner")) with_db clean_call
dispatch_command-IsAuthorized_example =
    dispatch_command-IsAuthorized ps (sender (codes "owner")) with_db (codes "/db clean")
      invoked_test

-- the layout of the arguments is kept
abbrev banner : Text
banner = codes "/db set  two\n words"

raw_args_layout :
    raw_args ps banner (fields banner) (codes "two" ∷ codes "words" ∷ []) (codes "db")
    ≡ some (codes "two\n words")
unfolding raw_args fields
raw_args_layout = refl

raw_args_glued :
    raw_args ps
      (codes "/say你好 x")
      (codes "/say你好" ∷ codes "x" ∷ [])
      (codes "你好" ∷ codes "x" ∷ [])
      (codes "say")
    ≡ some (codes "你好 x")
unfolding raw_args
raw_args_glued = refl

usage_text_quoted :
    usage_text ([] ∷ codes "/" ∷ []) (codes "db set") (codes "expected \"<k> <v>\" here")
    ≡ codes "/db set <k> <v>"
unfolding usage_text
usage_text_quoted = refl

banner-fields :
    fields banner ≡ codes "/db" ∷ ((codes "set" ∷ []) ++ codes "two" ∷ codes "words" ∷ [])
unfolding fields
banner-fields = refl

raw_args-fields_example :
    (t : Text) × (raw_args ps banner (fields banner) (codes "two" ∷ codes "words" ∷ []) (codes "db")
      ≡ some t)
    × (fields t ≡ codes "two" ∷ codes "words" ∷ [])
raw_args-fields_example =
    raw_args-fields ps banner (codes "db") (codes "/db") (codes "set" ∷ [])
      (codes "two" ∷ codes "words" ∷ []) banner-fields
