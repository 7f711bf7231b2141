-- ===== src/Storage/Tests.antt =====
-- The storage over a table in memory, and each theorem about it there.
use polarix_plus.Base.{if◌then◌else◌, Text, codes, text_eq, ◌≡◌, refl, ◌&&◌, Option, none, some, []}
use polarix_plus.Storage.{
  group_store, missing, Store, command_store, user_store, Storage, validate, set_value, get_value,
  found,
}
use polarix_plus.Storage.Memory.{Rows, memory, memory-IsSql}
use polarix_plus.Storage.Roundtrip.{get_value-set_value}

abbrev as_text : Text → Option Text
as_text t = some t

abbrev empty_db : Storage Rows
empty_db = record { db = some []; path = codes "bot.db" }

abbrev us : Store
us = user_store (codes "u")

-- the same key of another user stays
abbrev filled_db : Storage Rows
unfolding set_value
filled_db = (set_value memory as_text as_text (some us) (codes "k") (codes "v") empty_db).1

abbrev again_db : Storage Rows
unfolding set_value
again_db = (set_value memory as_text as_text (some us) (codes "k") (codes "w") filled_db).1

get_again : (get_value memory as_text as_text (some us) (codes "k") again_db).0 ≡ found (codes "w")
unfolding set_value get_value text_eq
get_again = refl

get_other :
    (get_value memory as_text as_text (some (group_store (codes "u"))) (codes "k") again_db).0
    ≡ missing
unfolding set_value get_value text_eq
get_other = refl

get_value-set_value_example :
    (get_value memory as_text as_text (some us) (codes "k") filled_db).0 ≡ (
      if text_eq us.scope us.scope
        && (text_eq us.namespace us.namespace && text_eq (codes "k") (codes "k"))
      then found (codes "v")
      else (get_value memory as_text as_text (some us) (codes "k") empty_db).0)
get_value-set_value_example =
    get_value-set_value memory as_text as_text us us (codes "k") (codes "k") (codes "v") (codes "v")
      [] (codes "bot.db") memory-IsSql refl refl (unfold validate in refl) stored
  where
    stored :
        set_value memory as_text as_text (some us) (codes "k") (codes "v") empty_db
        ≡ (none, filled_db)
    stored = unfold set_value in refl

-- two commands of two plugins share a namespace
shared_namespace : command_store (codes "a:b") (codes "c") ≡ command_store (codes "a") (codes "b:c")
shared_namespace = refl
