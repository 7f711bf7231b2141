-- ===== src/Storage.antt =====
-- The key-value storage (lib/storage/storage.go) over a database that runs SQL (Storage/Sql). `S` is
-- the content of a database. The locks are left out: each operation is one critical section.
pub mod Sql
pub mod Keyed
pub mod Roundtrip
pub mod Has
pub mod Memory
mod Tests
use polarix_plus.Storage.Sql.{
  scope_column, namespace_column, key_column, value_column, updated_column, argument,
  current_timestamp, excluded, Insert, Where, Database,
}
use polarix_plus.Base.{
  if◌then◌else◌, is_some, Text, codes, text_eq, is_empty, Bool, true, false, not, ◌&&◌, ◌||◌,
  Option, none, some, List, [], ◌∷◌, ◌++◌,
}

-- A namespace of a scope; `none` in place of a store is a nil pointer.
pub record Store : Type 0 where
  pub scope : Text
  pub namespace : Text

abbrev pub global_store : Store
global_store = record { scope = codes "global"; namespace = codes "global" }

abbrev pub plugin_store : Text → Store
plugin_store id = record { scope = codes "plugin"; namespace = id }

abbrev pub command_store : Text → Text → Store
command_store id command_id = record {
  scope = codes "command";
  namespace = id ++ b':' ∷ command_id;
}

abbrev pub user_store : Text → Store
user_store id = record { scope = codes "user"; namespace = id }

abbrev pub group_store : Text → Store
group_store id = record { scope = codes "group"; namespace = id }

-- the primary key of a row
pub record Row : Type 0 where
  pub scope : Text
  pub namespace : Text
  pub key : Text

unfoldable pub same_row : Row → Row → Bool
unfolding text_eq
same_row a b = text_eq a.scope b.scope && (text_eq a.namespace b.namespace && text_eq a.key b.key)

unfoldable pub in_store : Row → Text → Text → Bool
unfolding text_eq
in_store a scope namespace = text_eq a.scope scope && text_eq a.namespace namespace

-- the statement of `Set`
abbrev pub set_statement : Insert
set_statement = record {
  values =
      (scope_column, argument 0)
      ∷ (namespace_column, argument 1)
      ∷ (key_column, argument 2)
      ∷ (value_column, argument 3)
      ∷ (updated_column, current_timestamp)
      ∷ [];
  conflict = scope_column ∷ namespace_column ∷ key_column ∷ [];
  updates = some ((value_column, excluded value_column) ∷ (updated_column, current_timestamp) ∷ []);
}

-- the conditions of `Get`, `Has` and `Delete`, and those of `Clear`
abbrev pub key_where : Where
key_where = (scope_column, 0) ∷ (namespace_column, 1) ∷ (key_column, 2) ∷ []

abbrev pub store_where : Where
store_where = (scope_column, 0) ∷ (namespace_column, 1) ∷ []

abbrev pub key_args : Row → List Text
key_args r = r.scope ∷ r.namespace ∷ r.key ∷ []

-- the statements that the program runs, with their arguments
module _ {S : Type 0} (db : Database S) where
  abbrev pub upsert : Row → Text → S → Option S
  upsert r v s = db.exec_insert set_statement (r.scope ∷ r.namespace ∷ r.key ∷ v ∷ []) s

  abbrev pub select : Row → S → Option (Option Text)
  select r s = db.query_column value_column key_where (key_args r) s

  abbrev pub has_row : Row → S → Option Bool
  has_row r s = db.query_exists key_where (key_args r) s

  abbrev pub delete_row : Row → S → Option S
  delete_row r s = db.exec_delete key_where (key_args r) s

  abbrev pub delete_store : Text → Text → S → Option S
  delete_store scope namespace s = db.exec_delete store_where (scope ∷ namespace ∷ []) s

-- the row asked for; an error of the database is `none`
abbrev pub exists_of : Option (Option Text) → Option Bool
exists_of none = none
exists_of (some row) = some (is_some row)

pub data StorageError : Type 0 where
  invalid_namespace empty_key marshal_error unmarshal_error database_error : StorageError

abbrev default_path : Text
default_path = codes "bot.db"

-- `db` and `dbPath`
pub record Storage (S : Type 0) : Type 0 where
  pub db : Option S
  pub path : Text

abbrev is_bad_store : Option Store → Bool
is_bad_store none = true
is_bad_store (some st) = is_empty st.scope || is_empty st.namespace

-- `validate`
unfoldable pub validate : Option Store → Text → Option StorageError
validate st key =
    if is_bad_store st
    then some invalid_namespace
    else if is_empty key
    then some empty_key
    else none

abbrev pub row_of : Store → Text → Row
row_of st key = record { scope = st.scope; namespace = st.namespace; key = key }

module _ {S V : Type 0} (db : Database S) (encode : V → Option Text)
    (decode : Text → Option V) where
  abbrev pub opened : Text → Option S → Bool × Storage S
  opened path none = (false, record { db = none; path = path })
  opened path (some s) = (true, record { db = some s; path = path })

  ensured : Text → Option S → Bool × Storage S
  ensured path (some s) = (true, record { db = some s; path = path })
  ensured path none =
      let p = if is_empty path then default_path else path in opened p (db.open_path p)

  -- `ensureDB`
  unfoldable pub ensure_db : Storage S → Bool × Storage S
  unfolding ensured
  ensure_db g = ensured g.path g.db

  -- `Open`; closing the previous database succeeds here
  unfoldable pub open_storage : Text → Storage S → Bool × Storage S
  unfolding text_eq
  open_storage path g =
      let p = if is_empty path then default_path else path in
      if is_some g.db && text_eq g.path p then (true, g) else opened p (db.open_path p)

  unfoldable pub close_storage : Storage S → Storage S
  close_storage g = elim g.db [ none ↦ g | some s ↦ record { db = none; path = default_path } ]

  abbrev pub result : Storage S → Option S → Option StorageError × Storage S
  result g none = (some database_error, g)
  result g (some s') = (none, record g { db = some s' })

  -- a change of the content, if the database is open
  abbrev pub changed : (S → Option S) → Storage S → Option S → Option StorageError × Storage S
  changed f g none = (some database_error, g)
  changed f g (some s) = result g (f s)

  abbrev pub with_db : (S → Option S) → Storage S → Option StorageError × Storage S
  with_db f g =
      let e = ensure_db g in if not e.0 then (some database_error, e.1) else changed f e.1 e.1.db

  set_at : Store → Text → Option Text → Storage S → Option StorageError × Storage S
  unfolding ensure_db
  set_at st key none g = (some marshal_error, g)
  set_at st key (some t) g = with_db (upsert db (row_of st key) t) g

  -- the check of the store and the key in front of an operation
  abbrev pub guarded :
      Option StorageError
      → Storage S
      → Option StorageError × Storage S
      → Option StorageError × Storage S
  guarded none g out = out
  guarded (some e) g out = (some e, g)

  -- `Set`, `Delete` and `Clear`, behind the check of the store
  unfoldable pub set_value : Option Store → Text → V → Storage S → Option StorageError × Storage S
  unfolding set_at validate
  set_value none key v g = (some invalid_namespace, g)
  set_value (some st) key v g = guarded (validate (some st) key) g (set_at st key (encode v) g)

  unfoldable pub delete_value : Option Store → Text → Storage S → Option StorageError × Storage S
  unfolding ensure_db validate
  delete_value none key g = (some invalid_namespace, g)
  delete_value (some st) key g =
      guarded (validate (some st) key) g (with_db (delete_row db (row_of st key)) g)

  unfoldable pub clear_store : Option Store → Storage S → Option StorageError × Storage S
  unfolding ensure_db
  clear_store none g = (some invalid_namespace, g)
  clear_store (some st) g =
      if is_bad_store (some st)
      then (some invalid_namespace, g)
      else with_db (delete_store db st.scope st.namespace) g

  -- what `Get` gives: an error, no row, or the value
  pub data Got : Type 0 where
    failed : StorageError → Got
    missing : Got
    found : V → Got

  decoded : Option V → Got
  decoded none = failed unmarshal_error
  decoded (some v) = found v

  -- the row read
  unfoldable pub got : Option (Option Text) → Got
  unfolding decoded
  got none = failed database_error
  got (some none) = missing
  got (some (some t)) = decoded (decode t)

  read_from : Row → Option S → Got
  unfolding got
  read_from r none = failed database_error
  read_from r (some s) = got (select db r s)

  abbrev pub checked : Option StorageError → Storage S → Got × Storage S → Got × Storage S
  checked none g out = out
  checked (some e) g out = (failed e, g)

  -- `Get` with a target that is not nil
  unfoldable pub get_value : Option Store → Text → Storage S → Got × Storage S
  unfolding read_from ensure_db validate
  get_value none key g = (failed invalid_namespace, g)
  get_value (some st) key g =
      checked (validate (some st) key) g
        (let e = ensure_db g in (read_from (row_of st key) e.1.db, e.1))
