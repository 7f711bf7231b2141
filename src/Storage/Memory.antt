-- ===== src/Storage/Memory.antt =====
-- A database in memory, with the laws that the storage (lib/storage/storage.go) relies on.
use polarix_plus.Base.{some_inj, any, Text, codes, refl, sym, some, List, []}
use polarix_plus.Storage.Sql.{
  insert_entry, holds, select_column, delete_from, Entry, Database, IsSql,
}

abbrev pub Rows : Type 0
Rows = List Entry

abbrev pub clock : Text
clock = codes "2026-01-01 00:00:00"

abbrev pub memory : Database Rows
memory = record {
  open_path = λ p. some [];
  exec_insert = λ stmt args s. some (insert_entry stmt args clock s);
  exec_delete = λ conds args s. some (delete_from conds args s);
  query_column = λ c conds args s. some (select_column c conds args s);
  query_exists = λ conds args s. some (any (holds conds args) s);
}

pub memory-IsSql : IsSql memory
memory-IsSql = record {
  entries = λ s. s;
  inserts = λ stmt args s s' e. (clock, sym (some_inj e));
  deletes = λ conds args s s' e. sym (some_inj e);
  columns = λ c conds args s. refl;
  exists = λ conds args s. refl;
}
