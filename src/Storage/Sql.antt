-- ===== src/Storage/Sql.antt =====
-- The part of SQL that lib/storage/storage.go uses, on the table kv_data: a statement, and what the
-- documentation of SQLite says that it does with the rows of the table. Arguments are numbered as they
-- are bound to the question marks of a statement.
use polarix_plus.Base.{
  ◌==◌, if◌then◌else◌, get_elem?, any, keep, Text, text_eq, ℕ, ◌≡◌, Bool, true, not, ◌&&◌, Option,
  none, some, List, [], ◌∷◌, map,
}

pub data Column : Type 0 where
  scope_column namespace_column key_column value_column updated_column : Column

abbrev pub column_id : Column → ℕ
column_id scope_column = 0
column_id namespace_column = 1
column_id key_column = 2
column_id value_column = 3
column_id updated_column = 4

abbrev pub Entry : Type 0
Entry = Column → Text

-- a bound argument, CURRENT_TIMESTAMP, or a column of the row that was to be inserted
pub data Expr : Type 0 where
  argument : ℕ → Expr
  current_timestamp : Expr
  excluded : Column → Expr

-- INSERT INTO kv_data (...) VALUES (...) ON CONFLICT (...) DO UPDATE SET ..., or DO NOTHING
pub record Insert : Type 0 where
  pub values : List (Column × Expr)
  pub conflict : List Column
  pub updates : Option (List (Column × Expr))

-- WHERE column = ? AND ...
abbrev pub Where : Type 0
Where = List (Column × ℕ)

abbrev pub bound : List Text → ℕ → Text
bound args n = elim (get_elem? args n) [ some t ↦ t | none ↦ [] ]

abbrev pub eval : List Text → Text → Entry → Expr → Text
eval args now new (argument n) = bound args n
eval args now new current_timestamp = now
eval args now new (excluded c) = new c

abbrev pub assigned : (Expr → Text) → List (Column × Expr) → Entry → Entry
assigned f [] row = row
assigned f ((c, e) ∷ rest) row =
    λ d. if column_id c == column_id d then f e else assigned f rest row d

abbrev pub agrees : List Column → Entry → Entry → Bool
agrees [] new row = true
agrees (c ∷ cs) new row = text_eq (new c) (row c) && agrees cs new row

abbrev pub new_entry : Insert → List Text → Text → Entry
new_entry stmt args now = assigned (eval args now (λ c. [])) stmt.values (λ c. [])

abbrev pub on_conflict : Insert → List Text → Text → Entry → Entry → Entry
on_conflict stmt args now new row =
    if agrees stmt.conflict new row
    then elim stmt.updates [ some sets ↦ assigned (eval args now new) sets row | none ↦ row ]
    else row

abbrev pub insert_entry : Insert → List Text → Text → List Entry → List Entry
insert_entry stmt args now rows =
    let new = new_entry stmt args now in
    if any (agrees stmt.conflict new) rows
    then map (on_conflict stmt args now new) rows
    else new ∷ rows

abbrev pub holds : Where → List Text → Entry → Bool
holds [] args row = true
holds ((c, n) ∷ cs) args row = text_eq (row c) (bound args n) && holds cs args row

-- SELECT column FROM kv_data WHERE ...
abbrev pub select_column : Column → Where → List Text → List Entry → Option Text
select_column c conds args [] = none
select_column c conds args (row ∷ rows) =
    if holds conds args row then some (row c) else select_column c conds args rows

-- DELETE FROM kv_data WHERE ...
abbrev pub delete_from : Where → List Text → List Entry → List Entry
delete_from conds args rows = keep (λ row. not (holds conds args row)) rows

-- The statements that a database runs. `none` is an error of the database.
pub record Database (S : Type 0) : Type 0 where
  pub open_path : Text → Option S
  pub exec_insert : Insert → List Text → S → Option S
  pub exec_delete : Where → List Text → S → Option S
  pub query_column : Column → Where → List Text → S → Option (Option Text)
  pub query_exists : Where → List Text → S → Option Bool

-- What SQLite documents: a statement that succeeds does to the rows what it says, at some time, and
-- reading an open database tells what the rows are.
pub record IsSql {S : Type 0} (db : Database S) : Type 0 where
  pub entries : S → List Entry
  pub inserts :
      (stmt : Insert) (args : List Text) (s s' : S)
      → db.exec_insert stmt args s ≡ some s'
      → (now : Text) × (entries s' ≡ insert_entry stmt args now (entries s))
  pub deletes :
      (conds : Where) (args : List Text) (s s' : S)
      → db.exec_delete conds args s ≡ some s'
      → entries s' ≡ delete_from conds args (entries s)
  pub columns :
      (c : Column) (conds : Where) (args : List Text) (s : S)
      → db.query_column c conds args s ≡ some (select_column c conds args (entries s))
  pub exists :
      (conds : Where) (args : List Text) (s : S)
      → db.query_exists conds args s ≡ some (any (holds conds args) (entries s))
