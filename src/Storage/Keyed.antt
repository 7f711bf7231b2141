-- ===== src/Storage/Keyed.antt =====
-- What the statements of lib/storage/storage.go do: rows are kept by scope, namespace and key.
use polarix_plus.Base.{
  if◌then◌else◌, Bool-cases, any, is_some, Text, text_eq_iff, ◌≡◌, refl, sym, ap, ◌∙◌, inl, inr,
  Bool, true, false, Option, none, some, List, [], ◌∷◌, map, arith,
}
use polarix_plus.Storage.Sql.{
  Where, delete_from, agrees, new_entry, on_conflict, insert_entry, holds, select_column,
  scope_column, namespace_column, key_column, value_column, Database, IsSql, Entry,
}
use polarix_plus.Storage.{
  store_where, same_row, in_store, set_statement, key_where, key_args, upsert, select, has_row,
  delete_row, delete_store, exists_of, Row,
}

-- Setting and deleting rows changes what is read at those rows only.
pub record IsKeyed {S : Type 0} (db : Database S) : Type 0 where
  pub select_upsert :
      (r q : Row) (v : Text) (s s' : S)
      → upsert db r v s ≡ some s'
      → select db q s' ≡ (if same_row r q then some (some v) else select db q s)
  pub select_delete :
      (r q : Row) (s s' : S)
      → delete_row db r s ≡ some s'
      → select db q s' ≡ (if same_row r q then some none else select db q s)
  pub select_clear :
      (scope namespace : Text) (q : Row) (s s' : S)
      → delete_store db scope namespace s ≡ some s'
      → select db q s' ≡ (if in_store q scope namespace then some none else select db q s)
  pub has_select : (r : Row) (s : S) → has_row db r s ≡ exists_of (select db r s)

abbrev found_in : Row → List Entry → Option Text
found_in q rows = select_column value_column key_where (key_args q) rows

abbrev is_at : Row → Entry → Bool
is_at q row = holds key_where (key_args q) row

abbrev set_args : Row → Text → List Text
set_args r v = r.scope ∷ r.namespace ∷ r.key ∷ v ∷ []

abbrev written : Row → Text → Text → Entry
written r v now = new_entry set_statement (set_args r v) now

abbrev is_hit : Row → Text → Text → Entry → Bool
is_hit r v now row = agrees set_statement.conflict (written r v now) row

-- a row that is hit by a key is found at that key only
hit_at :
    (r q : Row) (v now : Text) (row : Entry)
    → is_hit r v now row ≡ true
    → is_at q row ≡ same_row r q
unfolding same_row
hit_at r q v now row h = ground (
  arith,
  text_eq_iff r.scope (row scope_column),
  text_eq_iff r.namespace (row namespace_column),
  text_eq_iff r.key (row key_column),
)

missed_at :
    (r q : Row) (v now : Text) (row : Entry)
    → is_hit r v now row ≡ false
    → same_row r q ≡ true
    → is_at q row ≡ false
unfolding same_row
missed_at r q v now row h e = ground (
  arith,
  text_eq_iff r.scope (row scope_column),
  text_eq_iff r.namespace (row namespace_column),
  text_eq_iff r.key (row key_column),
  text_eq_iff (row scope_column) q.scope,
  text_eq_iff (row namespace_column) q.namespace,
  text_eq_iff (row key_column) q.key,
  text_eq_iff r.scope q.scope,
  text_eq_iff r.namespace q.namespace,
  text_eq_iff r.key q.key,
)

written_at : (r q : Row) (v now : Text) → is_at q (written r v now) ≡ same_row r q
unfolding same_row
written_at r q v now = ground arith

found-updated :
    (r q : Row) (v now : Text) (rows : List Entry)
    → found_in q (map (on_conflict set_statement (set_args r v) now (written r v now)) rows) ≡ (
        if same_row r q
        then (if any (is_hit r v now) rows then some v else none)
        else found_in q rows)
found-updated r q v now [] = ground arith
found-updated r q v now (row ∷ rows) = elim (Bool-cases (is_hit r v now row)) [
  | inl e ↦ rw e (ground (arith, hit_at r q v now row e, found-updated r q v now rows))
  | inr e ↦ rw e (ground (arith, missed_at r q v now row e, found-updated r q v now rows))
]

found-insert :
    (r q : Row) (v now : Text) (rows : List Entry)
    → found_in q (insert_entry set_statement (set_args r v) now rows)
      ≡ (if same_row r q then some v else found_in q rows)
found-insert r q v now rows = elim (Bool-cases (any (is_hit r v now) rows)) [
  | inl e ↦ rw e (ground (arith, e, found-updated r q v now rows))
  | inr e ↦ rw e (ground (arith, written_at r q v now))
]

-- Rows are deleted that agree on the conditions, which the rows at a key do alike.
found-delete :
    (q : Row) (conds : Where) (args : List Text) (b : Bool) (rows : List Entry)
    → ((row : Entry) → is_at q row ≡ true → holds conds args row ≡ b)
    → found_in q (delete_from conds args rows) ≡ (if b then none else found_in q rows)
found-delete q conds args b [] same = ground arith
found-delete q conds args b (row ∷ rows) same =
    ground (arith, same row, found-delete q conds args b rows same)

at-key : (r q : Row) (row : Entry) → is_at q row ≡ true → is_at r row ≡ same_row r q
unfolding same_row
at-key r q row h = ground (
  arith,
  text_eq_iff (row scope_column) q.scope,
  text_eq_iff (row namespace_column) q.namespace,
  text_eq_iff (row key_column) q.key,
  text_eq_iff (row scope_column) r.scope,
  text_eq_iff (row namespace_column) r.namespace,
  text_eq_iff (row key_column) r.key,
  text_eq_iff r.scope q.scope,
  text_eq_iff r.namespace q.namespace,
  text_eq_iff r.key q.key,
)

at-store :
    (scope namespace : Text) (q : Row) (row : Entry)
    → is_at q row ≡ true
    → holds store_where (scope ∷ namespace ∷ []) row ≡ in_store q scope namespace
unfolding in_store
at-store scope namespace q row h =
    ground (
      arith,
      text_eq_iff (row scope_column) q.scope,
      text_eq_iff (row namespace_column) q.namespace,
    )

if_some :
    (b : Bool) (x y : Option Text)
    → ◌≡◌ {A = Option (Option Text)} (some (if b then x else y)) (if b then some x else some y)
if_some true x y = refl
if_some false x y = refl

found_any : (q : Row) (rows : List Entry) → any (is_at q) rows ≡ is_some (found_in q rows)
found_any q [] = refl
found_any q (row ∷ rows) = ground (arith, found_any q rows)

-- The statements of the program on a database that runs SQL.
pub sql-IsKeyed : {S : Type 0} (db : Database S) → IsSql db → IsKeyed db
sql-IsKeyed {S} db laws = record {
  select_upsert = λ r q v s s' e.
      let (now, at) = laws.inserts set_statement (set_args r v) s s' e in
      changed q (same_row r q) (some v) s s'
        (ap (found_in q) at ∙ found-insert r q v now (laws.entries s));
  select_delete = λ r q s s' e. changed q (same_row r q) none s s' (
      ap (found_in q) (laws.deletes key_where (key_args r) s s' e)
      ∙ found-delete q key_where (key_args r) (same_row r q) (laws.entries s) (at-key r q));
  select_clear = λ scope namespace q s s' e. changed q (in_store q scope namespace) none s s' (
      ap (found_in q) (laws.deletes store_where (scope ∷ namespace ∷ []) s s' e)
      ∙ found-delete q store_where (scope ∷ namespace ∷ []) (in_store q scope namespace)
          (laws.entries s) (at-store scope namespace q));
  has_select = λ r s.
      laws.exists key_where (key_args r) s
      ∙ (ap (λ b. some b) (found_any r (laws.entries s))
          ∙ ap exists_of (sym (laws.columns value_column key_where (key_args r) s)));
}
  where
    changed :
        (q : Row) (b : Bool) (x : Option Text) (s s' : S)
        → found_in q (laws.entries s') ≡ (if b then x else found_in q (laws.entries s))
        → select db q s' ≡ (if b then some x else select db q s)
    changed q b x s s' e =
        laws.columns value_column key_where (key_args q) s'
        ∙ (ap (λ o. some o) e
            ∙ (if_some b x (found_in q (laws.entries s))
                ∙ ap (λ o. if b then some x else o)
                    (sym (laws.columns value_column key_where (key_args q) s))))
