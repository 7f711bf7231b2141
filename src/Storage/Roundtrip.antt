-- ===== src/Storage/Roundtrip.antt =====
-- What is written to a store is read back, and nothing else changes.
use polarix_plus.Base.{
  if◌then◌else◌, Text, text_eq, ◌≡◌, refl, sym, ap, ◌∙◌, Bool, true, false, ◌&&◌, Option, none,
  some,
}
use polarix_plus.Storage.{
  same_row, upsert, select, delete_row, Store, StorageError, Storage, validate, row_of, ensure_db,
  result, with_db, set_at, guarded, set_value, delete_value, Got, decoded, got, checked, get_value,
  missing, found,
}
use polarix_plus.Storage.Sql.{Database, IsSql}
use polarix_plus.Storage.Keyed.{sql-IsKeyed, IsKeyed}

module _ {S V : Type 0} (db : Database S) (encode : V → Option Text)
    (decode : Text → Option V) where
  -- an open database with a content
  abbrev pub holding : S → Text → Storage S
  holding s path = record { db = some s; path = path }

  pub guarded-none :
      (o : Option StorageError) (g g' : Storage S) (out : Option StorageError × Storage S)
      → guarded db encode decode o g out ≡ (none, g')
      → out ≡ (none, g')
  guarded-none none g g' out e = e
  guarded-none (some x) g g' out e = cc

  result-none :
      (path : Text) (s : S) (o : Option S) {g' : Storage S}
      → result db encode decode (holding s path) o ≡ (none, g')
      → (s' : S) × (o ≡ some s') × (g' ≡ holding s' path)
  result-none path s none e = cc
  result-none path s (some s') e =
      (s', refl, sym (ap (λ (x : Option StorageError × Storage S). x.1) e))

  -- a change that succeeds on an open database
  pub with_db-none :
      (f : S → Option S) (s : S) (path : Text) {g' : Storage S}
      → with_db db encode decode f (holding s path) ≡ (none, g')
      → (s' : S) × (f s ≡ some s') × (g' ≡ holding s' path)
  unfolding ensure_db
  with_db-none f s path e = result-none path s (f s) e

  pub set_value-none :
      (st : Store) (key t : Text) (v : V) (s : S) (path : Text) {g' : Storage S}
      → encode v ≡ some t
      → set_value db encode decode (some st) key v (holding s path) ≡ (none, g')
      → (s' : S) × (upsert db (row_of st key) t s ≡ some s') × (g' ≡ holding s' path)
  unfolding set_value
  set_value-none st key t v s path {g'} e h =
      let out = guarded-none (validate (some st) key) (holding s path) g' _ h in
      with_db-none (upsert db (row_of st key) t) s path
        (sym (ap (λ o. set_at db encode decode st key o (holding s path)) e) ∙ out)

  get_value_eq :
      (st : Store) (key : Text) (s : S) (path : Text)
      → validate (some st) key ≡ none
      → (get_value db encode decode (some st) key (holding s path)).0
        ≡ got db encode decode (select db (row_of st key) s)
  unfolding get_value ensure_db
  get_value_eq st key s path e =
      ap
        (λ o.
          (checked db encode decode o (holding s path)
            (got db encode decode (select db (row_of st key) s), holding s path)).0)
        e

  got_if :
      (b : Bool) (x y : Option (Option Text))
      → got db encode decode (if b then x else y)
        ≡ (if b then got db encode decode x else got db encode decode y)
  got_if true x y = refl
  got_if false x y = refl

  abbrev value_at : Store → Text → Storage S → Got db encode decode
  value_at st key g = (get_value db encode decode (some st) key g).0

  got_found :
      (v : V) (t : Text) → decode t ≡ some v → got db encode decode (some (some t)) ≡ found v
  unfolding got
  got_found v t e = ap (decoded db encode decode) e

  got_missing : got db encode decode (some none) ≡ missing
  unfolding got
  got_missing = refl

  -- On an open database that runs SQL as SQLite documents it, and with a value that is decoded as it
  -- was encoded: a `Set` that succeeds is read back by `Get` for the same scope, namespace and key,
  -- and what any other valid store and key hold is as before.
  pub get_value-set_value :
      (st q : Store) (key j t : Text) (v : V) (s : S) (path : Text) {g' : Storage S}
      → IsSql db
      → encode v ≡ some t
      → decode t ≡ some v
      → validate (some q) j ≡ none
      → set_value db encode decode (some st) key v (holding s path) ≡ (none, g')
      → (get_value db encode decode (some q) j g').0 ≡ (
          if text_eq st.scope q.scope && (text_eq st.namespace q.namespace && text_eq key j)
          then found v
          else (get_value db encode decode (some q) j (holding s path)).0)
  unfolding same_row
  get_value-set_value st q key j t v s path sql e d ok h =
      let laws = sql-IsKeyed db sql in
      let (s', stored, same) = set_value-none st key t v s path e h in
      let b = same_row (row_of st key) (row_of q j) in
      ap (value_at q j) same
      ∙ (get_value_eq q j s' path ok
          ∙ (ap (got db encode decode)
                (laws.select_upsert (row_of st key) (row_of q j) t s s' stored)
              ∙ (got_if b (some (some t)) (select db (row_of q j) s)
                  ∙ (ap (λ x. if b then x else got db encode decode (select db (row_of q j) s))
                        (got_found v t d)
                      ∙ ap (λ x. if b then found v else x) (sym (get_value_eq q j s path ok))))))

  pub delete_value-none :
      (st : Store) (key : Text) (s : S) (path : Text) {g' : Storage S}
      → delete_value db encode decode (some st) key (holding s path) ≡ (none, g')
      → (s' : S) × (delete_row db (row_of st key) s ≡ some s') × (g' ≡ holding s' path)
  unfolding delete_value
  delete_value-none st key s path {g'} h =
      with_db-none (delete_row db (row_of st key)) s path
        (guarded-none (validate (some st) key) (holding s path) g' _ h)

  -- On a database that keeps rows by their key, a `Delete` that succeeds leaves nothing to read under the key, and what any
  -- other store or key holds is as before.
  pub get_value-delete_value :
      (st q : Store) (key j : Text) (s : S) (path : Text) {g' : Storage S}
      → IsKeyed db
      → validate (some q) j ≡ none
      → delete_value db encode decode (some st) key (holding s path) ≡ (none, g')
      → (get_value db encode decode (some q) j g').0 ≡ (
          if same_row (row_of st key) (row_of q j)
          then missing
          else (get_value db encode decode (some q) j (holding s path)).0)
  get_value-delete_value st q key j s path laws ok h =
      let (s', gone, same) = delete_value-none st key s path h in
      let b = same_row (row_of st key) (row_of q j) in
      ap (value_at q j) same
      ∙ (get_value_eq q j s' path ok
          ∙ (ap (got db encode decode) (laws.select_delete (row_of st key) (row_of q j) s s' gone)
              ∙ (got_if b (some none) (select db (row_of q j) s)
                  ∙ (ap (λ x. if b then x else got db encode decode (select db (row_of q j) s))
                        got_missing
                      ∙ ap (λ x. if b then missing else x) (sym (get_value_eq q j s path ok))))))
