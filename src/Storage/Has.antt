-- ===== src/Storage/Has.antt =====
-- `Has` (lib/storage/storage.go), and what it tells after `Set` and `Delete`.
use polarix_plus.Base.{
  if◌then◌else◌, if_true, Text, text_eq_refl, ◌≡◌, refl, ap, ◌∙◌, Bool, true, false, Option, none,
  some,
}
use polarix_plus.Storage.{
  select, has_row, exists_of, same_row, set_value, delete_value, Store, Row, StorageError, Storage,
  validate, row_of, ensure_db,
}
use polarix_plus.Storage.Sql.{Database}
use polarix_plus.Storage.Keyed.{IsKeyed}
use polarix_plus.Storage.Roundtrip.{holding, set_value-none, delete_value-none}

module _ {S V : Type 0} (db : Database S) (encode : V → Option Text)
    (decode : Text → Option V) where
  abbrev pub exists_in : Row → Option S → Option Bool
  exists_in r none = none
  exists_in r (some s) = has_row db r s

  abbrev pub answered :
      Option StorageError → Storage S → Option Bool × Storage S → Option Bool × Storage S
  answered none g out = out
  answered (some e) g out = (none, g)

  -- `Has`; an error is `none`
  unfoldable pub has_value : Option Store → Text → Storage S → Option Bool × Storage S
  unfolding ensure_db validate
  has_value none key g = (none, g)
  has_value (some st) key g =
      answered (validate (some st) key) g
        (let e = ensure_db db encode decode g in (exists_in (row_of st key) e.1.db, e.1))

  has_value_eq :
      (st : Store) (key : Text) (s : S) (path : Text)
      → IsKeyed db
      → validate (some st) key ≡ none
      → (has_value (some st) key (holding db encode decode s path)).0
        ≡ exists_of (select db (row_of st key) s)
  unfolding has_value ensure_db
  has_value_eq st key s path laws e =
      ap
        (λ o.
          (answered o (holding db encode decode s path)
            (has_row db (row_of st key) s, holding db encode decode s path)).0)
        e
      ∙ laws.has_select (row_of st key) s

  same_row_self : (r : Row) → same_row r r ≡ true
  unfolding same_row
  same_row_self r = rw (text_eq_refl r.scope, text_eq_refl r.namespace, text_eq_refl r.key) refl

  exists_after :
      (st : Store) (key : Text) (s' : S) (path : Text) (x y : Option (Option Text)) {g' : Storage S}
      → IsKeyed db
      → validate (some st) key ≡ none
      → select db (row_of st key) s' ≡ (if same_row (row_of st key) (row_of st key) then x else y)
      → g' ≡ holding db encode decode s' path
      → (has_value (some st) key g').0 ≡ exists_of x
  exists_after st key s' path x y laws ok read same =
      ap (λ (g : Storage S). (has_value (some st) key g).0) same
      ∙ (has_value_eq st key s' path laws ok
          ∙ ap exists_of (read ∙ if_true _ x y (same_row_self (row_of st key))))

  -- after a `Set` that succeeds
  pub has_value-set_value :
      (st : Store) (key t : Text) (v : V) (s : S) (path : Text) {g' : Storage S}
      → IsKeyed db
      → validate (some st) key ≡ none
      → encode v ≡ some t
      → set_value db encode decode (some st) key v (holding db encode decode s path) ≡ (none, g')
      → (has_value (some st) key g').0 ≡ some true
  has_value-set_value st key t v s path laws ok e h =
      let (s', stored, same) = set_value-none db encode decode st key t v s path e h in
      exists_after st key s' path (some (some t)) (select db (row_of st key) s) laws ok
        (laws.select_upsert (row_of st key) (row_of st key) t s s' stored) same

  -- after a `Delete` that succeeds
  pub has_value-delete_value :
      (st : Store) (key : Text) (s : S) (path : Text) {g' : Storage S}
      → IsKeyed db
      → validate (some st) key ≡ none
      → delete_value db encode decode (some st) key (holding db encode decode s path) ≡ (none, g')
      → (has_value (some st) key g').0 ≡ some false
  has_value-delete_value st key s path laws ok h =
      let (s', gone, same) = delete_value-none db encode decode st key s path h in
      exists_after st key s' path (some none) (select db (row_of st key) s) laws ok
        (laws.select_delete (row_of st key) (row_of st key) s s' gone) same
