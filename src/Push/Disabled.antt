-- ===== src/Push/Disabled.antt =====
-- A chat that does not allow pushing any more (plugins/push/push.go).

use polarix_plus.Base.{
  Text, ℕ, ◌≡◌, refl, sym, ap, ◌∙◌, inl, inr, Bool, true, false, Option, none, some, [], ◌∷◌, ◌++◌,
}
use polarix_plus.Storage.Sql.{Database, IsSql}
use polarix_plus.Storage.Keyed.{sql-IsKeyed}
use polarix_plus.Storage.{
  Storage, StorageError, global_store, validate, ensure_db, get_value, checked, Got, delete_value,
}
use polarix_plus.Storage.Has.{has_value, has_value-delete_value}
use polarix_plus.Storage.Roundtrip.{holding, delete_value-none}
use polarix_plus.Push.{
  Stored, Context, resolve_target, enabled_key, store_key_push_key, Reply, done, Http, Sent, Push,
  key_of_request, replied, on_target, disable_push, verify_push_key, http_handle, done,
}
use polarix_plus.Push.Allowed.{http_handle-Sends}

module _ {S : Type 0} (db : Database S) (encode : Stored → Option Text)
    (decode : Text → Option Stored) where
  -- reading leaves an open storage as it is
  checked_same :
      (o : Option StorageError) (g : Storage S) (x : Got db encode decode)
      → (checked db encode decode o g (x, g)).1 ≡ g
  checked_same none g x = refl
  checked_same (some e) g x = refl

  verify_same :
      (openid provided : Text) (s : S) (path : Text)
      → (verify_push_key db encode decode openid provided (holding db encode decode s path)).1
        ≡ holding db encode decode s path
  unfolding verify_push_key get_value ensure_db
  verify_same openid [] s path = refl
  verify_same openid (c ∷ cs) s path =
      checked_same (validate (some global_store) (openid ++ store_key_push_key))
        (holding db encode decode s path) _

  replied-done :
      (r : Option StorageError × Storage S) {g' : Storage S}
      → replied db encode decode r ≡ (done, g')
      → r ≡ (none, g')
  replied-done (none, g) h = ap (λ (x : Reply × Storage S). (none, x.1)) h
  replied-done (some e, g) h = cc

  valid_key : (scope openid : Text) → validate (some global_store) (enabled_key scope openid) ≡ none
  unfolding validate enabled_key
  valid_key scope openid = refl

  -- Once `disablePush` has succeeded in a chat, on an open database that runs SQL as SQLite documents it, no
  -- push has a message handed to the platform for it, whatever its key and its content.
  pub disable_push-http_handle :
      (ctx : Context) (scope openid : Text) (s : S) (path : Text) (g' : Storage S)
      (api : Sent → Bool) (now : ℕ) (h : Http) (p : Push S)
      → IsSql db
      → resolve_target ctx ≡ some (scope, openid)
      → disable_push db encode decode ctx (holding db encode decode s path) ≡ (done, g')
      → h.scope ≡ scope
      → h.openid ≡ openid
      → p.storage ≡ g'
      → (http_handle db encode decode api now h p).1.sent ≡ p.sent
  unfolding disable_push
  disable_push-http_handle ctx scope openid s path g' api now h p sql target off e f held =
      elim (http_handle-Sends db encode decode api now h p) [
        | inl same ↦ same
        | inr (req, payload, (_, _, _, enabled, _, _, _), _) ↦
            absurd (false_true (sym (not_enabled (key_of_request h req)) ∙ enabled))
      ]
    where
      false_true : ◌≡◌ {A = Option Bool} (some false) (some true) → ⊥
      false_true q = cc

      deleted :
          delete_value db encode decode
            (some global_store)
            (enabled_key scope openid)
            (holding db encode decode s path)
          ≡ (none, g')
      deleted = replied-done _ (
          sym (
            ap
              (λ o. on_target db encode decode o (holding db encode decode s path) (λ key.
                replied db encode decode (
                  delete_value db encode decode (some global_store) key
                    (holding db encode decode s path))))
              target)
          ∙ off)

      not_enabled :
          (provided : Text)
          → (has_value db encode decode
              (some global_store)
              (enabled_key h.scope h.openid)
              (verify_push_key db encode decode h.openid provided p.storage).1).0
            ≡ some false
      not_enabled provided =
          let (s', _, same) =
            delete_value-none db encode decode global_store (enabled_key scope openid) s path
              deleted in
          ap
            (λ g.
              (has_value db encode decode (some global_store) (enabled_key h.scope h.openid)
                (verify_push_key db encode decode h.openid provided g).1).0)
            (held ∙ same)
          ∙ (ap
                (λ g.
                  (has_value db encode decode (some global_store) (enabled_key h.scope h.openid)
                    g).0)
                (verify_same h.openid provided s' path ∙ sym same)
              ∙ (ap (λ k. (has_value db encode decode (some global_store) k g').0)
                    (ap (λ t. enabled_key t h.openid) e ∙ ap (enabled_key scope) f)
                  ∙ has_value-delete_value db encode decode global_store (enabled_key scope openid)
                      s path (sql-IsKeyed db sql) (valid_key scope openid) deleted))
