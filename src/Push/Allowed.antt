-- ===== src/Push/Allowed.antt =====
-- Which pushes reach a chat (plugins/push/push.go).
use polarix_plus.Base.{
  if◌then◌else◌, trim_space, to_lower, Text, codes, text_eq_iff, is_empty, has_text, ℕ, ◌≡◌, refl,
  ap, ◌⊎◌, inl, inr, Bool, true, false, not, Option, none, some, [], ◌∷◌, ◌++◌, map, arith,
}
use polarix_plus.Storage.Sql.{Database}
use polarix_plus.Storage.{Storage, global_store, Got, get_value, failed, missing, found}
use polarix_plus.Storage.Has.{has_value}
use polarix_plus.Push.{
  send_push, with_key, with_body, http_handle, Stored, flag, key_text, enabled_key,
  store_key_push_key, PushRequest, Http, Payload, Sent, build_payload, Push, is_key,
  verify_push_key, deliver, key_of_request, flag, key_text,
}

module _ {S : Type 0} (db : Database S) (encode : Stored → Option Text)
    (decode : Text → Option Stored) where
  -- The key given is the one that was stored for the chat.
  abbrev pub HasKey : Text → Text → Storage S → Type 0
  HasKey openid provided g =
      (is_empty provided ≡ false)
      × ((get_value db encode decode (some global_store) (openid ++ store_key_push_key) g).0
          ≡ found (key_text provided))

  is_key-found :
      (provided : Text) (o : Got db encode decode)
      → is_key db encode decode provided o ≡ true
      → o ≡ found (key_text provided)
  is_key-found provided (failed e) h = cc
  is_key-found provided missing h = cc
  is_key-found provided (found (flag b)) h = cc
  is_key-found provided (found (key_text key)) h =
      ap (λ k. found (key_text k)) ((text_eq_iff key provided).0 h)

  verify-HasKey :
      (openid provided : Text) (g : Storage S)
      → (verify_push_key db encode decode openid provided g).0 ≡ true
      → HasKey openid provided g
  unfolding verify_push_key
  verify-HasKey openid [] g h = cc
  verify-HasKey openid (c ∷ cs) g h = (refl, is_key-found (c ∷ cs) _ h)

  -- What must hold for a message to be handed to the platform.
  abbrev pub IsAllowed : Http → Push S → PushRequest → Payload → Type 0
  IsAllowed h p req payload =
      (h.body ≡ some req)
      × (has_text h.scope (codes "group" ∷ codes "private" ∷ []) ≡ true)
      × HasKey h.openid (key_of_request h req) p.storage
      × ((has_value db encode decode (some global_store) (enabled_key h.scope h.openid)
            (verify_push_key db encode decode h.openid (key_of_request h req) p.storage).1).0
          ≡ some true)
      × (p.has_client ≡ true)
      × (is_empty (trim_space req.content) ≡ false)
      × (build_payload (map to_lower req.kind) (trim_space req.content) ≡ some payload)

  abbrev pub Sends : Http → Push S → ℕ × Push S → Type 0
  Sends h p r =
      (r.1.sent ≡ p.sent)
      ⊎ ((req : PushRequest) × (payload : Payload) × IsAllowed h p req payload
          × (r.1.sent
              ≡ p.sent ++ record { scope = h.scope; openid = h.openid; payload = payload } ∷ []))

  module _ (api : Sent → Bool) (now : ℕ) (h : Http) (p : Push S) where
    Sends-if :
        (b : Bool) (x y : ℕ × Push S)
        → (b ≡ true → Sends h p x)
        → (b ≡ false → Sends h p y)
        → Sends h p (if b then x else y)
    Sends-if true x y t f = t refl
    Sends-if false x y t f = f refl

    deliver-Sends :
        (req : PushRequest) (q : Push S) (o : Option Payload)
        → q.sent ≡ p.sent
        → ((payload : Payload) → o ≡ some payload → IsAllowed h p req payload)
        → Sends h p (deliver api h o q)
    unfolding deliver
    deliver-Sends req q none e ok = inl e
    deliver-Sends req q (some payload) e ok = inr (
      req,
      payload,
      ok payload refl,
      ap (λ ms. ms ++ record { scope = h.scope; openid = h.openid; payload = payload } ∷ []) e,
    )

    send_push-Sends :
        (req : PushRequest) (q : Push S) (o : Option Bool)
        → q.sent ≡ p.sent
        → ((payload : Payload)
            → o ≡ some true
            → q.has_client ≡ true
            → is_empty (trim_space req.content) ≡ false
            → build_payload (map to_lower req.kind) (trim_space req.content) ≡ some payload
            → IsAllowed h p req payload)
        → Sends h p (send_push api h req o q)
    unfolding send_push
    send_push-Sends req q none e ok = inl e
    send_push-Sends req q (some false) e ok = inl e
    send_push-Sends req q (some true) e ok =
        Sends-if (not q.has_client) _ _ (λ _. inl e)
          λ client.
            Sends-if (is_empty (trim_space req.content)) _ _ (λ _. inl e)
              λ full.
                deliver-Sends req q (build_payload (map to_lower req.kind) (trim_space req.content))
                  e λ payload f. ok payload refl (ground (arith, client)) full f

    with_key-Sends :
        (req : PushRequest) (v : Bool × Storage S)
        → ((payload : Payload)
            → v.0 ≡ true
            → (has_value db encode decode (some global_store) (enabled_key h.scope h.openid) v.1).0
              ≡ some true
            → p.has_client ≡ true
            → is_empty (trim_space req.content) ≡ false
            → build_payload (map to_lower req.kind) (trim_space req.content) ≡ some payload
            → IsAllowed h p req payload)
        → Sends h p (with_key db encode decode api now h req v p)
    unfolding with_key
    with_key-Sends req (false, g) ok = inl refl
    with_key-Sends req (true, g) ok =
        send_push-Sends req _
          (has_value db encode decode (some global_store) (enabled_key h.scope h.openid) g).0 refl
          λ payload enabled. ok payload refl enabled

    -- Only a request that names a group or a private chat, holds the key that was stored for it,
    -- finds pushing allowed there, and has content and a kind that is known, has a message handed to
    -- the platform: its content, trimmed, to that chat, and no other.
    pub http_handle-Sends : Sends h p (http_handle db encode decode api now h p)
    unfolding http_handle with_body
    http_handle-Sends =
        Sends-if (not (has_text h.scope (codes "group" ∷ codes "private" ∷ []))) _ _ (λ _. inl refl)
          λ known.
            Sends-if (is_empty h.openid) _ _ (λ _. inl refl)
              λ _. on_body (not_false _ known) h.body refl
      where
        not_false : (b : Bool) → not b ≡ false → b ≡ true
        not_false true e = refl
        not_false false e = cc

        on_body :
            has_text h.scope (codes "group" ∷ codes "private" ∷ []) ≡ true
            → (o : Option PushRequest) → h.body ≡ o
            → Sends h p (with_body db encode decode api now h o p)
        on_body scope none e = inl refl
        on_body scope (some req) e =
            with_key-Sends req
              (verify_push_key db encode decode h.openid (key_of_request h req) p.storage)
              λ payload good enabled client full built. (
                e,
                scope,
                verify-HasKey h.openid (key_of_request h req) p.storage good,
                enabled,
                client,
                full,
                built,
              )
