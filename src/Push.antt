-- ===== src/Push.antt =====
-- Messages that other programs push through the bot (plugins/push/push.go): the commands that allow
-- it for a chat, the limit on failed attempts, and the HTTP handler. They keep their state in the
-- global store of Storage. gin and the API client are left out: a handler gets what was decoded,
-- and the messages handed to the client are listed.
pub mod Allowed
pub mod Disabled
pub mod Limits
mod Tests
use polarix_plus.Base.{
  ltb, if◌then◌else◌, trim_space, to_lower, Text, codes, text_eq, is_empty, has_text, ℕ, ◌+◌, ◌-◌,
  ◌*◌, ◌^◌, Bool, true, false, not, Option, none, some, List, [], ◌∷◌, ◌++◌, map,
}
use polarix_plus.Storage.Sql.{Database}
use polarix_plus.Storage.{
  global_store, StorageError, Storage, set_value, delete_value, Got, got, get_value, failed,
  missing, found,
}
use polarix_plus.Storage.Has.{has_value}

-- what the plugin keeps: a flag or a key
pub data Stored : Type 0 where
  flag : Bool → Stored
  key_text : Text → Stored

abbrev pub rate_limit_window : ℕ
rate_limit_window = 60 * 10 ^ 9

abbrev pub rate_limit_max : ℕ
rate_limit_max = 20

-- `rateCount` and `rateStart`, the zero time as `none`
pub record Rate : Type 0 where
  pub count : ℕ
  pub start : Option ℕ

abbrev pub is_over : Option ℕ → ℕ → Bool
is_over none now = true
is_over (some start) now = ltb rate_limit_window (now - start)

abbrev pub window : ℕ → Rate → Rate
window now r = if is_over r.start now then record { count = 0; start = some now } else r

-- `pushRateLimited`: whether the limit is exceeded, and the counter
unfoldable pub push_rate_limited : ℕ → Rate → Bool × Rate
push_rate_limited now r =
    let w = window now r in
    (ltb rate_limit_max (w.count + 1), record { count = w.count + 1; start = w.start })

-- where a command was sent
pub data Chat : Type 0 where
  group private other : Chat

pub record Context : Type 0 where
  pub chat : Chat
  pub group_id : Text
  pub user_id : Text

abbrev pub not_empty : Text → Text → Option (Text × Text)
not_empty scope id = if is_empty id then none else some (scope, id)

-- `resolveTarget`
unfoldable pub resolve_target : Context → Option (Text × Text)
resolve_target ctx = elim ctx.chat [
  | group ↦ not_empty (codes "group") ctx.group_id
  | private ↦ not_empty (codes "private") ctx.user_id
  | other ↦ none
]

unfoldable pub enabled_key : Text → Text → Text
enabled_key scope openid = codes "enabled" ++ (b':' ∷ scope ++ (b':' ∷ openid))

abbrev pub store_key_push_key : Text
store_key_push_key = codes "push_key"

-- what a command answers
pub data Reply : Type 0 where
  no_target refused : Reply
  done : Reply
  state_is : Bool → Reply

pub record PushRequest : Type 0 where
  pub key : Text
  pub kind : Text
  pub content : Text

-- a request as gin has decoded it; `none` is a body that cannot be decoded
pub record Http : Type 0 where
  pub scope : Text
  pub openid : Text
  pub header_key : Text
  pub body : Option PushRequest

pub data Payload : Type 0 where
  text_payload markdown_payload : Text → Payload

pub record Sent : Type 0 where
  pub scope : Text
  pub openid : Text
  pub payload : Payload

-- `buildPayload`
unfoldable pub build_payload : Text → Text → Option Payload
unfolding text_eq
build_payload kind content =
    if has_text kind ([] ∷ codes "text" ∷ [])
    then some (text_payload content)
    else if has_text kind (codes "markdown" ∷ codes "md" ∷ [])
    then some (markdown_payload content)
    else none

pub record Push (S : Type 0) : Type 0 where
  pub storage : Storage S
  pub rate : Rate
  pub has_client : Bool
  pub sent : List Sent

-- `HTTPHandle`, from the check of the payload on; `api` tells whether the platform takes a message
unfoldable pub deliver : {S : Type 0} → (Sent → Bool) → Http → Option Payload → Push S → ℕ × Push S
deliver api h none p = (400, p)
deliver api h (some payload) p =
    let m : Sent = record { scope = h.scope; openid = h.openid; payload = payload } in
    (if api m then 200 else 502, record p { sent = p.sent ++ m ∷ [] })

-- from the check whether the chat allows it on
unfoldable pub send_push :
    {S : Type 0} → (Sent → Bool) → Http → PushRequest → Option Bool → Push S → ℕ × Push S
unfolding deliver build_payload trim_space
send_push api h req none p = (500, p)
send_push api h req (some false) p = (403, p)
send_push api h req (some true) p =
    if not p.has_client
    then (500, p)
    else if is_empty (trim_space req.content)
    then (400, p)
    else deliver api h (build_payload (map to_lower req.kind) (trim_space req.content)) p

abbrev pub key_of_request : Http → PushRequest → Text
key_of_request h req = if is_empty h.header_key then req.key else h.header_key

module _ {S : Type 0} (db : Database S) (encode : Stored → Option Text)
    (decode : Text → Option Stored) where
  abbrev replied : Option StorageError × Storage S → Reply × Storage S
  replied (none, g) = (done, g)
  replied (some e, g) = (refused, g)

  abbrev asked : Option Bool × Storage S → Reply × Storage S
  asked (none, g) = (refused, g)
  asked (some b, g) = (state_is b, g)

  abbrev on_target :
      Option (Text × Text) → Storage S → (Text → Reply × Storage S) → Reply × Storage S
  on_target none g f = (no_target, g)
  on_target (some (scope, openid)) g f = f (enabled_key scope openid)

  -- `enablePush`, `disablePush` and `pushStatus`
  unfoldable pub enable_push : Context → Storage S → Reply × Storage S
  unfolding resolve_target enabled_key set_value
  enable_push ctx g =
      on_target (resolve_target ctx) g
        λ key. replied (set_value db encode decode (some global_store) key (flag true) g)

  unfoldable pub disable_push : Context → Storage S → Reply × Storage S
  unfolding resolve_target enabled_key delete_value
  disable_push ctx g =
      on_target (resolve_target ctx) g
        λ key. replied (delete_value db encode decode (some global_store) key g)

  unfoldable pub push_status : Context → Storage S → Reply × Storage S
  unfolding resolve_target enabled_key has_value
  push_status ctx g =
      on_target (resolve_target ctx) g
        λ key. asked (has_value db encode decode (some global_store) key g)

  -- `setPushKey`: of the group, or of the user outside a group
  unfoldable pub set_push_key : Text → Context → Storage S → Reply × Storage S
  unfolding set_value
  set_push_key key ctx g =
      let id = if is_empty ctx.group_id then ctx.user_id else ctx.group_id in
      if is_empty key
      then (refused, g)
      else replied (
          set_value db encode decode (some global_store) (id ++ store_key_push_key) (key_text key)
            g)

  abbrev pub is_key : Text → Got db encode decode → Bool
  is_key provided (failed e) = false
  is_key provided missing = false
  is_key provided (found (flag b)) = false
  is_key provided (found (key_text key)) = text_eq key provided

  -- `verifyPushKey`
  unfoldable pub verify_push_key : Text → Text → Storage S → Bool × Storage S
  unfolding text_eq get_value
  verify_push_key openid provided g =
      let (got, g') =
        get_value db encode decode (some global_store) (openid ++ store_key_push_key) g in
      if is_empty provided then (false, g) else (is_key provided got, g')

  -- from the check of the key on
  unfoldable pub with_key :
      (Sent → Bool) → ℕ → Http → PushRequest → Bool × Storage S → Push S → ℕ × Push S
  unfolding send_push push_rate_limited has_value enabled_key
  with_key api now h req (false, g) p =
      let (limited, rate) = push_rate_limited now p.rate in
      (if limited then 429 else 401, record p { storage = g; rate = rate })
  with_key api now h req (true, g) p =
      let (enabled, g') =
        has_value db encode decode (some global_store) (enabled_key h.scope h.openid) g in
      send_push api h req enabled (record p { storage = g' })

  unfoldable pub with_body : (Sent → Bool) → ℕ → Http → Option PushRequest → Push S → ℕ × Push S
  unfolding with_key verify_push_key
  with_body api now h none p = (400, p)
  with_body api now h (some req) p =
      with_key api now h req (verify_push_key h.openid (key_of_request h req) p.storage) p

  unfoldable pub http_handle : (Sent → Bool) → ℕ → Http → Push S → ℕ × Push S
  unfolding with_body text_eq
  http_handle api now h p =
      if not (has_text h.scope (codes "group" ∷ codes "private" ∷ []))
      then (400, p)
      else if is_empty h.openid
      then (400, p)
      else with_body api now h h.body p
