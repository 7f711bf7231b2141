-- ===== src/Admin/Settings.antt =====
-- The settings page (lib/admin/config.go): what it shows, and how a patch is checked and stored. The
-- labels and the descriptions of the fields are left out.
pub mod Secrets
pub mod Refusals
use polarix_plus.Base.{
  if◌then◌else◌, ◌>>=◌, Table, insert, atoi, any, all, trim_space, Text, codes, text_eq, is_empty,
  has_text, ℕ, Bool, true, false, not, ◌&&◌, Option, none, some, List, [], ◌∷◌, ◌++◌, map,
}
use polarix_plus.Config.{Plugin, AppConfig}
use polarix_plus.Config.Keys.{log_levels}
use polarix_plus.Config.Persist.{Codec, World, update_core}

pub data Kind : Type 0 where
  text secret number bool intlist select multiselect : Kind

pub data Value : Type 0 where
  no_value : Value
  of_text : Text → Value
  of_number : ℕ → Value
  of_flag : Bool → Value
  of_texts : Option (List Text) → Value
  of_ints : Option (List ℕ) → Value
  of_plugins : List Plugin → Value

pub record CoreField : Type 0 where
  pub key : Text
  pub kind : Kind
  pub options : List Text
  pub hot : Bool
  pub restart : Bool
  pub value : Value
  pub is_set : Bool

abbrev pub spec : Text → Kind → List Text → Bool → CoreField
spec key kind options hot = record {
  key = key;
  kind = kind;
  options = options;
  hot = hot;
  restart = not hot;
  value = no_value;
  is_set = false;
}

-- `IntentEvents`
abbrev pub intent_events : List Text
intent_events =
    codes "GROUP_AT_MESSAGE_CREATE"
    ∷ codes "GROUP_MESSAGE_CREATE"
    ∷ codes "C2C_MESSAGE_CREATE"
    ∷ codes "INTERACTION_CREATE"
    ∷ codes "GROUP_MEMBER_ADD"
    ∷ codes "GROUP_MEMBER_REMOVE"
    ∷ codes "MESSAGE_AUDIT_PASS"
    ∷ codes "MESSAGE_AUDIT_REJECT"
    ∷ []

-- the UTF-8 bytes of the words for "no prefix"
abbrev pub no_prefix : Text
no_prefix = 0xE6 ∷ 0x97 ∷ 0xA0 ∷ 0xE5 ∷ 0x89 ∷ 0x8D ∷ 0xE7 ∷ 0xBC ∷ 0x80 ∷ []

abbrev pub symbols : List Text
symbols = codes "!" ∷ codes "/" ∷ codes "#" ∷ []

-- `coreSpecs`: each key takes effect either at once or after a restart
abbrev pub core_specs : List CoreField
core_specs =
    spec (codes "port") number [] false
    ∷ spec (codes "appid") text [] false
    ∷ spec (codes "secret") secret [] false
    ∷ spec (codes "proxy") text [] false
    ∷ spec (codes "database") text [] false
    ∷ spec (codes "protocol") select (codes "webhook" ∷ codes "websocket" ∷ []) false
    ∷ spec (codes "intents") multiselect intent_events false
    ∷ spec (codes "prefixes") multiselect (symbols ++ no_prefix ∷ []) false
    ∷ spec (codes "admin_password") secret [] true
    ∷ spec (codes "log_level") select log_levels true
    ∷ spec (codes "global_markdown") bool [] true
    ∷ spec (codes "markdown_verify_image") bool [] true
    ∷ spec (codes "retry_when") intlist [] true
    ∷ spec (codes "upload_threshold") number [] true
    ∷ []

-- `displayPrefixes`
unfoldable pub display_prefixes : List Text → List Text
display_prefixes [] = []
display_prefixes (p ∷ ps) = (if is_empty p then no_prefix else p) ∷ display_prefixes ps

abbrev or_nil : Option (List Text) → List Text
or_nil none = []
or_nil (some ss) = ss

module _ {V : Type 0} where
  -- `applyCoreValue`
  unfoldable pub apply_core_value : CoreField → AppConfig V → CoreField
  unfolding text_eq display_prefixes
  apply_core_value f cfg =
      if text_eq f.key (codes "port")
      then record f { value = of_number cfg.port }
      else if text_eq f.key (codes "appid")
      then record f { value = of_text cfg.app_id }
      else if text_eq f.key (codes "secret")
      then record f { value = of_text []; is_set = not (is_empty cfg.app_secret) }
      else if text_eq f.key (codes "proxy")
      then record f { value = of_text cfg.proxy_api }
      else if text_eq f.key (codes "database")
      then record f { value = of_text cfg.database }
      else if text_eq f.key (codes "admin_password")
      then record f { value = of_text []; is_set = not (is_empty cfg.admin_password) }
      else if text_eq f.key (codes "protocol")
      then record f { value = of_text cfg.protocol }
      else if text_eq f.key (codes "intents")
      then record f { value = of_texts cfg.intents }
      else if text_eq f.key (codes "prefixes")
      then record f { value = of_texts (some (display_prefixes (or_nil cfg.prefixes))) }
      else if text_eq f.key (codes "plugins")
      then record f { value = of_plugins cfg.plugins }
      else if text_eq f.key (codes "log_level")
      then record f { value = of_text cfg.log_level }
      else if text_eq f.key (codes "global_markdown")
      then record f { value = of_flag cfg.global_markdown }
      else if text_eq f.key (codes "markdown_verify_image")
      then record f { value = of_flag cfg.markdown_verify_image }
      else if text_eq f.key (codes "retry_when")
      then record f { value = of_ints cfg.retry_when }
      else if text_eq f.key (codes "upload_threshold")
      then record f { value = of_number cfg.upload_threshold }
      else f

  -- `handleGetConfig`
  unfoldable pub handle_get_config : AppConfig V → List CoreField
  unfolding apply_core_value
  handle_get_config cfg = map (λ (f : CoreField). apply_core_value f cfg) core_specs

-- an item of a JSON list: a number as the `int` that it is converted to, a text, or anything else
pub data Item : Type 0 where
  number_item : ℕ → Item
  text_item : Text → Item
  other_item : Item

-- encoding/json on the values of a patch
pub record Raw (J V : Type 0) : Type 0 where
  pub codec : Codec J V
  pub is_null : J → Bool
  pub items : J → Option (List Item)
  pub encode_ints : List ℕ → J
  pub encode_texts : List Text → J

-- `toIntSlice`, on the items
unfoldable pub to_ints : List Item → Option (List ℕ)
unfolding atoi trim_space
to_ints [] = some []
to_ints (number_item n ∷ items) = do ns ← to_ints items; some (n ∷ ns)
to_ints (text_item s ∷ items) = do n ← atoi (trim_space s); ns ← to_ints items; some (n ∷ ns)
to_ints (other_item ∷ items) = none

-- the symbols that are asked for, as they are stored
unfoldable pub to_prefixes : List Text → Option (List Text)
unfolding text_eq
to_prefixes [] = some []
to_prefixes (p ∷ ps) =
    if text_eq p no_prefix
    then (to_prefixes ps >>= λ (out : List Text). some ([] ∷ out))
    else if has_text p symbols
    then (to_prefixes ps >>= λ (out : List Text). some (p ∷ out))
    else none

-- what becomes of one entry of a patch
pub data Checked (J : Type 0) : Type 0 where
  skipped refused : Checked J
  taken : J → Checked J

-- what the loop has gathered
pub record Patch (J : Type 0) : Type 0 where
  pub overrides : Table J
  pub restart_changed : List Text
  pub hot_changed : List Text

abbrev pub no_patch : {J : Type 0} → Patch J
no_patch = record { overrides = []; restart_changed = []; hot_changed = [] }

pub data Effect : Type 0 where
  set_message_options : Bool → Bool → Option (List ℕ) → ℕ → Effect
  set_console_level : Text → Effect

pub record PutAnswer : Type 0 where
  pub status : ℕ
  pub restart_fields : List Text
  pub hot_fields : List Text
  pub effects : List Effect

abbrev pub put_refused : PutAnswer
put_refused = record { status = 400; restart_fields = []; hot_fields = []; effects = [] }

abbrev pub put_empty : PutAnswer
put_empty = record { status = 200; restart_fields = []; hot_fields = []; effects = [] }

unfoldable pub find_spec : Text → List CoreField → Option CoreField
unfolding text_eq
find_spec key [] = none
find_spec key (f ∷ fs) = if text_eq f.key key then some f else find_spec key fs

-- `hasAny`
unfoldable pub has_any : List Text → List Text → Bool
unfolding text_eq
has_any haystack needles = any (λ n. has_text n haystack) needles

abbrev pub is_secret : Kind → Bool
is_secret secret = true
is_secret _ = false

module _ {J V : Type 0} (json : Raw J V) where
  -- an entry of a list of lines, of events or of symbols
  unfoldable pub convert : Text → J → Checked J
  unfolding text_eq to_ints to_prefixes
  convert key raw =
      if text_eq key (codes "retry_when")
      then elim (json.items raw >>= to_ints) [
        | some ns ↦ taken (json.encode_ints ns)
        | none ↦ refused
      ]
      else if text_eq key (codes "intents")
      then elim (json.codec.decode.texts raw) [
        | some events ↦ if all (λ e. has_text e intent_events) events then taken raw else refused
        | none ↦ refused
      ]
      else if text_eq key (codes "prefixes")
      then elim (json.codec.decode.texts raw >>= to_prefixes) [
        | some ps ↦ taken (json.encode_texts ps)
        | none ↦ refused
      ]
      else taken raw

  unfoldable pub check_secret : Text → J → Option Text → Checked J
  unfolding convert
  check_secret key raw none = refused
  check_secret key raw (some v) = if is_empty v then skipped else convert key raw

  unfoldable pub check_entry : Text → J → Option CoreField → Checked J
  unfolding convert check_secret text_eq
  check_entry key raw none = refused
  check_entry key raw (some f) =
      if text_eq key (codes "plugins")
      then refused
      else if json.is_null raw
      then skipped
      else if is_secret f.kind
      then check_secret key raw (json.codec.decode.text raw)
      else convert key raw

  abbrev pub add_if : Bool → Text → List Text → List Text
  add_if b key keys = if b then keys ++ key ∷ [] else keys

  unfoldable pub add : Text → J → Option CoreField → Patch J → Patch J
  unfolding insert
  add key raw none p = p
  add key raw (some f) p = record {
    overrides = insert key raw p.overrides;
    restart_changed = add_if f.restart key p.restart_changed;
    hot_changed = add_if f.hot key p.hot_changed;
  }

  unfoldable pub gathered :
      Text
      → Option CoreField
      → Checked J
      → (Patch J → Option (Patch J))
      → Patch J
      → Option (Patch J)
  unfolding add
  gathered key f skipped rest p = rest p
  gathered key f refused rest p = none
  gathered key f (taken raw) rest p = rest (add key raw f p)

  -- the loop over the entries; `none` is an answer 400
  unfoldable pub gather : Table J → Patch J → Option (Patch J)
  unfolding gathered check_entry find_spec
  gather [] p = some p
  gather ((key, raw) ∷ values) p =
      let f = find_spec key core_specs in gathered key f (check_entry key raw f) (gather values) p

  abbrev pub markdown_keys : List Text
  markdown_keys =
      codes "global_markdown"
      ∷ codes "markdown_verify_image"
      ∷ codes "retry_when"
      ∷ codes "upload_threshold"
      ∷ []

  abbrev pub effects_of : Bool → List Text → AppConfig V → List Effect
  effects_of has_client hot next =
      (if has_client && has_any hot markdown_keys
        then set_message_options next.global_markdown next.markdown_verify_image next.retry_when
            next.upload_threshold
          ∷ []
        else [])
      ++ (if has_any hot (codes "log_level" ∷ [])
          then set_console_level next.log_level ∷ []
          else [])

  unfoldable pub stored : Bool → Patch J → Bool × World J V → PutAnswer × World J V
  unfolding has_any
  stored has_client p (true, w) = (
    record {
      status = 200;
      restart_fields = p.restart_changed;
      hot_fields = p.hot_changed;
      effects = effects_of has_client p.hot_changed w.current;
    },
    w,
  )
  stored has_client p (false, w) = (put_refused, w)

  unfoldable pub put_patch : Bool → World J V → Option (Patch J) → PutAnswer × World J V
  unfolding stored update_core
  put_patch has_client w none = (put_refused, w)
  put_patch has_client w (some p) = elim p.overrides [
    | [] ↦ (put_empty, w)
    | _ ∷ _ ↦ stored has_client p (update_core json.codec p.overrides w)
  ]

  unfoldable pub put_values : Bool → World J V → Option (Table J) → PutAnswer × World J V
  unfolding put_patch gather
  put_values has_client w none = (put_refused, w)
  put_values has_client w (some values) = put_patch has_client w (gather values no_patch)

  -- `handlePutConfig`; `none` is a body that cannot be decoded or has no values
  unfoldable pub handle_put_config : Bool → Option (Table J) → World J V → PutAnswer × World J V
  unfolding put_values
  handle_put_config has_client values w = put_values has_client w values
