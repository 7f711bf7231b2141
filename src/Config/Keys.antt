-- ===== src/Config/Keys.antt =====
-- One key of the core configuration (`applyCoreKey` in lib/config/config.go). The error is `none`.
use polarix_plus.Base.{
  ◌==◌, if◌then◌else◌, ◌>>=◌, Table, sle, Text, codes, text_eq, has_text, ℕ, Bool, Option, none,
  some, List, [], ◌∷◌,
}
use polarix_plus.Config.{AppConfig, clean_strings}

-- `json.Unmarshal` of a raw value into the types that the code asks for: `uint16` has its range
-- checked, `int` is a bit pattern of 64 bits, and null is nil where a list is asked for.
pub record Decoder (J : Type 0) : Type 0 where
  pub text : J → Option Text
  pub uint16 : J → Option ℕ
  pub flag : J → Option Bool
  pub int : J → Option ℕ
  pub texts : J → Option (List Text)
  pub ints : J → Option (Option (List ℕ))

-- the `case`s of the switch
pub data Key : Type 0 where
  port app_id secret proxy database admin_password protocol intents : Key
  global_markdown markdown_verify_image retry_when upload_threshold log_level unknown : Key

abbrev pub key_names : List (Text × Key)
key_names =
    (codes "port", port)
    ∷ (codes "appid", app_id)
    ∷ (codes "secret", secret)
    ∷ (codes "proxy", proxy)
    ∷ (codes "database", database)
    ∷ (codes "admin_password", admin_password)
    ∷ (codes "protocol", protocol)
    ∷ (codes "intents", intents)
    ∷ (codes "global_markdown", global_markdown)
    ∷ (codes "markdown_verify_image", markdown_verify_image)
    ∷ (codes "retry_when", retry_when)
    ∷ (codes "upload_threshold", upload_threshold)
    ∷ (codes "log_level", log_level)
    ∷ []

unfoldable pub find_key : Text → List (Text × Key) → Key
find_key key [] = unknown
find_key key ((name, k) ∷ ks) = if text_eq key name then k else find_key key ks

unfoldable pub key_of : Text → Key
unfolding find_key text_eq
key_of key = find_key key key_names

abbrev pub protocols : List Text
protocols = codes "webhook" ∷ codes "websocket" ∷ []

abbrev pub log_levels : List Text
log_levels = codes "debug" ∷ codes "info" ∷ codes "warn" ∷ codes "error" ∷ []

module _ {J V : Type 0} (json : Decoder J) where
  unfoldable pub apply_key : Key → J → AppConfig V → Option (AppConfig V)
  unfolding text_eq clean_strings
  apply_key port raw cfg = do
    v ← json.uint16 raw
    if v == 0 then none else some (record cfg { port = v })
  apply_key app_id raw cfg = do v ← json.text raw; some (record cfg { app_id = v })
  apply_key secret raw cfg = do v ← json.text raw; some (record cfg { app_secret = v })
  apply_key proxy raw cfg = do v ← json.text raw; some (record cfg { proxy_api = v })
  apply_key database raw cfg = do v ← json.text raw; some (record cfg { database = v })
  apply_key admin_password raw cfg = do v ← json.text raw; some (record cfg { admin_password = v })
  apply_key protocol raw cfg = do
    v ← json.text raw
    if has_text v protocols then some (record cfg { protocol = v }) else none
  apply_key intents raw cfg = do
    v ← json.texts raw
    some (record cfg { intents = some (clean_strings v) })
  apply_key global_markdown raw cfg = do
    v ← json.flag raw
    some (record cfg { global_markdown = v })
  apply_key markdown_verify_image raw cfg = do
    v ← json.flag raw
    some (record cfg { markdown_verify_image = v })
  apply_key retry_when raw cfg = do v ← json.ints raw; some (record cfg { retry_when = v })
  apply_key upload_threshold raw cfg = do
    v ← json.int raw
    if sle v 0 then none else some (record cfg { upload_threshold = v })
  apply_key log_level raw cfg = do
    v ← json.text raw
    if has_text v log_levels then some (record cfg { log_level = v }) else none
  apply_key unknown raw cfg = none

  -- `applyCoreKey`
  unfoldable pub apply_core_key : AppConfig V → Text → J → Option (AppConfig V)
  unfolding key_of apply_key
  apply_core_key cfg key raw = apply_key (key_of key) raw cfg

  -- the loop of `UpdateCore`
  unfoldable pub apply_all : Table J → AppConfig V → Option (AppConfig V)
  unfolding apply_core_key
  apply_all [] cfg = some cfg
  apply_all ((key, raw) ∷ overrides) cfg = apply_core_key cfg key raw >>= apply_all overrides
