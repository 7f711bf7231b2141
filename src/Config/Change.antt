-- ===== src/Config/Change.antt =====
-- A change of the configuration, apart from how it is read (`applyCoreKey` in lib/config/config.go).
use polarix_plus.Base.{
  ◌==◌, if◌then◌else◌, if_false, if_true, Bool-cases, ◌>>=◌, sle, Text, has_text, ℕ, ◌≡◌, refl, ◌≢◌,
  ◌⊎◌, inl, inr, Bool, true, false, Option, none, some, List, arith,
}
use polarix_plus.Config.{AppConfig, clean_strings}
use polarix_plus.Config.Keys.{
  Decoder, Key, protocols, log_levels, apply_key, port, app_id, secret, proxy, database,
  admin_password, protocol, intents, global_markdown, markdown_verify_image, retry_when,
  upload_threshold, log_level, unknown,
}

-- The value that a key is given.
pub data Change : Type 0 where
  set_port : ℕ → Change
  set_app_id set_secret set_proxy set_database set_password set_protocol set_level : Text → Change
  set_intents : List Text → Change
  set_markdown set_verify : Bool → Change
  set_retry : Option (List ℕ) → Change
  set_threshold : ℕ → Change

abbrev pub target : Change → Key
target (set_port v) = port
target (set_app_id v) = app_id
target (set_secret v) = secret
target (set_proxy v) = proxy
target (set_database v) = database
target (set_password v) = admin_password
target (set_protocol v) = protocol
target (set_level v) = log_level
target (set_intents v) = intents
target (set_markdown v) = global_markdown
target (set_verify v) = markdown_verify_image
target (set_retry v) = retry_when
target (set_threshold v) = upload_threshold

-- The values that are accepted.
abbrev pub IsAllowed : Change → Type 0
IsAllowed (set_port v) = v ≢ 0
IsAllowed (set_protocol v) = has_text v protocols ≡ true
IsAllowed (set_level v) = has_text v log_levels ≡ true
IsAllowed (set_threshold v) = sle v 0 ≡ false
IsAllowed _ = Unit

module _ {V : Type 0} where
  unfoldable pub put : Change → AppConfig V → AppConfig V
  put (set_port v) cfg = record cfg { port = v }
  put (set_app_id v) cfg = record cfg { app_id = v }
  put (set_secret v) cfg = record cfg { app_secret = v }
  put (set_proxy v) cfg = record cfg { proxy_api = v }
  put (set_database v) cfg = record cfg { database = v }
  put (set_password v) cfg = record cfg { admin_password = v }
  put (set_protocol v) cfg = record cfg { protocol = v }
  put (set_level v) cfg = record cfg { log_level = v }
  put (set_intents v) cfg = record cfg { intents = some v }
  put (set_markdown v) cfg = record cfg { global_markdown = v }
  put (set_verify v) cfg = record cfg { markdown_verify_image = v }
  put (set_retry v) cfg = record cfg { retry_when = v }
  put (set_threshold v) cfg = record cfg { upload_threshold = v }

  -- `g` refuses every configuration, or makes one allowed change of the part that `key` names.
  abbrev pub Makes : Key → (AppConfig V → Option (AppConfig V)) → Type 0
  Makes key g =
      ((cfg : AppConfig V) → g cfg ≡ none)
      ⊎ ((c : Change) × IsAllowed c
          × (target c ≡ key)
          × ((cfg : AppConfig V) → g cfg ≡ some (put c cfg)))

  module _ {A : Type 0} (f : A → Change) (key : Key) (aims : (v : A) → target (f v) ≡ key) where
    plain :
        (o : Option A)
        → ((v : A) → IsAllowed (f v))
        → Makes key (λ cfg. o >>= λ (v : A). some (put (f v) cfg))
    plain none ok = inl (λ _. refl)
    plain (some v) ok = inr (f v, ok v, aims v, λ _. refl)

    refused :
        (o : Option A) (bad : A → Bool)
        → ((v : A) → bad v ≡ false → IsAllowed (f v))
        → Makes key (λ cfg. o >>= λ (v : A). if bad v then none else some (put (f v) cfg))
    refused none bad ok = inl (λ _. refl)
    refused (some v) bad ok = elim (Bool-cases (bad v)) [
      | inl e ↦ inl (λ cfg. if_true (bad v) none _ e)
      | inr e ↦ inr (f v, ok v e, aims v, λ cfg. if_false (bad v) none _ e)
    ]

    accepted :
        (o : Option A) (good : A → Bool)
        → ((v : A) → good v ≡ true → IsAllowed (f v))
        → Makes key (λ cfg. o >>= λ (v : A). if good v then some (put (f v) cfg) else none)
    accepted none good ok = inl (λ _. refl)
    accepted (some v) good ok = elim (Bool-cases (good v)) [
      | inl e ↦ inr (f v, ok v e, aims v, λ cfg. if_true (good v) _ none e)
      | inr e ↦ inl (λ cfg. if_false (good v) _ none e)
    ]

  -- A key is refused whatever the configuration, or makes one allowed change of its own part.
  pub apply_key-Made :
      {J : Type 0} (json : Decoder J) (key : Key) (raw : J) → Makes key (apply_key json key raw)
  unfolding apply_key put
  apply_key-Made json port raw =
      refused set_port port (λ v. refl) (json.uint16 raw) (λ v. v == 0) (λ v e. ground arith)
  apply_key-Made json app_id raw = plain set_app_id app_id (λ v. refl) (json.text raw) (λ v. tt)
  apply_key-Made json secret raw = plain set_secret secret (λ v. refl) (json.text raw) (λ v. tt)
  apply_key-Made json proxy raw = plain set_proxy proxy (λ v. refl) (json.text raw) (λ v. tt)
  apply_key-Made json database raw =
      plain set_database database (λ v. refl) (json.text raw) (λ v. tt)
  apply_key-Made json admin_password raw =
      plain set_password admin_password (λ v. refl) (json.text raw) (λ v. tt)
  apply_key-Made json protocol raw =
      accepted set_protocol protocol (λ v. refl) (json.text raw) (λ v. has_text v protocols)
        (λ v e. e)
  apply_key-Made json intents raw =
      plain (λ v. set_intents (clean_strings v)) intents (λ v. refl) (json.texts raw) (λ v. tt)
  apply_key-Made json global_markdown raw =
      plain set_markdown global_markdown (λ v. refl) (json.flag raw) (λ v. tt)
  apply_key-Made json markdown_verify_image raw =
      plain set_verify markdown_verify_image (λ v. refl) (json.flag raw) (λ v. tt)
  apply_key-Made json retry_when raw =
      plain set_retry retry_when (λ v. refl) (json.ints raw) (λ v. tt)
  apply_key-Made json upload_threshold raw =
      refused set_threshold upload_threshold (λ v. refl) (json.int raw) (λ v. sle v 0) (λ v e. e)
  apply_key-Made json log_level raw =
      accepted set_level log_level (λ v. refl) (json.text raw) (λ v. has_text v log_levels)
        (λ v e. e)
  apply_key-Made json unknown raw = inl (λ _. refl)
