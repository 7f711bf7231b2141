-- ===== src/Config.antt =====
-- The configuration (lib/config/config.go): its values, how missing ones are filled, how one key is
-- changed, and how a change is stored. `none` in place of a list or a map is nil. What encoding/json
-- reads in a value is a parameter.
pub mod Keys
pub mod Persist
pub mod Change
pub mod Keep
pub mod Valid
pub mod Reorder
pub mod File
pub mod Sample
mod Tests
use polarix_plus.Base.{
  ◌==◌, if◌then◌else◌, Table, trim_space, Text, codes, is_empty, ℕ, ◌*◌, ◌^◌, Bool, Option, none,
  some, List, [], ◌∷◌,
}

pub record Plugin : Type 0 where
  pub id : Text
  pub prefix : Text
  pub group : List Text

pub record AccessRule : Type 0 where
  pub mode : Text
  pub users : List Text
  pub groups : List Text

pub record AccessConfig : Type 0 where
  pub default : AccessRule
  pub commands : Table AccessRule
  pub disabled : Bool

-- the settings of a plugin are a map into values of any kind, `V`
pub record AppConfig (V : Type 0) : Type 0 where
  pub port : ℕ
  pub app_id : Text
  pub app_secret : Text
  pub plugins : List Plugin
  pub proxy_api : Text
  pub database : Text
  pub admin_password : Text
  pub protocol : Text
  pub intents : Option (List Text)
  pub global_markdown : Bool
  pub markdown_verify_image : Bool
  pub retry_when : Option (List ℕ)
  pub upload_threshold : ℕ
  pub log_level : Text
  pub prefixes : Option (List Text)
  pub plugin_settings : Option (Table (Table V))
  pub plugin_access : Option (Table AccessConfig)

abbrev pub default_intents : List Text
default_intents =
    codes "GROUP_AT_MESSAGE_CREATE"
    ∷ codes "GROUP_MESSAGE_CREATE"
    ∷ codes "C2C_MESSAGE_CREATE"
    ∷ codes "INTERACTION_CREATE"
    ∷ codes "GROUP_JOIN_REQUEST"
    ∷ codes "GROUP_MEMBER_ADD"
    ∷ codes "GROUP_MEMBER_REMOVE"
    ∷ codes "MESSAGE_AUDIT_PASS"
    ∷ codes "MESSAGE_AUDIT_REJECT"
    ∷ codes "GROUP_ADD_ROBOT"
    ∷ codes "GROUP_DEL_ROBOT"
    ∷ []

abbrev pub default_prefix_chars : List Text
default_prefix_chars = codes "/" ∷ codes "#" ∷ [] ∷ []

abbrev pub or_text : Text → Text → Text
or_text s default = if is_empty s then default else s

abbrev pub or_list : Option (List Text) → List Text → Option (List Text)
or_list none default = some default
or_list (some ss) default = some ss

-- `normalize`
unfoldable pub normalize : {V : Type 0} → AppConfig V → AppConfig V
normalize cfg = record cfg {
  database = or_text cfg.database (codes "bot.db");
  protocol = or_text cfg.protocol (codes "webhook");
  upload_threshold = if cfg.upload_threshold == 0 then 3 * 2 ^ 20 else cfg.upload_threshold;
  log_level = or_text cfg.log_level (codes "info");
  intents = or_list cfg.intents default_intents;
  prefixes = or_list cfg.prefixes default_prefix_chars;
}

-- `cleanStrings`
unfoldable pub clean_strings : List Text → List Text
unfolding trim_space
clean_strings [] = []
clean_strings (v ∷ vs) =
    if is_empty (trim_space v) then clean_strings vs else trim_space v ∷ clean_strings vs
