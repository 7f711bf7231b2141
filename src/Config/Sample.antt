-- ===== src/Config/Sample.antt =====
-- A small JSON and a configuration, for the runs of the configuration and of the settings page.
use polarix_plus.Base.{
  ltb, if◌then◌else◌, Table, Text, codes, ℕ, Bool, false, Option, none, some, List, [], ◌∷◌,
}
use polarix_plus.Config.{AppConfig}
use polarix_plus.Config.Keys.{Decoder}
use polarix_plus.Config.Persist.{Codec, World}

pub data Json : Type 0 where
  null : Json
  str : Text → Json
  num : ℕ → Json
  flag : Bool → Json
  strs : List Text → Json
  nums : List ℕ → Json

abbrev as_text : Json → Option Text
as_text null = some []
as_text (str s) = some s
as_text _ = none

abbrev as_uint16 : Json → Option ℕ
as_uint16 null = some 0
as_uint16 (num n) = if ltb n 65536 then some n else none
as_uint16 _ = none

abbrev as_flag : Json → Option Bool
as_flag null = some false
as_flag (flag b) = some b
as_flag _ = none

abbrev as_int : Json → Option ℕ
as_int null = some 0
as_int (num n) = some n
as_int _ = none

abbrev as_texts : Json → Option (List Text)
as_texts null = some []
as_texts (strs ss) = some ss
as_texts _ = none

abbrev as_ints : Json → Option (Option (List ℕ))
as_ints null = some none
as_ints (nums ns) = some (some ns)
as_ints _ = none

abbrev pub decoder : Decoder Json
decoder = record {
  text = as_text;
  uint16 = as_uint16;
  flag = as_flag;
  int = as_int;
  texts = as_texts;
  ints = as_ints;
}

abbrev encode_some : AppConfig ℕ → Option (Table Json)
encode_some cfg = some (
    (codes "port", num cfg.port)
    ∷ (codes "secret", str cfg.app_secret)
    ∷ (codes "log_level", str cfg.log_level)
    ∷ [])

abbrev pub codec : Codec Json ℕ
codec = record {
  decode = decoder;
  merge_settings = λ j m. m;
  merge_access = λ j m. m;
  encode = encode_some;
}

abbrev pub sample : AppConfig ℕ
sample = record {
  port = 8080;
  app_id = codes "1";
  app_secret = codes "s";
  plugins = [];
  proxy_api = [];
  database = [];
  admin_password = codes "pw";
  protocol = codes "webhook";
  intents = none;
  global_markdown = false;
  markdown_verify_image = false;
  retry_when = none;
  upload_threshold = 1024;
  log_level = codes "info";
  prefixes = none;
  plugin_settings = none;
  plugin_access = none;
}

abbrev pub sample_file : Table Json
sample_file = (codes "port", num 8080) ∷ (codes "note", str (codes "mine")) ∷ []

abbrev pub world : World Json ℕ
world = record { current = sample; file = some sample_file; torn = none }
