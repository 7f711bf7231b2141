-- ===== src/Config/Valid.antt =====
-- What every configuration in force satisfies (lib/config/config.go).
use mathlib.Core.Path.{subst}
use polarix_plus.Base.{
  >>=-eq-some, some_inj, Table, sle, is_some, Text, codes, text_eq, is_empty, has_text, ◌≡◌, refl,
  sym, ◌∙◌, ◌≢◌, inl, inr, true, false, Option, none, some, List, [], ◌∷◌, arith,
}
use polarix_plus.Config.{
  AccessConfig, AppConfig, default_intents, default_prefix_chars, or_text, or_list, normalize,
}
use polarix_plus.Config.Keys.{
  Decoder, Key, key_of, protocols, log_levels, apply_key, apply_core_key, apply_all,
}
use polarix_plus.Config.Change.{
  Change, IsAllowed, put, apply_key-Made, set_port, set_protocol, set_level, set_threshold,
}
use polarix_plus.Config.Keep.{persist-keeps}
use polarix_plus.Config.Persist.{
  with_settings, with_access, maps_keys_sorted, Codec, World, save_plugin_settings,
  save_plugin_access, update_core,
}

or_text_filled : (s d : Text) → is_empty d ≡ false → is_empty (or_text s d) ≡ false
or_text_filled [] d h = h
or_text_filled (c ∷ s) d h = refl

or_list_filled : (o : Option (List Text)) (d : List Text) → is_some (or_list o d) ≡ true
or_list_filled none d = refl
or_list_filled (some ss) d = refl

or_text_same : (s d : Text) → is_empty s ≡ false → or_text s d ≡ s
or_text_same [] d h = cc
or_text_same (c ∷ s) d h = refl

or_list_same : (o : Option (List Text)) (d : List Text) → is_some o ≡ true → or_list o d ≡ o
or_list_same none d h = cc
or_list_same (some ss) d h = refl

or_text_known :
    (s d : Text) (known : List Text)
    → has_text s known ≡ true
    → has_text d known ≡ true
    → has_text (or_text s d) known ≡ true
or_text_known [] d known h k = k
or_text_known (c ∷ s) d known h k = h

module _ {V : Type 0} where
  -- No part that `normalize` fills is missing.
  pub record IsComplete (cfg : AppConfig V) : Type 0 where
    pub has_database : is_empty cfg.database ≡ false
    pub has_protocol : is_empty cfg.protocol ≡ false
    pub has_threshold : cfg.upload_threshold ≢ 0
    pub has_level : is_empty cfg.log_level ≡ false
    pub has_intents : is_some cfg.intents ≡ true
    pub has_prefixes : is_some cfg.prefixes ≡ true

  normalize-IsComplete : (cfg : AppConfig V) → IsComplete (normalize cfg)
  unfolding normalize
  normalize-IsComplete cfg = record {
    has_database = or_text_filled cfg.database _ refl;
    has_protocol = or_text_filled cfg.protocol _ refl;
    has_threshold = ground arith;
    has_level = or_text_filled cfg.log_level _ refl;
    has_intents = or_list_filled cfg.intents _;
    has_prefixes = or_list_filled cfg.prefixes _;
  }

  normalize_same : (cfg : AppConfig V) → IsComplete cfg → normalize cfg ≡ cfg
  unfolding normalize
  normalize_same cfg c =
      rw
        (
          or_text_same cfg.database (codes "bot.db") c.has_database,
          or_text_same cfg.protocol (codes "webhook") c.has_protocol,
          or_text_same cfg.log_level (codes "info") c.has_level,
          or_list_same cfg.intents default_intents c.has_intents,
          or_list_same cfg.prefixes default_prefix_chars c.has_prefixes,
        )
        (ground (arith, c.has_threshold))

  -- `normalize` leaves nothing to fill, and done twice it does what it does once.
  pub normalize-normalize :
      (cfg : AppConfig V) → IsComplete (normalize cfg) × (normalize (normalize cfg) ≡ normalize cfg)
  normalize-normalize cfg =
      (normalize-IsComplete cfg, normalize_same (normalize cfg) (normalize-IsComplete cfg))

  -- The values that the program can run on: a port, a protocol and a level that it knows, and a
  -- positive threshold.
  pub record IsValid (cfg : AppConfig V) : Type 0 where
    pub port_set : cfg.port ≢ 0
    pub protocol_known : has_text cfg.protocol protocols ≡ true
    pub level_known : has_text cfg.log_level log_levels ≡ true
    pub threshold_positive : sle cfg.upload_threshold 0 ≡ false

  normalize-IsValid : (cfg : AppConfig V) → IsValid cfg → IsValid (normalize cfg)
  unfolding normalize text_eq
  normalize-IsValid cfg v = record {
    port_set = v.port_set;
    protocol_known = or_text_known cfg.protocol _ protocols v.protocol_known refl;
    level_known = or_text_known cfg.log_level _ log_levels v.level_known refl;
    threshold_positive = ground (arith, v.threshold_positive);
  }

  -- only these four parts matter
  IsValid-same :
      (a b : AppConfig V)
      → a.port ≡ b.port
      → a.protocol ≡ b.protocol
      → a.log_level ≡ b.log_level
      → a.upload_threshold ≡ b.upload_threshold
      → IsValid a
      → IsValid b
  IsValid-same a b p q r t v = record {
    port_set = subst (λ n. n ≢ 0) p v.port_set;
    protocol_known = subst (λ s. has_text s protocols ≡ true) q v.protocol_known;
    level_known = subst (λ s. has_text s log_levels ≡ true) r v.level_known;
    threshold_positive = subst (λ n. sle n 0 ≡ false) t v.threshold_positive;
  }

  put-IsValid : (c : Change) (cfg : AppConfig V) → IsAllowed c → IsValid cfg → IsValid (put c cfg)
  unfolding put
  put-IsValid (set_port n) cfg ok v = record {
    port_set = ok;
    protocol_known = v.protocol_known;
    level_known = v.level_known;
    threshold_positive = v.threshold_positive;
  }
  put-IsValid (set_protocol s) cfg ok v = record {
    port_set = v.port_set;
    protocol_known = ok;
    level_known = v.level_known;
    threshold_positive = v.threshold_positive;
  }
  put-IsValid (set_level s) cfg ok v = record {
    port_set = v.port_set;
    protocol_known = v.protocol_known;
    level_known = ok;
    threshold_positive = v.threshold_positive;
  }
  put-IsValid (set_threshold n) cfg ok v = record {
    port_set = v.port_set;
    protocol_known = v.protocol_known;
    level_known = v.level_known;
    threshold_positive = ok;
  }
  put-IsValid c cfg ok v = IsValid-same cfg (put c cfg) refl refl refl refl v

  module _ {J : Type 0} where
    apply_key-IsValid :
        (json : Decoder J) (key : Key) (raw : J) (cfg cfg' : AppConfig V)
        → IsValid cfg
        → apply_key json key raw cfg ≡ some cfg'
        → IsValid cfg'
    apply_key-IsValid json key raw cfg cfg' v h = elim (apply_key-Made json key raw) [
      | inl bad ↦ absurd (none_some (sym (bad cfg) ∙ h))
      | inr (c, ok, _, made) ↦
          subst IsValid (some_inj (sym (made cfg) ∙ h)) (put-IsValid c cfg ok v)
    ]
      where
        none_some : ◌≡◌ {A = Option (AppConfig V)} none (some cfg') → ⊥
        none_some e = cc

    pub apply_all-IsValid :
        (json : Decoder J) (overrides : Table J) (cfg cfg' : AppConfig V)
        → IsValid cfg
        → apply_all json overrides cfg ≡ some cfg'
        → IsValid cfg'
    unfolding apply_all apply_core_key
    apply_all-IsValid json [] cfg cfg' v h = subst IsValid (some_inj h) v
    apply_all-IsValid json ((key, raw) ∷ overrides) cfg cfg' v h =
        let (mid, one, more) = >>=-eq-some (apply_key json (key_of key) raw cfg) _ h in
        apply_all-IsValid json overrides mid cfg'
          (apply_key-IsValid json (key_of key) raw cfg mid v one) more

-- What is done with the configuration while the program runs; the file is edited by others too.
pub data Op (J V : Type 0) : Type 0 where
  core : Table J → Op J V
  settings : Text → Table V → Op J V
  access : Text → AccessConfig → Op J V
  edited : Option (Table J) → Option (Option (Table J)) → Op J V

module _ {J V : Type 0} (json : Codec J V) where
  pub do_op : Op J V → World J V → World J V
  unfolding update_core save_plugin_settings save_plugin_access
  do_op (core overrides) w = (update_core json overrides w).1
  do_op (settings id s) w = (save_plugin_settings json id s w).1
  do_op (access id a) w = (save_plugin_access json id a w).1
  do_op (edited file torn) w = record w { file = file; torn = torn }

  pub do_ops : List (Op J V) → World J V → World J V
  unfolding do_op
  do_ops [] w = w
  do_ops (op ∷ ops) w = do_ops ops (do_op op w)

  maps-IsValid :
      (cfg : AppConfig V) (s : Option (Table (Table V))) (a : Option (Table AccessConfig))
      → IsValid cfg
      → IsValid (record cfg { plugin_settings = s; plugin_access = a })
  maps-IsValid cfg s a v = IsValid-same cfg _ refl refl refl refl v

  do_op-IsValid : (op : Op J V) (w : World J V) → IsValid w.current → IsValid (do_op op w).current
  unfolding do_op
  do_op-IsValid (core overrides) w v =
      persist-keeps json IsValid maps-IsValid normalize-IsValid (apply_all json.decode overrides)
        (maps_keys_sorted json overrides) w (apply_all-IsValid json.decode overrides) v
  do_op-IsValid (settings id s) w v =
      persist-keeps json IsValid maps-IsValid normalize-IsValid
        (λ cfg. some (with_settings id s cfg)) (codes "plugin_settings" ∷ []) w
        (λ cfg cfg' ok e.
          subst IsValid (some_inj e)
            (IsValid-same cfg (with_settings id s cfg) refl refl refl refl ok))
        v
  do_op-IsValid (access id a) w v =
      persist-keeps json IsValid maps-IsValid normalize-IsValid (λ cfg. some (with_access id a cfg))
        (codes "plugin_access" ∷ []) w
        (λ cfg cfg' ok e.
          subst IsValid (some_inj e)
            (IsValid-same cfg (with_access id a cfg) refl refl refl refl ok))
        v
  do_op-IsValid (edited file torn) w v = v

  -- Once a valid configuration is in force, it stays valid: whatever keys are changed, whatever is
  -- saved for plugins, whatever others write to the file, and whether writing fails or not.
  pub do_ops-IsValid :
      (ops : List (Op J V)) (w : World J V) → IsValid w.current → IsValid (do_ops ops w).current
  unfolding do_ops
  do_ops-IsValid [] w v = v
  do_ops-IsValid (op ∷ ops) w v = do_ops-IsValid ops (do_op op w) (do_op-IsValid op w v)
