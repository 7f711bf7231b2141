-- ===== src/Admin/Settings/Secrets.antt =====
-- The secrets of the configuration on the settings page (lib/admin/config.go).

use polarix_plus.Base.{
  if◌then◌else◌, if_false, if_true, Bool-cases, >>=-eq-some, some_inj, Table, lookup, lookup-insert,
  All, Text, codes, text_eq, text_eq_iff, is_empty, ◌≡◌, refl, sym, ap, ◌∙◌, ◌≢◌, ◌⊎◌, inl, inr,
  Bool, true, false, Option, none, some, [], ◌∷◌, arith,
}
use polarix_plus.Config.{AccessConfig, normalize, AppConfig}
use polarix_plus.Config.Keys.{Decoder, Key, key_of, apply_key, apply_core_key, apply_all, unknown}
use polarix_plus.Config.Change.{Change, target, put, apply_key-Made, set_secret, set_password}
use polarix_plus.Config.Keep.{persist-keeps}
use polarix_plus.Config.Persist.{World, maps_keys_sorted, update_core}
use polarix_plus.Config.Reorder.{name_of, key_of_name}
use polarix_plus.Admin.Settings.{
  CoreField, Checked, taken, no_patch, PutAnswer, put_empty, stored, put_patch, put_values,
  handle_put_config, refused, taken, core_specs, Patch, find_spec, check_secret, check_entry, add,
  gathered, gather, skipped, handle_get_config, Raw,
}

-- The settings page does not tell two configurations apart that differ only in their secrets, as
-- long as each secret is set in both or in neither.
pub handle_get_config-secrets :
    {V : Type 0} (cfg : AppConfig V) (s p : Text)
    → is_empty s ≡ is_empty cfg.app_secret
    → is_empty p ≡ is_empty cfg.admin_password
    → handle_get_config (record cfg { app_secret = s; admin_password = p }) ≡ handle_get_config cfg
unfolding handle_get_config
handle_get_config-secrets cfg s p e f = rw (e, f) refl

-- The two secrets, their keys and their values.
pub data Hidden : Type 0 where
  of_app of_admin : Hidden

abbrev pub key_name : Hidden → Text
key_name of_app = codes "secret"
key_name of_admin = codes "admin_password"

abbrev hidden_key : Hidden → Key
hidden_key of_app = Key.secret
hidden_key of_admin = Key.admin_password

abbrev pub secret_of : {V : Type 0} → Hidden → AppConfig V → Text
secret_of of_app cfg = cfg.app_secret
secret_of of_admin cfg = cfg.admin_password

put-secret :
    {V : Type 0} (h : Hidden) (c : Change) (cfg : AppConfig V)
    → target c ≢ hidden_key h
    → secret_of h (put c cfg) ≡ secret_of h cfg
unfolding put
put-secret of_app (set_secret v) cfg ne = absurd (ne refl)
put-secret of_admin (set_password v) cfg ne = absurd (ne refl)
put-secret of_app c cfg ne = refl
put-secret of_admin c cfg ne = refl

-- a key that is not the name of the secret is another one
other_key : (h : Hidden) (key : Text) → text_eq key (key_name h) ≡ false → key_of key ≢ hidden_key h
other_key h key ne e = elim (key_of_name key) [
  | inl u ↦ known h (sym u ∙ e)
  | inr n ↦
      absurd
        (true_false (sym ((text_eq_iff key (key_name h)).1 (n ∙ (ap name_of e ∙ named h))) ∙ ne))
]
  where
    true_false : true ≡ false → ⊥
    true_false e = cc

    known : (h : Hidden) → unknown ≡ hidden_key h → ⊥
    known of_app e = cc
    known of_admin e = cc

    named : (h : Hidden) → name_of (hidden_key h) ≡ key_name h
    named of_app = refl
    named of_admin = refl

module _ {J V : Type 0} (json : Decoder J) (h : Hidden) where
  apply_all-secret :
      (overrides : Table J) (cfg cfg' : AppConfig V)
      → lookup (key_name h) overrides ≡ none
      → apply_all json overrides cfg ≡ some cfg'
      → secret_of h cfg' ≡ secret_of h cfg
  unfolding apply_all apply_core_key lookup
  apply_all-secret [] cfg cfg' absent e = ap (secret_of h) (sym (some_inj e))
  apply_all-secret ((key, raw) ∷ overrides) cfg cfg' absent e =
      let (mid, one, more) = >>=-eq-some (apply_key json (key_of key) raw cfg) _ e in
      let (ne, rest) = head_other key raw overrides absent in
      apply_all-secret overrides mid cfg' rest more ∙ step key raw mid ne one
    where
      head_other :
          (key : Text) (raw : J) (m : Table J)
          → lookup (key_name h) ((key, raw) ∷ m) ≡ none
          → (text_eq key (key_name h) ≡ false) × (lookup (key_name h) m ≡ none)
      head_other key raw m absent = elim (Bool-cases (text_eq key (key_name h))) [
        | inl t ↦ absurd (some_none (sym (if_true _ (some raw) _ t) ∙ absent))
        | inr f ↦ (f, sym (if_false _ (some raw) _ f) ∙ absent)
      ]
        where
          some_none : ◌≡◌ {A = Option J} (some raw) none → ⊥
          some_none e = cc

      step :
          (key : Text) (raw : J) (mid : AppConfig V)
          → text_eq key (key_name h) ≡ false
          → apply_key json (key_of key) raw cfg ≡ some mid
          → secret_of h mid ≡ secret_of h cfg
      step key raw mid ne one = elim (apply_key-Made json (key_of key) raw) [
        | inl bad ↦ absurd (none_some mid (sym (bad cfg) ∙ one))
        | inr (c, _, aims, made) ↦
            ap (secret_of h) (some_inj (sym one ∙ made cfg))
            ∙ put-secret h c cfg (λ t. other_key h key ne (sym aims ∙ t))
      ]
        where
          none_some : (mid : AppConfig V) → ◌≡◌ {A = Option (AppConfig V)} none (some mid) → ⊥
          none_some mid e = cc

-- A value that the page sends for a secret that is to stay: null, or an empty text.
abbrev pub IsBlank : {J V : Type 0} → Raw J V → J → Type 0
IsBlank json raw = (json.is_null raw ≡ true) ⊎ (json.codec.decode.text raw ≡ some [])

blank :
    {J V : Type 0} (json : Raw J V) (key : Text) (raw : J)
    → IsBlank json raw
    → (if json.is_null raw then skipped else check_secret json key raw (json.codec.decode.text raw))
      ≡ skipped
unfolding check_secret
blank json key raw (inl e) = rw e refl
blank json key raw (inr e) = rw e (ground arith)

blank-skipped :
    {J V : Type 0} (json : Raw J V) (h : Hidden) (raw : J)
    → IsBlank json raw
    → check_entry json (key_name h) raw (find_spec (key_name h) core_specs) ≡ skipped
unfolding check_entry find_spec text_eq
blank-skipped json of_app raw b = blank json (codes "secret") raw b
blank-skipped json of_admin raw b = blank json (codes "admin_password") raw b

maps_same :
    {V : Type 0} (h : Hidden) (cfg : AppConfig V) (s : Option (Table (Table V)))
    (a : Option (Table AccessConfig))
    → secret_of h (record cfg { plugin_settings = s; plugin_access = a }) ≡ secret_of h cfg
maps_same of_app cfg s a = refl
maps_same of_admin cfg s a = refl

fills_same :
    {V : Type 0} (h : Hidden) (cfg : AppConfig V) → secret_of h (normalize cfg) ≡ secret_of h cfg
unfolding normalize
fills_same of_app cfg = refl
fills_same of_admin cfg = refl

module _ {J V : Type 0} (json : Raw J V) (h : Hidden) where
  abbrev pub Leaves : Text × J → Type 0
  Leaves (key, raw) = (text_eq key (key_name h) ≡ false) ⊎ IsBlank json raw

  -- a key that is no secret's leaves the secret alone
  add-absent :
      (key : Text) (raw : J) (f : Option CoreField) (p : Patch J)
      → text_eq key (key_name h) ≡ false
      → lookup (key_name h) p.overrides ≡ none
      → lookup (key_name h) (add json key raw f p).overrides ≡ none
  unfolding add
  add-absent key raw none p ne absent = absent
  add-absent key raw (some f) p ne absent =
      lookup-insert key (key_name h) raw p.overrides ∙ (if_false _ (some raw) _ ne ∙ absent)

  gather-absent :
      (values : Table J) (p p' : Patch J)
      → All Leaves values
      → lookup (key_name h) p.overrides ≡ none
      → gather json values p ≡ some p'
      → lookup (key_name h) p'.overrides ≡ none
  unfolding gather gathered
  gather-absent [] p p' leaves absent e =
      ap (λ (q : Patch J). lookup (key_name h) q.overrides) (sym (some_inj e)) ∙ absent
  gather-absent ((key, raw) ∷ values) p p' leaves absent e =
      elim (Bool-cases (text_eq key (key_name h))) [
        | inr ne ↦
            checked (check_entry json key raw (find_spec key core_specs)) ne e
              (λ q. gather-absent values q p' leaves.1)
        | inl t ↦ gather-absent values p p' leaves.1 absent (
            sym (
              ap (λ c. gathered json key (find_spec key core_specs) c (gather json values) p)
                (skips t leaves.0))
            ∙ e)
      ]
    where
      skips :
          text_eq key (key_name h) ≡ true
          → Leaves (key, raw)
          → check_entry json key raw (find_spec key core_specs) ≡ skipped
      skips t (inl ne) = cc
      skips t (inr b) = rw ((text_eq_iff key (key_name h)).0 t) (blank-skipped json h raw b)

      checked :
          (c : Checked J)
          → text_eq key (key_name h) ≡ false
          → gathered json key (find_spec key core_specs) c (gather json values) p ≡ some p'
          → ((q : Patch J)
              → lookup (key_name h) q.overrides ≡ none
              → gather json values q ≡ some p'
              → lookup (key_name h) p'.overrides ≡ none)
          → lookup (key_name h) p'.overrides ≡ none
      checked skipped ne e rest = rest p absent e
      checked refused ne e rest = cc
      checked (taken raw') ne e rest =
          rest (add json key raw' (find_spec key core_specs) p)
            (add-absent key raw' (find_spec key core_specs) p ne absent) e

  update_core-secret :
      (overrides : Table J) (w : World J V)
      → lookup (key_name h) overrides ≡ none
      → secret_of h (update_core json.codec overrides w).1.current ≡ secret_of h w.current
  unfolding update_core
  update_core-secret overrides w absent =
      persist-keeps json.codec (λ cfg. secret_of h cfg ≡ secret_of h w.current)
        (λ cfg s a e. maps_same h cfg s a ∙ e) (λ cfg e. fills_same h cfg ∙ e)
        (apply_all json.codec.decode overrides) (maps_keys_sorted json.codec overrides) w
        (λ cfg cfg' e made. apply_all-secret json.codec.decode h overrides cfg cfg' absent made ∙ e)
        refl

  -- A patch whose entries for a secret are all null or empty leaves the secret as it is, whatever
  -- else it changes, and whether it is refused or stored.
  pub handle_put_config-secret :
      (has_client : Bool) (values : Table J) (w : World J V)
      → All Leaves values
      → secret_of h (handle_put_config json has_client (some values) w).1.current
        ≡ secret_of h w.current
  unfolding handle_put_config put_values put_patch stored
  handle_put_config-secret has_client values w leaves = on_patch (gather json values no_patch) refl
    where
      on_stored : (p : Patch J) (r : Bool × World J V) → (stored json has_client p r).1 ≡ r.1
      on_stored p (true, w) = refl
      on_stored p (false, w) = refl

      on_patch :
          (o : Option (Patch J))
          → gather json values no_patch ≡ o
          → secret_of h (put_patch json has_client w o).1.current ≡ secret_of h w.current
      on_patch none e = refl
      on_patch (some p) e = on_overrides p.overrides refl
        where
          on_overrides :
              (m : Table J)
              → p.overrides ≡ m
              → secret_of h
                  (elim m as (λ _. PutAnswer × World J V) [
                    | [] ↦ (put_empty, w)
                    | _ ∷ _ ↦ stored json has_client p (update_core json.codec p.overrides w)
                  ]).1.current
                ≡ secret_of h w.current
          on_overrides [] q = refl
          on_overrides (x ∷ m) q =
              ap (λ (v : World J V). secret_of h v.current)
                (on_stored p (update_core json.codec p.overrides w))
              ∙ update_core-secret p.overrides w (gather-absent values no_patch p leaves refl e)
