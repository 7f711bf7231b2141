-- ===== src/Admin/Settings/Refusals.antt =====
-- Patches of the settings page that are refused (lib/admin/config.go).
use mathlib.Core.Path.{subst}
use polarix_plus.Base.{
  if◌then◌else◌, if_false, Bool-cases, ◌>>=◌, some_inj, Table, lookup, insert, lookup-insert,
  lookup-insert_self, is_some, Text, codes, text_eq, text_eq_iff, ◌≡◌, refl, sym, ap, ◌∙◌, inl, inr,
  Bool, true, false, Option, none, some, List, [], ◌∷◌, ◌++◌,
}
use polarix_plus.Config.{AppConfig}
use polarix_plus.Config.Keys.{Decoder, key_of, apply_key, apply_core_key, apply_all}
use polarix_plus.Config.Persist.{
  World, merged, persist, persist_on, changed, update_core, maps_keys_sorted,
}
use polarix_plus.Admin.Settings.{
  Raw, CoreField, Checked, skipped, refused, taken, Patch, no_patch, PutAnswer, put_refused,
  put_empty, core_specs, find_spec, spec, multiselect, symbols, no_prefix, to_prefixes, convert,
  check_entry, add, gathered, gather, stored, put_patch, put_values, handle_put_config,
}

-- `applyCoreKey` knows no key of this name.
abbrev pub prefixes_key : Text
prefixes_key = codes "prefixes"

unknown_refused :
    {J V : Type 0} (json : Decoder J) (raw : J) (cfg : AppConfig V) (m : Table J)
    → (apply_key json (key_of prefixes_key) raw cfg >>= apply_all json m) ≡ none
unfolding apply_key key_of text_eq
unknown_refused json raw cfg m = refl

module _ {J V : Type 0} (json : Decoder J) where
  apply_all-unknown :
      (overrides : Table J) (cfg : AppConfig V)
      → is_some (lookup prefixes_key overrides) ≡ true
      → apply_all json overrides cfg ≡ none
  unfolding apply_all apply_core_key lookup
  apply_all-unknown [] cfg h = cc
  apply_all-unknown ((key, raw) ∷ overrides) cfg h = elim (Bool-cases (text_eq key prefixes_key)) [
    | inl e ↦ head_refused key ((text_eq_iff key prefixes_key).0 e)
    | inr e ↦
        then_refused (apply_key json (key_of key) raw cfg)
          (λ c. apply_all-unknown overrides c (rw e at h))
  ]
    where
      then_refused :
          (o : Option (AppConfig V))
          → ((c : AppConfig V) → apply_all json overrides c ≡ none)
          → (o >>= apply_all json overrides) ≡ none
      then_refused none k = refl
      then_refused (some c) k = k c

      head_refused :
          (key : Text)
          → key ≡ prefixes_key
          → (apply_key json (key_of key) raw cfg >>= apply_all json overrides) ≡ none
      head_refused key e = rw e (unknown_refused json raw cfg overrides)

module _ {J V : Type 0} (json : Raw J V) where
  abbrev Holds : Patch J → Type 0
  Holds p = is_some (lookup prefixes_key p.overrides) ≡ true

  insert-Holds :
      (key : Text) (raw : J) (m : Table J)
      → is_some (lookup prefixes_key m) ≡ true
      → is_some (lookup prefixes_key (insert key raw m)) ≡ true
  insert-Holds key raw m h =
      rw (lookup-insert key prefixes_key raw m)
        (elim (text_eq key prefixes_key)
          as (λ b. is_some (if b then some raw else lookup prefixes_key m) ≡ true) [
            | true ↦ refl
            | false ↦ h
          ])

  add-Holds :
      (key : Text) (raw : J) (f : Option CoreField) (p : Patch J)
      → Holds p
      → Holds (add json key raw f p)
  unfolding add
  add-Holds key raw none p h = h
  add-Holds key raw (some f) p h = insert-Holds key raw p.overrides h

  gathered-Holds :
      (key : Text) (f : Option CoreField) (c : Checked J) (rest : Patch J → Option (Patch J))
      (p p' : Patch J)
      → ((q : Patch J) → Holds q → rest q ≡ some p' → Holds p')
      → Holds p
      → gathered json key f c rest p ≡ some p'
      → Holds p'
  unfolding gathered
  gathered-Holds key f skipped rest p p' keeps h e = keeps p h e
  gathered-Holds key f refused rest p p' keeps h e = cc
  gathered-Holds key f (taken raw) rest p p' keeps h e =
      keeps (add json key raw f p) (add-Holds key raw f p h) e

  gather-Holds :
      (values : Table J) (p p' : Patch J) → Holds p → gather json values p ≡ some p' → Holds p'
  unfolding gather
  gather-Holds [] p p' h e =
      ap (λ (q : Patch J). is_some (lookup prefixes_key q.overrides)) (sym (some_inj e)) ∙ h
  gather-Holds ((key, raw) ∷ values) p p' h e =
      gathered-Holds key (find_spec key core_specs)
        (check_entry json key raw (find_spec key core_specs)) (gather json values) p p'
        (λ q. gather-Holds values q p') h e

  abbrev prefix_values : Option (List Text) → Checked J
  prefix_values o = elim (o >>= to_prefixes) [
    | some ps ↦ taken (json.encode_texts ps)
    | none ↦ refused
  ]

  check-prefixes :
      (raw : J)
      → check_entry json prefixes_key raw (find_spec prefixes_key core_specs)
        ≡ (if json.is_null raw then skipped else prefix_values (json.codec.decode.texts raw))
  unfolding check_entry find_spec text_eq convert
  check-prefixes raw = refl

  -- from an entry for the prefixes on, the key is among the overrides
  entry-Holds :
      (f : CoreField) (o : Option (List Text)) (rest : Patch J → Option (Patch J)) (p p' : Patch J)
      → ((q : Patch J) → Holds q → rest q ≡ some p' → Holds p')
      → gathered json prefixes_key (some f) (prefix_values o) rest p ≡ some p'
      → Holds p'
  unfolding gathered add
  entry-Holds f o rest p p' keeps e = taken_or (o >>= to_prefixes) e
    where
      taken_or :
          (r : Option (List Text))
          → gathered json prefixes_key
              (some f)
              (elim r as (λ _. Checked J) [
                | some ps ↦ taken (json.encode_texts ps)
                | none ↦ refused
              ])
              rest
              p
            ≡ some p'
          → Holds p'
      taken_or none e = cc
      taken_or (some ps) e =
          keeps _ (ap is_some (lookup-insert_self prefixes_key (json.encode_texts ps) p.overrides))
            e

  gather-prefixes :
      (before after : Table J) (raw : J) (p p' : Patch J)
      → json.is_null raw ≡ false
      → gather json (before ++ (prefixes_key, raw) ∷ after) p ≡ some p'
      → Holds p'
  unfolding gather find_spec text_eq
  gather-prefixes [] after raw p p' given e =
      entry-Holds (spec prefixes_key multiselect (symbols ++ no_prefix ∷ []) false)
        (json.codec.decode.texts raw) (gather json after) p p' (λ q. gather-Holds after q p')
        (sym (
            ap
              (λ c.
                gathered json prefixes_key (find_spec prefixes_key core_specs) c (gather json after)
                  p)
              (check-prefixes raw ∙ if_false (json.is_null raw) _ _ given))
          ∙ e)
  gather-prefixes ((key, v) ∷ before) after raw p p' given e =
      found (check_entry json key v (find_spec key core_specs)) e
        (λ q. gather-prefixes before after raw q p' given)
    where
      found :
          (c : Checked J)
          → gathered json key
              (find_spec key core_specs)
              c
              (gather json (before ++ (prefixes_key, raw) ∷ after))
              p
            ≡ some p'
          → ((q : Patch J)
              → gather json (before ++ (prefixes_key, raw) ∷ after) q ≡ some p'
              → Holds p')
          → Holds p'
      found skipped e next = next p e
      found refused e next = cc
      found (taken r) e next = next _ e

  update_core-unknown :
      (overrides : Table J) (w : World J V)
      → is_some (lookup prefixes_key overrides) ≡ true
      → ((update_core json.codec overrides w).0 ≡ false)
        × ((update_core json.codec overrides w).1.file ≡ w.file)
  unfolding update_core persist persist_on changed
  update_core-unknown overrides w h = on_file w.file
    where
      Fails : Bool × World J V → Type 0
      Fails r = (r.0 ≡ false) × (r.1.file ≡ w.file)

      on_file :
          (f : Option (Table J))
          → Fails (
              persist_on json.codec w
                (apply_all json.codec.decode overrides)
                (maps_keys_sorted json.codec overrides)
                f)
      on_file none = (refl, refl)
      on_file (some raw) =
          subst
            (λ o. Fails (
              changed json.codec w raw (merged json.codec raw w.current)
                (maps_keys_sorted json.codec overrides) o))
            (sym
              (apply_all-unknown json.codec.decode overrides (merged json.codec raw w.current) h))
            (refl, refl)

  -- Every patch that sets the prefixes is refused, although the page offers them, and writes nothing:
  -- `applyCoreKey` does not know the key.
  pub handle_put_config-prefixes :
      (has_client : Bool) (before after : Table J) (raw : J) (w : World J V)
      → json.is_null raw ≡ false
      → let r =
          handle_put_config json has_client (some (before ++ (prefixes_key, raw) ∷ after)) w in
        (r.0 ≡ put_refused) × (r.1.file ≡ w.file)
  unfolding handle_put_config put_values put_patch stored lookup
  handle_put_config-prefixes has_client before after raw w given =
      on_patch (gather json (before ++ (prefixes_key, raw) ∷ after) no_patch) refl
    where
      Refused : PutAnswer × World J V → Type 0
      Refused r = (r.0 ≡ put_refused) × (r.1.file ≡ w.file)

      on_stored :
          (p : Patch J) (r : Bool × World J V)
          → r.0 ≡ false
          → r.1.file ≡ w.file
          → Refused (stored json has_client p r)
      on_stored p (true, w') e f = cc
      on_stored p (false, w') e f = (refl, f)

      on_patch :
          (o : Option (Patch J))
          → gather json (before ++ (prefixes_key, raw) ∷ after) no_patch ≡ o
          → Refused (put_patch json has_client w o)
      on_patch none e = (refl, refl)
      on_patch (some p) e =
          on_overrides p.overrides refl (gather-prefixes before after raw no_patch p given e)
        where
          on_overrides :
              (m : Table J)
              → p.overrides ≡ m
              → Holds p
              → Refused (elim m as (λ _. PutAnswer × World J V) [
                | [] ↦ (put_empty, w)
                | _ ∷ _ ↦ stored json has_client p (update_core json.codec p.overrides w)
              ])
          on_overrides [] q h =
              absurd
                (empty_holds (sym (ap (λ (t : Table J). is_some (lookup prefixes_key t)) q) ∙ h))
            where
              empty_holds : is_some (lookup {V = J} prefixes_key []) ≡ true → ⊥
              empty_holds e = cc
          on_overrides (x ∷ m) q h =
              let failed = update_core-unknown p.overrides w h in
              on_stored p (update_core json.codec p.overrides w) failed.0 failed.1
