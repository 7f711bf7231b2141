-- ===== src/Config/File.antt =====
-- What a change leaves in config.json, and in memory (`persist` and `UpdateCore` in
-- lib/config/config.go).
use mathlib.Core.Path.{subst}
use polarix_plus.Base.{
  if◌then◌else◌, some_inj, Table, lookup, insert, delete, lookup-insert, lookup-delete,
  has_text-sort_texts, Text, text_eq, text_eq_iff, has_text, ◌≡◌, refl, sym, ap, ◌∙◌, ◌⊎◌, inl, inr,
  Bool, true, false, Option, none, some, List, [], ◌∷◌, map, arith,
}
use polarix_plus.Config.{AppConfig, normalize}
use polarix_plus.Config.Keys.{apply_all}
use polarix_plus.Config.Persist.{
  wrote, store, persist_on, Codec, World, merged, changed, persist, maps_keys_sorted, update_core,
  write_keys,
}

abbrev with_key : {J : Type 0} → Text → Option J → Table J → Table J
with_key key (some value) raw = insert key value raw
with_key key none raw = delete key raw

lookup-write_key :
    {J : Type 0} (key k : Text) (encoded raw : Table J) (o : Option J)
    → lookup key encoded ≡ o
    → lookup k (with_key key o raw) ≡ (if text_eq key k then lookup k encoded else lookup k raw)
lookup-write_key key k encoded raw none e =
    ground (arith, lookup-delete key k raw, text_eq_iff key k)
lookup-write_key key k encoded raw (some v) e =
    ground (arith, lookup-insert key k v raw, text_eq_iff key k)

-- The keys written are as they were encoded, and the others as they were.
lookup-write_keys :
    {J : Type 0} (keys : List Text) (encoded raw : Table J) (k : Text)
    → lookup k (write_keys keys encoded raw)
      ≡ (if has_text k keys then lookup k encoded else lookup k raw)
unfolding write_keys
lookup-write_keys [] encoded raw k = refl
lookup-write_keys (key ∷ keys) encoded raw k = ground (
  arith,
  lookup-write_keys keys encoded (with_key key (lookup key encoded) raw) k,
  lookup-write_key key k encoded raw (lookup key encoded) refl,
)

module _ {J V : Type 0} (json : Codec J V) where
  -- A successful `UpdateCore` has made every change, fills what is missing in memory, and writes to
  -- config.json the changed keys as the new configuration has them, and no other key.
  pub update_core-Stored :
      (overrides : Table J) (w : World J V) (raw : Table J) (key : Text)
      → w.file ≡ some raw
      → (update_core json overrides w).0 ≡ true
      → (cfg : AppConfig V) × (encoded : Table J) × (file : Table J) × (apply_all json.decode
            overrides
            (merged json raw w.current)
          ≡ some cfg)
        × (json.encode cfg ≡ some encoded)
        × ((update_core json overrides w).1.current ≡ normalize cfg)
        × ((update_core json overrides w).1.file ≡ some file)
        × (lookup key file ≡ (
            if has_text key (map (λ (p : Text × J). p.0) overrides)
            then lookup key encoded
            else lookup key raw))
  unfolding update_core persist persist_on changed store wrote maps_keys_sorted
  update_core-Stored overrides w raw key e ok = on_file w.file e ok
    where
      closed : false ≡ true → ⊥
      closed f = cc

      keys : List Text
      keys = maps_keys_sorted json overrides

      Result : Bool × World J V → Type 0
      Result r =
          (cfg : AppConfig V) × (encoded : Table J) × (file : Table J) × (apply_all json.decode
              overrides (merged json raw w.current)
            ≡ some cfg)
          × (json.encode cfg ≡ some encoded)
          × (r.1.current ≡ normalize cfg)
          × (r.1.file ≡ some file)
          × (lookup key file ≡ (
              if has_text key (map (λ (p : Text × J). p.0) overrides)
              then lookup key encoded
              else lookup key raw))

      stores :
          (cfg : AppConfig V) (o : Option (Table J))
          → apply_all json.decode overrides (merged json raw w.current) ≡ some cfg
          → json.encode cfg ≡ o
          → (store json w raw (merged json raw w.current) keys cfg o).0 ≡ true
          → Result (store json w raw (merged json raw w.current) keys cfg o)
      stores cfg none q e h = cc
      stores cfg (some encoded) q e h = on_write w.torn h
        where
          on_write :
              (t : Option (Option (Table J)))
              → (wrote json w (write_keys keys encoded raw) (merged json raw w.current) cfg t).0
                ≡ true
              → Result
                  (wrote json w (write_keys keys encoded raw) (merged json raw w.current) cfg t)
          on_write (some left) h = absurd (closed h)
          on_write none h = (
            cfg,
            encoded,
            write_keys keys encoded raw,
            q,
            e,
            refl,
            refl,
            lookup-write_keys keys encoded raw key
                ∙ ap (λ (b : Bool). if b then lookup key encoded else lookup key raw)
                    (has_text-sort_texts key (map (λ (p : Text × J). p.0) overrides)),
          )

      changes :
          (o : Option (AppConfig V))
          → apply_all json.decode overrides (merged json raw w.current) ≡ o
          → (changed json w raw (merged json raw w.current) keys o).0 ≡ true
          → Result (changed json w raw (merged json raw w.current) keys o)
      changes none q h = cc
      changes (some cfg) q h = stores cfg (json.encode cfg) q refl h

      on_file :
          (f : Option (Table J))
          → f ≡ some raw
          → (persist_on json w (apply_all json.decode overrides) keys f).0 ≡ true
          → Result (persist_on json w (apply_all json.decode overrides) keys f)
      on_file none e h = cc
      on_file (some raw') e h = elim_raw raw' (some_inj e) h
        where
          elim_raw :
              (raw' : Table J)
              → raw' ≡ raw
              → (persist_on json w (apply_all json.decode overrides) keys (some raw')).0 ≡ true
              → Result (persist_on json w (apply_all json.decode overrides) keys (some raw'))
          elim_raw raw' q =
              subst
                (λ r.
                  (persist_on json w (apply_all json.decode overrides) keys (some r)).0 ≡ true
                  → Result (persist_on json w (apply_all json.decode overrides) keys (some r)))
                (sym q) (changes (apply_all json.decode overrides (merged json raw w.current)) refl)

  -- An `UpdateCore` that fails leaves config.json as it was, or it has made every change and encoded
  -- the result, and a failing write left the file as such a write does; in memory it changes nothing
  -- but the settings and the access rules of plugins, whose maps it shares.
  pub update_core-fails :
      (overrides : Table J) (w : World J V)
      → (update_core json overrides w).0 ≡ false
      → let w' = (update_core json overrides w).1 in
        ((w'.file ≡ w.file)
          ⊎ ((raw : Table J) × (cfg : AppConfig V) × (encoded : Table J) × (w.file ≡ some raw)
              × (apply_all json.decode overrides (merged json raw w.current) ≡ some cfg)
              × (json.encode cfg ≡ some encoded)
              × (w.torn ≡ some w'.file)))
        × (w'.current ≡ record w.current {
          plugin_settings = w'.current.plugin_settings;
          plugin_access = w'.current.plugin_access;
        })
  unfolding update_core persist persist_on changed store wrote
  update_core-fails overrides w h = on_file w.file refl h
    where
      closed : true ≡ false → ⊥
      closed f = cc

      keys : List Text
      keys = maps_keys_sorted json overrides

      Result : Bool × World J V → Type 0
      Result r =
          ((r.1.file ≡ w.file)
            ⊎ ((raw : Table J) × (cfg : AppConfig V) × (encoded : Table J) × (w.file ≡ some raw)
                × (apply_all json.decode overrides (merged json raw w.current) ≡ some cfg)
                × (json.encode cfg ≡ some encoded)
                × (w.torn ≡ some r.1.file)))
          × (r.1.current ≡ record w.current {
            plugin_settings = r.1.current.plugin_settings;
            plugin_access = r.1.current.plugin_access;
          })

      stores :
          (raw : Table J) (cfg : AppConfig V) (o : Option (Table J))
          → w.file ≡ some raw
          → apply_all json.decode overrides (merged json raw w.current) ≡ some cfg
          → json.encode cfg ≡ o
          → (store json w raw (merged json raw w.current) keys cfg o).0 ≡ false
          → Result (store json w raw (merged json raw w.current) keys cfg o)
      stores raw cfg none f q e h = (inl refl, refl)
      stores raw cfg (some encoded) f q e h = on_write w.torn refl h
        where
          on_write :
              (t : Option (Option (Table J)))
              → w.torn ≡ t
              → (wrote json w (write_keys keys encoded raw) (merged json raw w.current) cfg t).0
                ≡ false
              → Result
                  (wrote json w (write_keys keys encoded raw) (merged json raw w.current) cfg t)
          on_write none at h = absurd (closed h)
          on_write (some left) at h = (inr (raw, cfg, encoded, f, q, e, at), refl)

      changes :
          (raw : Table J) (o : Option (AppConfig V))
          → w.file ≡ some raw
          → apply_all json.decode overrides (merged json raw w.current) ≡ o
          → (changed json w raw (merged json raw w.current) keys o).0 ≡ false
          → Result (changed json w raw (merged json raw w.current) keys o)
      changes raw none f q h = (inl refl, refl)
      changes raw (some cfg) f q h = stores raw cfg (json.encode cfg) f q refl h

      on_file :
          (f : Option (Table J))
          → w.file ≡ f
          → (persist_on json w (apply_all json.decode overrides) keys f).0 ≡ false
          → Result (persist_on json w (apply_all json.decode overrides) keys f)
      on_file none e h = (inl refl, refl)
      on_file (some raw) e h =
          changes raw (apply_all json.decode overrides (merged json raw w.current)) e refl h
