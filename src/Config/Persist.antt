-- ===== src/Config/Persist.antt =====
-- How a change of the configuration is stored (`persist`, `SavePluginSettings`, `SavePluginAccess`
-- and `UpdateCore` in lib/config/config.go).
use polarix_plus.Base.{
  Table, lookup, insert, delete, sort_texts, Text, codes, Bool, true, false, Option, none, some,
  List, [], ◌∷◌, map,
}
use polarix_plus.Config.{AccessConfig, AppConfig, normalize}
use polarix_plus.Config.Keys.{Decoder, apply_all}

-- encoding/json on whole values: a map is read into a map, whose entries stay unless the value has
-- them too, or which null makes nil; a configuration that cannot be written is `none`.
pub record Codec (J V : Type 0) : Type 0 where
  pub decode : Decoder J
  pub merge_settings : J → Option (Table (Table V)) → Option (Table (Table V))
  pub merge_access : J → Option (Table AccessConfig) → Option (Table AccessConfig)
  pub encode : AppConfig V → Option (Table J)

-- `current`, and config.json: `none` if it is missing or no JSON object. Writing it succeeds if `torn`
-- is `none`; otherwise it fails, and `torn` has what is left in the file, since os.WriteFile truncates
-- a file before it writes to it.
pub record World (J V : Type 0) : Type 0 where
  pub current : AppConfig V
  pub file : Option (Table J)
  pub torn : Option (Option (Table J))

abbrev pub empty_if_nil {ℓ} : {A : Type ℓ} → Option (Table A) → Table A
empty_if_nil none = []
empty_if_nil (some m) = m

-- A copy of a configuration has the same maps: what is written to `old` through the copy, up to the
-- decoding in `merged`, which may replace the map by nil, and up to the change in `new`.
abbrev pub shared {ℓ} : {A : Type ℓ} → Option A → Option A → Option A → Option A
shared none merged new = none
shared (some old) none new = some old
shared (some old) (some merged) new = new

-- the keys changed, as they were encoded; one that was left out is deleted
unfoldable pub write_keys : {J : Type 0} → List Text → Table J → Table J → Table J
unfolding lookup insert delete
write_keys [] encoded raw = raw
write_keys (key ∷ keys) encoded raw =
    write_keys keys encoded
      (elim (lookup key encoded) [ some value ↦ insert key value raw | none ↦ delete key raw ])

module _ {V : Type 0} where
  abbrev pub with_settings : Text → Table V → AppConfig V → AppConfig V
  with_settings id settings cfg = record cfg {
    plugin_settings = some (insert id settings (empty_if_nil cfg.plugin_settings));
  }

  abbrev pub with_access : Text → AccessConfig → AppConfig V → AppConfig V
  with_access id access cfg = record cfg {
    plugin_access = some (insert id access (empty_if_nil cfg.plugin_access));
  }

module _ {J V : Type 0} (json : Codec J V) where
  -- `current` with the maps that a copy shares with it
  abbrev pub touched : AppConfig V → AppConfig V → AppConfig V → AppConfig V
  touched old merged new = record old {
    plugin_settings = shared old.plugin_settings merged.plugin_settings new.plugin_settings;
    plugin_access = shared old.plugin_access merged.plugin_access new.plugin_access;
  }

  abbrev pub merged_settings : Table J → AppConfig V → Option (Table (Table V))
  merged_settings raw cfg = elim (lookup (codes "plugin_settings") raw) [
    | some enc ↦ json.merge_settings enc cfg.plugin_settings
    | none ↦ cfg.plugin_settings
  ]

  abbrev pub merged_access : Table J → AppConfig V → Option (Table AccessConfig)
  merged_access raw cfg = elim (lookup (codes "plugin_access") raw) [
    | some enc ↦ json.merge_access enc cfg.plugin_access
    | none ↦ cfg.plugin_access
  ]

  -- the configuration with the plugins' parts as the file has them
  abbrev pub merged : Table J → AppConfig V → AppConfig V
  merged raw cfg = record cfg {
    plugin_settings = merged_settings raw cfg;
    plugin_access = merged_access raw cfg;
  }

  -- the state after writing `file`
  unfoldable pub wrote :
      World J V → Table J → AppConfig V → AppConfig V → Option (Option (Table J)) → Bool × World J V
  unfolding normalize
  wrote w file read cfg none = (true, record w { current = normalize cfg; file = some file })
  wrote w file read cfg (some left) =
      (false, record w { current = touched w.current read cfg; file = left })

  -- what `persist` does after the change
  unfoldable pub store :
      World J V
      → Table J
      → AppConfig V
      → List Text
      → AppConfig V
      → Option (Table J)
      → Bool × World J V
  unfolding write_keys wrote
  store w raw read keys cfg none = (false, record w { current = touched w.current read cfg })
  store w raw read keys cfg (some encoded) = wrote w (write_keys keys encoded raw) read cfg w.torn

  unfoldable pub changed :
      World J V → Table J → AppConfig V → List Text → Option (AppConfig V) → Bool × World J V
  unfolding store
  changed w raw read keys none = (false, record w { current = touched w.current read read })
  changed w raw read keys (some cfg) = store w raw read keys cfg (json.encode cfg)

  -- `persist`: whether it succeeds, and the state after it
  unfoldable pub persist_on :
      World J V
      → (AppConfig V → Option (AppConfig V))
      → List Text
      → Option (Table J)
      → Bool × World J V
  unfolding changed lookup
  persist_on w mutate keys none = (false, w)
  persist_on w mutate keys (some raw) =
      let read = merged raw w.current in changed w raw read keys (mutate read)

  unfoldable pub persist :
      (AppConfig V → Option (AppConfig V)) → List Text → World J V → Bool × World J V
  unfolding persist_on
  persist mutate keys w = persist_on w mutate keys w.file

  unfoldable pub save_plugin_settings : Text → Table V → World J V → Bool × World J V
  unfolding persist insert
  save_plugin_settings id settings w =
      persist (λ (cfg : AppConfig V). some (with_settings id settings cfg))
        (codes "plugin_settings" ∷ []) w

  unfoldable pub save_plugin_access : Text → AccessConfig → World J V → Bool × World J V
  unfolding persist insert
  save_plugin_access id access w =
      persist (λ (cfg : AppConfig V). some (with_access id access cfg)) (codes "plugin_access" ∷ [])
        w

  -- `mapsKeysSorted`
  unfoldable pub maps_keys_sorted : Table J → List Text
  unfolding sort_texts
  maps_keys_sorted m = sort_texts (map (λ (p : Text × J). p.0) m)

  unfoldable pub update_core : Table J → World J V → Bool × World J V
  unfolding persist apply_all maps_keys_sorted
  update_core overrides w = persist (apply_all json.decode overrides) (maps_keys_sorted overrides) w
