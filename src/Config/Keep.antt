-- ===== src/Config/Keep.antt =====
-- What `persist` (lib/config/config.go) keeps of the configuration in force.
use polarix_plus.Base.{Table, Text, ◌≡◌, refl, Option, none, some, List}
use polarix_plus.Config.{AccessConfig, AppConfig, normalize}
use polarix_plus.Config.Persist.{
  write_keys, wrote, World, merged, store, changed, persist_on, persist, Codec,
}

-- A property that depends on neither the maps of plugins nor what is filled in.
module _ {J V : Type 0} (json : Codec J V) (P : AppConfig V → Type 0)
    (maps : (cfg : AppConfig V) (s : Option (Table (Table V))) (a : Option (Table AccessConfig))
      → P cfg
      → P (record cfg { plugin_settings = s; plugin_access = a }))
    (fills : (cfg : AppConfig V) → P cfg → P (normalize cfg)) where
  -- It holds after `persist` if the change keeps it.
  pub persist-keeps :
      (mutate : AppConfig V → Option (AppConfig V)) (keys : List Text) (w : World J V)
      → ((cfg cfg' : AppConfig V) → P cfg → mutate cfg ≡ some cfg' → P cfg')
      → P w.current
      → P (persist json mutate keys w).1.current
  unfolding persist persist_on changed store wrote
  persist-keeps mutate keys w keeps v = on_file w.file
    where
      stored :
          (raw : Table J) (read cfg : AppConfig V) (encoded : Option (Table J))
          → P cfg
          → P (store json w raw read keys cfg encoded).1.current
      stored raw read cfg none ok = maps w.current _ _ v
      stored raw read cfg (some encoded) ok = on_write w.torn
        where
          on_write :
              (t : Option (Option (Table J)))
              → P (wrote json w (write_keys keys encoded raw) read cfg t).1.current
          on_write none = fills cfg ok
          on_write (some left) = maps w.current _ _ v

      after :
          (raw : Table J) (read : AppConfig V) (r : Option (AppConfig V))
          → ((cfg : AppConfig V) → r ≡ some cfg → P cfg)
          → P (changed json w raw read keys r).1.current
      after raw read none ok = maps w.current _ _ v
      after raw read (some cfg) ok = stored raw read cfg (json.encode cfg) (ok cfg refl)

      on_file : (f : Option (Table J)) → P (persist_on json w mutate keys f).1.current
      on_file none = v
      on_file (some raw) =
          let read = merged json raw w.current in
          after raw read (mutate read) λ cfg e. keeps read cfg (maps w.current _ _ v) e
