-- ===== src/Config/Tests.antt =====
-- Runs of the configuration on a small JSON.
use polarix_plus.Base.{
  Table, lookup, codes, text_eq, ℕ, ◌-◌, ◌^◌, ◌≡◌, refl, ◌⊎◌, none, some, [], ◌∷◌, arith,
}
use polarix_plus.Config.{AppConfig, normalize}
use polarix_plus.Config.Keys.{apply_core_key, apply_all}
use polarix_plus.Config.Persist.{World, merged, update_core}
use polarix_plus.Config.Valid.{IsValid, do_ops, do_ops-IsValid, core, settings, edited}
use polarix_plus.Config.Reorder.{apply_all-Reordered, swapped}
use polarix_plus.Config.File.{update_core-Stored, update_core-fails}
use polarix_plus.Config.Sample.{Json, decoder, codec, sample, sample_file, world, str, num, strs}

port_zero : apply_core_key decoder sample (codes "port") (num 0) ≡ none
unfolding apply_core_key
port_zero = refl

negative_threshold :
    apply_core_key decoder sample (codes "upload_threshold") (num (2 ^ 64 - 1)) ≡ none
unfolding apply_core_key
negative_threshold = refl

intents_trimmed :
    apply_core_key decoder sample (codes "intents") (strs (codes " A " ∷ codes " " ∷ []))
    ≡ some (record sample { intents = some (codes "A" ∷ []) })
unfolding apply_core_key
intents_trimmed = refl

sample-IsValid : IsValid sample
unfolding text_eq
sample-IsValid = record {
  port_set = omega arith;
  protocol_known = refl;
  level_known = refl;
  threshold_positive = refl;
}

abbrev new_port : Table Json
new_port = (codes "port", num 80) ∷ (codes "log_level", str (codes "warn")) ∷ []

do_ops-IsValid_example :
    IsValid
      (do_ops codec
        (core new_port
          ∷ settings (codes "p") ((codes "k", 1) ∷ [])
          ∷ edited none none
          ∷ core ((codes "port", num 0) ∷ [])
          ∷ [])
        world).current
do_ops-IsValid_example =
    do_ops-IsValid codec
      (core new_port
        ∷ settings (codes "p") ((codes "k", 1) ∷ [])
        ∷ edited none none
        ∷ core ((codes "port", num 0) ∷ [])
        ∷ [])
      world sample-IsValid

apply_all-Reordered_example :
    apply_all decoder new_port sample
    ≡ apply_all decoder
        ((codes "log_level", str (codes "warn")) ∷ (codes "port", num 80) ∷ [])
        sample
unfolding text_eq
apply_all-Reordered_example =
    apply_all-Reordered decoder sample
      (swapped (codes "port", num 80) (codes "log_level", str (codes "warn")) [] refl)

update_core-Stored_example :
    (cfg : AppConfig ℕ) × (encoded : Table Json) × (file : Table Json) × (apply_all decoder new_port
        sample
      ≡ some cfg)
    × (codec.encode cfg ≡ some encoded)
    × ((update_core codec new_port world).1.current ≡ normalize cfg)
    × ((update_core codec new_port world).1.file ≡ some file)
    × (lookup (codes "note") file ≡ some (str (codes "mine")))
unfolding update_core lookup text_eq
update_core-Stored_example =
    update_core-Stored codec new_port world sample_file (codes "note") refl refl

-- a disk that is full empties the file
abbrev full_disk : World Json ℕ
full_disk = record world { torn = some none }

update_core-fails_example :
    let w' = (update_core codec new_port full_disk).1 in
    ((w'.file ≡ some sample_file)
      ⊎ ((raw : Table Json) × (cfg : AppConfig ℕ) × (encoded : Table Json) × (some sample_file
            ≡ some raw)
          × (apply_all codec.decode new_port (merged codec raw sample) ≡ some cfg)
          × (codec.encode cfg ≡ some encoded)
          × (some none ≡ some w'.file)))
    × (w'.current ≡ record sample {
      plugin_settings = w'.current.plugin_settings;
      plugin_access = w'.current.plugin_access;
    })
unfolding update_core
update_core-fails_example = update_core-fails codec new_port full_disk refl
