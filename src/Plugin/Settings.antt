-- ===== src/Plugin/Settings.antt =====
-- The settings of plugins (lib/plugin/register.go). A value of `any` is text, a Boolean or something
-- else. `validate` and `apply` say whether a plugin's callbacks return nil; a plugin without one is
-- one whose callback always does. What a callback does to the plugin itself is its own state.
use polarix_plus.Base.{
  ◌==◌, if◌then◌else◌, ◌>>=◌, Table, lookup, insert, length, Text, is_empty, Bool, true, false, not,
  ◌&&◌, Option, none, some, List, [], ◌∷◌,
}
use polarix_plus.Plugin.{ConfigField, Plugin, Registry, or_else}

pub data Value : Type 0 where
  text : Text → Value
  flag : Bool → Value
  other : Value

abbrev pub Settings : Type 0
Settings = Table Value

abbrev is_blank : Option Value → Bool
is_blank none = true
is_blank (some (text t)) = is_empty t
is_blank (some _) = false

-- the value for a field: a password that is not sent keeps the current one
unfoldable pub chosen : ConfigField → Settings → Settings → Option Value
unfolding lookup
chosen field input current =
    if field.is_password && is_blank (lookup field.key input)
    then lookup field.key current
    else lookup field.key input

abbrev pub default_value : ConfigField → Value
default_value field = if field.is_boolean then flag false else text []

-- whether a value has the type of its field
abbrev pub fits : ConfigField → Value → Bool
fits field (text t) = not field.is_boolean
fits field (flag b) = field.is_boolean
fits field other = false

-- the loop of `PrepareConfiguration`
unfoldable pub fill : List ConfigField → Settings → Settings → Settings → Option Settings
unfolding chosen insert
fill [] input current m = some m
fill (f ∷ fs) input current m =
    let v = or_else (chosen f input current) (default_value f) in
    let rest = fill fs input current (insert f.key v m) in if fits f v then rest else none

abbrev settings_at : Text → Table Settings → Settings
settings_at id m = or_else (lookup id m) []

-- what the registry keeps beside the plugins: `pluginSettings`
module _ (validate apply : Text → Settings → Bool) where
  prepare_with : Text → Settings → Settings → Option Plugin → Option Settings
  unfolding fill
  prepare_with id input current none = none
  prepare_with id input current (some p) =
      if length p.config == 0
      then none
      else (fill p.config input current [] >>= λ (m : Settings).
          if validate id m then some m else none)

  -- `PrepareConfiguration`
  unfoldable pub prepare_configuration :
      Text → Settings → Table Settings → Registry → Option Settings
  unfolding prepare_with lookup
  prepare_configuration id input stored r =
      prepare_with id input (settings_at id stored) (lookup id r.plugins)

  apply_with : Text → Settings → Table Settings → Option Plugin → Bool × Table Settings
  unfolding insert
  apply_with id s stored none = (false, stored)
  apply_with id s stored (some p) =
      if apply id s then (true, insert id s stored) else (false, stored)

  -- `ApplyConfiguration`: whether it succeeds, and the settings stored
  unfoldable pub apply_configuration :
      Text → Settings → Table Settings → Registry → Bool × Table Settings
  unfolding apply_with lookup
  apply_configuration id s stored r = apply_with id s stored (lookup id r.plugins)

  -- `LoadConfigurations`
  unfoldable pub load_configurations :
      Table Plugin → Table Settings → Table Settings → Bool × Table Settings
  unfolding lookup insert
  load_configurations [] settings stored = (true, stored)
  load_configurations ((id, p) ∷ ps) settings stored =
      let values = settings_at id settings in
      let rest = load_configurations ps settings (insert id values stored) in
      let skip = load_configurations ps settings stored in
      if length p.config == 0
      then skip
      else if not (validate id values)
      then (false, stored)
      else if not (apply id values)
      then (false, stored)
      else rest

-- the loop of `ConfiguredPlugins` that hides passwords: whether one is set takes its place
unfoldable pub mask : List ConfigField → Settings → Settings
unfolding lookup insert
mask [] m = m
mask (f ∷ fs) m =
    if f.is_password
    then mask fs (
        insert f.key
          (flag (elim (lookup f.key m) [
            | some v ↦ (elim v [ text t ↦ not (is_empty t) | flag _ ↦ false | other ↦ false ])
            | none ↦ false
          ]))
          m)
    else mask fs m

-- the settings as they are shown
pub record Shown : Type 0 where
  pub id : Text
  pub name : Text
  pub values : Settings

unfoldable pub show_plugin : Text → Plugin → Table Settings → Shown
unfolding mask
show_plugin id p stored = record {
  id = id;
  name = if is_empty p.name then id else p.name;
  values = mask p.config (settings_at id stored);
}
