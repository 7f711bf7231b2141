-- ===== src/Plugin/Access.antt =====
-- Access rules (lib/plugin/register.go): how a configuration is normalized, checked and applied, and
-- who may use a command. An error is `none`.
pub mod Ids
pub mod Rules
use polarix_plus.Base.{
  if◌then◌else◌, ◌>>=◌, Table, lookup, insert, trim_space, to_lower, index, sort_texts, Text, codes,
  text_eq, is_empty, has_text, Bool, true, false, not, ◌&&◌, ◌||◌, Option, none, some, List, [],
  ◌∷◌, ◌++◌, map,
}
use polarix_plus.Plugin.{
  Command, Commands, prefix_of, Plugin, AccessRule, AccessConfig, no_access, Registry, publish,
  or_else, command, no_commands, ◌⨾◌,
}

abbrev pub off : Text
off = codes "off"

abbrev pub whitelist : Text
whitelist = codes "whitelist"

abbrev pub blacklist : Text
blacklist = codes "blacklist"

-- the loop of `cleanIDs`, with the IDs seen
unfoldable pub clean_from : List Text → List Text → List Text
unfolding trim_space text_eq
clean_from seen [] = []
clean_from seen (v ∷ vs) =
    let id = trim_space v in
    let rest = clean_from seen vs in
    let more = id ∷ clean_from (id ∷ seen) vs in
    if not (is_empty id) && not (has_text id seen) then more else rest

unfoldable pub clean_ids : List Text → List Text
unfolding clean_from sort_texts
clean_ids values = sort_texts (clean_from [] values)

unfoldable pub normalize_rule : AccessRule → AccessRule
unfolding trim_space clean_ids
normalize_rule r =
    let mode = map to_lower (trim_space r.mode) in
    record {
      mode = if is_empty mode then off else mode;
      users = clean_ids r.users;
      groups = clean_ids r.groups;
    }

unfoldable pub normalize_commands : Table AccessRule → Table AccessRule → Table AccessRule
unfolding normalize_rule insert trim_space
normalize_commands [] m = m
normalize_commands ((path, rule) ∷ rest) m =
    normalize_commands rest (insert (trim_space path) (normalize_rule rule) m)

unfoldable pub normalize_access : AccessConfig → AccessConfig
unfolding normalize_rule normalize_commands
normalize_access a = record a {
  default = normalize_rule a.default;
  commands = normalize_commands a.commands [];
}

unfoldable pub is_valid_rule : AccessRule → Bool
unfolding text_eq
is_valid_rule r =
    not
      (not (text_eq r.mode off) && not (text_eq r.mode whitelist) && not (text_eq r.mode blacklist))

-- `collectCommandPaths`
unfoldable mutual
  pub collect_paths : Command → Text → List Text
  collect_paths (command p al i h cs) path = path ∷ collect_all cs path

  pub collect_all : Commands → Text → List Text
  collect_all no_commands path = []
  collect_all (c ⨾ cs) path = collect_paths c (path ++ b' ' ∷ prefix_of c) ++ collect_all cs path

-- `commandPathSet`
unfoldable pub path_set : Commands → List Text
unfolding collect_paths
path_set no_commands = []
path_set (c ⨾ cs) = collect_paths c (prefix_of c) ++ path_set cs

-- the loop over the overrides: they are all checked, and those that are off are dropped
unfoldable pub check_commands : List Text → Table AccessRule → Option (Table AccessRule)
unfolding is_valid_rule text_eq
check_commands valid [] = some []
check_commands valid ((path, rule) ∷ rest) =
    let checked = check_commands valid rest in
    if not (has_text path valid)
    then none
    else if not (is_valid_rule rule)
    then none
    else if text_eq rule.mode off
    then checked
    else (checked >>= λ (m : Table AccessRule). some ((path, rule) ∷ m))

-- the body that `PrepareAccessConfiguration` and `LoadAccessConfigurations` share
unfoldable pub prepare_for : Plugin → AccessConfig → Option AccessConfig
unfolding normalize_access check_commands path_set is_valid_rule
prepare_for p access =
    let a = normalize_access access in
    let checked = check_commands (path_set p.commands) a.commands in
    if not (is_valid_rule a.default)
    then none
    else (checked >>= λ (m : Table AccessRule). some (record a { commands = m }))

unfoldable pub prepare_access : Text → AccessConfig → Registry → Option AccessConfig
unfolding prepare_for lookup
prepare_access id access r = lookup id r.plugins >>= λ (p : Plugin). prepare_for p access

-- `refreshDisabledLocked`
unfoldable pub refresh_disabled : Registry → Registry
refresh_disabled r = record r {
  disabled = some (map (λ ((id, a) : Text × AccessConfig). (id, a.disabled)) r.access);
}

-- `ApplyAccessConfiguration`
unfoldable pub apply_access : Text → AccessConfig → Registry → Registry
unfolding refresh_disabled publish insert
apply_access id access r =
    publish (refresh_disabled (record r { access = insert id access r.access }))

-- the loop of `LoadAccessConfigurations`; what was loaded before an error stays
unfoldable pub load_all : Table Plugin → Table AccessConfig → Registry → Bool × Registry
unfolding prepare_for lookup insert
load_all [] configs r = (true, r)
load_all ((id, p) ∷ ps) configs r = elim (prepare_for p (or_else (lookup id configs) no_access)) [
  | none ↦ (false, r)
  | some a ↦ load_all ps configs (record r { access = insert id a r.access })
]

unfoldable pub load_access : Table AccessConfig → Registry → Bool × Registry
unfolding load_all refresh_disabled publish
load_access configs r =
    let out = load_all r.plugins configs r in
    if out.0 then (true, publish (refresh_disabled out.1)) else out

-- a table that is not there reads as false
abbrev pub flag_at : Option Bool → Bool
flag_at o = or_else o false

abbrev pub enabled_in : Text → Option (Table Bool) → Bool
enabled_in id none = true
enabled_in id (some m) = not (flag_at (lookup id m))

-- `Enabled`
unfoldable pub enabled : Text → Registry → Bool
unfolding lookup
enabled id r = enabled_in id r.disabled

-- `contains`
unfoldable pub contains : List Text → Text → Bool
unfolding text_eq
contains values target = if is_empty target then false else has_text target values

-- the rule for a command: the override, or the default
abbrev pub rule_for : AccessConfig → Text → AccessRule
rule_for a path = or_else (lookup path a.commands) a.default

unfoldable pub allows : AccessRule → Text → Text → Bool
unfolding contains text_eq
allows rule user group =
    let user_matched = contains rule.users user in
    let group_matched = contains rule.groups group in
    if text_eq rule.mode whitelist
    then user_matched || group_matched
    else if text_eq rule.mode blacklist
    then not user_matched && not group_matched
    else true

-- `CanUse`; before the first snapshot it panics
unfoldable pub can_use : Text → Text → Text → Text → Registry → Option Bool
unfolding allows lookup
can_use id path user group r = elim r.index [
  | none ↦ none
  | some ix ↦ some (allows (rule_for (or_else (lookup id ix.access) no_access) path) user group)
]
