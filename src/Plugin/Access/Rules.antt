-- ===== src/Plugin/Access/Rules.antt =====
-- What a prepared access configuration holds, and that an applied one decides who may use a command.
use mathlib.Core.Path.{subst}
use polarix_plus.Base.{
  if◌then◌else◌, Bool-cases, ◌>>=◌, >>=-eq-some, guard-eq-some, some_inj, Table, lookup, insert,
  lookup-insert, All, Text, text_eq, has_text, ◌≡◌, refl, ap, ◌∙◌, inl, inr, true, false, not,
  Option, none, some, List, [], ◌∷◌, map, arith,
}
use polarix_plus.Plugin.{Plugin, AccessRule, AccessConfig, no_access, Registry, publish, or_else}
use polarix_plus.Plugin.Access.{
  off, normalize_rule, normalize_access, is_valid_rule, path_set, check_commands, prepare_for,
  prepare_access, refresh_disabled, apply_access, flag_at, enabled, rule_for, allows, can_use,
}

-- an override that is worth keeping
abbrev pub IsOverride : List Text → (Text × AccessRule) → Type 0
IsOverride valid (path, rule) =
    (has_text path valid ≡ true) × (is_valid_rule rule ≡ true) × (text_eq rule.mode off ≡ false)

abbrev AllOverrides : List Text → Option (Table AccessRule) → Type 0
AllOverrides valid none = Unit
AllOverrides valid (some m) = All (IsOverride valid) m

AllOverrides-more :
    (valid : List Text) (e : Text × AccessRule) (o : Option (Table AccessRule))
    → IsOverride valid e
    → AllOverrides valid o
    → AllOverrides valid (o >>= λ (m : Table AccessRule). some (e ∷ m))
AllOverrides-more valid e none h k = tt
AllOverrides-more valid e (some m) h k = (h, k)

check_commands-AllOverrides :
    (valid : List Text) (m : Table AccessRule) → AllOverrides valid (check_commands valid m)
unfolding check_commands
check_commands-AllOverrides valid [] = tt
check_commands-AllOverrides valid ((path, rule) ∷ rest) = elim (Bool-cases (has_text path valid)) [
  | inr e ↦ rw e tt
  | inl e ↦ elim (Bool-cases (is_valid_rule rule)) [
    | inr v ↦ rw (e, v) tt
    | inl v ↦ elim (Bool-cases (text_eq rule.mode off)) [
      | inl f ↦ rw (e, v, f) (check_commands-AllOverrides valid rest)
      | inr f ↦
          rw (e, v, f)
            (AllOverrides-more valid (path, rule) (check_commands valid rest) (e, v, f)
              (check_commands-AllOverrides valid rest))
    ]
  ]
]

overrides_of :
    (valid : List Text) (o : Option (Table AccessRule)) {m : Table AccessRule}
    → o ≡ some m
    → AllOverrides valid o
    → All (IsOverride valid) m
overrides_of valid o e h = subst (AllOverrides valid) e h

-- what `PrepareAccessConfiguration` promises of its result
pub record IsPrepared (p : Plugin) (access a : AccessConfig) : Type 0 where
  pub default_valid : is_valid_rule a.default ≡ true
  pub overrides : All (IsOverride (path_set p.commands)) a.commands
  pub default_is : a.default ≡ normalize_rule access.default
  pub disabled_is : a.disabled ≡ access.disabled

prepare_for-IsPrepared :
    (p : Plugin) (access : AccessConfig) {a : AccessConfig}
    → prepare_for p access ≡ some a
    → IsPrepared p access a
unfolding prepare_for normalize_access
prepare_for-IsPrepared p access h =
    let a = normalize_access access in
    let (valid, rest) = guard-eq-some (not (is_valid_rule a.default)) _ h in
    let (m, found, last) = >>=-eq-some (check_commands (path_set p.commands) a.commands) _ rest in
    subst (IsPrepared p access) (some_inj last) (record {
      default_valid = ground arith;
      overrides =
          overrides_of (path_set p.commands) _ found
            (check_commands-AllOverrides (path_set p.commands) _);
      default_is = refl;
      disabled_is = refl;
    })

-- A configuration that `PrepareAccessConfiguration` accepts belongs to a registered plugin; its
-- default rule is the normalized one and has one of the three modes; each override that is kept
-- names a command path of the plugin and has one of the two modes that restrict; and whether the
-- plugin is disabled stays as it was.
pub prepare_access-IsPrepared :
    (id : Text) (access : AccessConfig) (r : Registry) {a : AccessConfig}
    → prepare_access id access r ≡ some a
    → (p : Plugin) × (lookup id r.plugins ≡ some p) × IsPrepared p access a
unfolding prepare_access
prepare_access-IsPrepared id access r h =
    let (p, found, last) = >>=-eq-some (lookup id r.plugins) _ h in
    (p, found, prepare_for-IsPrepared p access last)

-- the configuration of a plugin behind an `ApplyAccessConfiguration`
abbrev pub applied : Text → AccessConfig → Registry → Text → AccessConfig
applied id a r i = if text_eq id i then a else or_else (lookup i r.access) no_access

applied_eq :
    (id : Text) (a : AccessConfig) (r : Registry) (i : Text)
    → or_else (lookup i (insert id a r.access)) no_access ≡ applied id a r i
applied_eq id a r i = ground (arith, lookup-insert id i a r.access)

-- After `ApplyAccessConfiguration`, `CanUse` judges the plugin by the new rules and every other by
-- those it had.
pub can_use-apply_access :
    (id : Text) (a : AccessConfig) (r : Registry) (i path user group : Text)
    → can_use i path user group (apply_access id a r)
      ≡ some (allows (rule_for (applied id a r i) path) user group)
unfolding can_use apply_access publish refresh_disabled
can_use-apply_access id a r i path user group =
    ap (λ (x : AccessConfig). some (allows (rule_for x path) user group)) (applied_eq id a r i)

lookup-disabled :
    (i : Text) (m : Table AccessConfig)
    → flag_at (lookup i (map (λ ((id, a) : Text × AccessConfig). (id, a.disabled)) m))
      ≡ (or_else (lookup i m) no_access).disabled
unfolding lookup
lookup-disabled i [] = refl
lookup-disabled i ((k, a) ∷ m) = ground (arith, lookup-disabled i m)

-- After `ApplyAccessConfiguration`, `Enabled` of each plugin is the negation of the flag
-- `disabled` of the rules that are then in force for it.
pub enabled-apply_access :
    (id : Text) (a : AccessConfig) (r : Registry) (i : Text)
    → enabled i (apply_access id a r) ≡ not (applied id a r i).disabled
unfolding enabled apply_access publish refresh_disabled
enabled-apply_access id a r i =
    ap not (lookup-disabled i (insert id a r.access))
    ∙ ap (λ (x : AccessConfig). not x.disabled) (applied_eq id a r i)
