-- ===== src/Plugin/Resolve/Known.antt =====
-- The paths that `Resolve` gives and those that an access configuration may name (`Register` and
-- `commandPathSet` in lib/plugin/register.go).
use mathlib.Core.Path.{subst}
use polarix_plus.Base.{
  if-eq-some, Table, lookup, insert, lookup-insert, lookup-insert_self, Text, text_eq, has_text,
  ◌≡◌, refl, sym, ap, ◌∙◌, ◌⊎◌, inl, inr, true, some, List, [], ◌∷◌,
}
use polarix_plus.Plugin.{
  prefix_of, aliases_of, publish, normalize_name, build_index, add_aliases, with_handle,
  add_commands, built_roots, register, Plugin, Registry, Command, Commands, no_commands, ◌⨾◌,
}
use polarix_plus.Plugin.Access.{collect_paths, path_set}
use polarix_plus.Plugin.Resolve.{resolve}
use polarix_plus.Plugin.Resolve.Walk.{
  has_text-append_left, has_text-append_right, resolve_in_root, IsIn, first, later,
}

-- A command stands in the registry under a name or an alias.
abbrev pub IsIndexed : Command → Registry → Type 0
IsIndexed c r =
    (name : Text) × ((lookup name r.commands ≡ some c) ⊎ (lookup name r.aliases ≡ some c))

lookup-inserted :
    (key : Text) (c d : Command) (m : Table Command) (name : Text)
    → lookup name (insert key c m) ≡ some d
    → (c ≡ d) ⊎ (lookup name m ≡ some d)
lookup-inserted key c d m name e =
    elim (if-eq-some (text_eq key name) c (lookup name m) (sym (lookup-insert key name c m) ∙ e)) [
      | inl (_, same) ↦ inl same
      | inr (_, old) ↦ inr old
    ]

lookup-add_aliases :
    (al : List Text) (c d : Command) (m : Table Command) (name : Text)
    → lookup name (add_aliases al c m) ≡ some d
    → (c ≡ d) ⊎ (lookup name m ≡ some d)
unfolding add_aliases
lookup-add_aliases [] c d m name h = inr h
lookup-add_aliases (a ∷ al) c d m name h =
    elim (lookup-add_aliases al c d (insert (normalize_name a) c m) name h) [
      | inl e ↦ inl e
      | inr e ↦ lookup-inserted (normalize_name a) c d m name e
    ]

-- a command that is indexed was so before, or is one of those added
IsIndexed-add_commands :
    (id : Text) (cs : Commands) (r : Registry) (c : Command)
    → IsIndexed c (add_commands id cs r)
    → IsIndexed c r ⊎ IsIn c (built_roots id cs)
unfolding add_commands built_roots
IsIndexed-add_commands id no_commands r c h = inl h
IsIndexed-add_commands id (b ⨾ cs) r c h = elim (IsIndexed-add_commands id cs _ c h) [
  | inl (name, at) ↦ elim at [
    | inl e ↦
        added r.commands name (lookup-inserted (prefix_of built) built c r.commands name e)
          (λ q. inl q)
    | inr e ↦
        added r.aliases name (lookup-add_aliases (aliases_of built) built c r.aliases name e)
          (λ q. inr q)
  ]
  | inr i ↦ inr (later i)
]
  where
    built : Command
    built = build_index id (with_handle b)

    added :
        (m : Table Command) (name : Text)
        → (built ≡ c) ⊎ (lookup name m ≡ some c)
        → (lookup name m ≡ some c
            → (lookup name r.commands ≡ some c) ⊎ (lookup name r.aliases ≡ some c))
        → IsIndexed c r ⊎ IsIn c (built ⨾ built_roots id cs)
    added m name (inl same) old = inr (subst (λ d. IsIn d (built ⨾ built_roots id cs)) same first)
    added m name (inr e) old = inl (name, old e)

plugins-add_commands :
    (id : Text) (cs : Commands) (r : Registry) → (add_commands id cs r).plugins ≡ r.plugins
unfolding add_commands
plugins-add_commands id no_commands r = refl
plugins-add_commands id (c ⨾ cs) r = plugins-add_commands id cs _

path_set-IsIn :
    (c : Command) (cs : Commands) (q : Text)
    → IsIn c cs
    → has_text q (collect_paths c (prefix_of c)) ≡ true
    → has_text q (path_set cs) ≡ true
unfolding path_set
path_set-IsIn c no_commands q i h = elim i [ ]
path_set-IsIn c (_ ⨾ cs) q first h = has_text-append_left q _ (path_set cs) h
path_set-IsIn c (d ⨾ cs) q (later i) h =
    has_text-append_right q (collect_paths d (prefix_of d)) _ (path_set-IsIn c cs q i h)

-- A command that is indexed once a plugin is registered was indexed before, or the plugin is found
-- under its id, and the path that `Resolve` gives for the command and any words, for which `CanUse`
-- looks up a rule, is one of the paths that an access configuration of the plugin may name.
pub resolve_path_known :
    (ps : List Text) (p : Plugin) (r : Registry) (root : Command) (tokens : List Text)
    → IsIndexed root (register p r)
    → IsIndexed root r
      ⊎ ((q : Plugin) × (lookup p.id (register p r).plugins ≡ some q)
          × (has_text (resolve ps root tokens).1.0 (path_set q.commands) ≡ true))
unfolding register publish
resolve_path_known ps p r root tokens h = elim (IsIndexed-add_commands p.id p.commands _ root h) [
  | inl old ↦ inl old
  | inr i ↦ inr (
    built,
    ap (lookup p.id) (plugins-add_commands p.id p.commands _)
        ∙ lookup-insert_self p.id built r.plugins,
    path_set-IsIn root built.commands _ i (resolve_in_root ps root tokens),
  )
]
  where
    built : Plugin
    built = record p { commands = built_roots p.id p.commands }
