-- ===== src/Plugin/Resolve/Walk.antt =====
-- The walk down the sub-commands.
use mathlib.Core.Path.{subst}
use polarix_plus.Base.{
  Bool-cases, ◌>>=◌, >>=-eq-some, if-eq-some, or_try-eq-some, Table, lookup, insert, All, Text,
  text_eq, text_eq_refl, has_text, ◌≡◌, refl, sym, ap, inl, inr, true, Option, none, some, List, [],
  ◌∷◌, ◌++◌, arith,
}
use polarix_plus.Plugin.{
  Command, Commands, prefix_of, aliases_of, subs_of, normalize_name, add_aliases, index_from,
  index_of, command, no_commands, ◌⨾◌,
}
use polarix_plus.Plugin.Access.{collect_paths, collect_all}
use polarix_plus.Plugin.Resolve.{strip_symbol, child_stripped, child, resolve_from, resolve}

-- Words that lead from one command and its path to another.
pub data Steps (ps : List Text) : Command → Text → List Text → Command → Text → Type 0 where
  here : {c : Command} {path : Text} → Steps ps c path [] c path
  down :
      (next : Command) {c d : Command} {path end t : Text} {ts : List Text}
      → child c ps t ≡ some next
      → Steps ps next (path ++ b' ' ∷ prefix_of next) ts d end
      → Steps ps c path (t ∷ ts) d end

-- no word is left, or the next one names no child
abbrev pub IsStuck : List Text → Command → List Text → Type 0
IsStuck ps c [] = Unit
IsStuck ps c (t ∷ ts) = child c ps t ≡ none

-- where `Resolve` ends
pub record Reached (ps : List Text) (root : Command) (path : Text) (tokens : List Text)
    (out : Command × (Text × List Text)) : Type 0 where
  pub used : List Text
  pub walk : Steps ps root path used out.0 out.1.0
  pub whole : tokens ≡ used ++ out.1.1
  pub stuck : IsStuck ps out.0 out.1.1

-- one step of the walk, by the child found
on_child :
    List Text → Command → Text → Text → List Text → Option Command → Command × (Text × List Text)
unfolding resolve_from
on_child ps c path t ts none = (c, (path, t ∷ ts))
on_child ps c path t ts (some next) = resolve_from ps next (path ++ b' ' ∷ prefix_of next) ts

resolve_from-on_child :
    (ps : List Text) (c : Command) (path t : Text) (ts : List Text) (o : Option Command)
    → child c ps t ≡ o
    → resolve_from ps c path (t ∷ ts) ≡ on_child ps c path t ts o
unfolding resolve_from on_child
resolve_from-on_child ps c path t ts none e = rw (e, resolve_from) refl
resolve_from-on_child ps c path t ts (some next) e = rw (e, resolve_from) refl

Reached-down :
    (ps : List Text) (next c : Command) (path t : Text) (ts : List Text)
    (out : Command × (Text × List Text))
    → child c ps t ≡ some next
    → Reached ps next (path ++ b' ' ∷ prefix_of next) ts out
    → Reached ps c path (t ∷ ts) out
Reached-down ps next c path t ts out e r = record {
  used = t ∷ r.used;
  walk = down next e r.walk;
  whole = ap (λ l. t ∷ l) r.whole;
  stuck = r.stuck;
}

resolve_from-Reached :
    (ps : List Text) (c : Command) (path : Text) (ts : List Text)
    → Reached ps c path ts (resolve_from ps c path ts)
unfolding resolve_from on_child
resolve_from-Reached ps c path [] = record { used = []; walk = here; whole = refl; stuck = tt }
resolve_from-Reached ps c path (t ∷ ts) =
    subst (Reached ps c path (t ∷ ts))
      (sym (resolve_from-on_child ps c path t ts (child c ps t) refl))
      (step (λ next. resolve_from-Reached ps next (path ++ b' ' ∷ prefix_of next) ts) (child c ps t)
        refl)
  where
    step :
        ((next : Command)
          → let longer = path ++ b' ' ∷ prefix_of next in
            Reached ps next longer ts (resolve_from ps next longer ts))
        → (o : Option Command) → child c ps t ≡ o
        → Reached ps c path (t ∷ ts) (on_child ps c path t ts o)
    step f none e = record { used = []; walk = here; whole = refl; stuck = e }
    step f (some next) e = Reached-down ps next c path t ts _ e (f next)

-- `Resolve` follows words from the front as long as each names a child of the command reached, by
-- itself or behind a prefix symbol; the words left are those behind.
pub resolve-Reached :
    (ps : List Text) (root : Command) (tokens : List Text)
    → Reached ps root (prefix_of root) tokens (resolve ps root tokens)
unfolding resolve
resolve-Reached ps root tokens = resolve_from-Reached ps root (prefix_of root) tokens

-- The command is one of the sub-commands.
pub data IsIn (c : Command) : Commands → Type 0 where
  first : {cs : Commands} → IsIn c (c ⨾ cs)
  later : {d : Command} {cs : Commands} → IsIn c cs → IsIn c (d ⨾ cs)

-- all the commands of a table satisfy a predicate
abbrev Holds : (Command → Type 0) → Table Command → Type 0
Holds P m = All (λ (e : Text × Command). P e.1) m

Holds-lookup :
    (P : Command → Type 0) (k : Text) (m : Table Command) {c : Command}
    → Holds P m
    → lookup k m ≡ some c
    → P c
unfolding lookup
Holds-lookup P k [] h e = cc
Holds-lookup P k ((j, d) ∷ m) h e = elim (if-eq-some (text_eq j k) d (lookup k m) e) [
  | inl q ↦ subst P q.1 h.0
  | inr q ↦ Holds-lookup P k m h.1 q.1
]

Holds-insert :
    (P : Command → Type 0) (k : Text) (c : Command) (m : Table Command)
    → P c
    → Holds P m
    → Holds P (insert k c m)
unfolding insert
Holds-insert P k c [] p h = (p, tt)
Holds-insert P k c ((j, d) ∷ m) p h = elim (Bool-cases (text_eq j k)) [
  | inl q ↦ rw q (p, h.1)
  | inr q ↦ rw q (h.0, Holds-insert P k c m p h.1)
]

Holds-add_aliases :
    (P : Command → Type 0) (names : List Text) (c : Command) (m : Table Command)
    → P c
    → Holds P m
    → Holds P (add_aliases names c m)
unfolding add_aliases
Holds-add_aliases P [] c m p h = h
Holds-add_aliases P (a ∷ names) c m p h =
    Holds-add_aliases P names c _ p (Holds-insert P (normalize_name a) c m p h)

Holds-index_from :
    (P : Command → Type 0) (cs : Commands) (m : Table Command)
    → ((c : Command) → IsIn c cs → P c)
    → Holds P m
    → Holds P (index_from cs m)
unfolding index_from
Holds-index_from P no_commands m p h = h
Holds-index_from P (c ⨾ cs) m p h =
    Holds-index_from P cs _ (λ d i. p d (later i))
      (Holds-add_aliases P (aliases_of c) c _ (p c first)
        (Holds-insert P (prefix_of c) c m (p c first) h))

lookup-index_of :
    (cs : Commands) (k : Text) {c : Command} → lookup k (index_of cs) ≡ some c → IsIn c cs
unfolding index_of
lookup-index_of cs k e =
    Holds-lookup (λ c. IsIn c cs) k (index_of cs)
      (Holds-index_from (λ c. IsIn c cs) cs [] (λ c i. i) tt) e

child_stripped-IsIn :
    (cs : Commands) (ps : List Text) (t : Text) {c : Command}
    → child_stripped (index_of cs) ps t ≡ some c
    → IsIn c cs
unfolding child_stripped
child_stripped-IsIn cs [] t e = cc
child_stripped-IsIn cs (p ∷ ps) t e =
    elim (or_try-eq-some (strip_symbol p t >>= λ (rest : Text). lookup rest (index_of cs)) _ e) [
      | inl q ↦
          let (rest, _, found) = >>=-eq-some (strip_symbol p t) _ q in lookup-index_of cs rest found
      | inr q ↦ child_stripped-IsIn cs ps t q
    ]

child-IsIn :
    (c : Command) (ps : List Text) (t : Text) {d : Command}
    → child c ps t ≡ some d
    → IsIn d (subs_of c)
unfolding child
child-IsIn c ps t e = elim (or_try-eq-some (lookup t (index_of (subs_of c))) _ e) [
  | inl q ↦ lookup-index_of (subs_of c) t q
  | inr q ↦ child_stripped-IsIn (subs_of c) ps t q
]

pub has_text-append_left :
    (q : Text) (xs ys : List Text) → has_text q xs ≡ true → has_text q (xs ++ ys) ≡ true
has_text-append_left q [] ys h = cc
has_text-append_left q (x ∷ xs) ys h = ground (arith, has_text-append_left q xs ys)

pub has_text-append_right :
    (q : Text) (xs ys : List Text) → has_text q ys ≡ true → has_text q (xs ++ ys) ≡ true
has_text-append_right q [] ys h = h
has_text-append_right q (x ∷ xs) ys h = ground (arith, has_text-append_right q xs ys)

pub collect_all-IsIn :
    (c : Command) (cs : Commands) (path q : Text)
    → IsIn c cs
    → has_text q (collect_paths c (path ++ b' ' ∷ prefix_of c)) ≡ true
    → has_text q (collect_all cs path) ≡ true
unfolding collect_paths
collect_all-IsIn c no_commands path q i h = elim i [ ]
collect_all-IsIn c (_ ⨾ cs) path q first h = has_text-append_left q _ (collect_all cs path) h
collect_all-IsIn c (d ⨾ cs) path q (later i) h =
    has_text-append_right q (collect_paths d (path ++ b' ' ∷ prefix_of d)) _
      (collect_all-IsIn c cs path q i h)

collect_paths-subs :
    (c : Command) (path q : Text)
    → has_text q (collect_all (subs_of c) path) ≡ true
    → has_text q (collect_paths c path) ≡ true
unfolding collect_paths
collect_paths-subs (command p al i h cs) path q e = ground arith

collect_paths_self : (c : Command) (path : Text) → has_text path (collect_paths c path) ≡ true
unfolding collect_paths
collect_paths_self (command p al i h cs) path = ground (arith, text_eq_refl path)

Steps-path :
    {ps : List Text} {c d : Command} {path end : Text} {ts : List Text}
    → Steps ps c path ts d end
    → has_text end (collect_paths c path) ≡ true
Steps-path {c = c} {path = path} here = collect_paths_self c path
Steps-path {ps} {c} {path = path} {end} (down next {t = t} e s) =
    collect_paths-subs c path end
      (collect_all-IsIn next (subs_of c) path end (child-IsIn c ps t e) (Steps-path s))

-- The path that `Resolve` gives is one of the paths of its root command.
pub resolve_in_root :
    (ps : List Text) (root : Command) (tokens : List Text)
    → has_text (resolve ps root tokens).1.0 (collect_paths root (prefix_of root)) ≡ true
resolve_in_root ps root tokens = Steps-path (resolve-Reached ps root tokens).walk
