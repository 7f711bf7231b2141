-- ===== src/Plugin/Resolve.antt =====
-- How a message's words find a command (lib/plugin/register.go). `ps` is `constant.PrefixChars()`.
pub mod Walk
pub mod Known
pub mod Root
use polarix_plus.Base.{
  leb, if◌then◌else◌, ◌>>=◌, or_try, Table, lookup, length, drop, fields, is_some, join, text_le,
  Text, codes, text_eq, is_empty, has_prefix, Bool, true, false, not, ◌&&◌, ◌||◌, Option, none,
  some, List, [], ◌∷◌, ◌++◌,
}
use polarix_plus.Plugin.{Command, prefix_of, subs_of, Index, strip, or_else, index_of}

-- constant.HasBarePrefix
unfoldable pub has_bare : List Text → Bool
has_bare [] = false
has_bare (p ∷ ps) = is_empty p || has_bare ps

-- `p != "" && strings.HasPrefix(token, p) && len(token) > len(p)`, with the rest of the token
unfoldable pub strip_symbol : Text → Text → Option Text
unfolding has_prefix
strip_symbol p token = if is_empty p then none else strip p token

-- the rest behind the first prefix that the token carries
unfoldable pub strip_any : List Text → Text → Option Text
unfolding strip_symbol
strip_any [] token = none
strip_any (p ∷ ps) token = or_try (strip_symbol p token) (strip_any ps token)

abbrev pub has_symbol : List Text → Text → Bool
has_symbol ps token = is_some (strip_any ps token)

unfoldable pub is_exact_symbol : List Text → Text → Bool
unfolding text_eq
is_exact_symbol [] token = false
is_exact_symbol (p ∷ ps) token = (not (is_empty p) && text_eq token p) || is_exact_symbol ps token

-- a name among the commands, then among the aliases
unfoldable pub named : Index → Text → Option Command
unfolding lookup
named ix name = or_try (lookup name ix.commands) (lookup name ix.aliases)

-- the loop over the prefixes
unfoldable pub match_stripped : Index → List Text → Text → Option Command
unfolding named strip_symbol
match_stripped ix [] token = none
match_stripped ix (p ∷ ps) token =
    or_try (strip_symbol p token >>= λ (rest : Text). named ix rest) (match_stripped ix ps token)

-- `matchCommandName`
unfoldable pub match_name : Index → List Text → Text → Bool → Option Command
unfolding match_stripped strip_any
match_name ix ps token allow_bare =
    if not allow_bare && not (has_symbol ps token)
    then none
    else or_try (named ix token) (match_stripped ix ps token)

-- sort.SearchStrings, less one: the last of the sorted names that is below the name
unfoldable pub last_below : List Text → Text → Option Text
unfolding text_le
last_below [] name = none
last_below (n ∷ ns) name = if text_le name n then none else some (or_else (last_below ns name) n)

-- `gluedCommand`: the command and what is glued to it
glued_at : Index → Text → Option Text → Option (Command × Text)
unfolding lookup has_prefix
glued_at ix name none = none
glued_at ix name (some cand) =
    if not (has_prefix cand name) || leb (length name) (length cand)
    then none
    else (lookup cand ix.commands >>= λ (c : Command). some (c, drop (length cand) name))

unfoldable pub glued : Index → List Text → Text → Option (Command × Text)
unfolding glued_at last_below strip_any
glued ix ps token =
    strip_any ps token >>= λ (name : Text). glued_at ix name (last_below ix.names name)

-- `ResolveRoot`: the root command and the words behind it
unfoldable pub resolve_root : Index → List Text → List Text → Option (Command × List Text)
unfolding match_name glued is_exact_symbol has_bare
resolve_root ix ps [] = none
resolve_root ix ps (first ∷ rest) =
    if is_exact_symbol ps first
    then elim rest [
      | [] ↦ none
      | second ∷ tail ↦ (match_name ix ps second true >>= λ (c : Command). some (c, tail))
    ]
    else elim (match_name ix ps first (has_bare ps)) [
      | some c ↦ some (c, rest)
      | none ↦
          (glued ix ps first >>= λ (g : Command × Text).
          some (g.0, if is_empty g.1 then rest else g.1 ∷ rest))
    ]

-- the child that a word names: by itself, or behind one of the prefixes
unfoldable pub child_stripped : Table Command → List Text → Text → Option Command
unfolding lookup strip_symbol
child_stripped m [] token = none
child_stripped m (p ∷ ps) token =
    or_try (strip_symbol p token >>= λ (rest : Text). lookup rest m) (child_stripped m ps token)

unfoldable pub child : Command → List Text → Text → Option Command
unfolding index_of child_stripped
child c ps token =
    let m = index_of (subs_of c) in or_try (lookup token m) (child_stripped m ps token)

-- `Resolve`: the command reached, its path, and the words that are left
unfoldable pub resolve_from : List Text → Command → Text → List Text → Command × (Text × List Text)
unfolding child
resolve_from ps c path [] = (c, (path, []))
resolve_from ps c path (t ∷ ts) = elim (child c ps t) [
  | none ↦ (c, (path, t ∷ ts))
  | some next ↦ resolve_from ps next (path ++ b' ' ∷ prefix_of next) ts
]

unfoldable pub resolve : List Text → Command → List Text → Command × (Text × List Text)
unfolding resolve_from
resolve ps root tokens = resolve_from ps root (prefix_of root) tokens

-- `ResolveCommandPath`, on the words of the message
unfoldable path_of : List Text → Command → List Text → Text
unfolding resolve
path_of ps root [] = prefix_of root
path_of ps root (t ∷ []) = prefix_of root
path_of ps root (t ∷ u ∷ us) = (resolve ps root (u ∷ us)).1.0

unfoldable pub resolve_path : List Text → Command → Text → Text
unfolding fields path_of
resolve_path ps root raw = path_of ps root (fields raw)

-- `canonicalName`
unfoldable pub canonical_name : List Text → Text → Text
unfolding strip_any
canonical_name ps token = or_else (strip_any ps token) token

-- the first prefix that is not empty
unfoldable pub first_symbol : List Text → Option Text
first_symbol [] = none
first_symbol (p ∷ ps) = if is_empty p then first_symbol ps else some p

-- `NormalizeCommandMsg`
unfoldable pub normalize_msg : Index → List Text → Text → Text
unfolding fields match_name canonical_name first_symbol join has_bare
normalize_msg ix ps msg = elim (fields msg) [
  | [] ↦ msg
  | t ∷ ts ↦
      (if not (is_some (match_name ix ps t (has_bare ps)))
        then msg
        else join (codes " ")
            (elim (first_symbol ps) [ none ↦ t | some p ↦ p ++ canonical_name ps t ] ∷ ts))
]
