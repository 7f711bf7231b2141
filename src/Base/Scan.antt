-- ===== src/Base/Scan.antt =====
-- The functions of Go's `strings` and `strconv` that the program calls, over bytes. White space is
-- that of ASCII; the wider Unicode spaces, which never stand in a command, are ordinary bytes here.
use Prim.Native.Nat.{ℕ, suc, ◌+◌}
use mathlib.Core.List.{List, [], ◌∷◌, ◌++◌, reverse}
use mathlib.Core.Option
use mathlib.Core.Option.{Option, none, some}
use mathlib.Core.Bool.{Bool, true, false, ◌||◌, ◌&&◌}
use polarix_plus.Base.Tests.{◌==◌, leb, if◌then◌else◌}
use polarix_plus.Base.Bytes.{Text, has_prefix, is_empty}

abbrev pub is_space : ℕ → Bool
is_space c = c == b' ' || (leb 9 c && leb c 13)

-- strings.TrimLeft by a test on bytes
unfoldable pub trim_left : (ℕ → Bool) → Text → Text
trim_left p [] = []
trim_left p (c ∷ s) = let rest = trim_left p s in if p c then rest else c ∷ s

-- strings.TrimSpace
unfoldable pub trim_space : Text → Text
unfolding trim_left
trim_space s = reverse (trim_left is_space (reverse (trim_left is_space s)))

-- strings.ToLower on ASCII
abbrev pub to_lower : ℕ → ℕ
to_lower c = if leb b'A' c && leb c b'Z' then c + 32 else c

-- the loop of strings.Fields: the fields behind the one being read
unfoldable pub fields_from : Text → Text → List Text
fields_from [] [] = []
fields_from [] (c ∷ cur) = (c ∷ cur) ∷ []
fields_from (c ∷ s) cur =
    let ended = fields_from s [] in
    let longer = fields_from s (cur ++ c ∷ []) in
    if is_space c then (if is_empty cur then ended else cur ∷ ended) else longer

-- strings.Fields
unfoldable pub fields : Text → List Text
unfolding fields_from
fields s = fields_from s []

-- strings.IndexByte
unfoldable pub index_byte : ℕ → Text → Option ℕ
index_byte b [] = none
index_byte b (c ∷ s) = let rest = Option.map suc (index_byte b s) in if c == b then some 0 else rest

-- strings.Index
unfoldable pub index : Text → Text → Option ℕ
unfolding has_prefix
index t [] = if has_prefix t [] then some 0 else none
index t (c ∷ s) =
    let rest = Option.map suc (index t s) in if has_prefix t (c ∷ s) then some 0 else rest

-- strings.Contains
abbrev pub is_some {ℓ} : {A : Type ℓ} → Option A → Bool
is_some none = false
is_some (some _) = true

-- strings.Join
unfoldable pub join : Text → List Text → Text
join sep [] = []
join sep (s ∷ []) = s
join sep (s ∷ t ∷ ss) = s ++ (sep ++ join sep (t ∷ ss))

-- strings.Split by one byte: at least one part
unfoldable pub split : ℕ → Text → List Text
split b [] = [] ∷ []
split b (c ∷ s) =
    let rest = split b s in
    if c == b then [] ∷ rest else elim rest [ [] ↦ (c ∷ []) ∷ [] | p ∷ ps ↦ (c ∷ p) ∷ ps ]

-- strings.SplitN(s, b, 2) at a byte that stands in the text: the parts before and behind it
unfoldable pub cut : ℕ → Text → Option (Text × Text)
cut b [] = none
cut b (c ∷ s) =
    let rest = Option.map (λ ((h, t) : Text × Text). (c ∷ h, t)) (cut b s) in
    if c == b then some ([], s) else rest
