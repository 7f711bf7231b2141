-- ===== src/Middleware/Arguments.antt =====
-- The text of a command's arguments (`rawArgs`, `usageText` and `quotedArgs` in
-- lib/middleware/handle.go). A slice that begins behind the end of its text, which panics, is `none`.
pub mod Layout
use polarix_plus.Base.{
  ltb, leb, ◌==◌, if◌then◌else◌, ◌>>=◌, length, take, drop, trim_left, index, join, cut, Text,
  codes, is_empty, has_prefix, ℕ, ◌+◌, ◌-◌, Bool, not, ◌&&◌, ◌||◌, Option, none, some, List, [],
  ◌∷◌, ◌++◌,
}

-- strings.TrimLeft(s, " \t\n")
abbrev pub is_layout : ℕ → Bool
is_layout c = c == b' ' || (c == 9 || c == 10)

abbrev pub slice_from : ℕ → Text → Option Text
slice_from n s = if leb n (length s) then some (drop n s) else none

-- what stands behind the words, each searched for behind the one before
unfoldable pub after_words : Text → List Text → Option Text
unfolding index
after_words s [] = some s
after_words s (t ∷ ts) = index t s >>= λ (i : ℕ). after_words (drop (i + length t) s) ts

-- behind the prefix and the name at the first word, with the first prefix that it has
unfoldable pub glued_args : List Text → Text → Text → List Text → Text → Option Text
unfolding has_prefix index join
glued_args [] content word rest name = some (join (codes " ") rest)
glued_args (p ∷ ps) content word rest name =
    let later = glued_args ps content word rest name in
    if not (is_empty p) && has_prefix p word
    then elim (index word content) [
      | some i ↦ slice_from (i + length p + length name) content
      | none ↦ some (join (codes " ") rest)
    ]
    else later

abbrev pub raw_behind : List Text → Option Text → Option Text
raw_behind rest none = some (join (codes " ") rest)
raw_behind rest (some s) = some (trim_left is_layout s)

-- `rawArgs`, which reads the first of the words where none belongs to the command
unfoldable pub raw_args : List Text → Text → List Text → List Text → Text → Option Text
unfolding after_words glued_args trim_left join
raw_args ps content [] rest name = some (join (codes " ") rest)
raw_args ps content (t ∷ ts) rest name =
    let n = length (t ∷ ts) - length rest in
    if ltb 0 n
    then raw_behind rest (after_words content (take n (t ∷ ts)))
    else glued_args ps content t rest name

-- the text up to the last quote
unfoldable pub before_last : ℕ → Text → Option Text
before_last b [] = none
before_last b (c ∷ s) = elim (before_last b s) [
  | some t ↦ some (c ∷ t)
  | none ↦ if c == b then some [] else none
]

-- `quotedArgs`: what stands between the first and the last quote
unfoldable pub quoted_args : Text → Text
unfolding cut before_last
quoted_args s = elim (cut b'"' s) [
  | none ↦ []
  | some (front, back) ↦ elim (before_last b'"' back) [ none ↦ [] | some t ↦ t ]
]

abbrev pub first_filled : List Text → Text
first_filled [] = []
first_filled (p ∷ ps) = if is_empty p then first_filled ps else p

-- `usageText`
unfoldable pub usage_text : List Text → Text → Text → Text
unfolding quoted_args
usage_text ps path error =
    let args = quoted_args error in
    let usage = first_filled ps ++ path in
    if is_empty args then usage else usage ++ codes " " ++ args
