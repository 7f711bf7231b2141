-- ===== src/Assets/Markdown.antt =====
-- The images of a markdown text (`ProcessMarkdown` in lib/assets/host.go). The regular expressions
-- imgRe and dimRe are written out as functions that find their leftmost match.
pub mod Plain
use polarix_plus.Base.{
  ltb, leb, ◌==◌, if◌then◌else◌, ◌>>=◌, length, drop, is_some, cut, Text, codes, text_eq, is_empty,
  has_prefix, ℕ, zero, suc, ◌+◌, ◌-◌, ◌/◌, ◌%◌, Bool, true, false, not, ◌&&◌, ◌||◌, Option, none,
  some, [], ◌∷◌, ◌++◌,
}
use polarix_plus.Assets.Input.{Files}
use polarix_plus.Assets.Host.{has_none, img_to_url, Net, ImageHost, ResolvedImage}

-- strconv.Itoa of a number that is not negative, on rounds of fuel: sizes have at most ten digits
unfoldable pub digits : ℕ → ℕ → Text
digits zero n = []
digits (suc fuel) n =
    let front = digits fuel (n / 10) in
    if ltb n 10 then (b'0' + n) ∷ [] else front ++ (b'0' + n % 10) ∷ []

abbrev pub itoa : ℕ → Text
itoa = digits 20

abbrev is_digit : ℕ → Bool
is_digit c = leb b'0' c && leb c b'9'

abbrev pub is_gap_byte : ℕ → Bool
is_gap_byte c = c == b' ' || (c == 9 || (c == 10 || (c == 12 || c == 13)))

-- what stands behind the bytes that pass the test
unfoldable pub after : (ℕ → Bool) → Text → Text
after test [] = []
after test (c ∷ s) = if test c then after test s else c ∷ s

-- `#\d+px` at the front of a text, and what follows
unfoldable pub match_pixels : Text → Option Text
unfolding after has_prefix
match_pixels (c ∷ d ∷ s) =
    let rest = after is_digit s in
    if c == b'#' && (is_digit d && has_prefix (codes "px") rest) then some (drop 2 rest) else none
match_pixels _ = none

-- dimRe.MatchString
unfoldable pub has_size : Text → Bool
unfolding match_pixels after
has_size [] = false
has_size (c ∷ s) =
    is_some (match_pixels (c ∷ s) >>= λ (rest : Text). match_pixels (after is_gap_byte rest))
    || has_size s

-- an image: its alternative text, its source, and the length of the match
abbrev pub match_source : Text → Text × Text → Option (Text × Text × ℕ)
match_source alt (src, rest) =
    if is_empty src then none else some (alt, src, length alt + length src + 5)

abbrev pub match_link : Text × Text → Option (Text × Text × ℕ)
match_link (alt, rest) =
    if has_prefix (codes "(") rest then cut b')' (drop 1 rest) >>= match_source alt else none

-- imgRe at the front of a text
unfoldable pub match_image : Text → Option (Text × Text × ℕ)
unfolding has_prefix cut
match_image s = if has_prefix (codes "![") s then cut b']' (drop 2 s) >>= match_link else none

abbrev pub image : Text → Text → Text
image alt src = codes "![" ++ alt ++ codes "](" ++ src ++ codes ")"

abbrev pub sized : Text → ResolvedImage → Text
sized alt r = alt ++ codes " #" ++ itoa r.width ++ codes "px #" ++ itoa r.height ++ codes "px"

-- the text of an image that was resolved
unfoldable pub replacement : Text → Text → ResolvedImage × Bool → Text
unfolding digits has_size text_eq
replacement alt src (r, false) = image alt src
replacement alt src (r, true) =
    if text_eq r.url src
    then image alt src
    else if (ltb 0 r.width && ltb 0 r.height) && not (has_size alt)
    then image (sized alt r) r.url
    else image alt r.url

-- a line break behind an image that has none
abbrev pub line_break : Text → Text
line_break [] = 10 ∷ []
line_break (c ∷ s) = if c == 10 then [] else 10 ∷ []

module _ {P W : Type 0} (net : Net P W) (files : Files) where
  -- `replaceImage`
  abbrev pub replace_image : Text → Text → ImageHost P → W → Text × ImageHost P × W
  replace_image alt src h w =
      let (r, h2, w2) = img_to_url net files src h w in (replacement alt src r, h2, w2)

  -- what a match, or a byte where none begins, becomes; `next` goes on behind a number of bytes
  abbrev pub emit :
      Option (Text × Text × ℕ)
      → ℕ
      → Text
      → ImageHost P
      → W
      → (ℕ → ImageHost P → W → Text × ImageHost P × W)
      → Text × ImageHost P × W
  emit none c s h w next = let (rest, h2, w2) = next zero h w in (c ∷ rest, h2, w2)
  emit (some (alt, src, n)) c s h w next =
      let (text, h2, w2) = replace_image alt src h w in
      let (rest, h3, w3) = next (n - 1) h2 w2 in
      (text ++ line_break (drop n (c ∷ s)) ++ rest, h3, w3)

  -- the loop over the matches, as a pass that leaves out the bytes of a match
  unfoldable pub process_from : ℕ → Text → ImageHost P → W → Text × ImageHost P × W
  unfolding match_image replacement img_to_url
  process_from n [] h w = ([], h, w)
  process_from (suc n) (c ∷ s) h w = process_from n s h w
  process_from zero (c ∷ s) h w = emit (match_image (c ∷ s)) c s h w (λ n g v. process_from n s g v)

  -- `ProcessMarkdown`
  unfoldable pub process_markdown : Text → ImageHost P → W → Text × ImageHost P × W
  unfolding process_from
  process_markdown s h w = if has_none h.providers then (s, h, w) else process_from 0 s h w
