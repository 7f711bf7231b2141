-- ===== src/Message/At.antt =====
-- The protection of "@" in markdown (`ProtectMarkdownAt` in lib/message/at.go), on bytes.
use polarix_plus.Base.{
  leb, ◌==◌, if◌then◌else◌, if_false, Bool-cases, Text, has_prefix, ℕ, ◌≡◌, refl, sym, ap, ◌∙◌, inl,
  inr, Bool, true, false, not, ◌&&◌, ◌||◌, Option, none, some, [], ◌∷◌, ◌++◌, arith,
}

-- `isSpace` and `isWordChar`
abbrev pub is_blank : ℕ → Bool
is_blank b = b == b' ' || (b == 9 || (b == 10 || b == 13))

abbrev pub is_word_char : ℕ → Bool
is_word_char b =
    (leb b'a' b && leb b b'z')
    || ((leb b'A' b && leb b b'Z') || ((leb b'0' b && leb b b'9') || (b == b'_' || b == b'>')))

-- what stands behind the byte, and before it
abbrev pub speaks : Text → Bool
speaks [] = false
speaks (c ∷ rest) = not (is_blank c)

abbrev pub opens : Option ℕ → Bool
opens none = true
opens (some p) = not (is_word_char p) && not (p == b'<')

-- a "@" that the platform may take for a mention
abbrev pub is_bare : Option ℕ → ℕ → Text → Bool
is_bare prev c rest = c == b'@' && (speaks rest && opens prev)

-- the UTF-8 bytes of a zero-width space
abbrev pub zero_width : Text
zero_width = 0xE2 ∷ 0x80 ∷ 0x8B ∷ []

-- the loop, behind the byte `prev`
unfoldable pub protect_from : Option ℕ → Text → Text
protect_from prev [] = []
protect_from prev (c ∷ rest) =
    let tail = protect_from (some c) rest in
    if is_bare prev c rest then c ∷ zero_width ++ tail else c ∷ tail

unfoldable pub protect_markdown_at : Text → Text
unfolding protect_from
protect_markdown_at s = protect_from none s

-- Every bare "@" is followed by a zero-width space.
abbrev pub IsGuarded : Option ℕ → Text → Type 0
IsGuarded prev [] = Unit
IsGuarded prev (c ∷ rest) =
    (if is_bare prev c rest then has_prefix zero_width rest else true) ≡ true
    × IsGuarded (some c) rest

-- the first byte stays
speaks-protect_from : (prev : Option ℕ) (s : Text) → speaks (protect_from prev s) ≡ speaks s
unfolding protect_from
speaks-protect_from prev [] = refl
speaks-protect_from prev (c ∷ rest) = elim (Bool-cases (is_bare prev c rest)) [
  | inl e ↦ rw e refl
  | inr e ↦ rw e refl
]

-- only what the byte before lets through matters
IsGuarded-prev : (p q : Option ℕ) (s : Text) → opens p ≡ opens q → IsGuarded p s → IsGuarded q s
IsGuarded-prev p q [] e g = tt
IsGuarded-prev p q (c ∷ rest) e g = (
  sym (ap (λ b. if c == b'@' && (speaks rest && b) then has_prefix zero_width rest else true) e)
      ∙ g.0,
  g.1,
)

if_same : (b : Bool) → (if b then true else true) ≡ true
if_same true = refl
if_same false = refl

bare_at : (prev : Option ℕ) (c : ℕ) (rest : Text) → is_bare prev c rest ≡ true → c ≡ b'@'
bare_at prev c rest e = ground arith

protect_from-IsGuarded : (prev : Option ℕ) (s : Text) → IsGuarded prev (protect_from prev s)
unfolding protect_from has_prefix
protect_from-IsGuarded prev [] = tt
protect_from-IsGuarded prev (c ∷ rest) = elim (Bool-cases (is_bare prev c rest)) [
  | inl e ↦ rw e (
    if_same (is_bare prev c (zero_width ++ protect_from (some c) rest)),
    (
      refl,
      (
        refl,
        (
          refl,
          IsGuarded-prev (some c) (some 0x8B) (protect_from (some c) rest)
              (opened c (bare_at prev c rest e)) (protect_from-IsGuarded (some c) rest),
        ),
      ),
    ),
  )
  | inr e ↦ rw e (
    if_false (is_bare prev c (protect_from (some c) rest)) _ true
        (ap (λ b. c == b'@' && (b && opens prev)) (speaks-protect_from (some c) rest) ∙ e),
    protect_from-IsGuarded (some c) rest,
  )
]
  where
    opened : (c : ℕ) → c ≡ b'@' → opens (some c) ≡ opens (some 0x8B)
    opened c e = rw e refl

-- The first text with zero-width spaces behind some of its "@".
pub data Inserts : Text → Text → Type 0 where
  done : Inserts [] []
  same : (c : ℕ) (s t : Text) → Inserts s t → Inserts (c ∷ s) (c ∷ t)
  guarded : (c : ℕ) (s t : Text) → c ≡ b'@' → Inserts s t → Inserts (c ∷ s) (c ∷ zero_width ++ t)

protect_from-Inserts : (prev : Option ℕ) (s : Text) → Inserts s (protect_from prev s)
unfolding protect_from
protect_from-Inserts prev [] = done
protect_from-Inserts prev (c ∷ rest) = elim (Bool-cases (is_bare prev c rest)) [
  | inl e ↦ rw e (guarded c rest _ (bare_at prev c rest e) (protect_from-Inserts (some c) rest))
  | inr e ↦ rw e (same c rest _ (protect_from-Inserts (some c) rest))
]

-- `ProtectMarkdownAt` only inserts zero-width spaces, each behind an "@", and afterwards one stands
-- behind every "@" that the platform may take for a mention: one that opens a word, and does not
-- stand behind a letter, a digit, "_", ">" or "<".
pub protect_markdown_at-IsGuarded :
    (s : Text) → IsGuarded none (protect_markdown_at s) × Inserts s (protect_markdown_at s)
unfolding protect_markdown_at
protect_markdown_at-IsGuarded s = (protect_from-IsGuarded none s, protect_from-Inserts none s)
