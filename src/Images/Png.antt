-- ===== src/Images/Png.antt =====
-- The sizes of PNG and GIF files (lib/images/size.go).
use polarix_plus.Base.{Text, ℕ, ◌/◌, ◌%◌, ◌^◌, ◌<◌, ◌≡◌, some, ◌∷◌, arith}
use polarix_plus.Images.{has_at, be16, be32, le16, size_of, probe}

-- A number as four bytes, the highest first, before what follows.
abbrev pub big32 : ℕ → Text → Text
big32 n rest = n / 2 ^ 24 ∷ n / 2 ^ 16 % 256 ∷ n / 2 ^ 8 % 256 ∷ n % 256 ∷ rest

abbrev pub little16 : ℕ → Text → Text
little16 n rest = n % 256 ∷ n / 256 ∷ rest

-- The start of a PNG file: its signature, and the header block with the size.
abbrev pub png_file : ℕ → ℕ → Text → Text
png_file w h rest =
    0x89
    ∷ b'P'
    ∷ b'N'
    ∷ b'G'
    ∷ 13
    ∷ 10
    ∷ 26
    ∷ 10
    ∷ 0
    ∷ 0
    ∷ 0
    ∷ 13
    ∷ b'I'
    ∷ b'H'
    ∷ b'D'
    ∷ b'R'
    ∷ big32 w (big32 h rest)

abbrev pub gif_file : ℕ → ℕ → Text → Text
gif_file w h rest = b'G' ∷ b'I' ∷ b'F' ∷ b'8' ∷ b'9' ∷ b'a' ∷ little16 w (little16 h rest)

-- A PNG file gives back the width and the height that were written in its header, both below
-- 2 ^ 32, whatever follows.
pub probe-png_file :
    (w h : ℕ) (rest : Text)
    → w < 2 ^ 32
    → h < 2 ^ 32
    → probe (png_file w h rest) ≡ some (size_of w h)
unfolding probe has_at be32 be16
probe-png_file w h rest lw lh = ground arith

-- A GIF file gives back the width and the height in its header, both below 2 ^ 16.
pub probe-gif_file :
    (w h : ℕ) (rest : Text)
    → w < 2 ^ 16
    → h < 2 ^ 16
    → probe (gif_file w h rest) ≡ some (size_of w h)
unfolding probe has_at le16
probe-gif_file w h rest lw lh = ground arith
