-- ===== src/Images.antt =====
-- The recognition of images by their first bytes (lib/images/size.go). A buffer is a list of bytes,
-- and reading outside it, a panic in Go, is `none`.
pub mod Bounds
pub mod Png
pub mod Jpeg
mod Tests
use polarix_plus.Base.{
  ltb, leb, ◌==◌, if◌then◌else◌, ◌>>=◌, length, get_elem?, Text, codes, ℕ, zero, suc, ◌+◌, ◌*◌, ◌/◌,
  ◌%◌, ◌^◌, Bool, true, false, not, ◌&&◌, ◌||◌, Option, none, some, [], ◌∷◌,
}

-- `buf[i]` and following are the bytes given, looked at from the first on
unfoldable pub has_at : ℕ → Text → Text → Option Bool
has_at i [] buf = some true
has_at i (c ∷ cs) buf = do b ← get_elem? buf i; if b == c then has_at (suc i) cs buf else some false

-- binary.BigEndian.Uint16(buf[i : i+2]) and Uint32(buf[i : i+4])
unfoldable pub be16 : ℕ → Text → Option ℕ
be16 i buf = do a ← get_elem? buf i; b ← get_elem? buf (i + 1); some (a * 256 + b)

unfoldable pub be32 : ℕ → Text → Option ℕ
be32 i buf = do a ← be16 i buf; b ← be16 (i + 2) buf; some (a * 65536 + b)

-- binary.LittleEndian
unfoldable pub le16 : ℕ → Text → Option ℕ
le16 i buf = do a ← get_elem? buf i; b ← get_elem? buf (i + 1); some (a + b * 256)

unfoldable pub le32 : ℕ → Text → Option ℕ
le32 i buf = do a ← le16 i buf; b ← le16 (i + 2) buf; some (a + b * 65536)

-- uint32(buf[i]) | uint32(buf[i+1])<<8 | uint32(buf[i+2])<<16
unfoldable pub le24 : ℕ → Text → Option ℕ
le24 i buf = do a ← le16 i buf; b ← get_elem? buf (i + 2); some (a + b * 65536)

pub record Size : Type 0 where
  pub width : ℕ
  pub height : ℕ

abbrev pub size_of : ℕ → ℕ → Option Size
size_of w h = some (record { width = w; height = h })

abbrev pub png_magic : Text
png_magic = 0x89 ∷ b'P' ∷ b'N' ∷ b'G' ∷ []

abbrev pub jpeg_magic : Text
jpeg_magic = 0xFF ∷ 0xD8 ∷ []

-- a test and the next one, as in `case` after `case`
abbrev pub or_else : Option Bool → Option Bool → Option Bool
or_else a b = a >>= λ (x : Bool). if x then some true else b

abbrev pub and_then : Option Bool → Option Bool → Option Bool
and_then a b = a >>= λ (x : Bool). if x then b else some false

unfoldable pub is_webp : Text → Option Bool
unfolding has_at
is_webp buf = and_then (has_at 0 (codes "RIFF") buf) (has_at 8 (codes "WEBP") buf)

-- `IsImage`
unfoldable pub is_image : Text → Option Bool
unfolding has_at is_webp
is_image buf =
    if ltb (length buf) 12
    then some false
    else or_else (has_at 0 png_magic buf) (
        or_else (has_at 0 jpeg_magic buf) (
          or_else (has_at 0 (codes "GIF8") buf)
            (or_else (is_webp buf) (has_at 0 (codes "BM") buf))))

-- a marker without data, and one that holds the size
abbrev pub is_standalone : ℕ → Bool
is_standalone mk = mk == 0xD8 || (mk == 0xD9 || (mk == 0x01 || (leb 0xD0 mk && leb mk 0xD7)))

abbrev pub is_frame : ℕ → Bool
is_frame mk = (leb 0xC0 mk && leb mk 0xCF) && (not (mk == 0xC4) && not (mk == 0xC8))

abbrev pub size_at : ℕ → Text → Option (Option Size)
size_at off buf = do h ← be16 (off + 5) buf; w ← be16 (off + 7) buf; some (size_of w h)

-- the loop over the segments of a JPEG file, on fuel; running out of it is `none` too
unfoldable pub scan : ℕ → ℕ → Text → Option (Option Size)
unfolding be16
scan zero off buf = none
scan (suc k) off buf =
    if ltb (off + 9) (length buf)
    then (get_elem? buf off >>= λ (b : ℕ).
        if b == 0xFF
        then (get_elem? buf (off + 1) >>= λ (mk : ℕ).
            if is_standalone mk
            then scan k (off + 2) buf
            else be16 (off + 2) buf >>= λ (len : ℕ).
                if is_frame mk then size_at off buf else scan k (off + (2 + len)) buf)
        else scan k (off + 1) buf)
    else some none

-- the three kinds of WebP
abbrev pub lossy_size : Text → Option (Option Size)
lossy_size buf = do w ← le16 26 buf; h ← le16 28 buf; some (size_of (w % 2 ^ 14) (h % 2 ^ 14))

abbrev pub lossless_size : Text → Option (Option Size)
lossless_size buf = do
  bits ← le32 21 buf
  some (size_of (bits % 2 ^ 14 + 1) (bits / 2 ^ 14 % 2 ^ 14 + 1))

abbrev pub extended_size : Text → Option (Option Size)
extended_size buf = do w ← le24 24 buf; h ← le24 27 buf; some (size_of (w + 1) (h + 1))

-- the `switch` on buf[12:16]; the lengths that it asks for are given by the 30 bytes asked before
unfoldable pub probe_webp : Text → Option (Option Size)
unfolding has_at le16 le32 le24
probe_webp buf = has_at 12 (codes "VP8 ") buf >>= λ (lossy : Bool).
    if lossy
    then lossy_size buf
    else has_at 12 (codes "VP8L") buf >>= λ (lossless : Bool).
        if lossless
        then lossless_size buf
        else has_at 12 (codes "VP8X") buf >>= λ (extended : Bool).
            if extended then extended_size buf else some none

abbrev pub if_long : ℕ → Text → Option Bool → Option Bool
if_long n buf test = if leb n (length buf) then test else some false

abbrev pub png_size : Text → Option (Option Size)
png_size buf = do w ← be32 16 buf; h ← be32 20 buf; some (size_of w h)

abbrev pub gif_size : Text → Option (Option Size)
gif_size buf = do w ← le16 6 buf; h ← le16 8 buf; some (size_of w h)

-- `Probe`; a round of the loop moves on by a byte at least, so that the buffer's length is enough
unfoldable pub probe : Text → Option (Option Size)
unfolding has_at be32 le16 scan is_webp probe_webp
probe buf =
    if ltb (length buf) 4
    then some none
    else if_long 24 buf (has_at 0 png_magic buf) >>= λ (png : Bool).
        if png
        then png_size buf
        else if_long 10 buf (has_at 0 (codes "GIF") buf) >>= λ (gif : Bool).
            if gif
            then gif_size buf
            else has_at 0 jpeg_magic buf >>= λ (jpeg : Bool).
                if jpeg
                then scan (length buf) 2 buf
                else if_long 30 buf (is_webp buf) >>= λ (webp : Bool).
                    if webp then probe_webp buf else some none
