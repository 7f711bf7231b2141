-- ===== src/Images/Jpeg.antt =====
-- The size of a JPEG file (lib/images/size.go), which stands behind other segments.
use polarix_plus.Base.{
  length, get_elem?, drop, length-append, length-drop, drop-append, All, get_elem?-drop, drop-drop,
  Text, ℕ, zero, suc, ◌+◌, ◌/◌, ◌%◌, ◌≤◌, ◌<◌, ◌≡◌, refl, sym, ap, ◌∙◌, true, false, some, List, [],
  ◌∷◌, ◌++◌, arith,
}
use polarix_plus.Images.{has_at, probe, be16, size_of, is_standalone, is_frame, scan}

-- A segment that the loop skips: a marker with data that does not hold the size.
pub record Segment : Type 0 where
  pub marker : ℕ
  pub payload : Text

pub record IsSkipped (s : Segment) : Type 0 where
  pub has_data : is_standalone s.marker ≡ false
  pub no_size : is_frame s.marker ≡ false
  pub short : length s.payload + 2 < 65536

-- The bytes of a segment, its length counted with the two bytes that hold it.
abbrev pub segment : Segment → Text → Text
segment s rest =
    0xFF ∷ s.marker ∷ (length s.payload + 2) / 256 ∷ (length s.payload + 2) % 256 ∷ s.payload
    ++ rest

abbrev pub segments : List Segment → Text → Text
segments [] rest = rest
segments (s ∷ ss) rest = segment s (segments ss rest)

-- The segment with the size: its marker, length and precision, then the height and the width.
abbrev pub frame : ℕ → ℕ → ℕ → ℕ → Text → Text
frame mk w h x rest = 0xFF ∷ mk ∷ 0 ∷ 17 ∷ 8 ∷ h / 256 ∷ h % 256 ∷ w / 256 ∷ w % 256 ∷ x ∷ rest

abbrev pub jpeg_file : List Segment → ℕ → ℕ → ℕ → ℕ → Text → Text
jpeg_file ss mk w h x rest = 0xFF ∷ 0xD8 ∷ segments ss (frame mk w h x rest)

at :
    (off : ℕ) (buf xs : Text) (i : ℕ) → drop off buf ≡ xs → get_elem? buf (off + i) ≡ get_elem? xs i
at off buf xs i e = sym (get_elem?-drop off buf i) ∙ ap (λ (t : Text). get_elem? t i) e

be16_at : (off : ℕ) (buf xs : Text) (i : ℕ) → drop off buf ≡ xs → be16 (off + i) buf ≡ be16 i xs
unfolding be16
be16_at off buf xs i e = rw (at off buf xs i e) (
    rw
      (ap (get_elem? buf) {x = off + i + 1} {y = off + (i + 1)} (omega arith)
        ∙ at off buf xs (i + 1) e)
      refl)

-- Behind `off` stands a segment, and enough behind it.
module _ (k off : ℕ) (buf rest : Text) (long : off + 9 < length buf) where
  scan_skips :
      (s : Segment)
      → IsSkipped s
      → drop off buf ≡ segment s rest
      → scan (suc k) off buf ≡ scan k (off + (2 + (length s.payload + 2))) buf
  unfolding scan be16
  scan_skips s sk e = ground (
    arith,
    at off buf _ 0 e,
    at off buf _ 1 e,
    at off buf _ 2 e,
    at off buf _ 3 e,
    sk.has_data,
    sk.no_size,
  )

  scan_stops :
      (mk w h x : ℕ)
      → is_standalone mk ≡ false
      → is_frame mk ≡ true
      → w < 65536
      → h < 65536
      → drop off buf ≡ frame mk w h x rest
      → scan (suc k) off buf ≡ some (size_of w h)
  unfolding scan be16
  scan_stops mk w h x one size lw lh e = ground (
    arith,
    be16_at off buf _ 2 e,
    be16_at off buf _ 5 e,
    be16_at off buf _ 7 e,
    at off buf _ 0 e,
    at off buf _ 1 e,
    at off buf _ 2 e,
    at off buf _ 3 e,
  )

drop-segment :
    (off : ℕ) (buf rest : Text) (s : Segment)
    → drop off buf ≡ segment s rest
    → drop (off + (2 + (length s.payload + 2))) buf ≡ rest
drop-segment off buf rest s e =
    sym (drop-drop (2 + (length s.payload + 2)) off buf)
    ∙ (ap (drop (2 + (length s.payload + 2))) e
        ∙ (ap (λ (n : ℕ). drop n (segment s rest)) {x = 2 + (length s.payload + 2)}
              {y = suc (suc (suc (suc (length s.payload))))} (omega arith)
            ∙ drop-append s.payload rest))

length-segments :
    (ss : List Segment) (rest : Text) → length ss + length rest ≤ length (segments ss rest)
length-segments [] rest = omega arith
length-segments (s ∷ ss) rest =
    omega (arith, length-append s.payload (segments ss rest), length-segments ss rest)

-- the bytes that are left, counted
reaches : (off : ℕ) (buf xs : Text) → drop off buf ≡ xs → 9 < length xs → off + 9 < length buf
reaches off buf xs e h = omega (arith, length-drop off buf, ap length e)

module _ (mk w h x : ℕ) (rest : Text) (one : is_standalone mk ≡ false) (size : is_frame mk ≡ true)
    (lw : w < 65536) (lh : h < 65536) where
  scan-segments :
      (ss : List Segment) (k off : ℕ) (buf : Text)
      → All IsSkipped ss
      → length ss < k
      → drop off buf ≡ segments ss (frame mk w h x rest)
      → scan k off buf ≡ some (size_of w h)
  scan-segments ss zero off buf sk l e = elim l [ ]
  scan-segments [] (suc k) off buf sk l e =
      scan_stops k off buf rest (reaches off buf _ e (omega arith)) mk w h x one size lw lh e
  scan-segments (s ∷ ss) (suc k) off buf sk l e =
      scan_skips k off buf (segments ss (frame mk w h x rest))
        (reaches off buf _ e (
          omega (
            arith,
            length-append s.payload (segments ss (frame mk w h x rest)),
            length-segments ss (frame mk w h x rest),
          )))
        s sk.0 e
      ∙ scan-segments ss k (off + (2 + (length s.payload + 2))) buf sk.1 (omega arith)
          (drop-segment off buf _ s e)

  -- Behind any segments with data of less than 65534 bytes that do not hold the size, `Probe` finds
  -- the one that does, and gives the width and the height in it, both below 65536, if a byte at
  -- least follows.
  pub probe-jpeg_file :
      (ss : List Segment)
      → All IsSkipped ss
      → probe (jpeg_file ss mk w h x rest) ≡ some (size_of w h)
  unfolding probe has_at
  probe-jpeg_file ss sk = ground (
    arith,
    length-segments ss (frame mk w h x rest),
    scan-segments ss (length (jpeg_file ss mk w h x rest)) 2 (jpeg_file ss mk w h x rest) sk
        (omega (arith, length-segments ss (frame mk w h x rest))) refl,
  )
