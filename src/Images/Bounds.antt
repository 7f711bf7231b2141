-- ===== src/Images/Bounds.antt =====
-- Reading a buffer within its bounds (lib/images/size.go).
use polarix_plus.Base.{
  ltb, leb, ◌==◌, if◌then◌else◌, ltb→lt, leb→le, Bool-cases, ◌>>=◌, length, get_elem?,
  get_elem?-some, Text, codes, ℕ, zero, suc, ◌+◌, ◌*◌, ◌≤◌, ◌<◌, ◌≡◌, refl, inl, inr, Bool, true,
  false, Option, none, some, [], ◌∷◌, arith,
}
use polarix_plus.Images.{
  Size, png_magic, jpeg_magic, is_webp, lossy_size, lossless_size, extended_size, probe_webp,
  if_long, png_size, gif_size, probe, has_at, be16, be32, le16, le32, le24, size_of, is_standalone,
  is_frame, size_at, scan,
}

-- A read that does not fail.
abbrev Reads {ℓ} : {A : Type ℓ} → Option A → Type ℓ
Reads {A} o = (a : A) × (o ≡ some a)

Reads-bind {ℓ κ} :
    {A : Type ℓ} {B : Type κ} (o : Option A) (f : A → Option B)
    → Reads o
    → ((a : A) → Reads (f a))
    → Reads (o >>= f)
Reads-bind none f (a, e) k = cc
Reads-bind (some a) f h k = k a

Reads-if {ℓ} :
    {A : Type ℓ} (b : Bool) (x y : Option A)
    → (b ≡ true → Reads x)
    → (b ≡ false → Reads y)
    → Reads (if b then x else y)
Reads-if true x y h k = h refl
Reads-if false x y h k = k refl

has_at-Reads : (i : ℕ) (cs buf : Text) → i + length cs ≤ length buf → Reads (has_at i cs buf)
unfolding has_at
has_at-Reads i [] buf h = (true, refl)
has_at-Reads i (c ∷ cs) buf h =
    Reads-bind (get_elem? buf i) _ (get_elem?-some buf i (omega arith)) λ (b : ℕ).
      Reads-if (b == c) _ _ (λ _. has_at-Reads (suc i) cs buf (omega arith)) (λ _. (false, refl))

be16-Reads : (i : ℕ) (buf : Text) → i + 2 ≤ length buf → Reads (be16 i buf)
unfolding be16
be16-Reads i buf h = Reads-bind (get_elem? buf i) _ (get_elem?-some buf i (omega arith)) λ (a : ℕ).
    Reads-bind (get_elem? buf (i + 1)) _ (get_elem?-some buf (i + 1) (omega arith))
      λ (b : ℕ). (a * 256 + b, refl)

le16-Reads : (i : ℕ) (buf : Text) → i + 2 ≤ length buf → Reads (le16 i buf)
unfolding le16
le16-Reads i buf h = Reads-bind (get_elem? buf i) _ (get_elem?-some buf i (omega arith)) λ (a : ℕ).
    Reads-bind (get_elem? buf (i + 1)) _ (get_elem?-some buf (i + 1) (omega arith))
      λ (b : ℕ). (a + b * 256, refl)

be32-Reads : (i : ℕ) (buf : Text) → i + 4 ≤ length buf → Reads (be32 i buf)
unfolding be32
be32-Reads i buf h = Reads-bind (be16 i buf) _ (be16-Reads i buf (omega arith)) λ (a : ℕ).
    Reads-bind (be16 (i + 2) buf) _ (be16-Reads (i + 2) buf (omega arith))
      λ (b : ℕ). (a * 65536 + b, refl)

le32-Reads : (i : ℕ) (buf : Text) → i + 4 ≤ length buf → Reads (le32 i buf)
unfolding le32
le32-Reads i buf h = Reads-bind (le16 i buf) _ (le16-Reads i buf (omega arith)) λ (a : ℕ).
    Reads-bind (le16 (i + 2) buf) _ (le16-Reads (i + 2) buf (omega arith))
      λ (b : ℕ). (a + b * 65536, refl)

le24-Reads : (i : ℕ) (buf : Text) → i + 3 ≤ length buf → Reads (le24 i buf)
unfolding le24
le24-Reads i buf h = Reads-bind (le16 i buf) _ (le16-Reads i buf (omega arith)) λ (a : ℕ).
    Reads-bind (get_elem? buf (i + 2)) _ (get_elem?-some buf (i + 2) (omega arith))
      λ (b : ℕ). (a + b * 65536, refl)

-- Each round moves on by a byte at least.
scan-Reads : (k off : ℕ) (buf : Text) → length buf < k + off → 0 < k → Reads (scan k off buf)
unfolding scan
scan-Reads zero off buf h pos = absurd (omega arith)
scan-Reads (suc k) off buf h pos =
    Reads-if (ltb (off + 9) (length buf)) _ _
      (λ e.
        let lt : off + 9 < length buf = ltb→lt _ _ e in
        Reads-bind (get_elem? buf off) _ (get_elem?-some buf off (omega arith)) λ (b : ℕ).
          Reads-if (b == 0xFF) _ _
            (λ _.
              Reads-bind (get_elem? buf (off + 1)) _ (get_elem?-some buf (off + 1) (omega arith))
                λ (mk : ℕ).
                  Reads-if (is_standalone mk) _ _
                    (λ _. scan-Reads k (off + 2) buf (omega arith) (omega arith))
                    (λ _.
                      Reads-bind (be16 (off + 2) buf) _ (be16-Reads (off + 2) buf (omega arith))
                        λ (len : ℕ).
                          Reads-if (is_frame mk) _ _ (λ _. size_at-Reads off buf lt)
                            (λ _. scan-Reads k (off + (2 + len)) buf (omega arith) (omega arith))))
            (λ _. scan-Reads k (off + 1) buf (omega arith) (omega arith)))
      (λ _. (none, refl))
  where
    size_at-Reads : (off : ℕ) (buf : Text) → off + 9 < length buf → Reads (size_at off buf)
    size_at-Reads off buf lt =
        Reads-bind (be16 (off + 5) buf) _ (be16-Reads (off + 5) buf (omega arith)) λ (a : ℕ).
          Reads-bind (be16 (off + 7) buf) _ (be16-Reads (off + 7) buf (omega arith))
            λ (b : ℕ). (size_of b a, refl)

if_long-Reads :
    (n : ℕ) (buf : Text) (test : Option Bool)
    → (n ≤ length buf → Reads test)
    → (b : Bool) × (if_long n buf test ≡ some b) × (b ≡ true → n ≤ length buf)
if_long-Reads n buf test h = elim (Bool-cases (leb n (length buf))) [
  | inl e ↦ found e (h (leb→le _ _ e))
  | inr e ↦ (false, rw e refl, λ t. cc)
]
  where
    found :
        leb n (length buf) ≡ true
        → Reads test
        → (b : Bool) × (if_long n buf test ≡ some b) × (b ≡ true → n ≤ length buf)
    found e (b, q) = (b, rw e q, λ t. leb→le _ _ e)

is_webp-Reads : (buf : Text) → 12 ≤ length buf → Reads (is_webp buf)
unfolding is_webp
is_webp-Reads buf h =
    Reads-bind (has_at 0 (codes "RIFF") buf) _ (has_at-Reads 0 (codes "RIFF") buf (omega arith))
      λ (x : Bool).
        Reads-if x _ _ (λ _. has_at-Reads 8 (codes "WEBP") buf (omega arith)) (λ _. (false, refl))

probe_webp-Reads : (buf : Text) → 30 ≤ length buf → Reads (probe_webp buf)
unfolding probe_webp
probe_webp-Reads buf h =
    Reads-bind (has_at 12 (codes "VP8 ") buf) _ (has_at-Reads 12 (codes "VP8 ") buf (omega arith))
      λ (lossy : Bool).
        Reads-if lossy _ _ (λ _. lossy-Reads)
          λ _.
            Reads-bind (has_at 12 (codes "VP8L") buf) _
              (has_at-Reads 12 (codes "VP8L") buf (omega arith))
              λ (lossless : Bool).
                Reads-if lossless _ _ (λ _. lossless-Reads)
                  λ _.
                    Reads-bind (has_at 12 (codes "VP8X") buf) _
                      (has_at-Reads 12 (codes "VP8X") buf (omega arith))
                      λ (extended : Bool).
                        Reads-if extended _ _ (λ _. extended-Reads) (λ _. (none, refl))
  where
    lossy-Reads : Reads (lossy_size buf)
    lossy-Reads =
        Reads-bind (le16 26 buf) _ (le16-Reads 26 buf (omega arith)) λ (w : ℕ).
          Reads-bind (le16 28 buf) _ (le16-Reads 28 buf (omega arith)) λ (k : ℕ). (_, refl)

    lossless-Reads : Reads (lossless_size buf)
    lossless-Reads =
        Reads-bind (le32 21 buf) _ (le32-Reads 21 buf (omega arith)) λ (k : ℕ). (_, refl)

    extended-Reads : Reads (extended_size buf)
    extended-Reads =
        Reads-bind (le24 24 buf) _ (le24-Reads 24 buf (omega arith)) λ (w : ℕ).
          Reads-bind (le24 27 buf) _ (le24-Reads 27 buf (omega arith)) λ (k : ℕ). (_, refl)

-- Whatever the buffer holds, `Probe` ends, and never reads outside it.
pub probe-Reads : (buf : Text) → (s : Option Size) × (probe buf ≡ some s)
unfolding probe
probe-Reads buf =
    Reads-if (ltb (length buf) 4) _ _ (λ _. (none, refl))
      λ e.
        let four : 4 ≤ length buf = ground arith in
        let (png, png_eq, png_long) =
          if_long-Reads 24 buf _ (λ h. has_at-Reads 0 png_magic buf (omega arith)) in
        let (gif, gif_eq, gif_long) =
          if_long-Reads 10 buf _ (λ h. has_at-Reads 0 (codes "GIF") buf (omega arith)) in
        let (webp, webp_eq, webp_long) =
          if_long-Reads 30 buf _ (λ h. is_webp-Reads buf (omega arith)) in
        rw (png_eq, gif_eq, webp_eq)
          (Reads-if png _ _ (λ t. png-Reads (png_long t))
            λ _.
              Reads-if gif _ _ (λ t. gif-Reads (gif_long t))
                λ _.
                  Reads-bind (has_at 0 jpeg_magic buf) _
                    (has_at-Reads 0 jpeg_magic buf (omega arith))
                    λ (jpeg : Bool).
                      Reads-if jpeg _ _
                        (λ _. scan-Reads (length buf) 2 buf (omega arith) (omega arith))
                        (λ _.
                          Reads-if webp _ _ (λ t. probe_webp-Reads buf (webp_long t))
                            (λ _. (none, refl))))
  where
    png-Reads : 24 ≤ length buf → Reads (png_size buf)
    png-Reads h =
        Reads-bind (be32 16 buf) _ (be32-Reads 16 buf (omega arith)) λ (w : ℕ).
          Reads-bind (be32 20 buf) _ (be32-Reads 20 buf (omega arith)) λ (k : ℕ). (_, refl)

    gif-Reads : 10 ≤ length buf → Reads (gif_size buf)
    gif-Reads h =
        Reads-bind (le16 6 buf) _ (le16-Reads 6 buf (omega arith))
          λ (w : ℕ). Reads-bind (le16 8 buf) _ (le16-Reads 8 buf (omega arith)) λ (k : ℕ). (_, refl)
