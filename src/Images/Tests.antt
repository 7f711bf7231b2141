-- ===== src/Images/Tests.antt =====
-- Runs on concrete buffers.
use polarix_plus.Base.{codes, ◌≡◌, refl, true, false, Option, some, [], ◌∷◌, ◌++◌, arith}
use polarix_plus.Images.{Size, size_of, is_image, probe}
use polarix_plus.Images.Bounds.{probe-Reads}
use polarix_plus.Images.Jpeg.{Segment, IsSkipped, jpeg_file, probe-jpeg_file}

is_image_bmp : is_image (codes "BM0123456789") ≡ some true
unfolding is_image
is_image_bmp = refl

is_image_short : is_image (codes "BM") ≡ some false
unfolding is_image
is_image_short = refl

probe_lossless :
    probe (codes "RIFF0000WEBPVP8L0000/" ++ 5 ∷ 0x40 ∷ 0 ∷ 0 ∷ codes "00000") ≡ some (size_of 6 2)
unfolding probe
probe_lossless = refl

probe-Reads_example : (s : Option Size) × (probe (0xFF ∷ 0xD8 ∷ 0xFF ∷ 0xC0 ∷ []) ≡ some s)
probe-Reads_example = probe-Reads (0xFF ∷ 0xD8 ∷ 0xFF ∷ 0xC0 ∷ [])

abbrev app0 : Segment
app0 = record { marker = 0xE0; payload = codes "JFIF" }

app0-IsSkipped : IsSkipped app0
app0-IsSkipped = record { has_data = refl; no_size = refl; short = omega arith }

probe-jpeg_file_example : probe (jpeg_file (app0 ∷ []) 0xC2 640 480 3 []) ≡ some (size_of 640 480)
probe-jpeg_file_example =
    probe-jpeg_file 0xC2 640 480 3 [] refl refl (omega arith) (omega arith) (app0 ∷ [])
      (app0-IsSkipped, tt)
