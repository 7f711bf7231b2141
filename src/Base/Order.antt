-- ===== src/Base/Order.antt =====
-- The order of Go's strings, bytewise, and `slices.Sort` on them, as an insertion sort: sorting texts
-- leaves no choice.
use mathlib.Core.Logic.{inl, inr}
use mathlib.Core.Path.{◌≡◌, refl}
use mathlib.Core.List.{List, [], ◌∷◌}
use mathlib.Core.Bool.{Bool, true, false, ◌||◌, ◌&&◌}
use native.Mathlib.Omega.{arith}
use polarix_plus.Base.Tests.{◌==◌, ltb, if◌then◌else◌, Bool-cases}
use polarix_plus.Base.Lists.{All}
use polarix_plus.Base.Bytes.{Text, has_text}

-- `s <= t`
unfoldable pub text_le : Text → Text → Bool
text_le [] t = true
text_le (a ∷ s) [] = false
text_le (a ∷ s) (b ∷ t) = ltb a b || ((a == b) && text_le s t)

unfoldable pub place : Text → List Text → List Text
unfolding text_le
place s [] = s ∷ []
place s (t ∷ ts) = let rest = place s ts in if text_le s t then s ∷ t ∷ ts else t ∷ rest

unfoldable pub sort_texts : List Text → List Text
unfolding place
sort_texts [] = []
sort_texts (s ∷ ss) = place s (sort_texts ss)

pub text_le_total : (s t : Text) → text_le s t ≡ false → text_le t s ≡ true
unfolding text_le
text_le_total [] t h = cc
text_le_total (a ∷ s) [] h = refl
text_le_total (a ∷ s) (b ∷ t) h = ground (arith, text_le_total s t)

pub text_le_trans : (s t u : Text) → text_le s t ≡ true → text_le t u ≡ true → text_le s u ≡ true
unfolding text_le
text_le_trans [] t u h k = refl
text_le_trans (a ∷ s) [] u h k = cc
text_le_trans (a ∷ s) (b ∷ t) [] h k = cc
text_le_trans (a ∷ s) (b ∷ t) (c ∷ u) h k = ground (arith, text_le_trans s t u)

abbrev pub AllAbove : Text → List Text → Type 0
AllAbove s = All (λ t. text_le s t ≡ true)

abbrev pub Sorted : List Text → Type 0
Sorted [] = Unit
Sorted (s ∷ ss) = AllAbove s ss × Sorted ss

AllAbove-trans : (s t : Text) (ts : List Text) → text_le s t ≡ true → AllAbove t ts → AllAbove s ts
AllAbove-trans s t [] h a = tt
AllAbove-trans s t (u ∷ ts) h a = (text_le_trans s t u h a.0, AllAbove-trans s t ts h a.1)

AllAbove-place :
    (r s : Text) (ts : List Text) → text_le r s ≡ true → AllAbove r ts → AllAbove r (place s ts)
unfolding place
AllAbove-place r s [] h a = (h, tt)
AllAbove-place r s (t ∷ ts) h a = elim (Bool-cases (text_le s t)) [
  | inl e ↦ rw e (h, a)
  | inr e ↦ rw e (a.0, AllAbove-place r s ts h a.1)
]

place-Sorted : (s : Text) (ts : List Text) → Sorted ts → Sorted (place s ts)
unfolding place
place-Sorted s [] h = (tt, tt)
place-Sorted s (t ∷ ts) h = elim (Bool-cases (text_le s t)) [
  | inl e ↦ rw e ((e, AllAbove-trans s t ts e h.0), h)
  | inr e ↦ rw e (AllAbove-place t s ts (text_le_total s t e) h.0, place-Sorted s ts h.1)
]

pub sort_texts-Sorted : (ss : List Text) → Sorted (sort_texts ss)
unfolding sort_texts
sort_texts-Sorted [] = tt
sort_texts-Sorted (s ∷ ss) = place-Sorted s (sort_texts ss) (sort_texts-Sorted ss)

has_text-place : (u s : Text) (ts : List Text) → has_text u (place s ts) ≡ has_text u (s ∷ ts)
unfolding place
has_text-place u s [] = refl
has_text-place u s (t ∷ ts) = ground (arith, has_text-place u s ts)

pub has_text-sort_texts : (u : Text) (ss : List Text) → has_text u (sort_texts ss) ≡ has_text u ss
unfolding sort_texts
has_text-sort_texts u [] = refl
has_text-sort_texts u (s ∷ ss) =
    ground (arith, has_text-place u s (sort_texts ss), has_text-sort_texts u ss)
