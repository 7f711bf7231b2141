-- ===== src/Base/Int64.antt =====
-- Go's `int` on a 64-bit machine: a bit pattern below 2 ^ 64, read as a two's complement number.
use Prim.Native.Nat.{ℕ, ◌+◌, ◌-◌, ◌*◌, ◌%◌, ◌^◌}
use mathlib.Core.List.{[], ◌∷◌}
use mathlib.Core.Option
use mathlib.Core.Option.{Option, none, some}
use mathlib.Core.Bool.{Bool, ◌&&◌}
use polarix_plus.Base.Tests.{◌==◌, leb, ltb, if◌then◌else◌}
use polarix_plus.Base.Bytes.{Text}

abbrev pub half : ℕ
half = 2 ^ 63

abbrev pub wrap : ℕ → ℕ
wrap n = n % 2 ^ 64

-- a ≤ b and a < b as signed numbers
abbrev pub sle : ℕ → ℕ → Bool
sle a b = leb (wrap (a + half)) (wrap (b + half))

abbrev pub slt : ℕ → ℕ → Bool
slt a b = ltb (wrap (a + half)) (wrap (b + half))

-- the digits of an unsigned number behind the value `n`; past 2 ^ 64 the text is refused
unfoldable pub digits_from : ℕ → Text → Option ℕ
digits_from n [] = some n
digits_from n (c ∷ s) =
    let rest = digits_from (n * 10 + (c - b'0')) s in
    if leb b'0' c && leb c b'9' && leb n half then rest else none

-- strconv.Atoi: an optional sign, then digits, within the range of `int`
unfoldable pub unsigned : Text → Option ℕ
unfolding digits_from
unsigned [] = none
unsigned (c ∷ s) = digits_from 0 (c ∷ s)

abbrev pub in_range : ℕ → Option ℕ → Option ℕ
in_range top none = none
in_range top (some n) = if leb n top then some n else none

unfoldable pub atoi : Text → Option ℕ
unfolding unsigned
atoi [] = none
atoi (c ∷ s) =
    if c == b'-'
    then Option.map (λ (n : ℕ). wrap (2 ^ 64 - n)) (in_range half (unsigned s))
    else if c == b'+'
    then in_range (half - 1) (unsigned s)
    else in_range (half - 1) (unsigned (c ∷ s))
