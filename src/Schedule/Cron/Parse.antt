-- ===== src/Schedule/Cron/Parse.antt =====
-- Reading back a printed segment.
use polarix_plus.Base.{
  ltb, if◌then◌else◌, atoi, All, All-append, cut, Text, codes, text_eq, is_empty, ℕ, ◌+◌, ◌/◌, ◌%◌,
  ◌≤◌, ◌<◌, ◌≡◌, ◌≢◌, false, some, [], ◌∷◌, ◌++◌, arith,
}
use polarix_plus.Schedule.Cron.{checked, Segment, step_of, range_of, slash_parts, parse_segment}

-- a number of one or two digits in decimal
abbrev pub show : ℕ → Text
show n = if ltb n 10 then (b'0' + n) ∷ [] else (b'0' + n / 10) ∷ (b'0' + n % 10) ∷ []

abbrev pub print_segment : Segment → Text
print_segment g = (show g.start ++ b'-' ∷ show g.stop) ++ b'/' ∷ show g.step

abbrev IsDigits : Text → Type 0
IsDigits = All (λ c. (b'0' ≤ c) × (c ≤ b'9'))

show-IsDigits : (n : ℕ) → n < 100 → IsDigits (show n)
show-IsDigits n h = ground arith

atoi-show : (n : ℕ) → n < 100 → atoi (show n) ≡ some n
unfolding atoi
atoi-show n h = ground arith

-- The first byte `b` of a text cuts it.
cut-append : (b : ℕ) (p r : Text) → All (λ c. c ≢ b) p → cut b (p ++ b ∷ r) ≡ some (p, r)
unfolding cut
cut-append b [] r h = ground arith
cut-append b (c ∷ p) r h = ground (arith, cut-append b p r h.1)

digits_lack : (b : ℕ) (p : Text) → b < b'0' → IsDigits p → All (λ c. c ≢ b) p
digits_lack b [] h d = tt
digits_lack b (c ∷ p) h d = (omega arith, digits_lack b p h d.1)

range_lacks : (p q : Text) → IsDigits p → IsDigits q → All (λ c. c ≢ b'/') (p ++ b'-' ∷ q)
range_lacks p q hp hq =
    All-append (λ c. c ≢ b'/') p (b'-' ∷ q) (digits_lack b'/' p (omega arith) hp)
      (omega arith, digits_lack b'/' q (omega arith) hq)

step_of-show : (n : ℕ) → 0 < n → n < 100 → step_of (show n) ≡ some n
unfolding step_of
step_of-show n h k = rw (atoi-show n k) (ground arith)

not_star : (n : ℕ) (r : Text) → n < 100 → text_eq (show n ++ r) (codes "*") ≡ false
unfolding text_eq
not_star n r h = ground arith

slash_parts-print :
    (p : Text) (n : ℕ)
    → All (λ c. c ≢ b'/') p
    → 0 < n
    → n < 100
    → slash_parts (p ++ b'/' ∷ show n) ≡ some (p, n)
unfolding slash_parts
slash_parts-print p n h a b =
    rw (cut-append b'/' p (show n) h, slash_parts) (rw (step_of-show n a b))

range_of-print :
    (a b lo hi : ℕ) → a < 100 → b < 100 → range_of (show a ++ b'-' ∷ show b) lo hi ≡ some (a, b)
unfolding range_of
range_of-print a b lo hi ha hb = rw (
  not_star a (b'-' ∷ show b) ha,
  cut-append b'-' (show a) (show b) (digits_lack b'-' (show a) (omega arith) (show-IsDigits a ha)),
  atoi-show a ha,
  atoi-show b hb,
)

not_empty : (n : ℕ) (r t : Text) → is_empty ((show n ++ r) ++ t) ≡ false
not_empty n r t = ground arith

checked_within :
    (g : Segment) (lo hi : ℕ)
    → lo ≤ g.start
    → g.start ≤ g.stop
    → g.stop ≤ hi
    → hi < 100
    → checked lo hi g ≡ some g
checked_within g lo hi a b c d = ground arith

-- A segment within the bounds of its field, which ends below 100, with a step from 1 to 99, is
-- read back from its print.
pub parse_segment-print :
    (g : Segment) (lo hi : ℕ)
    → lo ≤ g.start
    → g.start ≤ g.stop
    → g.stop ≤ hi
    → hi < 100
    → 0 < g.step
    → g.step < 100
    → parse_segment (print_segment g) lo hi ≡ some g
unfolding parse_segment
parse_segment-print g lo hi a b c d e f =
    let ha : g.start < 100 = omega arith in
    let hb : g.stop < 100 = omega arith in
    rw
      (
        not_empty g.start (b'-' ∷ show g.stop) (b'/' ∷ show g.step),
        slash_parts-print (show g.start ++ b'-' ∷ show g.stop) g.step
            (range_lacks (show g.start) (show g.stop) (show-IsDigits g.start ha)
              (show-IsDigits g.stop hb))
            e f,
        range_of-print g.start g.stop lo hi ha hb,
      )
      (checked_within g lo hi a b c d)
