-- ===== src/Schedule/Cron.antt =====
-- Five-field cron expressions (lib/schedule/cron.go). A set of values is a list; an error is `none`.
pub mod Expand
pub mod Parse
pub mod Field
use polarix_plus.Base.{
  ◌==◌, if◌then◌else◌, ◌>>=◌, wrap, sle, slt, atoi, trim_space, fields, split, cut, Text, codes,
  text_eq, is_empty, ℕ, zero, suc, ◌+◌, Bool, true, false, not, ◌||◌, Option, none, some, List, [],
  ◌∷◌, ◌++◌,
}

-- One part of a field, read: `start`, `end` and `step` are 64-bit integers.
pub record Segment : Type 0 where
  pub start : ℕ
  pub stop : ℕ
  pub step : ℕ

pub record CronExpr : Type 0 where
  pub minute : List ℕ
  pub hour : List ℕ
  pub day : List ℕ
  pub month : List ℕ
  pub weekday : List ℕ

abbrev pub has : ℕ → List ℕ → Bool
has v [] = false
has v (x ∷ xs) = (x == v) || has v xs

-- the step behind a slash: a positive number
unfoldable pub step_of : Text → Option ℕ
unfolding atoi
step_of s = do n ← atoi s; if sle n 0 then none else some n

-- `a-b`, cut at the dash, or else `n`
span_of : Text → Option (Text × Text) → Option (ℕ × ℕ)
unfolding atoi
span_of r (some (a, b)) = do start ← atoi a; stop ← atoi b; some (start, stop)
span_of r none = do n ← atoi r; some (n, n)

-- the part before the step: `*`, `a-b` or `n`
unfoldable pub range_of : Text → ℕ → ℕ → Option (ℕ × ℕ)
unfolding span_of cut text_eq
range_of r lo hi = if text_eq r (codes "*") then some (lo, hi) else span_of r (cut b'-' r)

-- the part before and the step behind a slash; with no slash the step is 1
stepped : Text → Option (Text × Text) → Option (Text × ℕ)
unfolding step_of
stepped part (some (r, s)) = do step ← step_of s; some (r, step)
stepped part none = some (part, 1)

unfoldable pub slash_parts : Text → Option (Text × ℕ)
unfolding stepped cut
slash_parts part = stepped part (cut b'/' part)

abbrev pub checked : ℕ → ℕ → Segment → Option Segment
checked lo hi g = if slt g.start lo || slt hi g.stop || slt g.stop g.start then none else some g

-- the body of the loop of `parseField`, up to the loop that fills the set
unfoldable pub parse_segment : Text → ℕ → ℕ → Option Segment
unfolding slash_parts range_of
parse_segment part lo hi = if is_empty part then none else do
  (r, step) ← slash_parts part
  (start, stop) ← range_of r lo hi
  checked lo hi (record { start = start; stop = stop; step = step })

-- `for v := start; v <= end; v += step`, on fuel; `none` means that the fuel ran out
unfoldable pub expand : ℕ → ℕ → ℕ → ℕ → Option (List ℕ)
expand zero v stop step = none
expand (suc f) v stop step =
    let rest = expand f (wrap (v + step)) stop step >>= λ (out : List ℕ). some (v ∷ out) in
    if sle v stop then rest else some []

abbrev pub fuel : ℕ
fuel = 128

unfoldable pub parse_part : Text → ℕ → ℕ → Option (List ℕ)
unfolding parse_segment expand trim_space
parse_part part lo hi = do
  g ← parse_segment (trim_space part) lo hi
  expand fuel g.start g.stop g.step

unfoldable pub parse_parts : List Text → ℕ → ℕ → Option (List ℕ)
unfolding parse_part
parse_parts [] lo hi = some []
parse_parts (p ∷ ps) lo hi = do
  vs ← parse_part p lo hi
  rest ← parse_parts ps lo hi
  some (vs ++ rest)

unfoldable pub parse_field : Text → ℕ → ℕ → Option (List ℕ)
unfolding parse_parts split
parse_field field lo hi = parse_parts (split b',' field) lo hi

unfoldable pub five_fields : List Text → Option CronExpr
unfolding parse_field
five_fields (m ∷ h ∷ d ∷ mo ∷ w ∷ []) = do
  minute ← parse_field m 0 59
  hour ← parse_field h 0 23
  day ← parse_field d 1 31
  month ← parse_field mo 1 12
  weekday ← parse_field w 0 6
  some (record { minute = minute; hour = hour; day = day; month = month; weekday = weekday })
five_fields _ = none

unfoldable pub parse_cron : Text → Option CronExpr
unfolding fields five_fields
parse_cron expr = five_fields (fields expr)

-- the fields of a `time.Time` that a cron expression looks at
pub record Clock : Type 0 where
  pub minute : ℕ
  pub hour : ℕ
  pub day : ℕ
  pub month : ℕ
  pub weekday : ℕ

unfoldable pub match : CronExpr → Clock → Bool
match c t =
    if not (has t.minute c.minute)
    then false
    else if not (has t.hour c.hour)
    then false
    else if not (has t.day c.day)
    then false
    else if not (has t.month c.month)
    then false
    else if not (has t.weekday c.weekday)
    then false
    else true
