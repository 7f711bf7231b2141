-- ===== src/Schedule/Cron/Field.antt =====
-- What a whole field of a cron expression matches.
use polarix_plus.Base.{
  ◌>>=◌, >>=-eq-some, atoi, All, trim_space, split, cut, Text, ℕ, ◌^◌, ◌≤◌, ◌<◌, ◌≡◌, refl, ap, ◌∙◌,
  Bool, false, ◌||◌, Option, none, some, List, [], ◌∷◌, ◌++◌, arith,
}
use polarix_plus.Schedule.Cron.{
  expand, fuel, parse_part, parse_field, parse_parts, Segment, has, step_of, span_of, range_of,
  stepped, slash_parts, checked, parse_segment,
}
use polarix_plus.Schedule.Cron.Expand.{expand_small, IsSmallStep, covers}

atoi-lt : (s : Text) {n : ℕ} → atoi s ≡ some n → n < 2 ^ 64
unfolding atoi
atoi-lt [] h = cc
atoi-lt (c ∷ s) h = ground arith

step_of_bounds : (s : Text) {n : ℕ} → step_of s ≡ some n → (0 < n) × (n < 2 ^ 63)
unfolding step_of
step_of_bounds s h = ground (arith, atoi-lt s)

stepped_bounds :
    (part : Text) (o : Option (Text × Text)) {r : Text} {n : ℕ}
    → stepped part o ≡ some (r, n)
    → (0 < n) × (n < 2 ^ 63)
unfolding stepped
stepped_bounds part none h = ground arith
stepped_bounds part (some (r, s)) h = ground (arith, step_of_bounds s)

slash_parts_bounds :
    (part : Text) {r : Text} {n : ℕ} → slash_parts part ≡ some (r, n) → (0 < n) × (n < 2 ^ 63)
unfolding slash_parts
slash_parts_bounds part h = stepped_bounds part (cut b'/' part) h

both_bounds :
    (m k : Option ℕ) {a b : ℕ}
    → ((n : ℕ) → m ≡ some n → n < 2 ^ 64)
    → ((n : ℕ) → k ≡ some n → n < 2 ^ 64)
    → ◌>>=◌ {B = ℕ × ℕ} m (λ x. ◌>>=◌ {B = ℕ × ℕ} k (λ y. some (x, y))) ≡ some (a, b)
    → (a < 2 ^ 64) × (b < 2 ^ 64)
both_bounds none k hm hk h = cc
both_bounds (some x) none hm hk h = cc
both_bounds (some x) (some y) hm hk h = ground (arith, hm x, hk y)

span_of_bounds :
    (r : Text) (o : Option (Text × Text)) {a b : ℕ}
    → span_of r o ≡ some (a, b)
    → (a < 2 ^ 64) × (b < 2 ^ 64)
unfolding span_of
span_of_bounds r none h = ground (arith, atoi-lt r)
span_of_bounds r (some (s, t)) h = both_bounds (atoi s) (atoi t) (λ n. atoi-lt s) (λ n. atoi-lt t) h

range_of_bounds :
    (r : Text) (lo hi : ℕ) {a b : ℕ}
    → hi < 60
    → lo ≤ hi
    → range_of r lo hi ≡ some (a, b)
    → (a < 2 ^ 64) × (b < 2 ^ 64)
unfolding range_of
range_of_bounds r lo hi {a} {b} small order h =
    ground (arith, span_of_bounds r (cut b'-' r) {a = a} {b = b})

checked_bounds :
    (lo hi : ℕ) (g' : Segment) {g : Segment}
    → hi < 60
    → lo ≤ hi
    → (g'.start < 2 ^ 64) × (g'.stop < 2 ^ 64)
    → (0 < g'.step) × (g'.step < 2 ^ 63)
    → checked lo hi g' ≡ some g
    → (lo ≤ g.start) × (g.start ≤ g.stop) × (g.stop ≤ hi) × (0 < g.step) × (g.step < 2 ^ 63)
checked_bounds lo hi g' small order h k e = ground arith

-- In a field whose bounds are in order and below 60, a part that is accepted names values within
-- the bounds, its start at most its end, and a positive step.
pub parse_segment_bounds :
    (part : Text) (lo hi : ℕ) {g : Segment}
    → hi < 60
    → lo ≤ hi
    → parse_segment part lo hi ≡ some g
    → (lo ≤ g.start) × (g.start ≤ g.stop) × (g.stop ≤ hi) × (0 < g.step) × (g.step < 2 ^ 63)
unfolding parse_segment
parse_segment_bounds [] lo hi small order h = cc
parse_segment_bounds (c ∷ part) lo hi small order h =
    let ((r, step), parts, h') = >>=-eq-some (slash_parts (c ∷ part)) _ h in
    let ((a, b), range, last) = >>=-eq-some (range_of r lo hi) _ h' in
    checked_bounds lo hi _ small order (range_of_bounds r lo hi small order range)
      (slash_parts_bounds (c ∷ part) parts) last

-- The parts of a field, each read as a segment.
pub data Segments (lo hi : ℕ) : List Text → List Segment → Type 0 where
  nil : Segments lo hi [] []
  cons :
      {p : Text} {ps : List Text} {g : Segment} {gs : List Segment}
      → parse_segment (trim_space p) lo hi ≡ some g
      → Segments lo hi ps gs
      → Segments lo hi (p ∷ ps) (g ∷ gs)

abbrev pub some_covers : ℕ → List Segment → Bool
some_covers v [] = false
some_covers v (g ∷ gs) = covers g.start g.stop g.step v || some_covers v gs

abbrev pub HasSmallStep : Segment → Type 0
HasSmallStep g = IsSmallStep g.step

has-append : (v : ℕ) (xs ys : List ℕ) → has v (xs ++ ys) ≡ (has v xs || has v ys)
has-append v [] ys = refl
has-append v (x ∷ xs) ys = ground (arith, has-append v xs ys)

-- A set that the loop gives for what `b` tells.
abbrev Gives : Option (List ℕ) → (ℕ → Bool) → Type 0
Gives o b = (out : List ℕ) × (o ≡ some out) × ((v : ℕ) → has v out ≡ b v)

Gives-eq : {o o' : Option (List ℕ)} {b : ℕ → Bool} → o ≡ o' → Gives o' b → Gives o b
Gives-eq e (out, runs, holds) = (out, e ∙ runs, holds)

parse_part-covers :
    (p : Text) (lo hi : ℕ) (g : Segment)
    → hi < 60
    → lo ≤ hi
    → parse_segment (trim_space p) lo hi ≡ some g
    → HasSmallStep g
    → Gives (parse_part p lo hi) (covers g.start g.stop g.step)
unfolding parse_part
parse_part-covers p lo hi g small order h step =
    let (a, b, c, d, e) = parse_segment_bounds (trim_space p) lo hi small order h in
    Gives-eq (ap (λ o. o >>= λ (g : Segment). expand fuel g.start g.stop g.step) h) (
      expand_small fuel g.start g.stop g.step (omega arith) (omega arith) step (omega arith)
        (omega arith))

Gives-append :
    (o o' : Option (List ℕ)) (b b' : ℕ → Bool)
    → Gives o b
    → Gives o' b'
    → Gives (o >>= λ vs. o' >>= λ rest. some (vs ++ rest)) (λ v. b v || b' v)
Gives-append none o' b b' (out, runs, holds) k = cc
Gives-append (some vs) none b b' h (out, runs, holds) = cc
Gives-append (some vs) (some rest) b b' (out, e, h) (out', e', h') =
    (vs ++ rest, refl, λ v. has-append v vs rest ∙ ground (arith, h v, h' v))

parse_parts-covers :
    (lo hi : ℕ) {ps : List Text} {gs : List Segment}
    → hi < 60
    → lo ≤ hi
    → Segments lo hi ps gs
    → All HasSmallStep gs
    → Gives (parse_parts ps lo hi) (λ v. some_covers v gs)
unfolding parse_parts
parse_parts-covers lo hi small order nil steps = ([], refl, λ v. refl)
parse_parts-covers lo hi small order (cons {p} {ps} {g} {gs} h rest) steps =
    Gives-append (parse_part p lo hi) (parse_parts ps lo hi) _ _
      (parse_part-covers p lo hi g small order h steps.0)
      (parse_parts-covers lo hi small order rest steps.1)

-- A field whose bounds are in order and below 60, and whose parts are all accepted, with steps
-- that do not overflow, gives a set, and the set holds exactly the values that one of its parts
-- covers.
pub parse_field-covers :
    (field : Text) (lo hi : ℕ) {gs : List Segment}
    → hi < 60
    → lo ≤ hi
    → Segments lo hi (split b',' field) gs
    → All HasSmallStep gs
    → (out : List ℕ) × (parse_field field lo hi ≡ some out)
      × ((v : ℕ) → has v out ≡ some_covers v gs)
unfolding parse_field
parse_field-covers field lo hi small order h steps = parse_parts-covers lo hi small order h steps
