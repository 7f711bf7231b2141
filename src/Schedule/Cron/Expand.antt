-- ===== src/Schedule/Cron/Expand.antt =====
-- The loop that fills the set of a segment.
use native.Mathlib.Decide.{dec_le, dec_lt}
use native.Mathlib.Nat.{mod-eq_of_lt, mod-eq-sub-mod}
use polarix_plus.Base.{
  leb, ◌==◌, wrap, sle, ℕ, zero, suc, ◌+◌, ◌-◌, ◌%◌, ◌^◌, ◌≤◌, ◌<◌, ◌≡◌, sym, ap, ◌∙◌, Bool, true,
  false, ◌&&◌, ◌||◌, some, List, [], ◌∷◌, arith,
}
use polarix_plus.Schedule.Cron.{fuel, has, expand}

-- steps that a cron field can mean
abbrev pub IsSmallStep : ℕ → Type 0
IsSmallStep s = (0 < s) × (s < 2 ^ 63 - 60)

-- what a segment stands for
abbrev pub covers : ℕ → ℕ → ℕ → ℕ → Bool
covers a e s v = leb a v && leb v e && ((v - a) % s == 0)

mod_small : (n s : ℕ) → n < s → n % s ≡ n
mod_small n s h = mod-eq_of_lt h

-- one value more in front of those from the next value on
covers_next : (a e s v : ℕ) → 0 < s → a ≤ e → ((a == v) || covers (a + s) e s v) ≡ covers a e s v
covers_next a e s v hs h = elim (dec_lt v (a + s)) [
  | yes p ↦ ground (arith, mod_small (v - a) s)
  | no p ↦
      let step : (v - a) % s ≡ (v - (a + s)) % s =
        mod-eq-sub-mod {n = v - a} {m = s} (omega arith)
        ∙ ap (λ n. n % s) {y = v - (a + s)} (omega arith) in
      ground (arith, step)
]

-- no value past the end
covers_past : (a e s v : ℕ) → e < a → covers a e s v ≡ false
covers_past a e s v h = ground arith

-- one round of the loop
expand_round :
    (f v e s : ℕ) (out : List ℕ)
    → sle v e ≡ true
    → expand f (wrap (v + s)) e s ≡ some out
    → expand (suc f) v e s ≡ some (v ∷ out)
unfolding expand
expand_round f v e s out more rest = rw (more, rest)

-- In a field whose end is below 60 a small step never wraps: the set is that of the values from `a`
-- to `e` in steps of `s`.
pub expand_small :
    (f a e s : ℕ)
    → e < 60
    → a ≤ e + s
    → IsSmallStep s
    → 1 ≤ f
    → e + 2 ≤ f + a
    → (out : List ℕ) × (expand f a e s ≡ some out) × ((v : ℕ) → has v out ≡ covers a e s v)
unfolding expand
expand_small zero a e s he ha hs hf h = absurd (omega arith)
expand_small (suc f) a e s he ha hs hf h = elim (dec_le a e) [
  | yes p ↦
      let next : wrap (a + s) ≡ a + s = omega arith in
      let more : sle a e ≡ true = ground arith in
      let (out, runs, holds) =
        expand_small f (a + s) e s he (omega arith) hs (omega arith) (omega arith) in
      (
        a ∷ out,
        expand_round f a e s out more (ap (λ n. expand f n e s) next ∙ runs),
        λ v. rw (holds v) (covers_next a e s v hs.0 p),
      )
  | no p ↦
      let done : sle a e ≡ false = ground arith in
      ([], rw done, λ v. sym (covers_past a e s v (omega arith)))
]

expand_stop : (f v e s : ℕ) → 1 ≤ f → sle v e ≡ false → expand f v e s ≡ some []
unfolding expand
expand_stop zero v e s h past = absurd (omega arith)
expand_stop (suc f) v e s h past = rw past

-- A loop that ends.
abbrev Ends : ℕ → ℕ → ℕ → ℕ → Type 0
Ends f v e s = (out : List ℕ) × (expand f v e s ≡ some out)

Ends-round : (f v e s : ℕ) → sle v e ≡ true → Ends f (wrap (v + s)) e s → Ends (suc f) v e s
Ends-round f v e s more (out, runs) = (v ∷ out, expand_round f v e s out more runs)

Ends-stop : (f v e s : ℕ) → 1 ≤ f → sle v e ≡ false → Ends f v e s
Ends-stop f v e s h past = ([], expand_stop f v e s h past)

abbrev IsHugeStep : ℕ → Type 0
IsHugeStep s = (2 ^ 63 - 61 < s) × (s < 2 ^ 63)

-- two rounds that wrap go down by at least two
wraps_down :
    (v e s : ℕ)
    → v ≤ e
    → e < 60
    → IsHugeStep s
    → 2 ^ 63 ≤ v + s
    → 2 ^ 64 ≤ v + s + s
    → wrap (wrap (v + s) + s) + 2 ≤ v
wraps_down v e s hv he hs p q = omega arith

-- or go below zero, and the third passes the end
wraps_past :
    (v e s : ℕ)
    → v ≤ e
    → e < 60
    → IsHugeStep s
    → 2 ^ 63 ≤ v + s
    → v + s + s < 2 ^ 64
    → (sle (wrap (wrap (v + s) + s)) e ≡ true)
      × (sle (wrap (wrap (wrap (v + s) + s) + s)) e ≡ false)
wraps_past v e s hv he hs p q = (ground arith, ground arith)

wraps_below :
    (v e s : ℕ) → v ≤ e → e < 60 → IsHugeStep s → 2 ^ 63 ≤ v + s → sle (wrap (v + s)) e ≡ true
wraps_below v e s hv he hs p = ground arith

past_end :
    (v e s : ℕ) → v ≤ e → e < 60 → IsHugeStep s → v + s < 2 ^ 63 → sle (wrap (v + s)) e ≡ false
past_end v e s hv he hs p = ground arith

within_end : (v e : ℕ) → v ≤ e → e < 60 → sle v e ≡ true
within_end v e hv he = ground arith

-- A step so large that it wraps round still ends.
expand_huge : (f v e s : ℕ) → v ≤ e → e < 60 → IsHugeStep s → v + 4 ≤ f → Ends f v e s
expand_huge zero v e s hv he hs hf = absurd (omega arith)
expand_huge (suc zero) v e s hv he hs hf = absurd (omega arith)
expand_huge (suc (suc f)) v e s hv he hs hf = elim (dec_lt (v + s) (2 ^ 63)) [
  | yes p ↦
      Ends-round (suc f) v e s (within_end v e hv he)
        (Ends-stop (suc f) _ e s (omega arith) (past_end v e s hv he hs p))
  | no p ↦
      let q : 2 ^ 63 ≤ v + s = omega arith in
      Ends-round (suc f) v e s (within_end v e hv he) (
        Ends-round f _ e s (wraps_below v e s hv he hs q) (elim (dec_lt (v + s + s) (2 ^ 64)) [
          | yes r ↦ ends_below f v e s hv he hs q r (omega arith)
          | no r ↦
              let down = wraps_down v e s hv he hs q (omega arith) in
              expand_huge f (wrap (wrap (v + s) + s)) e s (omega arith) he hs (omega arith)
        ]))
]
  where
    ends_below :
        (f v e s : ℕ)
        → v ≤ e
        → e < 60
        → IsHugeStep s
        → 2 ^ 63 ≤ v + s
        → v + s + s < 2 ^ 64
        → v + 2 ≤ f
        → Ends f (wrap (wrap (v + s) + s)) e s
    ends_below zero v e s hv he hs q r h = absurd (omega arith)
    ends_below (suc f) v e s hv he hs q r h =
        let (more, past) = wraps_past v e s hv he hs q r in
        Ends-round f _ e s more (Ends-stop f _ e s (omega arith) past)

-- The fuel is enough for every segment of a field that ends below 60 and every positive step: the
-- loop ends.
pub expand_ends :
    (a e s : ℕ)
    → a ≤ e
    → e < 60
    → 0 < s
    → s < 2 ^ 63
    → (out : List ℕ) × (expand fuel a e s ≡ some out)
expand_ends a e s h he hs hi = elim (dec_lt s (2 ^ 63 - 60)) [
  | yes p ↦
      let (out, runs, _) =
        expand_small fuel a e s he (omega arith) (hs, p) (omega arith) (omega arith) in
      (out, runs)
  | no p ↦ expand_huge fuel a e s h he (omega arith, hi) (omega arith)
]
