-- ===== src/Message/Count.antt =====
-- The counter that the replies to one message share, and `Send` (lib/message/ref.go, base.go). What
-- marshalling and the API do is a parameter.
use mathlib.Core.Path.{subst}
use native.Mathlib.Decide.{ℕ_discrete}
use polarix_plus.Base.{
  ◌==◌, if◌then◌else◌, ℕ, zero, suc, ◌+◌, ◌-◌, ◌%◌, ◌^◌, ◌≤◌, ◌<◌, ◌≡◌, refl, sym, Bool, not,
  Option, none, some, List, [], ◌∷◌, arith,
}

-- `Count`; the counter is a uint8
unfoldable pub count : ℕ → Option ℕ × ℕ
count seq =
    if seq == 5
    then (none, seq)
    else (some ((((seq + 1) % 2 ^ 8) + 2 ^ 8 - 1) % 2 ^ 8), (seq + 1) % 2 ^ 8)

-- the counter of `InitRef`
abbrev pub first_seq : ℕ
first_seq = 1

pub data Target : Type 0 where
  to_group to_private to_other : Target

-- The errors of `Send`; `nil_client` stands for its panic.
pub data SendError : Type 0 where
  message_used reach_limit marshal_failed unknown_target api_failed nil_client : SendError

-- what the call of the API got: the target and the number of the reply
pub record Posted : Type 0 where
  pub target : Target
  pub seq : ℕ

pub record Message : Type 0 where
  pub used : Bool
  pub target : Target
  pub has_client : Bool

-- `Send`: the error, what was posted, and the counter
unfoldable pub send : Bool → (Posted → Bool) → Message → ℕ → Option SendError × (Option Posted × ℕ)
unfolding count
send marshals api msg seq =
    if msg.used then (some message_used, (none, seq)) else elim (count seq).0 [
      | none ↦ (some reach_limit, (none, (count seq).1))
      | some n ↦
          (let post : Posted = record { target = msg.target; seq = n } in
            if not marshals
            then (some marshal_failed, (none, (count seq).1))
            else if not msg.has_client
            then (some nil_client, (none, (count seq).1))
            else elim msg.target [
              | to_group ↦ (if api post then none else some api_failed, (some post, (count seq).1))
              | to_private ↦
                  (if api post then none else some api_failed, (some post, (count seq).1))
              | to_other ↦ (some unknown_target, (none, (count seq).1))
            ])
    ]

-- the numbers that a series of counts gives
unfoldable pub counts : ℕ → ℕ → List (Option ℕ)
unfolding count
counts zero seq = []
counts (suc n) seq = (count seq).0 ∷ counts n (count seq).1

-- numbers from `i` to 4, then only refusals
abbrev pub Replies : ℕ → List (Option ℕ) → Type 0
Replies i [] = Unit
Replies i (none ∷ os) = (i ≡ 5) × Replies i os
Replies i (some n ∷ os) = (n ≡ i) × (i < 5) × Replies (i + 1) os

counts-Replies_from : (n i : ℕ) → i ≤ 5 → Replies i (counts n i)
unfolding counts
counts-Replies_from zero i h = tt
counts-Replies_from (suc n) i h = elim (ℕ_discrete i 5) [
  | yes e ↦
      subst (λ o. Replies i (o.0 ∷ counts n o.1)) (sym (at_limit i e))
        (e, counts-Replies_from n i h)
  | no d ↦
      subst (λ o. Replies i (o.0 ∷ counts n o.1)) (sym (below i (omega arith)))
        (refl, omega arith, counts-Replies_from n (i + 1) (omega arith))
]
  where
    at_limit : (i : ℕ) → i ≡ 5 → count i ≡ (none, i)
    at_limit i e = ground arith

    below : (i : ℕ) → i < 5 → count i ≡ (some i, i + 1)
    below i h = ground arith

-- The replies to one message are numbered 1, 2, 3, 4, and every further one is refused.
pub counts-Replies : (n : ℕ) → Replies first_seq (counts n first_seq)
counts-Replies n = counts-Replies_from n 1 (omega arith)
