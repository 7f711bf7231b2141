-- ===== src/Middleware/Verify.antt =====
-- The seed of the signing key (`DeriveEd25519Key` in lib/middleware/verify.go); what crypto/ed25519
-- makes of the 32 bytes is left out.
use mathlib.Core.Path.{subst}
use native.Mathlib.Nat.{pow-suc}
use polarix_plus.Base.{
  ltb, if◌then◌else◌, if_false, if_true, Bool-cases, ◌>>=◌, length, take, length-append,
  length-take, Text, is_empty, ℕ, zero, suc, ◌+◌, ◌*◌, ◌^◌, ◌≤◌, ◌≡◌, refl, sym, ap, ◌∙◌, inl, inr,
  false, Option, none, some, [], ◌∷◌, ◌++◌, arith,
}

abbrev pub seed_size : ℕ
seed_size = 32

-- `for len(seed) < SeedSize { seed += seed }`, on fuel
unfoldable pub stretch : ℕ → Text → Option Text
stretch zero seed = none
stretch (suc k) seed =
    let rest = stretch k (seed ++ seed) in if ltb (length seed) seed_size then rest else some seed

-- the seed: five doublings of one byte are 32
unfoldable pub seed_of : Text → Option Text
unfolding stretch
seed_of secret = stretch 6 secret >>= λ (s : Text). some (take seed_size s)

twice : (a b : ℕ) → a * (b * 2) ≡ (a + a) * b
twice a b = grind arith

stretch_ends :
    (k : ℕ) (seed : Text)
    → seed_size ≤ length seed * 2 ^ k
    → (s : Text) × (stretch (suc k) seed ≡ some s) × (seed_size ≤ length s)
unfolding stretch
stretch_ends zero seed h =
    (seed, if_false (ltb (length seed) seed_size) _ _ (ground arith), omega arith)
stretch_ends (suc k) seed h = elim (Bool-cases (ltb (length seed) seed_size)) [
  | inr e ↦ (seed, if_false (ltb (length seed) seed_size) _ _ e, ground arith)
  | inl e ↦
      let (s, runs, long) = stretch_ends k (seed ++ seed) (doubled k seed h) in
      (s, if_true (ltb (length seed) seed_size) _ _ e ∙ runs, long)
]
  where
    doubled :
        (k : ℕ) (seed : Text)
        → seed_size ≤ length seed * 2 ^ suc k
        → seed_size ≤ length (seed ++ seed) * 2 ^ k
    doubled k seed h =
        subst (λ m. seed_size ≤ m)
          (ap (λ m. length seed * m) (pow-suc 2 k)
            ∙ (twice (length seed) (2 ^ k) ∙ ap (λ m. m * 2 ^ k) (sym (length-append seed seed))))
          h

-- A secret that is not empty gives a seed of 32 bytes.
pub seed_of-length :
    (secret : Text)
    → is_empty secret ≡ false
    → (s : Text) × (seed_of secret ≡ some s) × (length s ≡ seed_size)
unfolding seed_of
seed_of-length [] h = cc
seed_of-length (c ∷ cs) h =
    let (s, runs, long) = stretch_ends 5 (c ∷ cs) (omega arith) in
    (
      take seed_size s,
      ap (λ o. o >>= λ (s : Text). some (take seed_size s)) runs,
      length-take seed_size s long,
    )

-- On an empty secret the loop never ends, whatever the fuel.
pub stretch_empty : (k : ℕ) → stretch k [] ≡ none
unfolding stretch
stretch_empty zero = refl
stretch_empty (suc k) = stretch_empty k
