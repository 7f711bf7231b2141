-- ===== src/Api/Upload.antt =====
-- The parts of an upload (`chunkedUpload` in lib/qqapi/upload.go).
use mathlib.Core.Path.{subst}
use native.Mathlib.Decide.{dec_le}
use native.Mathlib.Nat.{suc-mul}
use polarix_plus.Base.{
  ltb, leb, ◌==◌, if◌then◌else◌, if_false, ◌>>=◌, some_inj, length, take, drop, length-drop,
  take-drop, drop_all, take_all, drop-drop, index, ℕ, zero, suc, ◌+◌, ◌-◌, ◌*◌, ◌≤◌, ◌<◌, ◌≡◌, refl,
  sym, ap, ◌∙◌, ◌||◌, Option, none, some, List, [], ◌∷◌, ◌++◌, arith,
}

abbrev pub smaller : ℕ → ℕ → ℕ
smaller a b = if leb a b then a else b

-- `blockSize <= 0` falls back to a megabyte
abbrev pub block_size : ℕ → ℕ
block_size n = if n == 0 then 1024 * 1024 else n

-- `up.Data[start:end]`: a slice whose start lies behind its end panics
unfoldable pub slice : List ℕ → ℕ → ℕ → Option (List ℕ)
slice xs start end =
    if ltb end start || ltb (length xs) end then none else some (take (end - start) (drop start xs))

-- the chunk of the part with an index, which the server counts from 1
unfoldable pub chunk : List ℕ → ℕ → ℕ → Option (List ℕ)
unfolding slice
chunk xs size index =
    if index == 0
    then none
    else (let start = (index - 1) * size in slice xs start (smaller (start + size) (length xs)))

-- the chunks of the parts, in the order of the answer
unfoldable pub chunks : List ℕ → ℕ → List ℕ → Option (List (List ℕ))
unfolding chunk
chunks xs size [] = some []
chunks xs size (i ∷ is) = do c ← chunk xs size i; rest ← chunks xs size is; some (c ∷ rest)

abbrev pub flat : List (List ℕ) → List ℕ
flat [] = []
flat (c ∷ cs) = c ++ flat cs

-- the indices of `k` parts from `i` on
abbrev pub indices : ℕ → ℕ → List ℕ
indices i zero = []
indices i (suc k) = i ∷ indices (i + 1) k

slice_eq :
    (xs : List ℕ) (size start : ℕ)
    → start ≤ length xs
    → slice xs start (smaller (start + size) (length xs)) ≡ some (take size (drop start xs))
unfolding slice
slice_eq xs size start h = elim (dec_le (start + size) (length xs)) [
  | yes p ↦ within (smaller (start + size) (length xs)) (ground arith) p
  | no p ↦ cut_off (smaller (start + size) (length xs)) (ground arith) (omega arith)
]
  where
    within :
        (end : ℕ)
        → end ≡ start + size
        → start + size ≤ length xs
        → slice xs start end ≡ some (take size (drop start xs))
    within end e p =
        if_false (ltb end start || ltb (length xs) end) _ _ (ground arith)
        ∙ ap (λ n. some (take n (drop start xs))) (omega arith)

    cut_off :
        (end : ℕ)
        → end ≡ length xs
        → length xs ≤ start + size
        → slice xs start end ≡ some (take size (drop start xs))
    cut_off end e p =
        let rest : length (drop start xs) ≤ size = omega (arith, length-drop start xs) in
        let whole : length (drop start xs) ≤ end - start = omega (arith, length-drop start xs) in
        if_false (ltb end start || ltb (length xs) end) _ _ (ground arith)
        ∙ ap (λ l. some l)
            (take_all (end - start) (drop start xs) whole
              ∙ sym (take_all size (drop start xs) rest))

chunk_eq :
    (xs : List ℕ) (size i start : ℕ)
    → start ≡ i * size
    → start ≤ length xs
    → chunk xs size (i + 1) ≡ some (take size (drop start xs))
unfolding chunk
chunk_eq xs size i start e h =
    if_false (i + 1 == 0) _ _ (ground arith)
    ∙ (ap (λ s. slice xs s (smaller (s + size) (length xs)))
          (ap (λ n. n * size) {x = i + 1 - 1} {y = i} (omega arith) ∙ sym e)
        ∙ slice_eq xs size start h)

abbrev Whole : Option (List (List ℕ)) → List ℕ → Type 0
Whole o xs = (cs : List (List ℕ)) × (o ≡ some cs) × (flat cs ≡ xs)

Whole-more :
    (o : Option (List ℕ)) (o' : Option (List (List ℕ))) {c xs : List ℕ}
    → o ≡ some c
    → Whole o' xs
    → Whole (o >>= λ (c : List ℕ). o' >>= λ (rest : List (List ℕ)). some (c ∷ rest)) (c ++ xs)
Whole-more none o' e w = cc
Whole-more (some d) none e (cs, q, f) = cc
Whole-more (some d) (some ds) {c} e (cs, q, f) = (
  d ∷ ds,
  refl,
  ap (λ l. l ++ flat ds) (some_inj e) ∙ ap (λ l. c ++ l) (ap flat (some_inj q) ∙ f),
)

chunks_from :
    (xs : List ℕ) (size k i start : ℕ)
    → start ≡ i * size
    → length xs ≤ start + k * size
    → start + k * size < length xs + size
    → Whole (chunks xs size (indices (i + 1) k)) (drop start xs)
unfolding chunks
chunks_from xs size zero i start e low high = ([], refl, sym (drop_all start xs (omega arith)))
chunks_from xs size (suc k) i start e low high =
    let more : suc k * size ≡ k * size + size = suc-mul k size in
    let next : (i + 1) * size ≡ i * size + size =
      ap (λ n. n * size) {x = i + 1} {y = suc i} (omega arith) ∙ suc-mul i size in
    subst (λ l. Whole (chunks xs size (indices (i + 1) (suc k))) l)
      (ap (λ l. take size (drop start xs) ++ l) (sym (drop-drop size start xs))
        ∙ take-drop size (drop start xs))
      (Whole-more (chunk xs size (i + 1)) (chunks xs size (indices (i + 1 + 1) k))
        (chunk_eq xs size i start e (omega arith))
        (chunks_from xs size k (i + 1) (start + size) (omega arith) (omega arith) (omega arith)))

-- The parts of an upload that are numbered from 1 on, as many as the file needs, put together are the
-- file, and no part reads outside it.
pub chunks_whole :
    (xs : List ℕ) (size k : ℕ)
    → length xs ≤ k * size
    → k * size < length xs + size
    → (cs : List (List ℕ)) × (chunks xs size (indices 1 k) ≡ some cs) × (flat cs ≡ xs)
chunks_whole xs size k low high =
    chunks_from xs size k 0 0 (omega arith) (omega arith) (omega arith)
