-- ===== src/Middleware/Arguments/Layout.antt =====
-- What `rawArgs` gives a handler (lib/middleware/handle.go).
use polarix_plus.Base.{
  ltb, if_true, lt→ltb, Bool-cases, length, take, drop, length-append, take-append, is_space,
  trim_left, fields_from, fields, index, Text, is_empty, has_prefix, ℕ, suc, ◌+◌, ◌-◌, ◌≡◌, refl,
  sym, ap, ◌∙◌, inl, inr, true, false, some, List, [], ◌∷◌, ◌++◌, append-nil, append_assoc, arith,
}
use polarix_plus.Middleware.Arguments.{glued_args, raw_behind, raw_args, is_layout, after_words}

cons_inj : {A : Type 0} {a b : A} {xs ys : List A} → a ∷ xs ≡ b ∷ ys → (a ≡ b) × (xs ≡ ys)
cons_inj h = (cc, cc)

-- the word that is being read, and what follows it
longer-word :
    (s cur t : Text) (ts : List Text)
    → is_empty cur ≡ false
    → fields_from s cur ≡ t ∷ ts
    → (u : Text) × (t ≡ cur ++ u) × (has_prefix u s ≡ true) × (fields (drop (length u) s) ≡ ts)
unfolding fields_from fields has_prefix
longer-word [] (d ∷ cur) t ts filled h = (
  [],
  sym (cons_inj {A = Text} h).0 ∙ sym (append-nil (d ∷ cur)),
  refl,
  (cons_inj {A = Text} h).1,
)
longer-word [] [] t ts filled h = cc
longer-word (c ∷ s) cur t ts filled h = elim (Bool-cases (is_space c)) [
  | inl e ↦
      let same = cons_inj {A = Text} (rw (e, filled) at h) in
      ([], sym same.0 ∙ sym (append-nil cur), refl, rw e same.1)
  | inr e ↦
      let (u, at, starts, left) = longer-word s (cur ++ c ∷ []) t ts (grown cur) (rw e at h) in
      (c ∷ u, at ∙ append_assoc cur (c ∷ []) u, ground (arith, starts), left)
]
  where
    grown : (k : Text) → is_empty (k ++ c ∷ []) ≡ false
    grown [] = refl
    grown (d ∷ k) = refl

-- a word begins with a byte that is no space
word-begins :
    (s t : Text) (ts : List Text)
    → fields s ≡ t ∷ ts
    → (d : ℕ) × (u : Text) × (t ≡ d ∷ u) × (is_space d ≡ false)
unfolding fields fields_from
word-begins [] t ts h = cc
word-begins (c ∷ s) t ts h = elim (Bool-cases (is_space c)) [
  | inl e ↦ word-begins s t ts (rw e at h)
  | inr e ↦ let (u, at, _, _) = longer-word s (c ∷ []) t ts refl (rw e at h) in (c, u, at, e)
]

other_start :
    (c d : ℕ) (s u : Text)
    → is_space c ≡ true
    → is_space d ≡ false
    → has_prefix (d ∷ u) (c ∷ s) ≡ false
unfolding has_prefix
other_start c d s u hc hd = ground (arith, hc, hd)

-- The next word is found where it stands.
next_word :
    (s t : Text) (ts : List Text)
    → fields s ≡ t ∷ ts
    → (i : ℕ) × (index t s ≡ some i) × (fields (drop (i + length t) s) ≡ ts)
unfolding fields fields_from index has_prefix
next_word [] t ts h = cc
next_word (c ∷ s) t ts h = elim (Bool-cases (is_space c)) [
  | inl e ↦
      let (i, found, left) = next_word s t ts (rw e at h) in
      let (d, u, at, filled) = word-begins s t ts (rw e at h) in
      let missed : has_prefix t (c ∷ s) ≡ false =
        ap (λ k. has_prefix k (c ∷ s)) at ∙ other_start c d s u e filled in
      (
        suc i,
        rw missed (rw found refl),
        ap (λ k. fields (drop k (c ∷ s))) {x = suc i + length t} {y = suc (i + length t)}
              (omega arith)
            ∙ left,
      )
  | inr e ↦
      let (u, at, starts, left) = longer-word s (c ∷ []) t ts refl (rw e at h) in
      let hit : has_prefix t (c ∷ s) ≡ true =
        ap (λ k. has_prefix k (c ∷ s)) at ∙ ground (arith, starts) in
      (
        0,
        rw hit refl,
        ap (λ k. fields (drop k (c ∷ s))) {x = 0 + length t} {y = suc (length u)}
              (omega (arith, ap length at))
            ∙ left,
      )
]

fields-trim_left : (s : Text) → fields (trim_left is_layout s) ≡ fields s
unfolding fields fields_from trim_left
fields-trim_left [] = refl
fields-trim_left (c ∷ s) = elim (Bool-cases (is_layout c)) [
  | inl e ↦ ground (arith, e, fields-trim_left s)
  | inr e ↦ rw e refl
]

after_words-fields :
    (s : Text) (ws rest : List Text)
    → fields s ≡ ws ++ rest
    → (t : Text) × (after_words s ws ≡ some t) × (fields t ≡ rest)
unfolding after_words
after_words-fields s [] rest h = (s, refl, h)
after_words-fields s (w ∷ ws) rest h =
    let (i, found, left) = next_word s w (ws ++ rest) h in
    let (t, e, done) = after_words-fields (drop (i + length w) s) ws rest left in
    (t, rw found e, done)

-- The words of the command are cut off, and the gap behind them
raw_args-words :
    (ps : List Text) (content name w : Text) (ws rest : List Text)
    → raw_args ps content (w ∷ (ws ++ rest)) rest name
      ≡ raw_behind rest (after_words content (w ∷ ws))
unfolding raw_args
raw_args-words ps content name w ws rest =
    let n : ℕ = length (w ∷ (ws ++ rest)) - length rest in
    let size : n ≡ length (w ∷ ws) = omega (arith, length-append ws rest) in
    if_true (ltb 0 n) (raw_behind rest (after_words content (take n (w ∷ (ws ++ rest)))))
      (glued_args ps content w rest name) (lt→ltb 0 n (omega (arith, size)))
    ∙ ap (λ k. raw_behind rest (after_words content (take k (w ∷ (ws ++ rest))))) size
    ∙ ap (λ l. raw_behind rest (after_words content l)) (take-append (w ∷ ws) rest)

-- Where a command takes the first words of a message, its handler gets a text whose words are the
-- words that are left.
pub raw_args-fields :
    (ps : List Text) (content name w : Text) (ws rest : List Text)
    → fields content ≡ w ∷ (ws ++ rest)
    → (t : Text) × (raw_args ps content (fields content) rest name ≡ some t) × (fields t ≡ rest)
raw_args-fields ps content name w ws rest h =
    let (t, found, left) = after_words-fields content (w ∷ ws) rest h in
    (
      trim_left is_layout t,
      ap (λ l. raw_args ps content l rest name) h
          ∙ raw_args-words ps content name w ws rest
          ∙ ap (raw_behind rest) found,
      fields-trim_left t ∙ left,
    )
