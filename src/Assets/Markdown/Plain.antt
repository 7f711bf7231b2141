-- ===== src/Assets/Markdown/Plain.antt =====
-- Markdown whose images need no host (`ProcessMarkdown` in lib/assets/host.go).
use mathlib.Core.Path.{subst}
use mathlib.Core.Option
use polarix_plus.Base.{
  ◌==◌, ==_iff, Bool-cases, ◌>>=◌, >>=-eq-some, guard-eq-some, need-eq-some, if-eq-some, some_inj,
  length, drop, length-append, drop-append, cut, Text, codes, text_eq_refl, is_empty, has_prefix,
  has_prefix-split, ℕ, zero, suc, ◌+◌, ◌-◌, ◌≡◌, refl, sym, ap, ◌∙◌, inl, inr, Bool, true, false,
  not, ◌||◌, Option, none, some, [], ◌∷◌, ◌++◌, append-nil, append_assoc, arith,
}
use polarix_plus.Assets.Input.{Files}
use polarix_plus.Assets.Host.{has_none, as_is, is_listed, is_local, img_to_url, Net, ImageHost}
use polarix_plus.Assets.Markdown.{
  replacement, process_markdown, emit, line_break, process_from, match_source, match_link,
  match_image, image,
}

-- what `cut` finds
cut-split : (b : ℕ) (s p r : Text) → cut b s ≡ some (p, r) → s ≡ p ++ b ∷ r
unfolding cut
cut-split b [] p r h = cc
cut-split b (c ∷ s) p r h = elim (if-eq-some (c == b) ([], s) _ h) [
  | inl (here, e) ↦ at_front ((==_iff c b).0 here) e
  | inr (_, later) ↦ further (cut b s) (λ q t e. cut-split b s q t e) later
]
  where
    at_front : c ≡ b → ◌≡◌ {A = Text × Text} ([], s) (p, r) → (c ∷ s) ≡ p ++ b ∷ r
    at_front same e =
        rw (sym (ap (λ (q : Text × Text). q.0) e)) (ap2 same (ap (λ (q : Text × Text). q.1) e))
      where
        ap2 : c ≡ b → s ≡ r → (c ∷ s) ≡ b ∷ r
        ap2 e f = cc

    further :
        (o : Option (Text × Text))
        → ((q t : Text) → o ≡ some (q, t) → s ≡ q ++ b ∷ t)
        → Option.map {B = Text × Text} (λ ((h, t) : Text × Text). (c ∷ h, t)) o ≡ some (p, r)
        → (c ∷ s) ≡ p ++ b ∷ r
    further none at e = cc
    further (some (q, t)) at e =
        ap (λ u. c ∷ u) (at q t refl) ∙ ap (λ (x : Text × Text). x.0 ++ b ∷ x.1) (some_inj e)

-- The parts that a match has found.
abbrev IsMatch : Text → Text → Text → ℕ → Type 0
IsMatch s alt src n =
    (tail : Text) × (s ≡ codes "![" ++ alt ++ codes "](" ++ src ++ b')' ∷ tail)
    × (n ≡ length alt + length src + 5)

source-IsMatch :
    (s a q t alt src : Text) (n : ℕ)
    → s ≡ codes "![" ++ a ++ codes "](" ++ q ++ b')' ∷ t
    → match_source a (q, t) ≡ some (alt, src, n)
    → IsMatch s alt src n
source-IsMatch s a q t alt src n at h =
    subst (λ (m : Text × Text × ℕ). IsMatch s m.0 m.1 m.2)
      (some_inj (guard-eq-some (is_empty q) _ h).1) (t, at, refl)

link-IsMatch :
    (s a rest alt src : Text) (n : ℕ)
    → s ≡ codes "![" ++ a ++ b']' ∷ rest
    → match_link (a, rest) ≡ some (alt, src, n)
    → IsMatch s alt src n
link-IsMatch s a rest alt src n at h = on_open (need-eq-some (has_prefix (codes "(") rest) _ h)
  where
    on_open :
        (has_prefix (codes "(") rest ≡ true)
          × ((cut b')' (drop 1 rest) >>= match_source a) ≡ some (alt, src, n))
        → IsMatch s alt src n
    on_open (starts, e) = on_cut (>>=-eq-some (cut b')' (drop 1 rest)) (match_source a) e)
      where
        on_cut :
            (p : Text × Text) × (cut b')' (drop 1 rest) ≡ some p)
              × (match_source a p ≡ some (alt, src, n))
            → IsMatch s alt src n
        on_cut ((q, t), found, e) =
            let opened : rest ≡ b'(' ∷ (q ++ b')' ∷ t) =
              has_prefix-split (codes "(") rest starts
              ∙ ap (λ u. b'(' ∷ u) (cut-split b')' (drop 1 rest) q t found) in
            let glued : codes "![" ++ a ++ b']' ∷ b'(' ∷ (q ++ b')' ∷ t)
                ≡ codes "![" ++ a ++ codes "](" ++ q ++ b')' ∷ t =
              sym (append_assoc (codes "![" ++ a) (codes "](") (q ++ b')' ∷ t))
              ∙ sym (append_assoc (codes "![" ++ a ++ codes "](") q (b')' ∷ t)) in
            source-IsMatch s a q t alt src n
              (at ∙ ap (λ u. codes "![" ++ a ++ b']' ∷ u) opened ∙ glued) e

match_image-IsMatch :
    (s alt src : Text) (n : ℕ) → match_image s ≡ some (alt, src, n) → IsMatch s alt src n
unfolding match_image
match_image-IsMatch s alt src n h = on_open (need-eq-some (has_prefix (codes "![") s) _ h)
  where
    on_open :
        (has_prefix (codes "![") s ≡ true)
          × ((cut b']' (drop 2 s) >>= match_link) ≡ some (alt, src, n))
        → IsMatch s alt src n
    on_open (starts, e) = on_cut (>>=-eq-some (cut b']' (drop 2 s)) match_link e)
      where
        on_cut :
            (p : Text × Text) × (cut b']' (drop 2 s) ≡ some p) × (match_link p ≡ some (alt, src, n))
            → IsMatch s alt src n
        on_cut ((a, rest), found, e) =
            link-IsMatch s a rest alt src n
              (has_prefix-split (codes "![") s starts
                ∙ ap (λ u. codes "![" ++ u) (cut-split b']' (drop 2 s) a rest found))
              e

length-image : (alt src : Text) → length (image alt src) ≡ length alt + length src + 5
length-image alt src = omega (
  arith,
  length-append (codes "![" ++ alt ++ codes "](" ++ src) (codes ")"),
  length-append (codes "![" ++ alt ++ codes "](") src,
  length-append (codes "![" ++ alt) (codes "]("),
  length-append (codes "![") alt,
)

-- The text of a match, and what follows, is the text.
image-drop : (s alt src : Text) (n : ℕ) → IsMatch s alt src n → image alt src ++ drop n s ≡ s
image-drop s alt src n (tail, at, size) = ap (λ u. image alt src ++ u) dropped ∙ sym whole
  where
    whole : s ≡ image alt src ++ tail
    whole = at ∙ sym (append_assoc (codes "![" ++ alt ++ codes "](" ++ src) (codes ")") tail)

    dropped : drop n s ≡ tail
    dropped =
        ap (λ k. drop k s) (size ∙ sym (length-image alt src))
        ∙ ap (drop (length (image alt src))) whole
        ∙ drop-append (image alt src) tail

-- An image whose URL is its source stays.
replacement-as_is : (alt src : Text) → replacement alt src (as_is src, true) ≡ image alt src
unfolding replacement
replacement-as_is alt src = rw (text_eq_refl src) refl

same_text :
    (c : ℕ) (s alt src : Text) (n : ℕ)
    → IsMatch (c ∷ s) alt src n
    → line_break (drop n (c ∷ s)) ≡ []
    → image alt src ++ line_break (drop n (c ∷ s)) ++ drop (n - 1) s ≡ c ∷ s
same_text c s alt src zero m ended = absurd (omega (arith, m.2))
same_text c s alt src (suc k) m ended =
    ap (λ j. image alt src ++ line_break (drop (suc k) (c ∷ s)) ++ drop j s) {x = suc k - 1}
      (omega arith)
    ∙ ap (λ u. image alt src ++ u ++ drop k s) ended
    ∙ ap (λ u. u ++ drop k s) (append-nil (image alt src))
    ∙ image-drop (c ∷ s) alt src (suc k) m

module _ {P W : Type 0} (net : Net P W) (files : Files) where
  -- Each image of the text stands at the end of a line, and is in the whitelist or not local.
  abbrev pub PassesAt : ImageHost P → Option (Text × Text × ℕ) → ℕ → Text → (ℕ → Type 0) → Type 0
  PassesAt h none c s Next = Next zero
  PassesAt h (some (alt, src, n)) c s Next =
      (is_listed src h.whitelist || not (is_local net files src) ≡ true)
      × (line_break (drop n (c ∷ s)) ≡ [])
      × Next (n - 1)

  unfoldable pub Passes : ImageHost P → ℕ → Text → Type 0
  unfolding match_image is_local
  Passes h n [] = Unit
  Passes h (suc n) (c ∷ s) = Passes h n s
  Passes h zero (c ∷ s) = PassesAt h (match_image (c ∷ s)) c s (λ n. Passes h n s)

  img_to_url-passes :
      (src : Text) (h : ImageHost P) (w : W)
      → is_listed src h.whitelist || not (is_local net files src) ≡ true
      → img_to_url net files src h w ≡ ((as_is src, true), h, w)
  unfolding img_to_url
  img_to_url-passes src h w e = elim (Bool-cases (is_listed src h.whitelist)) [
    | inl listed ↦ rw listed refl
    | inr unlisted ↦ rw unlisted (rw (stays (has_none h.providers) (rw unlisted at e)) refl)
  ]
    where
      stays :
          (b : Bool)
          → not (is_local net files src) ≡ true
          → b || not (is_local net files src) ≡ true
      stays true e = refl
      stays false e = e

  emit-Passes :
      (c : ℕ) (s : Text) (h : ImageHost P) (w : W) (o : Option (Text × Text × ℕ))
      → ((n : ℕ) → Passes h n s → process_from net files n s h w ≡ (drop n s, h, w))
      → match_image (c ∷ s) ≡ o
      → PassesAt h o c s (λ n. Passes h n s)
      → emit net files o c s h w (λ n g v. process_from net files n s g v) ≡ (c ∷ s, h, w)
  emit-Passes c s h w none next e p = rw (next zero p) refl
  emit-Passes c s h w (some (alt, src, n)) next e (passes, ended, p) =
      rw (img_to_url-passes src h w passes) (
        rw (next (n - 1) p) (
          ap (λ (u : Text). (u, h, w))
            (ap (λ t. t ++ line_break (drop n (c ∷ s)) ++ drop (n - 1) s)
                (replacement-as_is alt src)
              ∙ same_text c s alt src n (match_image-IsMatch (c ∷ s) alt src n e) ended)))

  process_from-Passes :
      (n : ℕ) (s : Text) (h : ImageHost P) (w : W)
      → Passes h n s
      → process_from net files n s h w ≡ (drop n s, h, w)
  unfolding process_from Passes
  process_from-Passes zero [] h w p = refl
  process_from-Passes (suc n) [] h w p = refl
  process_from-Passes (suc n) (c ∷ s) h w p = process_from-Passes n s h w p
  process_from-Passes zero (c ∷ s) h w p =
      emit-Passes c s h w (match_image (c ∷ s)) (λ n q. process_from-Passes n s h w q) refl p

  -- A text comes back as it is, and nothing is sent, where each of its images stands at the end of a
  -- line, and has a source with a prefix of the whitelist, or a source that is not local.
  pub process_markdown-Passes :
      (s : Text) (h : ImageHost P) (w : W)
      → Passes h 0 s
      → process_markdown net files s h w ≡ (s, h, w)
  unfolding process_markdown
  process_markdown-Passes s h w p = elim (Bool-cases (has_none h.providers)) [
    | inl e ↦ rw e refl
    | inr e ↦ rw e (process_from-Passes 0 s h w p)
  ]
