-- ===== src/Message/Plan/Merge.antt =====
-- What a plan holds (lib/context/builder.go).
use polarix_plus.Base.{
  if◌then◌else◌, Bool-cases, ◌>>=◌, length, get_elem?, any, length-append, get_elem?-append,
  trim_space, is_some, Text, codes, is_empty, ℕ, ◌+◌, ◌≡◌, refl, sym, ap, ◌∙◌, ◌↔◌, ◌⊎◌, inl, inr,
  Bool, true, false, not, ◌&&◌, ◌||◌, Option, none, some, List, [], ◌∷◌, ◌++◌, append-nil,
  append_assoc, arith,
}
use polarix_plus.Message.Plan.{
  is_markdown, is_shown, image_slots, place_slot, nothing_gathered, send_markdown, send_text,
  send_markdown, send_text, Image, Part, at_user, at_all, image, Sender, send_image, Builder,
  use_markdown, newline_if, mention_all, trim_newlines, Gathered, degraded, place_image,
  main_message, gather_part, gather_parts, plan, text, markdown, at_user, at_all, image, upload,
  media, send_image, send_upload, send_media,
}

-- the text of an image, and whether it has one
abbrev pub shown : Option Text → Text
shown none = []
shown (some frag) = if is_empty frag then [] else 10 ∷ trim_newlines frag ++ 10 ∷ 10 ∷ []

abbrev pub is_inline : Option Text → Bool
is_inline none = false
is_inline (some frag) = not (is_empty frag)

-- the image has its slot behind it, or it has none
abbrev extend : Gathered → ℕ → Text → List Sender → Gathered
extend g k s ms = record { inline = g.inline ++ s; others = g.others ++ ms; next = g.next + k }

gathered_eq : (g h : Gathered) → g.inline ≡ h.inline → g.others ≡ h.others → g.next ≡ h.next → g ≡ h
gathered_eq g h a b c = cc

extend_nothing : (g : Gathered) → extend g 0 [] [] ≡ g
extend_nothing g = gathered_eq _ _ (append-nil g.inline) (append-nil g.others) (omega arith)

extend_text : (g : Gathered) (s : Text) → record g { inline = g.inline ++ s } ≡ extend g 0 s []
extend_text g s = gathered_eq _ _ refl (sym (append-nil g.others)) (omega arith)

extend_sender :
    (g : Gathered) (m : Sender) → record g { others = g.others ++ m ∷ [] } ≡ extend g 0 [] (m ∷ [])
extend_sender g m = gathered_eq _ _ (sym (append-nil g.inline)) refl (omega arith)

extend-extend :
    (g : Gathered) (i k : ℕ) (s t : Text) (ms ns : List Sender)
    → extend (extend g i s ms) k t ns ≡ extend g (i + k) (s ++ t) (ms ++ ns)
extend-extend g i k s t ms ns =
    gathered_eq _ _ (append_assoc g.inline s t) (append_assoc g.others ms ns) (omega arith)

place_image-extend :
    (im : Image) (o : Option Text) (g : Gathered)
    → place_image im o (record g { next = g.next + 1 })
      ≡ extend g 1 (shown o) (if is_inline o then [] else send_image (degraded im) ∷ [])
unfolding place_image
place_image-extend im none g = gathered_eq _ _ (sym (append-nil g.inline)) refl refl
place_image-extend im (some []) g = gathered_eq _ _ (sym (append-nil g.inline)) refl refl
place_image-extend im (some (c ∷ frag)) g = gathered_eq _ _ refl (sym (append-nil g.others)) refl

-- A part of a list has a property.
abbrev pub Exists : (Part → Type 0) → List Part → Type 0
Exists P [] = ⊥
Exists P (p ∷ ps) = P p ⊎ Exists P ps

abbrev pub IsMarkdown : Part → Type 0
IsMarkdown p = (s : Text) × (p ≡ markdown s)

abbrev pub IsShown : Part → Type 0
IsShown p = ((s : Text) × (p ≡ text s)) ⊎ ((im : Image) × (p ≡ image im))

-- what asks for a markdown message
abbrev pub WantsMarkdown : Bool → Builder → Type 0
WantsMarkdown global b =
    ((k : Text) × (b.keyboard ≡ some k))
    ⊎ (Exists IsMarkdown b.parts ⊎ ((global ≡ true) × Exists IsShown b.parts))

-- the main message with a text: markdown with a keyboard is sent without text too
abbrev pub merged_main : Bool → Option Text → Text → Text → List Sender
merged_main true (some k) quote content =
    send_markdown (if is_empty (trim_space content) then codes " " else content) (some k) quote ∷ []
merged_main true none quote [] = []
merged_main true none quote (c ∷ s) =
    send_markdown (if is_empty (trim_space (c ∷ s)) then codes " " else c ∷ s) none quote ∷ []
merged_main false keyboard quote [] = []
merged_main false keyboard quote (c ∷ s) = send_text (c ∷ s) quote ∷ []

-- What a part adds to the main message, and what it is sent as on its own.
module _ (fragment : Image → Option Text) where
  abbrev pub rendered : Bool → Part → Text
  rendered md (text s) = s
  rendered md (markdown s) = s
  rendered md (at_all newline) = mention_all md ++ newline_if newline
  rendered md (at_user id newline) = codes "<@" ++ (id ++ (codes ">" ++ newline_if newline))
  rendered md (image im) = if md then shown (fragment im) else []
  rendered md _ = []

  abbrev pub alone : Bool → Part → List Sender
  alone md (image im) =
      if md
      then (if is_inline (fragment im) then [] else send_image (degraded im) ∷ [])
      else send_image im ∷ []
  alone md (upload u) = send_upload u ∷ []
  alone md (media m) = send_media m ∷ []
  alone md _ = []

  abbrev pub all_rendered : Bool → List Part → Text
  all_rendered md [] = []
  all_rendered md (p ∷ ps) = rendered md p ++ all_rendered md ps

  abbrev pub all_alone : Bool → List Part → List Sender
  all_alone md [] = []
  all_alone md (p ∷ ps) = alone md p ++ all_alone md ps

  -- what the loop makes of the parts
  abbrev Gathers : Bool → List (Option Text) → List Part → Gathered → Type 0
  Gathers md slots ps g =
      (k : ℕ) × (gather_parts md slots ps g
        ≡ some (extend g k (all_rendered md ps) (all_alone md ps)))

  Gathers-step :
      (md : Bool) (slots : List (Option Text)) (p : Part) (ps : List Part) (g : Gathered) (j : ℕ)
      → gather_part md slots p g ≡ some (extend g j (rendered md p) (alone md p))
      → Gathers md slots ps (extend g j (rendered md p) (alone md p))
      → Gathers md slots (p ∷ ps) g
  unfolding gather_parts
  Gathers-step md slots p ps g j here (k, rest) = (
    j + k,
    ap (λ o. o >>= gather_parts md slots ps) here
        ∙ (rest
            ∙ ap (λ h. some h)
                (extend-extend g j k (rendered md p) (all_rendered md ps) (alone md p)
                  (all_alone md ps))),
  )

  -- without markdown no slot is read
  Gathers-plain :
      (slots : List (Option Text)) (ps : List Part) (g : Gathered) → Gathers false slots ps g
  unfolding gather_parts gather_part
  Gathers-plain slots [] g = (0, ap (λ h. some h) (sym (extend_nothing g)))
  Gathers-plain slots (p ∷ ps) g =
      Gathers-step false slots p ps g 0 (here p) (Gathers-plain slots ps _)
    where
      here :
          (p : Part)
          → gather_part false slots p g ≡ some (extend g 0 (rendered false p) (alone false p))
      here (text s) = ap (λ h. some h) (extend_text g s)
      here (markdown s) = ap (λ h. some h) (extend_text g s)
      here (at_all newline) = ap (λ h. some h) (extend_text g _)
      here (at_user id newline) = ap (λ h. some h) (extend_text g _)
      here (image im) = ap (λ h. some h) (extend_sender g _)
      here (upload u) = ap (λ h. some h) (extend_sender g _)
      here (media m) = ap (λ h. some h) (extend_sender g _)

  -- in markdown each image reads its own slot, behind those of the images before it
  Gathers-markdown :
      (slots before : List (Option Text)) (ps : List Part) (g : Gathered)
      → slots ≡ before ++ image_slots fragment ps
      → g.next ≡ length before
      → Gathers true slots ps g
  unfolding gather_parts gather_part image_slots
  Gathers-markdown slots before [] g at e = (0, ap (λ h. some h) (sym (extend_nothing g)))
  Gathers-markdown slots before (text s ∷ ps) g at e =
      Gathers-step true slots (text s) ps g 0 (ap (λ h. some h) (extend_text g s))
        (Gathers-markdown slots before ps _ at (omega (arith, e)))
  Gathers-markdown slots before (markdown s ∷ ps) g at e =
      Gathers-step true slots (markdown s) ps g 0 (ap (λ h. some h) (extend_text g s))
        (Gathers-markdown slots before ps _ at (omega (arith, e)))
  Gathers-markdown slots before (at_all newline ∷ ps) g at e =
      Gathers-step true slots (at_all newline) ps g 0 (ap (λ h. some h) (extend_text g _))
        (Gathers-markdown slots before ps _ at (omega (arith, e)))
  Gathers-markdown slots before (at_user id newline ∷ ps) g at e =
      Gathers-step true slots (at_user id newline) ps g 0 (ap (λ h. some h) (extend_text g _))
        (Gathers-markdown slots before ps _ at (omega (arith, e)))
  Gathers-markdown slots before (upload u ∷ ps) g at e =
      Gathers-step true slots (upload u) ps g 0 (ap (λ h. some h) (extend_sender g _))
        (Gathers-markdown slots before ps _ at (omega (arith, e)))
  Gathers-markdown slots before (media m ∷ ps) g at e =
      Gathers-step true slots (media m) ps g 0 (ap (λ h. some h) (extend_sender g _))
        (Gathers-markdown slots before ps _ at (omega (arith, e)))
  Gathers-markdown slots before (image im ∷ ps) g at e =
      Gathers-step true slots (image im) ps g 1
        (ap (place_slot im g) (
            ap (get_elem? slots) e
            ∙ (ap (λ l. get_elem? l (length before)) at
                ∙ get_elem?-append before (fragment im) (image_slots fragment ps)))
          ∙ ap (λ h. some h) (place_image-extend im (fragment im) g))
        (Gathers-markdown slots (before ++ fragment im ∷ []) ps _
          (at ∙ sym (append_assoc before (fragment im ∷ []) (image_slots fragment ps)))
          (omega (arith, e, length-append before (fragment im ∷ []))))

  gathers :
      (md : Bool) (ps : List Part)
      → Gathers md (if md then image_slots fragment ps else []) ps nothing_gathered
  gathers true ps = Gathers-markdown (image_slots fragment ps) [] ps nothing_gathered refl refl
  gathers false ps = Gathers-plain [] ps nothing_gathered

  any-Exists :
      (p : Part → Bool) (P : Part → Type 0) (ps : List Part)
      → ((x : Part) → (p x ≡ true) ↔ P x)
      → (any p ps ≡ true) ↔ Exists P ps
  any-Exists p P ps same = (forth ps, back ps)
    where
      forth : (ps : List Part) → any p ps ≡ true → Exists P ps
      forth [] h = cc
      forth (x ∷ xs) h = elim (Bool-cases (p x)) [
        | inl e ↦ inl ((same x).0 e)
        | inr e ↦ inr (forth xs (rw e at h))
      ]

      back : (ps : List Part) → Exists P ps → any p ps ≡ true
      back [] h = elim h [ ]
      back (x ∷ xs) (inl h) = rw ((same x).1 h) refl
      back (x ∷ xs) (inr h) = ground (arith, back xs h)

  is_markdown-IsMarkdown : (p : Part) → (is_markdown p ≡ true) ↔ IsMarkdown p
  is_markdown-IsMarkdown p = (forth p, λ (s, e). ap is_markdown e)
    where
      forth : (p : Part) → is_markdown p ≡ true → IsMarkdown p
      forth (markdown s) h = (s, refl)
      forth (text s) h = cc
      forth (at_user id newline) h = cc
      forth (at_all newline) h = cc
      forth (image im) h = cc
      forth (upload u) h = cc
      forth (media m) h = cc

  is_shown-IsShown : (p : Part) → (is_shown p ≡ true) ↔ IsShown p
  is_shown-IsShown p = (forth p, back)
    where
      forth : (p : Part) → is_shown p ≡ true → IsShown p
      forth (text s) h = inl (s, refl)
      forth (image im) h = inr (im, refl)
      forth (markdown s) h = cc
      forth (at_user id newline) h = cc
      forth (at_all newline) h = cc
      forth (upload u) h = cc
      forth (media m) h = cc

      back : IsShown p → is_shown p ≡ true
      back (inl (s, e)) = ap is_shown e
      back (inr (im, e)) = ap is_shown e

  keyboard-Wants : (o : Option Text) → (is_some o ≡ true) ↔ ((k : Text) × (o ≡ some k))
  keyboard-Wants none = (λ h. absurd (closed h), λ (k, e). ap is_some e)
    where
      closed : false ≡ true → ⊥
      closed e = cc
  keyboard-Wants (some k) = (λ h. (k, refl), λ (k, e). refl)

  use_markdown-Wants :
      (global : Bool) (b : Builder) → (use_markdown global b ≡ true) ↔ WantsMarkdown global b
  unfolding use_markdown
  use_markdown-Wants global b =
      (forth (is_some b.keyboard) (any is_markdown b.parts) global refl refl, back)
    where
      marked : (any is_markdown b.parts ≡ true) ↔ Exists IsMarkdown b.parts
      marked = any-Exists is_markdown IsMarkdown b.parts is_markdown-IsMarkdown

      shows : (any is_shown b.parts ≡ true) ↔ Exists IsShown b.parts
      shows = any-Exists is_shown IsShown b.parts is_shown-IsShown

      forth :
          (k m g : Bool)
          → is_some b.keyboard ≡ k
          → any is_markdown b.parts ≡ m
          → k || (m || (g && any is_shown b.parts)) ≡ true
          → ((t : Text) × (b.keyboard ≡ some t))
            ⊎ (Exists IsMarkdown b.parts ⊎ ((g ≡ true) × Exists IsShown b.parts))
      forth true m g k_is m_is h = inl ((keyboard-Wants b.keyboard).0 k_is)
      forth false true g k_is m_is h = inr (inl (marked.0 m_is))
      forth false false true k_is m_is h = inr (inr (refl, shows.0 h))
      forth false false false k_is m_is h = cc

      back : WantsMarkdown global b → use_markdown global b ≡ true
      back (inl k) = rw ((keyboard-Wants b.keyboard).1 k) refl
      back (inr (inl m)) = ground (arith, marked.1 m)
      back (inr (inr (g, e))) = ground (arith, g, shows.1 e)

  main-merged :
      (md : Bool) (ps : List Part) (keyboard : Option Text) (quote content : Text)
      → main_message md (record { parts = ps; keyboard = keyboard; quote = quote }) content
        ≡ merged_main md keyboard quote content
  unfolding main_message
  main-merged true ps (some k) quote [] = refl
  main-merged true ps (some k) quote (c ∷ s) = refl
  main-merged true ps none quote [] = refl
  main-merged true ps none quote (c ∷ s) = refl
  main-merged false ps keyboard quote [] = refl
  main-merged false ps keyboard quote (c ∷ s) = refl

  -- `plan` never reads a slot that is not there, and merges the parts in order: a main message of
  -- their texts, an image in it by the fragment that the host gave for this image; then the parts
  -- that are sent on their own, images that got no fragment among them. The main message is markdown
  -- exactly if there is a keyboard, a markdown part, or the global setting and a text or an image;
  -- without text it is left out, unless there is a keyboard.
  pub plan-merged :
      (global : Bool) (b : Builder)
      → (md : Bool) × ((md ≡ true) ↔ WantsMarkdown global b)
        × (plan fragment global b
            ≡ some (
                merged_main md b.keyboard b.quote (all_rendered md b.parts)
                ++ all_alone md b.parts))
  unfolding plan
  plan-merged global b =
      let md = use_markdown global b in
      let (k, done) = gathers md b.parts in
      (
        md,
        use_markdown-Wants global b,
        ap (λ o. o >>= λ (g : Gathered). some (main_message md b g.inline ++ g.others)) done
            ∙ ap (λ ms. some (ms ++ all_alone md b.parts))
                (main-merged md b.parts b.keyboard b.quote (all_rendered md b.parts)),
      )
