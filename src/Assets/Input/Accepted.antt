-- ===== src/Assets/Input/Accepted.antt =====
-- What `DecodeImage` lets through (lib/assets/input.go).
use polarix_plus.Base.{
  ◌==◌, if◌then◌else◌, Bool-cases, >>=-eq-some, some_inj, or_try, or_try-eq-some, length, drop,
  keep, trim_space, index, is_some, cut, Text, codes, is_empty, has_prefix, ◌%◌, ◌≡◌, refl, sym, ap,
  ◌∙◌, ◌⊎◌, inl, inr, Bool, true, false, not, ◌||◌, Option, none, some, List, [], ◌∷◌, arith,
}
use polarix_plus.Assets.Input.{
  trim_prefix, is_gap, Encoding, encodings, inline_media, mime_of, Source, other, try_encodings,
  try_padded, decode_base64_lenient, decode_data, decode_data_url, if_image, decode_local,
  decode_string, decode_image, bytes, path, other, MediaInput, Files, looks_like_image, if_taken,
}

module _ (files : Files) where
  -- What a text is decoded to: bytes that begin as an image does; or, for a text that is a web URL,
  -- no bytes at all and the URL; or, for a data URL whose header does not say ";base64", the payload
  -- as it is, which nothing looks at.
  abbrev pub IsAccepted : Text → MediaInput → Type 0
  IsAccepted s m =
      (looks_like_image m.content ≡ true)
      ⊎ (((m.content ≡ [])
            × (m.url ≡ s)
            × (has_prefix (codes "http://") s || has_prefix (codes "https://") s ≡ true))
          ⊎ ((has_prefix (codes "data:") s ≡ true)
              × ((meta : Text) × (cut b',' s ≡ some (meta, m.content))
                  × (is_some (index (codes ";base64") (drop 5 meta)) ≡ false))))

  if_taken-image :
      (o : Option Text) (b : Text) → if_taken true o ≡ some b → looks_like_image b ≡ true
  if_taken-image none b h = cc
  if_taken-image (some c) b h = elim (Bool-cases (looks_like_image c)) [
    | inl e ↦ ap looks_like_image (some_inj (sym (rw e at h))) ∙ e
    | inr e ↦ absurd (none_some (rw e at h))
  ]
    where
      none_some : ◌≡◌ {A = Option Text} none (some b) → ⊥
      none_some e = cc

  if-either {ℓ} :
      {A : Type ℓ} (b : Bool) (x y : Option A) {a : A}
      → (if b then x else y) ≡ some a
      → ((b ≡ true) × (x ≡ some a)) ⊎ ((b ≡ false) × (y ≡ some a))
  if-either true x y h = inl (refl, h)
  if-either false x y h = inr (refl, h)

  try_encodings-image :
      (s b : Text) (es : List Encoding)
      → try_encodings files true s es ≡ some b
      → looks_like_image b ≡ true
  unfolding try_encodings
  try_encodings-image s b [] h = cc
  try_encodings-image s b (e ∷ es) h =
      elim (or_try-eq-some (if_taken true (files.decode e s)) (try_encodings files true s es) h) [
        | inl first ↦ if_taken-image (files.decode e s) b first
        | inr later ↦ try_encodings-image s b es later
      ]

  try_padded-image : (s b : Text) → try_padded files true s ≡ some b → looks_like_image b ≡ true
  try_padded-image s b h = elim (if-either (length s % 4 == 0) _ _ h) [
    | inl (_, none_is) ↦ cc
    | inr (_, taken) ↦ if_taken-image _ b taken
  ]

  decode_base64-image :
      (s b : Text) → decode_base64_lenient files s true ≡ some b → looks_like_image b ≡ true
  unfolding decode_base64_lenient
  decode_base64-image s b h =
      on_packed (keep (λ c. not (is_gap c)) (trim_prefix s (codes "base64,"))) h
    where
      on_packed :
          (t : Text)
          → (if is_empty t
              then none
              else or_try (try_encodings files true t encodings) (try_padded files true t))
            ≡ some b
          → looks_like_image b ≡ true
      on_packed t e =
          elim (if-either (is_empty t) none
            (or_try (try_encodings files true t encodings) (try_padded files true t)) e) [
              | inl (_, none_is) ↦ cc
              | inr (_, tried) ↦
                  elim (or_try-eq-some (try_encodings files true t encodings)
                    (try_padded files true t) tried) [
                      | inl q ↦ try_encodings-image t b encodings q
                      | inr q ↦ try_padded-image t b q
                    ]
            ]

  decode_data-IsAccepted :
      (s head payload : Text) (m : MediaInput)
      → has_prefix (codes "data:") s ≡ true
      → cut b',' s ≡ some (head, payload)
      → decode_data files (drop 5 head) payload true ≡ some m
      → IsAccepted s m
  unfolding decode_data
  decode_data-IsAccepted s head payload m marked at h =
      elim (if-either (is_some (index (codes ";base64") (drop 5 head))) _ _ h) [
        | inl (_, encoded) ↦
            from_base64 (>>=-eq-some (decode_base64_lenient files payload true) _ encoded)
        | inr (plain, e) ↦ inr (
            inr (
              marked,
              (
                head,
                at
                    ∙ ap (λ (c : Text). some (head, c))
                        (ap (λ (x : MediaInput). x.content) (some_inj e)),
                plain,
              ),
            ))
      ]
    where
      from_base64 :
          (b : Text) × (decode_base64_lenient files payload true ≡ some b)
            × (some (inline_media b (mime_of (drop 5 head) (cut b';' (drop 5 head)))) ≡ some m)
          → IsAccepted s m
      from_base64 (b, e, same) = inl (
          ap looks_like_image (sym (ap (λ (x : MediaInput). x.content) (some_inj same)))
          ∙ decode_base64-image payload b e)

  decode_data_url-IsAccepted :
      (s : Text) (m : MediaInput)
      → has_prefix (codes "data:") s ≡ true
      → decode_data_url files s true ≡ some m
      → IsAccepted s m
  unfolding decode_data_url
  decode_data_url-IsAccepted s m marked h = on_cut (>>=-eq-some (cut b',' s) _ h)
    where
      on_cut :
          (parts : Text × Text) × (cut b',' s ≡ some parts)
            × ((if is_empty parts.1 then none else decode_data files (drop 5 parts.0) parts.1 true)
                ≡ some m)
          → IsAccepted s m
      on_cut ((head, payload), at, e) = elim (if-either (is_empty payload) _ _ e) [
        | inl (_, none_is) ↦ cc
        | inr (_, decoded) ↦ decode_data-IsAccepted s head payload m marked at decoded
      ]

  decode_local-IsAccepted :
      (s t : Text) (o : Option Text) (m : MediaInput)
      → ((b : Text) → o ≡ some b → looks_like_image b ≡ true)
      → decode_local files t true o ≡ some m
      → IsAccepted s m
  unfolding decode_local
  decode_local-IsAccepted s t (some b) m ok h =
      inl (ap looks_like_image (sym (ap (λ (x : MediaInput). x.content) (some_inj h))) ∙ ok b refl)
  decode_local-IsAccepted s t none m ok h = on_file (>>=-eq-some (files.read_file t) _ h)
    where
      on_file :
          (b : Text) × (files.read_file t ≡ some b) × (if_image files true t b ≡ some m)
          → IsAccepted s m
      on_file (b, _, e) = elim (if-either (not (looks_like_image b)) _ _ e) [
        | inl (_, none_is) ↦ cc
        | inr (image, same) ↦ inl (
            ap looks_like_image (sym (ap (λ (x : MediaInput). x.content) (some_inj same)))
            ∙ ground (arith, image))
      ]

  decode_string-IsAccepted :
      (src : Text) (m : MediaInput)
      → decode_string files src true ≡ some m
      → IsAccepted (trim_space src) m
  unfolding decode_string
  decode_string-IsAccepted src m h =
      elim (if-either (has_prefix (codes "data:") (trim_space src)) _ _ h) [
        | inl (marked, e) ↦ decode_data_url-IsAccepted (trim_space src) m marked e
        | inr (_, e) ↦
            elim (if-either
              (has_prefix (codes "http://") (trim_space src)
                || has_prefix (codes "https://") (trim_space src))
              _ _ e) [
                | inl (web, same) ↦ inr (
                    inl (
                      sym (ap (λ (x : MediaInput). x.content) (some_inj same)),
                      sym (ap (λ (x : MediaInput). x.url) (some_inj same)),
                      web,
                    ))
                | inr (_, local) ↦
                    decode_local-IsAccepted (trim_space src)
                      (trim_prefix (trim_space src) (codes "file://"))
                      (decode_base64_lenient files (trim_prefix (trim_space src) (codes "file://"))
                        true)
                      m
                      (λ b. decode_base64-image (trim_prefix (trim_space src) (codes "file://")) b)
                      local
              ]
      ]

  -- the text that a source is read from
  abbrev pub text_of : Source → Text
  text_of (path s) = trim_space s
  text_of _ = []

  -- `DecodeImage` accepts bytes that begin as an image does, a web URL without bytes, and any payload
  -- of a data URL without ";base64".
  pub decode_image-IsAccepted :
      (src : Source) (m : MediaInput) → decode_image files src ≡ some m → IsAccepted (text_of src) m
  unfolding decode_image
  decode_image-IsAccepted (bytes b) m h = elim (if-either (looks_like_image b) _ _ h) [
    | inl (image, same) ↦
        inl (ap looks_like_image (sym (ap (λ (x : MediaInput). x.content) (some_inj same))) ∙ image)
    | inr (_, none_is) ↦ cc
  ]
  decode_image-IsAccepted (path s) m h = decode_string-IsAccepted s m h
  decode_image-IsAccepted other m h = cc
