-- ===== src/Assets/Host/Sent.antt =====
-- What is sent to a provider (`ImgToURL` in lib/assets/host.go).
use polarix_plus.Base.{
  Bool-cases, trim_space, Text, ◌≡◌, refl, ◌⊎◌, inl, inr, Bool, true, false, not, ◌||◌, Option,
  none, some,
}
use polarix_plus.Assets.Input.{decode_image, path, Files, MediaInput}
use polarix_plus.Assets.Input.Accepted.{IsAccepted, decode_image-IsAccepted}
use polarix_plus.Assets.Host.{
  is_listed, has_none, load_media, load, is_local, send_loaded, img_to_url, Net, ImageHost,
}

module _ {P W : Type 0} (net : Net P W) (files : Files) where
  -- the source of an image whose upload is tried
  abbrev pub IsSent : ImageHost P → Text → Type 0
  IsSent h src =
      (is_listed src h.whitelist ≡ false)
      × (is_local net files src ≡ true)
      × ((m : MediaInput) × (decode_image files (path src) ≡ some m)
          × IsAccepted files (trim_space src) m)

  loaded-IsSent :
      (src : Text) (h : ImageHost P) (w : W) (o : Option MediaInput)
      → decode_image files (path src) ≡ o
      → ((send_loaded net files src h (load_media net files o w)).0.0.url ≡ src)
        ⊎ ((m : MediaInput) × (decode_image files (path src) ≡ some m)
            × IsAccepted files (trim_space src) m)
  loaded-IsSent src h w none e = inl refl
  loaded-IsSent src h w (some m) e = inr (m, e, decode_image-IsAccepted files (path src) m e)

  -- An image keeps its URL, or its source has no prefix of the whitelist, is local, and is decoded to
  -- one of: bytes that begin as an image does; a web URL without bytes, which is the source without
  -- the white space around it; the payload, which nothing looks at, of a data URL without ";base64".
  pub img_to_url-IsSent :
      (src : Text) (h : ImageHost P) (w : W)
      → ((img_to_url net files src h w).0.0.url ≡ src) ⊎ IsSent h src
  unfolding img_to_url load
  img_to_url-IsSent src h w = elim (Bool-cases (is_listed src h.whitelist)) [
    | inl e ↦ inl (rw e refl)
    | inr unlisted ↦ elim (Bool-cases (has_none h.providers || not (is_local net files src))) [
      | inl e ↦ inl (rw unlisted (rw e refl))
      | inr e ↦ elim (loaded-IsSent src h w (decode_image files (path src)) refl) [
        | inl same ↦ inl (rw unlisted (rw e same))
        | inr sent ↦ inr (unlisted, kept (has_none h.providers) (is_local net files src) e, sent)
      ]
    ]
  ]
    where
      kept : (a b : Bool) → a || not b ≡ false → b ≡ true
      kept false true e = refl
      kept false false e = cc
      kept true b e = cc
