-- ===== src/Assets/Host.antt =====
-- The image hosts (lib/assets/host.go and registry.go). The providers of the hosts and HTTP are
-- parameters, which move a world on; so are the parsing of a URL and the factories.
pub mod Ranked
pub mod Sent
use polarix_plus.Base.{
  ltb, ◌==◌, if◌then◌else◌, ◌>>=◌, Table, lookup, insert, wrap, slt, length, keep, is_some, Text,
  codes, text_eq, is_empty, has_prefix, ℕ, ◌+◌, ◌*◌, ◌^◌, Bool, true, false, not, ◌||◌, Option,
  none, some, List, [], ◌∷◌,
}
use polarix_plus.Images.{Size, probe}
use polarix_plus.Assets.Input.{decode_image, path, Files, MediaInput, Source}

-- `ProviderItem`, with a priority as a bit pattern
pub record ProviderItem (C : Type 0) : Type 0 where
  pub name : Text
  pub enabled : Option Bool
  pub priority : ℕ
  pub settings : C

pub record ProviderInput : Type 0 where
  pub buffer : Text
  pub url : Text
  pub filename : Text
  pub mime_type : Text

pub record ResolvedImage : Type 0 where
  pub url : Text
  pub width : ℕ
  pub height : ℕ

pub record ImageHost (P : Type 0) : Type 0 where
  pub providers : List P
  pub whitelist : List Text
  pub uploaded : ℕ

-- a response; reading its body stops after a number of bytes
pub record Response : Type 0 where
  pub status : ℕ
  pub body : ℕ → Option Text
  pub content_type : Text

pub record Net (P W : Type 0) : Type 0 where
  pub upload : P → ProviderInput → W → Option Text × W
  pub get : Text → W → Option Response × W
  pub hostname : Text → Option Text

abbrev pub max_fetch_bytes : ℕ
max_fetch_bytes = 20 * 2 ^ 20

-- `Register`, which panics on a name that is taken
abbrev pub register : {F : Type 0} → Text → F → Table F → Option (Table F)
register name f reg = if is_some (lookup name reg) then none else some (insert name f reg)

module _ {C : Type 0} where
  abbrev pub is_enabled : ProviderItem C → Bool
  is_enabled item = elim item.enabled [ none ↦ true | some b ↦ b ]

  -- slices.SortStableFunc by falling priority: an insertion, in front of what is equal
  unfoldable pub rank : ProviderItem C → List (ProviderItem C) → List (ProviderItem C)
  rank item [] = item ∷ []
  rank item (i ∷ is) =
      let later = rank item is in if slt item.priority i.priority then i ∷ later else item ∷ i ∷ is

  unfoldable pub by_priority : List (ProviderItem C) → List (ProviderItem C)
  unfolding rank
  by_priority [] = []
  by_priority (item ∷ items) = rank item (by_priority items)

module _ {P C : Type 0} where
  -- `Instantiate`
  unfoldable pub instantiate : Table (C → Option P) → Text → C → Option P
  unfolding lookup
  instantiate reg name settings = lookup name reg >>= λ (f : C → Option P). f settings

  -- the providers that can be made
  unfoldable pub instantiate_all : Table (C → Option P) → List (ProviderItem C) → List P
  unfolding instantiate
  instantiate_all reg [] = []
  instantiate_all reg (i ∷ is) = elim (instantiate reg i.name i.settings) [
    | some p ↦ p ∷ instantiate_all reg is
    | none ↦ instantiate_all reg is
  ]

  -- `NewHost`
  unfoldable pub new_host : Table (C → Option P) → List (ProviderItem C) → List Text → ImageHost P
  unfolding by_priority instantiate_all
  new_host reg items whitelist = record {
    providers = instantiate_all reg (by_priority (keep is_enabled items));
    whitelist = whitelist;
    uploaded = 0;
  }

-- the size that the image's bytes tell, or zeros
abbrev pub resolved : Text → Option (Option Size) → ResolvedImage
resolved url (some (some size)) = record { url = url; width = size.width; height = size.height }
resolved url _ = record { url = url; width = 0; height = 0 }

abbrev pub as_is : Text → ResolvedImage
as_is url = record { url = url; width = 0; height = 0 }

-- the input of a provider that the decoded media give
abbrev pub provider_input : MediaInput → ProviderInput
provider_input m = record {
  buffer = m.content;
  url = [];
  filename = m.filename;
  mime_type = m.mime_type;
}

abbrev pub is_private : Text → Bool
is_private host =
    text_eq host (codes "localhost")
    || (text_eq host (codes "127.0.0.1")
        || (text_eq host (codes "::1")
            || (has_prefix (codes "10.") host
                || (has_prefix (codes "172.") host || has_prefix (codes "192.168.") host))))

-- a list of prefixes has one of the text's
abbrev pub is_listed : Text → List Text → Bool
is_listed src [] = false
is_listed src (p ∷ ps) = has_prefix p src || is_listed src ps

abbrev pub has_none : {P : Type 0} → List P → Bool
has_none [] = true
has_none (p ∷ ps) = false

module _ {P W : Type 0} (net : Net P W) (files : Files) where
  -- the answer of a provider; `next` asks the others
  abbrev pub on_answer :
      Option Text
      → W
      → ImageHost P
      → (W → Option Text × ImageHost P × W)
      → Option Text × ImageHost P × W
  on_answer (some url) v h next = (some url, record h { uploaded = wrap (h.uploaded + 1) }, v)
  on_answer none v h next = next v

  -- `upload`: the first provider that takes the input counts
  unfoldable pub upload : List P → ProviderInput → ImageHost P → W → Option Text × ImageHost P × W
  upload [] input h w = (none, h, w)
  upload (p ∷ ps) input h w =
      let (answer, v) = net.upload p input w in on_answer answer v h (λ u. upload ps input h u)

  abbrev pub if_small : Text → Text → Text → Option ProviderInput
  if_small src mime content =
      if ltb max_fetch_bytes (length content)
      then none
      else some (record { buffer = content; url = []; filename = files.base src; mime_type = mime })

  abbrev pub from_response : Text → Option Response → Option ProviderInput
  from_response src none = none
  from_response src (some r) =
      if r.status == 200 then r.body (max_fetch_bytes + 1) >>= if_small src r.content_type else none

  -- `fetchRemote`
  abbrev pub fetch_remote : Text → W → Option ProviderInput × W
  fetch_remote src w = (from_response src (net.get src w).0, (net.get src w).1)

  abbrev pub load_media : Option MediaInput → W → Option ProviderInput × W
  load_media none w = (none, w)
  load_media (some m) w =
      if is_empty m.url then (some (provider_input m), w) else fetch_remote m.url w

  -- `load`
  unfoldable pub load : Text → W → Option ProviderInput × W
  unfolding decode_image
  load src w = load_media (decode_image files (path src)) w

  unfoldable pub is_local : Text → Bool
  unfolding has_prefix text_eq
  is_local src =
      if has_prefix (codes "data:") src || has_prefix (codes "file://") src
      then true
      else if has_prefix (codes "http://") src || has_prefix (codes "https://") src
      then elim (net.hostname src) [ none ↦ true | some host ↦ is_private host ]
      else true

  -- what an upload of the bytes gives; `false` is an error
  abbrev pub uploaded_as :
      Text → Text → Option Text × ImageHost P × W → (ResolvedImage × Bool) × ImageHost P × W
  uploaded_as src buffer (none, h, w) = ((as_is src, false), h, w)
  uploaded_as src buffer (some url, h, w) = ((resolved url (probe buffer), true), h, w)

  abbrev pub send_loaded :
      Text → ImageHost P → Option ProviderInput × W → (ResolvedImage × Bool) × ImageHost P × W
  send_loaded src h (none, w) = ((as_is src, true), h, w)
  send_loaded src h (some input, w) = uploaded_as src input.buffer (upload h.providers input h w)

  -- `ImgToURL`
  unfoldable pub img_to_url : Text → ImageHost P → W → (ResolvedImage × Bool) × ImageHost P × W
  unfolding has_prefix is_local load upload probe
  img_to_url src h w =
      if is_listed src h.whitelist
      then ((as_is src, true), h, w)
      else if has_none h.providers || not (is_local src)
      then ((as_is src, true), h, w)
      else send_loaded src h (load src w)

  abbrev pub resolve_media :
      ImageHost P → W → Option MediaInput → (ResolvedImage × Bool) × ImageHost P × W
  resolve_media h w none = ((as_is [], false), h, w)
  resolve_media h w (some m) = uploaded_as [] m.content (upload h.providers (provider_input m) h w)

  -- `Resolve`
  unfoldable pub resolve : Source → ImageHost P → W → (ResolvedImage × Bool) × ImageHost P × W
  unfolding img_to_url upload decode_image probe
  resolve (path s) h w = img_to_url s h w
  resolve src h w = resolve_media h w (decode_image files src)
