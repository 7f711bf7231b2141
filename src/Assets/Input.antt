-- ===== src/Assets/Input.antt =====
-- The decoding of media (lib/assets/input.go). Base64 in its four forms, reading a file and the last
-- element of a path are parameters. A text is valid UTF-8 here: strings.Map would put U+FFFD for other
-- bytes, which base64 does not read either.
pub mod Accepted
use polarix_plus.Base.{
  ◌==◌, if◌then◌else◌, ◌>>=◌, or_try, length, drop, keep, trim_space, index, is_some, split, cut,
  Text, codes, is_empty, has_prefix, ℕ, zero, suc, ◌-◌, ◌%◌, Bool, true, false, not, ◌&&◌, ◌||◌,
  Option, none, some, List, [], ◌∷◌, ◌++◌,
}
use polarix_plus.Images.{is_image}

pub record MediaInput : Type 0 where
  pub content : Text
  pub url : Text
  pub filename : Text
  pub mime_type : Text

-- base64.StdEncoding and its kin
pub data Encoding : Type 0 where
  std raw_std url_safe raw_url_safe : Encoding

abbrev pub encodings : List Encoding
encodings = std ∷ raw_std ∷ url_safe ∷ raw_url_safe ∷ []

pub record Files : Type 0 where
  pub decode : Encoding → Text → Option Text
  pub read_file : Text → Option Text
  pub base : Text → Text

-- strings.TrimPrefix
abbrev pub trim_prefix : Text → Text → Text
trim_prefix s p = if has_prefix p s then drop (length p) s else s

abbrev pub is_gap : ℕ → Bool
is_gap c = c == b' ' || (c == 9 || (c == 10 || c == 13))

-- `IsImage`, which never reads outside its buffer
abbrev pub looks_like_image : Text → Bool
looks_like_image b = elim (is_image b) [ some r ↦ r | none ↦ false ]

abbrev pub inline_name : Text
inline_name = codes "inline"

abbrev pub inline_media : Text → Text → MediaInput
inline_media b mime = record { content = b; url = []; filename = inline_name; mime_type = mime }

-- what is taken as the result of a decoding
abbrev pub is_taken : Bool → Text → Bool
is_taken want_image b = if want_image then looks_like_image b else not (is_empty b)

abbrev pub if_taken : Bool → Option Text → Option Text
if_taken want none = none
if_taken want (some b) = if is_taken want b then some b else none

-- strings.Repeat("=", n)
abbrev pub padding : ℕ → Text
padding zero = []
padding (suc n) = b'=' ∷ padding n

-- strings.SplitN(meta, ";", 2)[0]
abbrev pub mime_of : Text → Option (Text × Text) → Text
mime_of meta none = meta
mime_of meta (some (m, rest)) = m

-- the inputs of `Decode` and `DecodeImage`
pub data Source : Type 0 where
  bytes path : Text → Source
  other : Source

module _ (files : Files) where
  -- the first of the encodings that reads the text as something to take
  unfoldable pub try_encodings : Bool → Text → List Encoding → Option Text
  unfolding is_image
  try_encodings want s [] = none
  try_encodings want s (e ∷ es) =
      or_try (if_taken want (files.decode e s)) (try_encodings want s es)

  abbrev pub try_padded : Bool → Text → Option Text
  try_padded want s =
      if length s % 4 == 0
      then none
      else if_taken want (files.decode std (s ++ padding (4 - length s % 4)))

  -- `decodeBase64Lenient`
  unfoldable pub decode_base64_lenient : Text → Bool → Option Text
  unfolding try_encodings has_prefix
  decode_base64_lenient src want =
      let s = keep (λ c. not (is_gap c)) (trim_prefix src (codes "base64,")) in
      if is_empty s then none else or_try (try_encodings want s encodings) (try_padded want s)

  -- a data URL, cut at the comma
  unfoldable pub decode_data : Text → Text → Bool → Option MediaInput
  unfolding decode_base64_lenient index split
  decode_data meta payload want =
      let mime = mime_of meta (cut b';' meta) in
      if is_some (index (codes ";base64") meta)
      then (decode_base64_lenient payload want >>= λ (b : Text). some (inline_media b mime))
      else some (inline_media payload mime)

  -- `decodeDataURL`
  unfoldable pub decode_data_url : Text → Bool → Option MediaInput
  unfolding decode_data cut
  decode_data_url src want = cut b',' src >>= λ (parts : Text × Text).
      if is_empty parts.1 then none else decode_data (drop 5 parts.0) parts.1 want

  abbrev pub if_image : Bool → Text → Text → Option MediaInput
  if_image want name b =
      if want && not (looks_like_image b)
      then none
      else some (record { content = b; url = []; filename = files.base name; mime_type = [] })

  -- base64 without a header, and otherwise a file
  unfoldable pub decode_local : Text → Bool → Option Text → Option MediaInput
  unfolding is_image
  decode_local s want (some b) = some (inline_media b [])
  decode_local s want none = files.read_file s >>= if_image want s

  -- `decodeString`
  unfoldable pub decode_string : Text → Bool → Option MediaInput
  unfolding trim_space has_prefix decode_data_url decode_local decode_base64_lenient
  decode_string src want =
      let s = trim_space src in
      if has_prefix (codes "data:") s
      then decode_data_url s want
      else if has_prefix (codes "http://") s || has_prefix (codes "https://") s
      then some (record { content = []; url = s; filename = files.base s; mime_type = [] })
      else (let t = trim_prefix s (codes "file://") in
          decode_local t want (decode_base64_lenient t want))

  -- `Decode` and `DecodeImage`
  unfoldable pub decode : Source → Option MediaInput
  unfolding decode_string
  decode (bytes b) = if is_empty b then none else some (inline_media b [])
  decode (path s) = decode_string s false
  decode other = none

  unfoldable pub decode_image : Source → Option MediaInput
  unfolding decode_string is_image
  decode_image (bytes b) = if looks_like_image b then some (inline_media b []) else none
  decode_image (path s) = decode_string s true
  decode_image other = none
