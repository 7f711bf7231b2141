-- ===== src/Message/Plan.antt =====
-- How the parts of a message become the messages that are sent (`MsgBuilder` in
-- lib/context/builder.go). What a part is given to be sent with is left out: a markdown fragment of
-- an image, which its `Fragment` asks the image host for, is a parameter.
pub mod Merge
use mathlib.Core.List.{reverse}
use polarix_plus.Base.{
  ◌==◌, if◌then◌else◌, ◌>>=◌, get_elem?, any, trim_left, trim_space, is_some, Text, codes, is_empty,
  ℕ, ◌+◌, Bool, true, false, not, ◌&&◌, ◌||◌, Option, none, some, List, [], ◌∷◌, ◌++◌,
}

-- an image: its source, its summary, its explicit size, and the flags that send it within markdown or
-- as media in any case
pub record Image : Type 0 where
  pub src : Text
  pub summary : Text
  pub width : ℕ
  pub height : ℕ
  pub force_markdown : Bool
  pub force_media : Bool

-- the implementations of `Part`; media, uploaded or to be uploaded, are passed on as they are, and a
-- text stands for each
pub data Part : Type 0 where
  text markdown : Text → Part
  at_user : Text → Bool → Part
  at_all : Bool → Part
  image : Image → Part
  upload media : Text → Part

-- `Sender`: a message with its keyboard and the message it quotes, or a part of its own
pub data Sender : Type 0 where
  send_markdown : Text → Option Text → Text → Sender
  send_text : Text → Text → Sender
  send_image : Image → Sender
  send_upload send_media : Text → Sender

pub record Builder : Type 0 where
  pub parts : List Part
  pub keyboard : Option Text
  pub quote : Text

abbrev pub is_markdown : Part → Bool
is_markdown (markdown s) = true
is_markdown _ = false

abbrev pub is_shown : Part → Bool
is_shown (text s) = true
is_shown (image im) = true
is_shown _ = false

-- whether the main message is markdown
unfoldable pub use_markdown : Bool → Builder → Bool
use_markdown global b =
    is_some b.keyboard || (any is_markdown b.parts || (global && any is_shown b.parts))

abbrev pub newline_if : Bool → Text
newline_if newline = if newline then 10 ∷ [] else []

abbrev pub mention_all : Bool → Text
mention_all md = if md then codes "<qqbot-at-everyone />" else codes "@everyone"

-- strings.TrimRight(s, "\n")
unfoldable pub trim_newlines : Text → Text
unfolding trim_left
trim_newlines s = reverse (trim_left (λ c. c == 10) (reverse s))

-- what the loop has gathered: the text of the main message, the other messages, and `next`, the slot
-- of the next image
pub record Gathered : Type 0 where
  pub inline : Text
  pub others : List Sender
  pub next : ℕ

-- an image that no host took goes as media
abbrev pub degraded : Image → Image
degraded im = record im { force_markdown = false; force_media = true }

unfoldable pub place_image : Image → Option Text → Gathered → Gathered
unfolding trim_newlines
place_image im none g = record g { others = g.others ++ send_image (degraded im) ∷ [] }
place_image im (some frag) g =
    if is_empty frag
    then record g { others = g.others ++ send_image (degraded im) ∷ [] }
    else record g { inline = g.inline ++ (10 ∷ trim_newlines frag ++ 10 ∷ 10 ∷ []) }

-- the main message, if there is one
unfoldable pub main_message : Bool → Builder → Text → List Sender
unfolding trim_space
main_message md b inline =
    if md && (not (is_empty inline) || is_some b.keyboard)
    then send_markdown (if is_empty (trim_space inline) then codes " " else inline) b.keyboard
        b.quote
      ∷ []
    else if not (is_empty inline)
    then send_text inline b.quote ∷ []
    else []

-- the slots of the images in order, which goroutines fill before the loop begins
unfoldable pub image_slots : (Image → Option Text) → List Part → List (Option Text)
image_slots fragment [] = []
image_slots fragment (image im ∷ ps) = fragment im ∷ image_slots fragment ps
image_slots fragment (_ ∷ ps) = image_slots fragment ps

-- an image in markdown, by its slot; reading a slot that is not there panics
abbrev pub place_slot : Image → Gathered → Option (Option Text) → Option Gathered
place_slot im g none = none
place_slot im g (some r) = some (place_image im r (record g { next = g.next + 1 }))

-- one round of the loop over the parts
unfoldable pub gather_part : Bool → List (Option Text) → Part → Gathered → Option Gathered
unfolding place_image
gather_part md slots (text s) g = some (record g { inline = g.inline ++ s })
gather_part md slots (at_all newline) g =
    some (record g { inline = g.inline ++ (mention_all md ++ newline_if newline) })
gather_part md slots (at_user id newline) g =
    some
      (record g { inline = g.inline ++ (codes "<@" ++ (id ++ (codes ">" ++ newline_if newline))) })
gather_part md slots (markdown s) g = some (record g { inline = g.inline ++ s })
gather_part md slots (image im) g =
    if md
    then place_slot im g (get_elem? slots g.next)
    else some (record g { others = g.others ++ send_image im ∷ [] })
gather_part md slots (upload u) g = some (record g { others = g.others ++ send_upload u ∷ [] })
gather_part md slots (media m) g = some (record g { others = g.others ++ send_media m ∷ [] })

unfoldable pub gather_parts : Bool → List (Option Text) → List Part → Gathered → Option Gathered
unfolding gather_part
gather_parts md slots [] g = some g
gather_parts md slots (p ∷ ps) g = gather_part md slots p g >>= gather_parts md slots ps

abbrev pub nothing_gathered : Gathered
nothing_gathered = record { inline = []; others = []; next = 0 }

-- `plan`; a panic is `none`
unfoldable pub plan : (Image → Option Text) → Bool → Builder → Option (List Sender)
unfolding use_markdown image_slots gather_parts main_message
plan fragment global b =
    let md = use_markdown global b in
    let slots = if md then image_slots fragment b.parts else [] in
    gather_parts md slots b.parts nothing_gathered >>= λ (g : Gathered).
    some (main_message md b g.inline ++ g.others)

-- The errors of the messages that could not be sent; the others are sent all the same.
unfoldable pub send_each {ℓ} :
    {S : Type ℓ} → (Sender → S → Bool × S) → List Sender → S → List Sender × S
send_each deliver [] s = ([], s)
send_each deliver (m ∷ ms) s =
    let (ok, s') = deliver m s in
    let (failed, last) = send_each deliver ms s' in (if ok then failed else m ∷ failed, last)

abbrev is_empty_list : List Part → Bool
is_empty_list [] = true
is_empty_list (p ∷ ps) = false

abbrev pub sent_plan {ℓ} :
    {S : Type ℓ} → (Sender → S → Bool × S) → S → Option (List Sender) → Option (List Sender × S)
sent_plan deliver s none = none
sent_plan deliver s (some ms) = some (send_each deliver ms s)

-- `Send`: the messages that failed, and the state of the API
unfoldable pub send_builder {ℓ} :
    {S : Type ℓ}
    → (Image → Option Text)
    → (Sender → S → Bool × S)
    → Bool
    → Builder
    → S
    → Option (List Sender × S)
unfolding plan send_each
send_builder fragment deliver global b s =
    if is_empty_list b.parts && not (is_some b.keyboard)
    then some ([], s)
    else sent_plan deliver s (plan fragment global b)
