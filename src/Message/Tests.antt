-- ===== src/Message/Tests.antt =====
-- Runs of the reply counter and the keyboard, and each theorem about them at a concrete input.
use polarix_plus.Base.{
  Text, codes, ◌-◌, ◌^◌, ◌≡◌, refl, ◌↔◌, Bool, true, false, Option, none, some, [], ◌∷◌, ◌++◌,
  arith,
}
use polarix_plus.Message.At.{
  protect_markdown_at, zero_width, IsGuarded, Inserts, protect_markdown_at-IsGuarded,
}
use polarix_plus.Message.Plan.{
  Image, text, at_user, image, upload, send_markdown, send_text, send_image, send_upload, Builder,
  plan,
}
use polarix_plus.Message.Plan.Merge.{
  WantsMarkdown, merged_main, all_rendered, all_alone, plan-merged,
}
use polarix_plus.Message.Count.{first_seq, Posted, send, counts, to_group}
use polarix_plus.Message.Keyboard.{
  Button, Keyboard, plain, append_button, is_valid_button, IsBounded,
}

counts_test : counts 6 first_seq ≡ some 1 ∷ some 2 ∷ some 3 ∷ some 4 ∷ none ∷ none ∷ []
unfolding counts
counts_test = refl

abbrev accepts : Posted → Bool
accepts p = true

send_test :
    send true accepts (record { used = false; target = to_group; has_client = true }) 2
    ≡ (none, (some (record { target = to_group; seq = 2 }), 3))
unfolding send
send_test = refl

abbrev url_button : Button
url_button = record (plain (codes "b1") (codes "site")) { url = codes "u" }

abbrev one_button : Keyboard
one_button = (url_button ∷ []) ∷ []

one_button-IsBounded : IsBounded one_button
one_button-IsBounded = record { rows = omega arith; buttons = (omega arith, tt) }

append_button_test :
    append_button url_button 1 one_button ≡ (true, (url_button ∷ []) ∷ (url_button ∷ []) ∷ [])
unfolding append_button
append_button_test = refl

abbrev same : Text → Text
same s = s

-- an action of type -1 passes the check
negative_action : is_valid_button (record url_button { action = 2 ^ 64 - 1 }) ≡ true
unfolding is_valid_button
negative_action = refl

protect_test :
    protect_markdown_at (codes "@a b@c <@d> @ @")
    ≡ codes "@" ++ zero_width ++ codes "a b@c <@d> @ @"
unfolding protect_markdown_at
protect_test = refl

protect_markdown_at-IsGuarded_example :
    IsGuarded none (protect_markdown_at (codes "hi @bob"))
    × Inserts (codes "hi @bob") (protect_markdown_at (codes "hi @bob"))
protect_markdown_at-IsGuarded_example = protect_markdown_at-IsGuarded (codes "hi @bob")

abbrev cat : Image
cat = record {
  src = codes "cat.png";
  summary = [];
  width = 0;
  height = 0;
  force_markdown = false;
  force_media = false;
}

abbrev no_host : Image → Option Text
no_host im = none

abbrev chain : Builder
chain = record {
  parts = at_user (codes "u") true ∷ text (codes "hello") ∷ image cat ∷ upload (codes "v") ∷ [];
  keyboard = none;
  quote = codes "q";
}

plan_text :
    plan no_host false chain
    ≡ some (
        send_text (codes "<@u>" ++ 10 ∷ codes "hello") (codes "q")
        ∷ send_image cat
        ∷ send_upload (codes "v")
        ∷ [])
unfolding plan
plan_text = refl

plan_degraded :
    plan no_host true chain
    ≡ some (
        send_markdown (codes "<@u>" ++ 10 ∷ codes "hello") none (codes "q")
        ∷ send_image (record cat { force_media = true })
        ∷ send_upload (codes "v")
        ∷ [])
unfolding plan
plan_degraded = refl

plan-merged_example :
    (md : Bool) × ((md ≡ true) ↔ WantsMarkdown true chain)
    × (plan no_host true chain
        ≡ some (
            merged_main md none (codes "q") (all_rendered no_host md chain.parts)
            ++ all_alone no_host md chain.parts))
plan-merged_example = plan-merged no_host true chain
