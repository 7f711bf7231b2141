-- ===== src/Assets/Tests.antt =====
-- Runs on concrete inputs, with providers that are numbers and a world that counts the calls.
use polarix_plus.Base.{
  ◌==◌, if◌then◌else◌, Table, keep, Text, codes, text_eq, ℕ, ◌+◌, ◌-◌, ◌^◌, ◌≡◌, refl, ◌⊎◌, Bool,
  true, false, Option, none, some, List, [], ◌∷◌,
}
use polarix_plus.Assets.Input.{decode_image, path, Files, MediaInput}
use polarix_plus.Assets.Host.{
  is_enabled, instantiate_all, new_host, img_to_url, Net, ImageHost, ProviderItem,
}
use polarix_plus.Assets.Host.Ranked.{Ranked, of_priority, new_host-Ranked}
use polarix_plus.Assets.Host.Sent.{IsSent, img_to_url-IsSent}
use polarix_plus.Assets.Manager.{
  new_manager, load_manager, do_ops, found, watch, read_back, use_host, Disk, Op,
}
use polarix_plus.Assets.Manager.Current.{IsCurrent, do_ops-IsCurrent}
use polarix_plus.Assets.Markdown.{has_size, replacement, process_markdown}
use polarix_plus.Assets.Markdown.Plain.{Passes, process_markdown-Passes}

-- files of which "a.bmp" is an image; no text is read as base64
abbrev disk : Files
disk = record {
  decode = λ e s. none;
  read_file = λ s. if text_eq s (codes "a.bmp") then some (codes "BM0123456789") else none;
  base = λ s. s;
}

-- the provider 1 fails, the others take what they get
abbrev net : Net ℕ ℕ
net = record {
  upload = λ p input w. (if p == 1 then none else some (codes "https://img/x"), w + 1);
  get = λ s w. (none, w);
  hostname = λ s. some (codes "a.com");
}

abbrev item : Text → ℕ → Option Bool → ProviderItem ℕ
item name priority enabled = record {
  name = name;
  enabled = enabled;
  priority = priority;
  settings = priority;
}

abbrev factories : Table (ℕ → Option ℕ)
factories = (codes "a", λ n. some n) ∷ (codes "b", λ n. none) ∷ []

abbrev items : List (ProviderItem ℕ)
items =
    item (codes "a") 0 none
    ∷ item (codes "a") 1 none
    ∷ item (codes "b") 7 (some true)
    ∷ item (codes "a") 9 (some false)
    ∷ item (codes "a") (2 ^ 64 - 1) none
    ∷ []

abbrev host : ImageHost ℕ
host = record { providers = 1 ∷ 2 ∷ []; whitelist = codes "/local" ∷ []; uploaded = 0 }

new_host_order : (new_host factories items []).providers ≡ 1 ∷ 0 ∷ 18446744073709551615 ∷ []
unfolding new_host text_eq
new_host_order = refl

-- the second provider takes the file, which the markdown then names
process_markdown_upload :
    process_markdown net disk (codes "![b](a.bmp)x") host 0
    ≡ (codes "![b](https://img/x)\nx", record host { uploaded = 1 }, 2)
unfolding process_markdown
process_markdown_upload = refl

replaced_size :
    replacement (codes "b") (codes "s") (record { url = codes "u"; width = 12; height = 340 }, true)
    ≡ codes "![b #12px #340px](u)"
unfolding replacement
replaced_size = refl

has_size_spaced : has_size (codes "a #1px  #22px") ≡ true
unfolding has_size
has_size_spaced = refl

-- a data URL without ";base64" is not looked at
abbrev plain : MediaInput
plain = record { content = codes "hello"; url = []; filename = codes "inline"; mime_type = [] }

decode_image-plain : decode_image disk (path (codes "data:,hello")) ≡ some plain
unfolding decode_image
decode_image-plain = refl

new_host-Ranked_example :
    (order : List (ProviderItem ℕ)) × ((new_host factories items []).providers
      ≡ instantiate_all factories order)
    × Ranked order
    × ((q : ℕ) → of_priority q order ≡ of_priority q (keep is_enabled items))
new_host-Ranked_example = new_host-Ranked factories items []

img_to_url-IsSent_example :
    ((img_to_url net disk (codes "a.bmp") host 0).0.0.url ≡ codes "a.bmp")
    ⊎ IsSent net disk host (codes "a.bmp")
img_to_url-IsSent_example = img_to_url-IsSent net disk (codes "a.bmp") host 0

two_images : Passes net disk host 0 (codes "![](https://a.com/b)\n![x](/local/c)\n")
unfolding Passes
two_images = (refl, refl, (refl, refl, tt))

process_markdown-Passes_example :
    process_markdown net disk (codes "![](https://a.com/b)\n![x](/local/c)\n") host 5
    ≡ (codes "![](https://a.com/b)\n![x](/local/c)\n", host, 5)
process_markdown-Passes_example =
    process_markdown-Passes net disk (codes "![](https://a.com/b)\n![x](/local/c)\n") host 5
      two_images

-- a disk that always holds a file with the items, and takes every write
abbrev shelf : Disk ℕ ℕ
shelf = record {
  read = λ p w. found (codes "{}");
  write = λ p text w. (true, w + 1);
  marshal = λ cfg. some (codes "{}");
  unmarshal = λ text. some (record { providers = items; whitelist = [] });
}

abbrev ops : List (Op ℕ)
ops = watch ∷ read_back ∷ use_host (codes "a.bmp") ∷ []

-- the host's first provider, 1, fails, the next takes the file
read_back_used :
    (do_ops factories shelf net disk ops (new_manager factories shelf, 0)).0.host.uploaded ≡ 1
unfolding new_manager load_manager img_to_url text_eq
read_back_used = refl

do_ops-IsCurrent_example :
    IsCurrent factories shelf
      (do_ops factories shelf net disk ops (new_manager factories shelf, 0)).0
do_ops-IsCurrent_example = do_ops-IsCurrent factories shelf net disk ops 0
