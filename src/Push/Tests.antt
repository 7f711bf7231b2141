-- ===== src/Push/Tests.antt =====
-- Runs of the pushes on a database in memory.
use polarix_plus.Base.{
  ◌==◌, if◌then◌else◌, Text, codes, ◌≤◌, ◌≡◌, refl, true, false, Option, none, some, [], ◌∷◌, arith,
}
use polarix_plus.Storage.Sql.{new_entry, Entry}
use polarix_plus.Storage.{set_statement, same_row, Storage}
use polarix_plus.Storage.Memory.{clock, Rows, memory, memory-IsSql}
use polarix_plus.Push.{
  Stored, flag, key_text, rate_limit_max, Context, resolve_target, done, PushRequest, Http, Push,
  enable_push, disable_push, set_push_key, verify_push_key, http_handle, flag, key_text, group,
  done, markdown_payload,
}
use polarix_plus.Push.Allowed.{http_handle-Sends, Sends}
use polarix_plus.Push.Disabled.{disable_push-http_handle}
use polarix_plus.Push.Limits.{passed, passed_bound, http_handle-rate}

-- a flag is written with a byte in front, and so is a key
abbrev write : Stored → Option Text
write (flag true) = some (0 ∷ [])
write (flag false) = some (1 ∷ [])
write (key_text s) = some (2 ∷ s)

abbrev read : Text → Option Stored
read [] = none
read (c ∷ s) = if c == 0 then some (flag true) else if c == 2 then some (key_text s) else none

abbrev here : Context
here = record { chat = group; group_id = codes "g"; user_id = codes "u" }

abbrev empty_storage : Storage Rows
empty_storage = record { db = some []; path = codes "bot.db" }

abbrev with_secret : Storage Rows
unfolding set_push_key enable_push
with_secret =
    (enable_push memory write read here
      (set_push_key memory write read (codes "k") here empty_storage).1).1

abbrev start : Push Rows
start = record {
  storage = with_secret;
  rate = record { count = 0; start = none };
  has_client = true;
  sent = [];
}

abbrev request : PushRequest
request = record { key = codes "k"; kind = codes "MD"; content = codes " hi " }

abbrev post : Http
post = record { scope = codes "group"; openid = codes "g"; header_key = []; body = some request }

push_sent : http_handle memory write read (λ m. true) 5 post start ≡ (
  200,
  record start {
    sent =
        record {
          scope = codes "group";
          openid = codes "g";
          payload = markdown_payload (codes "hi");
        }
        ∷ [];
  },
)
unfolding http_handle with_secret same_row
push_sent = refl

http_handle-Sends_example :
    Sends memory write read post start (http_handle memory write read (λ m. true) 5 post start)
http_handle-Sends_example = http_handle-Sends memory write read (λ m. true) 5 post start

-- the chat allows pushing
abbrev global_entry : Text → Text → Entry
global_entry key value =
    new_entry set_statement (codes "global" ∷ codes "global" ∷ key ∷ value ∷ []) clock

abbrev loud_rows : Rows
loud_rows =
    global_entry (codes "enabled:group:g") (0 ∷ [])
    ∷ global_entry (codes "gpush_key") (2 ∷ codes "k")
    ∷ []

abbrev loud : Storage Rows
loud = record { db = some loud_rows; path = codes "bot.db" }

-- and no more
abbrev silent : Storage Rows
unfolding disable_push
silent = (disable_push memory write read here loud).1

disable_push-http_handle_example :
    (http_handle memory write read (λ m. true) 5 post (record start { storage = silent })).1.sent
    ≡ []
disable_push-http_handle_example =
    disable_push-http_handle memory write read here (codes "group") (codes "g") loud_rows
      (codes "bot.db") silent (λ m. true) 5 post (record start { storage = silent }) memory-IsSql
      (unfold resolve_target in refl) off refl refl refl
  where
    off : disable_push memory write read here loud ≡ (done, silent)
    off = unfold disable_push in refl

passed_bound_example : passed (7 ∷ 8 ∷ 9 ∷ []) (record { count = 3; start = none }) ≤ rate_limit_max
passed_bound_example =
    passed_bound 7 (8 ∷ 9 ∷ []) (record { count = 3; start = none }) refl (omega arith)

http_handle-rate_example :
    (http_handle memory write read (λ m. true) 5 post start).0
    ≡ (http_handle memory write read
        (λ m. true)
        5
        post
        (record start { rate = record { count = 90; start = some 4 } })).0
http_handle-rate_example =
    http_handle-rate memory write read (λ m. true) 5 post start
      (record { count = 90; start = some 4 }) request refl
      (unfold verify_push_key with_secret same_row in refl)
