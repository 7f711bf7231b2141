-- ===== src/Admin/Tests.antt =====
-- Runs of the admin server.
use polarix_plus.Base.{
  Text, codes, text_eq, has_text, ℕ, ◌≤◌, ◌≡◌, refl, inl, inr, Bool, true, false, none, some, List,
  [], ◌∷◌, arith,
}
use polarix_plus.Config.Sample.{Json, codec, sample, world, null, str, num, strs, nums}
use polarix_plus.Admin.Session.{Session, Net, handle_login, require_auth}
use polarix_plus.Admin.Session.Sound.{
  Event, run, Logged, require_auth-Logged, require_auth-handle_login, login,
}
use polarix_plus.Admin.Settings.{Raw, handle_get_config, handle_put_config}
use polarix_plus.Admin.Settings.Secrets.{
  handle_get_config-secrets, of_app, secret_of, handle_put_config-secret,
}

-- a hash for the runs, and addresses of which only ::1 is the machine's own
abbrev digest : Text → Text
digest s = 0 ∷ s

abbrev own : Net
own = record {
  split_host_port = λ (a : Text). some a;
  parse_loopback = λ (a : Text). some (has_text a (codes "::1" ∷ []));
}

abbrev logins : List Event
logins = login (codes "pw") (codes "far") (codes "tok") 5 (some (codes "pw", false)) ∷ []

require_auth-Logged_example :
    (token : Text) × (s : Session) × (some (codes "tok") ≡ some token)
    × Logged digest own logins token s
    × (s.pw_hash ≡ digest (codes "pw"))
    × (7 ≤ s.expire)
unfolding require_auth run text_eq
require_auth-Logged_example =
    require_auth-Logged digest own logins (codes "pw") (codes "far") (some (codes "tok")) 7 refl
      refl

require_auth-handle_login_example :
    (require_auth digest own
      (codes "pw")
      (codes "far")
      (some (codes "tok"))
      9
      (handle_login digest own
        (codes "pw")
        (codes "far")
        (codes "tok")
        5
        (run digest own [])
        (some (codes "pw", true))).1).0
    ≡ none
require_auth-handle_login_example =
    require_auth-handle_login digest own [] (codes "pw") (codes "far") (codes "tok") true 5 9 refl
      (omega arith)

abbrev raw : Raw Json ℕ
raw = record {
  codec = codec;
  is_null = is_null;
  items = λ j. none;
  encode_ints = nums;
  encode_texts = strs;
}
  where
    is_null : Json → Bool
    is_null null = true
    is_null _ = false

handle_get_config-secrets_example :
    handle_get_config (record sample { app_secret = codes "other"; admin_password = codes "x" })
    ≡ handle_get_config sample
handle_get_config-secrets_example =
    handle_get_config-secrets sample (codes "other") (codes "x") refl refl

handle_put_config-secret_example :
    secret_of of_app
      (handle_put_config raw true
        (some ((codes "secret", str []) ∷ (codes "port", num 80) ∷ []))
        world).1.current
    ≡ codes "s"
unfolding text_eq
handle_put_config-secret_example =
    handle_put_config-secret raw of_app true
      ((codes "secret", str []) ∷ (codes "port", num 80) ∷ []) world
      (inr (inr refl), (inl refl, tt))

port_changed :
    (handle_put_config raw true (some ((codes "port", num 80) ∷ [])) world).0.status ≡ 200
unfolding handle_put_config
port_changed = refl
