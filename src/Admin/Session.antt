-- ===== src/Admin/Session.antt =====
-- Sessions, login and the check of each request (lib/admin/session.go, `requireAuth` and
-- `isLoopback` in lib/admin/admin.go). A time is a number of nanoseconds; SHA-256, the random token
-- and the parsing of addresses are parameters.
pub mod Sound
use polarix_plus.Base.{
  ltb, if◌then◌else◌, ◌>>=◌, Table, lookup, insert, delete, Text, text_eq, is_empty, ℕ, ◌+◌, ◌*◌,
  ◌/◌, ◌^◌, Bool, false, Option, none, some,
}

pub record Session : Type 0 where
  pub pw_hash : Text
  pub expire : ℕ

abbrev pub Sessions : Type 0
Sessions = Table Session

abbrev pub second : ℕ
second = 10 ^ 9

abbrev pub session_ttl_remember : ℕ
session_ttl_remember = 30 * 24 * 3600 * second

abbrev pub session_ttl_short : ℕ
session_ttl_short = 24 * 3600 * second

abbrev pub ttl_of : Bool → ℕ
ttl_of remember = if remember then session_ttl_remember else session_ttl_short

abbrev pub ok_status : ℕ
ok_status = 200

abbrev pub bad_request : ℕ
bad_request = 400

abbrev pub unauthorized : ℕ
unauthorized = 401

abbrev pub unavailable : ℕ
unavailable = 503

-- what net makes of an address: its host, and whether that is an IP address of the machine itself
pub record Net : Type 0 where
  pub split_host_port : Text → Option Text
  pub parse_loopback : Text → Option Bool

unfoldable pub is_loopback : Net → Text → Bool
is_loopback net remote = elim (net.split_host_port remote >>= net.parse_loopback) [
  | some b ↦ b
  | none ↦ false
]

-- what a login is answered: the status, and the cookie's token and age in seconds
pub record LoginAnswer : Type 0 where
  pub status : ℕ
  pub cookie : Option (Text × ℕ)

abbrev pub answer : ℕ → LoginAnswer
answer n = record { status = n; cookie = none }

module _ (sha256 : Text → Text) where
  unfoldable pub valid_session : Text → Text → ℕ → Sessions → Option Session → Bool × Sessions
  unfolding text_eq delete
  valid_session token password now s none = (false, s)
  valid_session token password now s (some sess) =
      if ltb sess.expire now
      then (false, delete token s)
      else (text_eq sess.pw_hash (sha256 password), s)

  -- `valid`
  unfoldable pub valid : Text → Text → ℕ → Sessions → Bool × Sessions
  unfolding valid_session lookup
  valid token password now s = valid_session token password now s (lookup token s)

  -- `create`, of a token that was drawn at random
  unfoldable pub create : Text → Text → Bool → ℕ → Sessions → Sessions
  unfolding insert
  create token password remember now s =
      insert token (record { pw_hash = sha256 password; expire = now + ttl_of remember }) s

  unfoldable pub login_with :
      Net → Text → Text → Text → ℕ → Sessions → Text × Bool → LoginAnswer × Sessions
  unfolding create is_loopback text_eq
  login_with net password remote token now s (input, remember) =
      if is_empty password
      then (answer (if is_loopback net remote then ok_status else unavailable), s)
      else if text_eq input password
      then (
        record { status = ok_status; cookie = some (token, ttl_of remember / second) },
        create token password remember now s,
      )
      else (answer unauthorized, s)

  -- `handleLogin`; `none` is a body that cannot be decoded
  unfoldable pub handle_login :
      Net → Text → Text → Text → ℕ → Sessions → Option (Text × Bool) → LoginAnswer × Sessions
  unfolding login_with
  handle_login net password remote token now s none = (answer bad_request, s)
  handle_login net password remote token now s (some input) =
      login_with net password remote token now s input

  -- `handleLogout`
  unfoldable pub handle_logout : Option Text → Sessions → Sessions
  unfolding delete
  handle_logout none s = s
  handle_logout (some token) s = delete token s

  unfoldable pub with_cookie : Text → Option Text → ℕ → Sessions → Option ℕ × Sessions
  unfolding valid
  with_cookie password none now s = (some unauthorized, s)
  with_cookie password (some token) now s =
      let (good, s') = valid token password now s in (if good then none else some unauthorized, s')

  -- `requireAuth`: `none` lets the request go on to its handler, a number ends it with that status
  unfoldable pub require_auth : Net → Text → Text → Option Text → ℕ → Sessions → Option ℕ × Sessions
  unfolding with_cookie is_loopback
  require_auth net password remote cookie now s =
      if is_empty password
      then (if is_loopback net remote then none else some unavailable, s)
      else with_cookie password cookie now s
