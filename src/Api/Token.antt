-- ===== src/Api/Token.antt =====
-- The cached access token (`getAccessToken`, `InvalidateToken` in lib/qqapi/client.go). Times are
-- nanoseconds; what the token service answers, the token and the text of its lifetime in seconds, is a
-- parameter.
use mathlib.Core.Path.{subst}
use polarix_plus.Base.{
  ltb, if◌then◌else◌, wrap, slt, atoi, Text, is_empty, ℕ, ◌+◌, ◌-◌, ◌*◌, ◌^◌, ◌<◌, ◌≡◌, refl, sym,
  ap, ◌∙◌, Bool, true, false, not, ◌&&◌, Option, none, some, [], arith,
}

pub record Cache : Type 0 where
  pub access_token : Text
  pub expire_at : ℕ

unfoldable pub new_cache : Cache
new_cache = record { access_token = []; expire_at = 0 }

unfoldable pub invalidate : Cache → Cache
unfolding new_cache
invalidate c = new_cache

abbrev pub is_fresh : ℕ → Cache → Bool
is_fresh now c = not (is_empty c.access_token) && ltb now c.expire_at

-- the answer of the service, as far as it was read
pub record Answer : Type 0 where
  pub token : Text
  pub expires_in : Text

abbrev pub second : ℕ
second = 1000000000

-- what is taken off a lifetime, so that a token is renewed before its end
abbrev pub margin : ℕ
margin = 50 * second

-- `time.Now().Add(remaining - buffer)`: a duration is an int64
abbrev pub end_of : ℕ → ℕ → ℕ
end_of now n =
    let d = wrap (n * second + (2 ^ 64 - margin)) in if slt d 0 then now - (2 ^ 64 - d) else now + d

-- a token is stored only with a lifetime that is a number
unfoldable pub store : ℕ → Answer → Cache → Option Text × Cache
unfolding atoi
store now a c = if is_empty a.token then (none, c) else elim (atoi a.expires_in) [
  | none ↦ (none, c)
  | some n ↦ (some a.token, record { access_token = a.token; expire_at = end_of now n })
]

abbrev fetched : ℕ → Option Answer → Cache → Option Text × Cache
fetched now none c = (none, c)
fetched now (some a) c = store now a c

-- `getAccessToken` at the time `now`: the token, the cache, and whether the service was asked
unfoldable pub get_token : ℕ → Option Answer → Cache → Bool × (Option Text × Cache)
unfolding store
get_token now answer c =
    if is_fresh now c then (false, (some c.access_token, c)) else (true, fetched now answer c)

get_token_fresh :
    (now : ℕ) (answer : Option Answer) (c : Cache)
    → is_fresh now c ≡ true
    → get_token now answer c ≡ (false, (some c.access_token, c))
unfolding get_token
get_token_fresh now answer c h = rw h refl

get_token_stale :
    (now : ℕ) (answer : Option Answer) (c : Cache)
    → is_fresh now c ≡ false
    → get_token now answer c ≡ (true, fetched now answer c)
unfolding get_token
get_token_stale now answer c h = rw h refl

abbrev stored : ℕ → ℕ → Answer → Cache
stored now n a = record { access_token = a.token; expire_at = end_of now n }

store_eq :
    (now n : ℕ) (a : Answer) (c : Cache)
    → is_empty a.token ≡ false
    → atoi a.expires_in ≡ some n
    → store now a c ≡ (some a.token, stored now n a)
unfolding store
store_eq now n a c h e = rw (h, e) refl

-- A token that is not empty, and was fetched when the cache held no fresh one, with a lifetime of
-- more than fifty seconds and less than 9,000,000,000 seconds, is given out from the cache, without
-- asking the service again, until fifty seconds before its end.
pub get_token_cached :
    (now n : ℕ) (a : Answer) (c : Cache) (later : ℕ) (answer : Option Answer)
    → is_fresh now c ≡ false
    → is_empty a.token ≡ false
    → atoi a.expires_in ≡ some n
    → 50 < n
    → n < 9000000000
    → later + margin < now + n * second
    → let c' = (get_token now (some a) c).1.1 in
      get_token later answer c' ≡ (false, (some a.token, c'))
get_token_cached now n a c later answer stale h e lo hi q =
    subst (λ x. get_token later answer x ≡ (false, (some a.token, x))) (sym kept)
      (get_token_fresh later answer (stored now n a) (ground arith))
  where
    kept : (get_token now (some a) c).1.1 ≡ stored now n a
    kept =
        ap (λ (x : Bool × (Option Text × Cache)). x.1.1) (get_token_stale now (some a) c stale)
        ∙ ap (λ (x : Option Text × Cache). x.1) (store_eq now n a c h e)

-- After `InvalidateToken` the service is always asked.
pub get_token-invalidate :
    (now : ℕ) (answer : Option Answer) (c : Cache) → (get_token now answer (invalidate c)).0 ≡ true
unfolding get_token invalidate
get_token-invalidate now answer c = refl
