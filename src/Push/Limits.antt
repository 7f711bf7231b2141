-- ===== src/Push/Limits.antt =====
-- The limit on failed attempts (`pushRateLimited` in plugins/push/push.go).
use mathlib.Core.Path.{subst}
use polarix_plus.Base.{
  ltb, if◌then◌else◌, if_true, some_inj, trim_space, to_lower, Text, codes, is_empty, has_text, ℕ,
  ◌+◌, ◌-◌, ◌≤◌, ◌≡◌, refl, sym, Bool, true, false, not, Option, none, some, List, [], ◌∷◌, map,
  arith,
}
use polarix_plus.Storage.Sql.{Database}
use polarix_plus.Storage.{Storage, global_store}
use polarix_plus.Storage.Has.{has_value}
use polarix_plus.Push.{
  enabled_key, Stored, PushRequest, Http, Payload, Sent, build_payload, Push, deliver, send_push,
  key_of_request, verify_push_key, with_key, with_body, http_handle, rate_limit_window,
  rate_limit_max, Rate, is_over, push_rate_limited,
}

-- the attempts that are not limited, of those at the times given
abbrev pub passed : List ℕ → Rate → ℕ
passed [] r = 0
passed (now ∷ times) r =
    let (limited, r') = push_rate_limited now r in (if limited then 0 else 1) + passed times r'

-- All times lie in the window that began at `start`.
abbrev pub Within : ℕ → List ℕ → Type 0
Within start [] = Unit
Within start (now ∷ times) = (now - start ≤ rate_limit_window) × Within start times

passed-count :
    (start : ℕ) (times : List ℕ) (count : ℕ)
    → Within start times
    → passed times (record { count = count; start = some start }) ≤ rate_limit_max - count
unfolding push_rate_limited
passed-count start [] count w = omega arith
passed-count start (now ∷ times) count w = ground (arith, passed-count start times (count + 1))

-- Of a failed attempt that opens a new window, because there was none or the last one is over, and
-- the failed attempts of the minute that begins with it, at most twenty are answered 401; the others
-- are answered 429. A minute that begins within a window is not bounded by this.
pub passed_bound :
    (first : ℕ) (times : List ℕ) (r : Rate)
    → is_over r.start first ≡ true
    → Within first times
    → passed (first ∷ times) r ≤ rate_limit_max
unfolding push_rate_limited
passed_bound first times r over w =
    subst
      (λ (v : Rate).
        (if ltb rate_limit_max (v.count + 1) then 0 else 1)
          + passed times (record { count = v.count + 1; start = v.start })
        ≤ rate_limit_max)
      (sym (if_true (is_over r.start first) (record { count = 0; start = some first }) r over))
      (omega (arith, passed-count first times 1 w))

status_if :
    {A : Type 0} (b : Bool) (x y x' y' : ℕ × A)
    → x.0 ≡ x'.0
    → y.0 ≡ y'.0
    → (if b then x else y).0 ≡ (if b then x' else y').0
status_if true x y x' y' e f = e
status_if false x y x' y' e f = f

module _ {S : Type 0} (db : Database S) (encode : Stored → Option Text)
    (decode : Text → Option Stored) (api : Sent → Bool) (now : ℕ) (h : Http) (p : Push S)
    (r : Rate) where
  send_push-rate :
      (req : PushRequest) (o : Option Bool) (g : Storage S)
      → (send_push api h req o (record p { storage = g })).0
        ≡ (send_push api h req o (record p { storage = g; rate = r })).0
  unfolding send_push deliver
  send_push-rate req none g = refl
  send_push-rate req (some false) g = refl
  send_push-rate req (some true) g =
      on_payload (build_payload (map to_lower req.kind) (trim_space req.content))
    where
      on_deliver :
          (o : Option Payload)
          → (deliver api h o (record p { storage = g })).0
            ≡ (deliver api h o (record p { storage = g; rate = r })).0
      on_deliver none = refl
      on_deliver (some payload) = refl

      on_payload :
          (o : Option Payload)
          → (if not p.has_client
              then (500, record p { storage = g })
              else if is_empty (trim_space req.content)
              then (400, record p { storage = g })
              else deliver api h o (record p { storage = g })).0
            ≡ (if not p.has_client
                then (500, record p { storage = g; rate = r })
                else if is_empty (trim_space req.content)
                then (400, record p { storage = g; rate = r })
                else deliver api h o (record p { storage = g; rate = r })).0
      on_payload o =
          status_if (not p.has_client) _ _ _ _ refl
            (status_if (is_empty (trim_space req.content)) _ _ _ _ refl (on_deliver o))

  with_key-rate :
      (req : PushRequest) (v : Bool × Storage S)
      → v.0 ≡ true
      → (with_key db encode decode api now h req v p).0
        ≡ (with_key db encode decode api now h req v (record p { rate = r })).0
  unfolding with_key
  with_key-rate req (true, g) good =
      send_push-rate req
        (has_value db encode decode (some global_store) (enabled_key h.scope h.openid) g).0
        (has_value db encode decode (some global_store) (enabled_key h.scope h.openid) g).1
  with_key-rate req (false, g) good = cc

  -- A request with the right key is answered as if nobody had failed before: the limit never stops
  -- a guess that is right.
  pub http_handle-rate :
      (req : PushRequest)
      → h.body ≡ some req
      → (verify_push_key db encode decode h.openid (key_of_request h req) p.storage).0 ≡ true
      → (http_handle db encode decode api now h p).0
        ≡ (http_handle db encode decode api now h (record p { rate = r })).0
  unfolding http_handle with_body with_key
  http_handle-rate req body good =
      status_if (not (has_text h.scope (codes "group" ∷ codes "private" ∷ []))) _ _ _ _ refl
        (status_if (is_empty h.openid) _ _ _ _ refl (on_body h.body body))
    where
      on_body :
          (o : Option PushRequest)
          → o ≡ some req
          → (with_body db encode decode api now h o p).0
            ≡ (with_body db encode decode api now h o (record p { rate = r })).0
      on_body none e = cc
      on_body (some req') e =
          with_key-rate req'
            (verify_push_key db encode decode h.openid (key_of_request h req') p.storage)
            (subst
              (λ q.
                (verify_push_key db encode decode h.openid (key_of_request h q) p.storage).0 ≡ true)
              (sym (some_inj e)) good)
