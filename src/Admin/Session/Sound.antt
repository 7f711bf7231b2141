-- ===== src/Admin/Session/Sound.antt =====
-- Who gets past `requireAuth` (lib/admin).
use polarix_plus.Base.{
  ltb, if◌then◌else◌, if_false, if_true, Bool-cases, some_inj, lookup, insert, delete,
  lookup-insert, lookup-delete, lookup-insert_self, Text, text_eq, text_eq_refl, text_eq_iff,
  is_empty, ℕ, ◌+◌, ◌≤◌, ◌≡◌, refl, sym, ◌∙◌, ◌≢◌, ◌⊎◌, inl, inr, Bool, true, false, Option, none,
  some, List, [], ◌∷◌, arith,
}
use polarix_plus.Admin.Session.{
  unauthorized, create, login_with, Session, Sessions, ttl_of, Net, valid_session, valid,
  handle_login, handle_logout, with_cookie, require_auth,
}

-- What the server is asked, each with the password that is in force then.
pub data Event : Type 0 where
  login : Text → Text → Text → ℕ → Option (Text × Bool) → Event
  logout : Option Text → Event
  request : Text → Text → Option Text → ℕ → Event

module _ (sha256 : Text → Text) (net : Net) where
  unfoldable pub step : Event → Sessions → Sessions
  unfolding handle_login handle_logout require_auth
  step (login password remote token now input) s =
      (handle_login sha256 net password remote token now s input).1
  step (logout cookie) s = handle_logout sha256 cookie s
  step (request password remote cookie now) s =
      (require_auth sha256 net password remote cookie now s).1

  -- the sessions after some events, the newest first
  unfoldable pub run : List Event → Sessions
  unfolding step
  run [] = []
  run (e ∷ es) = step e (run es)

  -- A login with the right password, which is not empty, made this session.
  abbrev pub Grants : Event → Text → Session → Type 0
  Grants (login password remote token now (some (input, remember))) t s =
      (is_empty password ≡ false)
      × (input ≡ password)
      × (token ≡ t)
      × (s ≡ record { pw_hash = sha256 password; expire = now + ttl_of remember })
  Grants _ t s = ⊥

  abbrev pub Spares : Event → Text → Type 0
  Spares (logout (some token)) t = token ≢ t
  Spares _ t = Unit {0}

  -- The session was made by a login, and not logged out since.
  abbrev pub Logged : List Event → Text → Session → Type 0
  Logged [] t s = ⊥
  Logged (e ∷ es) t s = Grants e t s ⊎ (Spares e t × Logged es t s)

  delete_keeps :
      (k t : Text) (tab : Sessions) (s : Session)
      → lookup t (delete k tab) ≡ some s
      → (k ≢ t) × (lookup t tab ≡ some s)
  delete_keeps k t tab s h = elim (Bool-cases (text_eq k t)) [
    | inl e ↦ absurd (none_some (sym (lookup-delete k t tab ∙ if_true _ none _ e) ∙ h))
    | inr e ↦ (
      (λ q. absurd (true_false (sym ((text_eq_iff k t).1 q) ∙ e))),
      sym (lookup-delete k t tab ∙ if_false _ none _ e) ∙ h,
    )
  ]
    where
      none_some : ◌≡◌ {A = Option Session} none (some s) → ⊥
      none_some e = cc

      true_false : true ≡ false → ⊥
      true_false e = cc

  insert_makes :
      (k t : Text) (v : Session) (tab : Sessions) (s : Session)
      → lookup t (insert k v tab) ≡ some s
      → ((k ≡ t) × (s ≡ v)) ⊎ (lookup t tab ≡ some s)
  insert_makes k t v tab s h = elim (Bool-cases (text_eq k t)) [
    | inl e ↦ inl (
      (text_eq_iff k t).0 e,
      sym (some_inj (sym (lookup-insert k t v tab ∙ if_true _ (some v) _ e) ∙ h)),
    )
    | inr e ↦ inr (sym (lookup-insert k t v tab ∙ if_false _ (some v) _ e) ∙ h)
  ]

  valid_keeps :
      (token password : Text) (now : ℕ) (t : Text) (tab : Sessions) (s : Session)
      → lookup t (valid sha256 token password now tab).1 ≡ some s
      → lookup t tab ≡ some s
  unfolding valid
  valid_keeps token password now t tab s h = found (lookup token tab) h
    where
      found :
          (o : Option Session)
          → lookup t (valid_session sha256 token password now tab o).1 ≡ some s
          → lookup t tab ≡ some s
      found none h = h
      found (some sess) h = elim (Bool-cases (ltb sess.expire now)) [
        | inl e ↦ (delete_keeps token t tab s (rw e at h)).1
        | inr e ↦ rw e at h
      ]

  Made : Event → Text → Sessions → Session → Type 0
  Made e t tab s = Grants e t s ⊎ (Spares e t × (lookup t tab ≡ some s))

  step-Made :
      (e : Event) (t : Text) (tab : Sessions) (s : Session)
      → lookup t (step e tab) ≡ some s
      → Made e t tab s
  unfolding step Made handle_login login_with handle_logout require_auth
  step-Made (login password remote token now none) t tab s h = inr (tt, h)
  step-Made (login password remote token now (some (input, remember))) t tab s h =
      elim (Bool-cases (is_empty password)) [
        | inl e ↦ inr (tt, rw (e, step, handle_login, login_with) at h)
        | inr e ↦ elim (Bool-cases (text_eq input password)) [
          | inr f ↦ inr (tt, rw (e, f, step, handle_login, login_with) at h)
          | inl f ↦
              elim (insert_makes token t _ tab s (rw (e, f, step, handle_login, login_with) at h)) [
                | inl (k, v) ↦ inl (e, (text_eq_iff input password).0 f, k, v)
                | inr old ↦ inr (tt, old)
              ]
        ]
      ]
  step-Made (logout none) t tab s h = inr (tt, h)
  step-Made (logout (some token)) t tab s h =
      let (ne, old) = delete_keeps token t tab s h in inr (ne, old)
  step-Made (request password remote cookie now) t tab s h = elim (Bool-cases (is_empty password)) [
    | inl e ↦ inr (tt, rw (e, step, require_auth) at h)
    | inr e ↦ inr (tt, with cookie (rw (e, step, require_auth) at h))
  ]
    where
      with :
          (c : Option Text)
          → lookup t (with_cookie sha256 password c now tab).1 ≡ some s
          → lookup t tab ≡ some s
      with none h = h
      with (some token) h = valid_keeps token password now t tab s h

  run-Logged :
      (es : List Event) (t : Text) (s : Session) → lookup t (run es) ≡ some s → Logged es t s
  unfolding run Made
  run-Logged [] t s h = cc
  run-Logged (e ∷ es) t s h = elim (step-Made e t (run es) s h) [
    | inl made ↦ inl made
    | inr (spared, old) ↦ inr (spared, run-Logged es t s old)
  ]

  -- Where a password is set, only a request passes whose cookie holds a token that was given out by
  -- a login with the right password of that time, was not logged out since, has not expired, and
  -- whose password has the hash of the one in force now.
  pub require_auth-Logged :
      (es : List Event) (password remote : Text) (cookie : Option Text) (now : ℕ)
      → is_empty password ≡ false
      → (require_auth sha256 net password remote cookie now (run es)).0 ≡ none
      → (token : Text) × (s : Session) × (cookie ≡ some token)
        × Logged es token s
        × (s.pw_hash ≡ sha256 password)
        × (now ≤ s.expire)
  unfolding require_auth with_cookie valid
  require_auth-Logged es password remote cookie now full pass = on_cookie cookie (rw full at pass)
    where
      Passed : Option Text → Type 0
      Passed c =
          (token : Text) × (s : Session) × (c ≡ some token)
          × Logged es token s
          × (s.pw_hash ≡ sha256 password)
          × (now ≤ s.expire)

      passes : Bool → Option ℕ
      passes good = if good then none else some unauthorized

      good_of : (good : Bool) → passes good ≡ none → good ≡ true
      good_of true h = refl
      good_of false h = cc

      found :
          (token : Text) (o : Option Session)
          → lookup token (run es) ≡ o
          → (valid_session sha256 token password now (run es) o).0 ≡ true
          → Passed (some token)
      found token none e h = cc
      found token (some s) e h = elim (Bool-cases (ltb s.expire now)) [
        | inl late ↦ absurd (false_true (rw late at h))
        | inr fresh ↦ (
          token,
          s,
          refl,
          run-Logged es token s e,
          (text_eq_iff s.pw_hash (sha256 password)).0 (rw fresh at h),
          ground (arith, fresh),
        )
      ]
        where
          false_true : false ≡ true → ⊥
          false_true e = cc

      on_cookie :
          (c : Option Text) → (with_cookie sha256 password c now (run es)).0 ≡ none → Passed c
      on_cookie none h = cc
      on_cookie (some token) h = found token (lookup token (run es)) refl (good_of _ h)

  -- After a login with the right password, which is not empty, the token that was given out lets
  -- each request pass that comes before the session expires, while the password stays the same and
  -- nothing else is done.
  pub require_auth-handle_login :
      (es : List Event) (password remote token : Text) (remember : Bool) (now later : ℕ)
      → is_empty password ≡ false
      → later ≤ now + ttl_of remember
      → (require_auth sha256 net password remote
          (some token)
          later
          (handle_login sha256 net password remote token now
            (run es)
            (some (password, remember))).1).0
        ≡ none
  unfolding require_auth with_cookie valid valid_session handle_login login_with create
  require_auth-handle_login es password remote token remember now later full early = ground (
    arith,
    text_eq_refl password,
    text_eq_refl (sha256 password),
    lookup-insert_self token (record { pw_hash = sha256 password; expire = now + ttl_of remember })
        (run es),
  )
