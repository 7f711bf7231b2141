-- ===== src/Config/Reorder.antt =====
-- The order in which `UpdateCore` goes through a map (lib/config/config.go): Go leaves it open.
use mathlib.Core.Path.{fun_ext}
use polarix_plus.Base.{
  Bool-cases, ◌>>=◌, Table, All, Text, codes, text_eq, text_eq_iff, ◌≡◌, refl, sym, ap, ◌∙◌, ◌≢◌,
  ◌⊎◌, inl, inr, true, false, Option, List, [], ◌∷◌,
}
use polarix_plus.Config.{AppConfig}
use polarix_plus.Config.Keys.{
  Decoder, apply_core_key, apply_all, Key, key_names, find_key, key_of, port, app_id, secret, proxy,
  database, admin_password, protocol, intents, global_markdown, markdown_verify_image, retry_when,
  upload_threshold, log_level, unknown,
}
use polarix_plus.Config.Change.{
  apply_key-Made, Change, target, put, set_port, set_app_id, set_secret, set_proxy, set_database,
  set_password, set_protocol, set_level, set_intents, set_markdown, set_verify, set_retry,
  set_threshold,
}

-- One map in two orders: entries of different keys are swapped.
pub data Reordered {J : Type 0} : Table J → Table J → Type 0 where
  done : (m : Table J) → Reordered m m
  entry : (p : Text × J) (m n : Table J) → Reordered m n → Reordered (p ∷ m) (p ∷ n)
  swapped :
      (p q : Text × J) (m : Table J) → text_eq p.0 q.0 ≡ false → Reordered (p ∷ q ∷ m) (q ∷ p ∷ m)
  via : (l m n : Table J) → Reordered l m → Reordered m n → Reordered l n

-- Every key but the unknown ones has one name.
abbrev pub name_of : Key → Text
name_of port = codes "port"
name_of app_id = codes "appid"
name_of secret = codes "secret"
name_of proxy = codes "proxy"
name_of database = codes "database"
name_of admin_password = codes "admin_password"
name_of protocol = codes "protocol"
name_of intents = codes "intents"
name_of global_markdown = codes "global_markdown"
name_of markdown_verify_image = codes "markdown_verify_image"
name_of retry_when = codes "retry_when"
name_of upload_threshold = codes "upload_threshold"
name_of log_level = codes "log_level"
name_of unknown = []

abbrev Named : Text × Key → Type 0
Named (name, k) = name ≡ name_of k

find_key_name :
    (key : Text) (ks : List (Text × Key))
    → All Named ks
    → (find_key key ks ≡ unknown) ⊎ (key ≡ name_of (find_key key ks))
unfolding find_key
find_key_name key [] h = inl refl
find_key_name key ((name, k) ∷ ks) h = elim (Bool-cases (text_eq key name)) [
  | inl e ↦ inr (rw e ((text_eq_iff key name).0 e ∙ h.0))
  | inr e ↦ rw e (find_key_name key ks h.1)
]

pub key_of_name : (key : Text) → (key_of key ≡ unknown) ⊎ (key ≡ name_of (key_of key))
unfolding key_of
key_of_name key = find_key_name key key_names (
  refl,
  (
    refl,
    (refl, (refl, (refl, (refl, (refl, (refl, (refl, (refl, (refl, (refl, (refl, tt))))))))))),
  ),
)

-- Different keys are different parts of the configuration, or not known.
key_of_ne : (p q : Text) → text_eq p q ≡ false → (key_of p ≡ unknown) ⊎ (key_of p ≢ key_of q)
key_of_ne p q h = elim (key_of_name p) [
  | inl e ↦ inl e
  | inr e ↦ elim (key_of_name q) [
    | inl f ↦
        elim (key_of p) as (λ k. key_of p ≡ k → (key_of p ≡ unknown) ⊎ (key_of p ≢ key_of q)) [
          | unknown ↦ λ g. inl g
          | _ ↦ λ g. inr (cc)
        ]
          refl
    | inr f ↦ inr λ g. absurd (true_false ((text_eq_iff p q).1 (e ∙ (ap name_of g ∙ sym f))))
  ]
]
  where
    true_false : text_eq p q ≡ true → ⊥
    true_false t = cc

target_known : (c : Change) → target c ≢ unknown
target_known (set_port v) h = cc
target_known c h = cc

module _ {V : Type 0} where
  put_comm :
      (a b : Change) (cfg : AppConfig V)
      → target a ≢ target b
      → put a (put b cfg) ≡ put b (put a cfg)
  unfolding put
  put_comm (set_port v) (set_port w) cfg h = absurd (h refl)
  put_comm (set_app_id v) (set_app_id w) cfg h = absurd (h refl)
  put_comm (set_secret v) (set_secret w) cfg h = absurd (h refl)
  put_comm (set_proxy v) (set_proxy w) cfg h = absurd (h refl)
  put_comm (set_database v) (set_database w) cfg h = absurd (h refl)
  put_comm (set_password v) (set_password w) cfg h = absurd (h refl)
  put_comm (set_protocol v) (set_protocol w) cfg h = absurd (h refl)
  put_comm (set_level v) (set_level w) cfg h = absurd (h refl)
  put_comm (set_intents v) (set_intents w) cfg h = absurd (h refl)
  put_comm (set_markdown v) (set_markdown w) cfg h = absurd (h refl)
  put_comm (set_verify v) (set_verify w) cfg h = absurd (h refl)
  put_comm (set_retry v) (set_retry w) cfg h = absurd (h refl)
  put_comm (set_threshold v) (set_threshold w) cfg h = absurd (h refl)
  put_comm a b cfg h = refl

  swap_keys :
      {J : Type 0} (json : Decoder J) (p q : Text × J) (m : Table J) (cfg : AppConfig V)
      → text_eq p.0 q.0 ≡ false
      → apply_all json (p ∷ q ∷ m) cfg ≡ apply_all json (q ∷ p ∷ m) cfg
  unfolding apply_all apply_core_key
  swap_keys json (p, x) (q, y) m cfg h = elim (apply_key-Made json (key_of p) x) [
    | inl bad ↦ elim (apply_key-Made json (key_of q) y) [
      | inl bad' ↦ rw (bad cfg, bad' cfg) refl
      | inr (b, _, _, made) ↦ rw (bad cfg, made cfg) (sym (rw (bad (put b cfg)) refl))
    ]
    | inr (a, _, e, made) ↦ elim (apply_key-Made json (key_of q) y) [
      | inl bad' ↦ rw (bad' cfg, made cfg) (rw (bad' (put a cfg)) refl)
      | inr (b, _, f, made') ↦
          rw (made cfg, made' cfg)
            (rw (made (put b cfg), made' (put a cfg))
              (ap (apply_all json m) (put_comm b a cfg (apart a b e f))))
    ]
  ]
    where
      apart : (a b : Change) → target a ≡ key_of p → target b ≡ key_of q → target b ≢ target a
      apart a b e f g = elim (key_of_ne p q h) [
        | inl u ↦ target_known a (e ∙ u)
        | inr ne ↦ ne (sym e ∙ (sym g ∙ f))
      ]

  -- `UpdateCore` does not depend on the order in which Go hands out the entries of its map: any two
  -- orders give the same configuration, or are both refused.
  pub apply_all-Reordered :
      {J : Type 0} (json : Decoder J) {m n : Table J} (cfg : AppConfig V)
      → Reordered m n
      → apply_all json m cfg ≡ apply_all json n cfg
  unfolding apply_all
  apply_all-Reordered json cfg (done m) = refl
  apply_all-Reordered json cfg (entry p m n r) =
      ap (λ (f : AppConfig V → Option (AppConfig V)). apply_core_key json cfg p.0 p.1 >>= f)
        (fun_ext λ c. apply_all-Reordered json c r)
  apply_all-Reordered json cfg (swapped p q m h) = swap_keys json p q m cfg h
  apply_all-Reordered json cfg (via l m n r t) =
      apply_all-Reordered json cfg r ∙ apply_all-Reordered json cfg t
