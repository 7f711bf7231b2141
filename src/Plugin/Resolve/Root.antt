-- ===== src/Plugin/Resolve/Root.antt =====
-- The root command: what a first word that is matched has to do with the command.
use polarix_plus.Base.{
  ltb, leb, ◌>>=◌, >>=-eq-some, guard-eq-some, need-eq-some, some_inj, or_try-eq-some, lookup,
  length, Text, text_eq_refl, has_prefix, has_prefix-split, has_text, ◌<◌, ◌≡◌, ap, ◌∙◌, inl, inr,
  Bool, true, false, not, ◌&&◌, ◌||◌, Option, none, some, List, [], ◌∷◌, ◌++◌, arith,
}
use polarix_plus.Plugin.{Command, Index, strip}
use polarix_plus.Plugin.Resolve.{
  strip_symbol, strip_any, has_symbol, named, match_stripped, match_name, last_below, glued_at,
  glued,
}

-- a token is a prefix symbol and the text behind it, which is not empty
pub record IsMarked (ps : List Text) (token rest : Text) : Type 0 where
  pub symbol : Text
  pub listed : has_text symbol ps ≡ true
  pub whole : token ≡ symbol ++ rest
  pub more : length symbol < length token

strip-IsMarked :
    (ps : List Text) (p token : Text) {rest : Text}
    → has_text p ps ≡ true
    → strip p token ≡ some rest
    → IsMarked ps token rest
strip-IsMarked ps p token h e =
    let (guard, last) = need-eq-some (has_prefix p token && ltb (length p) (length token)) _ e in
    record {
      symbol = p;
      listed = h;
      whole = has_prefix-split p token (ground arith) ∙ ap (λ l. p ++ l) (some_inj last);
      more = ground arith;
    }

IsMarked-more :
    (p : Text) (ps : List Text) {token rest : Text}
    → IsMarked ps token rest
    → IsMarked (p ∷ ps) token rest
IsMarked-more p ps m = record {
  symbol = m.symbol;
  listed = ground (arith, m.listed);
  whole = m.whole;
  more = m.more;
}

strip_symbol-IsMarked :
    (p : Text) (ps : List Text) (token : Text) {rest : Text}
    → strip_symbol p token ≡ some rest
    → IsMarked (p ∷ ps) token rest
unfolding strip_symbol
strip_symbol-IsMarked [] ps token e = cc
strip_symbol-IsMarked (c ∷ p) ps token e =
    strip-IsMarked ((c ∷ p) ∷ ps) (c ∷ p) token (ground (arith, text_eq_refl (c ∷ p))) e

pub strip_any-IsMarked :
    (ps : List Text) (token : Text) {rest : Text}
    → strip_any ps token ≡ some rest
    → IsMarked ps token rest
unfolding strip_any
strip_any-IsMarked [] token e = cc
strip_any-IsMarked (p ∷ ps) token e = elim (or_try-eq-some (strip_symbol p token) _ e) [
  | inl q ↦ strip_symbol-IsMarked p ps token q
  | inr q ↦ IsMarked-more p ps (strip_any-IsMarked ps token q)
]

-- What a command that a word names has to do with the word.
pub data Names (ix : Index) (ps : List Text) (token : Text) (c : Command) : Type 0 where
  by_itself : named ix token ≡ some c → Names ix ps token c
  by_symbol : (rest : Text) → IsMarked ps token rest → named ix rest ≡ some c → Names ix ps token c

match_stripped-Names :
    (ix : Index) (ps : List Text) (token : Text) {c : Command}
    → match_stripped ix ps token ≡ some c
    → (rest : Text) × IsMarked ps token rest × (named ix rest ≡ some c)
unfolding match_stripped
match_stripped-Names ix [] token e = cc
match_stripped-Names ix (p ∷ ps) token e =
    elim (or_try-eq-some (strip_symbol p token >>= λ (rest : Text). named ix rest) _ e) [
      | inl q ↦
          let (rest, marked, found) = >>=-eq-some (strip_symbol p token) _ q in
          (rest, strip_symbol-IsMarked p ps token marked, found)
      | inr q ↦
          let (rest, marked, found) = match_stripped-Names ix ps token q in
          (rest, IsMarked-more p ps marked, found)
    ]

-- If a word matches a command, it is a name or an alias of the command, or one of the prefix symbols
-- and a name or an alias; and where bare words are not allowed it carries a symbol.
pub match_name-Names :
    (ix : Index) (ps : List Text) (token : Text) (bare : Bool) {c : Command}
    → match_name ix ps token bare ≡ some c
    → Names ix ps token c × (bare ≡ false → has_symbol ps token ≡ true)
unfolding match_name
match_name-Names ix ps token bare h =
    let (guard, rest) = guard-eq-some (not bare && not (has_symbol ps token)) _ h in
    (
      elim (or_try-eq-some (named ix token) _ rest) [
        | inl q ↦ by_itself q
        | inr q ↦
            let (tail, marked, found) = match_stripped-Names ix ps token q in
            by_symbol tail marked found
      ],
      λ e. ground arith,
    )

glued_at_sound :
    (ix : Index) (name : Text) (o : Option Text) {c : Command} {tail : Text}
    → glued_at ix name o ≡ some (c, tail)
    → (cand : Text) × (lookup cand ix.commands ≡ some c)
      × (name ≡ cand ++ tail)
      × (length cand < length name)
unfolding glued_at
glued_at_sound ix name none h = cc
glued_at_sound ix name (some cand) h =
    let (guard, rest) =
      guard-eq-some (not (has_prefix cand name) || leb (length name) (length cand)) _ h in
    let (d, found, last) = >>=-eq-some (lookup cand ix.commands) _ rest in
    (
      cand,
      found ∙ ap (λ (e : Command × Text). some e.0) (some_inj last),
      has_prefix-split cand name (ground arith)
          ∙ ap (λ (e : Command × Text). cand ++ e.1) (some_inj last),
      ground arith,
    )

-- If a word is split into a command and what is glued to it, the word is a prefix symbol, the
-- command's name and the rest, and the rest is not empty.
pub glued_sound :
    (ix : Index) (ps : List Text) (token : Text) {c : Command} {tail : Text}
    → glued ix ps token ≡ some (c, tail)
    → (name : Text) × IsMarked ps token name
      × ((cand : Text) × (lookup cand ix.commands ≡ some c)
          × (name ≡ cand ++ tail)
          × (length cand < length name))
unfolding glued
glued_sound ix ps token h =
    let (name, marked, rest) = >>=-eq-some (strip_any ps token) _ h in
    (
      name,
      strip_any-IsMarked ps token marked,
      glued_at_sound ix name (last_below ix.names name) rest,
    )
