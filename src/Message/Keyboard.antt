-- ===== src/Message/Keyboard.antt =====
-- Keyboards of buttons (lib/buttons/buttons.go, marshal.go). The bytes that encoding/json makes of a
-- valid keyboard are left out: the result is the keyboard with the data of its buttons.
use polarix_plus.Base.{
  ltb, ◌==◌, if◌then◌else◌, if_false, Bool-cases, ◌>>=◌, sle, length, get_elem?, any, all,
  length-append, All, update_at, length-update_at, Text, is_empty, ℕ, zero, suc, ◌+◌, ◌≤◌, ◌<◌, ◌≡◌,
  refl, ◌∙◌, ◌⊎◌, inl, inr, Bool, true, false, not, ◌&&◌, Option, none, some, List, [], ◌∷◌, ◌++◌,
  map, arith,
}

-- `ButtonAction` is an int
abbrev pub link : ℕ
link = 0

abbrev pub callback : ℕ
callback = 1

abbrev pub command : ℕ
command = 2

pub record Button : Type 0 where
  pub id : Text
  pub label : Text
  pub action : ℕ
  pub url : Text
  pub callback_data : Text
  pub msg : Text
  pub payload : Text  -- `JsonData.Data`

abbrev pub Keyboard : Type 0
Keyboard = List (List Button)

abbrev pub plain : Text → Text → Button
plain id label = record {
  id = id;
  label = label;
  action = link;
  url = [];
  callback_data = [];
  msg = [];
  payload = [];
}

-- `for len(k.Rows) != row+1 { append }`, when there are too few rows
unfoldable pub padded : ℕ → Keyboard → Keyboard
padded zero [] = [] ∷ []
padded zero (r ∷ rs) = r ∷ rs
padded (suc n) [] = [] ∷ padded n []
padded (suc n) (r ∷ rs) = r ∷ padded n rs

abbrev is_full : Option (List Button) → Bool
is_full none = false
is_full (some r) = length r == 5

abbrev at_end : Button → List Button → List Button
at_end b r = r ++ b ∷ []

-- `AppendButton`: whether it succeeds, and the keyboard. A negative row, which is refused like one
-- above 4, has no number of its own here.
unfoldable pub append_button : Button → ℕ → Keyboard → Bool × Keyboard
unfolding padded
append_button b row k =
    let k' = padded row k in
    if ltb 4 row
    then (false, k)
    else if is_full (get_elem? k' row)
    then (false, k')
    else (true, update_at row (at_end b) k')

-- `IsVaildActionType`: the first of its two tests is on the constant `Link`, and always holds
unfoldable pub is_valid_action : ℕ → Bool
is_valid_action a = sle a command

-- the checks on one button
unfoldable pub is_valid_button : Button → Bool
unfolding is_valid_action
is_valid_button b =
    if b.action == callback && is_empty b.callback_data
    then false
    else if b.action == command && is_empty b.msg
    then false
    else if b.action == link && is_empty b.url
    then false
    else is_valid_action b.action

-- `normalize` is the normalizer that the framework injects, or the identity
module _ (normalize : Text → Text) where
  unfoldable pub filled : Button → Button
  filled b = record b {
    payload =
        if b.action == callback
        then b.callback_data
        else if b.action == command
        then normalize b.msg
        else if b.action == link
        then b.url
        else [];
  }

  unfoldable pub fill_row : List Button → Option (List Button)
  unfolding filled is_valid_button
  fill_row [] = some []
  fill_row (b ∷ bs) =
      if not (is_valid_button b)
      then none
      else (fill_row bs >>= λ (r : List Button). some (filled b ∷ r))

  unfoldable pub fill_rows : Keyboard → Option Keyboard
  unfolding fill_row
  fill_rows [] = some []
  fill_rows (r ∷ rs) = do r' ← fill_row r; rs' ← fill_rows rs; some (r' ∷ rs')

  -- `GenerateJson`; no bytes are made of a keyboard without rows, here the empty one
  unfoldable pub generate : Keyboard → Option Keyboard
  unfolding fill_rows
  generate k =
      if length k == 0
      then some []
      else if ltb 5 (length k)
      then none
      else if any (λ r. ltb 5 (length r)) k
      then none
      else fill_rows k

-- What the platform takes: at most five rows of at most five buttons.
pub record IsBounded (k : Keyboard) : Type 0 where
  pub rows : length k ≤ 5
  pub buttons : All (λ r. length r ≤ 5) k

abbrev Short : Keyboard → Type 0
Short = All (λ r. length r ≤ 5)

padded-Short : (n : ℕ) (k : Keyboard) → Short k → Short (padded n k)
unfolding padded
padded-Short zero [] h = (omega arith, tt)
padded-Short zero (r ∷ rs) h = h
padded-Short (suc n) [] h = (omega arith, padded-Short n [] tt)
padded-Short (suc n) (r ∷ rs) h = (h.0, padded-Short n rs h.1)

length-padded :
    (n : ℕ) (k : Keyboard)
    → ((n < length k) × (length (padded n k) ≡ length k)) ⊎ (length (padded n k) ≡ n + 1)
unfolding padded
length-padded zero [] = inr (omega arith)
length-padded zero (r ∷ rs) = inl (omega arith, refl)
length-padded (suc n) [] = ground (arith, length-padded n [])
length-padded (suc n) (r ∷ rs) = ground (arith, length-padded n rs)

update_at-Short :
    (b : Button) (row : ℕ) (k : Keyboard)
    → is_full (get_elem? k row) ≡ false
    → Short k
    → Short (update_at row (at_end b) k)
update_at-Short b row [] f h = tt
update_at-Short b zero (r ∷ rs) f h = (omega (arith, length-append r (b ∷ []), short r f h.0), h.1)
  where
    short : (r : List Button) → (length r == 5) ≡ false → length r ≤ 5 → length r < 5
    short r f h = ground arith
update_at-Short b (suc row) (r ∷ rs) f h = (h.0, update_at-Short b row rs f h.1)

-- `AppendButton` keeps a keyboard within five rows of five buttons.
pub append_button-IsBounded :
    (b : Button) (row : ℕ) (k : Keyboard) → IsBounded k → IsBounded (append_button b row k).1
unfolding append_button
append_button-IsBounded b row k v = elim (Bool-cases (ltb 4 row)) [
  | inl e ↦ rw e v
  | inr e ↦
      let few : length (padded row k) ≤ 5 = ground (arith, length-padded row k, v.rows) in
      elim (Bool-cases (is_full (get_elem? (padded row k) row))) [
        | inl f ↦ rw (e, f) (record { rows = few; buttons = padded-Short row k v.buttons })
        | inr f ↦
            rw (e, f)
              (record {
                rows = omega (arith, length-update_at row (at_end b) (padded row k));
                buttons = update_at-Short b row (padded row k) f (padded-Short row k v.buttons);
              })
      ]
]

module _ (normalize : Text → Text) where
  fill_row_eq :
      (r : List Button)
      → fill_row normalize r
        ≡ (if all is_valid_button r then some (map (filled normalize) r) else none)
  unfolding fill_row
  fill_row_eq [] = refl
  fill_row_eq (b ∷ bs) = ground (arith, fill_row_eq bs)

  fill_rows_eq :
      (k : Keyboard)
      → fill_rows normalize k
        ≡ (if all (all is_valid_button) k then some (map (map (filled normalize)) k) else none)
  unfolding fill_rows
  fill_rows_eq [] = refl
  fill_rows_eq (r ∷ rs) = ground (arith, fill_row_eq r, fill_rows_eq rs)

  none_long : (k : Keyboard) → Short k → any (λ r. ltb 5 (length r)) k ≡ false
  none_long [] h = refl
  none_long (r ∷ rs) h = ground (arith, none_long rs h.1, h.0)

  -- A keyboard within the bounds is refused only when one of its buttons is not valid; otherwise each
  -- button gets its data.
  pub generate_bounded :
      (k : Keyboard)
      → IsBounded k
      → generate normalize k
        ≡ (if all (all is_valid_button) k then some (map (map (filled normalize)) k) else none)
  unfolding generate
  generate_bounded [] v = refl
  generate_bounded (r ∷ rs) v =
      if_false (length (r ∷ rs) == 0) _ _ (ground arith)
      ∙ (if_false (ltb 5 (length (r ∷ rs))) _ _ (ground (arith, v.rows))
          ∙ (if_false (any (λ r. ltb 5 (length r)) (r ∷ rs)) _ _ (none_long (r ∷ rs) v.buttons)
              ∙ fill_rows_eq (r ∷ rs)))
