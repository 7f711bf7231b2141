-- ===== src/Plugin/Access/Ids.antt =====
-- The IDs of an access rule are a set: sorted, trimmed, without blanks or repetitions.
use polarix_plus.Base.{
  any, trim_space, has_text-sort_texts, Text, text_eq, text_eq_iff, is_empty, has_text, ◌≡◌, refl,
  ◌∙◌, Bool, false, not, ◌&&◌, List, [], ◌∷◌, arith,
}
use polarix_plus.Plugin.Access.{clean_from, clean_ids}

-- whether an ID is the trim of one of the values
abbrev pub trimmed_in : Text → List Text → Bool
trimmed_in id = any (λ v. text_eq (trim_space v) id)

clean_from-has :
    (id : Text) (seen vs : List Text)
    → is_empty id ≡ false
    → has_text id (clean_from seen vs) ≡ (trimmed_in id vs && not (has_text id seen))
unfolding clean_from
clean_from-has id seen [] h = refl
clean_from-has id seen (v ∷ vs) h = ground (
  arith,
  clean_from-has id seen vs h,
  clean_from-has id (trim_space v ∷ seen) vs h,
  text_eq_iff (trim_space v) id,
)

-- A text that is not empty is among the cleaned IDs when it is one of the values, trimmed.
pub clean_ids-has :
    (id : Text) (values : List Text)
    → is_empty id ≡ false
    → has_text id (clean_ids values) ≡ trimmed_in id values
unfolding clean_ids
clean_ids-has id values h =
    has_text-sort_texts id (clean_from [] values) ∙ (clean_from-has id [] values h ∙ ground arith)
