-- ===== src/Logx.antt =====
-- The in-process log (lib/logx): entries, levels, the filter of the admin page, and its parts.
pub mod Ring
pub mod Hub
mod Tests
use polarix_plus.Base.{
  ltb, if◌then◌else◌, trim_space, to_lower, index, is_some, Text, codes, text_eq, is_empty, ℕ, Bool,
  true, false, not, ◌&&◌, ◌||◌, Option, none, some, map,
}

pub record Entry : Type 0 where
  pub id : ℕ
  pub time : ℕ
  pub level : Text
  pub scope : Text
  pub msg : Text

-- slog's levels -4, 0, 4, 8, moved up by 4
abbrev pub level_debug : ℕ
level_debug = 0

abbrev pub level_info : ℕ
level_info = 4

abbrev pub level_warn : ℕ
level_warn = 8

abbrev pub level_error : ℕ
level_error = 12

-- `parseLevel`: the `switch` on the trimmed, lower-case name
level_named : Text → Option ℕ
unfolding text_eq
level_named s =
    if text_eq s (codes "debug")
    then some level_debug
    else if is_empty s || text_eq s (codes "info")
    then some level_info
    else if text_eq s (codes "warn") || text_eq s (codes "warning")
    then some level_warn
    else if text_eq s (codes "error")
    then some level_error
    else none

unfoldable pub parse_level : Text → Option ℕ
unfolding level_named trim_space
parse_level s = level_named (map to_lower (trim_space s))

pub record Filter : Type 0 where
  pub min_level : Text
  pub scope : Text
  pub text : Text

-- a level that does not parse never hides an entry
abbrev below_level : Option ℕ → Option ℕ → Bool
below_level (some low) (some lv) = ltb lv low
below_level _ _ = false

unfoldable pub matches : Filter → Entry → Bool
unfolding parse_level text_eq index
matches f e =
    if not (is_empty f.min_level) && below_level (parse_level f.min_level) (parse_level e.level)
    then false
    else if not (is_empty f.scope) && not (text_eq f.scope e.scope)
    then false
    else if not (is_empty f.text) && not (is_some (index f.text e.msg))
    then false
    else true
