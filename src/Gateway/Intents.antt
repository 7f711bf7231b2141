-- ===== src/Gateway/Intents.antt =====
-- The mask of the events to subscribe to (lib/gateway/intents.go). Each flag is one bit, so that
-- `bits |= flag` adds it unless it is there.
use polarix_plus.Base.{
  ◌==◌, if◌then◌else◌, Bool-cases, any, Text, codes, text_eq, ℕ, ◌+◌, ◌/◌, ◌%◌, ◌^◌, ◌≡◌, refl, ◌∙◌,
  inl, inr, Bool, true, false, ◌||◌, Option, none, some, List, [], ◌∷◌, arith,
}

abbrev pub intent_group_members : ℕ
intent_group_members = 2 ^ 24

abbrev pub intent_user_message : ℕ
intent_user_message = 2 ^ 25

abbrev pub intent_interactions : ℕ
intent_interactions = 2 ^ 26

abbrev pub intent_message_audit : ℕ
intent_message_audit = 2 ^ 27

abbrev pub default_intents : ℕ
default_intents = 2 ^ 25 + 2 ^ 26 + 2 ^ 24 + 2 ^ 27

pub data Intent : Type 0 where
  user_message interactions group_members message_audit : Intent

abbrev pub flag : Intent → ℕ
flag user_message = intent_user_message
flag interactions = intent_interactions
flag group_members = intent_group_members
flag message_audit = intent_message_audit

-- `eventIntentMap`
unfoldable pub intent_of : Text → Option Intent
unfolding text_eq
intent_of e =
    if text_eq e (codes "GROUP_AT_MESSAGE_CREATE")
    then some user_message
    else if text_eq e (codes "GROUP_MESSAGE_CREATE")
    then some user_message
    else if text_eq e (codes "C2C_MESSAGE_CREATE")
    then some user_message
    else if text_eq e (codes "INTERACTION_CREATE")
    then some interactions
    else if text_eq e (codes "GROUP_MEMBER_ADD")
    then some group_members
    else if text_eq e (codes "GROUP_MEMBER_REMOVE")
    then some group_members
    else if text_eq e (codes "MESSAGE_AUDIT_PASS")
    then some message_audit
    else if text_eq e (codes "MESSAGE_AUDIT_REJECT")
    then some message_audit
    else none

unfoldable pub has_flag : ℕ → Intent → Bool
has_flag bits user_message = (bits / 2 ^ 25) % 2 == 1
has_flag bits interactions = (bits / 2 ^ 26) % 2 == 1
has_flag bits group_members = (bits / 2 ^ 24) % 2 == 1
has_flag bits message_audit = (bits / 2 ^ 27) % 2 == 1

-- `bits |= eventIntentMap[e]`
unfoldable pub or_intent : ℕ → Option Intent → ℕ
unfolding has_flag
or_intent bits none = bits
or_intent bits (some i) = if has_flag bits i then bits else bits + flag i

unfoldable pub or_events : ℕ → List Text → ℕ
unfolding or_intent intent_of
or_events bits [] = bits
or_events bits (e ∷ es) = or_events (or_intent bits (intent_of e)) es

unfoldable pub intents : List Text → ℕ
unfolding or_events
intents events = let bits = or_events 0 events in if bits == 0 then default_intents else bits

abbrev same : Intent → Intent → Bool
same user_message user_message = true
same interactions interactions = true
same group_members group_members = true
same message_audit message_audit = true
same _ _ = false

abbrev names : Intent → Option Intent → Bool
names i none = false
names i (some j) = same j i

-- whether one of the events belongs to an intent
abbrev pub asks : Intent → List Text → Bool
asks i = any (λ e. names i (intent_of e))

or_intent_flag :
    (bits : ℕ) (o : Option Intent) (i : Intent)
    → has_flag (or_intent bits o) i ≡ (has_flag bits i || names i o)
unfolding or_intent has_flag
or_intent_flag bits none i = ground arith
or_intent_flag bits (some user_message) user_message = ground arith
or_intent_flag bits (some user_message) interactions = ground arith
or_intent_flag bits (some user_message) group_members = ground arith
or_intent_flag bits (some user_message) message_audit = ground arith
or_intent_flag bits (some interactions) user_message = ground arith
or_intent_flag bits (some interactions) interactions = ground arith
or_intent_flag bits (some interactions) group_members = ground arith
or_intent_flag bits (some interactions) message_audit = ground arith
or_intent_flag bits (some group_members) user_message = ground arith
or_intent_flag bits (some group_members) interactions = ground arith
or_intent_flag bits (some group_members) group_members = ground arith
or_intent_flag bits (some group_members) message_audit = ground arith
or_intent_flag bits (some message_audit) user_message = ground arith
or_intent_flag bits (some message_audit) interactions = ground arith
or_intent_flag bits (some message_audit) group_members = ground arith
or_intent_flag bits (some message_audit) message_audit = ground arith

or_events_flag :
    (bits : ℕ) (es : List Text) (i : Intent)
    → has_flag (or_events bits es) i ≡ (has_flag bits i || asks i es)
unfolding or_events
or_events_flag bits [] i = ground arith
or_events_flag bits (e ∷ es) i =
    ground (
      arith,
      or_events_flag (or_intent bits (intent_of e)) es i,
      or_intent_flag bits (intent_of e) i,
    )

zero_flag : (i : Intent) → has_flag 0 i ≡ false
unfolding has_flag
zero_flag user_message = refl
zero_flag interactions = refl
zero_flag group_members = refl
zero_flag message_audit = refl

default_flag : (i : Intent) → has_flag default_intents i ≡ true
unfolding has_flag
default_flag user_message = refl
default_flag interactions = refl
default_flag group_members = refl
default_flag message_audit = refl

-- The mask has the bit of an intent when one of the events belongs to it, and has all four when no
-- event belongs to any.
pub intents_flag :
    (events : List Text) (i : Intent)
    → has_flag (intents events) i ≡ (asks i events || (or_events 0 events == 0))
unfolding intents
intents_flag events i = elim (Bool-cases (or_events 0 events == 0)) [
  | inl e ↦ rw e (default_flag i ∙ ground arith)
  | inr e ↦ rw e (or_events_flag 0 events i ∙ ground (arith, zero_flag i))
]
