-- ===== src/Api/Stream.antt =====
-- A message that is streamed in parts (`StreamSession` in lib/qqapi/stream.go). `net` is the platform:
-- the id that it answers to a message, or an error.
use mathlib.Core.Path.{subst}
use polarix_plus.Base.{
  if◌then◌else◌, length, All, Text, is_empty, ℕ, ◌+◌, ◌-◌, ◌%◌, ◌^◌, ◌<◌, ◌≡◌, refl, ◌∙◌, Bool,
  true, false, Option, none, some, List, [], ◌∷◌, arith,
}

pub record StreamMessage : Type 0 where
  pub done : Bool  -- the state: generating, or done
  pub content : Text
  pub stream_id : Text
  pub msg_seq : ℕ  -- a uint8
  pub index : ℕ  -- a uint32

pub record Session : Type 0 where
  pub stream_id : Text
  pub index : ℕ  -- a uint32

unfoldable pub new_session : Session
new_session = record { stream_id = []; index = 0 }

abbrev message_of : Text → Bool → Session → StreamMessage
message_of content done s = record {
  done = done;
  content = content;
  stream_id = s.stream_id;
  msg_seq = s.index % 2 ^ 8;
  index = (s.index + 2 ^ 32 - 1) % 2 ^ 32;
}

abbrev bumped : Session → Session
bumped s = record s { index = (s.index + 1) % 2 ^ 32 }

-- `SendStreamMessage` fails on an empty id
abbrev accepted : Option Text → Option Text
accepted none = none
accepted (some id) = if is_empty id then none else some id

abbrev answered : Option Text → Session → Bool × Session
answered none s = (false, s)
answered (some id) s = (true, if is_empty s.stream_id then record s { stream_id = id } else s)

-- `SendContent`: whether it succeeds, the message sent, and the session
unfoldable pub send_content :
    (StreamMessage → Option Text) → Text → Bool → Session → Bool × (StreamMessage × Session)
send_content net content done s =
    let s' = bumped s in
    let msg = message_of content done s' in
    let out = answered (accepted (net msg)) s' in (out.0, (msg, out.1))

-- the messages of a session, in order
unfoldable pub send_all :
    (StreamMessage → Option Text) → List Text → Session → List StreamMessage × Session
unfolding send_content
send_all net [] s = ([], s)
send_all net (c ∷ cs) s =
    let step = send_content net c false s in
    let rest = send_all net cs step.1.1 in (step.1.0 ∷ rest.0, rest.1)

send_content-index :
    (net : StreamMessage → Option Text) (c : Text) (d : Bool) (s : Session)
    → s.index < 2 ^ 32 - 1
    → ((send_content net c d s).1.0.index ≡ s.index)
      × ((send_content net c d s).1.1.index ≡ s.index + 1)
unfolding send_content
send_content-index net c d s h = (omega arith, after (accepted (net (message_of c d (bumped s)))))
  where
    after : (o : Option Text) → (answered o (bumped s)).1.index ≡ s.index + 1
    after none = omega arith
    after (some id) = ground arith

-- consecutive numbers from `i` on
abbrev pub CountsFrom : ℕ → List StreamMessage → Type 0
CountsFrom i [] = Unit
CountsFrom i (m ∷ ms) = (m.index ≡ i) × CountsFrom (i + 1) ms

send_all-counts :
    (net : StreamMessage → Option Text) (cs : List Text) (s : Session) (i : ℕ)
    → s.index ≡ i
    → i + length cs < 2 ^ 32
    → CountsFrom i (send_all net cs s).0
unfolding send_all
send_all-counts net [] s i e h = tt
send_all-counts net (c ∷ cs) s i e h =
    let (now, next) = send_content-index net c false s (omega arith) in
    (now ∙ e, send_all-counts net cs _ (i + 1) (omega arith) (omega arith))

-- The parts that a session sends are numbered from 0 on without a gap, whether a send succeeds or
-- not, as long as there are fewer than 2 ^ 32 of them.
pub send_all-CountsFrom :
    (net : StreamMessage → Option Text) (cs : List Text)
    → length cs < 2 ^ 32
    → CountsFrom 0 (send_all net cs new_session).0
unfolding new_session
send_all-CountsFrom net cs h = send_all-counts net cs new_session 0 refl (omega arith)

-- all the messages carry an id
abbrev pub AllCarry : Text → List StreamMessage → Type 0
AllCarry id = All (λ (m : StreamMessage). m.stream_id ≡ id)

answered-stream_id :
    (o : Option Text) (s : Session)
    → is_empty s.stream_id ≡ false
    → (answered o s).1.stream_id ≡ s.stream_id
answered-stream_id none s h = refl
answered-stream_id (some id) s h = ground arith

-- Once a session has the id of its stream, every part that it sends carries it.
pub send_all-AllCarry :
    (net : StreamMessage → Option Text) (cs : List Text) (s : Session)
    → is_empty s.stream_id ≡ false
    → AllCarry s.stream_id (send_all net cs s).0
unfolding send_all
send_all-AllCarry net [] s h = tt
send_all-AllCarry net (c ∷ cs) s h =
    let s' = (send_content net c false s).1.1 in
    let kept : s'.stream_id ≡ s.stream_id =
      answered-stream_id (accepted (net (message_of c false (bumped s)))) (bumped s) h in
    (
      refl,
      subst (λ id. AllCarry id (send_all net cs s').0) kept
          (send_all-AllCarry net cs s' (rw kept h)),
    )
