-- ===== src/Gateway/Session/Events.antt =====
-- What a connection hands on, and how it keeps the sequence number.
use polarix_plus.Base.{
  ◌==◌, if◌then◌else◌, if_false, sle, slt, keep, Text, is_empty, ℕ, ◌≡◌, sym, ap, ◌∙◌, Bool, true,
  false, ◌&&◌, ◌||◌, Option, none, some, List, [], ◌∷◌, ◌++◌, append-nil, append_assoc, arith,
}
use polarix_plus.Gateway.{Err, err_network, err_network, bump_seq, op_dispatch, Frame}
use polarix_plus.Gateway.Session.{
  pump_tick, mark_ready, on_event, Conn, start_heartbeat, is_valid_event, dispatch, on_ready,
  on_dispatch, handle, Event, frame_read, tick,
}

module _ (session_in : Text → Text) (interval_in : Text → ℕ) (parses : Text → Bool) where
  -- which frames reach the middleware
  abbrev pub accepted : Frame → Bool
  accepted f = (f.op == op_dispatch) && is_valid_event f.t && (is_empty f.d || parses f.d)

  -- the frames that are read, in order
  abbrev pub frames : List (Event session_in interval_in parses) → List Frame
  frames [] = []
  frames (frame_read written now f ∷ es) = f ∷ frames es
  frames (tick written ∷ es) = frames es

  on_ready-dispatched :
      (f : Frame) (w : Conn)
      → (on_ready session_in interval_in parses f w).dispatched ≡ w.dispatched
  unfolding on_ready start_heartbeat
  on_ready-dispatched f w = ground arith

  on_dispatch-dispatched :
      (f : Frame) (w : Conn)
      → (on_dispatch session_in interval_in parses f w).dispatched
        ≡ w.dispatched
          ++ (if is_valid_event f.t && (is_empty f.d || parses f.d) then f ∷ [] else [])
  unfolding on_dispatch dispatch
  on_dispatch-dispatched f w = ground (arith, on_ready-dispatched f w, append-nil w.dispatched)

  handle-dispatched :
      (written : Bool) (now : ℕ) (f : Frame) (w : Conn)
      → (handle session_in interval_in parses written now f w).1.dispatched
        ≡ w.dispatched ++ (if accepted f then f ∷ [] else [])
  unfolding handle
  handle-dispatched written now f w =
      ground (arith, on_dispatch-dispatched f w, append-nil w.dispatched)

  on_event-dispatched_frame :
      (written : Bool) (now : ℕ) (f : Frame) (w : Conn)
      → w.killed ≡ false
      → (on_event session_in interval_in parses (frame_read written now f) w).1.dispatched
        ≡ w.dispatched ++ (if accepted f then f ∷ [] else [])
  unfolding on_event
  on_event-dispatched_frame written now f w h =
      ap (λ (o : Option Err × Conn). o.1.dispatched)
        (if_false w.killed (some err_network, w)
          (handle session_in interval_in parses written now f w) h)
      ∙ handle-dispatched written now f w

  on_event-dispatched_tick :
      (written : Bool) (w : Conn)
      → (on_event session_in interval_in parses (tick written) w).1.dispatched ≡ w.dispatched
  unfolding on_event pump_tick
  on_event-dispatched_tick written w = ground arith

  keep_first :
      (f : Frame) (fs : List Frame)
      → (if accepted f then f ∷ [] else []) ++ keep accepted fs ≡ keep accepted (f ∷ fs)
  keep_first f fs = ground arith

  -- events behind which the connection goes on
  pub data Goes : List (Event session_in interval_in parses) → Conn → Conn → Type 0 where
    goes_end : {w : Conn} → Goes [] w w
    goes_frame :
        (written : Bool) (now : ℕ) (f : Frame) {es : List (Event session_in interval_in parses)}
        {w x : Conn}
        → w.killed ≡ false
        → (on_event session_in interval_in parses (frame_read written now f) w).0 ≡ none
        → Goes es (on_event session_in interval_in parses (frame_read written now f) w).1 x
        → Goes (frame_read written now f ∷ es) w x
    goes_tick :
        (written : Bool) {es : List (Event session_in interval_in parses)} {w x : Conn}
        → Goes es (on_event session_in interval_in parses (tick written) w).1 x
        → Goes (tick written ∷ es) w x

  -- While a connection goes on, the middleware gets exactly the frames read that are events it knows
  -- and whose data parses, in the order in which they were read.
  pub dispatched-Goes :
      {es : List (Event session_in interval_in parses)} {w x : Conn}
      → Goes es w x
      → x.dispatched ≡ w.dispatched ++ keep accepted (frames es)
  dispatched-Goes {w = w} goes_end = sym (append-nil w.dispatched)
  dispatched-Goes {w = w} (goes_frame written now f {es} live ok g) =
      dispatched-Goes g
      ∙ (ap (λ l. l ++ keep accepted (frames es)) (on_event-dispatched_frame written now f w live)
          ∙ (append_assoc w.dispatched _ (keep accepted (frames es))
              ∙ ap (λ l. w.dispatched ++ l) (keep_first f (frames es))))
  dispatched-Goes {w = w} (goes_tick written {es} g) =
      dispatched-Goes g
      ∙ ap (λ l. l ++ keep accepted (frames es)) (on_event-dispatched_tick written w)

  on_ready-seq :
      (f : Frame) (w : Conn)
      → (on_ready session_in interval_in parses f w).client.seq ≡ w.client.seq
  unfolding on_ready start_heartbeat mark_ready
  on_ready-seq f w = ground arith

  on_dispatch-seq :
      (f : Frame) (w : Conn)
      → (on_dispatch session_in interval_in parses f w).client.seq
        ≡ (if slt w.client.seq f.s then f.s else w.client.seq)
  unfolding on_dispatch dispatch bump_seq
  on_dispatch-seq f w = ground (arith, on_ready-seq f w)

  -- Handling a frame never lowers the sequence number, and a frame with an event raises it to its
  -- own when that is higher.
  pub handle-seq :
      (written : Bool) (now : ℕ) (f : Frame) (w : Conn)
      → let after = (handle session_in interval_in parses written now f w).1.client.seq in
        (sle w.client.seq after ≡ true) × (f.op ≡ op_dispatch → sle f.s after ≡ true)
  unfolding handle
  handle-seq written now f w =
      (ground (arith, on_dispatch-seq f w), ground (arith, on_dispatch-seq f w))
