-- ===== src/Gateway/Session/Heartbeat.antt =====
-- The heartbeat: started once, and a beat that is not acknowledged closes the connection.
use polarix_plus.Base.{
  All, Text, ℕ, ◌≡◌, ◌≢◌, Bool, true, false, Option, none, some, List, [], ◌∷◌, arith,
}
use polarix_plus.Gateway.{op_heartbeat_ack, Frame, Err}
use polarix_plus.Gateway.Session.{
  Conn, start_heartbeat, pump_tick, mark_ready, dispatch, on_ready, on_dispatch, handle, Event,
  pumping, on_event, until, events, frame_read, tick,
}

module _ (session_in : Text → Text) (interval_in : Text → ℕ) (parses : Text → Bool) where
  -- an event that acknowledges nothing: a tick, or a frame that is no ACK
  abbrev pub IsSilent : Event session_in interval_in parses → Type 0
  IsSilent (frame_read written now f) = f.op ≢ op_heartbeat_ack
  IsSilent (tick written) = Unit

  -- a connection whose pump runs and waits for an ACK, or that is closed
  pub record IsWaiting (w : Conn) : Type 0 where
    pub beats : w.beating ≡ true
    pub unacked : w.acked ≡ false

  on_ready-IsWaiting :
      (f : Frame) (w : Conn) → IsWaiting w → IsWaiting (on_ready session_in interval_in parses f w)
  unfolding on_ready start_heartbeat mark_ready
  on_ready-IsWaiting f w v = ground arith

  on_dispatch-IsWaiting :
      (f : Frame) (w : Conn)
      → IsWaiting w
      → IsWaiting (on_dispatch session_in interval_in parses f w)
  unfolding on_dispatch dispatch
  on_dispatch-IsWaiting f w v = ground (arith, on_ready-IsWaiting f w v)

  handle-IsWaiting :
      (written : Bool) (now : ℕ) (f : Frame) (w : Conn)
      → f.op ≢ op_heartbeat_ack
      → IsWaiting w
      → IsWaiting (handle session_in interval_in parses written now f w).1
  unfolding handle
  handle-IsWaiting written now f w n v = ground (arith, on_dispatch-IsWaiting f w v)

  on_event-IsWaiting :
      (e : Event session_in interval_in parses) (w : Conn)
      → IsSilent e
      → IsWaiting w
      → IsWaiting (on_event session_in interval_in parses e w).1
  unfolding on_event pump_tick
  on_event-IsWaiting (frame_read written now f) w n v =
      ground (arith, handle-IsWaiting written now f w n v)
  on_event-IsWaiting (tick written) w n v = ground arith

  until-IsWaiting :
      (o : Option Err) (rest : Option Err × Conn) (w : Conn)
      → IsWaiting w
      → IsWaiting rest.1
      → IsWaiting (until session_in interval_in parses o rest w).1
  until-IsWaiting none rest w v v' = v'
  until-IsWaiting (some e) rest w v v' = v

  events-IsWaiting :
      (es : List (Event session_in interval_in parses)) (w : Conn)
      → All IsSilent es
      → IsWaiting w
      → IsWaiting (events session_in interval_in parses es w).1
  unfolding events
  events-IsWaiting [] w s v = v
  events-IsWaiting (e ∷ es) w s v =
      let v' = on_event-IsWaiting e w s.0 v in
      until-IsWaiting _ _ _ v' (events-IsWaiting es _ s.1 v')

  -- a tick while an ACK is missing closes the socket and ends the pump
  waiting_tick :
      (written : Bool) (w : Conn)
      → IsWaiting w
      → pumping session_in interval_in parses w ≡ true
      → (pump_tick written w).0 ≡ false
        × ((on_event session_in interval_in parses (tick written) w).1.killed ≡ true)
  unfolding on_event pump_tick
  waiting_tick written w v p = ground arith

  beat-IsWaiting :
      (written : Bool) (w : Conn) → w.beating ≡ true → IsWaiting (pump_tick written w).1
  unfolding pump_tick
  beat-IsWaiting written w b = ground arith

  -- If the heartbeat was started and no ACK comes between two ticks of a pump that still runs at
  -- the second, the second closes the socket and ends the pump, whatever else is read between
  -- them.
  pub missed_ack :
      (first second : Bool) (w : Conn) (es : List (Event session_in interval_in parses))
      → w.beating ≡ true
      → All IsSilent es
      → let w' = (events session_in interval_in parses es (pump_tick first w).1).1 in
        pumping session_in interval_in parses w' ≡ true
        → ((pump_tick second w').0 ≡ false)
          × ((on_event session_in interval_in parses (tick second) w').1.killed ≡ true)
  missed_ack first second w es b s p =
      waiting_tick second _ (events-IsWaiting es _ s (beat-IsWaiting first w b)) p
