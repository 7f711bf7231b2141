-- ===== src/Gateway/Session.antt =====
-- One connection (lib/gateway/conn.go, codes.go): the handshake, the frames handled, the heartbeat,
-- the closing codes. What encoding/json reads in a payload is a parameter, and so is whether a write
-- succeeds. `runtime.GOOS` and the deadlines are left out.
pub mod Events
pub mod Heartbeat
use polarix_plus.Base.{
  ◌==◌, if◌then◌else◌, wrap, sle, Text, codes, text_eq, is_empty, ℕ, ◌+◌, ◌*◌, Bool, true, false,
  not, ◌&&◌, ◌||◌, Option, none, some, List, [], ◌∷◌, ◌++◌,
}
use polarix_plus.Gateway.{
  op_dispatch, op_heartbeat, op_reconnect, op_invalid_session, op_hello, op_heartbeat_ack, Frame,
  Err, err_reconnect, err_invalid_session, err_stop, err_network, Client, bump_seq, err_reconnect,
  err_invalid_session, err_stop, err_network,
}

-- the frames that the connection writes, as far as they differ
pub data Sent : Type 0 where
  sent_heartbeat : ℕ → Sent
  sent_identify : Text → ℕ → Sent
  sent_resume : Text → Text → ℕ → Sent

pub record Conn : Type 0 where
  pub client : Client
  pub token : Text
  pub interval : ℕ  -- nanoseconds, an int64
  pub acked : Bool
  pub beating : Bool  -- `hbOnce` has run: `go w.pump()`
  pub hb_stopped : Bool
  pub killed : Bool
  pub sent : List Sent
  pub dispatched : List Frame

unfoldable pub new_conn : ℕ → Text → Client → Conn
new_conn now token c = record {
  client = record c { conn_at = some now; online = false };
  token = token;
  interval = 0;
  acked = false;
  beating = false;
  hb_stopped = false;
  killed = false;
  sent = [];
  dispatched = [];
}

abbrev code_auth_fail : ℕ
code_auth_fail = 4004

unfoldable pub can_resume : ℕ → Bool
can_resume code = not (code == 4914 || code == 4915)

unfoldable pub need_reidentify : ℕ → Bool
need_reidentify code = code == code_auth_fail || code == 4006 || code == 4007

-- `classify`: `none` is an error that is no closing frame
unfoldable pub classify : Option ℕ → Conn → Err × Conn
unfolding can_resume need_reidentify
classify none w = (err_network, w)
classify (some code) w =
    if not (can_resume code)
    then (err_stop code, w)
    else if need_reidentify code
    then (
      err_invalid_session,
      if code == code_auth_fail
          then record w { client = record w.client { token_cached = false } }
          else w,
    )
    else (err_network, w)

-- `startHeartbeat`
unfoldable pub start_heartbeat : Conn → Conn
start_heartbeat w =
    if sle w.interval 0
    then w
    else if w.beating
    then w
    else record w { acked = true; beating = true }

unfoldable pub stop_heartbeat : Conn → Conn
stop_heartbeat w = record w { hb_stopped = true }

-- a round of `pump` behind the tick: whether it goes on
unfoldable pub pump_tick : Bool → Conn → Bool × Conn
pump_tick written w =
    if not w.acked
    then (false, record w { killed = true })
    else if not written
    then (false, record w { acked = false; killed = true })
    else (true, record w { acked = false; sent = w.sent ++ sent_heartbeat w.client.seq ∷ [] })

-- constant.IsValidEventType
unfoldable pub is_valid_event : Text → Bool
unfolding text_eq
is_valid_event t =
    text_eq t (codes "INTERACTION_CREATE")
    || text_eq t (codes "C2C_MESSAGE_CREATE")
    || text_eq t (codes "GROUP_AT_MESSAGE_CREATE")
    || text_eq t (codes "GROUP_MESSAGE_CREATE")
    || text_eq t (codes "GROUP_JOIN_REQUEST")
    || text_eq t (codes "MESSAGE_AUDIT_PASS")
    || text_eq t (codes "MESSAGE_AUDIT_REJECT")

unfoldable pub mark_ready : Client → Client
mark_ready c = record c { online = true; ready_n = c.ready_n + 1 }

module _ (session_in : Text → Text) (interval_in : Text → ℕ) (parses : Text → Bool) where
  -- `dispatch`: an event goes to the middleware, unless its data does not parse
  unfoldable pub dispatch : Frame → Conn → Conn
  dispatch f w =
      if not (is_empty f.d) && not (parses f.d)
      then w
      else record w { dispatched = w.dispatched ++ f ∷ [] }

  -- the switch of `onDispatch` on the event's name
  unfoldable pub on_ready : Frame → Conn → Conn
  unfolding start_heartbeat text_eq mark_ready
  on_ready f w =
      if text_eq f.t (codes "READY")
      then start_heartbeat
          (record w { client = mark_ready (record w.client { session_id = session_in f.d }) })
      else if text_eq f.t (codes "RESUMED")
      then start_heartbeat (record w { client = mark_ready w.client })
      else w

  unfoldable pub on_dispatch : Frame → Conn → Conn
  unfolding on_ready dispatch bump_seq is_valid_event
  on_dispatch f w =
      let ready = on_ready f w in
      let bumped = record ready { client = bump_seq f.s ready.client } in
      if not (is_valid_event f.t) then bumped else dispatch f bumped

  -- `handle` at the time `now`; `written` says whether a write succeeds
  unfoldable pub handle : Bool → ℕ → Frame → Conn → Option Err × Conn
  unfolding on_dispatch
  handle written now f w =
      if f.op == op_heartbeat
      then (if written
          then (none, record w { sent = w.sent ++ sent_heartbeat w.client.seq ∷ [] })
          else (some err_network, w))
      else if f.op == op_heartbeat_ack
      then (none, record w { acked = true; client = record w.client { ack_at = some now } })
      else if f.op == op_reconnect
      then (some err_reconnect, w)
      else if f.op == op_invalid_session
      then (some err_invalid_session, w)
      else if f.op == op_dispatch
      then (none, on_dispatch f w)
      else (none, w)

  -- the authentication that answers a HELLO
  unfoldable pub hello : Bool → Frame → Conn → Option Err × Conn
  hello written f w =
      let frame =
        if is_empty w.client.session_id
        then sent_identify (codes "QQBot " ++ w.token) w.client.intents
        else sent_resume w.token w.client.session_id w.client.seq in
      let timed = record w { interval = wrap (interval_in f.d * 1000000) } in
      if written
      then (none, record timed { sent = timed.sent ++ frame ∷ [] })
      else (some err_network, timed)

  -- `handshake` on the frames read, with the rest of them; the reader fails behind the last one
  unfoldable pub handshake : Bool → List Frame → Conn → Option Err × (List Frame × Conn)
  unfolding hello
  handshake written [] w = (some err_network, ([], w))
  handshake written (f ∷ fs) w =
      let skip = handshake written fs w in
      let answer = hello written f w in
      if f.op == op_hello then (answer.0, (fs, answer.1)) else skip

  -- What happens to a connection: a frame is read and handled, or the ticker of `pump` fires. The
  -- Boolean says whether a write succeeds.
  pub data Event : Type 0 where
    frame_read : Bool → ℕ → Frame → Event
    tick : Bool → Event

  abbrev pub pumping : Conn → Bool
  pumping w = w.beating && not w.hb_stopped && not w.killed

  -- one event: the reader of `serve` fails on a socket that was closed, and `pump` runs once it is
  -- started and until it returns
  unfoldable pub on_event : Event → Conn → Option Err × Conn
  unfolding handle pump_tick
  on_event (frame_read written now f) w =
      if w.killed then (some err_network, w) else handle written now f w
  on_event (tick written) w = if pumping w then (none, (pump_tick written w).1) else (none, w)

  abbrev pub until : Option Err → Option Err × Conn → Conn → Option Err × Conn
  until none rest w = rest
  until (some e) rest w = (some e, w)

  -- the loop of `serve` beside `pump`, up to the error that ends it
  unfoldable pub events : List Event → Conn → Option Err × Conn
  unfolding on_event
  events [] w = (none, w)
  events (e ∷ es) w =
      let step = on_event e w in let rest = events es step.1 in until step.0 rest step.1

  -- how the loop ends: its own error, or the reader that fails with a closing code
  abbrev ended : Option ℕ → Option Err × Conn → Err × Conn
  ended close (none, w) = classify close w
  ended close (some e, w) = (e, w)

  -- `serve`: the handshake on the first frames, then the events
  served : List Event → Option ℕ → Option Err × (List Frame × Conn) → Err × Conn
  unfolding events classify
  served es close (some e, (fs, w)) = (e, w)
  served es close (none, (fs, w)) = ended close (events es w)

  unfoldable pub serve : Bool → List Frame → List Event → Option ℕ → Conn → Err × Conn
  unfolding served handshake
  serve written fs es close w = served es close (handshake written fs w)
