-- ===== src/Gateway/Tests.antt =====
-- Runs of the gateway client, and each theorem about it at a concrete input.
use polarix_plus.Base.{
  keep, Text, codes, ℕ, ◌+◌, ◌*◌, ◌^◌, ◌≡◌, refl, ◌≢◌, Bool, true, false, none, some, List, [], ◌∷◌,
  ◌++◌, arith,
}
use polarix_plus.Gateway.{op_dispatch, op_heartbeat_ack, Frame, new_client}
use polarix_plus.Gateway.Intents.{default_intents, intents}
use polarix_plus.Gateway.Session.{
  Conn, new_conn, pump_tick, handle, Event, on_event, events, frame_read, tick,
}
use polarix_plus.Gateway.Session.Events.{
  accepted, frames, Goes, dispatched-Goes, goes_end, goes_frame, goes_tick,
}
use polarix_plus.Gateway.Session.Heartbeat.{missed_ack}
use polarix_plus.Gateway.Loop.{second, jitter, Loop, round}
use polarix_plus.Gateway.Loop.Pace.{Fails, no_more, one_more}
use polarix_plus.Gateway.Loop.Strikes.{
  Fruitless, strikes-Fruitless, on_reconnect, no_round, next_round,
}

-- a reader of JSON: the whole payload is the session, one second the interval, and all parses
abbrev reads : Text → Text
reads d = d

abbrev every_second : Text → ℕ
every_second d = 1000

abbrev all_parse : Text → Bool
all_parse d = true

abbrev frame_of : ℕ → Text → ℕ → Frame
frame_of op t s = record { op = op; d = codes "s1"; t = t; s = s; id = [] }

abbrev ready : Frame
ready = frame_of op_dispatch (codes "READY") 1

abbrev message : Frame
message = frame_of op_dispatch (codes "GROUP_MESSAGE_CREATE") 2

abbrev fresh : Conn
fresh = new_conn 5 (codes "token") (new_client default_intents)

-- a connection whose pump runs
abbrev beating_conn : Conn
beating_conn = record {
  client = record {
    intents = default_intents;
    session_id = codes "s1";
    seq = 1;
    conn_at = some 5;
    ack_at = none;
    online = true;
    ready_n = 1;
    token_cached = true;
  };
  token = codes "token";
  interval = 1000000000;
  acked = true;
  beating = true;
  hb_stopped = false;
  killed = false;
  sent = [];
  dispatched = [];
}

intents_test :
    intents (codes "C2C_MESSAGE_CREATE" ∷ codes "INTERACTION_CREATE" ∷ []) ≡ 2 ^ 25 + 2 ^ 26
unfolding intents
intents_test = refl

handle_test :
    (handle reads every_second all_parse true 9 ready fresh).1.client.session_id ≡ codes "s1"
unfolding handle new_conn new_client
handle_test = refl

abbrev two_events : List (Event reads every_second all_parse)
two_events = frame_read true 9 message ∷ tick true ∷ []

abbrev after_two : Conn
after_two =
    (on_event reads every_second all_parse (tick true)
      (on_event reads every_second all_parse (frame_read true 9 message) beating_conn).1).1

two-Goes : Goes reads every_second all_parse two_events beating_conn after_two
unfolding on_event
two-Goes = goes_frame true 9 message refl refl (goes_tick true goes_end)

dispatched-Goes_example :
    after_two.dispatched
    ≡ []
      ++ keep
          (accepted reads every_second all_parse)
          (frames reads every_second all_parse two_events)
dispatched-Goes_example = dispatched-Goes reads every_second all_parse two-Goes

missed_ack_example :
    let w' =
      (events reads every_second all_parse
        (frame_read true 9 message ∷ [])
        (pump_tick true beating_conn).1).1 in
    ((pump_tick true w').0 ≡ false)
    × ((on_event reads every_second all_parse (tick true) w').1.killed ≡ true)
missed_ack_example =
    missed_ack reads every_second all_parse true true beating_conn (frame_read true 9 message ∷ [])
      refl (other_op, tt) (unfold events in unfold pump_tick in refl)
  where
    other_op : op_dispatch ≢ op_heartbeat_ack
    other_op e = absurd (omega arith)

abbrev loop_at : ℕ → Loop
loop_at n = record { client = new_client default_intents; backoff = second; strikes = n }

abbrev failed_loop : Loop
failed_loop = record { client = new_client default_intents; backoff = 2 * second; strikes = 0 }

one-Fails :
    Fails 1
      (record {
        client = record (new_client default_intents) { ready_n = 3 };
        backoff = second;
        strikes = 2;
      })
      (record {
        client = record (new_client default_intents) { ready_n = 3 };
        backoff = 2 * second;
        strikes = 0;
      })
unfolding round jitter
one-Fails = one_more 7 0 750000007 none no_more refl

last-Fruitless : Fruitless 1 (loop_at 4) (loop_at 0)
unfolding round jitter new_client
last-Fruitless = next_round 7 750000007 none (new_client default_intents) on_reconnect refl no_round

strikes-Fruitless_example :
    ((loop_at 0).client.session_id ≡ []) × ((loop_at 0).client.seq ≡ 0) × ((loop_at 0).strikes ≡ 0)
strikes-Fruitless_example = strikes-Fruitless last-Fruitless (omega arith) (omega arith)
