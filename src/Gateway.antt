-- ===== src/Gateway.antt =====
-- The gateway client (lib/gateway): the state of `Client` and of one connection, and the errors that
-- end a connection. The parts that a client's goroutines run are the children's.
pub mod Intents
pub mod Session
pub mod Loop
mod Tests
use polarix_plus.Base.{
  if◌then◌else◌, slt, is_some, Text, ℕ, ◌-◌, Bool, false, Option, none, some, [],
}

-- the frames of the protocol
abbrev pub op_dispatch : ℕ
op_dispatch = 0

abbrev pub op_heartbeat : ℕ
op_heartbeat = 1

abbrev pub op_identify : ℕ
op_identify = 2

abbrev pub op_resume : ℕ
op_resume = 6

abbrev pub op_reconnect : ℕ
op_reconnect = 7

abbrev pub op_invalid_session : ℕ
op_invalid_session = 9

abbrev pub op_hello : ℕ
op_hello = 10

abbrev pub op_heartbeat_ack : ℕ
op_heartbeat_ack = 11

-- `s` is an int64; `d` is raw JSON
pub record Frame : Type 0 where
  pub op : ℕ
  pub d : Text
  pub t : Text
  pub s : ℕ
  pub id : Text

-- Why `run` returned: the sentinel errors, the code behind `errStop`, and any other error.
pub data Err : Type 0 where
  err_reconnect : Err
  err_invalid_session : Err
  err_stop : ℕ → Err
  err_network : Err

-- The fields of `Client` behind its mutex. `conn_at` and `ack_at` are the zero time or a time.
pub record Client : Type 0 where
  pub intents : ℕ
  pub session_id : Text
  pub seq : ℕ
  pub conn_at : Option ℕ
  pub ack_at : Option ℕ
  pub online : Bool
  pub ready_n : ℕ
  pub token_cached : Bool  -- whether the API client still has its access token

unfoldable pub new_client : ℕ → Client
new_client intents = record {
  intents = intents;
  session_id = [];
  seq = 0;
  conn_at = none;
  ack_at = none;
  online = false;
  ready_n = 0;
  token_cached = false;
}

-- `if s > c.seq { c.seq = s }`
unfoldable pub bump_seq : ℕ → Client → Client
bump_seq s c = if slt c.seq s then record c { seq = s } else c

abbrev pub drop_session : Client → Client
drop_session c = record c { session_id = []; seq = 0 }

pub record Status : Type 0 where
  pub connected : Bool
  pub session_id : Text
  pub seq : ℕ
  pub heartbeat : Bool
  pub since : ℕ

-- `Status` at the time `now`
unfoldable pub status : ℕ → Client → Status
status now c = record {
  connected = c.online;
  session_id = c.session_id;
  seq = c.seq;
  heartbeat = is_some c.ack_at;
  since = elim c.conn_at [ none ↦ 0 | some t ↦ now - t ];
}
