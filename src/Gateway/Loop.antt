-- ===== src/Gateway/Loop.antt =====
-- `Start`: the loop that runs connections, with its back-off, and the count of fruitless
-- reconnections (lib/gateway/client.go). Durations are nanoseconds. A random number and the limits
-- that the API reports are parameters; `go_on` is what `breathe` returns.
pub mod Pace
pub mod Strikes
use polarix_plus.Base.{
  leb, ◌==◌, if◌then◌else◌, wrap, sle, slt, ℕ, ◌+◌, ◌-◌, ◌*◌, ◌/◌, ◌%◌, ◌≤◌, ◌<◌, ◌≡◌, Bool, not,
  ◌||◌, Option, none, some, arith,
}
use polarix_plus.Gateway.{
  Err, err_reconnect, err_invalid_session, err_stop, err_network, Client, drop_session,
  err_reconnect, err_invalid_session, err_stop, err_network,
}

abbrev pub second : ℕ
second = 1000000000

abbrev pub max_backoff : ℕ
max_backoff = 30 * second

-- `jitter`: `rand.Int64N(spread)` panics on 0, and returns a number below `spread`, here
-- `random % spread`
unfoldable pub jitter : ℕ → ℕ → Option ℕ
jitter random d =
    let spread = d / 2 in
    if d == 0 then some d else if spread == 0 then none else some (d + random % spread - spread / 2)

abbrev pub smaller : ℕ → ℕ → ℕ
smaller a b = if leb a b then a else b

-- the variables of `Start`
pub record Loop : Type 0 where
  pub client : Client
  pub backoff : ℕ
  pub strikes : ℕ

unfoldable pub start_loop : Client → Loop
start_loop c = record { client = c; backoff = second; strikes = 0 }

-- `countStrike`; `before` is the counter of READY frames before the connection
unfoldable pub count_strike : ℕ → Loop → Loop
count_strike before l =
    if not (l.client.ready_n == before)
    then record l { strikes = 0 }
    else if leb 5 (l.strikes + 1)
    then record l { client = drop_session l.client; strikes = 0 }
    else record l { strikes = l.strikes + 1 }

-- what GatewayBot reports: the starts that remain, and the milliseconds to the reset
pub record Limit : Type 0 where
  pub remaining : ℕ
  pub reset_after : ℕ

-- `waitForSlot`: the time to wait
unfoldable pub slot_wait : ℕ → Option Limit → Option ℕ
unfolding jitter
slot_wait random none = jitter random (5 * second)
slot_wait random (some i) =
    if slt 0 i.remaining || sle i.reset_after 0
    then jitter random (3 * second)
    else some (wrap (i.reset_after * 1000000))

-- What a round does: the time to wait before the next one, and the state, or the end of `Start`.
pub data Round : Type 0 where
  finished : Round
  panicked : Round
  again : ℕ → Loop → Round

abbrev pub waits : Option ℕ → Bool → Loop → Round
waits none go_on l = panicked
waits (some d) go_on l = if go_on then again d l else finished

-- a round of `Start` behind `run`, by the error that `run` returned (`none` for nil)
unfoldable pub round : ℕ → Option Limit → Bool → ℕ → Option Err → Loop → Round
unfolding jitter count_strike slot_wait
round random limit go_on before none l = waits (some second) go_on l
round random limit go_on before (some (err_stop code)) l = finished
round random limit go_on before (some err_reconnect) l =
    waits (jitter random second) go_on (count_strike before (record l { backoff = second }))
round random limit go_on before (some err_invalid_session) l =
    waits (slot_wait random limit) go_on (record l { client = drop_session l.client })
round random limit go_on before (some err_network) l =
    let counted = count_strike before l in
    waits (jitter random l.backoff) go_on
      (record counted { backoff = smaller (counted.backoff * 2) max_backoff })
