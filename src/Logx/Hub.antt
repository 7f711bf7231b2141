-- ===== src/Logx/Hub.antt =====
-- The broadcast hub of the log (lib/logx/stream.go). A subscriber is a channel of 128 entries.
use polarix_plus.Base.{
  ltb, ◌==◌, if◌then◌else◌, length, keep, ℕ, ◌+◌, not, List, [], ◌∷◌, ◌++◌, map,
}
use polarix_plus.Logx.{Entry}

-- A channel that is not closed, with what waits in it: the channel is closed in the same step in which
-- its subscriber leaves the hub. Subscribers are told apart by a number, as the keys of `subs` are by
-- their address.
pub record Sub : Type 0 where
  pub key : ℕ
  pub queue : List Entry

pub record Hub : Type 0 where
  pub next_key : ℕ  -- the allocator's choice of a fresh address
  pub subs : List Sub

abbrev pub channel_size : ℕ
channel_size = 128

unfoldable pub new_hub : Hub
new_hub = record { next_key = 0; subs = [] }

-- the new channel's key, and the hub
unfoldable pub subscribe : Hub → ℕ × Hub
subscribe h = (
  h.next_key,
  record { next_key = h.next_key + 1; subs = record { key = h.next_key; queue = [] } ∷ h.subs },
)

-- the function that `subscribe` returns
unfoldable pub unsubscribe : ℕ → Hub → Hub
unsubscribe k h = record h { subs = keep (λ s. not (s.key == k)) h.subs }

-- a send that does not wait: a full channel drops the entry
abbrev pub offer : Entry → Sub → Sub
offer e s = if ltb (length s.queue) channel_size then record s { queue = s.queue ++ e ∷ [] } else s

unfoldable pub broadcast : Entry → Hub → Hub
broadcast e h = record h { subs = map (offer e) h.subs }
