-- ===== src/Logx/Ring.antt =====
-- The ring buffer of log entries (lib/logx/stream.go). A method that changes `*ring` returns the new
-- ring; an index out of range, a panic in Go, is `none`.
pub mod Window
pub mod Snapshot
pub mod Resize
use polarix_plus.Base.{
  ltb, ◌==◌, if◌then◌else◌, length, get_elem?, set, ℕ, zero, suc, ◌+◌, ◌-◌, ◌%◌, Bool, true, false,
  not, ◌&&◌, ◌||◌, Option, none, some, List, [], ◌∷◌, ◌++◌,
}
use polarix_plus.Logx.{Entry, Filter, matches}

pub record Ring : Type 0 where
  pub buf : List Entry
  pub cap : ℕ
  pub pos : ℕ  -- the next slot to write
  pub full : Bool

abbrev pub default_ring : ℕ
default_ring = 2048

unfoldable pub new_ring : ℕ → Ring
new_ring cap = record {
  buf = [];
  cap = if cap == 0 then default_ring else cap;
  pos = 0;
  full = false;
}

unfoldable pub push : Ring → Entry → Ring
push r e =
    if not r.full && ltb (length r.buf) r.cap
    then record r { buf = r.buf ++ e ∷ [] }
    else if length r.buf == 0
    then record r { buf = r.buf ++ e ∷ []; full = true }
    else record r { buf = set r.buf r.pos e; pos = (r.pos + 1) % r.cap; full = true }

-- one step back round a buffer of `n` entries: `idx--; if idx < 0 { idx = n - 1 }`
abbrev pub back : ℕ → ℕ → ℕ
back n zero = n - 1
back n (suc idx) = idx

-- the entry read, in front of the rest if the filter passes it
abbrev pub visit : Filter → Option Entry → Option (List Entry) → Option (List Entry)
visit f none rest = none
visit f (some e) none = none
visit f (some e) (some out) = some (if matches f e then e ∷ out else out)

-- the loop of `snapshot`, with the rounds that are left
unfoldable pub collect : List Entry → Filter → ℕ → ℕ → ℕ → Option (List Entry)
collect buf f n zero idx = some []
collect buf f n (suc k) idx = visit f (get_elem? buf idx) (collect buf f n k (back n idx))

abbrev pub clamp_limit : ℕ → ℕ → ℕ
clamp_limit limit n = if limit == 0 || ltb n limit then n else limit

unfoldable pub snapshot : Ring → ℕ → Filter → Option (List Entry)
unfolding collect
snapshot r limit f =
    let n = if r.full then r.cap else length r.buf in
    collect r.buf f n (clamp_limit limit n) (if r.full then back r.cap r.pos else n - 1)

-- `for i := range n { next.push(r.buf[(start+i)%len(r.buf)]) }`, from the round `i` on
unfoldable pub copy_from : List Entry → ℕ → ℕ → ℕ → Ring → Option Ring
unfolding push
copy_from buf start i zero next = some next
copy_from buf start i (suc k) next = elim (get_elem? buf ((start + i) % length buf)) [
  | none ↦ none
  | some e ↦ copy_from buf start (i + 1) k (push next e)
]

unfoldable pub resized : Ring → ℕ → Option Ring
unfolding new_ring copy_from
resized r cap =
    let len = length r.buf in
    let n = if ltb cap len then cap else len in
    let start = if r.full then (r.pos + len - n) % len else 0 in
    if cap == 0 then some (new_ring cap) else copy_from r.buf start 0 n (new_ring cap)
