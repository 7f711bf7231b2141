-- ===== src/Logx/Tests.antt =====
-- Runs of the log's ring, and each theorem about it at a concrete ring.
use polarix_plus.Base.{
  length, get_elem?, take, keep, reversed, codes, ℕ, ◌+◌, ◌<◌, ◌≡◌, refl, true, false, some, List,
  [], ◌∷◌, arith,
}
use polarix_plus.Logx.{Entry, Filter, matches}
use polarix_plus.Logx.Ring.{Ring, new_ring, push, clamp_limit, snapshot, resized}
use polarix_plus.Logx.Ring.Window.{IsValid, contents, newest, push_all, contents-push_all}
use polarix_plus.Logx.Ring.Snapshot.{snapshot_newest_first}
use polarix_plus.Logx.Ring.Resize.{smaller, offset, resized_keeps}

abbrev entry_of : ℕ → Entry
entry_of n = record {
  id = n;
  time = n;
  level = codes "INFO";
  scope = codes "db";
  msg = codes "opened";
}

abbrev three : List Entry
three = entry_of 1 ∷ entry_of 2 ∷ entry_of 3 ∷ []

-- a ring of two slots that has turned round
abbrev turned : Ring
turned = record { buf = entry_of 3 ∷ entry_of 2 ∷ []; cap = 2; pos = 1; full = true }

-- a ring of five slots that has not
abbrev growing_ring : Ring
growing_ring = record { buf = three; cap = 5; pos = 0; full = false }

abbrev by_scope : Filter
by_scope = record { min_level = codes "info"; scope = codes "db"; text = codes "open" }

turned-IsValid : IsValid turned
turned-IsValid = ground arith

growing_ring-IsValid : IsValid growing_ring
growing_ring-IsValid = ground arith

push_test : push_all (new_ring 2) three ≡ turned
unfolding push new_ring
push_test = refl

matches_test : matches by_scope (entry_of 1) ≡ true
unfolding matches
matches_test = refl

resized_test :
    resized growing_ring 2
    ≡ some (record { buf = entry_of 1 ∷ entry_of 2 ∷ []; cap = 2; pos = 0; full = false })
unfolding resized
resized_test = refl

contents-push_all_example : contents (push_all (new_ring 2) three) ≡ newest 2 three
contents-push_all_example = contents-push_all 2 three (omega arith)

snapshot_newest_first_example :
    snapshot turned 5 by_scope
    ≡ some (keep (matches by_scope) (take (clamp_limit 5 2) (reversed (contents turned))))
snapshot_newest_first_example = snapshot_newest_first turned 5 by_scope turned-IsValid

resized_keeps_example :
    let n = smaller 2 3 in
    (next : Ring) × (resized growing_ring 2 ≡ some next)
    × (next.cap ≡ 2)
    × (length (contents next) ≡ n)
    × ((i : ℕ) → i < n → get_elem? (contents next) i ≡ get_elem? three (offset growing_ring n + i))
resized_keeps_example =
    resized_keeps growing_ring 2 growing_ring-IsValid (omega arith) (omega arith)
