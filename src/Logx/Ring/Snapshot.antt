-- ===== src/Logx/Ring/Snapshot.antt =====
-- `snapshot` reads the newest entries first, and never reads outside the buffer.
use mathlib.Core.Path.{subst, subst₂}
use native.Mathlib.Decide.{dec_le}
use native.Mathlib.Nat.{zero-add, suc-add}
use polarix_plus.Base.{
  if◌then◌else◌, Bool-cases, length, get_elem?, take, drop, keep, length-drop, length-take,
  take-drop, get_elem?-append, reversed, reversed-append, reversed-reversed, length-reversed,
  take-append_past, take-append_within, ℕ, zero, suc, ◌+◌, ◌-◌, ◌≤◌, ◌≡◌, refl, sym, ap, ◌∙◌, inl,
  inr, some, List, [], ◌∷◌, ◌++◌, append-nil, append_assoc, arith,
}
use polarix_plus.Logx.{Entry, Filter, matches}
use polarix_plus.Logx.Ring.{Ring, back, collect, clamp_limit, snapshot}
use polarix_plus.Logx.Ring.Window.{IsValid, contents, pos-le}

-- one round of the loop at an index within the buffer
collect_step :
    (buf : List Entry) (f : Filter) (n k idx : ℕ) (e : Entry) (out : List Entry)
    → get_elem? buf idx ≡ some e
    → collect buf f n k (back n idx) ≡ some (keep (matches f) out)
    → collect buf f n (suc k) idx ≡ some (keep (matches f) (e ∷ out))
unfolding collect
collect_step buf f n k idx e out got rest = rw (got, rest)

last_of :
    (buf : List Entry) (x : Entry) (m rest : List Entry)
    → buf ≡ reversed m ++ x ∷ rest
    → get_elem? buf (length m) ≡ some x
last_of buf x m rest e = rw (e, ← length-reversed m) (get_elem?-append (reversed m) x rest)

-- reading backwards within a stretch `reversed m` at the front of the buffer
collect_within :
    (f : Filter) (n k : ℕ) (buf m rest : List Entry)
    → buf ≡ reversed m ++ rest
    → k ≤ length m
    → collect buf f n k (back n (length m)) ≡ some (keep (matches f) (take k m))
collect_within f n zero buf m rest e h = unfold collect in refl
collect_within f n (suc k) buf [] rest e h = absurd (omega arith)
collect_within f n (suc k) buf (x ∷ m) rest e h =
    let e' : buf ≡ reversed m ++ x ∷ rest = e ∙ append_assoc (reversed m) (x ∷ []) rest in
    collect_step buf f n k (length m) x (take k m) (last_of buf x m rest e')
      (collect_within f n k buf m (x ∷ rest) e' (omega arith))

-- reading back to the start of the buffer, and on from its end
collect_past :
    (f : Filter) (n j : ℕ) (buf m rest t : List Entry)
    → buf ≡ reversed m ++ rest
    → collect buf f n j (n - 1) ≡ some (keep (matches f) t)
    → collect buf f n (length m + j) (back n (length m)) ≡ some (keep (matches f) (m ++ t))
collect_past f n j buf [] rest t e h = rw zero-add h
collect_past f n j buf (x ∷ m) rest t e h =
    let e' : buf ≡ reversed m ++ x ∷ rest = e ∙ append_assoc (reversed m) (x ∷ []) rest in
    rw suc-add (
      collect_step buf f n (length m + j) (length m) x (m ++ t) (last_of buf x m rest e')
        (collect_past f n j buf m (x ∷ rest) t e' h))

back_self : (n : ℕ) → back n n ≡ n - 1
back_self zero = refl
back_self (suc n) = omega arith

-- Reading backwards from the slot `pos` gives the window, newest first.
collect_window :
    (f : Filter) (k pos : ℕ) (buf : List Entry)
    → pos ≤ length buf
    → k ≤ length buf
    → collect buf f (length buf) k (back (length buf) pos)
      ≡ some (keep (matches f) (take k (reversed (drop pos buf ++ take pos buf))))
collect_window f k pos buf hp hk = go (dec_le k pos)
  where
    m : List Entry
    m = reversed (take pos buf)

    size : length m ≡ pos
    size = length-reversed (take pos buf) ∙ length-take pos buf hp

    shape : buf ≡ reversed m ++ drop pos buf
    shape = rw (reversed-reversed (take pos buf)) (sym (take-drop pos buf))

    order : reversed (drop pos buf ++ take pos buf) ≡ m ++ reversed (drop pos buf)
    order = reversed-append (drop pos buf) (take pos buf)

    order_all : reversed buf ≡ reversed (drop pos buf) ++ m
    order_all =
        ap reversed (sym (take-drop pos buf)) ∙ reversed-append (take pos buf) (drop pos buf)

    rest_size : length (reversed (drop pos buf)) ≡ length buf - pos
    rest_size = length-reversed (drop pos buf) ∙ length-drop pos buf

    again :
        (j : ℕ)
        → j ≤ length buf - pos
        → collect buf f (length buf) j (length buf - 1)
          ≡ some (keep (matches f) (take j (reversed (drop pos buf))))
    again zero hj = unfold collect in refl
    again (suc j) hj =
        let at_end : back (length buf) (length (reversed buf)) ≡ length buf - 1 =
          ap (back (length buf)) (length-reversed buf) ∙ back_self (length buf) in
        let within : suc j ≤ length (reversed buf) = omega (arith, length-reversed buf) in
        rw
          (
            ← take-append_within (reversed (drop pos buf)) m (suc j) (omega (arith, rest_size)),
            ← order_all,
            ← at_end,
          )
          (collect_within f (length buf) (suc j) buf (reversed buf) []
            (rw (reversed-reversed buf) (sym (append-nil buf))) within)

    go :
        Dec (k ≤ pos)
        → collect buf f (length buf) k (back (length buf) pos)
          ≡ some (keep (matches f) (take k (reversed (drop pos buf ++ take pos buf))))
    go (yes p) =
        rw (order, take-append_within m (reversed (drop pos buf)) k (omega (arith, size)))
          (subst
            (λ q.
              collect buf f (length buf) k (back (length buf) q)
              ≡ some (keep (matches f) (take k m)))
            size (collect_within f (length buf) k buf m (drop pos buf) shape (omega (arith, size))))
    go (no p) =
        let j = k - length m in
        let total : length m + j ≡ k = omega (arith, size) in
        rw (order, take-append_past m (reversed (drop pos buf)) k (omega (arith, size)))
          (subst₂
            (λ q i.
              collect buf f (length buf) i (back (length buf) q)
              ≡ some (keep (matches f) (m ++ take j (reversed (drop pos buf)))))
            size total
            (collect_past f (length buf) j buf m (drop pos buf) _ shape
              (again j (omega (arith, size)))))

clamp_limit-le : (limit n : ℕ) → clamp_limit limit n ≤ n
clamp_limit-le limit n = ground arith

held : (r : Ring) → IsValid r → (if r.full then r.cap else length r.buf) ≡ length r.buf
held r v = ground arith

start :
    (r : Ring)
    → IsValid r
    → (if r.full then back r.cap r.pos else length r.buf - 1) ≡ back (length r.buf) r.pos
start r v = elim (Bool-cases r.full) [
  | inl full ↦ rw (full, ← v.filled full)
  | inr growing ↦ rw (growing, v.growing growing)
]

-- On a ring with the invariant, `snapshot` never reads outside the buffer: it returns those of the
-- newest `limit` entries (all, if `limit` is 0 or more than are held) that pass the filter, newest
-- first.
pub snapshot_newest_first :
    (r : Ring) (limit : ℕ) (f : Filter)
    → IsValid r
    → snapshot r limit f
      ≡ some (keep (matches f) (take (clamp_limit limit (length r.buf)) (reversed (contents r))))
unfolding snapshot
snapshot_newest_first r limit f v =
    rw (held r v, start r v)
      (collect_window f (clamp_limit limit (length r.buf)) r.pos r.buf (pos-le r v)
        (clamp_limit-le limit (length r.buf)))
