-- ===== src/Logx/Ring/Window.antt =====
-- A ring is a window on the history of the log: it holds the newest entries, up to its capacity.
use native.Mathlib.Nat.{mod_self, mod-eq_of_lt}
use polarix_plus.Base.{
  ltb, ◌==◌, Bool-cases, length, set, take, drop, length-append, length-set, length-drop, take-drop,
  drop-append, drop_all, take-append, set-append, split_at, drop-drop, drop-append_within, ℕ, ◌+◌,
  ◌-◌, ◌%◌, ◌≤◌, ◌<◌, ◌≡◌, refl, sym, ap, ◌∙◌, inl, inr, true, false, not, ◌&&◌, List, [], ◌∷◌,
  ◌++◌, append-nil, append_assoc, arith,
}
use polarix_plus.Logx.{Entry}
use polarix_plus.Logx.Ring.{Ring, new_ring, push}

-- What `newRing` makes and `push` keeps.
pub record IsValid (r : Ring) : Type 0 where
  pub positive : 0 < r.cap
  pub growing : r.full ≡ false → r.pos ≡ 0
  pub fits : length r.buf ≤ r.cap
  pub filled : r.full ≡ true → length r.buf ≡ r.cap
  pub slot : r.pos < r.cap

-- The entries held, oldest first.
abbrev pub contents : Ring → List Entry
contents r = drop r.pos r.buf ++ take r.pos r.buf

-- The newest `cap` entries of a history, oldest first.
abbrev pub newest : ℕ → List Entry → List Entry
newest cap es = drop (length es - cap) es

pub new_ring-IsValid : (cap : ℕ) → IsValid (new_ring cap)
unfolding new_ring
new_ring-IsValid cap = ground arith

-- `push` keeps the invariant of a ring.
pub push-IsValid : (r : Ring) (e : Entry) → IsValid r → IsValid (push r e)
unfolding push
push-IsValid r e v = ground (arith, length-append r.buf (e ∷ []), length-set r.buf r.pos e)

pub pos-le : (r : Ring) → IsValid r → r.pos ≤ length r.buf
pos-le r v = ground arith

pub cap-push : (r : Ring) (e : Entry) → (push r e).cap ≡ r.cap
unfolding push
cap-push r e = ground arith

-- Overwriting the oldest slot of a full buffer moves the window by one entry.
rotate_at :
    (l : List Entry) (x : Entry) (rr : List Entry) (e : Entry) (p : ℕ)
    → p ≡ (length l + 1) % length (l ++ x ∷ rr)
    → drop p (l ++ e ∷ rr) ++ take p (l ++ e ∷ rr) ≡ rr ++ (l ++ e ∷ [])
rotate_at l x [] e p h =
    let z : p ≡ 0 = h ∙ rw (length-append l (x ∷ [])) (mod_self (length l + 1)) in
    rw z (append-nil (l ++ e ∷ []))
rotate_at l x (y ∷ ys) e p h =
    let small : length l + 1 < length (l ++ x ∷ y ∷ ys) =
      omega (arith, length-append l (x ∷ y ∷ ys)) in
    let z : p ≡ length (l ++ e ∷ []) =
      omega (arith, length-append l (e ∷ []), mod-eq_of_lt small) in
    let s : l ++ e ∷ y ∷ ys ≡ (l ++ e ∷ []) ++ y ∷ ys = sym (append_assoc l (e ∷ []) (y ∷ ys)) in
    rw (z, s, drop-append (l ++ e ∷ []) (y ∷ ys), take-append (l ++ e ∷ []) (y ∷ ys))

rotate :
    (buf : List Entry) (e : Entry) (pos : ℕ)
    → pos < length buf
    → let p = (pos + 1) % length buf in
      drop p (set buf pos e) ++ take p (set buf pos e)
      ≡ drop 1 ((drop pos buf ++ take pos buf) ++ e ∷ [])
rotate buf e pos h = go (split_at pos buf h)
  where
    go :
        (l : List Entry) × (x : Entry) × (r : List Entry) × (buf ≡ l ++ x ∷ r) × (length l ≡ pos)
        → let p = (pos + 1) % length buf in
          drop p (set buf pos e) ++ take p (set buf pos e)
          ≡ drop 1 ((drop pos buf ++ take pos buf) ++ e ∷ [])
    go (l, x, r, q, k) =
        rw
          (
            q,
            ← k,
            set-append l x e r,
            drop-append l (x ∷ r),
            take-append l (x ∷ r),
            append_assoc r l (e ∷ []),
          )
          (rotate_at l x r e _ refl)

pub length-contents : (r : Ring) → IsValid r → length (contents r) ≡ length r.buf
length-contents r v =
    length-append (drop r.pos r.buf) (take r.pos r.buf)
    ∙ ground (
      arith,
      length-drop r.pos r.buf,
      ap length (take-drop r.pos r.buf),
      length-append (take r.pos r.buf) (drop r.pos r.buf),
    )

-- The tests of `push`, read on a valid ring.
has_room :
    (r : Ring)
    → (not r.full && ltb (length r.buf) r.cap) ≡ true
    → (r.full ≡ false) × (length r.buf < r.cap)
has_room r h = ground arith

no_room :
    (r : Ring)
    → IsValid r
    → (not r.full && ltb (length r.buf) r.cap) ≡ false
    → (length r.buf ≡ r.cap) × ((length r.buf == 0) ≡ false)
no_room r v h = ground arith

newest_room :
    (cap : ℕ) (es : List Entry) (e : Entry)
    → length es < cap
    → newest cap (es ++ e ∷ []) ≡ es ++ e ∷ []
newest_room cap es e h =
    ap (λ n. drop n (es ++ e ∷ [])) {y = 0} (omega (arith, length-append es (e ∷ [])))

newest_full :
    (cap : ℕ) (es : List Entry) (e : Entry)
    → length es ≡ cap
    → newest cap (es ++ e ∷ []) ≡ drop 1 (es ++ e ∷ [])
newest_full cap es e h =
    ap (λ n. drop n (es ++ e ∷ [])) {y = 1} (omega (arith, length-append es (e ∷ [])))

-- `push` adds an entry at the new end, and drops the oldest one when the ring holds `cap` entries.
pub contents-push :
    (r : Ring) (e : Entry) → IsValid r → contents (push r e) ≡ newest r.cap (contents r ++ e ∷ [])
unfolding push
contents-push r e v = elim (Bool-cases (not r.full && ltb (length r.buf) r.cap)) [
  | inl g ↦
      let (growing, room) = has_room r g in
      let start : r.pos ≡ 0 = v.growing growing in
      rw (
        g,
        newest_room r.cap (contents r) e (omega (arith, length-contents r v)),
        start,
        append-nil r.buf,
        append-nil (r.buf ++ e ∷ []),
      )
  | inr w ↦
      let (size, some_held) = no_room r v w in
      rw (w, some_held, newest_full r.cap (contents r) e (length-contents r v ∙ size), ← size)
        (rotate r.buf e r.pos (omega arith))
]

-- The entries pushed one after another.
abbrev pub push_all : Ring → List Entry → Ring
push_all r [] = r
push_all r (e ∷ es) = push_all (push r e) es

newest-newest :
    (cap : ℕ) (es : List Entry) (e : Entry)
    → newest cap (newest cap es ++ e ∷ []) ≡ newest cap (es ++ e ∷ [])
newest-newest cap es e =
    let m = length es - cap in
    let a = length (newest cap es ++ e ∷ []) - cap in
    ap (drop a) (sym (drop-append_within m es (e ∷ []) (omega arith)))
    ∙ (drop-drop a m (es ++ e ∷ [])
        ∙ ap (λ n. drop n (es ++ e ∷ []))
            (omega (
              arith,
              length-append (newest cap es) (e ∷ []),
              length-drop m es,
              length-append es (e ∷ []),
            )))

contents-push_all_from :
    (r : Ring) (cap : ℕ) (past es : List Entry)
    → IsValid r
    → r.cap ≡ cap
    → contents r ≡ newest cap past
    → contents (push_all r es) ≡ newest cap (past ++ es)
contents-push_all_from r cap past [] v c h = rw (append-nil past) h
contents-push_all_from r cap past (e ∷ es) v c h = rw (← append_assoc past (e ∷ []) es) (
    contents-push_all_from (push r e) cap (past ++ e ∷ []) es (push-IsValid r e v)
      (cap-push r e ∙ c)
      (contents-push r e v
        ∙ (ap (λ n. newest n (contents r ++ e ∷ [])) c
            ∙ (ap (λ l. newest cap (l ++ e ∷ [])) h ∙ newest-newest cap past e))))

cap-new_ring : (cap : ℕ) → 0 < cap → (new_ring cap).cap ≡ cap
unfolding new_ring
cap-new_ring cap h = ground arith

contents-new_ring : (cap : ℕ) → contents (new_ring cap) ≡ newest cap []
unfolding new_ring
contents-new_ring cap = sym (drop_all (0 - cap) [] (omega arith))

-- After any pushes a new ring of a positive capacity holds the newest entries pushed, up to its
-- capacity, in order.
pub contents-push_all :
    (cap : ℕ) (es : List Entry) → 0 < cap → contents (push_all (new_ring cap) es) ≡ newest cap es
contents-push_all cap es h =
    contents-push_all_from (new_ring cap) cap [] es (new_ring-IsValid cap) (cap-new_ring cap h)
      (contents-new_ring cap)
