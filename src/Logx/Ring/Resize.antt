-- ===== src/Logx/Ring/Resize.antt =====
-- What `resized` keeps: the newest entries of a ring that has gone round, the oldest of one that has
-- not.
use native.Mathlib.Decide.{dec_lt}
use native.Mathlib.Nat.{mod-lt, mod-add-mod, mod-eq_of_lt, mod-eq-sub-mod}
use polarix_plus.Base.{
  ltb, ◌==◌, if◌then◌else◌, Bool-cases, length, get_elem?, take, drop, length-append, length-drop,
  get_elem?-within, get_elem?-past, get_elem?-drop, get_elem?-take, get_elem?-some, ℕ, zero, suc,
  ◌+◌, ◌-◌, ◌%◌, ◌≤◌, ◌<◌, ◌≡◌, refl, sym, ap, ◌∙◌, inl, inr, false, some, List, [], ◌∷◌, ◌++◌,
  append-nil, append_assoc, arith,
}
use polarix_plus.Logx.{Entry}
use polarix_plus.Logx.Ring.{Ring, push, copy_from, resized}
use polarix_plus.Logx.Ring.Window.{IsValid, contents, pos-le}

-- a push with room only appends
push_room :
    (r : Ring) (e : Entry)
    → r.full ≡ false
    → length r.buf < r.cap
    → push r e ≡ record r { buf = r.buf ++ e ∷ [] }
unfolding push
push_room r e growing room = ground arith

-- What the copying loop appends: `k` entries, read round the old buffer from `start + i` on.
Copied : List Entry → ℕ → ℕ → ℕ → Ring → List Entry → Type 0
Copied buf start i k next out =
    (copy_from buf start i k next ≡ some (record next { buf = next.buf ++ out }))
    × (length out ≡ k)
    × ((j : ℕ) → j < k → get_elem? out j ≡ get_elem? buf ((start + i + j) % length buf))

shift_reads :
    (buf : List Entry) (start i k : ℕ) (e : Entry) (out : List Entry)
    → get_elem? buf ((start + i) % length buf) ≡ some e
    → ((j : ℕ) → j < k → get_elem? out j ≡ get_elem? buf ((start + (i + 1) + j) % length buf))
    → (j : ℕ) → j < suc k
    → get_elem? (e ∷ out) j ≡ get_elem? buf ((start + i + j) % length buf)
shift_reads buf start i k e out got reads zero h =
    sym got ∙ ap (λ n. get_elem? buf (n % length buf)) (omega arith)
shift_reads buf start i k e out got reads (suc j) h =
    reads j (omega arith) ∙ ap (λ n. get_elem? buf (n % length buf)) (omega arith)

-- one round of the copying loop, with the rest of it
copy_from_round :
    (buf : List Entry) (start i k : ℕ) (next : Ring) (e : Entry) (out : List Entry)
    → get_elem? buf ((start + i) % length buf) ≡ some e
    → next.full ≡ false
    → length next.buf < next.cap
    → copy_from buf start (i + 1) k (record next { buf = next.buf ++ e ∷ [] })
      ≡ some (record next { buf = (next.buf ++ e ∷ []) ++ out })
    → copy_from buf start i (suc k) next ≡ some (record next { buf = next.buf ++ e ∷ out })
unfolding copy_from
copy_from_round buf start i k next e out got growing room rest =
    rw (got, copy_from)
      (rw (push_room next e growing room, rest, append_assoc next.buf (e ∷ []) out))

copy_from-Copied :
    (buf : List Entry) (start i k : ℕ) (next : Ring)
    → 0 < length buf
    → next.full ≡ false
    → length next.buf + k ≤ next.cap
    → (out : List Entry) × Copied buf start i k next out
unfolding copy_from Copied
copy_from-Copied buf start i zero next some_held growing room = (
  [],
  (
    ap some (λ t. record next { buf = sym (append-nil next.buf) t }),
    refl,
    λ j h. absurd (omega arith),
  ),
)
copy_from-Copied buf start i (suc k) next some_held growing room =
    let (e, got) = get_elem?-some buf ((start + i) % length buf) (mod-lt _ some_held) in
    let size : length (next.buf ++ e ∷ []) ≡ length next.buf + 1 =
      length-append next.buf (e ∷ []) in
    let (out, made) =
      copy_from-Copied buf start (i + 1) k (record next { buf = next.buf ++ e ∷ [] }) some_held
        growing (omega (arith, size)) in
    let (copied, count, reads) = made in
    (
      e ∷ out,
      (
        copy_from_round buf start i k next e out got growing (omega arith) copied,
        ap suc count,
        shift_reads buf start i k e out got reads,
      ),
    )

-- The window read by an index from its oldest entry.
pub get_elem?-contents :
    (r : Ring) (i : ℕ)
    → IsValid r
    → i < length r.buf
    → get_elem? (contents r) i ≡ get_elem? r.buf ((r.pos + i) % length r.buf)
get_elem?-contents r i v h = elim (dec_lt (r.pos + i) (length r.buf)) [
  | yes p ↦
      get_elem?-within (drop r.pos r.buf) (take r.pos r.buf) i
        (omega (arith, length-drop r.pos r.buf))
      ∙ (get_elem?-drop r.pos r.buf i ∙ ap (get_elem? r.buf) (sym (mod-eq_of_lt p)))
  | no p ↦
      get_elem?-past (drop r.pos r.buf) (take r.pos r.buf) i
        (omega (arith, length-drop r.pos r.buf))
      ∙ (get_elem?-take r.pos r.buf (i - length (drop r.pos r.buf))
            (omega (arith, length-drop r.pos r.buf, pos-le r v))
          ∙ ap (get_elem? r.buf) (
              omega (
                arith,
                length-drop r.pos r.buf,
                pos-le r v,
                mod-eq-sub-mod {n = r.pos + i} {m = length r.buf} (omega arith),
                mod-eq_of_lt {n = r.pos + i - length r.buf} {m = length r.buf}
                    (omega (arith, pos-le r v)),
              )))
]

abbrev pub smaller : ℕ → ℕ → ℕ
smaller cap len = if ltb cap len then cap else len

-- where the copy begins, counted from the oldest entry
abbrev pub offset : Ring → ℕ → ℕ
offset r n = if r.full then length r.buf - n else 0

smaller-le : (cap len : ℕ) → (smaller cap len ≤ cap) × (smaller cap len ≤ len)
smaller-le cap len = (ground arith, ground arith)

offset_lt : (r : Ring) (n i : ℕ) → i < n → n ≤ length r.buf → offset r n + i < length r.buf
offset_lt r n i h k = ground arith

same_slot :
    (r : Ring) (n i : ℕ)
    → IsValid r
    → n ≤ length r.buf
    → ((if r.full then (r.pos + length r.buf - n) % length r.buf else 0) + 0 + i) % length r.buf
      ≡ (r.pos + (offset r n + i)) % length r.buf
same_slot r n i v k = elim (Bool-cases r.full) [
  | inl full ↦ rw full (
      ap (λ m. m % length r.buf) (omega arith)
      ∙ (mod-add-mod (r.pos + length r.buf - n) (length r.buf) i
          ∙ ap (λ m. m % length r.buf) (omega arith)))
  | inr growing ↦ rw (growing, v.growing growing) (ap (λ m. m % length r.buf) (omega arith))
]

-- On a ring with the invariant that holds an entry, `resized` to a positive capacity never reads
-- outside the buffer. The new ring holds as many of the old entries as fit, in their order: the
-- newest ones of a ring that is full, the oldest ones of a ring that is not.
pub resized_keeps :
    (r : Ring) (cap : ℕ)
    → IsValid r
    → 0 < length r.buf
    → 0 < cap
    → let n = smaller cap (length r.buf) in
      (next : Ring) × (resized r cap ≡ some next)
      × (next.cap ≡ cap)
      × (length (contents next) ≡ n)
      × ((i : ℕ) → i < n → get_elem? (contents next) i ≡ get_elem? (contents r) (offset r n + i))
unfolding resized Copied
resized_keeps r cap v some_held positive =
    let n = smaller cap (length r.buf) in
    let st = if r.full then (r.pos + length r.buf - n) % length r.buf else 0 in
    let sized : (cap == 0) ≡ false = ground arith in
    let fresh : Ring = record { buf = []; cap = cap; pos = 0; full = false } in
    let (out, made) =
      copy_from-Copied r.buf st 0 n fresh some_held refl
        (omega (arith, (smaller-le cap (length r.buf)).0)) in
    let (copied, count, reads) = made in
    (
      record fresh { buf = out },
      rw sized copied,
      refl,
      rw (append-nil out) count,
      λ i h. rw (append-nil out) (
          reads i h
          ∙ ap (get_elem? r.buf) (same_slot r n i v (smaller-le cap (length r.buf)).1)
          ∙ sym (
              get_elem?-contents r (offset r n + i) v
                (offset_lt r n i h (smaller-le cap (length r.buf)).1))),
    )
