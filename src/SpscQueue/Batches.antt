-- ===== src/SpscQueue/Batches.antt =====
-- The batch operations of libs/sys/memory/spsc_queue.hpp, whose two copies meet at the end of the buffer.
use low_latency_tick_to_trad.Prelude.{
  ℕ, ◌+◌, ◌-◌, ◌%◌, ◌≤◌, ◌<◌, ◌≡◌, refl, sym, subst, ◌∙◌, ap, List, ◌++◌, arith, ltb, ◌==◌, ==_iff,
  if◌then◌else◌, length, min, Bool-cases, inl, inr, take, ap₂, length-take, some, false, [],
}
use low_latency_tick_to_trad.Prelude.Word.{add32, sub32}
use low_latency_tick_to_trad.SpscQueue.{copy, SpscQueue, try_push_batch, write_items, drain}
use low_latency_tick_to_trad.SpscQueue.View.{view, length-view, view-mod, view-append, view-copy}
use low_latency_tick_to_trad.SpscQueue.Slots.{
  IsValid, contents, size, filled, filled-IsValid, written-contents,
}
use low_latency_tick_to_trad.SpscQueue.Laws.{popped-IsValid, left-contents}
use native.Mathlib.Nat.{mod-lt, mod-mod, mod-eq-sub-mod}

module _ {A : Type 0} where
  -- On a valid queue `try_push_batch` appends as many of the items, from the first on and in order,
  -- as there are items and free slots, and answers their number; the queue stays valid.
  pub try_push_batch-contents :
      (q : SpscQueue A) (items : List A)
      → IsValid q
      → IsValid (try_push_batch q items).0
        × ((try_push_batch q items).1 ≡ min (length items) (q.capacity - length (contents q)))
        × (contents (try_push_batch q items).0
            ≡ contents q ++ take (try_push_batch q items).1 items)
  unfolding try_push_batch filled
  try_push_batch-contents q items v =
      let n = min (length items) (sub32 q.capacity (size q)) in
      let free : sub32 q.capacity (size q) ≡ q.capacity - size q =
        omega (arith, v.bounded, v.fits) in
      let len : length (take n items) ≡ n = length-take n items ∙ omega (arith, free) in
      let l : size q + length (take n items) ≤ q.capacity = omega (arith, len, free, v.bounded) in
      let buf = write_items q.capacity q.tail 0 (take n items) q.buf in
      let moved : (if ltb 0 n then add32 q.tail n else q.tail)
          ≡ add32 q.tail (length (take n items)) =
        tail_moves n (length (take n items)) len in
      let same : (record q { buf = buf; tail = if ltb 0 n then add32 q.tail n else q.tail })
          ≡ filled q buf (length (take n items)) =
        ap (λ t. (record q { buf = buf; tail = t })) moved in
      (
        subst IsValid (sym same) (filled-IsValid q v buf (length (take n items)) l),
        rw (length-view q.buf q.capacity q.head (size q)) (omega (arith, free)),
        ap contents same ∙ written-contents q v (take n items) l,
      )
    where
      tail_moves : (n k : ℕ) → k ≡ n → (if ltb 0 n then add32 q.tail n else q.tail) ≡ add32 q.tail k
      tail_moves n k e = elim (Bool-cases (ltb 0 n)) [
        | inl y ↦ rw (y, e) refl
        | inr y ↦
            let z : q.tail ≡ add32 q.tail k =
              (let w : k ≡ 0 = ground (arith, y, e) in omega (arith, w, v.tail_fits)) in
            rw y z
      ]

  -- The two copies, of which the second starts over at the first slot.
  two_copies :
      (buf : ℕ → A) (c h n : ℕ)
      → 0 < c
      → n ≤ c
      → copy buf (h % c) (min n (c - h % c)) ++ copy buf 0 (n - min n (c - h % c)) ≡ view buf c h n
  unfolding view copy
  two_copies buf c h n p l =
      let s = h % c in
      let first = min n (c - s) in
      let second = n - first in
      let b : s < c = mod-lt h p in
      let sum : n ≡ first + second = omega arith in
      let whole_view : view buf c h n ≡ view buf c s first ++ view buf c (s + first) second =
        view-mod buf c h s n (sym (mod-mod h c))
        ∙ ap (view buf c s) sum
        ∙ view-append buf c s first second in
      let one : view buf c s first ≡ copy buf s first =
        view-copy buf c s first (omega (arith, b)) in
      let two : view buf c (s + first) second ≡ copy buf 0 second =
        elim (Bool-cases (second == 0)) [
          | inl y ↦
              subst (λ k. view buf c (s + first) k ≡ copy buf 0 k) (sym ((==_iff second 0).0 y))
                refl
          | inr y ↦
              let full : s + first ≡ c = ground (arith, y, b) in
              let less : c ≤ c = omega arith in
              let none_left : c - c ≡ 0 = omega arith in
              view-mod buf c (s + first) 0 second
                (ap (λ z. z % c) full ∙ mod-eq-sub-mod less ∙ ap (λ z. z % c) none_left)
              ∙ view-copy buf c 0 second (omega (arith, l))
        ] in
      sym (whole_view ∙ ap₂ (λ a b. a ++ b) one two)

  -- What a drain gives: the queue that is left and the elements taken from it.
  pub record Drained (q : SpscQueue A) (max_count : ℕ) (r : SpscQueue A) (out : List A)
      : Type 0 where
    pub valid : IsValid r
    pub count : length out ≡ min (length (contents q)) max_count
    pub in_order : contents q ≡ out ++ contents r

  -- On a valid queue `drain` for a maximum above zero returns the oldest elements in order, as many
  -- as there are up to the maximum, whether or not they pass the end of the buffer; the rest stays
  -- in order, and the queue stays valid.
  pub drain-contents :
      (q : SpscQueue A) (max_count : ℕ)
      → IsValid q
      → 0 < max_count
      → (r : SpscQueue A) × (out : List A) × (drain q max_count ≡ some (r, out))
        × Drained q max_count r out
  unfolding drain
  drain-contents q max_count v pos_count =
      let some_room : (max_count == 0) ≡ false = ground (arith, pos_count) in
      elim (Bool-cases (q.head == q.tail)) [
        | inl e ↦
            let n : size q ≡ 0 =
              (let y = (==_iff q.head q.tail).0 e in omega (arith, y, v.head_fits)) in
            (
              q,
              [],
              rw (some_room, e) refl,
              record {
                valid = v;
                count =
                    (let z : length (contents q) ≡ 0 =
                        length-view q.buf q.capacity q.head (size q) ∙ n in
                      omega (arith, z));
                in_order = refl;
              },
            )
        | inr e ↦
            let n = min (size q) max_count in
            let h : n ≤ size q = omega arith in
            let out = two_copies q.buf q.capacity q.head n v.room (omega (arith, v.bounded)) in
            let sum : size q ≡ n + (size q - n) = omega arith in
            let len = length-view q.buf q.capacity q.head (size q) in
            (
              _,
              _,
              rw (some_room, e) refl,
              record {
                valid = popped-IsValid q v n h;
                count =
                    ap length out
                    ∙ length-view q.buf q.capacity q.head n
                    ∙ ap (λ k. min k max_count) (sym len);
                in_order =
                    ap (view q.buf q.capacity q.head) sum
                    ∙ view-append q.buf q.capacity q.head n (size q - n)
                    ∙ ap₂ (λ a b. a ++ b) (sym out) (sym (left-contents q v n h));
              },
            )
      ]
