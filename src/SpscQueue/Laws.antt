-- ===== src/SpscQueue/Laws.antt =====
-- The queue of libs/sys/memory/spsc_queue.hpp is a FIFO queue with a bound, also when its indices wrap.
use low_latency_tick_to_trad.Prelude.{
  ℕ, suc, ◌+◌, ◌-◌, ◌%◌, ◌≤◌, ◌≡◌, refl, sym, ◌∙◌, ap, Bool, true, false, Option, none, some, List,
  [], ◌∷◌, ◌++◌, arith, ltb, ◌==◌, ==_iff, if◌then◌else◌, length, Bool-cases, inl, inr,
}
use low_latency_tick_to_trad.Prelude.Word.{add32, sub32}
use low_latency_tick_to_trad.SpscQueue.{put, SpscQueue, try_push, write_items, try_pop}
use low_latency_tick_to_trad.SpscQueue.View.{view, length-view, view-mod}
use low_latency_tick_to_trad.SpscQueue.Slots.{
  IsValid, contents, size, filled, filled-IsValid, written-contents, whole,
}

-- The bounded FIFO queue that the code is to be.
abbrev pub push_list : {A : Type 0} → ℕ → List A → A → List A × Bool
push_list capacity xs x = if ltb (length xs) capacity then (xs ++ x ∷ [], true) else (xs, false)

abbrev pub pop_list : {A : Type 0} → List A → List A × Option A
pop_list [] = ([], none)
pop_list (x ∷ xs) = (xs, some x)

module _ {A : Type 0} where
  -- On a valid queue `try_push` answers and changes the elements as the push of a bounded list
  -- does: at the back, or not at all if there are as many as the capacity. The queue stays valid,
  -- also when its 32-bit indices wrap.
  pub try_push-contents :
      (q : SpscQueue A) (x : A)
      → IsValid q
      → IsValid (try_push q x).0
        × ((contents (try_push q x).0, (try_push q x).1) ≡ push_list q.capacity (contents q) x)
  unfolding try_push filled write_items
  try_push-contents q x v = elim (Bool-cases (size q == q.capacity)) [
    | inl e ↦
        let f : ltb (length (contents q)) q.capacity ≡ false =
          rw (length-view q.buf q.capacity q.head (size q)) (ground (arith, e)) in
        rw (e, f) (v, refl)
    | inr e ↦
        let f : ltb (length (contents q)) q.capacity ≡ true =
          rw (length-view q.buf q.capacity q.head (size q)) (ground (arith, e, v.bounded)) in
        let l : size q + 1 ≤ q.capacity = ground (arith, e, v.bounded) in
        let z : add32 q.tail 0 ≡ q.tail = omega (arith, v.tail_fits) in
        let w =
          ap (λ i. contents (filled q (put q.buf (i % q.capacity) x) 1)) (sym z)
          ∙ written-contents q v (x ∷ []) l in
        rw (e, f)
          (filled-IsValid q v (put q.buf (q.tail % q.capacity) x) 1 l, ap (λ xs. (xs, true)) w)
  ]

  pub popped-IsValid :
      (q : SpscQueue A)
      → IsValid q
      → (n : ℕ) → n ≤ size q
      → IsValid (record q { head = add32 q.head n })
  popped-IsValid q v n l = record {
    room = v.room;
    fits = v.fits;
    chunks = v.chunks;
    divides = v.divides;
    head_fits = omega arith;
    tail_fits = v.tail_fits;
    bounded = omega (arith, l, v.bounded, v.fits, v.head_fits, v.tail_fits);
  }

  -- What is left after `n` elements are taken.
  pub left-contents :
      (q : SpscQueue A)
      → IsValid q
      → (n : ℕ) → n ≤ size q
      → contents (record q { head = add32 q.head n })
        ≡ view q.buf q.capacity (q.head + n) (size q - n)
  left-contents q v n l =
      let k : sub32 q.tail (add32 q.head n) ≡ size q - n =
        omega (arith, l, v.bounded, v.fits, v.head_fits, v.tail_fits) in
      ap (view q.buf q.capacity (add32 q.head n)) k
      ∙ view-mod q.buf q.capacity (add32 q.head n) (q.head + n) (size q - n)
          (whole q v (q.head + n))

  pub try_pop-contents :
      (q : SpscQueue A)
      → IsValid q
      → IsValid (try_pop q).0 × ((contents (try_pop q).0, (try_pop q).1) ≡ pop_list (contents q))
  unfolding try_pop view
  try_pop-contents q v = elim (Bool-cases (q.head == q.tail)) [
    | inl e ↦
        let n : size q ≡ 0 =
          (let y = (==_iff q.head q.tail).0 e in omega (arith, y, v.head_fits)) in
        rw e (
          v,
          ap (λ k. (view q.buf q.capacity q.head k, none)) n
              ∙ sym (ap (λ k. pop_list (view q.buf q.capacity q.head k)) n),
        )
    | inr e ↦
        let l : 1 ≤ size q = ground (arith, e, v.head_fits, v.tail_fits) in
        let n : size q ≡ suc (size q - 1) = omega (arith, l) in
        rw e (
          popped-IsValid q v 1 l,
          ap (λ xs. (xs, some (q.buf (q.head % q.capacity)))) (left-contents q v 1 l)
              ∙ sym (ap (λ k. pop_list (view q.buf q.capacity q.head k)) n),
        )
  ]
