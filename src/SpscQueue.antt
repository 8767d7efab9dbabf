-- ===== src/SpscQueue.antt =====
-- libs/sys/memory/spsc_queue.hpp: the bounded queue of one producer and one consumer. The indices are
-- 32-bit and wrap; the capacity is a power of two, so `t & mask_` is `t % capacity`. The buffer is a
-- function of the slot index.
pub mod View
pub mod Slots
pub mod Laws
pub mod Batches
pub mod Threads
pub mod Fifo
use low_latency_tick_to_trad.Prelude.{
  ℕ, zero, suc, ◌+◌, ◌-◌, ◌*◌, ◌%◌, ◌≤◌, ◌<◌, ◌≡◌, ◌≢◌, refl, sym, subst, ◌∙◌, ap, Bool, true,
  false, not, ◌&&◌, ◌||◌, Option, none, some, List, [], ◌∷◌, ◌++◌, arith, ltb, leb, ◌==◌, ==_iff,
  if◌then◌else◌, length, length-append, append-nil, append_assoc, min, max, Bool-cases,
  Option-cases, inl, inr, ◌⊎◌, take,
}
use low_latency_tick_to_trad.Prelude.Word.{u32, add32, sub32}

pub record SpscQueue (A : Type 0) : Type 0 where
  pub buf : ℕ → A
  pub head : ℕ
  pub tail : ℕ
  pub capacity : ℕ

-- `buf_raw_[i] = v`
abbrev pub put : {A : Type 0} → (ℕ → A) → ℕ → A → ℕ → A
put buf i v j = if j == i then v else buf j

module _ {A : Type 0} where
  unfoldable pub try_push : SpscQueue A → A → SpscQueue A × Bool
  try_push q v =
      if sub32 q.tail q.head == q.capacity
      then (q, false)
      else (record q { buf = put q.buf (q.tail % q.capacity) v; tail = add32 q.tail 1 }, true)

  -- The loop of `try_push_batch`, from the index `i` on.
  unfoldable pub write_items : ℕ → ℕ → ℕ → List A → (ℕ → A) → ℕ → A
  write_items capacity t i [] buf = buf
  write_items capacity t i (v ∷ vs) buf =
      write_items capacity t (i + 1) vs (put buf (add32 t i % capacity) v)

  unfoldable pub try_push_batch : SpscQueue A → List A → SpscQueue A × ℕ
  unfolding write_items
  try_push_batch q items =
      let n = min (length items) (sub32 q.capacity (sub32 q.tail q.head)) in
      let buf = write_items q.capacity q.tail 0 (take n items) q.buf in
      (record q { buf = buf; tail = if ltb 0 n then add32 q.tail n else q.tail }, n)

  -- The value that is popped, if there is one.
  unfoldable pub try_pop : SpscQueue A → SpscQueue A × Option A
  try_pop q =
      if q.head == q.tail
      then (q, none)
      else (record q { head = add32 q.head 1 }, some (q.buf (q.head % q.capacity)))

  -- `memcpy` of `n` slots from a start.
  unfoldable pub copy : (ℕ → A) → ℕ → ℕ → List A
  copy buf start zero = []
  copy buf start (suc n) = buf start ∷ copy buf (start + 1) n

  -- `none` is the failed assertion that the maximum is above zero.
  unfoldable pub drain : SpscQueue A → ℕ → Option (SpscQueue A × List A)
  unfolding copy
  drain q max_count =
      let n = min (sub32 q.tail q.head) max_count in
      let start = q.head % q.capacity in
      let first = min n (q.capacity - start) in
      let second = n - first in
      if max_count == 0
      then none
      else if q.head == q.tail
      then some (q, [])
      else some (record q { head = add32 q.head n }, copy q.buf start first ++ copy q.buf 0 second)
