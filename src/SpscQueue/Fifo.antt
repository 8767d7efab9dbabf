-- ===== src/SpscQueue/Fifo.antt =====
-- Whatever the interleaving of its two threads, the queue of libs/sys/memory/spsc_queue.hpp hands on the
-- values in order, none lost and none twice.
use low_latency_tick_to_trad.Prelude.{
  ℕ, suc, ◌+◌, ◌-◌, ◌%◌, ◌≤◌, ◌<◌, ◌≡◌, refl, sym, subst, ◌∙◌, ap, true, false, List, [], ◌∷◌, ◌++◌,
  arith, ◌==◌, ==_iff, append_assoc, Bool-cases, inl, inr,
}
use low_latency_tick_to_trad.Prelude.Word.{u32, add32, sub32}
use low_latency_tick_to_trad.SpscQueue.{put, SpscQueue}
use low_latency_tick_to_trad.SpscQueue.View.{view, view-append, view-put}
use low_latency_tick_to_trad.SpscQueue.Slots.{
  IsValid, contents, size, filled, filled-IsValid, slots_wrap, earlier,
}
use low_latency_tick_to_trad.SpscQueue.Laws.{popped-IsValid, left-contents}
use low_latency_tick_to_trad.SpscQueue.Threads.{
  Producer, Consumer, Move, Threads, step_producer, step_consumer, step, run, at_rest, loaded,
  written, taken, produce, consume,
}

module _ {A : Type 0} where
  -- The producer's indices: its own is current, the consumer's may be late.
  abbrev pub Produces : SpscQueue A → Producer A → Type 0
  Produces q at_rest = Unit
  Produces q (loaded v t h) = (t ≡ q.tail) × (size q ≤ sub32 t h) × (sub32 t h ≤ q.capacity)
  Produces q (written v t) = (t ≡ q.tail) × (size q < q.capacity) × (q.buf (t % q.capacity) ≡ v)

  abbrev pub Consumes : SpscQueue A → Consumer A → Type 0
  Consumes q at_rest = Unit
  Consumes q (loaded h t) = (h ≡ q.head) × (t < u32) × (sub32 t h ≤ size q)
  Consumes q (taken h x) = (h ≡ q.head) × (0 < size q) × (q.buf (h % q.capacity) ≡ x)

  pub record Sound (s : Threads A) : Type 0 where
    pub valid : IsValid s.queue
    pub in_order : s.pushed ≡ s.popped ++ contents s.queue
    pub producing : Produces s.queue s.producer
    pub consuming : Consumes s.queue s.consumer

  -- The slot at the tail is none of those in use.
  tail_slot : (q : SpscQueue A) → IsValid q → q.tail % q.capacity ≡ (q.head + size q) % q.capacity
  tail_slot q v =
      let e : add32 q.tail 0 ≡ q.tail = omega (arith, v.tail_fits) in
      let z : q.head + size q + 0 ≡ q.head + size q = omega arith in
      ap (λ i. i % q.capacity) (sym e) ∙ slots_wrap q v 0 ∙ ap (λ i. i % q.capacity) z

  tail_free :
      (q : SpscQueue A)
      → IsValid q
      → size q < q.capacity
      → (d : ℕ) → d < size q
      → ((q.head + d) % q.capacity == q.tail % q.capacity) ≡ false
  tail_free q v l d w =
      subst (λ z. ((q.head + d) % q.capacity == z) ≡ false) (sym (tail_slot q v))
        (earlier q.capacity q.head d (size q) w l)

  head_free :
      (q : SpscQueue A)
      → IsValid q
      → size q < q.capacity
      → 0 < size q
      → (q.head % q.capacity == q.tail % q.capacity) ≡ false
  head_free q v l w =
      subst (λ z. (z % q.capacity == q.tail % q.capacity) ≡ false) (omega arith)
        (tail_free q v l 0 w)

  reads_kept :
      (q : SpscQueue A) (c : Consumer A) (v : A)
      → IsValid q
      → size q < q.capacity
      → Consumes q c
      → Consumes (record q { buf = put q.buf (q.tail % q.capacity) v }) c
  reads_kept q at_rest v w l k = tt
  reads_kept q (loaded h t) v w l k = k
  reads_kept q (taken h x) v w l (a, b, e) =
      let f : (h % q.capacity == q.tail % q.capacity) ≡ false =
        subst (λ z. (z % q.capacity == q.tail % q.capacity) ≡ false) (sym a) (head_free q w l b) in
      (a, b, rw f e)

  reads_on :
      (q : SpscQueue A) (c : Consumer A)
      → IsValid q
      → size q < q.capacity
      → Consumes q c
      → Consumes (record q { tail = add32 q.tail 1 }) c
  reads_on q at_rest w l k = tt
  reads_on q (loaded h t) w l (a, b, e) =
      (a, b, omega (arith, e, l, w.fits, w.head_fits, w.tail_fits))
  reads_on q (taken h x) w l (a, b, e) =
      (a, omega (arith, b, l, w.fits, w.head_fits, w.tail_fits), e)

  pushes_on :
      (q : SpscQueue A) (p : Producer A)
      → IsValid q
      → 0 < size q
      → Produces q p
      → Produces (record q { head = add32 q.head 1 }) p
  pushes_on q at_rest w l k = tt
  pushes_on q (loaded v t h) w l (a, b, e) =
      (a, omega (arith, b, l, w.fits, w.head_fits, w.tail_fits), e)
  pushes_on q (written v t) w l (a, b, e) =
      (a, omega (arith, b, l, w.fits, w.head_fits, w.tail_fits), e)

  write-Sound :
      (w : A) (s : Threads A)
      → Sound s
      → size s.queue < s.queue.capacity
      → Sound (record s {
        queue = record s.queue { buf = put s.queue.buf (s.queue.tail % s.queue.capacity) w };
        producer = written w s.queue.tail;
      })
  write-Sound w s k l =
      let q = s.queue in
      let i = q.tail % q.capacity in
      let same = view-put q.buf q.capacity q.head (size q) i w (tail_free q k.valid l) in
      let here : (i == i) ≡ true = (==_iff i i).1 refl in
      record {
        valid = record {
          room = k.valid.room;
          fits = k.valid.fits;
          chunks = k.valid.chunks;
          divides = k.valid.divides;
          head_fits = k.valid.head_fits;
          tail_fits = k.valid.tail_fits;
          bounded = k.valid.bounded;
        };
        in_order = k.in_order ∙ ap (λ xs. s.popped ++ xs) (sym same);
        producing = (refl, l, rw here refl);
        consuming = reads_kept q s.consumer w k.valid l k.consuming;
      }

  published-contents :
      (q : SpscQueue A) (w : A)
      → IsValid q
      → size q < q.capacity
      → q.buf (q.tail % q.capacity) ≡ w
      → contents (record q { tail = add32 q.tail 1 }) ≡ contents q ++ w ∷ []
  unfolding view
  published-contents q w v l e =
      let n : sub32 (add32 q.tail 1) q.head ≡ size q + 1 =
        omega (arith, l, v.fits, v.head_fits, v.tail_fits) in
      ap (view q.buf q.capacity q.head) n
      ∙ view-append q.buf q.capacity q.head (size q) 1
      ∙ ap (λ y. contents q ++ y ∷ []) (ap q.buf (sym (tail_slot q v)) ∙ e)

  publish-Sound :
      (w : A) (s : Threads A)
      → Sound s
      → size s.queue < s.queue.capacity
      → s.queue.buf (s.queue.tail % s.queue.capacity) ≡ w
      → Sound (record s {
        queue = record s.queue { tail = add32 s.queue.tail 1 };
        producer = at_rest;
        pushed = s.pushed ++ w ∷ [];
      })
  unfolding filled
  publish-Sound w s k l e = record {
    valid = filled-IsValid s.queue k.valid s.queue.buf 1 (omega (arith, l));
    in_order =
        ap (λ xs. xs ++ w ∷ []) k.in_order
        ∙ append_assoc s.popped (contents s.queue) (w ∷ [])
        ∙ ap (λ xs. s.popped ++ xs) (sym (published-contents s.queue w k.valid l e));
    producing = tt;
    consuming = reads_on s.queue s.consumer k.valid l k.consuming;
  }

  step_producer-Sound :
      (v : A) (p : Producer A) (s : Threads A)
      → s.producer ≡ p
      → Sound s
      → Sound (step_producer v p s)
  unfolding step_producer
  step_producer-Sound v at_rest s e k = record {
    valid = k.valid;
    in_order = k.in_order;
    producing = (refl, omega arith, k.valid.bounded);
    consuming = k.consuming;
  }
  step_producer-Sound v (loaded w t h) s e k =
      let (a, b, c) = subst (Produces s.queue) e k.producing in
      elim (Bool-cases (sub32 t h == s.queue.capacity)) [
        | inl y ↦ rw y (record {
          valid = k.valid;
          in_order = k.in_order;
          producing = tt;
          consuming = k.consuming;
        })
        | inr y ↦
            let l : size s.queue < s.queue.capacity = ground (arith, y, b, c) in
            rw y (
              subst
                (λ z. Sound (record s {
                  queue = record s.queue { buf = put s.queue.buf (z % s.queue.capacity) w };
                  producer = written w z;
                }))
                (sym a) (write-Sound w s k l))
      ]
  step_producer-Sound v (written w t) s e k =
      let (a, b, c) = subst (Produces s.queue) e k.producing in
      subst
        (λ z. Sound (record s {
          queue = record s.queue { tail = add32 z 1 };
          producer = at_rest;
          pushed = s.pushed ++ w ∷ [];
        }))
        (sym a) (publish-Sound w s k b (subst (λ z. s.queue.buf (z % s.queue.capacity) ≡ w) a c))

  release-Sound :
      (x : A) (s : Threads A)
      → Sound s
      → 0 < size s.queue
      → s.queue.buf (s.queue.head % s.queue.capacity) ≡ x
      → Sound (record s {
        queue = record s.queue { head = add32 s.queue.head 1 };
        consumer = at_rest;
        popped = s.popped ++ x ∷ [];
      })
  unfolding view
  release-Sound x s k l e =
      let q = s.queue in
      let n : size q ≡ suc (size q - 1) = omega (arith, l) in
      let old : contents q ≡ x ∷ view q.buf q.capacity (q.head + 1) (size q - 1) =
        ap (view q.buf q.capacity q.head) n
        ∙ ap (λ y. y ∷ view q.buf q.capacity (q.head + 1) (size q - 1)) e in
      record {
        valid = popped-IsValid q k.valid 1 l;
        in_order =
            k.in_order
            ∙ ap (λ xs. s.popped ++ xs)
                (old ∙ ap (λ xs. x ∷ xs) (sym (left-contents q k.valid 1 l)))
            ∙ sym (append_assoc s.popped (x ∷ []) (contents (record q { head = add32 q.head 1 })));
        producing = pushes_on q s.producer k.valid l k.producing;
        consuming = tt;
      }

  step_consumer-Sound :
      (c : Consumer A) (s : Threads A) → s.consumer ≡ c → Sound s → Sound (step_consumer c s)
  unfolding step_consumer
  step_consumer-Sound at_rest s e k = record {
    valid = k.valid;
    in_order = k.in_order;
    producing = k.producing;
    consuming = (refl, k.valid.tail_fits, omega arith);
  }
  step_consumer-Sound (loaded h t) s e k =
      let (a, b, c) = subst (Consumes s.queue) e k.consuming in
      elim (Bool-cases (h == t)) [
        | inl y ↦ rw y (record {
          valid = k.valid;
          in_order = k.in_order;
          producing = k.producing;
          consuming = tt;
        })
        | inr y ↦
            let hf = k.valid.head_fits in
            let l : 0 < size s.queue = ground (arith, y, a, b, c, hf) in
            rw y (record {
              valid = k.valid;
              in_order = k.in_order;
              producing = k.producing;
              consuming = (a, l, refl);
            })
      ]
  step_consumer-Sound (taken h x) s e k =
      let (a, b, c) = subst (Consumes s.queue) e k.consuming in
      subst
        (λ z. Sound (record s {
          queue = record s.queue { head = add32 z 1 };
          consumer = at_rest;
          popped = s.popped ++ x ∷ [];
        }))
        (sym a) (release-Sound x s k b (subst (λ z. s.queue.buf (z % s.queue.capacity) ≡ x) a c))

  -- From a state of the two threads that is sound, such as two threads at rest on a valid queue
  -- that has been handed on nothing, every schedule of their steps leads to one that is: the queue
  -- is valid, the values pushed so far are those popped so far followed by those in the queue, in
  -- order, and each thread's index of its own is current and the one it loaded of the other late at
  -- most.
  pub run-Sound : (ms : List (Move A)) (s : Threads A) → Sound s → Sound (run ms s)
  unfolding run step
  run-Sound [] s k = k
  run-Sound (produce v ∷ ms) s k =
      run-Sound ms (step_producer v s.producer s) (step_producer-Sound v s.producer s refl k)
  run-Sound (consume ∷ ms) s k =
      run-Sound ms (step_consumer s.consumer s) (step_consumer-Sound s.consumer s refl k)
