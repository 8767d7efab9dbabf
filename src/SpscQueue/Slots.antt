-- ===== src/SpscQueue/Slots.antt =====
-- What is written to the slots of the queue of libs/sys/memory/spsc_queue.hpp, and its invariant.
use low_latency_tick_to_trad.Prelude.{
  ℕ, ◌+◌, ◌-◌, ◌*◌, ◌%◌, ◌≤◌, ◌<◌, ◌≡◌, refl, sym, subst, ◌∙◌, ap, true, false, List, [], ◌∷◌, ◌++◌,
  arith, ◌==◌, ==_iff, length, append-nil, append_assoc, Bool-cases, inl, inr, ap₂,
}
use low_latency_tick_to_trad.Prelude.Word.{u32, add32, sub32}
use low_latency_tick_to_trad.SpscQueue.{put, SpscQueue, write_items}
use low_latency_tick_to_trad.SpscQueue.View.{view, mod-distinct, view-append, view-put}
use native.Mathlib.Nat.{mod-mod_of_dvd}

pub earlier : (c h d n : ℕ) → d < n → n < c → ((h + d) % c == (h + n) % c) ≡ false
earlier c h d n w l = elim (Bool-cases ((h + d) % c == (h + n) % c)) [
  | inr e ↦ e
  | inl e ↦
      let y : (h + d + (n - d)) % c ≡ (h + d) % c =
        ap (λ z. z % c) (omega (arith, w)) ∙ sym ((==_iff ((h + d) % c) ((h + n) % c)).0 e) in
      cc (
        (==_iff ((h + d + (n - d)) % c) ((h + d) % c)).1 y,
        mod-distinct c (h + d) (n - d) (omega (arith, w)) (omega (arith, l)),
      )
]

module _ {A : Type 0} where
  abbrev pub size : SpscQueue A → ℕ
  size q = sub32 q.tail q.head

  pub record IsValid (q : SpscQueue A) : Type 0 where
    pub room : 0 < q.capacity
    pub fits : q.capacity < u32
    pub chunks : ℕ
    pub divides : u32 ≡ q.capacity * chunks
    pub head_fits : q.head < u32
    pub tail_fits : q.tail < u32
    pub bounded : size q ≤ q.capacity

  -- The elements of the queue, oldest first.
  abbrev pub contents : SpscQueue A → List A
  contents q = view q.buf q.capacity q.head (size q)

  pub whole : (q : SpscQueue A) → IsValid q → (a : ℕ) → a % u32 % q.capacity ≡ a % q.capacity
  whole q v a = mod-mod_of_dvd q.capacity a ∣ (v.chunks, v.divides) ∣₁

  new_slot : (c h i : ℕ) (buf : ℕ → A) (v : A) → i ≡ h % c → view (put buf i v) c h 1 ≡ v ∷ []
  unfolding view
  new_slot c h i buf v e = let y : (h % c == i) ≡ true = (==_iff (h % c) i).1 (sym e) in rw y refl

  write_items-view :
      (c h t n i : ℕ) (vs : List A) (buf : ℕ → A)
      → ((j : ℕ) → add32 t j % c ≡ (h + n + j) % c)
      → n + i + length vs ≤ c
      → view (write_items c t i vs buf) c h (n + i + length vs) ≡ view buf c h (n + i) ++ vs
  unfolding write_items
  write_items-view c h t n i [] buf e l =
      let z : n + i + 0 ≡ n + i = omega arith in rw z (sym (append-nil (view buf c h (n + i))))
  write_items-view c h t n i (v ∷ vs) buf e l =
      let at = add32 t i % c in
      let here : at ≡ (h + (n + i)) % c = e i ∙ ap (λ z. z % c) (omega arith) in
      let kept : view (put buf at v) c h (n + i) ≡ view buf c h (n + i) =
        view-put buf c h (n + i) at v (λ d w.
          subst (λ z. ((h + d) % c == z) ≡ false) (sym here)
            (earlier c h d (n + i) w (omega (arith, l)))) in
      let one : view (put buf at v) c (h + (n + i)) 1 ≡ v ∷ [] =
        new_slot c (h + (n + i)) at buf v here in
      let m : n + i + length (v ∷ vs) ≡ n + (i + 1) + length vs = omega arith in
      let k : n + (i + 1) ≡ n + i + 1 = omega arith in
      subst
        (λ z.
          view (write_items c t (i + 1) vs (put buf at v)) c h z ≡ view buf c h (n + i) ++ v ∷ vs)
        (sym m)
        (write_items-view c h t n (i + 1) vs (put buf at v) e (omega (arith, l))
          ∙ ap (λ z. view (put buf at v) c h z ++ vs) k
          ∙ ap (λ z. z ++ vs) (view-append (put buf at v) c h (n + i) 1)
          ∙ ap₂ (λ a b. (a ++ b) ++ vs) kept one
          ∙ append_assoc (view buf c h (n + i)) (v ∷ []) vs)

  pub slots_wrap :
      (q : SpscQueue A)
      → IsValid q
      → (j : ℕ) → add32 q.tail j % q.capacity ≡ (q.head + size q + j) % q.capacity
  slots_wrap q v j =
      let e : add32 q.tail j ≡ (q.head + size q + j) % u32 =
        omega (arith, v.head_fits, v.tail_fits) in
      ap (λ z. z % q.capacity) e ∙ whole q v (q.head + size q + j)

  -- The record after `n` pushes that are written.
  unfoldable pub filled : SpscQueue A → (ℕ → A) → ℕ → SpscQueue A
  filled q buf n = record q { buf = buf; tail = add32 q.tail n }

  pub filled-IsValid :
      (q : SpscQueue A)
      → IsValid q
      → (buf : ℕ → A) (n : ℕ) → size q + n ≤ q.capacity
      → IsValid (filled q buf n)
  unfolding filled
  filled-IsValid q v buf n l = record {
    room = v.room;
    fits = v.fits;
    chunks = v.chunks;
    divides = v.divides;
    head_fits = v.head_fits;
    tail_fits = omega arith;
    bounded = omega (arith, l, v.fits, v.head_fits, v.tail_fits);
  }

  pub written-contents :
      (q : SpscQueue A)
      → IsValid q
      → (vs : List A) → size q + length vs ≤ q.capacity
      → contents (filled q (write_items q.capacity q.tail 0 vs q.buf) (length vs))
        ≡ contents q ++ vs
  unfolding filled
  written-contents q v vs l =
      let n : sub32 (add32 q.tail (length vs)) q.head ≡ size q + 0 + length vs =
        omega (arith, l, v.fits, v.head_fits, v.tail_fits) in
      let z : size q + 0 ≡ size q = omega arith in
      ap (view (write_items q.capacity q.tail 0 vs q.buf) q.capacity q.head) n
      ∙ write_items-view q.capacity q.head q.tail (size q) 0 vs q.buf (slots_wrap q v)
          (omega (arith, l))
      ∙ ap (λ a. view q.buf q.capacity q.head a ++ vs) z
