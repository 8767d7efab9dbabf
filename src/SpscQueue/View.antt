-- ===== src/SpscQueue/View.antt =====
-- The slots of the queue of libs/sys/memory/spsc_queue.hpp that hold its elements.
use low_latency_tick_to_trad.Prelude.{
  ℕ, zero, suc, ◌+◌, ◌*◌, ◌%◌, ◌≤◌, ◌<◌, ◌≡◌, refl, sym, subst, ◌∙◌, ap, false, List, [], ◌∷◌, ◌++◌,
  arith, ltb, ◌==◌, ==_iff, length, Bool-cases, inl, inr, ◌/◌,
}
use low_latency_tick_to_trad.SpscQueue.{put, copy}
use native.Mathlib.Nat.{
  suc-mul, mul-le-mul_right, mod-eq_of_lt, mod-add-mod, div-add-mod', mul-le-mul_right,
}

-- The elements in `n` slots from the index `h` on.
unfoldable pub view : {A : Type 0} → (ℕ → A) → ℕ → ℕ → ℕ → List A
view buf c h zero = []
view buf c h (suc n) = buf (h % c) ∷ view buf c (h + 1) n

apart : (c q r : ℕ) → q < r → q * c + c ≤ r * c
apart c q r h = let m : suc q * c ≤ r * c = mul-le-mul_right c h in omega (arith, m, suc-mul q c)

pub mod-distinct : (c h d : ℕ) → 0 < d → d < c → ((h + d) % c == h % c) ≡ false
mod-distinct c h d p l = elim (Bool-cases ((h + d) % c == h % c)) [
  | inr e ↦ e
  | inl e ↦
      let y = (==_iff ((h + d) % c) (h % c)).0 e in
      let a = div-add-mod' (h + d) c in
      let b = div-add-mod' h c in
      elim (Bool-cases (ltb (h / c) ((h + d) / c))) [
        | inl w ↦ absurd (
            let k = apart c (h / c) ((h + d) / c) (ground (arith, w)) in
            omega (arith, y, a, b, k, l))
        | inr w ↦ absurd (
            let k : (h + d) / c * c ≤ h / c * c = mul-le-mul_right c (ground (arith, w)) in
            omega (arith, y, a, b, k, p))
      ]
]

module _ {A : Type 0} where
  pub length-view : (buf : ℕ → A) (c h n : ℕ) → length (view buf c h n) ≡ n
  unfolding view
  length-view buf c h zero = refl
  length-view buf c h (suc n) = ap suc (length-view buf c (h + 1) n)

  -- The indices count modulo the capacity.
  pub view-mod : (buf : ℕ → A) (c g h n : ℕ) → g % c ≡ h % c → view buf c g n ≡ view buf c h n
  unfolding view
  view-mod buf c g h zero e = refl
  view-mod buf c g h (suc n) e =
      rw
        (
          e,
          view-mod buf c (g + 1) (h + 1) n
              (sym (mod-add-mod g c 1) ∙ ap (λ z. (z + 1) % c) e ∙ mod-add-mod h c 1),
        )
        refl

  pub view-append :
      (buf : ℕ → A) (c h m n : ℕ) → view buf c h (m + n) ≡ view buf c h m ++ view buf c (h + m) n
  unfolding view
  view-append buf c h zero n =
      let z : h + 0 ≡ h = omega arith in let y : 0 + n ≡ n = omega arith in rw (z, y) refl
  view-append buf c h (suc m) n =
      let z : h + suc m ≡ h + 1 + m = omega arith in
      let y : suc m + n ≡ suc (m + n) = omega arith in
      rw (z, y, view, view-append buf c (h + 1) m n) refl

  pub view-put :
      (buf : ℕ → A) (c h n i : ℕ) (v : A)
      → ((d : ℕ) → d < n → ((h + d) % c == i) ≡ false)
      → view (put buf i v) c h n ≡ view buf c h n
  unfolding view
  view-put buf c h zero i v f = refl
  view-put buf c h (suc n) i v f =
      let z : (h + 0) % c ≡ h % c = ap (λ y. y % c) (omega arith) in
      let e : (h % c == i) ≡ false = subst (λ y. (y == i) ≡ false) z (f 0 (omega arith)) in
      rw
        (
          e,
          view-put buf c (h + 1) n i v (λ d l.
              subst (λ y. (y % c == i) ≡ false) (omega arith) (f (suc d) (omega (arith, l)))),
        )
        refl

  pub view-copy : (buf : ℕ → A) (c h n : ℕ) → h + n ≤ c → view buf c h n ≡ copy buf h n
  unfolding view copy
  view-copy buf c h zero l = refl
  view-copy buf c h (suc n) l =
      rw
        (
          view-copy buf c (h + 1) n (omega (arith, l)),
          mod-eq_of_lt (let r : h < c = omega (arith, l) in r),
        )
        refl
