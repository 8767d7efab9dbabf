-- ===== src/HashMap/Probe.antt =====
-- The probe loops of libs/ds/hash_map.hpp: they end at the first slot that stops them.
use low_latency_tick_to_trad.Prelude.{
  ℕ, zero, suc, ◌+◌, ◌-◌, ◌%◌, ◌≤◌, ◌<◌, ◌≡◌, refl, subst, ◌∙◌, ap, Bool, true, false, not, ◌&&◌,
  Option, some, arith, ltb, ◌==◌, ==_iff, if◌then◌else◌, Bool-cases, inl, inr, ◌⊎◌, sym,
}
use native.Mathlib.Nat.{mod-eq_of_lt, mod-eq-sub-mod}
use low_latency_tick_to_trad.HashMap.{
  HashMap, find_from, Slot, is_empty, is_full, SlotState, insert_from, is_tombstone, empty, full,
  tombstone,
}

-- The slot that a probe from `start` looks at after `d` steps.
abbrev pub spot : ℕ → ℕ → ℕ → ℕ
spot capacity start d = if ltb (start + d) capacity then start + d else start + d - capacity

pub spot_bounded : (c s d : ℕ) → s < c → d < c → spot c s d < c
spot_bounded c s d h k = ground (arith, h, k)

pub spot_next : (c s d : ℕ) → s < c → suc d < c → (spot c s d + 1) % c ≡ spot c s (suc d)
spot_next c s d h k = elim (Bool-cases (ltb (s + suc d) c)) [
  | inl e ↦
      let a : spot c s d ≡ s + d = ground (arith, e) in
      let b : spot c s (suc d) ≡ s + suc d = ground (arith, e) in
      let l : s + d + 1 < c = ground (arith, e) in rw (a, b) (mod-eq_of_lt l ∙ omega arith)
  | inr e ↦ elim (Bool-cases (ltb (s + d) c)) [
    | inl f ↦
        let a : spot c s d ≡ s + d = ground (arith, f) in
        let b : spot c s (suc d) ≡ 0 = ground (arith, e, f) in
        let m : s + d + 1 ≡ c = ground (arith, e, f) in
        rw (a, b, m)
          (mod-eq-sub-mod (omega arith)
            ∙ (let z : c - c ≡ 0 = omega arith in rw z (mod-eq_of_lt (omega (arith, h)))))
    | inr f ↦
        let a : spot c s d ≡ s + d - c = ground (arith, f) in
        let b : spot c s (suc d) ≡ s + suc d - c = ground (arith, e) in
        let l : s + d - c + 1 < c = ground (arith, h, k) in
        rw (a, b) (mod-eq_of_lt l ∙ ground (arith, f))
  ]
]

-- Every slot is looked at.
abbrev pub steps_to : ℕ → ℕ → ℕ → ℕ
steps_to c s e = if ltb e s then e + c - s else e - s

pub steps_to_bounded : (c s e : ℕ) → s < c → e < c → steps_to c s e < c
steps_to_bounded c s e h k = ground (arith, h, k)

pub spot-steps_to : (c s e : ℕ) → s < c → e < c → spot c s (steps_to c s e) ≡ e
spot-steps_to c s e h k = elim (Bool-cases (ltb e s)) [
  | inl l ↦ ground (arith, l, h, k)
  | inr l ↦ ground (arith, l, h, k)
]

pub empty_not_full : (x : SlotState) → is_empty x ≡ true → is_full x ≡ false
empty_not_full empty h = refl
empty_not_full full h = absurd (cc h)
empty_not_full tombstone h = refl

module _ {K V : Type 0} (same : K → K → Bool) (hash : K → ℕ) (m : HashMap K V) (k : K) (start : ℕ)
    (inside : start < m.capacity) where
  abbrev pub slot_at : ℕ → Slot K V
  slot_at d = m.slots (spot m.capacity start d)

  -- Nothing stops the probe in its first `d` steps.
  abbrev pub Goes : ℕ → Type 0
  Goes d =
      (e : ℕ)
      → e < d
      → (is_empty (slot_at e).state ≡ false)
        × ((is_full (slot_at e).state && same (slot_at e).key k) ≡ false)

  abbrev pub Stops : ℕ → Type 0
  Stops d =
      (is_empty (slot_at d).state ≡ true)
      ⊎ ((is_full (slot_at d).state && same (slot_at d).key k) ≡ true)

  suc-Goes :
      (d : ℕ)
      → Goes d
      → is_empty (slot_at d).state ≡ false
      → (is_full (slot_at d).state && same (slot_at d).key k) ≡ false
      → Goes (suc d)
  suc-Goes d g a b e l = elim (Bool-cases (e == d)) [
    | inl y ↦ rw ((==_iff e d).0 y) (a, b)
    | inr y ↦ g e (ground (arith, l, y))
  ]

  before :
      (d last : ℕ)
      → d ≤ last
      → is_empty (slot_at last).state ≡ true
      → is_empty (slot_at d).state ≡ false
      → d < last
  before d last lo s a = elim (Bool-cases (d == last)) [
    | inl y ↦
        absurd (cc (s, subst (λ x. is_empty (slot_at x).state ≡ false) ((==_iff d last).0 y) a))
    | inr y ↦ ground (arith, lo, y)
  ]

  pub find_from-Stops :
      (rounds d last : ℕ)
      → d + rounds ≡ m.capacity
      → d ≤ last
      → last < m.capacity
      → is_empty (slot_at last).state ≡ true
      → Goes d
      → (e : ℕ) × (e < m.capacity)
        × (find_from same hash m k rounds (spot m.capacity start d)
            ≡ some (spot m.capacity start e))
        × Goes e
        × Stops e
  unfolding find_from
  find_from-Stops zero d last r lo hi s g = absurd (omega (arith, r, lo, hi))
  find_from-Stops (suc rounds) d last r lo hi s g = elim (Bool-cases (is_empty (slot_at d).state)) [
    | inl a ↦ (d, omega (arith, r), rw a refl, g, inl a)
    | inr a ↦ elim (Bool-cases (is_full (slot_at d).state && same (slot_at d).key k)) [
      | inl b ↦ (d, omega (arith, r), rw (a, b) refl, g, inr b)
      | inr b ↦
          let further : d < last = before d last lo s a in
          let (e, x, f, y, z) =
            find_from-Stops rounds (suc d) last (omega (arith, r)) (omega (arith, further)) hi s
              (suc-Goes d g a b) in
          (
            e,
            x,
            rw (a, b, spot_next m.capacity start d inside (omega (arith, further, hi))) f,
            y,
            z,
          )
    ]
  ]

  -- The first tombstone that is noted in the first `d` steps, if any.
  abbrev pub Notes : ℕ → ℕ → Type 0
  Notes d first =
      (first ≡ m.capacity)
      ⊎ ((e : ℕ) × (e < d)
          × (first ≡ spot m.capacity start e)
          × (is_tombstone (slot_at e).state ≡ true))

  later-Notes : (d first : ℕ) → Notes d first → Notes (suc d) first
  later-Notes d first (inl e) = inl e
  later-Notes d first (inr (e, l, x, t)) = inr (e, omega (arith, l), x, t)

  suc-Notes :
      (d first : ℕ)
      → Notes d first
      → Notes (suc d) (
          if is_tombstone (slot_at d).state && first == m.capacity
          then spot m.capacity start d
          else first)
  suc-Notes d first n = elim (Bool-cases (is_tombstone (slot_at d).state)) [
    | inr t ↦ rw t (later-Notes d first n)
    | inl t ↦ elim (Bool-cases (first == m.capacity)) [
      | inr f ↦ rw (t, f) (later-Notes d first n)
      | inl f ↦ rw (t, f) (inr (d, omega arith, refl, t))
    ]
  ]

  unmatched :
      (x : SlotState) (b : Bool)
      → is_empty x ≡ false
      → (not (is_tombstone x) && b) ≡ (is_full x && b)
  unmatched empty b h = absurd (cc h)
  unmatched full b h = refl
  unmatched tombstone b h = refl

  -- Where an insertion ends: at the key, or at a free slot of the key's chain.
  abbrev pub Ends : ℕ → Option (ℕ × Bool) → Type 0
  Ends e r =
      (((is_full (slot_at e).state && same (slot_at e).key k) ≡ true)
        × (r ≡ some (spot m.capacity start e, true)))
      ⊎ ((is_empty (slot_at e).state ≡ true)
          × ((x : ℕ) × (x ≤ e)
              × (is_full (slot_at x).state ≡ false)
              × (r ≡ some (spot m.capacity start x, false))))

  not_full : (x : SlotState) → is_tombstone x ≡ true → is_full x ≡ false
  not_full empty h = refl
  not_full full h = absurd (cc h)
  not_full tombstone h = refl

  free-Ends :
      (d first : ℕ)
      → d < m.capacity
      → Notes d first
      → is_empty (slot_at d).state ≡ true
      → Ends d (some (if first == m.capacity then spot m.capacity start d else first, false))
  free-Ends d first b (inl e) a =
      let y : (first == m.capacity) ≡ true = (==_iff first m.capacity).1 e in
      rw y (inr (a, (d, omega arith, empty_not_full (slot_at d).state a, refl)))
  free-Ends d first b (inr (e, l, x, t)) a =
      let w : spot m.capacity start e < m.capacity =
        spot_bounded m.capacity start e inside (omega (arith, l, b)) in
      let y : (first == m.capacity) ≡ false = ground (arith, x, w) in
      rw y
        (inr (a, (e, omega (arith, l), not_full (slot_at e).state t, ap (λ z. some (z, false)) x)))

  -- one round of the loop, at each kind of slot
  round_empty :
      (rounds i first : ℕ)
      → is_empty (m.slots i).state ≡ true
      → insert_from same hash m k (suc rounds) i first
        ≡ some (if first == m.capacity then i else first, false)
  unfolding insert_from
  round_empty rounds i first a = rw a

  round_found :
      (rounds i first : ℕ)
      → is_empty (m.slots i).state ≡ false
      → (is_full (m.slots i).state && same (m.slots i).key k) ≡ true
      → insert_from same hash m k (suc rounds) i first ≡ some (i, true)
  unfolding insert_from
  round_found rounds i first a b = rw (a, unmatched (m.slots i).state (same (m.slots i).key k) a, b)

  round_on :
      (rounds i first : ℕ)
      → is_empty (m.slots i).state ≡ false
      → (is_full (m.slots i).state && same (m.slots i).key k) ≡ false
      → insert_from same hash m k (suc rounds) i first
        ≡ insert_from same hash m k rounds
            ((i + 1) % m.capacity)
            (if is_tombstone (m.slots i).state && first == m.capacity then i else first)
  unfolding insert_from
  round_on rounds i first a b = rw (a, unmatched (m.slots i).state (same (m.slots i).key k) a, b)

  pub insert_from-Ends :
      (rounds d last first : ℕ)
      → d + rounds ≡ m.capacity
      → d ≤ last
      → last < m.capacity
      → is_empty (slot_at last).state ≡ true
      → Goes d
      → Notes d first
      → (e : ℕ) × (e < m.capacity)
        × Goes e
        × Ends e (insert_from same hash m k rounds (spot m.capacity start d) first)
  insert_from-Ends zero d last first r lo hi s g n = absurd (omega (arith, r, lo, hi))
  insert_from-Ends (suc rounds) d last first r lo hi s g n =
      elim (Bool-cases (is_empty (slot_at d).state)) [
        | inl a ↦ (
          d,
          omega (arith, r),
          g,
          subst (Ends d) (sym (round_empty rounds (spot m.capacity start d) first a))
              (free-Ends d first (omega (arith, r)) n a),
        )
        | inr a ↦ elim (Bool-cases (is_full (slot_at d).state && same (slot_at d).key k)) [
          | inl b ↦ (
            d,
            omega (arith, r),
            g,
            inl (b, round_found rounds (spot m.capacity start d) first a b),
          )
          | inr b ↦
              let further : d < last = before d last lo s a in
              let noted : ℕ =
                if is_tombstone (slot_at d).state && first == m.capacity
                then spot m.capacity start d
                else first in
              let (e, x, y, f) =
                insert_from-Ends rounds (suc d) last noted (omega (arith, r))
                  (omega (arith, further)) hi s (suc-Goes d g a b) (suc-Notes d first n) in
              (
                e,
                x,
                y,
                subst (Ends e)
                    (sym (
                      round_on rounds (spot m.capacity start d) first a b
                      ∙ ap (λ i. insert_from same hash m k rounds i noted)
                          (spot_next m.capacity start d inside (omega (arith, further, hi)))))
                    f,
              )
        ]
      ]
