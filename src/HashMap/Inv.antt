-- ===== src/HashMap/Inv.antt =====
-- When a map of libs/ds/hash_map.hpp is consistent, and what its probes then find.
use low_latency_tick_to_trad.Prelude.{
  ℕ, zero, suc, ◌+◌, ◌%◌, ◌≤◌, ◌<◌, ◌≡◌, refl, sym, subst, ◌∙◌, ap, Bool, true, false, ◌&&◌, some,
  arith, ltb, ◌==◌, ==_iff, if◌then◌else◌, Bool-cases, inl, inr, ◌↔◌,
}
use native.Mathlib.Nat.{mod-lt}
use low_latency_tick_to_trad.HashMap.{
  SlotState, Slot, HashMap, max_load, is_empty, is_full, is_tombstone, empty, full, tombstone,
  probe_insert, probe_find, bucket_for, insert_from, find_from,
}
use low_latency_tick_to_trad.HashMap.Probe.{
  spot, Goes, empty_not_full, find_from-Stops, insert_from-Ends, steps_to, steps_to_bounded,
  spot-steps_to, spot_bounded,
}

-- How many of the first slots are in such a state.
unfoldable pub counts : {K V : Type 0} → (SlotState → Bool) → ℕ → (ℕ → Slot K V) → ℕ
counts p zero f = 0
counts p (suc n) f = counts p n f + (if p (f n).state then 1 else 0)

vacancy_below :
    {K V : Type 0} (n : ℕ) (f : ℕ → Slot K V)
    → counts is_full n f + counts is_tombstone n f < n
    → (e : ℕ) × (e < n) × (is_empty (f e).state ≡ true)
unfolding counts
vacancy_below zero f h = absurd (omega (arith, h))
vacancy_below (suc n) f h = elim (Bool-cases (is_empty (f n).state)) [
  | inl a ↦ (n, omega arith, a)
  | inr a ↦ let (e, l, b) = vacancy_below n f (taken (f n).state a h) in (e, omega (arith, l), b)
]
  where
    taken :
        (x : SlotState)
        → is_empty x ≡ false
        → counts is_full n f
            + (if is_full x then 1 else 0)
            + (counts is_tombstone n f + (if is_tombstone x then 1 else 0))
          < suc n
        → counts is_full n f + counts is_tombstone n f < n
    taken empty a h = absurd (cc a)
    taken full a h = omega (arith, h)
    taken tombstone a h = omega (arith, h)

module _ {K V : Type 0} (same : K → K → Bool) (hash : K → ℕ) where
  abbrev pub home : HashMap K V → K → ℕ
  home m k = hash k % m.capacity

  -- A live entry of the key at the slot.
  pub record Holds (m : HashMap K V) (k : K) (i : ℕ) : Type 0 where
    pub inside : i < m.capacity
    pub live : is_full (m.slots i).state ≡ true
    pub key : (m.slots i).key ≡ k

  -- The probe for the key meets the slot, with no empty slot before it.
  pub record Reached (m : HashMap K V) (k : K) (i : ℕ) : Type 0 where
    pub steps : ℕ
    pub bounded : steps < m.capacity
    pub ends_at : spot m.capacity (home m k) steps ≡ i
    pub chained :
        (e : ℕ) → e < steps → is_empty (m.slots (spot m.capacity (home m k) e)).state ≡ false

  pub record IsValid (m : HashMap K V) : Type 0 where
    pub room : 0 < m.capacity
    pub load : m.size + m.tombstones ≤ max_load m.capacity
    pub counts_full : counts is_full m.capacity m.slots ≡ m.size
    pub counts_tombstones : counts is_tombstone m.capacity m.slots ≡ m.tombstones
    pub reached : (k : K) (i : ℕ) → Holds m k i → Reached m k i
    pub unique : (k : K) (i j : ℕ) → Holds m k i → Holds m k j → i ≡ j

  module _ (same_iff : (j k : K) → (same j k ≡ true) ↔ (j ≡ k)) (m : HashMap K V) (k : K)
      (v : IsValid m) where
    pub home_inside : home m k < m.capacity
    home_inside = mod-lt (hash k) v.room

    pub vacancy : (e : ℕ) × (e < m.capacity) × (is_empty (m.slots e).state ≡ true)
    vacancy =
        vacancy_below m.capacity m.slots
          (omega (arith, v.room, v.load, v.counts_full, v.counts_tombstones))

    pub match_at :
        (i : ℕ) → Holds m k i → (is_full (m.slots i).state && same (m.slots i).key k) ≡ true
    match_at i h = rw (h.live, (same_iff (m.slots i).key k).1 h.key) refl

    pub held_at :
        (i : ℕ)
        → i < m.capacity
        → (is_full (m.slots i).state && same (m.slots i).key k) ≡ true
        → Holds m k i
    held_at i l b = record {
      inside = l;
      live = ground (arith, b);
      key = (same_iff (m.slots i).key k).0 (ground (arith, b));
    }

    -- A probe that ends at an empty slot has passed no live entry of its key.
    pub absent :
        (d : ℕ)
        → Goes same hash m k (home m k) home_inside d
        → is_empty (m.slots (spot m.capacity (home m k) d)).state ≡ true
        → (i : ℕ) → Holds m k i
        → ⊥
    absent d g a i h =
        let r = v.reached k i h in
        elim (Bool-cases (ltb r.steps d)) [
          | inl l ↦ cc (
            (g r.steps (ground (arith, l))).1,
            subst (λ x. (is_full (m.slots x).state && same (m.slots x).key k) ≡ true)
                (sym r.ends_at) (match_at i h),
          )
          | inr l ↦ elim (Bool-cases (r.steps == d)) [
            | inl e ↦ cc (
              h.live,
              empty_not_full (m.slots i).state (
                  subst (λ x. is_empty (m.slots x).state ≡ true)
                    (ap (spot m.capacity (home m k)) (sym ((==_iff r.steps d).0 e)) ∙ r.ends_at) a),
            )
            | inr e ↦ cc (a, r.chained d (ground (arith, l, e)))
          ]
        ]

    start_found : spot m.capacity (home m k) 0 ≡ home m k
    start_found = ground (arith, home_inside)

    -- Where `probe_find` ends: at the key, or at a slot that is not full if there is no such key.
    pub data Sought : Type 0 where
      found : (i : ℕ) → Holds m k i → probe_find same hash m k ≡ some i → Sought
      missing :
          (i : ℕ)
          → is_full (m.slots i).state ≡ false
          → probe_find same hash m k ≡ some i
          → ((j : ℕ) → Holds m k j → ⊥)
          → Sought

    pub seek : Sought
    unfolding probe_find bucket_for
    seek =
        let (e, l, a) = vacancy in
        let (d, b, f, g, st) =
          find_from-Stops same hash m k (home m k) home_inside m.capacity 0
            (steps_to m.capacity (home m k) e) (omega arith) (omega arith)
            (steps_to_bounded m.capacity (home m k) e home_inside l)
            (subst (λ x. is_empty (m.slots x).state ≡ true)
              (sym (spot-steps_to m.capacity (home m k) e home_inside l)) a)
            (λ x y. absurd (omega (arith, y))) in
        let run : probe_find same hash m k ≡ some (spot m.capacity (home m k) d) =
          ap (λ x. find_from same hash m k m.capacity x) (sym start_found) ∙ f in
        elim st [
          | inr y ↦
              found (spot m.capacity (home m k) d)
                (held_at (spot m.capacity (home m k) d)
                  (spot_bounded m.capacity (home m k) d home_inside b) y)
                run
          | inl y ↦
              missing (spot m.capacity (home m k) d)
                (empty_not_full (m.slots (spot m.capacity (home m k) d)).state y) run (absent d g y)
        ]

    -- Where `probe_insert` ends: at the key, or at a free slot of the key's chain.
    pub data Placed : Type 0 where
      there : (i : ℕ) → Holds m k i → probe_insert same hash m k ≡ some (i, true) → Placed
      free :
          (i : ℕ)
          → i < m.capacity
          → is_full (m.slots i).state ≡ false
          → Reached m k i
          → probe_insert same hash m k ≡ some (i, false)
          → ((j : ℕ) → Holds m k j → ⊥)
          → Placed

    pub place : Placed
    unfolding probe_insert bucket_for
    place =
        let (e, l, a) = vacancy in
        let (d, b, g, f) =
          insert_from-Ends same hash m k (home m k) home_inside m.capacity 0
            (steps_to m.capacity (home m k) e) m.capacity (omega arith) (omega arith)
            (steps_to_bounded m.capacity (home m k) e home_inside l)
            (subst (λ x. is_empty (m.slots x).state ≡ true)
              (sym (spot-steps_to m.capacity (home m k) e home_inside l)) a)
            (λ x y. absurd (omega (arith, y))) (inl refl) in
        let start : probe_insert same hash m k
            ≡ insert_from same hash m k m.capacity (spot m.capacity (home m k) 0) m.capacity =
          ap (λ x. insert_from same hash m k m.capacity x m.capacity) (sym start_found) in
        elim f [
          | inl (y, r) ↦
              there (spot m.capacity (home m k) d)
                (held_at (spot m.capacity (home m k) d)
                  (spot_bounded m.capacity (home m k) d home_inside b) y)
                (start ∙ r)
          | inr (y, (x, le, nf, r)) ↦
              free (spot m.capacity (home m k) x)
                (spot_bounded m.capacity (home m k) x home_inside (omega (arith, le, b))) nf
                (record {
                  steps = x;
                  bounded = omega (arith, le, b);
                  ends_at = refl;
                  chained = λ z w. (g z (omega (arith, w, le))).0;
                })
                (start ∙ r) (absent d g y)
        ]
