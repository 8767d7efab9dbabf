-- ===== src/HashMap/Steps.antt =====
-- The insertion, the update and the erasure of libs/ds/hash_map.hpp keep a map consistent.
use low_latency_tick_to_trad.Prelude.{
  ℕ, zero, suc, ◌+◌, ◌-◌, ◌<◌, ◌≡◌, refl, sym, subst, ap, Bool, true, false, not, ◌&&◌, none, some,
  arith, leb, ◌==◌, ==_iff, if◌then◌else◌, Bool-cases, inl, inr, ◌↔◌,
}
use low_latency_tick_to_trad.HashMap.{
  HashMap, Slot, SlotState, set_slot, is_full, is_empty, is_tombstone, max_load, occupy, at_limit,
  vacate, full, tombstone, empty, find,
}
use low_latency_tick_to_trad.HashMap.Inv.{counts, Holds, Reached, IsValid, seek, found, missing}
use low_latency_tick_to_trad.HashMap.Writes.{written-IsValid}

pub counted :
    {K V : Type 0} (n : ℕ) (f : ℕ → Slot K V) (i : ℕ)
    → i < n
    → (p : SlotState → Bool) → p (f i).state ≡ true
    → 0 < counts p n f
unfolding counts
counted zero f i h p t = absurd (omega (arith, h))
counted (suc n) f i h p t = elim (Bool-cases (i == n)) [
  | inl e ↦
      let y : p (f n).state ≡ true = subst (λ z. p (f z).state ≡ true) ((==_iff i n).0 e) t in
      rw y (omega arith)
  | inr e ↦ let r = counted n f i (ground (arith, h, e)) p t in omega (arith, r)
]

full_not : (x : SlotState) → is_full x ≡ true → (is_empty x ≡ false) × (is_tombstone x ≡ false)
full_not empty h = absurd (cc h)
full_not full h = (refl, refl)
full_not tombstone h = absurd (cc h)

module _ {K V : Type 0} (same : K → K → Bool) (hash : K → ℕ)
    (same_iff : (j k : K) → (same j k ≡ true) ↔ (j ≡ k)) (m : HashMap K V)
    (v : IsValid same hash m) where
  pub occupy-IsValid :
      (k : K) (x : V) (i : ℕ)
      → i < m.capacity
      → is_full (m.slots i).state ≡ false
      → Reached same hash m k i
      → ((j : ℕ) → Holds same hash m k j → ⊥)
      → at_limit same hash m i ≡ false
      → IsValid same hash (occupy same hash m i k x)
  occupy-IsValid k x i inside free r nowhere l =
      elim (Bool-cases (is_tombstone (m.slots i).state)) [
        | inl t ↦
            let c = counted m.capacity m.slots i inside is_tombstone t in
            written-IsValid same hash m v i inside (record { key = k; value = x; state = full })
              (m.size + 1)
              (if is_tombstone (m.slots i).state then m.tombstones - 1 else m.tombstones) refl
              (rw t (omega (arith, c, v.counts_tombstones, v.load))) (rw free (omega arith))
              (rw t (omega (arith, c, v.counts_tombstones))) (λ _. (r, λ j h. absurd (nowhere j h)))
        | inr t ↦
            let room : m.size + m.tombstones < max_load m.capacity =
              (let y : leb (max_load m.capacity) (m.size + m.tombstones) ≡ false =
                  subst (λ b. (not b && leb (max_load m.capacity) (m.size + m.tombstones)) ≡ false)
                    t l in
                ground (arith, y)) in
            written-IsValid same hash m v i inside (record { key = k; value = x; state = full })
              (m.size + 1)
              (if is_tombstone (m.slots i).state then m.tombstones - 1 else m.tombstones) refl
              (rw t (omega (arith, room))) (rw free (omega arith)) (rw t (omega arith))
              (λ _. (r, λ j h. absurd (nowhere j h)))
      ]

  pub update-IsValid :
      (k : K) (x : V) (i : ℕ)
      → Holds same hash m k i
      → IsValid same hash
          (record m { slots = set_slot m.slots i (record (m.slots i) { value = x }) })
  update-IsValid k x i h =
      written-IsValid same hash m v i h.inside (record (m.slots i) { value = x }) m.size
        m.tombstones (full_not (m.slots i).state h.live).0 v.load refl refl
        (λ _.
          subst (λ z. Reached same hash m z i × ((j : ℕ) → Holds same hash m z j → j ≡ i))
            (sym h.key) (v.reached k i h, λ j g. v.unique k j i g h))

  pub vacate-IsValid :
      (k : K) (i : ℕ) → Holds same hash m k i → IsValid same hash (vacate same hash m i)
  vacate-IsValid k i h =
      let c = counted m.capacity m.slots i h.inside is_full h.live in
      let t = (full_not (m.slots i).state h.live).1 in
      written-IsValid same hash m v i h.inside (record (m.slots i) { state = tombstone })
        (m.size - 1) (m.tombstones + 1) refl (omega (arith, c, v.load, v.counts_full))
        (rw h.live (omega (arith, c, v.counts_full))) (rw t (omega arith)) (λ e. absurd (cc e))

  nonempty : (m.capacity == 0) ≡ false
  nonempty = let r = v.room in ground (arith, r)

  pub find_there :
      (k : K) (i : ℕ) → Holds same hash m k i → find same hash m k ≡ some (some (m.slots i).value)
  unfolding find
  find_there k i h = elim (seek same hash same_iff m k v) [
    | found j g e ↦
        rw (nonempty, e, g.live) (ap (λ z. some (some (m.slots z).value)) (v.unique k j i g h))
    | missing j f e nowhere ↦ absurd (nowhere i h)
  ]

  pub find_absent : (k : K) → ((i : ℕ) → Holds same hash m k i → ⊥) → find same hash m k ≡ some none
  unfolding find
  find_absent k none_there = elim (seek same hash same_iff m k v) [
    | found j g e ↦ absurd (none_there j g)
    | missing j f e nowhere ↦ rw (nonempty, e, f) refl
  ]
