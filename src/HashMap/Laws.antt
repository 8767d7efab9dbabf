-- ===== src/HashMap/Laws.antt =====
-- The operations of libs/ds/hash_map.hpp against the finite map that they stand for.
use low_latency_tick_to_trad.Prelude.{
  ℕ, ◌+◌, ◌-◌, ◌<◌, ◌≡◌, refl, sym, subst, ◌∙◌, ap, Bool, true, false, ◌&&◌, Option, none, some,
  arith, ◌==◌, if◌then◌else◌, Bool-cases, inl, inr, ◌↔◌, ◌⊎◌,
}
use low_latency_tick_to_trad.HashMap.{
  HashMap, set_slot, is_full, is_tombstone, find, full, tombstone, occupy, vacate, at_limit, insert,
  upsert, erase, max_load, UpsertResult, inserted, updated, capacity_full, probe_find, probe_insert,
}
use low_latency_tick_to_trad.HashMap.Inv.{
  IsValid, seek, found, missing, place, there, free, Holds, Sought, Placed,
}
use low_latency_tick_to_trad.HashMap.Steps.{
  find_there, find_absent, occupy-IsValid, vacate-IsValid, update-IsValid, counted,
}
use low_latency_tick_to_trad.HashMap.Finds.{find_here, find_elsewhere, find_gone}

-- An upsert wrote its value.
abbrev pub wrote : UpsertResult → Bool
wrote inserted = true
wrote updated = true
wrote capacity_full = false

first : {A B : Type 0} → A × B → A
first (a, b) = a

second : {A B : Type 0} → A × B → B
second (a, b) = b

answers_agree :
    {A B : Type 0} {o : Option (A × B)} {a c : A} {b d : B}
    → o ≡ some (a, b)
    → o ≡ some (c, d)
    → (a ≡ c) × (b ≡ d)
unfolding first second
answers_agree {A} {B} {o} {a} {c} {b} {d} p q = (
  ap (λ x. first {A = A} {B = B} (elim x [ none ↦ (a, b) | some y ↦ y ])) (sym p ∙ q),
  ap (λ x. second {A = A} {B = B} (elim x [ none ↦ (a, b) | some y ↦ y ])) (sym p ∙ q),
)

module _ {K V : Type 0} (same : K → K → Bool) (hash : K → ℕ)
    (same_iff : (j k : K) → (same j k ≡ true) ↔ (j ≡ k)) (m : HashMap K V) (v : IsValid same hash m)
    (k : K) where
  nonempty : (m.capacity == 0) ≡ false
  nonempty = let r = v.room in ground (arith, r)

  differs : (j : K) → same j k ≡ false → k ≡ j → ⊥
  differs j e y = cc (e, (same_iff j k).1 (sym y))

  -- On a valid map both probe loops end before they have looked at every slot, so neither aborts.
  -- `probe_find` ends at the live entry of the key, or at a slot that is not live if the key has
  -- none; `probe_insert` ends at the live entry and says so, or at a slot of the buffer that is not
  -- live, and then the key has no entry.
  pub probes_end :
      ((i : ℕ) × (probe_find same hash m k ≡ some i)
        × (Holds same hash m k i
            ⊎ ((is_full (m.slots i).state ≡ false) × ((j : ℕ) → Holds same hash m k j → ⊥))))
      × ((i : ℕ) × (known : Bool) × (probe_insert same hash m k ≡ some (i, known))
          × (i < m.capacity)
          × (is_full (m.slots i).state ≡ known)
          × ((j : ℕ) → Holds same hash m k j → (known ≡ true) × (j ≡ i)))
  probes_end = (sought (seek same hash same_iff m k v), placed (place same hash same_iff m k v))
    where
      sought :
          Sought same hash same_iff m k v
          → (i : ℕ) × (probe_find same hash m k ≡ some i)
            × (Holds same hash m k i
                ⊎ ((is_full (m.slots i).state ≡ false) × ((j : ℕ) → Holds same hash m k j → ⊥)))
      sought (found i h e) = (i, e, inl h)
      sought (missing i f e nowhere) = (i, e, inr (f, nowhere))

      placed :
          Placed same hash same_iff m k v
          → (i : ℕ) × (known : Bool) × (probe_insert same hash m k ≡ some (i, known))
            × (i < m.capacity)
            × (is_full (m.slots i).state ≡ known)
            × ((j : ℕ) → Holds same hash m k j → (known ≡ true) × (j ≡ i))
      placed (there i h e) = (i, true, e, h.inside, h.live, λ j g. (refl, v.unique k j i g h))
      placed (free i inside f r e nowhere) = (i, false, e, inside, f, λ j g. absurd (nowhere j g))

  find-occupy :
      (x : V) (i : ℕ)
      → i < m.capacity
      → is_full (m.slots i).state ≡ false
      → IsValid same hash (occupy same hash m i k x)
      → (j : K)
      → find same hash (occupy same hash m i k x) j
        ≡ (if same j k then some (some x) else find same hash m j)
  find-occupy x i inside vacant w j = elim (Bool-cases (same j k)) [
    | inl e ↦ rw e (
        subst (λ z. find same hash (occupy same hash m i k x) z ≡ some (some x))
          (sym ((same_iff j k).0 e))
          (find_here same hash same_iff m v i inside (record { key = k; value = x; state = full })
            (m.size + 1) (if is_tombstone (m.slots i).state then m.tombstones - 1 else m.tombstones)
            w refl))
    | inr e ↦ rw e (
        find_elsewhere same hash same_iff m v i inside (record { key = k; value = x; state = full })
          (m.size + 1) (if is_tombstone (m.slots i).state then m.tombstones - 1 else m.tombstones) w
          j (λ _ y. differs j e y) (λ f _. absurd (cc (f, vacant))))
  ]

  -- On a valid map `insert` returns, the map stays valid, and a lookup of any key then gives the
  -- inserted value if the insertion answered true and the key is the inserted one, and what it gave
  -- before otherwise, tombstones reused or not.
  pub find-insert :
      (x : V)
      → (n : HashMap K V) × (ok : Bool) × (insert same hash m k x ≡ some (n, ok))
        × IsValid same hash n
        × ((j : K)
            → find same hash n j ≡ (if ok && same j k then some (some x) else find same hash m j))
  unfolding insert
  find-insert x = elim (place same hash same_iff m k v) [
    | there i h e ↦ (m, false, rw (nonempty, e) refl, v, λ j. refl)
    | free i inside f r e nowhere ↦ elim (Bool-cases (at_limit same hash m i)) [
      | inl l ↦ (m, false, rw (nonempty, e, l) refl, v, λ j. refl)
      | inr l ↦
          let w = occupy-IsValid same hash same_iff m v k x i inside f r nowhere l in
          (occupy same hash m i k x, true, rw (nonempty, e, l) refl, w, find-occupy x i inside f w)
    ]
  ]

  -- On a valid map, `insert` refuses a key that is there, accepts a new key if live entries and
  -- tombstones are together below the load limit, and then the size is one more; a refused
  -- insertion leaves the map as it was.
  pub insert-accepts :
      (x : V)
      → ((y : V) → find same hash m k ≡ some (some y) → insert same hash m k x ≡ some (m, false))
        × (find same hash m k ≡ some none
            → m.size + m.tombstones < max_load m.capacity
            → (n : HashMap K V) × (insert same hash m k x ≡ some (n, true)) × (n.size ≡ m.size + 1))
        × ((n : HashMap K V) → insert same hash m k x ≡ some (n, false) → n ≡ m)
  unfolding insert
  insert-accepts x = elim (place same hash same_iff m k v) [
    | there i h e ↦
        let out : insert same hash m k x ≡ some (m, false) = rw (nonempty, e) refl in
        (
          λ y _. out,
          λ q _. absurd (cc (q, find_there same hash same_iff m v k i h)),
          λ n q. (answers_agree q out).0,
        )
    | free i inside f r e nowhere ↦ elim (Bool-cases (at_limit same hash m i)) [
      | inl l ↦
          let out : insert same hash m k x ≡ some (m, false) = rw (nonempty, e, l) refl in
          (λ y _. out, λ _ q. absurd (ground (arith, l, q)), λ n q. (answers_agree q out).0)
      | inr l ↦
          let out : insert same hash m k x ≡ some (occupy same hash m i k x, true) =
            rw (nonempty, e, l) refl in
          (
            λ y q. absurd (cc (q, find_absent same hash same_iff m v k nowhere)),
            λ _ _. (occupy same hash m i k x, out, refl),
            λ n q. absurd (cc (answers_agree q out).1),
          )
    ]
  ]

  -- On a valid map `erase` returns, the map stays valid, the size is one less if it answered true
  -- and the same if not, and a lookup then finds the erased key no more and every other key as
  -- before.
  pub find-erase :
      (n : HashMap K V) × (ok : Bool) × (erase same hash m k ≡ some (n, ok))
      × IsValid same hash n
      × (n.size + (if ok then 1 else 0) ≡ m.size)
      × ((j : K) → find same hash n j ≡ (if same j k then some none else find same hash m j))
  unfolding erase
  find-erase = elim (seek same hash same_iff m k v) [
    | found i h e ↦
        let w = vacate-IsValid same hash same_iff m v k i h in
        (
          vacate same hash m i,
          true,
          rw (nonempty, e, h.live) refl,
          w,
          (let c = counted m.capacity m.slots i h.inside is_full h.live in
              omega (arith, c, v.counts_full)),
          λ j. elim (Bool-cases (same j k)) [
            | inl q ↦ rw q (
                subst (λ z. find same hash (vacate same hash m i) z ≡ some none)
                  (sym ((same_iff j k).0 q))
                  (find_gone same hash same_iff m v i h.inside
                    (record (m.slots i) { state = tombstone }) (m.size - 1) (m.tombstones + 1) w k
                    (λ y. absurd (cc y)) h))
            | inr q ↦ rw q (
                find_elsewhere same hash same_iff m v i h.inside
                  (record (m.slots i) { state = tombstone }) (m.size - 1) (m.tombstones + 1) w j
                  (λ y. absurd (cc y)) (λ _ y. differs j q (sym h.key ∙ y)))
          ],
        )
    | missing i f e nowhere ↦ (
      m,
      false,
      rw (nonempty, e, f) refl,
      v,
      omega arith,
      λ j. elim (Bool-cases (same j k)) [
        | inl q ↦ rw q (
            subst (λ z. find same hash m z ≡ some none) (sym ((same_iff j k).0 q))
              (find_absent same hash same_iff m v k nowhere))
        | inr q ↦ rw q refl
      ],
    )
  ]

  -- On a valid map `upsert` returns, the map stays valid, and a lookup of any key then gives the
  -- written value if something was written and the key is the written one, and what it gave before
  -- otherwise.
  pub find-upsert :
      (x : V)
      → (n : HashMap K V) × (r : UpsertResult) × (upsert same hash m k x ≡ some (n, r))
        × IsValid same hash n
        × ((j : K)
            → find same hash n j
              ≡ (if wrote r && same j k then some (some x) else find same hash m j))
  unfolding upsert
  find-upsert x = elim (place same hash same_iff m k v) [
    | there i h e ↦
        let w = update-IsValid same hash same_iff m v k x i h in
        (
          record m { slots = set_slot m.slots i (record (m.slots i) { value = x }) },
          updated,
          rw (nonempty, e) refl,
          w,
          λ j. elim (Bool-cases (same j k)) [
            | inl q ↦ rw q (
                subst
                  (λ z.
                    find same hash
                      (record m { slots = set_slot m.slots i (record (m.slots i) { value = x }) }) z
                    ≡ some (some x))
                  (h.key ∙ sym ((same_iff j k).0 q))
                  (find_here same hash same_iff m v i h.inside (record (m.slots i) { value = x })
                    m.size m.tombstones w h.live))
            | inr q ↦ rw q (
                find_elsewhere same hash same_iff m v i h.inside (record (m.slots i) { value = x })
                  m.size m.tombstones w j (λ _ y. differs j q (sym h.key ∙ y))
                  (λ _ y. differs j q (sym h.key ∙ y)))
          ],
        )
    | free i inside f r e nowhere ↦ elim (Bool-cases (at_limit same hash m i)) [
      | inl l ↦ (m, capacity_full, rw (nonempty, e, l) refl, v, λ j. refl)
      | inr l ↦
          let w = occupy-IsValid same hash same_iff m v k x i inside f r nowhere l in
          (
            occupy same hash m i k x,
            inserted,
            rw (nonempty, e, l) refl,
            w,
            find-occupy x i inside f w,
          )
    ]
  ]
