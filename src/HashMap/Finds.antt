-- ===== src/HashMap/Finds.antt =====
-- What `find` of libs/ds/hash_map.hpp answers after a write of one slot.
use low_latency_tick_to_trad.Prelude.{
  ℕ, ◌<◌, ◌≡◌, refl, sym, subst, ◌∙◌, ap, Bool, true, none, some, ◌==◌, ==_iff, if◌then◌else◌,
  Bool-cases, inl, inr, ◌↔◌,
}
use low_latency_tick_to_trad.HashMap.{HashMap, Slot, is_full, find}
use low_latency_tick_to_trad.HashMap.Inv.{Holds, IsValid, seek, found, missing}
use low_latency_tick_to_trad.HashMap.Writes.{written, Holds-cases, held_here, held_elsewhere}
use low_latency_tick_to_trad.HashMap.Steps.{find_there, find_absent}

module _ {K V : Type 0} (same : K → K → Bool) (hash : K → ℕ)
    (same_iff : (j k : K) → (same j k ≡ true) ↔ (j ≡ k)) (m : HashMap K V) (v : IsValid same hash m)
    (i : ℕ) (inside : i < m.capacity) (x : Slot K V) (size tombstones : ℕ)
    (w : IsValid same hash (written same hash m v i inside x size tombstones)) where
  abbrev after : HashMap K V
  after = written same hash m v i inside x size tombstones

  pub find_here : is_full x.state ≡ true → find same hash after x.key ≡ some (some x.value)
  find_here f =
      let e : (i == i) ≡ true = (==_iff i i).1 refl in
      find_there same hash same_iff after w x.key i
        (held_here same hash m v i inside x size tombstones f)
      ∙ ap (λ b. some (some (if b then x else m.slots i).value)) e

  pub find_elsewhere :
      (j : K)
      → (is_full x.state ≡ true → x.key ≡ j → ⊥)
      → (is_full (m.slots i).state ≡ true → (m.slots i).key ≡ j → ⊥)
      → find same hash after j ≡ find same hash m j
  find_elsewhere j new old = elim (seek same hash same_iff m j v) [
    | found a h e ↦ elim (Bool-cases (a == i)) [
      | inl y ↦ absurd (
          old (subst (λ z. is_full (m.slots z).state ≡ true) ((==_iff a i).0 y) h.live)
            (subst (λ z. (m.slots z).key ≡ j) ((==_iff a i).0 y) h.key))
      | inr y ↦
          find_there same hash same_iff after w j a
            (held_elsewhere same hash m v i inside x size tombstones j a y h)
          ∙ ap (λ b. some (some (if b then x else m.slots a).value)) y
          ∙ sym (find_there same hash same_iff m v j a h)
    ]
    | missing a f e nowhere ↦
        find_absent same hash same_iff after w j (λ b h.
          elim (Holds-cases same hash m v i inside x size tombstones j b h) [
            | inl (d, g, q) ↦ new g q
            | inr (d, g) ↦ nowhere b g
          ])
        ∙ sym (find_absent same hash same_iff m v j nowhere)
  ]

  pub find_gone :
      (j : K)
      → (is_full x.state ≡ true → x.key ≡ j → ⊥)
      → Holds same hash m j i
      → find same hash after j ≡ some none
  find_gone j new old = find_absent same hash same_iff after w j (λ b h.
      elim (Holds-cases same hash m v i inside x size tombstones j b h) [
        | inl (d, g, q) ↦ new g q
        | inr (d, g) ↦ absurd (cc (d, (==_iff b i).1 (v.unique j b i g old)))
      ])
