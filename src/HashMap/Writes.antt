-- ===== src/HashMap/Writes.antt =====
-- What a write of one slot leaves of a map of libs/ds/hash_map.hpp: an insertion, an update and an
-- erasure are such writes.
use low_latency_tick_to_trad.Prelude.{
  ℕ, zero, suc, ◌+◌, ◌≤◌, ◌<◌, ◌≡◌, refl, sym, subst, ◌∙◌, ap, Bool, true, false, arith, ◌==◌,
  ==_iff, if◌then◌else◌, Bool-cases, inl, inr, ◌⊎◌,
}
use low_latency_tick_to_trad.HashMap.{
  HashMap, Slot, SlotState, set_slot, is_full, is_empty, is_tombstone, max_load,
}
use low_latency_tick_to_trad.HashMap.Inv.{counts, Holds, Reached, IsValid, home}
use low_latency_tick_to_trad.HashMap.Probe.{spot}

abbrev pub one_if : Bool → ℕ
one_if b = if b then 1 else 0

other_slots :
    {K V : Type 0} (p : SlotState → Bool) (n : ℕ) (f : ℕ → Slot K V) (i : ℕ) (x : Slot K V)
    → n ≤ i
    → counts p n (set_slot f i x) ≡ counts p n f
unfolding counts
other_slots p zero f i x h = refl
other_slots p (suc n) f i x h =
    let e : (n == i) ≡ false = ground (arith, h) in
    rw (e, other_slots p n f i x (omega (arith, h))) refl

counts-set_slot :
    {K V : Type 0} (p : SlotState → Bool) (n : ℕ) (f : ℕ → Slot K V) (i : ℕ) (x : Slot K V)
    → i < n
    → counts p n (set_slot f i x) + one_if (p (f i).state) ≡ counts p n f + one_if (p x.state)
unfolding counts
counts-set_slot p zero f i x h = absurd (omega (arith, h))
counts-set_slot p (suc n) f i x h = elim (Bool-cases (n == i)) [
  | inl e ↦
      let y : n ≡ i = (==_iff n i).0 e in
      let o = other_slots p n f i x (omega (arith, y)) in
      let w : one_if (p (f n).state) ≡ one_if (p (f i).state) =
        ap (λ z. one_if (p (f z).state)) y in
      rw (e, o) (omega (arith, w))
  | inr e ↦ let r = counts-set_slot p n f i x (ground (arith, h, e)) in rw e (omega (arith, r))
]

module _ {K V : Type 0} (same : K → K → Bool) (hash : K → ℕ) (m : HashMap K V)
    (v : IsValid same hash m) (i : ℕ) (inside : i < m.capacity) (x : Slot K V)
    (size tombstones : ℕ) where
  abbrev pub written : HashMap K V
  written = record m { slots = set_slot m.slots i x; size = size; tombstones = tombstones }

  pub Holds-cases :
      (k : K) (j : ℕ)
      → Holds same hash written k j
      → ((j ≡ i) × (is_full x.state ≡ true) × (x.key ≡ k))
        ⊎ (((j == i) ≡ false) × Holds same hash m k j)
  Holds-cases k j h = elim (Bool-cases (j == i)) [
    | inl e ↦ inl (
      (==_iff j i).0 e,
      subst (λ b. is_full (if b then x else m.slots j).state ≡ true) e h.live,
      subst (λ b. (if b then x else m.slots j).key ≡ k) e h.key,
    )
    | inr e ↦ inr (
      e,
      record {
        inside = h.inside;
        live = subst (λ b. is_full (if b then x else m.slots j).state ≡ true) e h.live;
        key = subst (λ b. (if b then x else m.slots j).key ≡ k) e h.key;
      },
    )
  ]

  pub held_here : is_full x.state ≡ true → Holds same hash written x.key i
  held_here f =
      let e : (i == i) ≡ true = (==_iff i i).1 refl in
      record { inside = inside; live = rw e f; key = rw e refl }

  pub held_elsewhere :
      (k : K) (j : ℕ) → (j == i) ≡ false → Holds same hash m k j → Holds same hash written k j
  held_elsewhere k j e h = record { inside = h.inside; live = rw e h.live; key = rw e h.key }

  still_met :
      (k : K) (j : ℕ)
      → is_empty x.state ≡ false
      → Reached same hash m k j
      → Reached same hash written k j
  still_met k j busy r = record {
    steps = r.steps;
    bounded = r.bounded;
    ends_at = r.ends_at;
    chained = λ e l. occupied (spot m.capacity (home same hash m k) e) (r.chained e l);
  }
    where
      occupied :
          (z : ℕ)
          → is_empty (m.slots z).state ≡ false
          → is_empty (set_slot m.slots i x z).state ≡ false
      occupied z h = elim (Bool-cases (z == i)) [ inl e ↦ rw e busy | inr e ↦ rw e h ]

  pub written-IsValid :
      is_empty x.state ≡ false
      → size + tombstones ≤ max_load m.capacity
      → size + one_if (is_full (m.slots i).state) ≡ m.size + one_if (is_full x.state)
      → tombstones + one_if (is_tombstone (m.slots i).state)
        ≡ m.tombstones + one_if (is_tombstone x.state)
      → (is_full x.state ≡ true
          → Reached same hash m x.key i × ((j : ℕ) → Holds same hash m x.key j → j ≡ i))
      → IsValid same hash written
  written-IsValid occupied load s t fresh = record {
    room = v.room;
    load = load;
    counts_full =
        (let c = counts-set_slot is_full m.capacity m.slots i x inside in
          omega (arith, c, s, v.counts_full));
    counts_tombstones =
        (let c = counts-set_slot is_tombstone m.capacity m.slots i x inside in
          omega (arith, c, t, v.counts_tombstones));
    reached = λ k j h. elim (Holds-cases k j h) [
      | inl (e, f, y) ↦ still_met k j occupied (
          subst (Reached same hash m k) (sym e)
            (subst (λ z. Reached same hash m z i) y (fresh f).0))
      | inr (e, g) ↦ still_met k j occupied (v.reached k j g)
    ];
    unique = λ k a b g h. elim (Holds-cases k a g) [
      | inl (e, f, y) ↦ elim (Holds-cases k b h) [
        | inl (d, z, w) ↦ e ∙ sym d
        | inr (d, z) ↦ e ∙ sym ((fresh f).1 b (subst (λ q. Holds same hash m q b) (sym y) z))
      ]
      | inr (e, y) ↦ elim (Holds-cases k b h) [
        | inl (d, z, w) ↦ (fresh z).1 a (subst (λ q. Holds same hash m q a) (sym w) y) ∙ sym d
        | inr (d, z) ↦ v.unique k a b y z
      ]
    ];
  }
