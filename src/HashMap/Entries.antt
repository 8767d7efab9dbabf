-- ===== src/HashMap/Entries.antt =====
-- `clear`, and what `for_each` of libs/ds/hash_map.hpp visits.
use low_latency_tick_to_trad.Prelude.{
  ℕ, zero, suc, ◌<◌, ◌≡◌, refl, sym, subst, ◌∙◌, ap, Bool, true, none, some, List, [], ◌∷◌, ◌++◌,
  arith, ◌==◌, ==_iff, if◌then◌else◌, Bool-cases, inl, inr, ◌⊎◌, get_elem?, ◌↔◌, length,
  length-append, ltb, false, ◌≤◌,
}
use low_latency_tick_to_trad.HashMap.{
  HashMap, is_full, find, clear, entries_below, for_each, SlotState, is_tombstone, empty,
}
use low_latency_tick_to_trad.HashMap.Inv.{IsValid, seek, found, missing, counts, Holds}
use low_latency_tick_to_trad.HashMap.Steps.{find_there, find_absent}

-- The entry is at some place of the list.
abbrev pub Lists : {A : Type 0} → List A → A → Type 0
Lists xs x = (i : ℕ) × (get_elem? xs i ≡ some x)

listed_append : {A : Type 0} (xs ys : List A) (x : A) → Lists xs x ⊎ Lists ys x → Lists (xs ++ ys) x
listed_append [] ys x (inl (i, e)) = absurd (cc e)
listed_append [] ys x (inr r) = r
listed_append (a ∷ xs) ys x (inl (zero, e)) = (0, e)
listed_append (a ∷ xs) ys x (inl (suc i, e)) =
    let (j, f) = listed_append xs ys x (inl (i, e)) in (suc j, f)
listed_append (a ∷ xs) ys x (inr r) = let (j, f) = listed_append xs ys x (inr r) in (suc j, f)

append_listed : {A : Type 0} (xs ys : List A) (x : A) → Lists (xs ++ ys) x → Lists xs x ⊎ Lists ys x
append_listed [] ys x r = inr r
append_listed (a ∷ xs) ys x (zero, e) = inl (0, e)
append_listed (a ∷ xs) ys x (suc i, e) = elim (append_listed xs ys x (i, e)) [
  | inl (j, f) ↦ inl (suc j, f)
  | inr r ↦ inr r
]

module _ {K V : Type 0} where
  -- A live slot below the bound with that key and value.
  abbrev Kept : HashMap K V → ℕ → K → V → Type 0
  Kept m n k v =
      (i : ℕ) × (i < n)
      × (is_full (m.slots i).state ≡ true)
      × ((m.slots i).key ≡ k)
      × ((m.slots i).value ≡ v)

  live_listed :
      (m : HashMap K V) (n : ℕ) (k : K) (v : V) → Kept m n k v → Lists (entries_below m n) (k, v)
  unfolding entries_below
  live_listed m zero k v (i, l, f, a, b) = absurd (omega (arith, l))
  live_listed m (suc n) k v (i, l, f, a, b) = elim (Bool-cases (i == n)) [
    | inl e ↦
        let y = (==_iff i n).0 e in
        let g : is_full (m.slots n).state ≡ true =
          subst (λ z. is_full (m.slots z).state ≡ true) y f in
        let w : Lists (((m.slots n).key, (m.slots n).value) ∷ []) (k, v) =
          (0, rw (sym y, a, b) refl) in
        rw g (
          listed_append (entries_below m n) (((m.slots n).key, (m.slots n).value) ∷ []) (k, v)
            (inr w))
    | inr e ↦
        let w = live_listed m n k v (i, ground (arith, l, e), f, a, b) in
        elim (Bool-cases (is_full (m.slots n).state)) [
          | inl g ↦ rw g (
              listed_append (entries_below m n) (((m.slots n).key, (m.slots n).value) ∷ []) (k, v)
                (inl w))
          | inr g ↦ rw g w
        ]
  ]

  listed_live :
      (m : HashMap K V) (n : ℕ) (k : K) (v : V) → Lists (entries_below m n) (k, v) → Kept m n k v
  unfolding entries_below
  listed_live m zero k v (i, e) = absurd (cc e)
  listed_live m (suc n) k v r = elim (Bool-cases (is_full (m.slots n).state)) [
    | inr g ↦
        let (i, l, f, a, b) = listed_live m n k v (
          subst
            (λ b.
              Lists
                (if b
                  then entries_below m n ++ ((m.slots n).key, (m.slots n).value) ∷ []
                  else entries_below m n)
                (k, v))
            g r) in
        (i, omega (arith, l), f, a, b)
    | inl g ↦
        elim (append_listed (entries_below m n) (((m.slots n).key, (m.slots n).value) ∷ []) (k, v)
          (subst
            (λ b.
              Lists
                (if b
                  then entries_below m n ++ ((m.slots n).key, (m.slots n).value) ∷ []
                  else entries_below m n)
                (k, v))
            g r)) [
              | inl w ↦
                  let (i, l, f, a, b) = listed_live m n k v w in (i, omega (arith, l), f, a, b)
              | inr (zero, e) ↦ (
                n,
                omega arith,
                g,
                ap (λ o. elim o [ none ↦ k | some (a, b) ↦ a ]) e,
                ap (λ o. elim o [ none ↦ v | some (a, b) ↦ b ]) e,
              )
              | inr (suc j, e) ↦ absurd (cc e)
            ]
  ]

length-entries_below :
    {K V : Type 0} (m : HashMap K V) (n : ℕ) → length (entries_below m n) ≡ counts is_full n m.slots
unfolding entries_below counts
length-entries_below m zero = refl
length-entries_below m (suc n) = elim (Bool-cases (is_full (m.slots n).state)) [
  | inl e ↦
      rw
        (
          e,
          length-append (entries_below m n) (((m.slots n).key, (m.slots n).value) ∷ []),
          length-entries_below m n,
        )
        refl
  | inr e ↦ rw (e, length-entries_below m n) (omega arith)
]

module _ {K V : Type 0} (same : K → K → Bool) (hash : K → ℕ)
    (same_iff : (j k : K) → (same j k ≡ true) ↔ (j ≡ k)) (m : HashMap K V)
    (v : IsValid same hash m) where
  visited_live : (k : K) (x : V) → Lists (for_each m) (k, x) → find same hash m k ≡ some (some x)
  visited_live k x r =
      let (i, l, f, a, b) = listed_live m m.capacity k x r in
      find_there same hash same_iff m v k i (record { inside = l; live = f; key = a })
      ∙ ap (λ z. some (some z)) b

  live_visited : (k : K) (x : V) → find same hash m k ≡ some (some x) → Lists (for_each m) (k, x)
  live_visited k x e = elim (seek same hash same_iff m k v) [
    | found i h r ↦
        live_listed m m.capacity k x
          (i, h.inside, h.live, h.key, cc (e, find_there same hash same_iff m v k i h))
    | missing i f r nowhere ↦ absurd (cc (e, find_absent same hash same_iff m v k nowhere))
  ]

  -- On a valid map `for_each` visits as many entries as the size says, and visits an entry exactly
  -- if `find` gives its value for its key.
  pub for_each-find :
      (length (for_each m) ≡ m.size)
      × ((k : K) (x : V) → Lists (for_each m) (k, x) ↔ (find same hash m k ≡ some (some x)))
  for_each-find = (
    length-entries_below m m.capacity ∙ v.counts_full,
    λ k x. (visited_live k x, live_visited k x),
  )

none_counted :
    {K V : Type 0} (m : HashMap K V) (p : SlotState → Bool) (n : ℕ)
    → p empty ≡ false
    → n ≤ m.capacity
    → counts p n (clear m).slots ≡ 0
unfolding counts clear
none_counted m p zero e h = refl
none_counted m p (suc n) e h =
    let l : ltb n m.capacity ≡ true = ground (arith, h) in
    rw (none_counted m p n e (omega (arith, h)), l, e) refl

module _ {K V : Type 0} (same : K → K → Bool) (hash : K → ℕ)
    (same_iff : (j k : K) → (same j k ≡ true) ↔ (j ≡ k)) (m : HashMap K V)
    (v : IsValid same hash m) where
  clear_empty : (k : K) (i : ℕ) → Holds same hash (clear m) k i → ⊥
  unfolding clear
  clear_empty k i h =
      let l : ltb i m.capacity ≡ true = (let r = h.inside in ground (arith, r)) in
      cc (
        h.live,
        subst
            (λ b.
              is_full (if b then record (m.slots i) { state = empty } else m.slots i).state ≡ false)
            (sym l) refl,
      )

  pub clear-IsValid : IsValid same hash (clear m)
  unfolding clear
  clear-IsValid = record {
    room = v.room;
    load = omega arith;
    counts_full = none_counted m is_full m.capacity refl (omega arith);
    counts_tombstones = none_counted m is_tombstone m.capacity refl (omega arith);
    reached = λ k i h. absurd (clear_empty k i h);
    unique = λ k i j h g. absurd (clear_empty k i h);
  }

  pub find-clear : (k : K) → find same hash (clear m) k ≡ some none
  find-clear k = find_absent same hash same_iff (clear m) clear-IsValid k (clear_empty k)
