-- ===== src/HashMap.antt =====
-- libs/ds/hash_map.hpp: open addressing with linear probing, tombstones and a load limit. The buffer is
-- a function of the slot index, with arbitrary keys and values in slots that are not full; the
-- capacity is a power of two, so `x & mask_` is `x % capacity`. `none` is a call of `std::abort`.
pub mod Probe
pub mod Inv
pub mod Writes
pub mod Steps
pub mod Finds
pub mod Laws
pub mod Entries
pub mod AsTable
use low_latency_tick_to_trad.Prelude.{
  ℕ, zero, suc, ◌+◌, ◌-◌, ◌*◌, ◌%◌, ◌≤◌, ◌<◌, ◌≡◌, ◌≢◌, refl, sym, subst, ◌∙◌, ap, Bool, true,
  false, not, ◌&&◌, ◌||◌, Option, none, some, List, [], ◌∷◌, ◌++◌, arith, ltb, leb, ◌==◌, ==_iff,
  if◌then◌else◌, length, length-append, append-nil, append_assoc, min, max, Bool-cases,
  Option-cases, inl, inr, ◌⊎◌, ◌/◌,
}

pub data SlotState : Type 0 where
  empty full tombstone : SlotState

pub record Slot (K V : Type 0) : Type 0 where
  pub key : K
  pub value : V
  pub state : SlotState

pub record HashMap (K V : Type 0) : Type 0 where
  pub slots : ℕ → Slot K V
  pub capacity : ℕ
  pub size : ℕ
  pub tombstones : ℕ

abbrev pub is_empty : SlotState → Bool
is_empty empty = true
is_empty _ = false

abbrev pub is_full : SlotState → Bool
is_full full = true
is_full _ = false

abbrev pub is_tombstone : SlotState → Bool
is_tombstone tombstone = true
is_tombstone _ = false

-- `slots_[i] = x`
abbrev pub set_slot : {K V : Type 0} → (ℕ → Slot K V) → ℕ → Slot K V → ℕ → Slot K V
set_slot f i x j = if j == i then x else f j

abbrev pub max_load : ℕ → ℕ
max_load capacity = capacity * 7 / 10

abbrev pub tombstone_threshold : ℕ → ℕ
tombstone_threshold capacity = capacity * 2 / 10

pub data UpsertResult : Type 0 where
  inserted updated capacity_full : UpsertResult

module _ {K V : Type 0} (same : K → K → Bool) (hash : K → ℕ) where
  unfoldable pub bucket_for : HashMap K V → K → ℕ
  bucket_for m k = hash k % m.capacity

  -- The loop of `probe_find`, with the rounds left.
  unfoldable pub find_from : HashMap K V → K → ℕ → ℕ → Option ℕ
  find_from m k zero i = none
  find_from m k (suc rounds) i =
      let rest = find_from m k rounds ((i + 1) % m.capacity) in
      if is_empty (m.slots i).state
      then some i
      else if is_full (m.slots i).state && same (m.slots i).key k
      then some i
      else rest

  unfoldable pub probe_find : HashMap K V → K → Option ℕ
  unfolding find_from bucket_for
  probe_find m k = find_from m k m.capacity (bucket_for m k)

  -- The loop of `probe_insert`; `first` is `first_tombstone`, the capacity if there is none so far.
  unfoldable pub insert_from : HashMap K V → K → ℕ → ℕ → ℕ → Option (ℕ × Bool)
  insert_from m k zero i first = none
  insert_from m k (suc rounds) i first =
      let noted = if is_tombstone (m.slots i).state && first == m.capacity then i else first in
      let rest = insert_from m k rounds ((i + 1) % m.capacity) noted in
      if is_empty (m.slots i).state
      then some (if first == m.capacity then i else first, false)
      else if not (is_tombstone (m.slots i).state) && same (m.slots i).key k
      then some (i, true)
      else rest

  unfoldable pub probe_insert : HashMap K V → K → Option (ℕ × Bool)
  unfolding insert_from bucket_for
  probe_insert m k = insert_from m k m.capacity (bucket_for m k) m.capacity

  -- The value, if the key is there.
  unfoldable pub find : HashMap K V → K → Option (Option V)
  unfolding probe_find
  find m k = if m.capacity == 0 then some none else elim (probe_find m k) [
    | none ↦ none
    | some i ↦ some (if is_full (m.slots i).state then some (m.slots i).value else none)
  ]

  -- The writes that add a key at a slot.
  abbrev pub occupy : HashMap K V → ℕ → K → V → HashMap K V
  occupy m i k v = record m {
    slots = set_slot m.slots i (record { key = k; value = v; state = full });
    size = m.size + 1;
    tombstones = if is_tombstone (m.slots i).state then m.tombstones - 1 else m.tombstones;
  }

  -- No tombstone is reused and the load limit is reached.
  abbrev pub at_limit : HashMap K V → ℕ → Bool
  at_limit m i =
      not (is_tombstone (m.slots i).state) && leb (max_load m.capacity) (m.size + m.tombstones)

  unfoldable pub insert : HashMap K V → K → V → Option (HashMap K V × Bool)
  unfolding probe_insert
  insert m k v = if m.capacity == 0 then some (m, false) else elim (probe_insert m k) [
    | none ↦ none
    | some (i, found_existing) ↦ some (
        if found_existing
        then (m, false)
        else if at_limit m i
        then (m, false)
        else (occupy m i k v, true))
  ]

  unfoldable pub upsert : HashMap K V → K → V → Option (HashMap K V × UpsertResult)
  unfolding probe_insert
  upsert m k v = if m.capacity == 0 then some (m, capacity_full) else elim (probe_insert m k) [
    | none ↦ none
    | some (i, found_existing) ↦ some (
        if found_existing
        then (record m { slots = set_slot m.slots i (record (m.slots i) { value = v }) }, updated)
        else if at_limit m i
        then (m, capacity_full)
        else (occupy m i k v, inserted))
  ]

  -- The write that removes the key of a slot.
  abbrev pub vacate : HashMap K V → ℕ → HashMap K V
  vacate m i = record m {
    slots = set_slot m.slots i (record (m.slots i) { state = tombstone });
    size = m.size - 1;
    tombstones = m.tombstones + 1;
  }

  unfoldable pub erase : HashMap K V → K → Option (HashMap K V × Bool)
  unfolding probe_find
  erase m k = if m.capacity == 0 then some (m, false) else elim (probe_find m k) [
    | none ↦ none
    | some i ↦ some (if is_full (m.slots i).state then (vacate m i, true) else (m, false))
  ]

module _ {K V : Type 0} where
  unfoldable pub clear : HashMap K V → HashMap K V
  clear m = record m {
    slots = λ i. if ltb i m.capacity then record (m.slots i) { state = empty } else m.slots i;
    size = 0;
    tombstones = 0;
  }

  unfoldable pub needs_rebuild : HashMap K V → Bool
  needs_rebuild m = ltb (tombstone_threshold m.capacity) m.tombstones

  -- The live entries, in the order of the slots.
  unfoldable pub entries_below : HashMap K V → ℕ → List (K × V)
  entries_below m zero = []
  entries_below m (suc n) =
      let below = entries_below m n in
      if is_full (m.slots n).state
      then below ++ ((m.slots n).key, (m.slots n).value) ∷ []
      else below

  abbrev pub for_each : HashMap K V → List (K × V)
  for_each m = entries_below m m.capacity
