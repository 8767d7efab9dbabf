-- ===== src/Tests/Maps.antt =====
-- A map of 8 slots whose keys 3 and 11 share the home slot 3 (libs/ds/hash_map.hpp).
use low_latency_tick_to_trad.Prelude.{
  ℕ, ◌+◌, ◌<◌, ◌≡◌, refl, Bool, true, false, ◌&&◌, none, some, arith, ◌==◌, ==_iff, if◌then◌else◌,
  length, ◌⊎◌, ◌↔◌,
}
use low_latency_tick_to_trad.HashMap.{
  HashMap, is_full, find, empty, insert, erase, upsert, for_each, occupy, probe_find, probe_insert,
  bucket_for, find_from, insert_from, vacate, max_load, UpsertResult,
}
use low_latency_tick_to_trad.HashMap.Inv.{counts, Holds, IsValid}
use low_latency_tick_to_trad.HashMap.Entries.{for_each-find, Lists}
use low_latency_tick_to_trad.HashMap.Laws.{
  probes_end, find-insert, insert-accepts, find-erase, find-upsert, wrote,
}
use low_latency_tick_to_trad.HashMap.AsTable.{insert_answer}

abbrev home_slot : ℕ → ℕ
home_slot k = k

abbrev no_keys : HashMap ℕ ℕ
no_keys = record {
  slots = λ i. record { key = 0; value = 0; state = empty };
  capacity = 8;
  size = 0;
  tombstones = 0;
}

no_keys-IsValid : IsValid (◌==◌) home_slot no_keys
unfolding counts
no_keys-IsValid = record {
  room = omega arith;
  load = omega arith;
  counts_full = refl;
  counts_tombstones = refl;
  reached = λ k i h. absurd (let e : false ≡ true = h.live in cc e);
  unique = λ k i j h g. absurd (let e : false ≡ true = h.live in cc e);
}

abbrev one_key : HashMap ℕ ℕ
one_key = occupy (◌==◌) home_slot no_keys 3 3 30

abbrev two_keys : HashMap ℕ ℕ
two_keys = occupy (◌==◌) home_slot one_key 4 11 110

one_key-IsValid : IsValid (◌==◌) home_slot one_key
unfolding insert probe_insert bucket_for insert_from
one_key-IsValid = (insert_answer (◌==◌) home_slot ==_iff no_keys 3 30 no_keys-IsValid refl).0

two_keys-IsValid : IsValid (◌==◌) home_slot two_keys
unfolding insert probe_insert bucket_for insert_from
two_keys-IsValid = (insert_answer (◌==◌) home_slot ==_iff one_key 11 110 one_key-IsValid refl).0

-- After the first key of the chain is erased, the second is still found.
chain_kept : find (◌==◌) home_slot (vacate (◌==◌) home_slot two_keys 3) 11 ≡ some (some 110)
unfolding find probe_find find_from bucket_for
chain_kept = refl

erased : erase (◌==◌) home_slot two_keys 3 ≡ some (vacate (◌==◌) home_slot two_keys 3, true)
unfolding erase probe_find find_from bucket_for
erased = refl

probes_end_example :
    ((i : ℕ) × (probe_find (◌==◌) home_slot two_keys 11 ≡ some i)
      × (Holds (◌==◌) home_slot two_keys 11 i
          ⊎ ((is_full (two_keys.slots i).state ≡ false)
              × ((j : ℕ) → Holds (◌==◌) home_slot two_keys 11 j → ⊥))))
    × ((i : ℕ) × (known : Bool) × (probe_insert (◌==◌) home_slot two_keys 11 ≡ some (i, known))
        × (i < two_keys.capacity)
        × (is_full (two_keys.slots i).state ≡ known)
        × ((j : ℕ) → Holds (◌==◌) home_slot two_keys 11 j → (known ≡ true) × (j ≡ i)))
probes_end_example = probes_end (◌==◌) home_slot ==_iff two_keys two_keys-IsValid 11

find-insert_example :
    (n : HashMap ℕ ℕ) × (ok : Bool) × (insert (◌==◌) home_slot two_keys 19 190 ≡ some (n, ok))
    × IsValid (◌==◌) home_slot n
    × ((j : ℕ)
        → find (◌==◌) home_slot n j
          ≡ (if ok && j == 19 then some (some 190) else find (◌==◌) home_slot two_keys j))
find-insert_example = find-insert (◌==◌) home_slot ==_iff two_keys two_keys-IsValid 19 190

insert-accepts_example :
    ((y : ℕ)
      → find (◌==◌) home_slot two_keys 11 ≡ some (some y)
      → insert (◌==◌) home_slot two_keys 11 7 ≡ some (two_keys, false))
    × (find (◌==◌) home_slot two_keys 11 ≡ some none
        → two_keys.size + two_keys.tombstones < max_load two_keys.capacity
        → (n : HashMap ℕ ℕ) × (insert (◌==◌) home_slot two_keys 11 7 ≡ some (n, true))
          × (n.size ≡ two_keys.size + 1))
    × ((n : HashMap ℕ ℕ) → insert (◌==◌) home_slot two_keys 11 7 ≡ some (n, false) → n ≡ two_keys)
insert-accepts_example = insert-accepts (◌==◌) home_slot ==_iff two_keys two_keys-IsValid 11 7

find-erase_example :
    (n : HashMap ℕ ℕ) × (ok : Bool) × (erase (◌==◌) home_slot two_keys 3 ≡ some (n, ok))
    × IsValid (◌==◌) home_slot n
    × (n.size + (if ok then 1 else 0) ≡ two_keys.size)
    × ((j : ℕ)
        → find (◌==◌) home_slot n j
          ≡ (if j == 3 then some none else find (◌==◌) home_slot two_keys j))
find-erase_example = find-erase (◌==◌) home_slot ==_iff two_keys two_keys-IsValid 3

find-upsert_example :
    (n : HashMap ℕ ℕ) × (r : UpsertResult) × (upsert (◌==◌) home_slot two_keys 11 7 ≡ some (n, r))
    × IsValid (◌==◌) home_slot n
    × ((j : ℕ)
        → find (◌==◌) home_slot n j
          ≡ (if wrote r && j == 11 then some (some 7) else find (◌==◌) home_slot two_keys j))
find-upsert_example = find-upsert (◌==◌) home_slot ==_iff two_keys two_keys-IsValid 11 7

for_each-find_example :
    (length (for_each two_keys) ≡ two_keys.size)
    × ((k x : ℕ)
        → Lists (for_each two_keys) (k, x) ↔ (find (◌==◌) home_slot two_keys k ≡ some (some x)))
for_each-find_example = for_each-find (◌==◌) home_slot ==_iff two_keys two_keys-IsValid
