-- ===== src/Table.antt =====
-- What a client of libs/ds/hash_map.hpp relies on: the operations of `HashMap` that the order book
-- and the order manager call, and their laws on maps that are valid. An insertion may be refused
-- (`none`): a duplicate key, or no room under the load factor.
use low_latency_tick_to_trad.Prelude.{ℕ, ◌≡◌, Bool, true, Option, none, some, if◌then◌else◌, ◌↔◌}

pub record Table (K V : Type 0) : Type 1 where
  pub same : K → K → Bool
  pub same_iff : (j k : K) → (same j k ≡ true) ↔ (j ≡ k)
  pub Map : Type 0
  pub find : Map → K → Option V
  pub insert : Map → K → V → Option Map
  pub erase : Map → K → Map
  pub clear : Map → Map
  pub size : Map → ℕ
  pub IsValid : Map → Type 0
  pub insert-IsValid :
      (m : Map) (k : K) (v : V) {n : Map} → IsValid m → insert m k v ≡ some n → IsValid n
  pub erase-IsValid : (m : Map) (k : K) → IsValid m → IsValid (erase m k)
  pub clear-IsValid : (m : Map) → IsValid m → IsValid (clear m)
  pub find-insert :
      (m : Map) (k : K) (v : V) (j : K) {n : Map}
      → IsValid m
      → insert m k v ≡ some n
      → find n j ≡ (if same j k then some v else find m j)
  pub find-erase :
      (m : Map) (k j : K) → IsValid m → find (erase m k) j ≡ (if same j k then none else find m j)
  pub find-clear : (m : Map) (j : K) → IsValid m → find (clear m) j ≡ none
