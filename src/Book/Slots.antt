-- ===== src/Book/Slots.antt =====
-- What a change of pool counts or of the order map leaves as it is in a book (libs/algo/order_book.hpp).
use low_latency_tick_to_trad.Prelude.{
  ℕ, ◌+◌, ◌≡◌, true, false, List, arith, ◌==◌, ==_iff, length, Bool-cases, inl, inr, ◌⊎◌,
}
use low_latency_tick_to_trad.Table.{Table}
use low_latency_tick_to_trad.Types.{OrderId, Price, Side, bid, opposite, ask}
use low_latency_tick_to_trad.Book.{Handle, Order}
use low_latency_tick_to_trad.Book.Inv.{Book, OrdersOk, LevelsOk, queue_of}

module _ (orders_table : Table OrderId Handle) (levels_table : Table Price (Unit {0})) where
  abbrev B : Type 0
  B = Book orders_table levels_table

  abbrev queue : B → Side → List Order
  queue = queue_of orders_table levels_table

  pub order_same : (j k : OrderId) → orders_table.same j k ≡ (j == k)
  order_same j k = elim (Bool-cases (j == k)) [
    | inl e ↦ rw e ((orders_table.same_iff j k).1 ((==_iff j k).0 e))
    | inr n ↦ rw n (apart (Bool-cases (orders_table.same j k)) n)
  ]
    where
      apart :
          ((orders_table.same j k ≡ true) ⊎ (orders_table.same j k ≡ false))
          → (j == k) ≡ false
          → orders_table.same j k ≡ false
      apart (inr e) n = e
      apart (inl e) n = absurd (cc ((==_iff j k).1 ((orders_table.same_iff j k).0 e)))

  -- The levels do not depend on the map and the pool of orders.
  pub orders_changed :
      (max_levels : ℕ) (b : B) (k : ℕ) (m : orders_table.Map)
      → LevelsOk orders_table levels_table max_levels b
      → LevelsOk orders_table levels_table max_levels (record b { free_orders = k; order_map = m })
  orders_changed n b k m v = record {
    sorted = elim [ bid ↦ v.sorted bid | ask ↦ v.sorted ask ];
    keys_valid = elim [ bid ↦ v.keys_valid bid | ask ↦ v.keys_valid ask ];
    keys = elim [ bid ↦ v.keys bid | ask ↦ v.keys ask ];
    slots = v.slots;
  }

  -- The orders, under a map that answers alike.
  pub map_changed :
      (max_orders : ℕ) (b : B) (k : ℕ) (m : orders_table.Map)
      → OrdersOk orders_table levels_table max_orders b
      → orders_table.IsValid m
      → ((j : OrderId) → orders_table.find m j ≡ orders_table.find b.order_map j)
      → k ≡ b.free_orders
      → OrdersOk orders_table levels_table max_orders (record b { free_orders = k; order_map = m })
  map_changed n b k m v w f e = record {
    distinct = elim [ bid ↦ v.distinct bid | ask ↦ v.distinct ask ];
    map_valid = w;
    map_knows = elim [
      | bid ↦ λ j. rw (f j) (v.map_knows bid j)
      | ask ↦ λ j. rw (f j) (v.map_knows ask j)
    ];
    slots = rw e v.slots;
  }

  pub counted :
      (s : Side) (b d : B)
      → length (queue d s) ≡ length (queue b s) + 1
      → length (queue d (opposite s)) ≡ length (queue b (opposite s))
      → length (queue d bid) + length (queue d ask)
        ≡ length (queue b bid) + length (queue b ask) + 1
  counted bid b d e f = omega arith
  counted ask b d e f = omega arith
