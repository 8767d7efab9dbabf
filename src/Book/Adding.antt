-- ===== src/Book/Adding.antt =====
-- `add_order` of libs/algo/order_book.hpp on every branch.
use low_latency_tick_to_trad.Prelude.{
  ℕ, ◌+◌, ◌<◌, ◌≡◌, refl, List, some, none, ◌==◌, ◌∙◌, ap, true, ◌⊎◌, false, inr, if◌then◌else◌,
  inl, ==_iff, Bool-cases, Bool, length, Option, arith, sym, ◌-◌, Option-cases,
}
use low_latency_tick_to_trad.Types.{Price, OrderId, Qty, Side, bid, ask, opposite}
use low_latency_tick_to_trad.Table.{Table}
use low_latency_tick_to_trad.Book.{
  Handle, Order, has_order, find_or_create_level, link_order, add_order, alloc_order,
}
use low_latency_tick_to_trad.Book.Inv.{
  OrdersOk, Book, queue_of, on_side, Trades-OrdersOk, IsValid, on_side_same, on_side_other,
}
use low_latency_tick_to_trad.Book.Placing.{Links, resting, place-Links}
use low_latency_tick_to_trad.Book.Queue.{
  insert_entry, where_is, entries, insert_entry-Distinct, where_is-insert_entry,
  length-insert_entry,
}
use low_latency_tick_to_trad.Prelude.Word.{u32}
use low_latency_tick_to_trad.Book.Slots.{orders_changed, order_same, map_changed}
use low_latency_tick_to_trad.Book.Slots.{counted}

module _ (orders_table : Table OrderId Handle) (levels_table : Table Price (Unit {0})) where
  abbrev B : Type 0
  B = Book orders_table levels_table

  abbrev queue : B → Side → List Order
  queue = queue_of orders_table levels_table

  pull :
      (s : Side) (p : Price) (c : Bool) (h : Option Handle)
      → (if c then some (s, p) else on_side s h) ≡ on_side s (if c then some (s, p) else h)
  pull s p true h = sym (on_side_same s p)
  pull s p false h = refl

  -- The orders of a book that has gained one.
  placed-OrdersOk :
      (max_orders max_levels : ℕ) (b c d : B) (i : OrderId) (s : Side) (p : Price) (q : Qty)
      (m : orders_table.Map)
      → OrdersOk orders_table levels_table max_orders b
      → orders_table.find b.order_map i ≡ none
      → orders_table.insert b.order_map i (s, p) ≡ some m
      → b.free_orders ≡ c.free_orders + 1
      → c.order_map ≡ m
      → ((t : Side) → queue c t ≡ queue b t)
      → Links orders_table levels_table max_levels (resting i s p q) c d
      → OrdersOk orders_table levels_table max_orders d
  placed-OrdersOk n k b c d i s p q m v absent ins free map same l =
      Trades-OrdersOk orders_table levels_table n s b d v
        (record {
          others = ap entries l.others ∙ same (opposite s);
          distinct =
              rw grown (insert_entry-Distinct s (resting i s p q) (queue b s) fresh (v.distinct s));
          map_valid =
              rw (l.map_same, map)
                (orders_table.insert-IsValid b.order_map i (s, p) v.map_valid ins);
          knows = λ j.
              rw
                (
                  grown,
                  where_is-insert_entry s (resting i s p q) (queue b s) j fresh,
                  found j,
                  v.map_knows s j,
                )
                (pull s p (j == i) (orders_table.find b.order_map j));
          knows_others = λ j. rw (found j) (ignored j (Bool-cases (j == i)));
        })
        (omega (
          arith,
          v.slots,
          l.slots_same,
          counted orders_table levels_table s b d
              (ap length grown ∙ length-insert_entry s (resting i s p q) (queue b s))
              (ap length (ap entries l.others ∙ same (opposite s))),
        ))
    where
      grown : queue d s ≡ insert_entry s (resting i s p q) (queue b s)
      grown = l.queue ∙ ap (insert_entry s (resting i s p q)) (same s)

      fresh : where_is i (queue b s) ≡ none
      fresh = v.map_knows s i ∙ ap (on_side s) absent

      found :
          (j : OrderId)
          → orders_table.find d.order_map j
            ≡ (if j == i then some (s, p) else orders_table.find b.order_map j)
      found j =
          rw (l.map_same, map, ← order_same orders_table levels_table j i)
            (orders_table.find-insert b.order_map i (s, p) j v.map_valid ins)

      ignored :
          (j : OrderId)
          → ((j == i) ≡ true) ⊎ ((j == i) ≡ false)
          → on_side (opposite s) (if j == i then some (s, p) else orders_table.find b.order_map j)
            ≡ on_side (opposite s) (orders_table.find b.order_map j)
      ignored j (inl e) = rw (e, (==_iff j i).0 e, absent) (on_side_other s p)
      ignored j (inr e) = rw e

  -- What `add_order` does: it answers whether the order rests, which is then in the queue behind
  -- all that trade before it; nothing else changes, and the book stays consistent.
  pub record Adds (max_orders max_levels : ℕ) (b : B) (o : Order) (r : B × Bool) : Type 0 where
    pub valid : IsValid orders_table levels_table max_orders max_levels r.0
    pub queue_after :
        queue r.0 o.side ≡ (if r.1 then insert_entry o.side o (queue b o.side) else queue b o.side)
    pub others : queue r.0 (opposite o.side) ≡ queue b (opposite o.side)
    pub fresh : r.1 ≡ true → (0 < o.qty) × (orders_table.find b.order_map o.order_id ≡ none)

  refused :
      (max_orders max_levels : ℕ) (b : B) (o : Order) (k : ℕ) (m : orders_table.Map)
      → IsValid orders_table levels_table max_orders max_levels b
      → orders_table.IsValid m
      → ((j : OrderId) → orders_table.find m j ≡ orders_table.find b.order_map j)
      → k ≡ b.free_orders
      → Adds max_orders max_levels b o (record b { free_orders = k; order_map = m }, false)
  refused n k b o f m v w g e = record {
    valid = record {
      levels = orders_changed orders_table levels_table k b f m v.levels;
      orders = map_changed orders_table levels_table n b f m v.orders w g e;
    };
    queue_after = kept o.side;
    others = kept (opposite o.side);
    fresh = λ t. cc;
  }
    where
      kept : (t : Side) → queue (record b { free_orders = f; order_map = m }) t ≡ queue b t
      kept bid = refl
      kept ask = refl

  pub has_order-find :
      (b : B) (i : OrderId)
      → has_order orders_table levels_table b i ≡ false
      → orders_table.find b.order_map i ≡ none
  unfolding has_order
  has_order-find b i h = ground (arith, h)

  -- the rest of `add_order` once the order is allocated and known to the map
  settle :
      (max_orders max_levels : ℕ) (b : B) (i : OrderId) (s : Side) (p : Price) (q : Qty)
      (m : orders_table.Map)
      → IsValid orders_table levels_table max_orders max_levels b
      → 0 < q
      → q < u32
      → orders_table.find b.order_map i ≡ none
      → (b.free_orders ≡ 0 → ⊥)
      → orders_table.insert b.order_map i (s, p) ≡ some m
      → Adds max_orders max_levels b
          (resting i s p q)
          (elim (find_or_create_level orders_table levels_table
            (record b { free_orders = b.free_orders - 1; order_map = m })
            s
            p) [
              | none ↦ (
                record b {
                  free_orders = b.free_orders - 1 + 1;
                  order_map = orders_table.erase m i;
                },
                false,
              )
              | some c ↦ (link_order orders_table levels_table c (resting i s p q), true)
            ])
  settle n k b i s p q m v alive fits absent free ins =
      elim (Option-cases (
        find_or_create_level orders_table levels_table
          (record b { free_orders = b.free_orders - 1; order_map = m }) s p)) [
            | inl e ↦ rw e (
                refused n k b (resting i s p q) (b.free_orders - 1 + 1) (orders_table.erase m i) v
                  (orders_table.erase-IsValid m i valid) forgotten (omega (arith, free)))
            | inr (c, e) ↦
                let l =
                  place-Links orders_table levels_table k allocated i s p q
                    (orders_changed orders_table levels_table k b (b.free_orders - 1) m v.levels)
                    (record { at_price = refl; on_side = refl; alive = alive; fits = fits }) e in
                rw e (record {
                  valid = record {
                    levels = l.levels;
                    orders =
                        placed-OrdersOk n k b allocated
                          (link_order orders_table levels_table c (resting i s p q)) i s p q m
                          v.orders absent ins (omega (arith, free)) refl kept l;
                  };
                  queue_after = l.queue ∙ ap (insert_entry s (resting i s p q)) (kept s);
                  others = ap entries l.others ∙ kept (opposite s);
                  fresh = λ t. (alive, absent);
                })
          ]
    where
      allocated : B
      allocated = record b { free_orders = b.free_orders - 1; order_map = m }

      kept : (t : Side) → queue allocated t ≡ queue b t
      kept bid = refl
      kept ask = refl

      valid : orders_table.IsValid m
      valid = orders_table.insert-IsValid b.order_map i (s, p) v.orders.map_valid ins

      forgotten :
          (j : OrderId)
          → orders_table.find (orders_table.erase m i) j ≡ orders_table.find b.order_map j
      forgotten j =
          rw
            (
              orders_table.find-erase m i j valid,
              orders_table.find-insert b.order_map i (s, p) j v.orders.map_valid ins,
              order_same orders_table levels_table j i,
            )
            (unseen (Bool-cases (j == i)))
        where
          unseen :
              ((j == i) ≡ true) ⊎ ((j == i) ≡ false)
              → (if j == i
                  then none
                  else (if j == i then some (s, p) else orders_table.find b.order_map j))
                ≡ orders_table.find b.order_map j
          unseen (inl y) = rw (y, (==_iff j i).0 y, absent)
          unseen (inr y) = rw y

  -- On a consistent book and for a quantity below 2 ^ 32, `add_order` on every branch, errors
  -- included: if the answer is true the quantity is positive and the id was unknown, and the order
  -- is in its side's queue behind all of a price that is not worse; if it is false both queues are
  -- as they were. The book stays consistent, with every pool slot accounted for.
  pub add_order-Adds :
      (max_orders max_levels : ℕ) (b : B) (i : OrderId) (s : Side) (p : Price) (q : Qty)
      → IsValid orders_table levels_table max_orders max_levels b
      → q < u32
      → Adds max_orders max_levels b
          (resting i s p q)
          (add_order orders_table levels_table b i s p q)
  unfolding add_order alloc_order
  add_order-Adds n k b i s p q v fits = elim (Bool-cases (q == 0)) [
    | inl z ↦ rw z same
    | inr z ↦ elim (Bool-cases (has_order orders_table levels_table b i)) [
      | inl h ↦ rw (z, h) same
      | inr h ↦ elim (Bool-cases (b.free_orders == 0)) [
        | inl f ↦ rw (z, h, f) same
        | inr f ↦ elim (Option-cases (orders_table.insert b.order_map i (s, p))) [
          | inl e ↦
              rw (z, h, f, e)
                (refused n k b (resting i s p q) (b.free_orders - 1 + 1) b.order_map v
                  v.orders.map_valid (λ j. refl) (ground (arith, f)))
          | inr (m, e) ↦
              rw (z, h, f, e)
                (settle n k b i s p q m v (ground (arith, z)) fits (has_order-find b i h)
                  (λ t. ground (arith, t, f)) e)
        ]
      ]
    ]
  ]
    where
      same : Adds n k b (resting i s p q) (b, false)
      same =
          refused n k b (resting i s p q) b.free_orders b.order_map v v.orders.map_valid (λ j. refl)
            refl
