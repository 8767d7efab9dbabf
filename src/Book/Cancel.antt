-- ===== src/Book/Cancel.antt =====
-- `cancel_order` and `remove_filled_order` of libs/algo/order_book.hpp: the order leaves its queue, the
-- map and the pool.
use low_latency_tick_to_trad.Prelude.{
  ℕ, ◌+◌, ◌≡◌, refl, Bool, List, some, Option, if◌then◌else◌, false, ◌∙◌, none, ◌==◌, sym, length,
  ap, Option-cases, inl, inr, true, ◌⊎◌, ==_iff, Bool-cases, arith,
}
use low_latency_tick_to_trad.Types.{Price, OrderId, Side, bid, ask, opposite}
use low_latency_tick_to_trad.Table.{Table}
use low_latency_tick_to_trad.Book.Queue.{
  erase_order-Distinct, where_is, erase_order-absent, length-erase_order, entries,
  where_is-erase_order,
}
use low_latency_tick_to_trad.Book.{
  Handle, cancel_order, has_order, erase_order, Order, forget_order, unlink_order,
}
use low_latency_tick_to_trad.Book.Inv.{
  Book, IsValid, OrdersOk, queue_of, on_side, Trades-OrdersOk, on_side_other, on_side_same,
}
use low_latency_tick_to_trad.Book.Removal.{Unlinks, unlink_order-Unlinks}
use low_latency_tick_to_trad.Book.Slots.{order_same, orders_changed}
use low_latency_tick_to_trad.Book.Slots.{counted}

module _ (orders_table : Table OrderId Handle) (levels_table : Table Price (Unit {0})) where
  abbrev B : Type 0
  B = Book orders_table levels_table

  abbrev queue : B → Side → List Order
  queue = queue_of orders_table levels_table

  -- An order taken out of one side of a consistent book.
  pub record Removes (max_orders max_levels : ℕ) (s : Side) (i : OrderId) (b c : B) : Type 0 where
    pub valid : IsValid orders_table levels_table max_orders max_levels c
    pub queue_after : queue c s ≡ erase_order i (queue b s)
    pub others : queue c (opposite s) ≡ queue b (opposite s)
    pub forgotten :
        (j : OrderId)
        → orders_table.find c.order_map j
          ≡ (if j == i then none else orders_table.find b.order_map j)

  on_side_none :
      (s : Side) (p : Price) (c : Bool) (h : Option Handle)
      → (if c then none else on_side s h) ≡ on_side s (if c then none else h)
  on_side_none s p true h = refl
  on_side_none s p false h = refl

  dropped-OrdersOk :
      (max_orders max_levels : ℕ) (b c : B) (s : Side) (p : Price) (i : OrderId)
      → OrdersOk orders_table levels_table max_orders b
      → orders_table.find b.order_map i ≡ some (s, p)
      → where_is i (queue b s) ≡ some (s, p)
      → Unlinks orders_table levels_table max_levels s i b c
      → OrdersOk orders_table levels_table max_orders (forget_order orders_table levels_table c i)
  dropped-OrdersOk n k b c s p i v known_as held u =
      Trades-OrdersOk orders_table levels_table n s b d v
        (record {
          others = kept (opposite s) ∙ ap entries u.others;
          distinct = rw shrunk (erase_order-Distinct i (queue b s) (v.distinct s));
          map_valid = rw u.map_same (orders_table.erase-IsValid b.order_map i v.map_valid);
          knows = λ j.
              rw
                (
                  shrunk,
                  where_is-erase_order i (queue b s) j (v.distinct s),
                  found j,
                  v.map_knows s j,
                )
                (on_side_none s p (j == i) (orders_table.find b.order_map j));
          knows_others = λ j. rw (found j) (ignored j (Bool-cases (j == i)));
        })
        (omega (
          arith,
          v.slots,
          u.slots_same,
          counted orders_table levels_table s d b fewer
              (sym (ap length (kept (opposite s) ∙ ap entries u.others))),
        ))
    where
      d : B
      d = forget_order orders_table levels_table c i

      kept : (t : Side) → queue d t ≡ queue c t
      kept bid = refl
      kept ask = refl

      shrunk : queue d s ≡ erase_order i (queue b s)
      shrunk = kept s ∙ u.queue_after

      fewer : length (queue b s) ≡ length (queue d s) + 1
      fewer = sym (ap (λ xs. length xs + 1) shrunk ∙ length-erase_order i (queue b s) held)

      found :
          (j : OrderId)
          → orders_table.find d.order_map j
            ≡ (if j == i then none else orders_table.find b.order_map j)
      found j =
          rw (u.map_same, ← order_same orders_table levels_table j i)
            (orders_table.find-erase b.order_map i j v.map_valid)

      ignored :
          (j : OrderId)
          → ((j == i) ≡ true) ⊎ ((j == i) ≡ false)
          → on_side (opposite s) (if j == i then none else orders_table.find b.order_map j)
            ≡ on_side (opposite s) (orders_table.find b.order_map j)
      ignored j (inl e) = rw (e, (==_iff j i).0 e, known_as) (sym (on_side_other s p))
      ignored j (inr e) = rw e

  -- Unlinking and forgetting an order that the map knows.
  pub drop-Removes :
      (max_orders max_levels : ℕ) (b : B) (s : Side) (p : Price) (i : OrderId)
      → IsValid orders_table levels_table max_orders max_levels b
      → orders_table.find b.order_map i ≡ some (s, p)
      → Removes max_orders max_levels s i b (
          forget_order orders_table levels_table
            (unlink_order orders_table levels_table b (s, p) i).0
            i)
  drop-Removes n k b s p i v e =
      let held : where_is i (queue b s) ≡ some (s, p) =
        v.orders.map_knows s i ∙ ap (on_side s) e ∙ on_side_same s p in
      let u = unlink_order-Unlinks orders_table levels_table k b s p i v.levels held in
      record {
        valid = record {
          levels = orders_changed orders_table levels_table k _ _ _ u.levels;
          orders = dropped-OrdersOk n k b _ s p i v.orders e held u;
        };
        queue_after = kept s ∙ u.queue_after;
        others = kept (opposite s) ∙ ap entries u.others;
        forgotten = λ j.
            rw (u.map_same, ← order_same orders_table levels_table j i)
              (orders_table.find-erase b.order_map i j v.orders.map_valid);
      }
    where
      kept :
          (t : Side)
          → queue
              (forget_order orders_table levels_table
                (unlink_order orders_table levels_table b (s, p) i).0
                i)
              t
            ≡ queue (unlink_order orders_table levels_table b (s, p) i).0 t
      kept bid = refl
      kept ask = refl

  -- What `cancel_order` does: it answers whether the map knows the order, and takes the order out of
  -- whichever queue holds it; the book stays consistent and knows the order no more.
  pub record Cancels (max_orders max_levels : ℕ) (b : B) (i : OrderId) (r : B × Bool) : Type 0 where
    pub valid : IsValid orders_table levels_table max_orders max_levels r.0
    pub answer : r.1 ≡ has_order orders_table levels_table b i
    pub queues : (s : Side) → queue r.0 s ≡ erase_order i (queue b s)
    pub gone : has_order orders_table levels_table r.0 i ≡ false
    pub knows :
        (j : OrderId)
        → orders_table.find r.0.order_map j
          ≡ (if j == i then none else orders_table.find b.order_map j)

  -- On a consistent book, `cancel_order` answers whether the order is known; the order leaves
  -- whichever queue holds it and all other orders keep their places, its id alone is forgotten, and
  -- the book, its level map and its pools stay consistent (a level left empty is removed).
  pub cancel_order-Cancels :
      (max_orders max_levels : ℕ) (b : B) (i : OrderId)
      → IsValid orders_table levels_table max_orders max_levels b
      → Cancels max_orders max_levels b i (cancel_order orders_table levels_table b i)
  unfolding cancel_order has_order
  cancel_order-Cancels n k b i v = elim (Option-cases (orders_table.find b.order_map i)) [
    | inl e ↦
        rw (e, cancel_order, has_order)
          (record {
            valid = v;
            answer = rw (e, has_order);
            queues = λ s.
                sym (erase_order-absent i (queue b s) (v.orders.map_knows s i ∙ ap (on_side s) e));
            gone = rw (e, has_order);
            knows = λ j. unknown j e (Bool-cases (j == i));
          })
    | inr ((s, p), e) ↦
        let r = drop-Removes n k b s p i v e in
        rw (e, cancel_order, has_order)
          (record {
            valid = r.valid;
            answer = rw (e, has_order);
            queues = both s p e r;
            gone = rw (r.forgotten i, has_order, (==_iff i i).1 refl);
            knows = r.forgotten;
          })
  ]
    where
      unknown :
          (j : OrderId)
          → orders_table.find b.order_map i ≡ none
          → ((j == i) ≡ true) ⊎ ((j == i) ≡ false)
          → orders_table.find b.order_map j
            ≡ (if j == i then none else orders_table.find b.order_map j)
      unknown j e (inl y) = rw (y, (==_iff j i).0 y) e
      unknown j e (inr y) = rw y

      both :
          (s : Side) (p : Price) {c : B}
          → orders_table.find b.order_map i ≡ some (s, p)
          → Removes n k s i b c
          → (t : Side) → queue c t ≡ erase_order i (queue b t)
      both bid p e r bid = r.queue_after
      both ask p e r ask = r.queue_after
      both bid p e r ask =
          r.others
          ∙ sym (erase_order-absent i (queue b ask) (v.orders.map_knows ask i ∙ ap (on_side ask) e))
      both ask p e r bid =
          r.others
          ∙ sym (erase_order-absent i (queue b bid) (v.orders.map_knows bid i ∙ ap (on_side bid) e))
