-- ===== src/Book/Amend.antt =====
-- `modify_order` of libs/algo/order_book.hpp: only a smaller quantity is taken, and the order keeps its
-- place; the quantity 0 is a cancellation.
use low_latency_tick_to_trad.Prelude.{
  ℕ, ◌≡◌, refl, sym, ◌∙◌, ap, Bool, true, false, none, some, List, [], ◌∷◌, arith, ltb, leb, ◌==◌,
  if◌then◌else◌, length, length-append, Bool-cases, Option-cases, inl, inr,
}
use low_latency_tick_to_trad.Table.{Table}
use low_latency_tick_to_trad.Types.{ask, OrderId, Price, Side, Qty, opposite, bid}
use low_latency_tick_to_trad.Book.{
  Handle, modify_order, clear, Order, has_order, order_qty, erase_order, level_at, set_qty, qty_in,
  count_in, PriceLevel,
}
use low_latency_tick_to_trad.Book.Inv.{
  Book, IsValid, side_of, queue_of, on_side, on_side_same, on_side_other,
}
use low_latency_tick_to_trad.Book.Queue.{entries, where_is, erase_order-absent}
use low_latency_tick_to_trad.Book.Cancel.{drop-Removes}
use low_latency_tick_to_trad.Book.Reduction.{reduce-Reduces}
use low_latency_tick_to_trad.Book.Ladder.Reduce.{set_qty-absent}
use low_latency_tick_to_trad.Book.Ladder.Keys.{known}

module _ (orders_table : Table OrderId Handle) (levels_table : Table Price (Unit {0})) where
  abbrev B : Type 0
  B = Book orders_table levels_table

  abbrev queue : B → Side → List Order
  queue = queue_of orders_table levels_table

  -- the queue with the new quantity of the order
  abbrev pub amend : OrderId → Qty → List Order → List Order
  amend i q os = if q == 0 then erase_order i os else set_qty i q os

  pub record Amends (max_orders max_levels : ℕ) (b : B) (i : OrderId) (q : Qty) (r : B × Bool)
      : Type 0 where
    pub valid : IsValid orders_table levels_table max_orders max_levels r.0
    pub answer : r.1 ≡ ltb q (order_qty orders_table levels_table b i)
    pub queues : (s : Side) → queue r.0 s ≡ (if r.1 then amend i q (queue b s) else queue b s)

  unchanged :
      (max_orders max_levels : ℕ) (b : B) (i : OrderId) (q : Qty)
      → IsValid orders_table levels_table max_orders max_levels b
      → ltb q (order_qty orders_table levels_table b i) ≡ false
      → Amends max_orders max_levels b i q (b, false)
  unchanged n k b i q v e = record { valid = v; answer = sym e; queues = λ s. refl }

  amended :
      (max_orders max_levels : ℕ) (b c : B) (s : Side) (p : Price) (i : OrderId) (q : Qty)
      → IsValid orders_table levels_table max_orders max_levels b
      → IsValid orders_table levels_table max_orders max_levels c
      → orders_table.find b.order_map i ≡ some (s, p)
      → ltb q (order_qty orders_table levels_table b i) ≡ true
      → queue c s ≡ amend i q (queue b s)
      → queue c (opposite s) ≡ queue b (opposite s)
      → Amends max_orders max_levels b i q (c, true)
  amended n k b c s p i q v w e h same others = record {
    valid = w;
    answer = sym h;
    queues =
        both s same others
          (v.orders.map_knows (opposite s) i ∙ ap (on_side (opposite s)) e ∙ on_side_other s p);
  }
    where
      absent : (t : Side) → where_is i (queue b t) ≡ none → amend i q (queue b t) ≡ queue b t
      absent t a =
          ground (arith, erase_order-absent i (queue b t) a, set_qty-absent i q (queue b t) a)

      both :
          (t : Side)
          → queue c t ≡ amend i q (queue b t)
          → queue c (opposite t) ≡ queue b (opposite t)
          → where_is i (queue b (opposite t)) ≡ none
          → (x : Side) → queue c x ≡ amend i q (queue b x)
      both bid x y a bid = x
      both bid x y a ask = y ∙ sym (absent ask a)
      both ask x y a ask = x
      both ask x y a bid = y ∙ sym (absent bid a)

  -- On a consistent book, the book's `modify_order` succeeds exactly if the new quantity is below
  -- the order's (0 for an unknown order). The order then keeps its place with the new quantity, or
  -- leaves its queue if that is 0; otherwise the queues are as they were. The book stays
  -- consistent.
  pub modify_order-Amends :
      (max_orders max_levels : ℕ) (b : B) (i : OrderId) (q : Qty)
      → IsValid orders_table levels_table max_orders max_levels b
      → Amends max_orders max_levels b i q (modify_order orders_table levels_table b i q)
  unfolding modify_order order_qty
  modify_order-Amends n k b i q v = elim (Option-cases (orders_table.find b.order_map i)) [
    | inl e ↦ rw (e, modify_order) (unchanged n k b i q v (ground (arith, e)))
    | inr ((s, p), e) ↦ elim (Option-cases (level_at p (side_of orders_table levels_table b s))) [
      | inl f ↦ rw (e, f, modify_order) (unchanged n k b i q v (ground (arith, e, f)))
      | inr (l, f) ↦ elim (Bool-cases (leb (qty_in i l.orders) q)) [
        | inl g ↦ rw (e, f, g, modify_order) (unchanged n k b i q v (ground (arith, e, f, g)))
        | inr g ↦ elim (Bool-cases (q == 0)) [
          | inl z ↦
              let r = drop-Removes orders_table levels_table n k b s p i v e in
              rw (e, f, g, z, modify_order)
                (amended n k b _ s p i q v r.valid e (ground (arith, e, f, g)) (rw z r.queue_after)
                  r.others)
          | inr z ↦
              let held : where_is i (queue b s) ≡ some (s, p) =
                v.orders.map_knows s i ∙ ap (on_side s) e ∙ on_side_same s p in
              let r =
                reduce-Reduces orders_table levels_table n k b s p i q l v held f
                  (ground (arith, z)) (ground (arith, g)) in
              rw (e, f, g, z, modify_order)
                (amended n k b _ s p i q v r.valid e (ground (arith, e, f, g)) (rw z r.queue_after)
                  r.others)
        ]
      ]
    ]
  ]

-- `clear` of libs/algo/order_book.hpp: nothing is left, and the pools are full again.
module _ (orders_table : Table OrderId Handle) (levels_table : Table Price (Unit {0})) where
  pub record Clears (max_orders max_levels : ℕ) (c : Book orders_table levels_table) : Type 0 where
    pub valid : IsValid orders_table levels_table max_orders max_levels c
    pub empty : (s : Side) → side_of orders_table levels_table c s ≡ []
    pub orders_returned : c.free_orders ≡ max_orders
    pub levels_returned : c.free_levels ≡ max_levels
    pub forgotten : (i : OrderId) → has_order orders_table levels_table c i ≡ false

  count_in-entries :
      (ls : List PriceLevel) → count_in orders_table levels_table ls ≡ length (entries ls)
  unfolding count_in entries
  count_in-entries [] = refl
  count_in-entries (l ∷ ls) =
      omega (arith, count_in-entries ls, length-append l.orders (entries ls))

  -- `clear` on a consistent book leaves a consistent one that has no level and knows no order, and
  -- with every slot of both pools free again.
  pub clear-Clears :
      (max_orders max_levels : ℕ) (b : Book orders_table levels_table)
      → IsValid orders_table levels_table max_orders max_levels b
      → Clears max_orders max_levels (clear orders_table levels_table b)
  unfolding clear has_order entries known where_is
  clear-Clears n k b v = record {
    valid = record {
      levels = record {
        sorted = elim [ bid ↦ tt | ask ↦ tt ];
        keys_valid = elim [
          | bid ↦ levels_table.clear-IsValid b.bid_map (v.levels.keys_valid bid)
          | ask ↦ levels_table.clear-IsValid b.ask_map (v.levels.keys_valid ask)
        ];
        keys = elim [
          | bid ↦
              λ p. levels_table.find-clear b.bid_map p (v.levels.keys_valid bid) ∙ sym (known_nil p)
          | ask ↦
              λ p. levels_table.find-clear b.ask_map p (v.levels.keys_valid ask) ∙ sym (known_nil p)
        ];
        slots = omega (arith, v.levels.slots);
      };
      orders = record {
        distinct = elim [ bid ↦ tt | ask ↦ tt ];
        map_valid = orders_table.clear-IsValid b.order_map v.orders.map_valid;
        map_knows = elim [ bid ↦ λ i. nowhere bid i | ask ↦ λ i. nowhere ask i ];
        slots = omega (arith, v.orders.slots, counted b.bids, counted b.asks);
      };
    };
    empty = elim [ bid ↦ refl | ask ↦ refl ];
    orders_returned = omega (arith, v.orders.slots, counted b.bids, counted b.asks);
    levels_returned = v.levels.slots;
    forgotten = λ i. rw (orders_table.find-clear b.order_map i v.orders.map_valid, has_order);
  }
    where
      known_nil : (p : Price) → known p [] ≡ none
      known_nil p = refl

      counted : (ls : List PriceLevel) → count_in orders_table levels_table ls ≡ length (entries ls)
      counted = count_in-entries

      nowhere :
          (s : Side) (i : OrderId)
          → where_is i [] ≡ on_side s (orders_table.find (orders_table.clear b.order_map) i)
      nowhere s i = rw (orders_table.find-clear b.order_map i v.orders.map_valid)
