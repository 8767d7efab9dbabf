-- ===== src/Book/Reduction.antt =====
-- A smaller quantity for an order of a book (libs/algo/order_book.hpp), as `modify_order` and a partial
-- fill write it.
use low_latency_tick_to_trad.Prelude.{
  ℕ, ◌+◌, ◌≤◌, ◌<◌, ◌≡◌, refl, sym, ◌∙◌, ap, some, List, arith, length,
}
use low_latency_tick_to_trad.Types.{Price, OrderId, Qty, Side, bid, ask, opposite}
use low_latency_tick_to_trad.Table.{Table}
use low_latency_tick_to_trad.Book.{
  Handle, PriceLevel, Order, set_qty, with_ladder, level_at, qty_in, put_level, reduce_in_level,
}
use low_latency_tick_to_trad.Book.Inv.{
  IsValid, Book, side_of, queue_of, LevelsOk, Trades-OrdersOk, Touches-LevelsOk,
}
use low_latency_tick_to_trad.Book.Queue.{where_is, entries}
use low_latency_tick_to_trad.Book.Ladder.Reduce.{
  set_qty-Distinct, where_is-set_qty, length-set_qty, reduce-IsLevel, entries-reduce,
}
use low_latency_tick_to_trad.Book.Ladder.{put_level-IsLadder, level_at-IsLevel}
use low_latency_tick_to_trad.Book.Ladder.Keys.{known-put_level, length-put_level}

module _ (orders_table : Table OrderId Handle) (levels_table : Table Price (Unit {0})) where
  abbrev B : Type 0
  B = Book orders_table levels_table

  abbrev queue : B → Side → List Order
  queue = queue_of orders_table levels_table

  abbrev ladder_of : B → Side → List PriceLevel
  ladder_of = side_of orders_table levels_table

  abbrev with_side : B → Side → List PriceLevel → B
  with_side = with_ladder orders_table levels_table

  -- One side has a smaller quantity for an order, and the same orders otherwise.
  pub record Reduces (max_orders max_levels : ℕ) (s : Side) (i : OrderId) (q : Qty) (b c : B)
      : Type 0 where
    pub valid : IsValid orders_table levels_table max_orders max_levels c
    pub queue_after : queue c s ≡ set_qty i q (queue b s)
    pub others : queue c (opposite s) ≡ queue b (opposite s)
    pub map_same : c.order_map ≡ b.order_map

  same_length :
      (s : Side) (b d : B)
      → length (queue d s) ≡ length (queue b s)
      → queue d (opposite s) ≡ queue b (opposite s)
      → length (queue d bid) + length (queue d ask) ≡ length (queue b bid) + length (queue b ask)
  same_length bid b d e f = omega (arith, e, ap length f)
  same_length ask b d e f = omega (arith, e, ap length f)

  reduced :
      (max_orders max_levels : ℕ) (b c : B) (s : Side) (i : OrderId) (q : Qty)
      → IsValid orders_table levels_table max_orders max_levels b
      → LevelsOk orders_table levels_table max_levels c
      → queue c s ≡ set_qty i q (queue b s)
      → ladder_of c (opposite s) ≡ ladder_of b (opposite s)
      → c.order_map ≡ b.order_map
      → c.free_orders ≡ b.free_orders
      → Reduces max_orders max_levels s i q b c
  reduced n k b c s i q v w e o m f = record {
    valid = record {
      levels = w;
      orders =
          Trades-OrdersOk orders_table levels_table n s b c v.orders
            (record {
              others = ap entries o;
              distinct = rw e (set_qty-Distinct i q (queue b s) (v.orders.distinct s));
              map_valid = rw m v.orders.map_valid;
              knows = λ j. rw (e, m, where_is-set_qty i q (queue b s) j) (v.orders.map_knows s j);
              knows_others = λ j. rw m;
            })
            (omega (
              arith,
              v.orders.slots,
              f,
              same_length s b c (ap length e ∙ length-set_qty i q (queue b s)) (ap entries o),
            ));
    };
    queue_after = e;
    others = ap entries o;
    map_same = m;
  }

  pub reduce-Reduces :
      (max_orders max_levels : ℕ) (b : B) (s : Side) (p : Price) (i : OrderId) (q : Qty)
      (l : PriceLevel)
      → IsValid orders_table levels_table max_orders max_levels b
      → where_is i (queue b s) ≡ some (s, p)
      → level_at p (ladder_of b s) ≡ some l
      → 0 < q
      → q ≤ qty_in i l.orders
      → Reduces max_orders max_levels s i q b
          (with_side b s (put_level (reduce_in_level i q l) (ladder_of b s)))
  reduce-Reduces n k b bid p i q l v held at lo le =
      let o =
        put_level-IsLadder bid (reduce_in_level i q l) b.bids
          (reduce-IsLevel bid i q l lo le (level_at-IsLevel bid p b.bids (v.levels.sorted bid) at))
          (v.levels.sorted bid) in
      reduced n k b _ bid i q v
        (Touches-LevelsOk orders_table levels_table k bid b _ v.levels
          (record {
            others = refl;
            other_map = refl;
            sorted = o;
            keys_valid = v.levels.keys_valid bid;
            keys =
                λ x. v.levels.keys bid x ∙ sym (known-put_level (reduce_in_level i q l) b.bids x);
          })
          (rw length-put_level v.levels.slots))
        (entries-reduce bid i q b.bids (v.levels.sorted bid) held at) refl refl refl
  reduce-Reduces n k b ask p i q l v held at lo le =
      let o =
        put_level-IsLadder ask (reduce_in_level i q l) b.asks
          (reduce-IsLevel ask i q l lo le (level_at-IsLevel ask p b.asks (v.levels.sorted ask) at))
          (v.levels.sorted ask) in
      reduced n k b _ ask i q v
        (Touches-LevelsOk orders_table levels_table k ask b _ v.levels
          (record {
            others = refl;
            other_map = refl;
            sorted = o;
            keys_valid = v.levels.keys_valid ask;
            keys =
                λ x. v.levels.keys ask x ∙ sym (known-put_level (reduce_in_level i q l) b.asks x);
          })
          (rw length-put_level v.levels.slots))
        (entries-reduce ask i q b.asks (v.levels.sorted ask) held at) refl refl refl
