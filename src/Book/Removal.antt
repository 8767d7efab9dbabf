-- ===== src/Book/Removal.antt =====
-- `cancel_order` and `remove_filled_order` of libs/algo/order_book.hpp.
use low_latency_tick_to_trad.Prelude.{
  ℕ, ◌+◌, ◌≡◌, refl, List, some, ap, ◌∙◌, arith, sym, subst, Bool-cases, inl, inr,
}
use low_latency_tick_to_trad.Types.{Price, OrderId, Side, bid, ask, opposite}
use low_latency_tick_to_trad.Table.{Table}
use low_latency_tick_to_trad.Book.{
  Handle, remove_level, unlink_order, PriceLevel, Order, with_level_map, erase_order, level_at,
  with_ladder, put_level, level_map, erase_level, take_order, is_nil,
}
use low_latency_tick_to_trad.Book.Inv.{LevelsOk, Book, side_of, queue_of, Touches-LevelsOk}
use low_latency_tick_to_trad.Book.Ladder.{IsLadder, level_at-price}
use low_latency_tick_to_trad.Book.Queue.{where_is, entries}
use low_latency_tick_to_trad.Book.Ladder.Keys.{
  known, known-erase_level, length-erase_level, known-put_level, length-put_level,
}
use low_latency_tick_to_trad.Book.Ladder.Remove.{
  erase_level-put_level, where_is-Found, unlinked-IsLadder, entries-unlinked,
}
use low_latency_tick_to_trad.Book.Placing.{level_same}

module _ (orders_table : Table OrderId Handle) (levels_table : Table Price (Unit {0})) where
  abbrev B : Type 0
  B = Book orders_table levels_table

  abbrev queue : B → Side → List Order
  queue = queue_of orders_table levels_table

  abbrev ladder_of : B → Side → List PriceLevel
  ladder_of = side_of orders_table levels_table

  -- What unlinking an order does to a book.
  pub record Unlinks (max_levels : ℕ) (s : Side) (i : OrderId) (b c : B) : Type 0 where
    pub levels : LevelsOk orders_table levels_table max_levels c
    pub queue_after : queue c s ≡ erase_order i (queue b s)
    pub others : ladder_of c (opposite s) ≡ ladder_of b (opposite s)
    pub map_same : c.order_map ≡ b.order_map
    pub slots_same : c.free_orders ≡ b.free_orders

  -- A level map that forgets a price knows the ladder without its level.
  forgot :
      (s : Side) (p : Price) (ls : List PriceLevel) {m : levels_table.Map}
      → IsLadder s ls
      → levels_table.IsValid m
      → ((q : Price) → levels_table.find m q ≡ known q ls)
      → (q : Price) → levels_table.find (levels_table.erase m p) q ≡ known q (erase_level p ls)
  forgot s p ls {m} o v k q = rw (
    levels_table.find-erase m p q v,
    known-erase_level s p ls q o,
    level_same orders_table levels_table q p,
    k q,
  )

  -- the level keeps an order
  unlink_some :
      (max_levels : ℕ) (b : B) (s : Side) (p : Price) (i : OrderId) (l : PriceLevel)
      → LevelsOk orders_table levels_table max_levels b
      → level_at p (ladder_of b s) ≡ some l
      → entries (put_level (take_order i l) (ladder_of b s)) ≡ erase_order i (queue b s)
      → IsLadder s (put_level (take_order i l) (ladder_of b s))
      → Unlinks max_levels s i b
          (with_ladder orders_table levels_table b s (put_level (take_order i l) (ladder_of b s)))
  unlink_some n b bid p i l v e q o = record {
    levels =
        Touches-LevelsOk orders_table levels_table n bid b _ v
          (record {
            others = refl;
            other_map = refl;
            sorted = o;
            keys_valid = v.keys_valid bid;
            keys = λ x. v.keys bid x ∙ sym (known-put_level (take_order i l) b.bids x);
          })
          (rw length-put_level v.slots);
    queue_after = q;
    others = refl;
    map_same = refl;
    slots_same = refl;
  }
  unlink_some n b ask p i l v e q o = record {
    levels =
        Touches-LevelsOk orders_table levels_table n ask b _ v
          (record {
            others = refl;
            other_map = refl;
            sorted = o;
            keys_valid = v.keys_valid ask;
            keys = λ x. v.keys ask x ∙ sym (known-put_level (take_order i l) b.asks x);
          })
          (rw length-put_level v.slots);
    queue_after = q;
    others = refl;
    map_same = refl;
    slots_same = refl;
  }

  abbrev removed_level : B → Side → Price → List PriceLevel → B
  removed_level b s p ls =
      record (with_level_map orders_table levels_table
        (with_ladder orders_table levels_table b s ls) s
        (levels_table.erase (level_map orders_table levels_table b s) p)) {
          free_levels = b.free_levels + 1;
        }

  -- the level goes too
  unlink_last :
      (max_levels : ℕ) (b : B) (s : Side) (p : Price) (i : OrderId) (l : PriceLevel)
      → LevelsOk orders_table levels_table max_levels b
      → level_at p (ladder_of b s) ≡ some l
      → entries (erase_level p (ladder_of b s)) ≡ erase_order i (queue b s)
      → IsLadder s (erase_level p (ladder_of b s))
      → Unlinks max_levels s i b (removed_level b s p (erase_level p (ladder_of b s)))
  unlink_last n b bid p i l v e q o = record {
    levels =
        Touches-LevelsOk orders_table levels_table n bid b _ v
          (record {
            others = refl;
            other_map = refl;
            sorted = o;
            keys_valid = levels_table.erase-IsValid b.bid_map p (v.keys_valid bid);
            keys = forgot bid p b.bids (v.sorted bid) (v.keys_valid bid) (v.keys bid);
          })
          (omega (arith, v.slots, length-erase_level p b.bids e));
    queue_after = q;
    others = refl;
    map_same = refl;
    slots_same = refl;
  }
  unlink_last n b ask p i l v e q o = record {
    levels =
        Touches-LevelsOk orders_table levels_table n ask b _ v
          (record {
            others = refl;
            other_map = refl;
            sorted = o;
            keys_valid = levels_table.erase-IsValid b.ask_map p (v.keys_valid ask);
            keys = forgot ask p b.asks (v.sorted ask) (v.keys_valid ask) (v.keys ask);
          })
          (omega (arith, v.slots, length-erase_level p b.asks e));
    queue_after = q;
    others = refl;
    map_same = refl;
    slots_same = refl;
  }

  -- `remove_level` after the write through the pointer
  remove_written :
      (b : B) (s : Side) (l : PriceLevel)
      → remove_level orders_table levels_table
          (with_ladder orders_table levels_table b s (put_level l (ladder_of b s)))
          s
          l.price
        ≡ removed_level b s l.price (erase_level l.price (ladder_of b s))
  unfolding remove_level
  remove_written b bid l = ap (removed_level b bid l.price) (erase_level-put_level l b.bids)
  remove_written b ask l = ap (removed_level b ask l.price) (erase_level-put_level l b.asks)

  -- An order that the queue of a side holds is unlinked from it.
  pub unlink_order-Unlinks :
      (max_levels : ℕ) (b : B) (s : Side) (p : Price) (i : OrderId)
      → LevelsOk orders_table levels_table max_levels b
      → where_is i (queue b s) ≡ some (s, p)
      → Unlinks max_levels s i b (unlink_order orders_table levels_table b (s, p) i).0
  unfolding unlink_order
  unlink_order-Unlinks n b s p i v held =
      let f = where_is-Found s i (ladder_of b s) (v.sorted s) held in
      let l = f.level in
      let at : l.price ≡ p = level_at-price p (ladder_of b s) f.here in
      let ladder' = unlinked-IsLadder s i p l (ladder_of b s) (v.sorted s) f.here in
      let queue' = entries-unlinked s i (ladder_of b s) (v.sorted s) held f.here in
      elim (Bool-cases (is_nil (erase_order i l.orders))) [
        | inl z ↦
            rw (f.here, unlink_order, z)
              (subst (Unlinks n s i b) (sym (gone l at)) (
                unlink_last n b s p i l v f.here
                  (subst (λ t. entries (erase_level t (ladder_of b s)) ≡ erase_order i (queue b s))
                    at (rw z at queue'))
                  (subst (λ t. IsLadder s (erase_level t (ladder_of b s))) at (rw z at ladder'))))
        | inr z ↦
            rw (f.here, unlink_order, z)
              (unlink_some n b s p i l v f.here (rw z at queue') (rw z at ladder'))
      ]
    where
      gone :
          (l : PriceLevel)
          → l.price ≡ p
          → remove_level orders_table levels_table
              (with_ladder orders_table levels_table b s
                (put_level (take_order i l) (ladder_of b s)))
              s
              p
            ≡ removed_level b s p (erase_level p (ladder_of b s))
      gone l at =
          subst
            (λ t.
              remove_level orders_table levels_table
                (with_ladder orders_table levels_table b s
                  (put_level (take_order i l) (ladder_of b s)))
                s t
              ≡ removed_level b s t (erase_level t (ladder_of b s)))
            at (remove_written b s (take_order i l))
