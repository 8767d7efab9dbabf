-- ===== src/Engine/Result.antt =====
-- `submit_order` of libs/algo/matching_engine.hpp, on every branch.
use low_latency_tick_to_trad.Prelude.{
  ℕ, ◌<◌, ◌≡◌, refl, sym, subst, ◌∙◌, ap, true, false, ◌||◌, List, [], ◌∷◌, arith, ◌==◌,
  if◌then◌else◌, append-nil, Bool-cases, inl, inr,
}
use low_latency_tick_to_trad.Types.{Price, OrderId, Qty, Side, opposite}
use low_latency_tick_to_trad.Table.{Table}
use low_latency_tick_to_trad.Book.{Handle, Order, PriceLevel, has_order}
use low_latency_tick_to_trad.Engine.{
  MatchResult, still_crosses, Crossing, rest_remainder, rest_order, submit_order, match_ladder,
}
use low_latency_tick_to_trad.Book.Inv.{IsValid, Book, side_of, queue_of}
use low_latency_tick_to_trad.Engine.Spec.{cross, prepend, Crossed, cross_conserves}
use low_latency_tick_to_trad.Book.Queue.{insert_entry, entries}
use low_latency_tick_to_trad.Book.Placing.{resting}
use low_latency_tick_to_trad.Engine.Priority.{CrossesNone, front-CrossesNone}
use low_latency_tick_to_trad.Prelude.Word.{u32}
use low_latency_tick_to_trad.Book.Ladder.{IsLadder}
use low_latency_tick_to_trad.Engine.Match.{Fol}
use low_latency_tick_to_trad.Book.Adding.{add_order-Adds}
use low_latency_tick_to_trad.Engine.Submit.{outer-Ends}

module _ (orders_table : Table OrderId Handle) (levels_table : Table Price (Unit {0})) where
  abbrev B : Type 0
  B = Book orders_table levels_table

  abbrev queue : B → Side → List Order
  queue = queue_of orders_table levels_table

  abbrev Result : Type 0
  Result = B × MatchResult orders_table levels_table

  -- An accepted order trades as the reference says; a remainder that rests is in the queue of its
  -- side behind all that trade before it, and rests only where it does not cross.
  pub record Submits (max_orders max_levels max_fills : ℕ) (b : B) (i : OrderId) (s : Side)
      (price : Price) (qty : Qty) (r : Result) : Type 0 where
    pub valid : IsValid orders_table levels_table max_orders max_levels r.0
    pub fills : r.1.fills ≡ (cross i s price max_fills qty (queue b (opposite s))).fills
    pub remaining :
        r.1.remaining_qty ≡ (cross i s price max_fills qty (queue b (opposite s))).remaining
    pub others :
        queue r.0 (opposite s) ≡ (cross i s price max_fills qty (queue b (opposite s))).resting
    pub own : queue r.0 s ≡ (
        if r.1.rested
        then insert_entry s (resting i s price r.1.remaining_qty) (queue b s)
        else queue b s)
    pub rests :
        r.1.rested ≡ true → (0 < r.1.remaining_qty) × CrossesNone s price (queue r.0 (opposite s))

  still_crosses-CrossesNone :
      (max_orders max_levels : ℕ) (b : B) (s : Side) (price : Price)
      → IsValid orders_table levels_table max_orders max_levels b
      → still_crosses orders_table levels_table s price b ≡ false
      → CrossesNone s price (queue b (opposite s))
  still_crosses-CrossesNone n k b s price v h =
      go (side_of orders_table levels_table b (opposite s)) refl (v.levels.sorted (opposite s))
    where
      go :
          (ls : List PriceLevel)
          → side_of orders_table levels_table b (opposite s) ≡ ls
          → IsLadder (opposite s) ls
          → CrossesNone s price (entries ls)
      go [] e o = λ a m. unfold entries in absurd m
      go (l ∷ ls) e o =
          front-CrossesNone s price l ls o (unfold still_crosses in ground (arith, h, e))

  -- The state in which the loops start.
  abbrev start : B → Qty → Crossing orders_table levels_table
  start b qty = record { book = b; remaining = qty; fills = [] }

  module _ (max_orders max_levels max_fills : ℕ) where
    -- resting the remainder of what the loops have ended with
    rest-Submits :
        (b : B) (i : OrderId) (s : Side) (price : Price) (qty : Qty)
        (c : Crossing orders_table levels_table)
        → qty < u32
        → Fol orders_table levels_table i s price max_orders max_levels max_fills 0 (start b qty) c
        → Submits max_orders max_levels max_fills b i s price qty
            (rest_remainder orders_table levels_table max_fills i s price c)
    unfolding rest_remainder
    rest-Submits b i s price qty c fits f =
        elim (Bool-cases
          (c.remaining == 0 || still_crosses orders_table levels_table s price c.book)) [
            | inl z ↦
                rw (rest_remainder, z)
                  (record {
                    valid = f.valid;
                    fills = made;
                    remaining = left;
                    others = met;
                    own = f.own;
                    rests = λ t. cc;
                  })
            | inr z ↦
                let a =
                  add_order-Adds orders_table levels_table max_orders max_levels c.book i s price
                    c.remaining f.valid small in
                rw (rest_remainder, z)
                  (record {
                    valid = a.valid;
                    fills = made;
                    remaining = left;
                    others = a.others ∙ met;
                    own =
                        subst
                          (λ q.
                            queue
                              (rest_order orders_table levels_table c.book i s price c.remaining).0
                              s
                            ≡ (if (rest_order orders_table levels_table c.book i s price
                                  c.remaining).1
                                then insert_entry s (resting i s price c.remaining) q
                                else q))
                          f.own a.queue_after;
                    rests = λ t. (
                      (a.fresh t).0,
                      subst (CrossesNone s price) (sym a.others) (
                          still_crosses-CrossesNone max_orders max_levels c.book s price f.valid
                            (ground (arith, z))),
                    );
                  })
          ]
      where
        ended :
            prepend c.fills (cross i s price 0 c.remaining (queue c.book (opposite s)))
            ≡ prepend [] (cross i s price max_fills qty (queue b (opposite s)))
        ended = f.same_finish

        made : c.fills ≡ (cross i s price max_fills qty (queue b (opposite s))).fills
        made = unfold cross in sym (append-nil c.fills) ∙ ap (λ (x : Crossed). x.fills) ended

        left : c.remaining ≡ (cross i s price max_fills qty (queue b (opposite s))).remaining
        left = unfold cross in ap (λ (x : Crossed). x.remaining) ended

        met :
            queue c.book (opposite s)
            ≡ (cross i s price max_fills qty (queue b (opposite s))).resting
        met = unfold cross in ap (λ (x : Crossed). x.resting) ended

        small : c.remaining < u32
        small =
            omega
              (arith, left, fits, cross_conserves i s price max_fills qty (queue b (opposite s)))

    -- On a consistent book, an accepted order (positive quantity below 2 ^ 32, unknown id) trades
    -- exactly as the reference `cross` of price-time priority on the other side's queue with room
    -- for `max_fills` fills: the same fills in the same order, the same remainder, the same orders
    -- left resting. The result says that the remainder rests only where it is positive and crosses
    -- nothing on the other side; the own queue then has it behind all that trade before it, and is
    -- otherwise unchanged. The book stays consistent.
    pub submit_order-Submits :
        (b : B) (i : OrderId) (s : Side) (price : Price) (qty : Qty)
        → IsValid orders_table levels_table max_orders max_levels b
        → 0 < qty
        → qty < u32
        → has_order orders_table levels_table b i ≡ false
        → Submits max_orders max_levels max_fills b i s price qty
            (submit_order orders_table levels_table max_fills b i s price qty)
    unfolding submit_order
    submit_order-Submits b i s price qty v some_qty fits absent =
        let z : (qty == 0) ≡ false = ground (arith, some_qty) in
        rw (z, absent)
          (rest-Submits b i s price qty
            (match_ladder orders_table levels_table i s price max_fills max_fills (start b qty))
            fits
            (outer-Ends orders_table levels_table i s price max_orders max_levels max_fills
              max_fills (start b qty) (omega arith) v))
