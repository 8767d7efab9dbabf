-- ===== src/Engine.antt =====
-- libs/algo/matching_engine.hpp: price-time priority crossing on top of the order book. The fill
-- buffer is the list of the fills recorded so far, oldest first, with the room left in it
-- (`MaxFills - fill_count_`), on which the loops recur: every round of the inner loop takes one.
pub mod Spec
pub mod Round
pub mod Loops
pub mod Match
pub mod Submit
pub mod Priority
pub mod Result
pub mod Outcome
pub mod Uncrossed
pub mod Modify
use low_latency_tick_to_trad.Prelude.{
  ℕ, zero, suc, ◌-◌, Bool, true, false, List, [], ◌∷◌, ◌++◌, ◌==◌, ◌||◌, if◌then◌else◌, not, min,
}
use low_latency_tick_to_trad.Prelude.Int.{ltb_ℤ}
use low_latency_tick_to_trad.Prelude.Word.{sub32}
use low_latency_tick_to_trad.Types.{Price, OrderId, Qty, Side, bid, ask, opposite}
use low_latency_tick_to_trad.Table.{Table}
use low_latency_tick_to_trad.Book.{
  Order, PriceLevel, Handle, OrderBook, ladder, with_ladder, put_level, has_order, add_order,
  cancel_order, remove_filled_order,
}

pub record Fill : Type 0 where
  pub maker_id : OrderId
  pub taker_id : OrderId
  pub price : Price
  pub qty : Qty

-- Buy crosses if price >= best ask. Sell crosses if price <= best bid.
abbrev pub crosses : Side → Price → Price → Bool
crosses bid price best = not (ltb_ℤ price best)
crosses ask price best = not (ltb_ℤ best price)

module _ (orders_table : Table OrderId Handle) (levels_table : Table Price (Unit {0})) where
  abbrev Book : Type 0
  Book = OrderBook orders_table levels_table

  abbrev opposite_ladder : Side → Book → List PriceLevel
  opposite_ladder s b = ladder orders_table levels_table b (opposite s)

  pub record MatchResult : Type 0 where
    pub fills : List Fill
    pub remaining_qty : Qty
    pub rested : Bool

  pub record ModifyResult : Type 0 where
    pub fills : List Fill
    pub remaining_qty : Qty
    pub rested : Bool
    pub success : Bool

  -- The variables of the crossing loops.
  pub record Crossing : Type 0 where
    pub book : Book
    pub remaining : Qty
    pub fills : List Fill

  -- One round of the inner loop: a fill against the front order of the best level. The Boolean is
  -- what `remove_filled_order` answers: the level is gone.
  unfoldable pub fill_front :
      OrderId → Side → PriceLevel → Order → List Order → Crossing → Crossing × Bool
  fill_front i s best resting rest c =
      let fill_qty = min c.remaining resting.qty in
      let resting' : Order = record resting { qty = resting.qty - fill_qty } in
      let best' : PriceLevel = record best {
        total_qty = sub32 best.total_qty fill_qty;
        orders = resting' ∷ rest;
      } in
      let b =
        with_ladder orders_table levels_table c.book (opposite s)
          (put_level best' (opposite_ladder s c.book)) in
      let fills : List Fill =
        c.fills
        ++ record { maker_id = resting.order_id; taker_id = i; price = best.price; qty = fill_qty }
          ∷ [] in
      let (removed, destroyed) =
        remove_filled_order orders_table levels_table b (opposite s, best.price) resting.order_id in
      if resting.qty - fill_qty == 0
      then (record { book = removed; remaining = c.remaining - fill_qty; fills = fills }, destroyed)
      else (record { book = b; remaining = c.remaining - fill_qty; fills = fills }, false)

  -- The inner loop, over the orders of the best level, which stands at the front of the ladder
  -- until it is destroyed. It returns the room left.
  unfoldable pub match_level : OrderId → Side → ℕ → Crossing → Crossing × ℕ
  unfolding fill_front
  match_level i s zero c = (c, zero)
  match_level i s (suc room) c = elim (opposite_ladder s c.book) [
    | [] ↦ (c, suc room)
    | best ∷ _ ↦ elim best.orders [
      | [] ↦ (c, suc room)
      | resting ∷ rest ↦ elim (c.remaining == 0) [
        | true ↦ (c, suc room)
        | false ↦
            let r = fill_front i s best resting rest c in
            elim r.1 [ true ↦ (r.0, room) | false ↦ match_level i s room r.0 ]
      ]
    ]
  ]

  -- The outer loop, over the levels. A round that meets a level with orders takes room, so as many
  -- rounds as the buffer has room are enough.
  unfoldable pub match_ladder : OrderId → Side → Price → ℕ → ℕ → Crossing → Crossing
  unfolding match_level
  match_ladder i s price zero room c = c
  match_ladder i s price (suc fuel) room c = elim (c.remaining == 0) [
    | true ↦ c
    | false ↦ elim (room == 0) [
      | true ↦ c
      | false ↦ elim (opposite_ladder s c.book) [
        | [] ↦ c
        | best ∷ _ ↦ elim (crosses s price best.price) [
          | false ↦ c
          | true ↦ let r = match_level i s room c in match_ladder i s price fuel r.1 r.0
        ]
      ]
    ]
  ]

  -- Whether resting the remainder would cross the book.
  unfoldable pub still_crosses : Side → Price → Book → Bool
  still_crosses s price b = elim (opposite_ladder s b) [
    | [] ↦ false
    | best ∷ _ ↦ crosses s price best.price
  ]

  abbrev pub rest_order : Book → OrderId → Side → Price → Qty → Book × Bool
  rest_order = add_order orders_table levels_table

  module _ (max_fills : ℕ) where
    unfoldable pub rest_remainder : OrderId → Side → Price → Crossing → Book × MatchResult
    unfolding still_crosses
    rest_remainder i s price c =
        let rest = rest_order c.book i s price c.remaining in
        if c.remaining == 0 || still_crosses s price c.book
        then (c.book, record { fills = c.fills; remaining_qty = c.remaining; rested = false })
        else (rest.0, record { fills = c.fills; remaining_qty = c.remaining; rested = rest.1 })

    unfoldable pub submit_order : Book → OrderId → Side → Price → Qty → Book × MatchResult
    unfolding rest_remainder
    submit_order b i s price qty =
        if qty == 0
        then (b, record { fills = []; remaining_qty = 0; rested = false })
        else if has_order orders_table levels_table b i
        then (b, record { fills = []; remaining_qty = qty; rested = false })
        else rest_remainder i s price (
            match_ladder i s price max_fills max_fills
              (record { book = b; remaining = qty; fills = [] }))

    -- Cancel and submit again under a new id.
    unfoldable pub modify_order :
        Book → OrderId → Side → Price → Qty → OrderId → Book × ModifyResult
    modify_order b old_id s price qty new_id =
        let cancelled = cancel_order orders_table levels_table b old_id in
        let submitted = submit_order cancelled.0 new_id s price qty in
        let result = submitted.1 in
        if cancelled.1
        then (
          submitted.0,
          record {
            fills = result.fills;
            remaining_qty = result.remaining_qty;
            rested = result.rested;
            success = true;
          },
        )
        else (
          cancelled.0,
          record { fills = []; remaining_qty = 0; rested = false; success = false },
        )
