-- ===== src/Engine/Outcome.antt =====
-- What a caller of `submit_order` (libs/algo/matching_engine.hpp) can count on, rejected orders included.
use low_latency_tick_to_trad.Prelude.{
  ℕ, ◌+◌, ◌≤◌, ◌<◌, ◌≡◌, false, List, [], ◌∷◌, ◌++◌, arith, ◌==◌, ==_iff, length, Bool-cases, inl,
  inr, ◌⊎◌,
}
use low_latency_tick_to_trad.Table.{Table}
use low_latency_tick_to_trad.Types.{OrderId, Side, Price, Qty, opposite}
use low_latency_tick_to_trad.Book.Queue.{entries}
use low_latency_tick_to_trad.Book.{Handle, Order, PriceLevel, has_order}
use low_latency_tick_to_trad.Book.Inv.{Book, queue_of, IsValid, side_of}
use low_latency_tick_to_trad.Engine.Spec.{
  traded, AllAlive, AllFair, cross_conserves, cross_room, cross-AllFair,
}
use low_latency_tick_to_trad.Engine.{submit_order, MatchResult}
use low_latency_tick_to_trad.Book.Ladder.{IsLadder, AllRest}
use low_latency_tick_to_trad.Prelude.Word.{u32}
use low_latency_tick_to_trad.Engine.Result.{submit_order-Submits}

AllRest-AllAlive :
    (i : OrderId) (s t : Side) (price p : Price) (os : List Order)
    → AllRest t p os
    → AllAlive i s price os
AllRest-AllAlive i s t price p [] r = tt
AllRest-AllAlive i s t price p (o ∷ os) r = (r.0.alive, AllRest-AllAlive i s t price p os r.1)

AllAlive-append :
    (i : OrderId) (s : Side) (price : Price) (xs ys : List Order)
    → AllAlive i s price xs
    → AllAlive i s price ys
    → AllAlive i s price (xs ++ ys)
AllAlive-append i s price [] ys a b = b
AllAlive-append i s price (x ∷ xs) ys a b = (a.0, AllAlive-append i s price xs ys a.1 b)

IsLadder-AllAlive :
    (i : OrderId) (s t : Side) (price : Price) (ls : List PriceLevel)
    → IsLadder t ls
    → AllAlive i s price (entries ls)
unfolding entries
IsLadder-AllAlive i s t price [] v = tt
IsLadder-AllAlive i s t price (l ∷ ls) v =
    AllAlive-append i s price l.orders (entries ls)
      (AllRest-AllAlive i s t price l.price l.orders v.0.queue)
      (IsLadder-AllAlive i s t price ls v.2)

module _ (orders_table : Table OrderId Handle) (levels_table : Table Price (Unit {0})) where
  abbrev B : Type 0
  B = Book orders_table levels_table

  abbrev queue : B → Side → List Order
  queue = queue_of orders_table levels_table

  module _ (max_fills : ℕ) where
    abbrev submit : B → OrderId → Side → Price → Qty → B × MatchResult orders_table levels_table
    submit = submit_order orders_table levels_table max_fills

    -- An order of no quantity or of a known id is rejected, and the book stays as it is.
    pub submit_rejected :
        (b : B) (i : OrderId) (s : Side) (price : Price) (qty : Qty)
        → ((0 < qty) × (has_order orders_table levels_table b i ≡ false))
          ⊎ (submit b i s price qty
              ≡ (b, record { fills = []; remaining_qty = qty; rested = false }))
    unfolding submit_order
    submit_rejected b i s price qty = elim (Bool-cases (qty == 0)) [
      | inl z ↦ inr (rw (z, (==_iff qty 0).0 z))
      | inr z ↦ elim (Bool-cases (has_order orders_table levels_table b i)) [
        | inl h ↦ inr (rw (z, h))
        | inr h ↦ inl (ground (arith, z), h)
      ]
    ]

    -- On a consistent book and for a quantity below 2 ^ 32, on every branch: the fills and the
    -- remainder add up to the submitted quantity (nothing is lost or made), there are at most
    -- `max_fills` fills, and each is the taker's, of a positive quantity, at a price that its limit
    -- allows.
    pub submit_order_fair :
        (max_orders max_levels : ℕ) (b : B) (i : OrderId) (s : Side) (price : Price) (qty : Qty)
        → IsValid orders_table levels_table max_orders max_levels b
        → qty < u32
        → (traded (submit b i s price qty).1.fills + (submit b i s price qty).1.remaining_qty ≡ qty)
          × (length (submit b i s price qty).1.fills ≤ max_fills)
          × AllFair i s price (submit b i s price qty).1.fills
    unfolding traded
    submit_order_fair n k b i s price qty v fits = elim (submit_rejected b i s price qty) [
      | inr e ↦ rw e (omega arith, omega arith, tt)
      | inl (q, h) ↦
          let r =
            submit_order-Submits orders_table levels_table n k max_fills b i s price qty v q fits
              h in
          let os = queue b (opposite s) in
          rw (r.fills, r.remaining)
            (
              cross_conserves i s price max_fills qty os,
              cross_room i s price max_fills qty os,
              cross-AllFair i s price max_fills qty os (
                  IsLadder-AllAlive i s (opposite s) price
                    (side_of orders_table levels_table b (opposite s))
                    (v.levels.sorted (opposite s))),
            )
    ]
