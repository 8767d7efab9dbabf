-- ===== src/Engine/Uncrossed.antt =====
-- Whether a bid of the book crosses an ask (libs/algo/matching_engine.hpp).
use low_latency_tick_to_trad.Prelude.{
  ℕ, ◌<◌, ◌≡◌, subst, ◌∙◌, true, false, List, Bool-cases, inl, inr, ◌⊎◌, ◌∷◌, ◌==◌, [],
}
use low_latency_tick_to_trad.Table.{Table}
use low_latency_tick_to_trad.Types.{OrderId, Price, Side, bid, Qty, ask, opposite}
use low_latency_tick_to_trad.Book.{Handle, Order, cancel_order, erase_order}
use low_latency_tick_to_trad.Book.Inv.{Book, queue_of, IsValid}
use low_latency_tick_to_trad.Engine.Priority.{crosses_flip, In, In-cross, In-insert_entry}
use low_latency_tick_to_trad.Engine.{MatchResult, submit_order, crosses}
use low_latency_tick_to_trad.Engine.Result.{Submits, submit_order-Submits}
use low_latency_tick_to_trad.Prelude.Word.{u32}
use low_latency_tick_to_trad.Engine.Outcome.{submit_rejected}
use low_latency_tick_to_trad.Book.Placing.{resting}
use low_latency_tick_to_trad.Book.Cancel.{cancel_order-Cancels}

module _ (orders_table : Table OrderId Handle) (levels_table : Table Price (Unit {0})) where
  abbrev B : Type 0
  B = Book orders_table levels_table

  abbrev queue : B → Side → List Order
  queue = queue_of orders_table levels_table

  -- No order of a side would trade with one of the other.
  abbrev Apart : Side → B → Type 0
  Apart s b =
      (o a : Order)
      → In o (queue b s)
      → In a (queue b (opposite s))
      → crosses s o.price a.price ≡ false

  -- The book is not crossed.
  abbrev pub Uncrossed : B → Type 0
  Uncrossed b = Apart bid b

  turned : (s : Side) (b : B) → Uncrossed b → Apart s b
  turned bid b u = u
  turned ask b u = λ o a m n. crosses_flip ask o.price a.price ∙ u a o n m

  returned : (s : Side) (b : B) → Apart s b → Uncrossed b
  returned bid b u = u
  returned ask b u = λ o a m n. crosses_flip bid o.price a.price ∙ u a o n m

  module _ (max_fills : ℕ) where
    Submits-Apart :
        (max_orders max_levels : ℕ) (b : B) (i : OrderId) (s : Side) (price : Price) (qty : Qty)
        (r : B × MatchResult orders_table levels_table)
        → Apart s b
        → Submits orders_table levels_table max_orders max_levels max_fills b i s price qty r
        → Apart s r.0
    Submits-Apart n k b i s price qty r u x o a m t = rested (Bool-cases r.1.rested)
      where
        there : (y : Order) × In y (queue b (opposite s)) × (y.price ≡ a.price)
        there = In-cross i s price max_fills qty (queue b (opposite s)) a (subst (In a) x.others t)

        old : In o (queue b s) → crosses s o.price a.price ≡ false
        old w = let (y, l, e) = there in subst (λ z. crosses s o.price z ≡ false) e (u o y w l)

        rested : (r.1.rested ≡ true) ⊎ (r.1.rested ≡ false) → crosses s o.price a.price ≡ false
        rested (inr e) = old (subst (In o) (rw e at x.own) m)
        rested (inl e) =
            elim (In-insert_entry s (resting i s price r.1.remaining_qty) (queue b s) o
              (subst (In o) (rw e at x.own) m)) [
                | inl f ↦
                    subst (λ (z : Order). crosses s z.price a.price ≡ false) f ((x.rests e).1 a t)
                | inr w ↦ old w
              ]

    -- A book that is consistent and on which no bid crosses an ask stays so whatever order of a
    -- quantity below 2 ^ 32 is submitted, rejected orders and an exhausted fill buffer included.
    pub submit_order-Uncrossed :
        (max_orders max_levels : ℕ) (b : B) (i : OrderId) (s : Side) (price : Price) (qty : Qty)
        → IsValid orders_table levels_table max_orders max_levels b
        → Uncrossed b
        → qty < u32
        → IsValid orders_table levels_table max_orders max_levels
            (submit_order orders_table levels_table max_fills b i s price qty).0
          × Uncrossed (submit_order orders_table levels_table max_fills b i s price qty).0
    submit_order-Uncrossed n k b i s price qty v u fits =
        elim (submit_rejected orders_table levels_table max_fills b i s price qty) [
          | inr e ↦ rw e (v, u)
          | inl (q, h) ↦
              let r =
                submit_order-Submits orders_table levels_table n k max_fills b i s price qty v q
                  fits h in
              (
                r.valid,
                returned s (submit_order orders_table levels_table max_fills b i s price qty).0 (
                    Submits-Apart n k b i s price qty
                      (submit_order orders_table levels_table max_fills b i s price qty)
                      (turned s b u) r),
              )
        ]

  In-erase_order : (i : OrderId) (os : List Order) (a : Order) → In a (erase_order i os) → In a os
  unfolding erase_order
  In-erase_order i [] a m = m
  In-erase_order i (o ∷ os) a m = elim (Bool-cases (o.order_id == i)) [
    | inl e ↦ inr (rw e at m)
    | inr e ↦ kept (In-erase_order i os a) (rw e at m)
  ]
    where
      kept : (In a (erase_order i os) → In a os) → In a (o ∷ erase_order i os) → In a (o ∷ os)
      kept ih (inl f) = inl f
      kept ih (inr n) = inr (ih n)

  pub cancel_order-Uncrossed :
      (max_orders max_levels : ℕ) (b : B) (i : OrderId)
      → IsValid orders_table levels_table max_orders max_levels b
      → Uncrossed b
      → Uncrossed (cancel_order orders_table levels_table b i).0
  cancel_order-Uncrossed n k b i v u o a m t =
      let c = cancel_order-Cancels orders_table levels_table n k b i v in
      u o a (In-erase_order i (queue b bid) o (subst (In o) (c.queues bid) m))
        (In-erase_order i (queue b ask) a (subst (In a) (c.queues ask) t))
