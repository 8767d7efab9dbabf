-- ===== src/Engine/Round.antt =====
-- One round of the crossing loop of libs/algo/matching_engine.hpp: a fill against the front order of
-- the best level, which leaves a consistent book.
use low_latency_tick_to_trad.Prelude.{
  ℕ, ◌-◌, ◌≤◌, ◌<◌, ◌≡◌, refl, ap, Option, none, some, List, ◌∷◌, arith, ==_iff, sym, ◌∙◌, ◌++◌,
  subst, Bool, if◌then◌else◌, true, false, ap₂,
}
use low_latency_tick_to_trad.Types.{Price, Qty, Side, bid, ask, OrderId}
use low_latency_tick_to_trad.Book.{
  Handle, PriceLevel, Order, erase_order, set_qty, qty_in, take_order, reduce_in_level, with_ladder,
  unlink_order, level_at, put_level, remove_filled_order, is_nil, remove_level,
}
use low_latency_tick_to_trad.Book.Inv.{on_side, Book, IsValid, queue_of, side_of}
use low_latency_tick_to_trad.Prelude.Word.{sub32, u32, ==ℤ_refl}
use low_latency_tick_to_trad.Table.{Table}
use low_latency_tick_to_trad.Book.Ladder.{Rests, IsLevel, AllRest, IsLadder}
use low_latency_tick_to_trad.Book.Queue.{where_is, entries}
use low_latency_tick_to_trad.Book.Reduction.{Reduces, reduce-Reduces}
use low_latency_tick_to_trad.Book.Cancel.{Removes, drop-Removes}

on_side-some :
    (s : Side) (p : Price) (h : Option Handle) → on_side s h ≡ some (s, p) → h ≡ some (s, p)
on_side-some bid p none e = cc
on_side-some ask p none e = cc
on_side-some bid p (some (bid, q)) e = e
on_side-some ask p (some (ask, q)) e = e
on_side-some bid p (some (ask, q)) e = cc
on_side-some ask p (some (bid, q)) e = cc

sub32_zero : (t f : ℕ) → sub32 (sub32 t f) 0 ≡ sub32 t f
sub32_zero t f = omega arith

-- The best level after a fill of its front order, as the code writes it.
abbrev pub filled_level : PriceLevel → Order → List Order → Qty → PriceLevel
filled_level best resting rest f = record best {
  total_qty = sub32 best.total_qty f;
  orders = record resting { qty = resting.qty - f } ∷ rest;
}

module _ (best : PriceLevel) (resting : Order) (rest : List Order)
    (eq : best.orders ≡ resting ∷ rest) where
  -- Taking the filled order out is taking the order out before its fill.
  take_filled :
      take_order resting.order_id (filled_level best resting rest resting.qty)
      ≡ take_order resting.order_id best
  unfolding erase_order qty_in
  take_filled =
      rw (eq, (==_iff resting.order_id resting.order_id).1 refl)
        (ap (λ t. record best { total_qty = t; orders = rest })
          (let z : resting.qty - resting.qty ≡ 0 = omega arith in
            rw z (sub32_zero best.total_qty resting.qty)))

  -- A partial fill is a reduction.
  reduce_filled :
      (r : Qty)
      → r ≤ resting.qty
      → resting.qty < u32
      → filled_level best resting rest r ≡ reduce_in_level resting.order_id (resting.qty - r) best
  unfolding set_qty qty_in
  reduce_filled r le hi =
      rw (eq, (==_iff resting.order_id resting.order_id).1 refl)
        (ap
          (λ t. record best {
            total_qty = t;
            orders = record resting { qty = resting.qty - r } ∷ rest;
          })
          (let z : sub32 resting.qty (resting.qty - r) ≡ r = omega arith in rw z))

module _ (orders_table : Table OrderId Handle) (levels_table : Table Price (Unit {0})) where
  abbrev B : Type 0
  B = Book orders_table levels_table

  abbrev queue : B → Side → List Order
  queue = queue_of orders_table levels_table

  abbrev ladder_of : B → Side → List PriceLevel
  ladder_of = side_of orders_table levels_table

  abbrev with_side : B → Side → List PriceLevel → B
  with_side = with_ladder orders_table levels_table

  -- The front of the ladder of a side.
  pub record Front (b : B) (t : Side) (best : PriceLevel) (resting : Order) (rest : List Order)
      (ls : List PriceLevel) : Type 0 where
    pub ladder_eq : ladder_of b t ≡ best ∷ ls
    pub orders_eq : best.orders ≡ resting ∷ rest

  abbrev unlink_result : Side → Price → B → PriceLevel → B × Bool
  unlink_result t p d l =
      if is_nil l.orders then (remove_level orders_table levels_table d t p, true) else (d, false)

  -- Unlinking from the front level.
  unlink_front :
      (c : B) (t : Side) (l : PriceLevel) (ls : List PriceLevel) (i : OrderId)
      → ladder_of c t ≡ l ∷ ls
      → unlink_order orders_table levels_table c (t, l.price) i
        ≡ unlink_result t l.price (with_side c t (take_order i l ∷ ls)) (take_order i l)
  unfolding unlink_order level_at put_level
  unlink_front c t l ls i e = rw (e, unlink_order, ==ℤ_refl l.price, put) refl
    where
      put : put_level (take_order i l) (ladder_of c t) ≡ take_order i l ∷ ls
      put = rw (e, ==ℤ_refl l.price)

  ladder_with : (c : B) (t : Side) (ls : List PriceLevel) → ladder_of (with_side c t ls) t ≡ ls
  ladder_with c bid ls = refl
  ladder_with c ask ls = refl

  with_with :
      (c : B) (t : Side) (ks ls : List PriceLevel)
      → with_side (with_side c t ks) t ls ≡ with_side c t ls
  with_with c bid ks ls = refl
  with_with c ask ks ls = refl

  module _ (max_orders max_levels : ℕ) (b : B) (t : Side) (best : PriceLevel) (resting : Order)
      (rest : List Order) (ls : List PriceLevel)
      (valid : IsValid orders_table levels_table max_orders max_levels b)
      (front : Front b t best resting rest ls) where
    front-IsLevel : IsLevel t best
    front-IsLevel = (subst (IsLadder t) front.ladder_eq (valid.levels.sorted t)).0

    pub front-Rests : Rests t best.price resting
    front-Rests = (subst (AllRest t best.price) front.orders_eq front-IsLevel.queue).0

    pub rest-AllRest : AllRest t best.price rest
    rest-AllRest = (subst (AllRest t best.price) front.orders_eq front-IsLevel.queue).1

    pub queue-front : queue b t ≡ resting ∷ (rest ++ entries ls)
    unfolding entries
    queue-front = ap entries front.ladder_eq ∙ ap (λ xs. xs ++ entries ls) front.orders_eq

    front-where_is : where_is resting.order_id (queue b t) ≡ some (t, best.price)
    unfolding where_is
    front-where_is = rw (
      queue-front,
      (==_iff resting.order_id resting.order_id).1 refl,
      front-Rests.on_side,
      front-Rests.at_price,
    )

    front-known : orders_table.find b.order_map resting.order_id ≡ some (t, best.price)
    front-known =
        on_side-some t best.price _
          (sym (valid.orders.map_knows t resting.order_id) ∙ front-where_is)

    front-level_at : level_at best.price (ladder_of b t) ≡ some best
    unfolding level_at
    front-level_at = rw (front.ladder_eq, ==ℤ_refl best.price)

    -- a partial fill
    pub partial-Reduces :
        (r : Qty)
        → 0 < r
        → r < resting.qty
        → Reduces orders_table levels_table max_orders max_levels t resting.order_id
            (resting.qty - r)
            b
            (with_side b t (put_level (filled_level best resting rest r) (ladder_of b t)))
    unfolding qty_in
    partial-Reduces r lo hi =
        rw (reduce_filled best resting rest front.orders_eq r (omega (arith, hi)) front-Rests.fits)
          (reduce-Reduces orders_table levels_table max_orders max_levels b t best.price
            resting.order_id (resting.qty - r) best valid front-where_is front-level_at
            (omega (arith, hi))
            (rw (front.orders_eq, (==_iff resting.order_id resting.order_id).1 refl) (omega arith)))

    -- the quantities written, the order is unlinked as before
    unlink_filled :
        unlink_order orders_table levels_table
          (with_side b t (filled_level best resting rest resting.qty ∷ ls))
          (t, best.price)
          resting.order_id
        ≡ unlink_order orders_table levels_table b (t, best.price) resting.order_id
    unlink_filled =
        let filled = filled_level best resting rest resting.qty in
        unlink_front (with_side b t (filled ∷ ls)) t filled ls resting.order_id
          (ladder_with b t (filled ∷ ls))
        ∙ ap₂ (unlink_result t best.price)
            (with_with b t (filled ∷ ls) (take_order resting.order_id filled ∷ ls)
              ∙ ap (λ l. with_side b t (l ∷ ls)) same)
            same
        ∙ sym (unlink_front b t best ls resting.order_id front.ladder_eq)
      where
        same :
            take_order resting.order_id (filled_level best resting rest resting.qty)
            ≡ take_order resting.order_id best
        same = take_filled best resting rest front.orders_eq

    written :
        put_level (filled_level best resting rest resting.qty) (ladder_of b t)
        ≡ filled_level best resting rest resting.qty ∷ ls
    unfolding put_level
    written = rw (front.ladder_eq, ==ℤ_refl best.price)

    -- a full fill
    pub full-Removes :
        Removes orders_table levels_table max_orders max_levels t resting.order_id b
          (remove_filled_order orders_table levels_table
            (with_side b t (put_level (filled_level best resting rest resting.qty) (ladder_of b t)))
            (t, best.price)
            resting.order_id).0
    unfolding remove_filled_order
    full-Removes =
        rw (written, unlink_filled)
          (drop-Removes orders_table levels_table max_orders max_levels b t best.price
            resting.order_id valid front-known)

    pub full_destroys :
        (remove_filled_order orders_table levels_table
          (with_side b t (put_level (filled_level best resting rest resting.qty) (ladder_of b t)))
          (t, best.price)
          resting.order_id).1
        ≡ is_nil rest
    unfolding remove_filled_order erase_order
    full_destroys =
        rw
          (
            written,
            unlink_filled,
            unlink_front b t best ls resting.order_id front.ladder_eq,
            front.orders_eq,
            (==_iff resting.order_id resting.order_id).1 refl,
          )
          (flag (is_nil rest) _ _)
      where
        flag :
            (c : Bool) (d e : B)
            → (let r : B × Bool = if c then (d, true) else (e, false) in r.1 ≡ c)
        flag true d e = refl
        flag false d e = refl
