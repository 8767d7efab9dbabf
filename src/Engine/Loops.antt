-- ===== src/Engine/Loops.antt =====
-- A step of the crossing loops of libs/algo/matching_engine.hpp against the reference `cross`.
use low_latency_tick_to_trad.Prelude.{
  ℕ, suc, ◌-◌, ◌≡◌, refl, sym, subst, ◌∙◌, ap, true, false, none, List, [], ◌∷◌, ◌++◌, arith, leb,
  ◌==◌, ==_iff, append-nil, min, leb→le,
}
use low_latency_tick_to_trad.Types.{Price, OrderId, Qty, Side, bid, ask, opposite}
use low_latency_tick_to_trad.Table.{Table}
use low_latency_tick_to_trad.Book.{
  Handle, PriceLevel, Order, is_nil, with_ladder, set_qty, remove_filled_order, erase_order,
  put_level,
}
use low_latency_tick_to_trad.Engine.{crosses, Crossing, fill_front}
use low_latency_tick_to_trad.Engine.Spec.{
  Crossed, cross, prepend, fill_of, cross_full, cross_done, prepend-append, cross_partial,
}
use low_latency_tick_to_trad.Book.Inv.{Book, IsValid, queue_of, side_of}
use low_latency_tick_to_trad.Engine.Round.{
  Front, front-Rests, queue-front, partial-Reduces, full-Removes, full_destroys, filled_level,
}
use low_latency_tick_to_trad.Book.Queue.{entries}

module _ (orders_table : Table OrderId Handle) (levels_table : Table Price (Unit {0})) (i : OrderId)
    (s : Side) (price : Price) where
  abbrev pub B : Type 0
  B = Book orders_table levels_table

  abbrev pub queue : B → Side → List Order
  queue = queue_of orders_table levels_table

  abbrev pub State : Type 0
  State = Crossing orders_table levels_table

  -- What is left for the reference to do, with what is done.
  abbrev pub finish : ℕ → State → Crossed
  finish room c = prepend c.fills (cross i s price room c.remaining (queue c.book (opposite s)))

  -- A step of the loops, which leaves room `room'`.
  pub record Follows (max_orders max_levels room room' : ℕ) (c c' : State) : Type 0 where
    pub valid : IsValid orders_table levels_table max_orders max_levels c'.book
    pub same_finish : finish room' c' ≡ finish room c
    pub own : queue c'.book s ≡ queue c.book s
    pub unknown :
        (j : OrderId)
        → orders_table.find c.book.order_map j ≡ none
        → orders_table.find c'.book.order_map j ≡ none

  pub still :
      (max_orders max_levels room : ℕ) (c : State)
      → IsValid orders_table levels_table max_orders max_levels c.book
      → Follows max_orders max_levels room room c c
  still n k room c v = record { valid = v; same_finish = refl; own = refl; unknown = λ j e. e }

  pub chained :
      (max_orders max_levels room room' room'' : ℕ) (c c' c'' : State)
      → Follows max_orders max_levels room room' c c'
      → Follows max_orders max_levels room' room'' c' c''
      → Follows max_orders max_levels room room'' c c''
  chained n k x y z c c' c'' f g = record {
    valid = g.valid;
    same_finish = g.same_finish ∙ f.same_finish;
    own = g.own ∙ f.own;
    unknown = λ j e. g.unknown j (f.unknown j e);
  }

  opposite_twice : (t : Side) → opposite (opposite t) ≡ t
  opposite_twice bid = refl
  opposite_twice ask = refl

  -- The front order of a queue crosses the limit.
  abbrev pub Meets : List Order → Type 0
  Meets [] = Unit
  Meets (o ∷ os) = crosses s price o.price ≡ true

  module _ (max_orders max_levels room : ℕ) (c : State) (best : PriceLevel) (resting : Order)
      (rest : List Order) (ls : List PriceLevel)
      (valid : IsValid orders_table levels_table max_orders max_levels c.book)
      (front : Front orders_table levels_table c.book (opposite s) best resting rest ls)
      (more : (c.remaining == 0) ≡ false) (meets : crosses s price best.price ≡ true) where
    pub limit : crosses s price resting.price ≡ true
    limit =
        rw
          (front-Rests orders_table levels_table max_orders max_levels c.book (opposite s) best
            resting rest ls valid front).at_price
          meets

    abbrev pub later : List Order
    later = rest ++ entries ls

    pub front_queue : queue c.book (opposite s) ≡ resting ∷ later
    front_queue =
        queue-front orders_table levels_table max_orders max_levels c.book (opposite s) best resting
          rest ls valid front

    made :
        (q : Qty)
        → record { maker_id = resting.order_id; taker_id = i; price = best.price; qty = q }
          ≡ fill_of i resting q
    made q =
        ap (λ (p : Price). record { maker_id = resting.order_id; taker_id = i; price = p; qty = q })
          (sym
            (front-Rests orders_table levels_table max_orders max_levels c.book (opposite s) best
              resting rest ls valid front).at_price)

    abbrev pub written : Qty → B
    written f = with_ladder orders_table levels_table c.book (opposite s) (
        put_level (filled_level best resting rest f)
          (side_of orders_table levels_table c.book (opposite s)))

    abbrev pub full_state : State
    full_state = record {
      book =
          (remove_filled_order orders_table levels_table (written resting.qty)
            (opposite s, best.price) resting.order_id).0;
      remaining = c.remaining - resting.qty;
      fills =
          c.fills
          ++ record {
            maker_id = resting.order_id;
            taker_id = i;
            price = best.price;
            qty = resting.qty;
          }
            ∷ [];
    }

    abbrev pub partial_state : State
    partial_state = record {
      book = written c.remaining;
      remaining = 0;
      fills =
          c.fills
          ++ record {
            maker_id = resting.order_id;
            taker_id = i;
            price = best.price;
            qty = c.remaining;
          }
            ∷ [];
    }

    pub fill_full :
        leb resting.qty c.remaining ≡ true
        → fill_front orders_table levels_table i s best resting rest c ≡ (full_state, is_nil rest)
    unfolding fill_front
    fill_full h =
        let e : min c.remaining resting.qty ≡ resting.qty =
          omega (arith, leb→le resting.qty c.remaining h) in
        let z : (resting.qty - resting.qty == 0) ≡ true = ground arith in
        rw (e, z)
          (ap (λ d. (full_state, d))
            (full_destroys orders_table levels_table max_orders max_levels c.book (opposite s) best
              resting rest ls valid front))

    pub fill_partial :
        leb resting.qty c.remaining ≡ false
        → fill_front orders_table levels_table i s best resting rest c ≡ (partial_state, false)
    unfolding fill_front
    fill_partial h =
        let e : min c.remaining resting.qty ≡ c.remaining = ground (arith, h) in
        let z : (resting.qty - c.remaining == 0) ≡ false = ground (arith, h) in
        let w : c.remaining - c.remaining ≡ 0 = omega arith in rw (e, z, w)

    pub full_queue : queue full_state.book (opposite s) ≡ later
    unfolding erase_order
    full_queue =
        let r =
          full-Removes orders_table levels_table max_orders max_levels c.book (opposite s) best
            resting rest ls valid front in
        r.queue_after
        ∙ ap (erase_order resting.order_id) front_queue
        ∙ (rw ((==_iff resting.order_id resting.order_id).1 refl))

    pub partial_queue :
        leb resting.qty c.remaining ≡ false
        → queue partial_state.book (opposite s)
          ≡ record resting { qty = resting.qty - c.remaining } ∷ later
    unfolding set_qty
    partial_queue h =
        let r =
          partial-Reduces orders_table levels_table max_orders max_levels c.book (opposite s) best
            resting rest ls valid front c.remaining (ground (arith, more)) (ground (arith, h)) in
        r.queue_after
        ∙ ap (set_qty resting.order_id (resting.qty - c.remaining)) front_queue
        ∙ (rw ((==_iff resting.order_id resting.order_id).1 refl))

    pub full-Follows :
        leb resting.qty c.remaining ≡ true
        → Follows max_orders max_levels (suc room) room c full_state
    full-Follows h =
        let r =
          full-Removes orders_table levels_table max_orders max_levels c.book (opposite s) best
            resting rest ls valid front in
        record {
          valid = r.valid;
          same_finish =
              rw
                (
                  full_queue,
                  front_queue,
                  cross_full i s price room c.remaining resting later more limit h,
                  made resting.qty,
                )
                (prepend-append c.fills (fill_of i resting resting.qty ∷ [])
                  (cross i s price room (c.remaining - resting.qty) later));
          own = subst (λ t. queue full_state.book t ≡ queue c.book t) (opposite_twice s) r.others;
          unknown = λ j e. r.forgotten j ∙ ground (arith, e);
        }

    pub partial-Follows :
        leb resting.qty c.remaining ≡ false
        → Follows max_orders max_levels (suc room) room c partial_state
    partial-Follows h =
        let r =
          partial-Reduces orders_table levels_table max_orders max_levels c.book (opposite s) best
            resting rest ls valid front c.remaining (ground (arith, more)) (ground (arith, h)) in
        record {
          valid = r.valid;
          same_finish = rw (
            partial_queue h,
            front_queue,
            cross_done i s price room (record resting { qty = resting.qty - c.remaining } ∷ later),
            cross_partial i s price room c.remaining resting later more limit h,
            made c.remaining,
            append-nil,
          );
          own =
              subst (λ t. queue partial_state.book t ≡ queue c.book t) (opposite_twice s) r.others;
          unknown = λ j e. ap (λ m. orders_table.find m j) r.map_same ∙ e;
        }
