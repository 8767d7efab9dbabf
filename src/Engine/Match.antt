-- ===== src/Engine/Match.antt =====
-- The inner crossing loop of libs/algo/matching_engine.hpp, from any consistent book.
use low_latency_tick_to_trad.Prelude.{
  ℕ, zero, suc, ◌≤◌, ◌≡◌, refl, sym, subst, ap, Bool, true, false, List, [], ◌∷◌, ◌++◌, arith, leb,
  ◌==◌, if◌then◌else◌, Bool-cases, inl, inr, ◌⊎◌,
}
use low_latency_tick_to_trad.Types.{Price, OrderId, Side, opposite}
use low_latency_tick_to_trad.Table.{Table}
use low_latency_tick_to_trad.Book.{Handle, PriceLevel, Order, is_nil}
use low_latency_tick_to_trad.Engine.{crosses, match_level, fill_front}
use low_latency_tick_to_trad.Engine.Loops.{
  State, Meets, Follows, still, full-Follows, chained, fill_full, full_queue, partial-Follows,
  fill_partial, partial_queue, limit,
}
use low_latency_tick_to_trad.Book.Inv.{Book, IsValid, side_of, queue_of}
use low_latency_tick_to_trad.Engine.Round.{Front, queue-front, front-Rests, rest-AllRest}
use low_latency_tick_to_trad.Book.Ladder.{IsLadder, AllRest}
use low_latency_tick_to_trad.Book.Queue.{entries}

module _ (orders_table : Table OrderId Handle) (levels_table : Table Price (Unit {0})) where
  -- What the front of a side holds, if anything.
  pub record Peek (b : Book orders_table levels_table) (t : Side) : Type 0 where
    pub best : PriceLevel
    pub resting : Order
    pub rest : List Order
    pub ls : List PriceLevel
    pub front : Front orders_table levels_table b t best resting rest ls

  pub peek :
      (max_orders max_levels : ℕ) (b : Book orders_table levels_table) (t : Side)
      → IsValid orders_table levels_table max_orders max_levels b
      → (side_of orders_table levels_table b t ≡ []) ⊎ Peek b t
  peek n k b t v = levels (side_of orders_table levels_table b t) refl
    where
      orders :
          (l : PriceLevel) (ls : List PriceLevel) (os : List Order)
          → side_of orders_table levels_table b t ≡ l ∷ ls
          → l.orders ≡ os
          → Peek b t
      orders l ls [] e f =
          absurd (cc ((subst (IsLadder t) e (v.levels.sorted t)).0.nonempty, ap is_nil f))
      orders l ls (o ∷ os) e f = record {
        best = l;
        resting = o;
        rest = os;
        ls = ls;
        front = record { ladder_eq = e; orders_eq = f };
      }

      levels :
          (ls : List PriceLevel)
          → side_of orders_table levels_table b t ≡ ls
          → (side_of orders_table levels_table b t ≡ []) ⊎ Peek b t
      levels [] e = inl e
      levels (l ∷ ls) e = inr (orders l ls l.orders e refl)

  module _ (i : OrderId) (s : Side) (price : Price) where
    abbrev pub St : Type 0
    St = State orders_table levels_table i s price

    abbrev pub inner : ℕ → St → St × ℕ
    inner room c = match_level orders_table levels_table i s room c

    inner_empty :
        (room : ℕ) (c : St)
        → side_of orders_table levels_table c.book (opposite s) ≡ []
        → inner room c ≡ (c, room)
    unfolding match_level
    inner_empty zero c e = refl
    inner_empty (suc room) c e = ground (arith, e)

    inner_done :
        (room : ℕ) (c : St) (p : Peek c.book (opposite s))
        → (c.remaining == 0) ≡ true
        → inner room c ≡ (c, room)
    unfolding match_level
    inner_done zero c p z = refl
    inner_done (suc room) c p z = ground (arith, p.front.ladder_eq, p.front.orders_eq, z)

    pub inner_round :
        (room : ℕ) (c c' : St) (destroyed : Bool) (p : Peek c.book (opposite s))
        → (c.remaining == 0) ≡ false
        → fill_front orders_table levels_table i s p.best p.resting p.rest c ≡ (c', destroyed)
        → inner (suc room) c ≡ (if destroyed then (c', room) else inner room c')
    unfolding match_level
    inner_round room c c' true p more e =
        ground (arith, p.front.ladder_eq, p.front.orders_eq, more, e)
    inner_round room c c' false p more e =
        ground (arith, p.front.ladder_eq, p.front.orders_eq, more, e)

    abbrev pub Fol : ℕ → ℕ → ℕ → ℕ → St → St → Type 0
    Fol = Follows orders_table levels_table i s price

    -- What the inner loop achieves, and that it takes room when it starts a round.
    pub record Inner (max_orders max_levels room : ℕ) (c : St) (r : St × ℕ) : Type 0 where
      pub follows : Fol max_orders max_levels room r.1 c r.0
      pub bounded : r.1 ≤ room

    module _ (max_orders max_levels : ℕ) where
      abbrev pub Ok : St → Type 0
      Ok c = IsValid orders_table levels_table max_orders max_levels c.book

      pub best-Meets :
          (c : St) (p : Peek c.book (opposite s))
          → Ok c
          → Meets orders_table levels_table i s price
              (queue_of orders_table levels_table c.book (opposite s))
          → crosses s price p.best.price ≡ true
      best-Meets c p v m =
          let e =
            queue-front orders_table levels_table max_orders max_levels c.book (opposite s) p.best
              p.resting p.rest p.ls v p.front in
          let at =
            (front-Rests orders_table levels_table max_orders max_levels c.book (opposite s) p.best
              p.resting p.rest p.ls v p.front).at_price in
          subst (λ x. crosses s price x ≡ true) at
            (subst (Meets orders_table levels_table i s price) e m)

      Meets-later :
          (t : Side) (p : Price) (xs ys : List Order)
          → is_nil xs ≡ false
          → AllRest t p xs
          → crosses s price p ≡ true
          → Meets orders_table levels_table i s price (xs ++ ys)
      Meets-later t p [] ys n a m = cc
      Meets-later t p (x ∷ xs) ys n a m = subst (λ y. crosses s price y ≡ true) (sym a.0.at_price) m

      -- A round of the inner loop, and what it does after that.
      module _ (room : ℕ) (c : St) (v : Ok c) (p : Peek c.book (opposite s))
          (more : (c.remaining == 0) ≡ false) (meets : crosses s price p.best.price ≡ true)
          (after : (d : St)
            → Ok d
            → Meets orders_table levels_table i s price
                (queue_of orders_table levels_table d.book (opposite s))
            → Inner max_orders max_levels room d (inner room d)) where
        abbrev pub Rounds : St × ℕ → Type 0
        Rounds r = Fol max_orders max_levels (suc room) r.1 c r.0 × (r.1 ≤ room)

        Rounds-on :
            (d : St)
            → Fol max_orders max_levels (suc room) room c d
            → Meets orders_table levels_table i s price
                (queue_of orders_table levels_table d.book (opposite s))
            → Rounds (inner room d)
        Rounds-on d f m =
            let r = after d f.valid m in
            (
              chained orders_table levels_table i s price max_orders max_levels (suc room) room
                  (inner room d).1 c d (inner room d).0 f r.follows,
              r.bounded,
            )

        pub inner-Rounds : Rounds (inner (suc room) c)
        inner-Rounds = elim (Bool-cases (leb p.resting.qty c.remaining)) [
          | inl full ↦
              let f =
                full-Follows orders_table levels_table i s price max_orders max_levels room c p.best
                  p.resting p.rest p.ls v p.front more meets full in
              let e = inner_round room c _ (is_nil p.rest) p more (
                fill_full orders_table levels_table i s price max_orders max_levels room c p.best
                  p.resting p.rest p.ls v p.front more meets full) in
              elim (Bool-cases (is_nil p.rest)) [
                | inl d ↦ subst Rounds (sym (rw d at e)) (f, omega arith)
                | inr d ↦ subst Rounds (sym (rw d at e)) (
                    Rounds-on _ f (
                      subst (Meets orders_table levels_table i s price)
                        (sym (
                          full_queue orders_table levels_table i s price max_orders max_levels room
                            c p.best p.resting p.rest p.ls v p.front more meets))
                        (Meets-later (opposite s) p.best.price p.rest (entries p.ls) d
                          (rest-AllRest orders_table levels_table max_orders max_levels c.book
                            (opposite s) p.best p.resting p.rest p.ls v p.front)
                          meets)))
              ]
          | inr part ↦
              let f =
                partial-Follows orders_table levels_table i s price max_orders max_levels room c
                  p.best p.resting p.rest p.ls v p.front more meets part in
              let e = inner_round room c _ false p more (
                fill_partial orders_table levels_table i s price max_orders max_levels room c p.best
                  p.resting p.rest p.ls v p.front more meets part) in
              subst Rounds (sym e) (
                Rounds-on _ f (
                  subst (Meets orders_table levels_table i s price)
                    (sym (
                      partial_queue orders_table levels_table i s price max_orders max_levels room c
                        p.best p.resting p.rest p.ls v p.front more meets part))
                    (limit orders_table levels_table i s price max_orders max_levels room c p.best
                      p.resting p.rest p.ls v p.front more meets)))
        ]

      pub inner-Inner :
          (room : ℕ) (c : St)
          → Ok c
          → Meets orders_table levels_table i s price
              (queue_of orders_table levels_table c.book (opposite s))
          → Inner max_orders max_levels room c (inner room c)
      inner-Inner zero c v m =
          unfold match_level in
          record {
            follows = still orders_table levels_table i s price max_orders max_levels zero c v;
            bounded = omega arith;
          }
      inner-Inner (suc room) c v m = elim (peek max_orders max_levels c.book (opposite s) v) [
        | inl e ↦ rw (inner_empty (suc room) c e) (record {
          follows = still orders_table levels_table i s price max_orders max_levels (suc room) c v;
          bounded = omega arith;
        })
        | inr p ↦ elim (Bool-cases (c.remaining == 0)) [
          | inl z ↦ rw (inner_done (suc room) c p z) (record {
            follows =
                still orders_table levels_table i s price max_orders max_levels (suc room) c v;
            bounded = omega arith;
          })
          | inr more ↦
              let r = inner-Rounds room c v p more (best-Meets c p v m) (inner-Inner room) in
              record { follows = r.0; bounded = omega (arith, r.1) }
        ]
      ]
