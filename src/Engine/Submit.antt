-- ===== src/Engine/Submit.antt =====
-- The outer crossing loop of libs/algo/matching_engine.hpp, with room for a fill in every round.
use low_latency_tick_to_trad.Prelude.{
  ℕ, zero, suc, ◌≤◌, ◌≡◌, refl, sym, ap, true, false, [], ◌++◌, arith, ◌==◌, ==_iff, Bool-cases,
  inl, inr,
}
use low_latency_tick_to_trad.Types.{Price, OrderId, Side, opposite}
use low_latency_tick_to_trad.Table.{Table}
use low_latency_tick_to_trad.Book.{Handle}
use low_latency_tick_to_trad.Engine.{crosses, match_ladder}
use low_latency_tick_to_trad.Engine.Match.{
  Ok, Fol, Peek, St, inner, peek, inner-Rounds, inner-Inner,
}
use low_latency_tick_to_trad.Engine.Spec.{cross, cross_done, prepend, cross_empty, cross_apart}
use low_latency_tick_to_trad.Book.Inv.{side_of, queue_of}
use low_latency_tick_to_trad.Book.Queue.{entries}
use low_latency_tick_to_trad.Engine.Round.{queue-front, front-Rests}
use low_latency_tick_to_trad.Engine.Loops.{chained}

module _ (orders_table : Table OrderId Handle) (levels_table : Table Price (Unit {0})) where
  module _ (i : OrderId) (s : Side) (price : Price) where
    abbrev pub S : Type 0
    S = St orders_table levels_table i s price

    abbrev pub outer : ℕ → ℕ → S → S
    outer fuel room c = match_ladder orders_table levels_table i s price fuel room c

    abbrev Seen : S → Type 0
    Seen c = Peek orders_table levels_table c.book (opposite s)

    outer_filled : (fuel room : ℕ) (c : S) → (c.remaining == 0) ≡ true → outer (suc fuel) room c ≡ c
    unfolding match_ladder
    outer_filled fuel room c z = ground (arith, z)

    outer_full : (fuel : ℕ) (c : S) → outer fuel 0 c ≡ c
    unfolding match_ladder
    outer_full zero c = refl
    outer_full (suc fuel) c = ground arith

    outer_empty :
        (fuel room : ℕ) (c : S)
        → side_of orders_table levels_table c.book (opposite s) ≡ []
        → outer (suc fuel) room c ≡ c
    unfolding match_ladder
    outer_empty fuel room c e = ground (arith, e)

    outer_apart :
        (fuel room : ℕ) (c : S) (p : Seen c)
        → crosses s price p.best.price ≡ false
        → outer (suc fuel) room c ≡ c
    unfolding match_ladder
    outer_apart fuel room c p h = ground (arith, h, p.front.ladder_eq)

    outer_round :
        (fuel room : ℕ) (c : S) (p : Seen c)
        → (c.remaining == 0) ≡ false
        → crosses s price p.best.price ≡ true
        → outer (suc fuel) (suc room) c
          ≡ (let r = inner orders_table levels_table i s price (suc room) c in outer fuel r.1 r.0)
    unfolding match_ladder
    outer_round fuel room c p more h = ground (arith, h, more, p.front.ladder_eq)

    module _ (max_orders max_levels : ℕ) where
      abbrev pub Ends : ℕ → S → S → Type 0
      Ends room = Fol orders_table levels_table i s price max_orders max_levels room 0

      ends :
          (room : ℕ) (c : S)
          → Ok orders_table levels_table i s price max_orders max_levels c
          → cross i s price room c.remaining
              (queue_of orders_table levels_table c.book (opposite s))
            ≡ record {
              fills = [];
              remaining = c.remaining;
              resting = queue_of orders_table levels_table c.book (opposite s);
            }
          → Ends room c c
      unfolding cross
      ends room c v e = record {
        valid = v;
        same_finish = ap (prepend c.fills) (sym e);
        own = refl;
        unknown = λ j h. h;
      }

      pub outer-Ends :
          (fuel room : ℕ) (c : S)
          → room ≤ fuel
          → Ok orders_table levels_table i s price max_orders max_levels c
          → Ends room c (outer fuel room c)
      outer-Ends fuel zero c le v = rw (outer_full fuel c) (ends zero c v (unfold cross in refl))
      outer-Ends zero (suc room) c le v = absurd (omega arith)
      outer-Ends (suc fuel) (suc room) c le v = elim (Bool-cases (c.remaining == 0)) [
        | inl z ↦ rw (outer_filled fuel (suc room) c z) (
            ends (suc room) c v (
              rw ((==_iff c.remaining 0).0 z) (
                cross_done i s price (suc room)
                  (queue_of orders_table levels_table c.book (opposite s)))))
        | inr more ↦
            elim (peek orders_table levels_table max_orders max_levels c.book (opposite s) v) [
              | inl e ↦ rw (outer_empty fuel (suc room) c e) (
                  ends (suc room) c v
                    (rw e (unfold entries in cross_empty i s price (suc room) c.remaining)))
              | inr p ↦ elim (Bool-cases (crosses s price p.best.price)) [
                | inr apart ↦ rw (outer_apart fuel (suc room) c p apart) (
                    ends (suc room) c v (
                      let f =
                        queue-front orders_table levels_table max_orders max_levels c.book
                          (opposite s) p.best p.resting p.rest p.ls v p.front in
                      let at =
                        (front-Rests orders_table levels_table max_orders max_levels c.book
                          (opposite s) p.best p.resting p.rest p.ls v p.front).at_price in
                      rw f (
                        cross_apart i s price (suc room) c.remaining p.resting
                          (p.rest ++ entries p.ls) (rw at apart))))
                | inl meets ↦
                    let r = inner orders_table levels_table i s price (suc room) c in
                    let f =
                      inner-Rounds orders_table levels_table i s price max_orders max_levels room c
                        v p more meets
                        (inner-Inner orders_table levels_table i s price max_orders max_levels
                          room) in
                    rw (outer_round fuel room c p more meets) (
                      chained orders_table levels_table i s price max_orders max_levels (suc room)
                        r.1 0 c r.0 (outer fuel r.1 r.0) f.0
                        (outer-Ends fuel r.1 r.0 (omega (arith, f.1)) f.0.valid))
              ]
            ]
      ]
