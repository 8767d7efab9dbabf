-- ===== src/Engine/Modify.antt =====
-- `modify_order` of libs/algo/matching_engine.hpp: cancel, then submit again under a new id.
use low_latency_tick_to_trad.Prelude.{
  ℕ, ◌<◌, ◌≡◌, refl, sym, subst, ◌∙◌, ap, true, false, none, List, [], ◌==◌, ==_iff, Bool-cases,
  inl, inr, ◌⊎◌, arith,
}
use low_latency_tick_to_trad.Table.{Table}
use low_latency_tick_to_trad.Types.{OrderId, Price, Side, Qty, opposite}
use low_latency_tick_to_trad.Book.{Handle, Order, has_order, cancel_order, erase_order}
use low_latency_tick_to_trad.Book.Inv.{Book, queue_of, IsValid, on_side}
use low_latency_tick_to_trad.Engine.{modify_order, ModifyResult}
use low_latency_tick_to_trad.Engine.Uncrossed.{
  Uncrossed, cancel_order-Uncrossed, submit_order-Uncrossed,
}
use low_latency_tick_to_trad.Prelude.Word.{u32}
use low_latency_tick_to_trad.Engine.Spec.{cross}
use low_latency_tick_to_trad.Book.Cancel.{Cancels, cancel_order-Cancels}
use low_latency_tick_to_trad.Book.Queue.{where_is, erase_order-absent}
use low_latency_tick_to_trad.Book.Adding.{has_order-find}
use low_latency_tick_to_trad.Engine.Result.{submit_order-Submits}

module _ (orders_table : Table OrderId Handle) (levels_table : Table Price (Unit {0})) where
  abbrev B : Type 0
  B = Book orders_table levels_table

  abbrev queue : B → Side → List Order
  queue = queue_of orders_table levels_table

  -- An unknown id changes nothing. A known one leaves its queue, and the new order trades with what
  -- is left of the other side as one that is submitted; the book stays consistent and not crossed.
  pub record Modifies (max_orders max_levels max_fills : ℕ) (b : B) (old_id : OrderId) (s : Side)
      (price : Price) (qty : Qty) (new_id : OrderId)
      (r : B × ModifyResult orders_table levels_table) : Type 0 where
    pub valid : IsValid orders_table levels_table max_orders max_levels r.0
    pub uncrossed : Uncrossed orders_table levels_table r.0
    pub answer : r.1.success ≡ has_order orders_table levels_table b old_id
    pub unknown : r.1.success ≡ false → (r.1.fills ≡ []) × ((t : Side) → queue r.0 t ≡ queue b t)
    pub submitted :
        r.1.success ≡ true
        → 0 < qty
        → ((new_id == old_id) ≡ true) ⊎ (has_order orders_table levels_table b new_id ≡ false)
        → (r.1.fills
            ≡ (cross new_id s price max_fills qty
                (erase_order old_id (queue b (opposite s)))).fills)
          × (r.1.remaining_qty
              ≡ (cross new_id s price max_fills qty
                  (erase_order old_id (queue b (opposite s)))).remaining)
          × (queue r.0 (opposite s)
              ≡ (cross new_id s price max_fills qty
                  (erase_order old_id (queue b (opposite s)))).resting)

  -- On a consistent book that is not crossed and for a quantity below 2 ^ 32, the engine's
  -- `modify_order` succeeds exactly if the old id is known. If it is not, there are no fills and
  -- both queues are as they were. If it is, and the new quantity is positive and the new id is the
  -- old one or unknown, the new order trades as the reference says with the other side's queue
  -- without the old order. The book stays consistent and is not crossed.
  pub modify_order-Modifies :
      (max_orders max_levels max_fills : ℕ) (b : B) (old_id : OrderId) (s : Side) (price : Price)
      (qty : Qty) (new_id : OrderId)
      → IsValid orders_table levels_table max_orders max_levels b
      → Uncrossed orders_table levels_table b
      → qty < u32
      → Modifies max_orders max_levels max_fills b old_id s price qty new_id
          (modify_order orders_table levels_table max_fills b old_id s price qty new_id)
  unfolding modify_order
  modify_order-Modifies n k room b i s price qty j v u fits =
      elim (Bool-cases (cancel_order orders_table levels_table b i).1) [
        | inr e ↦ rw e (record {
          valid = c.valid;
          uncrossed = clear;
          answer = sym e ∙ c.answer;
          unknown = λ x. (
            refl,
            λ t. c.queues t ∙ erase_order-absent i (queue b t) (absent t (sym c.answer ∙ e)),
          );
          submitted = λ x. cc;
        })
        | inl e ↦
            let w =
              submit_order-Uncrossed orders_table levels_table room n k cancelled j s price qty
                c.valid clear fits in
            rw e (record {
              valid = w.0;
              uncrossed = w.1;
              answer = sym e ∙ c.answer;
              unknown = λ x. cc;
              submitted = λ x some_qty fresh.
                  let r =
                    submit_order-Submits orders_table levels_table n k room cancelled j s price qty
                      c.valid some_qty fits (unknown fresh) in
                  rw (← c.queues (opposite s)) (r.fills, r.remaining, r.others);
            })
      ]
    where
      cancelled : B
      cancelled = (cancel_order orders_table levels_table b i).0

      c : Cancels orders_table levels_table n k b i (cancel_order orders_table levels_table b i)
      c = cancel_order-Cancels orders_table levels_table n k b i v

      clear : Uncrossed orders_table levels_table cancelled
      clear = cancel_order-Uncrossed orders_table levels_table n k b i v u

      absent :
          (t : Side)
          → has_order orders_table levels_table b i ≡ false
          → where_is i (queue b t) ≡ none
      absent t h =
          v.orders.map_knows t i ∙ ap (on_side t) (has_order-find orders_table levels_table b i h)

      unknown :
          ((j == i) ≡ true) ⊎ (has_order orders_table levels_table b j ≡ false)
          → has_order orders_table levels_table cancelled j ≡ false
      unknown (inl y) =
          subst (λ x. has_order orders_table levels_table cancelled x ≡ false)
            (sym ((==_iff j i).0 y)) c.gone
      unknown (inr h) =
          unfold has_order in
          ground (arith, c.knows j, has_order-find orders_table levels_table b j h)
