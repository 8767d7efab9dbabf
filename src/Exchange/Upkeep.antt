-- ===== src/Exchange/Upkeep.antt =====
-- Cancels, modifies and disconnects of apps/simulated_exchange/exchange_core.hpp keep every book
-- consistent and not crossed.
use low_latency_tick_to_trad.Prelude.{
  ℕ, ◌+◌, ◌*◌, ◌%◌, ◌≤◌, ◌<◌, ◌≡◌, refl, Bool, Option, none, some, List, arith, ltb, ◌==◌,
  if◌then◌else◌, length, Bool-cases, inl, inr, ◌≡◌,
}
use low_latency_tick_to_trad.Types.{Price, OrderId, Qty, Side}
use low_latency_tick_to_trad.Prelude.Word.{u32}
use low_latency_tick_to_trad.Protocol.{CancelOrder, ModifyOrder}
use low_latency_tick_to_trad.Book.Inv.{IsValid}
use low_latency_tick_to_trad.Book.Cancel.{cancel_order-Cancels}
use low_latency_tick_to_trad.Engine.Uncrossed.{cancel_order-Uncrossed}
use low_latency_tick_to_trad.Engine.Modify.{modify_order-Modifies}
use low_latency_tick_to_trad.Engine.Outcome.{submit_order_fair}
use low_latency_tick_to_trad.Exchange.{
  Core, Config, Engine, set_book, IdEntry, max_client_order_id, symbol_index, make_composite_key,
  u64, ReverseIdEntry,
}
use low_latency_tick_to_trad.Exchange.Frames.{
  emit-Emits, emit_fills-Emits, Ends, Ends-bind, Emits-Ends, then-Ends, Matched, known-Emits,
}
use low_latency_tick_to_trad.Exchange.Serves.{
  Fine, Serves, Ends-Serves, emit-Serves, set_book-Fine, Serves-if, most_events, remember-Framed,
}
use low_latency_tick_to_trad.Exchange.Changes.{
  cancel_known, cancel_at, cancel_order, replace, modify_known, modify_at, modify_order,
}
use low_latency_tick_to_trad.Exchange.Requests.{remember}
use low_latency_tick_to_trad.Engine
use low_latency_tick_to_trad.Book

module _ (x : Config) (max_orders max_levels : ℕ → ℕ) where
  pub cancelled-Fine :
      (books : ℕ → Engine x) (i : ℕ) (id : OrderId)
      → Fine x max_orders max_levels books
      → Fine x max_orders max_levels
          (λ j. if j == i then (Book.cancel_order x.orders x.levels (books i) id).0 else books j)
  cancelled-Fine books i id f = set_book-Fine x max_orders max_levels books i _ f (
    (cancel_order-Cancels x.orders x.levels (max_orders i) (max_levels i) (books i) id
        (f i).0).valid,
    cancel_order-Uncrossed x.orders x.levels (max_orders i) (max_levels i) (books i) id (f i).0
        (f i).1,
  )

  cancel_known-Serves :
      (session_id : ℕ) (cancel : CancelOrder) (i : ℕ) (c : Core x) (o : Option IdEntry)
      → x.ids.find c.id_map (make_composite_key session_id cancel.client_order_id) ≡ o
      → Fine x max_orders max_levels c.books
      → Serves x max_orders max_levels (Matched x c) c 1 (cancel_known x session_id cancel i c o)
  unfolding cancel_known
  cancel_known-Serves session_id cancel i c none h f =
      emit-Serves x max_orders max_levels (Matched x c) _ c 1 f (omega arith) (λ k. k)
  cancel_known-Serves session_id cancel i c (some entry) h f =
      let r = Book.cancel_order x.orders x.levels (c.books i) entry.exchange_id in
      let c' = set_book x c i r.0 in
      let fine = cancelled-Fine c.books i entry.exchange_id f in
      Serves-if x max_orders max_levels (Matched x c) c 1 r.1 _ _
        (Ends-Serves x max_orders max_levels (Matched x c) c' (0 + 1) 1 _ fine (omega arith) (
          Ends-bind x (Matched x c) 0 1 _ _ (λ k. k) (known-Emits x _ entry c' h)
            (λ b g p. Emits-Ends x b (Matched x c) 1 _ p (emit-Emits x _ b))))
        (emit-Serves x max_orders max_levels (Matched x c) _ c' 1 fine (omega arith) (λ k. k))

  cancel_at-Serves :
      (session_id : ℕ) (cancel : CancelOrder) (c : Core x) (o : Option ℕ)
      → Fine x max_orders max_levels c.books
      → Serves x max_orders max_levels (Matched x c) c 1 (cancel_at x session_id cancel c o)
  unfolding cancel_at
  cancel_at-Serves session_id cancel c none f =
      emit-Serves x max_orders max_levels (Matched x c) _ c 1 f (omega arith) (λ k. k)
  cancel_at-Serves session_id cancel c (some i) f =
      cancel_known-Serves session_id cancel i c _ refl f

  pub cancel_order-Serves :
      (session_id : ℕ) (cancel : CancelOrder) (c : Core x)
      → Fine x max_orders max_levels c.books
      → Serves x max_orders max_levels (Matched x c) c 1 (cancel_order x session_id cancel c)
  unfolding cancel_order
  cancel_order-Serves session_id cancel c f =
      Serves-if x max_orders max_levels (Matched x c) c 1
        (ltb max_client_order_id cancel.client_order_id) _ _
        (emit-Serves x max_orders max_levels (Matched x c) _ c 1 f (omega arith) (λ k. k))
        (cancel_at-Serves session_id cancel c (symbol_index x c cancel.symbol_id) f)

  pub replace-Ends :
      (session_id : ℕ) (modify : ModifyOrder) (e : IdEntry) (i : ℕ) (book : Engine x)
      (fills : List Engine.Fill) (rested : Bool) (c : Core x)
      → x.ids.find c.id_map (make_composite_key session_id modify.client_order_id) ≡ some e
      → Ends x ⊥ c
          (0 + (0 + (1 + 4 * length fills)))
          (replace x session_id modify e i book fills rested c)
  unfolding replace
  replace-Ends session_id modify e i book fills rested c h =
      let key = make_composite_key session_id modify.client_order_id in
      let entry : IdEntry = record e { exchange_id = i } in
      let maker : ReverseIdEntry = record {
        session_id = session_id;
        client_order_id = modify.client_order_id;
        symbol_id = e.symbol_id;
        send_ts = modify.send_ts;
      } in
      Ends-bind x ⊥ 0 (0 + (1 + 4 * length fills)) _ _ (λ k. absurd k) (known-Emits x key e c h)
        (λ erased g p.
          then-Ends x ⊥ 0 (1 + 4 * length fills) _
            (remember-Framed x max_orders max_levels key entry maker erased rested)
            (Ends-bind x ⊥ 1 (4 * length fills) _ _ (λ k. absurd k)
              (emit-Emits x _ (if rested then remember x key entry maker erased else erased))
              (λ b f p.
                Emits-Ends x b ⊥ (4 * length fills) _ (λ k. absurd k)
                  (emit_fills-Emits x book _ modify.new_qty fills b))))

  modified_few :
      (i : ℕ) (b : Engine x) (old : OrderId) (s : Side) (price : Price) (qty : Qty) (new : OrderId)
      → IsValid x.orders x.levels (max_orders i) (max_levels i) b
      → qty < u32
      → length (Engine.modify_order x.orders x.levels x.max_fills b old s price qty new).1.fills
        ≤ x.max_fills
  unfolding Engine.modify_order
  modified_few i b old s price qty new v h =
      elim (Bool-cases (Book.cancel_order x.orders x.levels b old).1) [
        | inl e ↦ rw e (
            (submit_order_fair x.orders x.levels x.max_fills (max_orders i) (max_levels i) _ new s
              price qty
              (cancel_order-Cancels x.orders x.levels (max_orders i) (max_levels i) b old v).valid
              h).1)
        | inr e ↦ rw e (omega arith)
      ]

  modify_known-Serves :
      (session_id : ℕ) (modify : ModifyOrder) (i : ℕ) (c : Core x) (o : Option IdEntry)
      → x.ids.find c.id_map (make_composite_key session_id modify.client_order_id) ≡ o
      → Fine x max_orders max_levels c.books
      → modify.new_qty < u32
      → Serves x max_orders max_levels ⊥ c
          (most_events x max_orders max_levels)
          (modify_known x session_id modify i c o)
  unfolding modify_known
  modify_known-Serves session_id modify i c none o f h =
      emit-Serves x max_orders max_levels ⊥ _ c _ f (omega arith) (λ k. absurd k)
  modify_known-Serves session_id modify i c (some e) o f h =
      let r =
        Engine.modify_order x.orders x.levels x.max_fills (c.books i) e.exchange_id e.side
          modify.new_price modify.new_qty c.next_exchange_id in
      let c' : Core x =
        set_book x (record c { next_exchange_id = (c.next_exchange_id + 1) % u64 }) i r.0 in
      let done =
        modify_order-Modifies x.orders x.levels (max_orders i) (max_levels i) x.max_fills
          (c.books i) e.exchange_id e.side modify.new_price modify.new_qty c.next_exchange_id
          (f i).0 (f i).1 h in
      let fine =
        set_book-Fine x max_orders max_levels c.books i r.0 f (done.valid, done.uncrossed) in
      let few =
        modified_few i (c.books i) e.exchange_id e.side modify.new_price modify.new_qty
          c.next_exchange_id (f i).0 h in
      Serves-if x max_orders max_levels ⊥ c (most_events x max_orders max_levels) r.1.success _ _
        (Ends-Serves x max_orders max_levels ⊥ c' (0 + (0 + (1 + 4 * length r.1.fills))) _ _ fine
          (omega (arith, few))
          (replace-Ends session_id modify e c.next_exchange_id r.0 r.1.fills r.1.rested c' o))
        (emit-Serves x max_orders max_levels ⊥ _ c' _ fine (omega arith) (λ k. absurd k))

  modify_at-Serves :
      (session_id : ℕ) (modify : ModifyOrder) (c : Core x) (o : Option ℕ)
      → Fine x max_orders max_levels c.books
      → modify.new_qty < u32
      → Serves x max_orders max_levels ⊥ c
          (most_events x max_orders max_levels)
          (modify_at x session_id modify c o)
  unfolding modify_at
  modify_at-Serves session_id modify c none f h =
      emit-Serves x max_orders max_levels ⊥ _ c _ f (omega arith) (λ k. absurd k)
  modify_at-Serves session_id modify c (some i) f h =
      modify_known-Serves session_id modify i c _ refl f h

  pub modify_order-Serves :
      (session_id : ℕ) (modify : ModifyOrder) (c : Core x)
      → Fine x max_orders max_levels c.books
      → modify.new_qty < u32
      → Serves x max_orders max_levels ⊥ c
          (most_events x max_orders max_levels)
          (modify_order x session_id modify c)
  unfolding modify_order
  modify_order-Serves session_id modify c f h =
      Serves-if x max_orders max_levels ⊥ c (most_events x max_orders max_levels)
        (ltb max_client_order_id modify.client_order_id) _ _
        (emit-Serves x max_orders max_levels ⊥ _ c _ f (omega arith) (λ k. absurd k))
        (modify_at-Serves session_id modify c (symbol_index x c modify.symbol_id) f h)
