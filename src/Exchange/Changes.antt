-- ===== src/Exchange/Changes.antt =====
-- Cancels and modifies of resting orders (apps/simulated_exchange/exchange_core.hpp): `cancel_order` and
-- `modify_order`.
use low_latency_tick_to_trad.Prelude.{
  ℕ, ◌+◌, ◌%◌, Bool, Option, none, some, List, ltb, if◌then◌else◌,
}
use low_latency_tick_to_trad.Protocol.{CancelOrder, ModifyOrder}
use low_latency_tick_to_trad.Exchange.{
  Core, Config, Engine, emit, make_composite_key, ◌>>=◌, IdEntry, symbol_index, set_book,
  cancel_ack, cancel_rejected, modify_ack, modify_rejected, max_client_order_id, u64,
  order_not_found, invalid_order_id, unknown_symbol, erase_ids,
}
use low_latency_tick_to_trad.Exchange.Fills.{emit_fills}
use low_latency_tick_to_trad.Book.{is_nil}
use low_latency_tick_to_trad.Exchange.Requests.{answer, reject, acknowledge, remember}
use low_latency_tick_to_trad.Engine
use low_latency_tick_to_trad.Book

module _ (x : Config) where
  -- With the entry of the order, if it is known.
  unfoldable pub cancel_known : ℕ → CancelOrder → ℕ → Core x → Option IdEntry → Option (Core x)
  cancel_known session_id cancel i c none =
      emit x
        (reject cancel_rejected session_id cancel.client_order_id 0 cancel.send_ts order_not_found)
        c
  cancel_known session_id cancel i c (some entry) =
      let r = Book.cancel_order x.orders x.levels (c.books i) entry.exchange_id in
      let c' = set_book x c i r.0 in
      if r.1
      then (do
        erased ←
            erase_ids x (make_composite_key session_id cancel.client_order_id) entry.exchange_id c'
        emit x (answer cancel_ack session_id cancel.client_order_id cancel.send_ts) erased)
      else emit x
          (reject cancel_rejected session_id cancel.client_order_id 0 cancel.send_ts
            order_not_found)
          c'

  unfoldable pub cancel_at : ℕ → CancelOrder → Core x → Option ℕ → Option (Core x)
  unfolding cancel_known
  cancel_at session_id cancel c none =
      emit x
        (reject cancel_rejected session_id cancel.client_order_id 0 cancel.send_ts unknown_symbol) c
  cancel_at session_id cancel c (some i) =
      cancel_known session_id cancel i c
        (x.ids.find c.id_map (make_composite_key session_id cancel.client_order_id))

  unfoldable pub cancel_order : ℕ → CancelOrder → Core x → Option (Core x)
  unfolding cancel_at
  cancel_order session_id cancel c =
      if ltb max_client_order_id cancel.client_order_id
      then emit x
          (reject cancel_rejected session_id cancel.client_order_id 0 cancel.send_ts
            invalid_order_id)
          c
      else cancel_at session_id cancel c (symbol_index x c cancel.symbol_id)

  -- The answers to a modify that the engine has carried out.
  unfoldable pub replace :
      ℕ → ModifyOrder → IdEntry → ℕ → Engine x → List Engine.Fill → Bool → Core x → Option (Core x)
  unfolding emit_fills
  replace session_id modify entry new_id book fills rested c =
      let key = make_composite_key session_id modify.client_order_id in
      do
        erased ← erase_ids x key entry.exchange_id c
        acked ←
            emit x
              (acknowledge modify_ack session_id modify.client_order_id new_id modify.symbol_id
                modify.send_ts)
              (if rested
                then remember x key (record entry { exchange_id = new_id })
                    (record {
                      session_id = session_id;
                      client_order_id = modify.client_order_id;
                      symbol_id = entry.symbol_id;
                      send_ts = modify.send_ts;
                    })
                    erased
                else erased)
        emit_fills x book
            (record {
              session_id = session_id;
              client_order_id = modify.client_order_id;
              exchange_id = new_id;
              symbol_id = modify.symbol_id;
              side = entry.side;
              send_ts = modify.send_ts;
            })
            modify.new_qty fills acked

  -- With the entry of the order, if it is known.
  unfoldable pub modify_known : ℕ → ModifyOrder → ℕ → Core x → Option IdEntry → Option (Core x)
  unfolding replace
  modify_known session_id modify i c none =
      emit x
        (reject modify_rejected session_id modify.client_order_id 0 modify.send_ts order_not_found)
        c
  modify_known session_id modify i c (some entry) =
      let new_id = c.next_exchange_id in
      let r =
        Engine.modify_order x.orders x.levels x.max_fills (c.books i) entry.exchange_id entry.side
          modify.new_price modify.new_qty new_id in
      let c' = set_book x (record c { next_exchange_id = (new_id + 1) % u64 }) i r.0 in
      if r.1.success
      then replace session_id modify entry new_id r.0 r.1.fills r.1.rested c'
      else emit x
          (reject modify_rejected session_id modify.client_order_id 0 modify.send_ts
            order_not_found)
          c'

  unfoldable pub modify_at : ℕ → ModifyOrder → Core x → Option ℕ → Option (Core x)
  unfolding modify_known
  modify_at session_id modify c none =
      emit x
        (reject modify_rejected session_id modify.client_order_id 0 modify.send_ts unknown_symbol) c
  modify_at session_id modify c (some i) =
      modify_known session_id modify i c
        (x.ids.find c.id_map (make_composite_key session_id modify.client_order_id))

  unfoldable pub modify_order : ℕ → ModifyOrder → Core x → Option (Core x)
  unfolding modify_at
  modify_order session_id modify c =
      if ltb max_client_order_id modify.client_order_id
      then emit x
          (reject modify_rejected session_id modify.client_order_id 0 modify.send_ts
            invalid_order_id)
          c
      else modify_at session_id modify c (symbol_index x c modify.symbol_id)
