-- ===== src/Exchange/Fills.antt =====
-- The events of fills (apps/simulated_exchange/exchange_core.hpp): `emit_maker_fill`, `emit_bbo` and the
-- loop over the fills of an order.
use low_latency_tick_to_trad.Prelude.{ℕ, Option, none, some, List, [], ◌∷◌, if◌then◌else◌}
use low_latency_tick_to_trad.Types.{OrderId, Qty, Side, bid, ask, opposite}
use low_latency_tick_to_trad.Prelude.Word.{sub32}
use low_latency_tick_to_trad.Book.{order_qty, has_order, PriceLevel}
use low_latency_tick_to_trad.Engine.{Fill}
use low_latency_tick_to_trad.Exchange.{
  Core, Config, Engine, emit, event, fill, bbo_event, make_composite_key, ◌>>=◌, ReverseIdEntry,
  ExchangeEvent, erase_ids,
}
use low_latency_tick_to_trad.Prelude.Int.{ℤ}

module _ (x : Config) where
  -- The event for the maker, if it is known.
  unfoldable pub tell_maker :
      Engine x → Fill → Side → Core x → Option ReverseIdEntry → Option (Core x)
  tell_maker book f taker_side c none = some c
  tell_maker book f taker_side c (some maker) = do
    c' ←
        emit x
          (record (event fill) {
            session_id = maker.session_id;
            client_order_id = maker.client_order_id;
            exchange_order_id = f.maker_id;
            symbol_id = maker.symbol_id;
            side = opposite taker_side;
            price = f.price;
            qty = f.qty;
            remaining_qty = order_qty x.orders x.levels book f.maker_id;
            send_ts = maker.send_ts;
          })
          c
    let key = make_composite_key maker.session_id maker.client_order_id in
        if has_order x.orders x.levels book f.maker_id
        then some c'
        else erase_ids x key f.maker_id c'

  unfoldable pub emit_maker_fill : Engine x → Fill → Side → Core x → Option (Core x)
  unfolding tell_maker
  emit_maker_fill book f taker_side c =
      tell_maker book f taker_side c (x.reverse_ids.find c.reverse_id_map f.maker_id)

  -- The best level of a ladder, if there is one.
  unfoldable pub emit_best : ℕ → Side → List PriceLevel → Core x → Option (Core x)
  emit_best symbol_id s [] c = some c
  emit_best symbol_id s (best ∷ _) c =
      emit x
        (record (event bbo_event) {
          symbol_id = symbol_id;
          side = s;
          price = best.price;
          qty = best.total_qty;
        })
        c

  unfoldable pub emit_bbo : Engine x → ℕ → Core x → Option (Core x)
  unfolding emit_best
  emit_bbo book symbol_id c = do
    c' ← emit_best symbol_id bid book.bids c
    emit_best symbol_id ask book.asks c'

  -- What the fill events of one taker have in common.
  pub record Taker : Type 0 where
    pub session_id : ℕ
    pub client_order_id : ℕ
    pub exchange_id : OrderId
    pub symbol_id : ℕ
    pub side : Side
    pub send_ts : ℤ

  -- The taker's event, with the quantity that remains.
  abbrev pub taker_fill : Taker → Fill → Qty → ExchangeEvent
  taker_fill t f remaining = record (event fill) {
    session_id = t.session_id;
    client_order_id = t.client_order_id;
    exchange_order_id = t.exchange_id;
    symbol_id = t.symbol_id;
    side = t.side;
    price = f.price;
    qty = f.qty;
    remaining_qty = remaining;
    send_ts = t.send_ts;
  }

  -- One round of the loop over the fills.
  unfoldable pub emit_fill : Engine x → Taker → Fill → Qty → Core x → Option (Core x)
  unfolding emit_maker_fill emit_bbo
  emit_fill book t f remaining c = do
    c' ← emit x (taker_fill t f remaining) c
    c'' ← emit_maker_fill book f t.side c'
    emit_bbo book t.symbol_id c''

  unfoldable pub emit_fills : Engine x → Taker → Qty → List Fill → Core x → Option (Core x)
  unfolding emit_fill
  emit_fills book t remaining [] c = some c
  emit_fills book t remaining (f ∷ fs) c = do
    c' ← emit_fill book t f (sub32 remaining f.qty) c
    emit_fills book t (sub32 remaining f.qty) fs c'
