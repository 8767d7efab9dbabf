-- ===== src/Exchange/Requests.antt =====
-- New orders (apps/simulated_exchange/exchange_core.hpp): `submit_order`, and the answers to requests.
use low_latency_tick_to_trad.Prelude.{
  ℕ, zero, suc, ◌+◌, ◌%◌, Bool, true, not, ◌||◌, Option, none, some, List, ltb, if◌then◌else◌,
}
use low_latency_tick_to_trad.Types.{Price, OrderId, Qty, Side, bid, ask}
use low_latency_tick_to_trad.Protocol.{NewOrder}
use low_latency_tick_to_trad.Exchange.{
  Core, Config, Engine, emit, event, make_composite_key, ◌>>=◌, ReverseIdEntry, IdEntry,
  symbol_index, set_book, ExchangeEvent, EventType, RejectReason, order_accepted, order_rejected,
  max_client_order_id, u64, book_full, invalid_order_id, unknown_symbol, duplicate_order_id,
  is_some,
}
use low_latency_tick_to_trad.Exchange.Fills.{emit_fills}
use low_latency_tick_to_trad.Prelude.Int.{ℤ}
use low_latency_tick_to_trad.Book.{is_nil}
use low_latency_tick_to_trad.Engine

-- The byte of a side; no request with another byte is decoded.
abbrev pub side_of_code : ℕ → Side
side_of_code zero = bid
side_of_code (suc _) = ask

abbrev pub answer : EventType → ℕ → ℕ → ℤ → ExchangeEvent
answer t session_id client_order_id send_ts = record (event t) {
  session_id = session_id;
  client_order_id = client_order_id;
  send_ts = send_ts;
}

abbrev pub reject : EventType → ℕ → ℕ → ℕ → ℤ → RejectReason → ExchangeEvent
reject t session_id client_order_id symbol_id send_ts reason =
    record (answer t session_id client_order_id send_ts) { symbol_id = symbol_id; reason = reason }

abbrev pub acknowledge : EventType → ℕ → ℕ → ℕ → ℕ → ℤ → ExchangeEvent
acknowledge t session_id client_order_id exchange_id symbol_id send_ts =
    record (answer t session_id client_order_id send_ts) {
      exchange_order_id = exchange_id;
      symbol_id = symbol_id;
    }

module _ (x : Config) where
  abbrev engine_submit :
      Engine x → OrderId → Side → Price → Qty → Engine x × Engine.MatchResult x.orders x.levels
  engine_submit = Engine.submit_order x.orders x.levels x.max_fills

  -- An insertion whose answer is ignored.
  abbrev pub remember : ℕ → IdEntry → ReverseIdEntry → Core x → Core x
  remember key entry maker c = record c {
    id_map = elim (x.ids.insert c.id_map key entry) [ none ↦ c.id_map | some m ↦ m ];
    reverse_id_map = elim (x.reverse_ids.insert c.reverse_id_map entry.exchange_id maker) [
      | none ↦ c.reverse_id_map
      | some m ↦ m
    ];
  }

  -- The answers to an order that the engine has taken.
  unfoldable pub accept :
      ℕ → NewOrder → ℕ → Engine x → List Engine.Fill → Bool → Core x → Option (Core x)
  unfolding emit_fills
  accept session_id order exchange_id book fills rested c = do
    acked ←
        emit x
          (acknowledge order_accepted session_id order.client_order_id exchange_id order.symbol_id
            order.send_ts)
          c
    filled ←
        emit_fills x book
          (record {
            session_id = session_id;
            client_order_id = order.client_order_id;
            exchange_id = exchange_id;
            symbol_id = order.symbol_id;
            side = side_of_code order.side;
            send_ts = order.send_ts;
          })
          order.qty fills acked
    some (
        if rested
        then remember (make_composite_key session_id order.client_order_id)
            (record {
              exchange_id = exchange_id;
              side = side_of_code order.side;
              symbol_id = order.symbol_id;
            })
            (record {
              session_id = session_id;
              client_order_id = order.client_order_id;
              symbol_id = order.symbol_id;
              send_ts = order.send_ts;
            })
            filled
        else filled)

  -- `submit_order`, once the id is recorded as seen.
  unfoldable pub submit_new : ℕ → NewOrder → ℕ → Core x → Option (Core x)
  unfolding accept
  submit_new session_id order i c =
      let r =
        engine_submit (c.books i) c.next_exchange_id (side_of_code order.side) order.price
          order.qty in
      let c' = set_book x (record c { next_exchange_id = (c.next_exchange_id + 1) % u64 }) i r.0 in
      if r.1.rested || not (is_nil r.1.fills)
      then accept session_id order c.next_exchange_id r.0 r.1.fills r.1.rested c'
      else emit x
          (reject order_rejected session_id order.client_order_id order.symbol_id order.send_ts
            book_full)
          c'

  -- With the map of the ids seen, if it has taken the id.
  unfoldable pub submit_unseen : ℕ → NewOrder → ℕ → Core x → Option x.seen.Map → Option (Core x)
  unfolding submit_new
  submit_unseen session_id order i c none =
      emit x
        (reject order_rejected session_id order.client_order_id order.symbol_id order.send_ts
          book_full)
        c
  submit_unseen session_id order i c (some m) =
      submit_new session_id order i (record c { seen_orders = m })

  -- With the index of the symbol, if it is registered.
  unfoldable pub submit_at : ℕ → NewOrder → Core x → Option ℕ → Option (Core x)
  unfolding submit_unseen
  submit_at session_id order c none =
      emit x
        (reject order_rejected session_id order.client_order_id order.symbol_id order.send_ts
          unknown_symbol)
        c
  submit_at session_id order c (some i) =
      let key = make_composite_key session_id order.client_order_id in
      if is_some (x.seen.find c.seen_orders key)
      then emit x
          (reject order_rejected session_id order.client_order_id order.symbol_id order.send_ts
            duplicate_order_id)
          c
      else submit_unseen session_id order i c (x.seen.insert c.seen_orders key true)

  unfoldable pub submit_order : ℕ → NewOrder → Core x → Option (Core x)
  unfolding submit_at
  submit_order session_id order c =
      if ltb max_client_order_id order.client_order_id
      then emit x
          (reject order_rejected session_id order.client_order_id 0 order.send_ts invalid_order_id)
          c
      else submit_at session_id order c (symbol_index x c order.symbol_id)
