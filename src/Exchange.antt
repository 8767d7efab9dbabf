-- ===== src/Exchange.antt =====
-- apps/simulated_exchange/exchange_core.hpp: the exchange's engine per symbol, its sessions and the maps
-- between the ids of clients and its own. The event buffer is the list of its events; `none` is a call of
-- `std::abort` or a failed assertion. The arrays are functions of the index; each pointer into a map is the value found.
pub mod Fills
pub mod Requests
pub mod Changes
pub mod Sessions
pub mod Pairs
pub mod Frames
pub mod Serves
pub mod Upkeep
pub mod Server
pub mod Serving
pub mod Keys
pub mod Ids
pub mod Seen
pub mod StaysOn
pub mod Once
use low_latency_tick_to_trad.Prelude.{
  ℕ, zero, suc, ◌+◌, ◌-◌, ◌*◌, ◌%◌, Bool, true, ◌||◌, ◌&&◌, false, Option, none, some, List, [],
  ◌∷◌, ◌++◌, ltb, leb, ◌==◌, if◌then◌else◌, length, ◌/◌, ◌^◌,
}
use low_latency_tick_to_trad.Table.{Table}
use low_latency_tick_to_trad.Types.{Price, OrderId, Qty, Side, bid}
use low_latency_tick_to_trad.Book.{Handle, OrderBook}
use low_latency_tick_to_trad.Prelude.Int.{pos, ℤ}

pub data EventType : Type 0 where
  order_accepted order_rejected fill cancel_ack cancel_rejected modify_ack modify_rejected bbo_event
        session_assigned :
      EventType

pub data RejectReason : Type 0 where
  unknown duplicate_order_id book_full invalid_price invalid_qty order_not_found invalid_order_id
        unknown_symbol throttled :
      RejectReason

pub record ExchangeEvent : Type 0 where
  pub type : EventType
  pub session_id : ℕ
  pub request_seq : ℕ
  pub client_order_id : ℕ
  pub exchange_order_id : ℕ
  pub symbol_id : ℕ
  pub side : Side
  pub price : Price
  pub qty : Qty
  pub remaining_qty : Qty
  pub send_ts : ℤ
  pub reason : RejectReason

-- An event with its type; the other fields have their defaults.
abbrev pub event : EventType → ExchangeEvent
event t = record {
  type = t;
  session_id = 0;
  request_seq = 0;
  client_order_id = 0;
  exchange_order_id = 0;
  symbol_id = 0;
  side = bid;
  price = pos 0;
  qty = 0;
  remaining_qty = 0;
  send_ts = pos 0;
  reason = unknown;
}

pub record IdEntry : Type 0 where
  pub exchange_id : ℕ
  pub side : Side
  pub symbol_id : ℕ

pub record ReverseIdEntry : Type 0 where
  pub session_id : ℕ
  pub client_order_id : ℕ
  pub symbol_id : ℕ
  pub send_ts : ℤ

-- The maps that the exchange stands on, with what `for_each` visits, and its two bounds (`MaxFills` and `MaxSymbols`).
pub record Config : Type 1 where
  pub orders : Table OrderId Handle
  pub levels : Table Price (Unit {0})
  pub seen : Table ℕ Bool
  pub ids : Table ℕ IdEntry
  pub reverse_ids : Table ℕ ReverseIdEntry
  pub ids_for_each : ids.Map → List (ℕ × IdEntry)
  pub seen_for_each : seen.Map → List (ℕ × Bool)
  pub max_fills : ℕ
  pub max_symbols : ℕ

abbrev pub max_events : ℕ
max_events = 512

abbrev pub max_client_order_id : ℕ
max_client_order_id = 2 ^ 48 - 1

abbrev pub u64 : ℕ
u64 = 2 ^ 64

-- The two operands of the code's `|` have no bit in common, so it is a sum.
unfoldable pub make_composite_key : ℕ → ℕ → ℕ
make_composite_key session_id client_order_id =
    (session_id * 2 ^ 48) % u64 + client_order_id % 2 ^ 48

unfoldable pub extract_session_id : ℕ → ℕ
extract_session_id composite_key = composite_key / 2 ^ 48 % 2 ^ 16

infixl 5 ◌>>=◌
abbrev pub ◌>>=◌ : {A B : Type 0} → Option A → (A → Option B) → Option B
none >>= f = none
some a >>= f = f a

abbrev pub is_some : {A : Type 0} → Option A → Bool
is_some none = false
is_some (some _) = true

module _ (x : Config) where
  abbrev pub Engine : Type 0
  Engine = OrderBook x.orders x.levels

  pub record Core : Type 0 where
    pub books : ℕ → Engine
    pub active : ℕ → Bool
    pub next_exchange_id : ℕ
    pub events : List ExchangeEvent
    pub next_session_id : ℕ
    pub active_sessions : ℕ → Bool
    pub seen_orders : x.seen.Map
    pub id_map : x.ids.Map
    pub reverse_id_map : x.reverse_ids.Map

  -- `symbols_[i].engine` after a call that changes it
  abbrev pub set_book : Core → ℕ → Engine → Core
  set_book c i b = record c { books = λ j. if j == i then b else c.books j }

  unfoldable pub emit : ExchangeEvent → Core → Option Core
  emit e c =
      if leb max_events (length c.events)
      then none
      else some (record c { events = c.events ++ e ∷ [] })

  -- The index of a symbol that is registered.
  unfoldable pub symbol_index : Core → ℕ → Option ℕ
  symbol_index c symbol_id =
      if symbol_id == 0 || ltb x.max_symbols symbol_id
      then none
      else if c.active (symbol_id - 1)
      then some (symbol_id - 1)
      else none

  -- The erasures of an order's entries from both id maps, each of which answers whether its key was
  -- there. `none` is a failed assertion on one of the answers. The same pair of erasures stands in
  -- `emit_maker_fill`, `cancel_order`, `modify_order` and `on_client_disconnect`; as each erases from
  -- a map of its own, their order does not matter.
  unfoldable pub erase_ids : ℕ → OrderId → Core → Option Core
  erase_ids key exchange_id c =
      if is_some (x.ids.find c.id_map key)
        && is_some (x.reverse_ids.find c.reverse_id_map exchange_id)
      then some (record c {
        id_map = x.ids.erase c.id_map key;
        reverse_id_map = x.reverse_ids.erase c.reverse_id_map exchange_id;
      })
      else none

  -- The events and the buffer after.
  abbrev pub drain_events : Core → List ExchangeEvent × Core
  drain_events c = (c.events, record c { events = [] })

  -- The loop of `on_client_connect`, with the attempts left.
  unfoldable pub connect_from : ℕ → Core → Option (Core × ℕ)
  connect_from zero c = none
  connect_from (suc attempts) c =
      let id = if c.next_session_id == 0 then 1 else c.next_session_id in
      let next : Core = record c { next_session_id = (id + 1) % 2 ^ 16 } in
      let rest = connect_from attempts next in
      if c.active_sessions id
      then rest
      else some
          (record next { active_sessions = λ j. if j == id then true else c.active_sessions j }, id)

  unfoldable pub on_client_connect : Core → Option (Core × ℕ)
  unfolding connect_from
  on_client_connect c = connect_from 65535 c
