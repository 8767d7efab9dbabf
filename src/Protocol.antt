-- ===== src/Protocol.antt =====
-- apps/shared/protocol.hpp: the messages between the trading pipeline and the exchange. A field of an
-- enumeration is its underlying byte, as any byte may arrive; the codes of the enumerators are named.
pub mod Valid
use low_latency_tick_to_trad.Prelude.{
  ℕ, zero, suc, ◌+◌, ◌-◌, ◌*◌, ◌%◌, ◌≤◌, ◌<◌, ◌≡◌, ◌≢◌, refl, sym, subst, ◌∙◌, ap, Bool, true,
  false, not, ◌&&◌, ◌||◌, Option, none, some, List, [], ◌∷◌, ◌++◌, arith, ltb, leb, ◌==◌, ==_iff,
  if◌then◌else◌, length, length-append, append-nil, append_assoc, min, max, Bool-cases,
  Option-cases, inl, inr, ◌⊎◌,
}
use low_latency_tick_to_trad.Prelude.Int.{ℤ}
use low_latency_tick_to_trad.Types.{Side, Price, Qty, bid, ask}

-- `algo::Side::kBid` and `kAsk` as they travel
abbrev pub side_code : Side → ℕ
side_code bid = 0
side_code ask = 1

-- `MdMsgType`
abbrev pub bbo_update : ℕ
bbo_update = 0

abbrev pub trade : ℕ
trade = 1

pub record MarketDataUpdate : Type 0 where
  pub seq_num : ℕ
  pub symbol_id : ℕ
  pub md_msg_type : ℕ
  pub side : ℕ
  pub price : Price
  pub qty : Qty
  pub exchange_ts : ℤ

pub record NewOrder : Type 0 where
  pub client_order_id : ℕ
  pub symbol_id : ℕ
  pub side : ℕ
  pub price : Price
  pub qty : Qty
  pub send_ts : ℤ

pub record CancelOrder : Type 0 where
  pub client_order_id : ℕ
  pub symbol_id : ℕ
  pub send_ts : ℤ

pub record ModifyOrder : Type 0 where
  pub client_order_id : ℕ
  pub symbol_id : ℕ
  pub new_price : Price
  pub new_qty : Qty
  pub send_ts : ℤ

pub record OrderAck : Type 0 where
  pub client_order_id : ℕ
  pub exchange_order_id : ℕ
  pub send_ts : ℤ

pub record OrderReject : Type 0 where
  pub client_order_id : ℕ
  pub reason : ℕ
  pub send_ts : ℤ

pub record FillReport : Type 0 where
  pub client_order_id : ℕ
  pub exchange_order_id : ℕ
  pub fill_price : Price
  pub fill_qty : Qty
  pub remaining_qty : Qty
  pub send_ts : ℤ

pub record CancelAck : Type 0 where
  pub client_order_id : ℕ
  pub send_ts : ℤ

pub record CancelReject : Type 0 where
  pub client_order_id : ℕ
  pub reason : ℕ
  pub send_ts : ℤ

pub record ModifyAck : Type 0 where
  pub client_order_id : ℕ
  pub new_exchange_order_id : ℕ
  pub send_ts : ℤ

pub record ModifyReject : Type 0 where
  pub client_order_id : ℕ
  pub reason : ℕ
  pub send_ts : ℤ
