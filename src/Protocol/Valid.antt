-- ===== src/Protocol/Valid.antt =====
-- When the fields of a message of apps/shared/protocol.hpp are values of their C++ types.
use low_latency_tick_to_trad.Prelude.{◌<◌}
use low_latency_tick_to_trad.Protocol.{
  ModifyReject, CancelOrder, CancelReject, MarketDataUpdate, CancelAck, OrderAck, ModifyOrder,
  OrderReject, ModifyAck, NewOrder, FillReport,
}
use low_latency_tick_to_trad.Wire.{limit}
use low_latency_tick_to_trad.Wire.Laws.{Fits64}

pub record FitsMarketDataUpdate (m : MarketDataUpdate) : Type 0 where
  pub seq_num : m.seq_num < limit 8
  pub symbol_id : m.symbol_id < limit 4
  pub md_msg_type : m.md_msg_type < limit 1
  pub side : m.side < limit 1
  pub price : Fits64 m.price
  pub qty : m.qty < limit 4
  pub exchange_ts : Fits64 m.exchange_ts

pub record FitsNewOrder (m : NewOrder) : Type 0 where
  pub client_order_id : m.client_order_id < limit 8
  pub symbol_id : m.symbol_id < limit 4
  pub side : m.side < limit 1
  pub price : Fits64 m.price
  pub qty : m.qty < limit 4
  pub send_ts : Fits64 m.send_ts

pub record FitsCancelOrder (m : CancelOrder) : Type 0 where
  pub client_order_id : m.client_order_id < limit 8
  pub symbol_id : m.symbol_id < limit 4
  pub send_ts : Fits64 m.send_ts

pub record FitsModifyOrder (m : ModifyOrder) : Type 0 where
  pub client_order_id : m.client_order_id < limit 8
  pub symbol_id : m.symbol_id < limit 4
  pub new_price : Fits64 m.new_price
  pub new_qty : m.new_qty < limit 4
  pub send_ts : Fits64 m.send_ts

pub record FitsOrderAck (m : OrderAck) : Type 0 where
  pub client_order_id : m.client_order_id < limit 8
  pub exchange_order_id : m.exchange_order_id < limit 8
  pub send_ts : Fits64 m.send_ts

pub record FitsOrderReject (m : OrderReject) : Type 0 where
  pub client_order_id : m.client_order_id < limit 8
  pub reason : m.reason < limit 1
  pub send_ts : Fits64 m.send_ts

pub record FitsFillReport (m : FillReport) : Type 0 where
  pub client_order_id : m.client_order_id < limit 8
  pub exchange_order_id : m.exchange_order_id < limit 8
  pub fill_price : Fits64 m.fill_price
  pub fill_qty : m.fill_qty < limit 4
  pub remaining_qty : m.remaining_qty < limit 4
  pub send_ts : Fits64 m.send_ts

pub record FitsCancelAck (m : CancelAck) : Type 0 where
  pub client_order_id : m.client_order_id < limit 8
  pub send_ts : Fits64 m.send_ts

pub record FitsCancelReject (m : CancelReject) : Type 0 where
  pub client_order_id : m.client_order_id < limit 8
  pub reason : m.reason < limit 1
  pub send_ts : Fits64 m.send_ts

pub record FitsModifyAck (m : ModifyAck) : Type 0 where
  pub client_order_id : m.client_order_id < limit 8
  pub new_exchange_order_id : m.new_exchange_order_id < limit 8
  pub send_ts : Fits64 m.send_ts

pub record FitsModifyReject (m : ModifyReject) : Type 0 where
  pub client_order_id : m.client_order_id < limit 8
  pub reason : m.reason < limit 1
  pub send_ts : Fits64 m.send_ts
