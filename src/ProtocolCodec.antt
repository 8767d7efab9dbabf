-- ===== src/ProtocolCodec.antt =====
-- apps/shared/protocol_codec.hpp: market data and the requests of the pipeline; Responses has the
-- messages of the exchange. A buffer is returned with the number of bytes written; the
-- stores stand in the order of the code, each with its width and offset.
pub mod Responses
pub mod RequestLaws
pub mod ResponseLaws
use low_latency_tick_to_trad.Prelude.{
  ℕ, zero, suc, ◌+◌, ◌-◌, ◌*◌, ◌%◌, ◌≤◌, ◌<◌, ◌≡◌, ◌≢◌, refl, sym, subst, ◌∙◌, ap, Bool, true,
  false, not, ◌&&◌, ◌||◌, Option, none, some, List, [], ◌∷◌, ◌++◌, arith, ltb, leb, ◌==◌, ==_iff,
  if◌then◌else◌, length, length-append, append-nil, append_assoc, min, max, Bool-cases,
  Option-cases, inl, inr, ◌⊎◌,
}
use low_latency_tick_to_trad.Protocol.{NewOrder, ModifyOrder, MarketDataUpdate, CancelOrder}
use low_latency_tick_to_trad.Wire.{Bytes, load_be, to_u64, from_u64}
use low_latency_tick_to_trad.Wire.Fields.{Field, store_all}

abbrev pub market_data_fields : MarketDataUpdate → List Field
market_data_fields m =
    (8, 0, m.seq_num)
    ∷ (4, 8, m.symbol_id)
    ∷ (1, 12, m.md_msg_type)
    ∷ (1, 13, m.side)
    ∷ (8, 14, to_u64 m.price)
    ∷ (4, 22, m.qty)
    ∷ (8, 26, to_u64 m.exchange_ts)
    ∷ []

unfoldable pub serialize_market_data : Bytes → MarketDataUpdate → Bytes × ℕ
serialize_market_data buf m =
    if ltb (length buf) 34 then (buf, 0) else (store_all (market_data_fields m) buf, 34)

unfoldable pub deserialize_market_data : Bytes → Option MarketDataUpdate
deserialize_market_data buf =
    if length buf == 34
    then some (record {
      seq_num = load_be 8 0 buf;
      symbol_id = load_be 4 8 buf;
      md_msg_type = load_be 1 12 buf;
      side = load_be 1 13 buf;
      price = from_u64 (load_be 8 14 buf);
      qty = load_be 4 22 buf;
      exchange_ts = from_u64 (load_be 8 26 buf);
    })
    else none

abbrev pub new_order_fields : NewOrder → List Field
new_order_fields m =
    (8, 0, m.client_order_id)
    ∷ (4, 8, m.symbol_id)
    ∷ (1, 12, m.side)
    ∷ (8, 13, to_u64 m.price)
    ∷ (4, 21, m.qty)
    ∷ (8, 25, to_u64 m.send_ts)
    ∷ []

unfoldable pub serialize_new_order : Bytes → NewOrder → Bytes × ℕ
serialize_new_order buf m =
    if ltb (length buf) 33 then (buf, 0) else (store_all (new_order_fields m) buf, 33)

unfoldable pub deserialize_new_order : Bytes → Option NewOrder
deserialize_new_order buf =
    if ltb (length buf) 33
    then none
    else some (record {
      client_order_id = load_be 8 0 buf;
      symbol_id = load_be 4 8 buf;
      side = load_be 1 12 buf;
      price = from_u64 (load_be 8 13 buf);
      qty = load_be 4 21 buf;
      send_ts = from_u64 (load_be 8 25 buf);
    })

abbrev pub cancel_order_fields : CancelOrder → List Field
cancel_order_fields m =
    (8, 0, m.client_order_id) ∷ (4, 8, m.symbol_id) ∷ (8, 12, to_u64 m.send_ts) ∷ []

unfoldable pub serialize_cancel_order : Bytes → CancelOrder → Bytes × ℕ
serialize_cancel_order buf m =
    if ltb (length buf) 20 then (buf, 0) else (store_all (cancel_order_fields m) buf, 20)

unfoldable pub deserialize_cancel_order : Bytes → Option CancelOrder
deserialize_cancel_order buf =
    if ltb (length buf) 20
    then none
    else some (record {
      client_order_id = load_be 8 0 buf;
      symbol_id = load_be 4 8 buf;
      send_ts = from_u64 (load_be 8 12 buf);
    })

abbrev pub modify_order_fields : ModifyOrder → List Field
modify_order_fields m =
    (8, 0, m.client_order_id)
    ∷ (4, 8, m.symbol_id)
    ∷ (8, 12, to_u64 m.new_price)
    ∷ (4, 20, m.new_qty)
    ∷ (8, 24, to_u64 m.send_ts)
    ∷ []

unfoldable pub serialize_modify_order : Bytes → ModifyOrder → Bytes × ℕ
serialize_modify_order buf m =
    if ltb (length buf) 32 then (buf, 0) else (store_all (modify_order_fields m) buf, 32)

unfoldable pub deserialize_modify_order : Bytes → Option ModifyOrder
deserialize_modify_order buf =
    if ltb (length buf) 32
    then none
    else some (record {
      client_order_id = load_be 8 0 buf;
      symbol_id = load_be 4 8 buf;
      new_price = from_u64 (load_be 8 12 buf);
      new_qty = load_be 4 20 buf;
      send_ts = from_u64 (load_be 8 24 buf);
    })
