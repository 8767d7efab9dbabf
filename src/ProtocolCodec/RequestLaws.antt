-- ===== src/ProtocolCodec/RequestLaws.antt =====
-- Market data and requests on the wire (apps/shared/protocol_codec.hpp).
use low_latency_tick_to_trad.Prelude.{
  ◌≤◌, ◌≡◌, refl, ◌∙◌, ap, true, false, some, List, arith, ltb, ◌==◌, length,
}
use low_latency_tick_to_trad.ProtocolCodec.{
  serialize_new_order, serialize_market_data, serialize_cancel_order, serialize_modify_order,
  deserialize_market_data, deserialize_modify_order, deserialize_new_order,
  deserialize_cancel_order, new_order_fields, cancel_order_fields, market_data_fields,
  modify_order_fields,
}
use low_latency_tick_to_trad.Wire.Fields.{
  field_at, all_within, Field, store_all, length-store_all, load-store_all,
}
use low_latency_tick_to_trad.Protocol.{ModifyOrder, CancelOrder, NewOrder, MarketDataUpdate}
use low_latency_tick_to_trad.Wire.{Bytes, from_u64, to_u64}
use low_latency_tick_to_trad.Protocol.Valid.{
  FitsMarketDataUpdate, FitsCancelOrder, FitsModifyOrder, FitsNewOrder,
}
use low_latency_tick_to_trad.Wire.Laws.{to_u64-bounded, from_u64-to_u64}

-- A `market_data` message whose fields are values of their C++ types, serialized into a buffer of
-- exactly 34 bytes, takes 34 bytes, does not change the size of the buffer, and is read back from
-- it as it was.
pub market_data_round_trip :
    (m : MarketDataUpdate) (buf : Bytes)
    → FitsMarketDataUpdate m
    → length buf ≡ 34
    → ((serialize_market_data buf m).1 ≡ 34)
      × (length (serialize_market_data buf m).0 ≡ length buf)
      × (deserialize_market_data (serialize_market_data buf m).0 ≡ some m)
unfolding serialize_market_data deserialize_market_data field_at all_within
market_data_round_trip m buf v exact =
    let fs : List Field = market_data_fields m in
    let room : 34 ≤ length buf = omega (arith, exact) in
    let fits : ltb (length buf) 34 ≡ false = ground (arith, room) in
    let whole : length (store_all fs buf) ≡ length buf = length-store_all fs buf in
    let taken : (length (store_all fs buf) == 34) ≡ true = ground (arith, exact, whole) in
    rw fits (
      refl,
      whole,
      rw
          (
            taken,
            load-store_all 34 8 0 m.seq_num fs buf refl refl room v.seq_num,
            load-store_all 34 4 8 m.symbol_id fs buf refl refl room v.symbol_id,
            load-store_all 34 1 12 m.md_msg_type fs buf refl refl room v.md_msg_type,
            load-store_all 34 1 13 m.side fs buf refl refl room v.side,
            ap from_u64 (
                  load-store_all 34 8 14 (to_u64 m.price) fs buf refl refl room
                    (to_u64-bounded m.price v.price))
                ∙ from_u64-to_u64 m.price v.price,
            load-store_all 34 4 22 m.qty fs buf refl refl room v.qty,
            ap from_u64 (
                  load-store_all 34 8 26 (to_u64 m.exchange_ts) fs buf refl refl room
                    (to_u64-bounded m.exchange_ts v.exchange_ts))
                ∙ from_u64-to_u64 m.exchange_ts v.exchange_ts,
          )
          refl,
    )

-- A `new_order` message whose fields are values of their C++ types, serialized into a buffer of at
-- least 33 bytes, takes 33 bytes, does not change the size of the buffer, and is read back from it
-- as it was.
pub new_order_round_trip :
    (m : NewOrder) (buf : Bytes)
    → FitsNewOrder m
    → 33 ≤ length buf
    → ((serialize_new_order buf m).1 ≡ 33)
      × (length (serialize_new_order buf m).0 ≡ length buf)
      × (deserialize_new_order (serialize_new_order buf m).0 ≡ some m)
unfolding serialize_new_order deserialize_new_order field_at all_within
new_order_round_trip m buf v room =
    let fs : List Field = new_order_fields m in
    let fits : ltb (length buf) 33 ≡ false = ground (arith, room) in
    let whole : length (store_all fs buf) ≡ length buf = length-store_all fs buf in
    let taken : ltb (length (store_all fs buf)) 33 ≡ false = ground (arith, room, whole) in
    rw fits (
      refl,
      whole,
      rw
          (
            taken,
            load-store_all 33 8 0 m.client_order_id fs buf refl refl room v.client_order_id,
            load-store_all 33 4 8 m.symbol_id fs buf refl refl room v.symbol_id,
            load-store_all 33 1 12 m.side fs buf refl refl room v.side,
            ap from_u64 (
                  load-store_all 33 8 13 (to_u64 m.price) fs buf refl refl room
                    (to_u64-bounded m.price v.price))
                ∙ from_u64-to_u64 m.price v.price,
            load-store_all 33 4 21 m.qty fs buf refl refl room v.qty,
            ap from_u64 (
                  load-store_all 33 8 25 (to_u64 m.send_ts) fs buf refl refl room
                    (to_u64-bounded m.send_ts v.send_ts))
                ∙ from_u64-to_u64 m.send_ts v.send_ts,
          )
          refl,
    )

-- A `cancel_order` message whose fields are values of their C++ types, serialized into a buffer of
-- at least 20 bytes, takes 20 bytes, does not change the size of the buffer, and is read back from
-- it as it was.
pub cancel_order_round_trip :
    (m : CancelOrder) (buf : Bytes)
    → FitsCancelOrder m
    → 20 ≤ length buf
    → ((serialize_cancel_order buf m).1 ≡ 20)
      × (length (serialize_cancel_order buf m).0 ≡ length buf)
      × (deserialize_cancel_order (serialize_cancel_order buf m).0 ≡ some m)
unfolding serialize_cancel_order deserialize_cancel_order field_at all_within
cancel_order_round_trip m buf v room =
    let fs : List Field = cancel_order_fields m in
    let fits : ltb (length buf) 20 ≡ false = ground (arith, room) in
    let whole : length (store_all fs buf) ≡ length buf = length-store_all fs buf in
    let taken : ltb (length (store_all fs buf)) 20 ≡ false = ground (arith, room, whole) in
    rw fits (
      refl,
      whole,
      rw
          (
            taken,
            load-store_all 20 8 0 m.client_order_id fs buf refl refl room v.client_order_id,
            load-store_all 20 4 8 m.symbol_id fs buf refl refl room v.symbol_id,
            ap from_u64 (
                  load-store_all 20 8 12 (to_u64 m.send_ts) fs buf refl refl room
                    (to_u64-bounded m.send_ts v.send_ts))
                ∙ from_u64-to_u64 m.send_ts v.send_ts,
          )
          refl,
    )

-- A `modify_order` message whose fields are values of their C++ types, serialized into a buffer of
-- at least 32 bytes, takes 32 bytes, does not change the size of the buffer, and is read back from
-- it as it was.
pub modify_order_round_trip :
    (m : ModifyOrder) (buf : Bytes)
    → FitsModifyOrder m
    → 32 ≤ length buf
    → ((serialize_modify_order buf m).1 ≡ 32)
      × (length (serialize_modify_order buf m).0 ≡ length buf)
      × (deserialize_modify_order (serialize_modify_order buf m).0 ≡ some m)
unfolding serialize_modify_order deserialize_modify_order field_at all_within
modify_order_round_trip m buf v room =
    let fs : List Field = modify_order_fields m in
    let fits : ltb (length buf) 32 ≡ false = ground (arith, room) in
    let whole : length (store_all fs buf) ≡ length buf = length-store_all fs buf in
    let taken : ltb (length (store_all fs buf)) 32 ≡ false = ground (arith, room, whole) in
    rw fits (
      refl,
      whole,
      rw
          (
            taken,
            load-store_all 32 8 0 m.client_order_id fs buf refl refl room v.client_order_id,
            load-store_all 32 4 8 m.symbol_id fs buf refl refl room v.symbol_id,
            ap from_u64 (
                  load-store_all 32 8 12 (to_u64 m.new_price) fs buf refl refl room
                    (to_u64-bounded m.new_price v.new_price))
                ∙ from_u64-to_u64 m.new_price v.new_price,
            load-store_all 32 4 20 m.new_qty fs buf refl refl room v.new_qty,
            ap from_u64 (
                  load-store_all 32 8 24 (to_u64 m.send_ts) fs buf refl refl room
                    (to_u64-bounded m.send_ts v.send_ts))
                ∙ from_u64-to_u64 m.send_ts v.send_ts,
          )
          refl,
    )
