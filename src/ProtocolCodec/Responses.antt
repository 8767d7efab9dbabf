-- ===== src/ProtocolCodec/Responses.antt =====
-- apps/shared/protocol_codec.hpp: the messages of the exchange.
use low_latency_tick_to_trad.Prelude.{
  ℕ, Option, none, some, List, [], ◌∷◌, ltb, if◌then◌else◌, length,
}
use low_latency_tick_to_trad.Protocol.{
  ModifyReject, OrderReject, ModifyAck, OrderAck, CancelReject, CancelAck, FillReport,
}
use low_latency_tick_to_trad.Wire.{Bytes, load_be, from_u64, to_u64}
use low_latency_tick_to_trad.Wire.Fields.{store_all, Field}

abbrev pub order_ack_fields : OrderAck → List Field
order_ack_fields m =
    (8, 0, m.client_order_id) ∷ (8, 8, m.exchange_order_id) ∷ (8, 16, to_u64 m.send_ts) ∷ []

unfoldable pub serialize_order_ack : Bytes → OrderAck → Bytes × ℕ
serialize_order_ack buf m =
    if ltb (length buf) 24 then (buf, 0) else (store_all (order_ack_fields m) buf, 24)

unfoldable pub deserialize_order_ack : Bytes → Option OrderAck
deserialize_order_ack buf =
    if ltb (length buf) 24
    then none
    else some (record {
      client_order_id = load_be 8 0 buf;
      exchange_order_id = load_be 8 8 buf;
      send_ts = from_u64 (load_be 8 16 buf);
    })

abbrev pub order_reject_fields : OrderReject → List Field
order_reject_fields m = (8, 0, m.client_order_id) ∷ (1, 8, m.reason) ∷ (8, 9, to_u64 m.send_ts) ∷ []

unfoldable pub serialize_order_reject : Bytes → OrderReject → Bytes × ℕ
serialize_order_reject buf m =
    if ltb (length buf) 17 then (buf, 0) else (store_all (order_reject_fields m) buf, 17)

unfoldable pub deserialize_order_reject : Bytes → Option OrderReject
deserialize_order_reject buf =
    if ltb (length buf) 17
    then none
    else some (record {
      client_order_id = load_be 8 0 buf;
      reason = load_be 1 8 buf;
      send_ts = from_u64 (load_be 8 9 buf);
    })

abbrev pub fill_report_fields : FillReport → List Field
fill_report_fields m =
    (8, 0, m.client_order_id)
    ∷ (8, 8, m.exchange_order_id)
    ∷ (8, 16, to_u64 m.fill_price)
    ∷ (4, 24, m.fill_qty)
    ∷ (4, 28, m.remaining_qty)
    ∷ (8, 32, to_u64 m.send_ts)
    ∷ []

unfoldable pub serialize_fill_report : Bytes → FillReport → Bytes × ℕ
serialize_fill_report buf m =
    if ltb (length buf) 40 then (buf, 0) else (store_all (fill_report_fields m) buf, 40)

unfoldable pub deserialize_fill_report : Bytes → Option FillReport
deserialize_fill_report buf =
    if ltb (length buf) 40
    then none
    else some (record {
      client_order_id = load_be 8 0 buf;
      exchange_order_id = load_be 8 8 buf;
      fill_price = from_u64 (load_be 8 16 buf);
      fill_qty = load_be 4 24 buf;
      remaining_qty = load_be 4 28 buf;
      send_ts = from_u64 (load_be 8 32 buf);
    })

abbrev pub cancel_ack_fields : CancelAck → List Field
cancel_ack_fields m = (8, 0, m.client_order_id) ∷ (8, 8, to_u64 m.send_ts) ∷ []

unfoldable pub serialize_cancel_ack : Bytes → CancelAck → Bytes × ℕ
serialize_cancel_ack buf m =
    if ltb (length buf) 16 then (buf, 0) else (store_all (cancel_ack_fields m) buf, 16)

unfoldable pub deserialize_cancel_ack : Bytes → Option CancelAck
deserialize_cancel_ack buf =
    if ltb (length buf) 16
    then none
    else some (record { client_order_id = load_be 8 0 buf; send_ts = from_u64 (load_be 8 8 buf) })

abbrev pub cancel_reject_fields : CancelReject → List Field
cancel_reject_fields m =
    (8, 0, m.client_order_id) ∷ (1, 8, m.reason) ∷ (8, 9, to_u64 m.send_ts) ∷ []

unfoldable pub serialize_cancel_reject : Bytes → CancelReject → Bytes × ℕ
serialize_cancel_reject buf m =
    if ltb (length buf) 17 then (buf, 0) else (store_all (cancel_reject_fields m) buf, 17)

unfoldable pub deserialize_cancel_reject : Bytes → Option CancelReject
deserialize_cancel_reject buf =
    if ltb (length buf) 17
    then none
    else some (record {
      client_order_id = load_be 8 0 buf;
      reason = load_be 1 8 buf;
      send_ts = from_u64 (load_be 8 9 buf);
    })

abbrev pub modify_ack_fields : ModifyAck → List Field
modify_ack_fields m =
    (8, 0, m.client_order_id) ∷ (8, 8, m.new_exchange_order_id) ∷ (8, 16, to_u64 m.send_ts) ∷ []

unfoldable pub serialize_modify_ack : Bytes → ModifyAck → Bytes × ℕ
serialize_modify_ack buf m =
    if ltb (length buf) 24 then (buf, 0) else (store_all (modify_ack_fields m) buf, 24)

unfoldable pub deserialize_modify_ack : Bytes → Option ModifyAck
deserialize_modify_ack buf =
    if ltb (length buf) 24
    then none
    else some (record {
      client_order_id = load_be 8 0 buf;
      new_exchange_order_id = load_be 8 8 buf;
      send_ts = from_u64 (load_be 8 16 buf);
    })

abbrev pub modify_reject_fields : ModifyReject → List Field
modify_reject_fields m =
    (8, 0, m.client_order_id) ∷ (1, 8, m.reason) ∷ (8, 9, to_u64 m.send_ts) ∷ []

unfoldable pub serialize_modify_reject : Bytes → ModifyReject → Bytes × ℕ
serialize_modify_reject buf m =
    if ltb (length buf) 17 then (buf, 0) else (store_all (modify_reject_fields m) buf, 17)

unfoldable pub deserialize_modify_reject : Bytes → Option ModifyReject
deserialize_modify_reject buf =
    if ltb (length buf) 17
    then none
    else some (record {
      client_order_id = load_be 8 0 buf;
      reason = load_be 1 8 buf;
      send_ts = from_u64 (load_be 8 9 buf);
    })
