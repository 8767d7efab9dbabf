-- ===== src/ProtocolCodec/ResponseLaws.antt =====
-- The messages of the exchange on the wire (apps/shared/protocol_codec.hpp).
use low_latency_tick_to_trad.Prelude.{
  ◌≤◌, ◌≡◌, refl, ◌∙◌, ap, false, some, List, arith, ltb, length,
}
use low_latency_tick_to_trad.ProtocolCodec.Responses.{
  serialize_order_ack, serialize_cancel_reject, serialize_modify_reject, serialize_modify_ack,
  serialize_order_reject, serialize_cancel_ack, serialize_fill_report, deserialize_cancel_ack,
  deserialize_modify_reject, deserialize_order_ack, deserialize_modify_ack,
  deserialize_cancel_reject, deserialize_order_reject, deserialize_fill_report, fill_report_fields,
  cancel_ack_fields, order_reject_fields, modify_reject_fields, cancel_reject_fields,
  modify_ack_fields, order_ack_fields,
}
use low_latency_tick_to_trad.Wire.Fields.{
  field_at, all_within, Field, store_all, length-store_all, load-store_all,
}
use low_latency_tick_to_trad.Protocol.{
  CancelReject, OrderReject, FillReport, ModifyAck, OrderAck, ModifyReject, CancelAck,
}
use low_latency_tick_to_trad.Wire.{Bytes, from_u64, to_u64}
use low_latency_tick_to_trad.Protocol.Valid.{
  FitsCancelReject, FitsCancelAck, FitsOrderReject, FitsOrderAck, FitsFillReport, FitsModifyReject,
  FitsModifyAck,
}
use low_latency_tick_to_trad.Wire.Laws.{to_u64-bounded, from_u64-to_u64}

-- A `order_ack` message whose fields are values of their C++ types, serialized into a buffer of at
-- least 24 bytes, takes 24 bytes, does not change the size of the buffer, and is read back from it
-- as it was.
pub order_ack_round_trip :
    (m : OrderAck) (buf : Bytes)
    → FitsOrderAck m
    → 24 ≤ length buf
    → ((serialize_order_ack buf m).1 ≡ 24)
      × (length (serialize_order_ack buf m).0 ≡ length buf)
      × (deserialize_order_ack (serialize_order_ack buf m).0 ≡ some m)
unfolding serialize_order_ack deserialize_order_ack field_at all_within
order_ack_round_trip m buf v room =
    let fs : List Field = order_ack_fields m in
    let fits : ltb (length buf) 24 ≡ false = ground (arith, room) in
    let whole : length (store_all fs buf) ≡ length buf = length-store_all fs buf in
    let taken : ltb (length (store_all fs buf)) 24 ≡ false = ground (arith, room, whole) in
    rw fits (
      refl,
      whole,
      rw
          (
            taken,
            load-store_all 24 8 0 m.client_order_id fs buf refl refl room v.client_order_id,
            load-store_all 24 8 8 m.exchange_order_id fs buf refl refl room v.exchange_order_id,
            ap from_u64 (
                  load-store_all 24 8 16 (to_u64 m.send_ts) fs buf refl refl room
                    (to_u64-bounded m.send_ts v.send_ts))
                ∙ from_u64-to_u64 m.send_ts v.send_ts,
          )
          refl,
    )

-- A `order_reject` message whose fields are values of their C++ types, serialized into a buffer of
-- at least 17 bytes, takes 17 bytes, does not change the size of the buffer, and is read back from
-- it as it was.
pub order_reject_round_trip :
    (m : OrderReject) (buf : Bytes)
    → FitsOrderReject m
    → 17 ≤ length buf
    → ((serialize_order_reject buf m).1 ≡ 17)
      × (length (serialize_order_reject buf m).0 ≡ length buf)
      × (deserialize_order_reject (serialize_order_reject buf m).0 ≡ some m)
unfolding serialize_order_reject deserialize_order_reject field_at all_within
order_reject_round_trip m buf v room =
    let fs : List Field = order_reject_fields m in
    let fits : ltb (length buf) 17 ≡ false = ground (arith, room) in
    let whole : length (store_all fs buf) ≡ length buf = length-store_all fs buf in
    let taken : ltb (length (store_all fs buf)) 17 ≡ false = ground (arith, room, whole) in
    rw fits (
      refl,
      whole,
      rw
          (
            taken,
            load-store_all 17 8 0 m.client_order_id fs buf refl refl room v.client_order_id,
            load-store_all 17 1 8 m.reason fs buf refl refl room v.reason,
            ap from_u64 (
                  load-store_all 17 8 9 (to_u64 m.send_ts) fs buf refl refl room
                    (to_u64-bounded m.send_ts v.send_ts))
                ∙ from_u64-to_u64 m.send_ts v.send_ts,
          )
          refl,
    )

-- A `fill_report` message whose fields are values of their C++ types, serialized into a buffer of
-- at least 40 bytes, takes 40 bytes, does not change the size of the buffer, and is read back from
-- it as it was.
pub fill_report_round_trip :
    (m : FillReport) (buf : Bytes)
    → FitsFillReport m
    → 40 ≤ length buf
    → ((serialize_fill_report buf m).1 ≡ 40)
      × (length (serialize_fill_report buf m).0 ≡ length buf)
      × (deserialize_fill_report (serialize_fill_report buf m).0 ≡ some m)
unfolding serialize_fill_report deserialize_fill_report field_at all_within
fill_report_round_trip m buf v room =
    let fs : List Field = fill_report_fields m in
    let fits : ltb (length buf) 40 ≡ false = ground (arith, room) in
    let whole : length (store_all fs buf) ≡ length buf = length-store_all fs buf in
    let taken : ltb (length (store_all fs buf)) 40 ≡ false = ground (arith, room, whole) in
    rw fits (
      refl,
      whole,
      rw
          (
            taken,
            load-store_all 40 8 0 m.client_order_id fs buf refl refl room v.client_order_id,
            load-store_all 40 8 8 m.exchange_order_id fs buf refl refl room v.exchange_order_id,
            ap from_u64 (
                  load-store_all 40 8 16 (to_u64 m.fill_price) fs buf refl refl room
                    (to_u64-bounded m.fill_price v.fill_price))
                ∙ from_u64-to_u64 m.fill_price v.fill_price,
            load-store_all 40 4 24 m.fill_qty fs buf refl refl room v.fill_qty,
            load-store_all 40 4 28 m.remaining_qty fs buf refl refl room v.remaining_qty,
            ap from_u64 (
                  load-store_all 40 8 32 (to_u64 m.send_ts) fs buf refl refl room
                    (to_u64-bounded m.send_ts v.send_ts))
                ∙ from_u64-to_u64 m.send_ts v.send_ts,
          )
          refl,
    )

-- A `cancel_ack` message whose fields are values of their C++ types, serialized into a buffer of at
-- least 16 bytes, takes 16 bytes, does not change the size of the buffer, and is read back from it
-- as it was.
pub cancel_ack_round_trip :
    (m : CancelAck) (buf : Bytes)
    → FitsCancelAck m
    → 16 ≤ length buf
    → ((serialize_cancel_ack buf m).1 ≡ 16)
      × (length (serialize_cancel_ack buf m).0 ≡ length buf)
      × (deserialize_cancel_ack (serialize_cancel_ack buf m).0 ≡ some m)
unfolding serialize_cancel_ack deserialize_cancel_ack field_at all_within
cancel_ack_round_trip m buf v room =
    let fs : List Field = cancel_ack_fields m in
    let fits : ltb (length buf) 16 ≡ false = ground (arith, room) in
    let whole : length (store_all fs buf) ≡ length buf = length-store_all fs buf in
    let taken : ltb (length (store_all fs buf)) 16 ≡ false = ground (arith, room, whole) in
    rw fits (
      refl,
      whole,
      rw
          (
            taken,
            load-store_all 16 8 0 m.client_order_id fs buf refl refl room v.client_order_id,
            ap from_u64 (
                  load-store_all 16 8 8 (to_u64 m.send_ts) fs buf refl refl room
                    (to_u64-bounded m.send_ts v.send_ts))
                ∙ from_u64-to_u64 m.send_ts v.send_ts,
          )
          refl,
    )

-- A `cancel_reject` message whose fields are values of their C++ types, serialized into a buffer of
-- at least 17 bytes, takes 17 bytes, does not change the size of the buffer, and is read back from
-- it as it was.
pub cancel_reject_round_trip :
    (m : CancelReject) (buf : Bytes)
    → FitsCancelReject m
    → 17 ≤ length buf
    → ((serialize_cancel_reject buf m).1 ≡ 17)
      × (length (serialize_cancel_reject buf m).0 ≡ length buf)
      × (deserialize_cancel_reject (serialize_cancel_reject buf m).0 ≡ some m)
unfolding serialize_cancel_reject deserialize_cancel_reject field_at all_within
cancel_reject_round_trip m buf v room =
    let fs : List Field = cancel_reject_fields m in
    let fits : ltb (length buf) 17 ≡ false = ground (arith, room) in
    let whole : length (store_all fs buf) ≡ length buf = length-store_all fs buf in
    let taken : ltb (length (store_all fs buf)) 17 ≡ false = ground (arith, room, whole) in
    rw fits (
      refl,
      whole,
      rw
          (
            taken,
            load-store_all 17 8 0 m.client_order_id fs buf refl refl room v.client_order_id,
            load-store_all 17 1 8 m.reason fs buf refl refl room v.reason,
            ap from_u64 (
                  load-store_all 17 8 9 (to_u64 m.send_ts) fs buf refl refl room
                    (to_u64-bounded m.send_ts v.send_ts))
                ∙ from_u64-to_u64 m.send_ts v.send_ts,
          )
          refl,
    )

-- A `modify_ack` message whose fields are values of their C++ types, serialized into a buffer of at
-- least 24 bytes, takes 24 bytes, does not change the size of the buffer, and is read back from it
-- as it was.
pub modify_ack_round_trip :
    (m : ModifyAck) (buf : Bytes)
    → FitsModifyAck m
    → 24 ≤ length buf
    → ((serialize_modify_ack buf m).1 ≡ 24)
      × (length (serialize_modify_ack buf m).0 ≡ length buf)
      × (deserialize_modify_ack (serialize_modify_ack buf m).0 ≡ some m)
unfolding serialize_modify_ack deserialize_modify_ack field_at all_within
modify_ack_round_trip m buf v room =
    let fs : List Field = modify_ack_fields m in
    let fits : ltb (length buf) 24 ≡ false = ground (arith, room) in
    let whole : length (store_all fs buf) ≡ length buf = length-store_all fs buf in
    let taken : ltb (length (store_all fs buf)) 24 ≡ false = ground (arith, room, whole) in
    rw fits (
      refl,
      whole,
      rw
          (
            taken,
            load-store_all 24 8 0 m.client_order_id fs buf refl refl room v.client_order_id,
            load-store_all 24 8 8 m.new_exchange_order_id fs buf refl refl room
                v.new_exchange_order_id,
            ap from_u64 (
                  load-store_all 24 8 16 (to_u64 m.send_ts) fs buf refl refl room
                    (to_u64-bounded m.send_ts v.send_ts))
                ∙ from_u64-to_u64 m.send_ts v.send_ts,
          )
          refl,
    )

-- A `modify_reject` message whose fields are values of their C++ types, serialized into a buffer of
-- at least 17 bytes, takes 17 bytes, does not change the size of the buffer, and is read back from
-- it as it was.
pub modify_reject_round_trip :
    (m : ModifyReject) (buf : Bytes)
    → FitsModifyReject m
    → 17 ≤ length buf
    → ((serialize_modify_reject buf m).1 ≡ 17)
      × (length (serialize_modify_reject buf m).0 ≡ length buf)
      × (deserialize_modify_reject (serialize_modify_reject buf m).0 ≡ some m)
unfolding serialize_modify_reject deserialize_modify_reject field_at all_within
modify_reject_round_trip m buf v room =
    let fs : List Field = modify_reject_fields m in
    let fits : ltb (length buf) 17 ≡ false = ground (arith, room) in
    let whole : length (store_all fs buf) ≡ length buf = length-store_all fs buf in
    let taken : ltb (length (store_all fs buf)) 17 ≡ false = ground (arith, room, whole) in
    rw fits (
      refl,
      whole,
      rw
          (
            taken,
            load-store_all 17 8 0 m.client_order_id fs buf refl refl room v.client_order_id,
            load-store_all 17 1 8 m.reason fs buf refl refl room v.reason,
            ap from_u64 (
                  load-store_all 17 8 9 (to_u64 m.send_ts) fs buf refl refl room
                    (to_u64-bounded m.send_ts v.send_ts))
                ∙ from_u64-to_u64 m.send_ts v.send_ts,
          )
          refl,
    )
