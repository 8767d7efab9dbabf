-- ===== src/Tests/Codec.antt =====
-- Messages written to a buffer of 40 bytes, or of 34 for market data, and read back
-- (apps/shared/protocol_codec.hpp).
use low_latency_tick_to_trad.Prelude.{ℕ, zero, suc, ◌≡◌, refl, some, [], ◌∷◌, arith, length}
use low_latency_tick_to_trad.Protocol.{
  FillReport, CancelReject, CancelOrder, ModifyReject, NewOrder, OrderAck, OrderReject, CancelAck,
  ModifyAck, ModifyOrder, MarketDataUpdate,
}
use low_latency_tick_to_trad.ProtocolCodec.Responses.{
  serialize_order_ack, serialize_cancel_ack, serialize_modify_reject, serialize_modify_ack,
  serialize_cancel_reject, serialize_fill_report, serialize_order_reject, deserialize_fill_report,
  deserialize_cancel_ack, deserialize_cancel_reject, deserialize_order_reject,
  deserialize_modify_ack, deserialize_modify_reject, deserialize_order_ack,
}
use low_latency_tick_to_trad.Wire.{limit, Bytes}
use low_latency_tick_to_trad.ProtocolCodec.{
  serialize_cancel_order, serialize_new_order, serialize_modify_order, serialize_market_data,
  deserialize_new_order, deserialize_cancel_order, deserialize_market_data,
  deserialize_modify_order,
}
use low_latency_tick_to_trad.Protocol.Valid.{
  FitsFillReport, FitsCancelOrder, FitsCancelAck, FitsCancelReject, FitsOrderAck, FitsNewOrder,
  FitsModifyAck, FitsMarketDataUpdate, FitsOrderReject, FitsModifyReject, FitsModifyOrder,
}
use low_latency_tick_to_trad.Prelude.Int.{negsuc}
use low_latency_tick_to_trad.ProtocolCodec.ResponseLaws.{
  cancel_ack_round_trip, order_ack_round_trip, modify_ack_round_trip, modify_reject_round_trip,
  order_reject_round_trip, fill_report_round_trip, cancel_reject_round_trip,
}
use low_latency_tick_to_trad.ProtocolCodec.RequestLaws.{
  new_order_round_trip, market_data_round_trip, modify_order_round_trip, cancel_order_round_trip,
}
use low_latency_tick_to_trad.MessageCodec.RoundTrip.{
  Bounded, unpack_message-Bounded, pack_message_round_trip,
}
use low_latency_tick_to_trad.MessageCodec.{pack_message, unpack_message, message_magic}

abbrev zeros : ℕ → Bytes
zeros zero = []
zeros (suc n) = 0 ∷ zeros n

abbrev some_market_data : MarketDataUpdate
some_market_data = record {
  seq_num = 4294967301;
  symbol_id = 70000;
  md_msg_type = 1;
  side = 1;
  price = negsuc 41;
  qty = 70000;
  exchange_ts = negsuc 41;
}

some_market_data-FitsMarketDataUpdate : FitsMarketDataUpdate some_market_data
unfolding limit
some_market_data-FitsMarketDataUpdate = record {
  seq_num = omega arith;
  symbol_id = omega arith;
  md_msg_type = omega arith;
  side = omega arith;
  price = omega arith;
  qty = omega arith;
  exchange_ts = omega arith;
}

market_data_round_trip_example :
    ((serialize_market_data (zeros 34) some_market_data).1 ≡ 34)
    × (length (serialize_market_data (zeros 34) some_market_data).0 ≡ 34)
    × (deserialize_market_data (serialize_market_data (zeros 34) some_market_data).0
        ≡ some some_market_data)
market_data_round_trip_example =
    market_data_round_trip some_market_data (zeros 34) some_market_data-FitsMarketDataUpdate refl

abbrev some_new_order : NewOrder
some_new_order = record {
  client_order_id = 4294967301;
  symbol_id = 70000;
  side = 1;
  price = negsuc 41;
  qty = 70000;
  send_ts = negsuc 41;
}

some_new_order-FitsNewOrder : FitsNewOrder some_new_order
unfolding limit
some_new_order-FitsNewOrder = record {
  client_order_id = omega arith;
  symbol_id = omega arith;
  side = omega arith;
  price = omega arith;
  qty = omega arith;
  send_ts = omega arith;
}

new_order_round_trip_example :
    ((serialize_new_order (zeros 40) some_new_order).1 ≡ 33)
    × (length (serialize_new_order (zeros 40) some_new_order).0 ≡ 40)
    × (deserialize_new_order (serialize_new_order (zeros 40) some_new_order).0
        ≡ some some_new_order)
new_order_round_trip_example =
    new_order_round_trip some_new_order (zeros 40) some_new_order-FitsNewOrder (omega arith)

abbrev some_cancel_order : CancelOrder
some_cancel_order = record { client_order_id = 4294967301; symbol_id = 70000; send_ts = negsuc 41 }

some_cancel_order-FitsCancelOrder : FitsCancelOrder some_cancel_order
unfolding limit
some_cancel_order-FitsCancelOrder = record {
  client_order_id = omega arith;
  symbol_id = omega arith;
  send_ts = omega arith;
}

cancel_order_round_trip_example :
    ((serialize_cancel_order (zeros 40) some_cancel_order).1 ≡ 20)
    × (length (serialize_cancel_order (zeros 40) some_cancel_order).0 ≡ 40)
    × (deserialize_cancel_order (serialize_cancel_order (zeros 40) some_cancel_order).0
        ≡ some some_cancel_order)
cancel_order_round_trip_example =
    cancel_order_round_trip some_cancel_order (zeros 40) some_cancel_order-FitsCancelOrder
      (omega arith)

abbrev some_modify_order : ModifyOrder
some_modify_order = record {
  client_order_id = 4294967301;
  symbol_id = 70000;
  new_price = negsuc 41;
  new_qty = 70000;
  send_ts = negsuc 41;
}

some_modify_order-FitsModifyOrder : FitsModifyOrder some_modify_order
unfolding limit
some_modify_order-FitsModifyOrder = record {
  client_order_id = omega arith;
  symbol_id = omega arith;
  new_price = omega arith;
  new_qty = omega arith;
  send_ts = omega arith;
}

modify_order_round_trip_example :
    ((serialize_modify_order (zeros 40) some_modify_order).1 ≡ 32)
    × (length (serialize_modify_order (zeros 40) some_modify_order).0 ≡ 40)
    × (deserialize_modify_order (serialize_modify_order (zeros 40) some_modify_order).0
        ≡ some some_modify_order)
modify_order_round_trip_example =
    modify_order_round_trip some_modify_order (zeros 40) some_modify_order-FitsModifyOrder
      (omega arith)

abbrev some_order_ack : OrderAck
some_order_ack = record {
  client_order_id = 4294967301;
  exchange_order_id = 4294967301;
  send_ts = negsuc 41;
}

some_order_ack-FitsOrderAck : FitsOrderAck some_order_ack
unfolding limit
some_order_ack-FitsOrderAck = record {
  client_order_id = omega arith;
  exchange_order_id = omega arith;
  send_ts = omega arith;
}

order_ack_round_trip_example :
    ((serialize_order_ack (zeros 40) some_order_ack).1 ≡ 24)
    × (length (serialize_order_ack (zeros 40) some_order_ack).0 ≡ 40)
    × (deserialize_order_ack (serialize_order_ack (zeros 40) some_order_ack).0
        ≡ some some_order_ack)
order_ack_round_trip_example =
    order_ack_round_trip some_order_ack (zeros 40) some_order_ack-FitsOrderAck (omega arith)

abbrev some_order_reject : OrderReject
some_order_reject = record { client_order_id = 4294967301; reason = 1; send_ts = negsuc 41 }

some_order_reject-FitsOrderReject : FitsOrderReject some_order_reject
unfolding limit
some_order_reject-FitsOrderReject = record {
  client_order_id = omega arith;
  reason = omega arith;
  send_ts = omega arith;
}

order_reject_round_trip_example :
    ((serialize_order_reject (zeros 40) some_order_reject).1 ≡ 17)
    × (length (serialize_order_reject (zeros 40) some_order_reject).0 ≡ 40)
    × (deserialize_order_reject (serialize_order_reject (zeros 40) some_order_reject).0
        ≡ some some_order_reject)
order_reject_round_trip_example =
    order_reject_round_trip some_order_reject (zeros 40) some_order_reject-FitsOrderReject
      (omega arith)

abbrev some_fill_report : FillReport
some_fill_report = record {
  client_order_id = 4294967301;
  exchange_order_id = 4294967301;
  fill_price = negsuc 41;
  fill_qty = 70000;
  remaining_qty = 70000;
  send_ts = negsuc 41;
}

some_fill_report-FitsFillReport : FitsFillReport some_fill_report
unfolding limit
some_fill_report-FitsFillReport = record {
  client_order_id = omega arith;
  exchange_order_id = omega arith;
  fill_price = omega arith;
  fill_qty = omega arith;
  remaining_qty = omega arith;
  send_ts = omega arith;
}

fill_report_round_trip_example :
    ((serialize_fill_report (zeros 40) some_fill_report).1 ≡ 40)
    × (length (serialize_fill_report (zeros 40) some_fill_report).0 ≡ 40)
    × (deserialize_fill_report (serialize_fill_report (zeros 40) some_fill_report).0
        ≡ some some_fill_report)
fill_report_round_trip_example =
    fill_report_round_trip some_fill_report (zeros 40) some_fill_report-FitsFillReport (omega arith)

abbrev some_cancel_ack : CancelAck
some_cancel_ack = record { client_order_id = 4294967301; send_ts = negsuc 41 }

some_cancel_ack-FitsCancelAck : FitsCancelAck some_cancel_ack
unfolding limit
some_cancel_ack-FitsCancelAck = record { client_order_id = omega arith; send_ts = omega arith }

cancel_ack_round_trip_example :
    ((serialize_cancel_ack (zeros 40) some_cancel_ack).1 ≡ 16)
    × (length (serialize_cancel_ack (zeros 40) some_cancel_ack).0 ≡ 40)
    × (deserialize_cancel_ack (serialize_cancel_ack (zeros 40) some_cancel_ack).0
        ≡ some some_cancel_ack)
cancel_ack_round_trip_example =
    cancel_ack_round_trip some_cancel_ack (zeros 40) some_cancel_ack-FitsCancelAck (omega arith)

abbrev some_cancel_reject : CancelReject
some_cancel_reject = record { client_order_id = 4294967301; reason = 1; send_ts = negsuc 41 }

some_cancel_reject-FitsCancelReject : FitsCancelReject some_cancel_reject
unfolding limit
some_cancel_reject-FitsCancelReject = record {
  client_order_id = omega arith;
  reason = omega arith;
  send_ts = omega arith;
}

cancel_reject_round_trip_example :
    ((serialize_cancel_reject (zeros 40) some_cancel_reject).1 ≡ 17)
    × (length (serialize_cancel_reject (zeros 40) some_cancel_reject).0 ≡ 40)
    × (deserialize_cancel_reject (serialize_cancel_reject (zeros 40) some_cancel_reject).0
        ≡ some some_cancel_reject)
cancel_reject_round_trip_example =
    cancel_reject_round_trip some_cancel_reject (zeros 40) some_cancel_reject-FitsCancelReject
      (omega arith)

abbrev some_modify_ack : ModifyAck
some_modify_ack = record {
  client_order_id = 4294967301;
  new_exchange_order_id = 4294967301;
  send_ts = negsuc 41;
}

some_modify_ack-FitsModifyAck : FitsModifyAck some_modify_ack
unfolding limit
some_modify_ack-FitsModifyAck = record {
  client_order_id = omega arith;
  new_exchange_order_id = omega arith;
  send_ts = omega arith;
}

modify_ack_round_trip_example :
    ((serialize_modify_ack (zeros 40) some_modify_ack).1 ≡ 24)
    × (length (serialize_modify_ack (zeros 40) some_modify_ack).0 ≡ 40)
    × (deserialize_modify_ack (serialize_modify_ack (zeros 40) some_modify_ack).0
        ≡ some some_modify_ack)
modify_ack_round_trip_example =
    modify_ack_round_trip some_modify_ack (zeros 40) some_modify_ack-FitsModifyAck (omega arith)

abbrev some_modify_reject : ModifyReject
some_modify_reject = record { client_order_id = 4294967301; reason = 1; send_ts = negsuc 41 }

some_modify_reject-FitsModifyReject : FitsModifyReject some_modify_reject
unfolding limit
some_modify_reject-FitsModifyReject = record {
  client_order_id = omega arith;
  reason = omega arith;
  send_ts = omega arith;
}

modify_reject_round_trip_example :
    ((serialize_modify_reject (zeros 40) some_modify_reject).1 ≡ 17)
    × (length (serialize_modify_reject (zeros 40) some_modify_reject).0 ≡ 40)
    × (deserialize_modify_reject (serialize_modify_reject (zeros 40) some_modify_reject).0
        ≡ some some_modify_reject)
modify_reject_round_trip_example =
    modify_reject_round_trip some_modify_reject (zeros 40) some_modify_reject-FitsModifyReject
      (omega arith)

abbrev note : Bytes
note = 7 ∷ 8 ∷ 9 ∷ []

pack_message_round_trip_example :
    ((pack_message (zeros 20) 2 12 0 note).1 ≡ 19)
    × (unpack_message (pack_message (zeros 20) 2 12 0 note).0
        ≡ some (record {
          header = record {
            magic = message_magic;
            version = 2;
            msg_type = 12;
            payload_len = 3;
            flags = 0;
          };
          payload = note;
        }))
unfolding limit
pack_message_round_trip_example =
    pack_message_round_trip (zeros 20) note 2 12 0
      (record { version = omega arith; msg_type = omega arith; flags = omega arith }) (omega arith)
      (omega arith)

unpack_message-Bounded_example : Bounded (zeros 20) (unpack_message (zeros 20))
unpack_message-Bounded_example = unpack_message-Bounded (zeros 20)
