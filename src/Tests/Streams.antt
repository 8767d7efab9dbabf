-- ===== src/Tests/Streams.antt =====
-- A frame that arrives in parts (libs/net/length_prefix_codec.hpp), and a feed with a gap and a
-- duplicate (apps/tick_to_trade/feed_handler.hpp).
use low_latency_tick_to_trad.Prelude.{
  ℕ, ◌<◌, ◌≡◌, refl, true, some, [], ◌∷◌, arith, take, replicate,
}
use low_latency_tick_to_trad.Wire.{Bytes}
use low_latency_tick_to_trad.Framing.{
  encode_length_prefix_frame, decode_length_prefix_frame, complete, incomplete,
}
use low_latency_tick_to_trad.Framing.RoundTrip.{frame_round_trip}
use low_latency_tick_to_trad.ProtocolCodec.{serialize_market_data}
use low_latency_tick_to_trad.FeedHandler.{FeedHandler, on_datagrams}
use low_latency_tick_to_trad.FeedHandler.Sequence.{Handled, Accounts, on_datagrams-Handled}
use low_latency_tick_to_trad.Prelude.Int.{pos}

abbrev blank : Bytes
blank = 0 ∷ 0 ∷ 0 ∷ 0 ∷ 0 ∷ 0 ∷ 0 ∷ 0 ∷ []

frame_round_trip_example :
    ((encode_length_prefix_frame blank (5 ∷ 6 ∷ []) 64).1 ≡ some 6)
    × (decode_length_prefix_frame (encode_length_prefix_frame blank (5 ∷ 6 ∷ []) 64).0 64
        ≡ record { status = complete; frame_size = 6; payload = 5 ∷ 6 ∷ [] })
    × ((n : ℕ)
        → n < 6
        → (decode_length_prefix_frame
            (take n (encode_length_prefix_frame blank (5 ∷ 6 ∷ []) 64).0)
            64).status
          ≡ incomplete)
frame_round_trip_example =
    frame_round_trip blank (5 ∷ 6 ∷ []) 64 (omega arith) (omega arith) (omega arith)

abbrev feed : FeedHandler
feed = record {
  initialized = true;
  expected_seq = 5;
  gap_count = 1;
  duplicate_count = 0;
  parse_errors = 0;
  total_updates = 3;
}

abbrev space : Bytes
space = replicate 34 0

abbrev datagram : ℕ → Bytes
datagram seq_num =
    (serialize_market_data space (record {
      seq_num = seq_num;
      symbol_id = 1;
      md_msg_type = 0;
      side = 0;
      price = pos 100;
      qty = 2;
      exchange_ts = pos 9;
    })).0

feed-Accounts : Accounts 1 feed
feed-Accounts = record { initialized = refl; numbers = refl; total_fits = omega arith }

on_datagrams-Handled_example :
    Handled 1 feed
      (on_datagrams feed (datagram 5 ∷ datagram 9 ∷ datagram 6 ∷ (1 ∷ []) ∷ [])).0
      (on_datagrams feed (datagram 5 ∷ datagram 9 ∷ datagram 6 ∷ (1 ∷ []) ∷ [])).1
on_datagrams-Handled_example =
    on_datagrams-Handled 1 feed (datagram 5 ∷ datagram 9 ∷ datagram 6 ∷ (1 ∷ []) ∷ []) feed-Accounts
