-- ===== src/FeedHandler.antt =====
-- apps/tick_to_trade/feed_handler.hpp: datagrams of market data are decoded, and their sequence numbers
-- watched for gaps and duplicates. The counters and sequence numbers are 64-bit.
pub mod Sequence
use low_latency_tick_to_trad.Prelude.{
  ℕ, zero, suc, ◌+◌, ◌-◌, ◌*◌, ◌%◌, ◌≤◌, ◌<◌, ◌≡◌, ◌≢◌, refl, sym, subst, ◌∙◌, ap, Bool, true,
  false, not, ◌&&◌, ◌||◌, Option, none, some, List, [], ◌∷◌, ◌++◌, arith, ltb, leb, ◌==◌, ==_iff,
  if◌then◌else◌, length, length-append, append-nil, append_assoc, min, max, Bool-cases,
  Option-cases, inl, inr, ◌⊎◌, ◌^◌,
}
use low_latency_tick_to_trad.Wire.{Bytes}
use low_latency_tick_to_trad.Protocol.{MarketDataUpdate}
use low_latency_tick_to_trad.ProtocolCodec.{deserialize_market_data}

-- the size of the 64-bit numbers
abbrev pub seq_limit : ℕ
seq_limit = 2 ^ 64

pub record FeedHandler : Type 0 where
  pub initialized : Bool
  pub expected_seq : ℕ
  pub gap_count : ℕ
  pub duplicate_count : ℕ
  pub parse_errors : ℕ
  pub total_updates : ℕ

abbrev pub accept_update : FeedHandler → MarketDataUpdate → FeedHandler × Option MarketDataUpdate
accept_update f m = (
  record f {
    initialized = true;
    expected_seq = (m.seq_num + 1) % seq_limit;
    total_updates = (f.total_updates + 1) % seq_limit;
  },
  some m,
)

-- `on_udp_data` for a datagram that is decoded.
unfoldable pub on_update : FeedHandler → MarketDataUpdate → FeedHandler × Option MarketDataUpdate
on_update f m =
    if not f.initialized
    then accept_update f m
    else if ltb f.expected_seq m.seq_num
    then accept_update
        (record f { gap_count = (f.gap_count + (m.seq_num - f.expected_seq)) % seq_limit }) m
    else if ltb m.seq_num f.expected_seq
    then (record f { duplicate_count = (f.duplicate_count + 1) % seq_limit }, none)
    else accept_update f m

unfoldable pub on_decoded :
    FeedHandler → Option MarketDataUpdate → FeedHandler × Option MarketDataUpdate
unfolding on_update
on_decoded f none = (record f { parse_errors = (f.parse_errors + 1) % seq_limit }, none)
on_decoded f (some m) = on_update f m

-- The update, if there is one for the strategy.
abbrev pub on_udp_data : FeedHandler → Bytes → FeedHandler × Option MarketDataUpdate
on_udp_data f buf = on_decoded f (deserialize_market_data buf)

abbrev pub handed_on : Option MarketDataUpdate → List MarketDataUpdate
handed_on none = []
handed_on (some m) = m ∷ []

-- The datagrams that arrive one after the other, and the updates handed on, oldest first.
unfoldable pub on_datagrams : FeedHandler → List Bytes → FeedHandler × List MarketDataUpdate
unfolding on_decoded
on_datagrams f [] = (f, [])
on_datagrams f (buf ∷ bufs) =
    let r = on_udp_data f buf in
    let rest = on_datagrams r.0 bufs in (rest.0, handed_on r.1 ++ rest.1)
