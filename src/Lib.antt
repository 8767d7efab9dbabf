-- ===== src/Lib.antt =====
-- Verification of the core of a low-latency tick-to-trade system: the exchange's order book and
-- matching engine, the trader's strategy and order manager, and the messages between them.
--
-- The program (C++20) has a market-data and an order path. `apps/tick_to_trade` receives market
-- data, derives signals and keeps its orders under risk limits; `apps/simulated_exchange`
-- matches the orders that arrive; both stand on `libs/` (algorithms, data structures, protocols, system calls).
--
-- Files:
--   Prelude (Tests, Lists, Int, Word): Boolean tests, lists over native indices, signed integers,
--     and 32-bit arithmetic with its wrap-around written out.
--   Types: libs/algo/trading_types.hpp. Prices are signed; a quantity is a natural number, and the
--     hypotheses `qty < u32` say that it is the value of a `std::uint32_t`.
--   Table: what its clients call of `HashMap` (libs/ds/hash_map.hpp), an interface of operations
--     and laws. An insertion may be refused, as the code may; nothing is assumed on when it is.
--   HashMap: libs/ds/hash_map.hpp, linear probing over a buffer of slots. HashMap/Probe is about the
--     probe loops, Inv is the invariant, Writes, Steps and Finds are about writes of one slot and what is
--     then found, Laws and Entries about the operations; AsTable makes it a Table. The loops
--     recur on the rounds left, of which there are as many as slots; a call of `abort` is `none`.
--   Book: libs/algo/order_book.hpp, `OrderBook`. An `Order *` is the order with its id, a
--     `PriceLevel *` the level with its side and price, an intrusive list the list of its elements;
--     the pools are the numbers of their free slots. Functions have the names of the methods.
--     Book/Queue and Book/Ladder hold lemmas on queues and ladders; Book/Inv is the invariant of the
--     book; Book/Slots, Placing and Adding are about `add_order`, Book/Removal and Cancel about
--     `cancel_order` and `remove_filled_order`, Book/Reduction and Amend about `modify_order` and
--     `clear`, and Book/Accepts about when an order is accepted.
--   Engine: libs/algo/matching_engine.hpp, `MatchingEngine`. The fill buffer is the list of its fills
--     with the room left in it; the inner loop recurs on the room, as each round fills one entry,
--     the outer loop on a fuel that starts at the room, as each of its rounds records a fill.
--     Engine/Spec is the reference `cross`; Engine/Round, Loops, Match and Submit are about
--     the loops, Engine/Result, Outcome, Uncrossed and Modify about the operations.
--   Exchange: apps/simulated_exchange/exchange_core.hpp, `ExchangeCore`: its state, keys, events and
--     sessions. The maps and the two bounds are a `Config`; the event buffer is a list, and `emit`
--     on a full one is `none`, as the code aborts. Exchange/Fills, Requests, Changes and Sessions
--     are the operations, cut where the code has an answer to wait for; Exchange/Server is
--     exchange_engine_main.cpp of that folder. Pairs is about the two id maps as a pair, Frames, Serves, Upkeep
--     and Serving are about books, events and aborts over sequences of requests, Keys, Ids, Seen, StaysOn and
--     Once about ids. The forward and the reverse map are paired if each entry of one has its counterpart in the
--     other (and the ids are in range); erasures keep them so, while an insertion that is refused, and ignored by the code, may not.
--   SpscQueue: libs/sys/memory/spsc_queue.hpp, `SPSCQueue`, with 32-bit indices that wrap. SpscQueue/View,
--     Slots, Laws and Batches are about the operations alone. SpscQueue/Threads cuts `try_push` and `try_pop` at
--     their accesses to what the other thread writes; SpscQueue/Fifo is about all interleavings of these steps.
--     Every step sees the last stores, as the acquire loads and release stores of the code are taken to
--     provide for the slots; a loaded index may be late.
--   Wire (Laws, Fields): libs/sys/endian.hpp, big-endian loads and stores in a buffer of bytes.
--   Protocol (Valid): apps/shared/protocol.hpp, the messages; a field of an enumeration is its byte.
--   ProtocolCodec (Responses, RequestLaws, ResponseLaws): apps/shared/protocol_codec.hpp. A buffer is
--     returned with the number of bytes written; the stores keep the offsets of the code.
--   MessageCodec (RoundTrip): libs/net/message_codec.hpp, `pack_message` and `unpack_message`.
--   Framing (RoundTrip): libs/net/length_prefix_codec.hpp, one frame of a stream.
--   FeedHandler (Sequence): apps/tick_to_trade/feed_handler.hpp, `FeedHandler`, with 64-bit wrap-around.
--   Orders: apps/tick_to_trade/order_manager.hpp with order_types.hpp, `OrderManager`. The arrays of
--     `StrategyCtx` are functions of the symbol index; a reading of the clock is an argument; the hash
--     map and the timing wheel are an interface (`Services`). `on_signal` is cut into the checks before
--     the token bucket, the bucket, the checks after it, and the emission. Orders/Responses has the
--     handlers of responses and of timeouts; Orders/Risk, Kill, Drain and Positions are about risk
--     checks, the kill switch over sequences of events, draining, and positions. Signals come with
--     a symbol id from 1 on, as the event loop has checked.
--   Strategy (Signals): apps/tick_to_trade/spread_strategy.hpp, `SpreadStrategy`.
--   Tests: the code run on concrete inputs, with an association list for the table.
--
-- Not modelled: the timing wheel, the intrusive list and the free-index stacks behind the
-- interfaces above, construction in caller-managed memory, the shared memory between the processes, the
-- stream of frames on TCP, and all that is system calls. Signed 64-bit arithmetic
-- (prices, positions, notional, time stamps) is unbounded here, as its overflow is undefined in the code; the statistics
-- counters of the order manager, unlike the strategy's, do not wrap here. Assertions are taken as enabled: a
-- failed one is `none`, like a call of `abort`, in `drain` of the queue and on the answers of the erasures from the
-- exchange's id maps. The others are left out: null pointers, the range of a `Side`, an empty level or
-- book after a removal, the room of arrays, and the range of a client order id in `make_composite_key`, which
-- the callers have checked (`Paired` asks it of the ids remembered).
pub mod Prelude
pub mod Types
pub mod Table
pub mod Book
pub mod Engine
pub mod Wire
pub mod Protocol
pub mod ProtocolCodec
pub mod Orders
pub mod Strategy
pub mod MessageCodec
pub mod HashMap
pub mod Exchange
pub mod SpscQueue
pub mod Framing
pub mod FeedHandler
pub mod Tests
