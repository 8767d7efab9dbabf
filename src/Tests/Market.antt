-- ===== src/Tests/Market.antt =====
-- The exchange's engine over empty books, with maps of libs/ds/hash_map.hpp for the ids
-- (apps/simulated_exchange/exchange_core.hpp).
use low_latency_tick_to_trad.Prelude.{
  ℕ, ◌≤◌, ◌<◌, ◌≡◌, refl, subst, Bool, true, false, none, some, List, [], ◌∷◌, arith, ◌==◌, ==_iff,
  ◌^◌, ◌++◌,
}
use low_latency_tick_to_trad.HashMap.{HashMap, empty, for_each}
use low_latency_tick_to_trad.HashMap.Inv.{IsValid, counts}
use low_latency_tick_to_trad.HashMap.AsTable.{hash_table}
use low_latency_tick_to_trad.Exchange.{
  Core, Config, IdEntry, ReverseIdEntry, max_client_order_id, make_composite_key,
  extract_session_id, emit, order_rejected, cancel_rejected, duplicate_order_id, order_not_found,
  ExchangeEvent,
}
use low_latency_tick_to_trad.Exchange.Server.{
  OrderRequest, OrderRequestType, Queue, Server, serve, process_request, client_connect,
  client_disconnect, new_order_request, cancel_order_request,
}
use low_latency_tick_to_trad.Exchange.Requests.{submit_order, reject}
use low_latency_tick_to_trad.Exchange.Changes.{cancel_order}
use low_latency_tick_to_trad.Exchange.Keys.{composite_key_round_trip}
use low_latency_tick_to_trad.Exchange.Serving.{serve-Stands, Outcome, Stands, Safe}
use low_latency_tick_to_trad.Exchange.Frames.{Matched}
use low_latency_tick_to_trad.Protocol.{NewOrder, CancelOrder}
use low_latency_tick_to_trad.Tests.Runs.{T, L, no_orders, no_orders-IsValid}
use low_latency_tick_to_trad.Tests.Matches.{no_orders-Uncrossed}
use low_latency_tick_to_trad.Table.{Table}
use low_latency_tick_to_trad.Types.{bid, Price, Qty, ask}
use low_latency_tick_to_trad.Prelude.Int.{pos}
use low_latency_tick_to_trad.Exchange.Serves.{Serves, submit_order-Serves, most_events}
use low_latency_tick_to_trad.Exchange.Ids.{cancelled_is_gone}
use low_latency_tick_to_trad.Exchange.Once.{ids_used_once}
use low_latency_tick_to_trad.Tests.Tables.{look_up, put_key, drop_key}
use low_latency_tick_to_trad.Exchange
use low_latency_tick_to_trad.HashMap
use low_latency_tick_to_trad.Exchange.Sessions
use low_latency_tick_to_trad.Engine
use low_latency_tick_to_trad.Book

abbrev id_hash : ℕ → ℕ
id_hash k = k

abbrev id_table : (V : Type 0) → Table ℕ V
id_table V = hash_table (◌==◌) id_hash ==_iff

abbrev no_entries : {V : Type 0} → V → HashMap ℕ V
no_entries v = record {
  slots = λ i. record { key = 0; value = v; state = empty };
  capacity = 16;
  size = 0;
  tombstones = 0;
}

abbrev exchange : Config
exchange = record {
  orders = T;
  levels = L;
  seen = id_table Bool;
  ids = id_table IdEntry;
  reverse_ids = id_table ReverseIdEntry;
  ids_for_each = for_each;
  seen_for_each = for_each;
  max_fills = 64;
  max_symbols = 2;
}

abbrev opened : Core exchange
opened = record {
  books = λ i. no_orders;
  active = λ i. true;
  next_exchange_id = 1;
  events = [];
  next_session_id = 1;
  active_sessions = λ i. false;
  seen_orders = no_entries false;
  id_map = no_entries (record { exchange_id = 0; side = bid; symbol_id = 0 });
  reverse_id_map =
      no_entries (record { session_id = 0; client_order_id = 0; symbol_id = 0; send_ts = pos 0 });
}

abbrev started : Server exchange
started = record { core = opened; session_to_gateway = λ i. 0; pushed = [] }

abbrev request : OrderRequestType → ℕ → ℕ → Price → Qty → OrderRequest
request t client_order_id side price qty = record {
  type = t;
  gateway_id = 0;
  session_id = 1;
  request_seq = 7;
  client_order_id = client_order_id;
  symbol_id = 1;
  side = side;
  price = price;
  qty = qty;
  new_price = price;
  new_qty = qty;
  send_ts = pos 0;
}

abbrev all_room : Queue → ExchangeEvent → Bool
all_room q e = true

abbrev day : List ((Queue → ExchangeEvent → Bool) × OrderRequest)
day =
    (all_room, request client_connect 0 0 (pos 0) 0)
    ∷ (all_room, request new_order_request 5 1 (pos 100) 3)
    ∷ (all_room, request cancel_order_request 5 0 (pos 0) 0)
    ∷ []

abbrev after_day : Server exchange
after_day = elim (serve exchange 1 day started) [ none ↦ started | some s ↦ s ]

day_served : serve exchange 1 day started ≡ some after_day
unfolding serve process_request submit_order cancel_order emit make_composite_key extract_session_id
    look_up put_key drop_key Exchange.on_client_connect Exchange.connect_from Exchange.symbol_index
    Exchange.erase_ids HashMap.find HashMap.insert HashMap.erase HashMap.bucket_for
    HashMap.find_from HashMap.insert_from HashMap.probe_find HashMap.probe_insert
    Engine.submit_order Engine.match_ladder Engine.fill_front Engine.match_level Engine.modify_order
    Engine.rest_remainder Engine.still_crosses Book.has_order Book.add_order Book.alloc_order
    Book.find_or_create_level Book.link_order Book.alloc_level Book.cancel_order Book.erase_level
    Book.erase_order Book.insert_level_sorted Book.level_at Book.order_qty Book.put_level
    Book.qty_in Book.remove_filled_order Book.remove_level Book.unlink_order
day_served = refl

abbrev late_order : OrderRequest
late_order = request new_order_request 9 0 (pos 98) 2

serve-Stands_example :
    Stands exchange (λ i. 8) (λ i. 4) after_day
    × Outcome
        (Safe exchange (λ i. 8) (λ i. 4) new_order_request after_day.core)
        (Stands exchange (λ i. 8) (λ i. 4))
        (process_request exchange all_room 1 late_order after_day)
serve-Stands_example =
    serve-Stands exchange (λ i. 8) (λ i. 4) 1 day started all_room late_order (omega arith)
      ((omega arith, omega arith), ((omega arith, omega arith), ((omega arith, omega arith), tt)))
      (omega arith, omega arith) ((λ i. (no_orders-IsValid, no_orders-Uncrossed)), refl) day_served

composite_key_round_trip_example :
    (extract_session_id (make_composite_key 3 9) ≡ 3)
    × ((t d : ℕ)
        → t < 2 ^ 16
        → d ≤ max_client_order_id
        → make_composite_key t d ≡ make_composite_key 3 9
        → (t ≡ 3) × (d ≡ 9))
composite_key_round_trip_example = composite_key_round_trip 3 9 (omega arith) (omega arith)

abbrev quote : NewOrder
quote = record {
  client_order_id = 5;
  symbol_id = 1;
  side = 1;
  price = pos 100;
  qty = 3;
  send_ts = pos 0;
}

abbrev taken : Core exchange
taken = elim (submit_order exchange 1 quote opened) [ none ↦ opened | some c ↦ c ]

accepted : submit_order exchange 1 quote opened ≡ some taken
unfolding Exchange.symbol_index HashMap.find HashMap.insert submit_order Engine.submit_order
    Book.has_order look_up Engine.match_ladder Book.add_order Book.alloc_order put_key
    Book.find_or_create_level emit
accepted = refl

no_entries-IsValid : {V : Type 0} (v : V) → IsValid (◌==◌) id_hash (no_entries v)
unfolding counts
no_entries-IsValid v = record {
  room = omega arith;
  load = omega arith;
  counts_full = refl;
  counts_tombstones = refl;
  reached = λ k i h. absurd (let e : false ≡ true = h.live in cc e);
  unique = λ k i j h g. absurd (let e : false ≡ true = h.live in cc e);
}

none_found :
    {V : Type 0} (v w : V) (k : ℕ) → (id_table V).find (no_entries v) k ≡ some w → none ≡ some w
unfolding HashMap.find HashMap.find_from HashMap.probe_find HashMap.bucket_for
none_found v w k h = h

opened-Matched : Matched exchange opened
opened-Matched = record {
  ids_valid = no_entries-IsValid _;
  reverse_valid = no_entries-IsValid _;
  forward = λ k e h. absurd (let z = none_found _ e k h in cc z);
  in_range = λ i r h. absurd (let z = none_found _ r i h in cc z);
  backward = λ i r h. absurd (let z = none_found _ r i h in cc z);
}

abbrev repeat : NewOrder
repeat = record {
  client_order_id = 5;
  symbol_id = 1;
  side = 0;
  price = pos 90;
  qty = 1;
  send_ts = pos 4;
}

-- The server with the first client connected.
abbrev joined : Server exchange
joined = record started {
  core = record opened { next_session_id = 2; active_sessions = λ i. i == 1 };
}

abbrev first_order : OrderRequest
first_order = request new_order_request 5 1 (pos 100) 3

abbrev in_between : List ((Queue → ExchangeEvent → Bool) × OrderRequest)
in_between =
    (all_room, request cancel_order_request 5 0 (pos 0) 0)
    ∷ (all_room, request client_connect 0 0 (pos 0) 0)
    ∷ (all_room, record (request client_disconnect 0 0 (pos 0) 0) { session_id = 2 })
    ∷ []

abbrev reached : Server exchange
reached = elim (serve exchange 1 ((all_room, first_order) ∷ in_between) joined) [
  | none ↦ joined
  | some s ↦ s
]

all_served : serve exchange 1 ((all_room, first_order) ∷ in_between) joined ≡ some reached
unfolding serve process_request submit_order cancel_order emit make_composite_key extract_session_id
    look_up put_key drop_key Exchange.on_client_connect Exchange.connect_from Exchange.symbol_index
    Exchange.erase_ids HashMap.find HashMap.insert HashMap.erase HashMap.bucket_for
    HashMap.find_from HashMap.insert_from HashMap.probe_find HashMap.probe_insert
    Engine.submit_order Engine.match_ladder Engine.fill_front Engine.match_level Engine.modify_order
    Engine.rest_remainder Engine.still_crosses Book.has_order Book.add_order Book.alloc_order
    Book.find_or_create_level Book.link_order Book.alloc_level Book.cancel_order Book.erase_level
    Book.erase_order Book.insert_level_sorted Book.level_at Book.order_qty Book.put_level
    Book.qty_in Book.remove_filled_order Book.remove_level Book.unlink_order
    Sessions.on_client_disconnect HashMap.entries_below
all_served = refl

ids_used_once_example :
    submit_order exchange 1 repeat reached.core
    ≡ some (record reached.core {
      events = reached.core.events ++ reject order_rejected 1 5 1 (pos 4) duplicate_order_id ∷ [];
    })
unfolding serve process_request submit_order cancel_order emit make_composite_key extract_session_id
    look_up put_key drop_key Exchange.on_client_connect Exchange.connect_from Exchange.symbol_index
    Exchange.erase_ids HashMap.find HashMap.insert HashMap.erase HashMap.bucket_for
    HashMap.find_from HashMap.insert_from HashMap.probe_find HashMap.probe_insert
    Engine.submit_order Engine.match_ladder Engine.fill_front Engine.match_level Engine.modify_order
    Engine.rest_remainder Engine.still_crosses Book.has_order Book.add_order Book.alloc_order
    Book.find_or_create_level Book.link_order Book.alloc_level Book.cancel_order Book.erase_level
    Book.erase_order Book.insert_level_sorted Book.level_at Book.order_qty Book.put_level
    Book.qty_in Book.remove_filled_order Book.remove_level Book.unlink_order
    Sessions.on_client_disconnect HashMap.entries_below
ids_used_once_example =
    ids_used_once exchange 1 all_room first_order in_between repeat joined 0 0 refl (omega arith)
      (omega arith) (omega arith) refl (no_entries-IsValid false) refl refl refl
      (refl, (refl, (refl, tt))) all_served refl refl (omega arith)

taken_fine : Serves exchange (λ i. 8) (λ i. 4) (Matched exchange opened) opened 257 (some taken)
taken_fine =
    subst (Serves exchange (λ i. 8) (λ i. 4) (Matched exchange opened) opened 257) accepted (
      submit_order-Serves exchange (λ i. 8) (λ i. 4) 1 quote opened
        (λ i. (no_orders-IsValid, no_orders-Uncrossed)) (omega arith))

submit_order-Serves_example :
    Serves exchange
      (λ i. 8)
      (λ i. 4)
      (Matched exchange opened)
      opened
      (most_events exchange (λ i. 8) (λ i. 4))
      (submit_order exchange 1 quote opened)
submit_order-Serves_example =
    submit_order-Serves exchange (λ i. 8) (λ i. 4) 1 quote opened
      (λ i. (no_orders-IsValid, no_orders-Uncrossed)) (omega arith)

abbrev withdraw : CancelOrder
withdraw = record { client_order_id = 5; symbol_id = 1; send_ts = pos 6 }

abbrev withdrawn : Core exchange
withdrawn = elim (cancel_order exchange 1 withdraw taken) [ none ↦ taken | some c ↦ c ]

ids-IsValid : IsValid (◌==◌) id_hash taken.id_map
unfolding Exchange.symbol_index HashMap.find HashMap.insert submit_order Engine.submit_order
    Book.has_order look_up Engine.match_ladder Book.add_order Book.alloc_order put_key
    Book.find_or_create_level emit
ids-IsValid =
    (id_table IdEntry).insert-IsValid opened.id_map (make_composite_key 1 5)
      (record { exchange_id = 1; side = ask; symbol_id = 1 })
      (no_entries-IsValid (record { exchange_id = 0; side = bid; symbol_id = 0 })) refl

cancelled : cancel_order exchange 1 withdraw taken ≡ some withdrawn
unfolding Exchange.symbol_index HashMap.find HashMap.insert submit_order Engine.submit_order
    Book.has_order look_up Engine.match_ladder Book.add_order Book.alloc_order put_key
    Book.find_or_create_level emit cancel_order make_composite_key Book.cancel_order Book.link_order
    Book.level_at Book.put_level Book.insert_level_sorted Book.erase_level Book.erase_order
    Book.remove_level Book.unlink_order drop_key HashMap.erase Exchange.erase_ids
cancelled = refl

cancelled_is_gone_example :
    (Book.has_order T L (withdrawn.books 0) 1 ≡ false)
    × (cancel_order exchange 1 withdraw withdrawn
        ≡ emit exchange (reject cancel_rejected 1 5 0 (pos 6) order_not_found) withdrawn)
unfolding Exchange.symbol_index HashMap.find HashMap.insert submit_order Engine.submit_order
    Book.has_order look_up Engine.match_ladder Book.add_order Book.alloc_order put_key
    Book.find_or_create_level emit cancel_order make_composite_key Book.cancel_order Book.link_order
    Book.level_at Book.put_level Book.insert_level_sorted Book.erase_level Book.erase_order
    Book.remove_level Book.unlink_order drop_key HashMap.erase Exchange.erase_ids
cancelled_is_gone_example =
    cancelled_is_gone exchange 8 4 1 withdraw withdraw taken 0 0
      (record { exchange_id = 1; side = ask; symbol_id = 1 }) (taken_fine.0 0).0 ids-IsValid
      (omega arith) refl refl refl cancelled refl refl
