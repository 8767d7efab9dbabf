-- ===== src/Tests/Trading.antt =====
-- Signals, risk checks and the kill switch on concrete inputs (apps/tick_to_trade).
use low_latency_tick_to_trad.Prelude.{
  ℕ, ◌+◌, ◌≡◌, refl, true, false, some, List, [], ◌∷◌, leb, ◌==◌, ==_iff, if◌then◌else◌, length,
  arith,
}
use low_latency_tick_to_trad.Orders.Kill.{Event, Killed, signal, run, kill_is_final, filled}
use low_latency_tick_to_trad.Orders.{
  Limits, ActiveOrder, Services, Manager, on_signal, Signal, trigger_kill_switch, is_normal,
  complete, normal, draining, OrderInfo,
}
use low_latency_tick_to_trad.Orders.Drain.{CancelResponse, respond_all, reject, drain_completes}
use low_latency_tick_to_trad.Strategy.{SymbolBbo, on_market_data, SpreadStrategy}
use low_latency_tick_to_trad.Protocol.{MarketDataUpdate, FillReport}
use low_latency_tick_to_trad.Orders.Risk.{Outcome, on_signal-Outcome}
use low_latency_tick_to_trad.Strategy.Signals.{Responds, on_market_data-Responds}
use low_latency_tick_to_trad.Types.{bid, Qty, ask}
use low_latency_tick_to_trad.Tests.Tables.{look_up, put_key, assoc_table}
use low_latency_tick_to_trad.Prelude.Int.{◌*ℤ◌, ◌-ℤ◌, ◌+ℤ◌, pos}
use low_latency_tick_to_trad.Orders.Positions.{fill_all, filled_qty, fills_accumulate}

-- A manager over an association list, with a wheel that counts its timers.
abbrev services : Services
services = record {
  table = assoc_table ◌==◌ ==_iff 8;
  needs_rebuild = λ m. false;
  for_each = λ m. m;
  Wheel = ℕ;
  schedule = λ w i d. (w + 1, w);
  cancel_timer = λ w h. w;
  reset = λ w. 0;
  tick = λ w. (w, []);
}

abbrev limits : Limits
limits = record {
  max_position = pos 100;
  max_order_size = 1000;
  max_notional = pos 50000000;
  bucket_capacity = 10;
  refill_interval_ns = 1000;
  order_timeout_ns = 5000000000;
  max_symbols = 2;
  max_outstanding = 4;
  max_outstanding_per_symbol = 2;
}

abbrev idle : ActiveOrder
idle = record { client_order_id = 0; price = pos 0; qty = 0; resting = false }

abbrev fresh : Manager services
fresh = record {
  next_order_id = 1;
  outstanding_count = 0;
  tokens = 10;
  last_refill_ts = pos 0;
  kill_switch_state = normal;
  pending_cancel_count = 0;
  outstanding = [];
  wheel = 0;
  last_advance_ns = pos 0;
  net_position = λ i. pos 0;
  outstanding_per_symbol = λ i. 0;
  active_orders = λ i s. idle;
  rejects = record {
    killswitch = 0;
    outstanding = 0;
    per_symbol = 0;
    size = 0;
    notional = 0;
    rate = 0;
    position = 0;
  };
  stats = record {
    acks_received = 0;
    rejects_received = 0;
    fills_received = 0;
    total_fill_qty = 0;
    modifies_sent = 0;
    modifies_acked = 0;
    modifies_rejected = 0;
    timeouts_fired = 0;
  };
}

abbrev buy : Signal
buy = record { side = bid; price = pos 1000; qty = 10; symbol_id = 1 }

abbrev one_sent : Manager services
one_sent = (on_signal services limits fresh buy (pos 5000) (pos 5001)).0

on_signal-Outcome_example :
    Outcome services limits fresh buy
      (pos 5000)
      (pos 5001)
      (on_signal services limits fresh buy (pos 5000) (pos 5001))
on_signal-Outcome_example = on_signal-Outcome services limits fresh buy (pos 5000) (pos 5001)

-- The order goes out.
sent :
    (on_signal services limits fresh buy (pos 5000) (pos 5001)).1
    ≡ some (record {
      client_order_id = 1;
      symbol_id = 1;
      side = 0;
      price = pos 1000;
      qty = 10;
      send_ts = pos 5001;
    })
unfolding on_signal ◌*ℤ◌ ◌-ℤ◌ ◌+ℤ◌ put_key
sent = refl

abbrev later : List Event
later =
    signal buy (pos 7000) (pos 7001)
    ∷ filled (record {
      client_order_id = 1;
      exchange_order_id = 9;
      fill_price = pos 1000;
      fill_qty = 10;
      remaining_qty = 0;
      send_ts = pos 5001;
    })
    ∷ []

kill_is_final_example :
    Killed services limits
      (run services limits later (trigger_kill_switch services limits one_sent (pos 6000)).0).0
    × ((run services limits later (trigger_kill_switch services limits one_sent (pos 6000)).0).1
        ≡ true)
kill_is_final_example = kill_is_final services limits one_sent (pos 6000) later

abbrev answers : List CancelResponse
answers = reject (record { client_order_id = 1; reason = 5; send_ts = pos 6000 }) ∷ []

one_sent_normal : is_normal one_sent.kill_switch_state ≡ true
unfolding on_signal ◌*ℤ◌ ◌-ℤ◌ ◌+ℤ◌ put_key
one_sent_normal = refl

drain_completes_example :
    (respond_all services limits answers
      (trigger_kill_switch services limits one_sent (pos 6000)).0).kill_switch_state
    ≡ (if leb (length (trigger_kill_switch services limits one_sent (pos 6000)).1) (length answers)
        then complete
        else draining)
drain_completes_example =
    drain_completes services limits one_sent (pos 6000) answers one_sent_normal

abbrev quiet_symbol : SymbolBbo
quiet_symbol = record {
  best_bid = pos 990;
  best_ask = pos 0;
  has_bid = true;
  has_ask = false;
  buy_next = true;
}

abbrev strategy : SpreadStrategy
strategy = record {
  spread_threshold = pos 5;
  default_qty = 10;
  bbo = λ i. quiet_symbol;
  signals_generated = 0;
}

abbrev offer : MarketDataUpdate
offer = record {
  seq_num = 1;
  symbol_id = 1;
  md_msg_type = 0;
  side = 1;
  price = pos 1000;
  qty = 3;
  exchange_ts = pos 0;
}

on_market_data-Responds_example : Responds 2 strategy offer (on_market_data 2 strategy offer)
on_market_data-Responds_example = on_market_data-Responds 2 strategy offer

signalled :
    (on_market_data 2 strategy offer).1
    ≡ some (record { side = bid; price = pos 1000; qty = 10; symbol_id = 1 })
unfolding on_market_data ◌-ℤ◌
signalled = refl

abbrev sent_info : OrderInfo
sent_info = record {
  side = bid;
  price = pos 1000;
  qty = 10;
  symbol_id = 1;
  send_ts = pos 5001;
  timer_handle = 0;
}

abbrev part : Qty → FillReport
part q = record {
  client_order_id = 1;
  exchange_order_id = 9;
  fill_price = pos 1000;
  fill_qty = q;
  remaining_qty = 2;
  send_ts = pos 5001;
}

sent_known : services.table.find one_sent.outstanding 1 ≡ some sent_info
unfolding on_signal ◌*ℤ◌ ◌-ℤ◌ ◌+ℤ◌ put_key look_up
sent_known = refl

fills_accumulate_example :
    (bid ≡ bid
      → (fill_all services limits (part 3 ∷ part 5 ∷ []) one_sent).net_position 0
        ≡ one_sent.net_position 0 +ℤ pos (filled_qty (part 3 ∷ part 5 ∷ [])))
    × (bid ≡ ask
        → (fill_all services limits (part 3 ∷ part 5 ∷ []) one_sent).net_position 0
          ≡ one_sent.net_position 0 -ℤ pos (filled_qty (part 3 ∷ part 5 ∷ [])))
    × ((i : ℕ)
        → (i == 0) ≡ false
        → (fill_all services limits (part 3 ∷ part 5 ∷ []) one_sent).net_position i
          ≡ one_sent.net_position i)
fills_accumulate_example =
    fills_accumulate services limits one_sent 1 sent_info (part 3 ∷ part 5 ∷ []) sent_known
      (omega arith) (omega arith) (omega arith) ((refl, omega arith), ((refl, omega arith), tt))
