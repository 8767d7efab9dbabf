-- ===== src/Strategy.antt =====
-- apps/tick_to_trade/spread_strategy.hpp: the best bid and offer of each symbol, and the signals that a wide
-- spread gives. The array is a function of the symbol index.
pub mod Signals
use low_latency_tick_to_trad.Prelude.{
  ℕ, zero, suc, ◌+◌, ◌-◌, ◌*◌, ◌%◌, ◌≤◌, ◌<◌, ◌≡◌, ◌≢◌, refl, sym, subst, ◌∙◌, ap, Bool, true,
  false, not, ◌&&◌, ◌||◌, Option, none, some, List, [], ◌∷◌, ◌++◌, arith, ltb, leb, ◌==◌, ==_iff,
  if◌then◌else◌, length, length-append, append-nil, append_assoc, min, max, Bool-cases,
  Option-cases, inl, inr, ◌⊎◌, ◌^◌,
}
use low_latency_tick_to_trad.Protocol.{MarketDataUpdate, side_code, bbo_update}
use low_latency_tick_to_trad.Types.{Price, Qty, bid, ask}
use low_latency_tick_to_trad.Orders.{Signal, set_at}
use low_latency_tick_to_trad.Prelude.Int.{ltb_ℤ, ◌-ℤ◌}

pub record SymbolBbo : Type 0 where
  pub best_bid : Price
  pub best_ask : Price
  pub has_bid : Bool
  pub has_ask : Bool
  pub buy_next : Bool

pub record SpreadStrategy : Type 0 where
  pub spread_threshold : Price
  pub default_qty : Qty
  pub bbo : ℕ → SymbolBbo
  pub signals_generated : ℕ

-- The update of one side.
abbrev pub update_bbo : SymbolBbo → MarketDataUpdate → SymbolBbo
update_bbo b u =
    if u.side == side_code bid
    then record b { best_bid = u.price; has_bid = true }
    else record b { best_ask = u.price; has_ask = true }

unfoldable pub on_market_data :
    ℕ → SpreadStrategy → MarketDataUpdate → SpreadStrategy × Option Signal
on_market_data symbols st u =
    let i = u.symbol_id - 1 in
    let b = update_bbo (st.bbo i) u in
    let updated = record st { bbo = set_at st.bbo i b } in
    let side = if b.buy_next then bid else ask in
    if not (u.md_msg_type == bbo_update)
    then (st, none)
    else if u.symbol_id == 0 || ltb symbols u.symbol_id
    then (st, none)
    else if not (b.has_bid && b.has_ask)
    then (updated, none)
    else if not (ltb_ℤ b.best_bid b.best_ask)
    then (updated, none)
    else if ltb_ℤ st.spread_threshold (b.best_ask -ℤ b.best_bid)
    then (
      record st {
        bbo = set_at st.bbo i (record b { buy_next = not b.buy_next });
        signals_generated = (st.signals_generated + 1) % 2 ^ 64;
      },
      some (record {
        side = side;
        price = if b.buy_next then b.best_ask else b.best_bid;
        qty = st.default_qty;
        symbol_id = u.symbol_id;
      }),
    )
    else (updated, none)
