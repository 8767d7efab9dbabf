-- ===== src/Strategy/Signals.antt =====
-- When `on_market_data` of apps/tick_to_trade/spread_strategy.hpp signals, and what.
use low_latency_tick_to_trad.Prelude.{
  ℕ, ◌+◌, ◌-◌, ◌≡◌, refl, sym, ap, Bool, true, false, not, ◌&&◌, ◌||◌, Option, none, some, arith,
  ltb, leb, ◌==◌, ==_iff, if◌then◌else◌, Bool-cases, inl, inr, ◌%◌, ◌≢◌, ◌^◌,
}
use low_latency_tick_to_trad.Types.{Price, is_bid, bid, ask}
use low_latency_tick_to_trad.Strategy.{SpreadStrategy, on_market_data, SymbolBbo, update_bbo}
use low_latency_tick_to_trad.Protocol.{MarketDataUpdate, bbo_update, side_code}
use low_latency_tick_to_trad.Orders.{Signal, set_at}
use low_latency_tick_to_trad.Prelude.Int.{ltb_ℤ, ◌-ℤ◌}

-- The update concerns a symbol of the universe and is one of its best prices.
abbrev pub concerns : ℕ → MarketDataUpdate → Bool
concerns symbols u = u.md_msg_type == bbo_update && (ltb 0 u.symbol_id && leb u.symbol_id symbols)

-- Both sides are known, the offer is above the bid, and by more than the threshold.
abbrev pub wide : Price → SymbolBbo → Bool
wide threshold b =
    b.has_bid
    && b.has_ask
    && (ltb_ℤ b.best_bid b.best_ask && ltb_ℤ threshold (b.best_ask -ℤ b.best_bid))

abbrev pub is_some {ℓ} : {A : Type ℓ} → Option A → Bool
is_some none = false
is_some (some x) = true

-- A best price of the bid's side is stored as the bid, any other as the offer; the other side and
-- the turn stay as they were.
pub record Stores (old : SymbolBbo) (u : MarketDataUpdate) (new : SymbolBbo) : Type 0 where
  pub bid_side : u.side ≡ side_code bid → (new.best_bid ≡ u.price) × (new.has_bid ≡ true)
  pub bid_kept :
      u.side ≢ side_code bid → (new.best_bid ≡ old.best_bid) × (new.has_bid ≡ old.has_bid)
  pub ask_side : u.side ≢ side_code bid → (new.best_ask ≡ u.price) × (new.has_ask ≡ true)
  pub ask_kept :
      u.side ≡ side_code bid → (new.best_ask ≡ old.best_ask) × (new.has_ask ≡ old.has_ask)

-- A signal buys at the offer or sells at the bid, in turns, for the strategy's quantity.
pub record Alternates (st : SpreadStrategy) (u : MarketDataUpdate) (r : SpreadStrategy) (g : Signal)
    : Type 0 where
  pub turn : is_bid g.side ≡ (update_bbo (st.bbo (u.symbol_id - 1)) u).buy_next
  pub next_turn : (r.bbo (u.symbol_id - 1)).buy_next ≡ not (is_bid g.side)
  pub crosses_spread : g.price ≡ (
      if is_bid g.side
      then (update_bbo (st.bbo (u.symbol_id - 1)) u).best_ask
      else (update_bbo (st.bbo (u.symbol_id - 1)) u).best_bid)
  pub sized : g.qty ≡ st.default_qty
  pub symbol : g.symbol_id ≡ u.symbol_id
  pub counted : r.signals_generated ≡ (st.signals_generated + 1) % 2 ^ 64

abbrev pub Signalled : SpreadStrategy → MarketDataUpdate → SpreadStrategy × Option Signal → Type 0
Signalled st u (r, none) = r.signals_generated ≡ st.signals_generated
Signalled st u (r, some g) = Alternates st u r g

pub record Responds (symbols : ℕ) (st : SpreadStrategy) (u : MarketDataUpdate)
    (r : SpreadStrategy × Option Signal) : Type 0 where
  pub signals :
      is_some r.1
      ≡ (concerns symbols u && wide st.spread_threshold (update_bbo (st.bbo (u.symbol_id - 1)) u))
  pub others : (j : ℕ) → (j == u.symbol_id - 1) ≡ false → r.0.bbo j ≡ st.bbo j
  pub signalled : Signalled st u r
  pub stored :
      concerns symbols u ≡ true → Stores (st.bbo (u.symbol_id - 1)) u (r.0.bbo (u.symbol_id - 1))
  pub turn_kept :
      is_some r.1 ≡ false
      → (r.0.bbo (u.symbol_id - 1)).buy_next ≡ (st.bbo (u.symbol_id - 1)).buy_next
  pub unconcerned :
      concerns symbols u ≡ false → r.0.bbo (u.symbol_id - 1) ≡ st.bbo (u.symbol_id - 1)

-- Only the sides' prices and marks count.
same_sides :
    (old : SymbolBbo) (u : MarketDataUpdate) (new : SymbolBbo)
    → Stores old u new
    → (turn : Bool) → Stores old u (record new { buy_next = turn })
same_sides old u new v turn = record {
  bid_side = v.bid_side;
  bid_kept = v.bid_kept;
  ask_side = v.ask_side;
  ask_kept = v.ask_kept;
}

update_bbo-Stores : (b : SymbolBbo) (u : MarketDataUpdate) → Stores b u (update_bbo b u)
update_bbo-Stores b u = elim (Bool-cases (u.side == side_code bid)) [
  | inl e ↦ rw e (record {
    bid_side = λ h. (refl, refl);
    bid_kept = λ h. absurd (h ((==_iff u.side (side_code bid)).0 e));
    ask_side = λ h. absurd (h ((==_iff u.side (side_code bid)).0 e));
    ask_kept = λ h. (refl, refl);
  })
  | inr e ↦ rw e (record {
    bid_side = λ h. absurd (let y = (==_iff u.side (side_code bid)).1 h in cc (y, e));
    bid_kept = λ h. (refl, refl);
    ask_side = λ h. (refl, refl);
    ask_kept = λ h. absurd (let y = (==_iff u.side (side_code bid)).1 h in cc (y, e));
  })
]

update_bbo_turn : (b : SymbolBbo) (u : MarketDataUpdate) → (update_bbo b u).buy_next ≡ b.buy_next
update_bbo_turn b u = elim (Bool-cases (u.side == side_code bid)) [
  | inl e ↦ rw e refl
  | inr e ↦ rw e refl
]

quiet :
    (symbols : ℕ) (st : SpreadStrategy) (u : MarketDataUpdate)
    → concerns symbols u ≡ false
    → Responds symbols st u (st, none)
quiet symbols st u e = record {
  signals = rw e refl;
  others = λ j h. refl;
  signalled = refl;
  stored = λ h. absurd (cc (e, h));
  turn_kept = λ h. refl;
  unconcerned = λ h. refl;
}

updated_quiet :
    (symbols : ℕ) (st : SpreadStrategy) (u : MarketDataUpdate)
    → concerns symbols u ≡ true
    → wide st.spread_threshold (update_bbo (st.bbo (u.symbol_id - 1)) u) ≡ false
    → Responds symbols st u (
      record st { bbo = set_at st.bbo (u.symbol_id - 1) (update_bbo (st.bbo (u.symbol_id - 1)) u) },
      none,
    )
updated_quiet symbols st u c e =
    let here : (u.symbol_id - 1 == u.symbol_id - 1) ≡ true =
      (==_iff (u.symbol_id - 1) (u.symbol_id - 1)).1 refl in
    record {
      signals = rw (c, e) refl;
      others = λ j h. rw h refl;
      signalled = refl;
      stored = λ h. rw here (update_bbo-Stores (st.bbo (u.symbol_id - 1)) u);
      turn_kept = λ h. rw here (update_bbo_turn (st.bbo (u.symbol_id - 1)) u);
      unconcerned = λ h. absurd (cc (c, h));
    }

turn_side : (c : Bool) → is_bid (if c then bid else ask) ≡ c
turn_side true = refl
turn_side false = refl

one_sided : (t : Price) (b : SymbolBbo) → (b.has_bid && b.has_ask) ≡ false → wide t b ≡ false
one_sided t b g = ground (arith, g)

crossed : (t : Price) (b : SymbolBbo) → ltb_ℤ b.best_bid b.best_ask ≡ false → wide t b ≡ false
crossed t b h = ground (arith, h)

narrow : (t : Price) (b : SymbolBbo) → ltb_ℤ t (b.best_ask -ℤ b.best_bid) ≡ false → wide t b ≡ false
narrow t b k = ground (arith, k)

wide_enough :
    (t : Price) (b : SymbolBbo)
    → (b.has_bid && b.has_ask) ≡ true
    → ltb_ℤ b.best_bid b.best_ask ≡ true
    → ltb_ℤ t (b.best_ask -ℤ b.best_bid) ≡ true
    → wide t b ≡ true
wide_enough t b g h k = ground (arith, g, h, k)

fires :
    (symbols : ℕ) (st : SpreadStrategy) (u : MarketDataUpdate)
    → concerns symbols u ≡ true
    → wide st.spread_threshold (update_bbo (st.bbo (u.symbol_id - 1)) u) ≡ true
    → Responds symbols st u (
      record st {
        bbo = set_at st.bbo (u.symbol_id - 1) (record (update_bbo (st.bbo (u.symbol_id - 1)) u) {
          buy_next = not (update_bbo (st.bbo (u.symbol_id - 1)) u).buy_next;
        });
        signals_generated = (st.signals_generated + 1) % 2 ^ 64;
      },
      some (record {
        side = if (update_bbo (st.bbo (u.symbol_id - 1)) u).buy_next then bid else ask;
        price =
            if (update_bbo (st.bbo (u.symbol_id - 1)) u).buy_next
            then (update_bbo (st.bbo (u.symbol_id - 1)) u).best_ask
            else (update_bbo (st.bbo (u.symbol_id - 1)) u).best_bid;
        qty = st.default_qty;
        symbol_id = u.symbol_id;
      }),
    )
fires symbols st u c e =
    let b : SymbolBbo = update_bbo (st.bbo (u.symbol_id - 1)) u in
    let here : (u.symbol_id - 1 == u.symbol_id - 1) ≡ true =
      (==_iff (u.symbol_id - 1) (u.symbol_id - 1)).1 refl in
    record {
      signals = rw (c, e) refl;
      others = λ j h. rw h refl;
      stored = λ h. rw here (
          same_sides (st.bbo (u.symbol_id - 1)) u b (update_bbo-Stores (st.bbo (u.symbol_id - 1)) u)
            (not b.buy_next));
      turn_kept = λ h. absurd (cc h);
      unconcerned = λ h. absurd (cc (c, h));
      signalled = record {
        turn = turn_side b.buy_next;
        next_turn =
            rw ((==_iff (u.symbol_id - 1) (u.symbol_id - 1)).1 refl)
              (ap not (sym (turn_side b.buy_next)));
        crosses_spread =
            ap (λ (c : Bool). if c then b.best_ask else b.best_bid) (sym (turn_side b.buy_next));
        sized = refl;
        symbol = refl;
        counted = refl;
      };
    }

-- A market-data update gives a signal exactly if it is a best price of a symbol of the universe
-- and, with it, both sides are known and the offer is above the bid by more than the threshold. A
-- signal is for that symbol and the default quantity, buys at the best offer or sells at the best
-- bid in turns, and is counted modulo 2 ^ 64. Every best price of a symbol of the universe is
-- stored, with or without a signal, the other side staying as it was; only a signal changes the
-- turn; any other update and any other symbol's prices change nothing.
pub on_market_data-Responds :
    (symbols : ℕ) (st : SpreadStrategy) (u : MarketDataUpdate)
    → Responds symbols st u (on_market_data symbols st u)
unfolding on_market_data
on_market_data-Responds symbols st u =
    let i = u.symbol_id - 1 in
    let t = st.spread_threshold in
    let b : SymbolBbo = update_bbo (st.bbo i) u in
    elim (Bool-cases (u.md_msg_type == bbo_update)) [
      | inr e ↦ rw e (quiet symbols st u (ground (arith, e)))
      | inl e ↦ elim (Bool-cases (u.symbol_id == 0 || ltb symbols u.symbol_id)) [
        | inl f ↦ rw (e, f) (quiet symbols st u (ground (arith, f)))
        | inr f ↦
            let c : concerns symbols u ≡ true = ground (arith, e, f) in
            elim (Bool-cases (b.has_bid && b.has_ask)) [
              | inr g ↦ rw (e, f, g) (updated_quiet symbols st u c (one_sided t b g))
              | inl g ↦ elim (Bool-cases (ltb_ℤ b.best_bid b.best_ask)) [
                | inr h ↦ rw (e, f, g, h) (updated_quiet symbols st u c (crossed t b h))
                | inl h ↦ elim (Bool-cases (ltb_ℤ t (b.best_ask -ℤ b.best_bid))) [
                  | inr k ↦ rw (e, f, g, h, k) (updated_quiet symbols st u c (narrow t b k))
                  | inl k ↦ rw (e, f, g, h, k) (fires symbols st u c (wide_enough t b g h k))
                ]
              ]
            ]
      ]
    ]
