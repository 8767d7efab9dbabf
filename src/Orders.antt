-- ===== src/Orders.antt =====
-- apps/tick_to_trade/order_manager.hpp with order_types.hpp and the Signal of strategy_policy.hpp: order
-- lifecycle, pre-trade risk and the kill switch. The arrays of a context are functions of the symbol
-- index. A reading of the clock is an argument. The statistics are kept without wrap-around; all other
-- 32-bit counters wrap.
pub mod Responses
pub mod Risk
pub mod Kill
pub mod Drain
pub mod Positions
use low_latency_tick_to_trad.Prelude.{
  ℕ, zero, suc, ◌+◌, ◌-◌, ◌*◌, ◌%◌, ◌≤◌, ◌<◌, ◌≡◌, ◌≢◌, refl, sym, subst, ◌∙◌, ap, Bool, true,
  false, not, ◌&&◌, ◌||◌, Option, none, some, List, [], ◌∷◌, ◌++◌, arith, ltb, leb, ◌==◌, ==_iff,
  if◌then◌else◌, length, length-append, append-nil, append_assoc, min, max, Bool-cases,
  Option-cases, inl, inr, ◌⊎◌, ◌^◌, ◌/◌, take,
}
use low_latency_tick_to_trad.Table.{Table}
use low_latency_tick_to_trad.Protocol.{NewOrder, ModifyOrder, CancelOrder, side_code}
use low_latency_tick_to_trad.Prelude.Int.{ℤ, ◌-ℤ◌, ltb_ℤ, pos, ◌*ℤ◌, ◌+ℤ◌, pos_part}
use low_latency_tick_to_trad.Types.{Side, Price, Qty, bid, ask}
use low_latency_tick_to_trad.Prelude.Word.{◌==ℤ◌, u32, add32, sub32}

pub record Signal : Type 0 where
  pub side : Side
  pub price : Price
  pub qty : Qty
  pub symbol_id : ℕ

pub record OrderInfo : Type 0 where
  pub side : Side
  pub price : Price
  pub qty : Qty
  pub symbol_id : ℕ
  pub send_ts : ℤ
  pub timer_handle : ℕ

pub record ActiveOrder : Type 0 where
  pub client_order_id : ℕ
  pub price : Price
  pub qty : Qty
  pub resting : Bool

pub data KillSwitchState : Type 0 where
  normal cancelling draining complete : KillSwitchState

abbrev pub is_normal : KillSwitchState → Bool
is_normal normal = true
is_normal _ = false

-- What the manager calls of ds::HashMap besides the table, and of ds::TimingWheel. A tick answers the
-- contexts of the timers that expire, in the order of their callbacks.
pub record Services : Type 1 where
  pub table : Table ℕ OrderInfo
  pub needs_rebuild : table.Map → Bool
  pub for_each : table.Map → List (ℕ × OrderInfo)
  pub Wheel : Type 0
  pub schedule : Wheel → ℕ → ℕ → Wheel × ℕ
  pub cancel_timer : Wheel → ℕ → Wheel
  pub reset : Wheel → Wheel
  pub tick : Wheel → Wheel × List ℕ

-- The constants of a manager and of its context.
pub record Limits : Type 0 where
  pub max_position : ℤ
  pub max_order_size : Qty
  pub max_notional : ℤ
  pub bucket_capacity : ℕ
  pub refill_interval_ns : ℕ
  pub order_timeout_ns : ℕ
  pub max_symbols : ℕ
  pub max_outstanding : ℕ
  pub max_outstanding_per_symbol : ℕ

-- `kTickIntervalNs`
abbrev pub tick_interval_ns : ℕ
tick_interval_ns = 1000000

pub record Rejects : Type 0 where
  pub killswitch : ℕ
  pub outstanding : ℕ
  pub per_symbol : ℕ
  pub size : ℕ
  pub notional : ℕ
  pub rate : ℕ
  pub position : ℕ

pub record Statistics : Type 0 where
  pub acks_received : ℕ
  pub rejects_received : ℕ
  pub fills_received : ℕ
  pub total_fill_qty : ℕ
  pub modifies_sent : ℕ
  pub modifies_acked : ℕ
  pub modifies_rejected : ℕ
  pub timeouts_fired : ℕ

-- `array[i] = x`
abbrev pub set_at {ℓ} : {A : Type ℓ} → (ℕ → A) → ℕ → A → ℕ → A
set_at f i x j = if j == i then x else f j

abbrev pub same_side : Side → Side → Bool
same_side bid bid = true
same_side ask ask = true
same_side _ _ = false

-- `active_orders[symbol index * kSideCount + side] = x`
abbrev pub set_active : (ℕ → Side → ActiveOrder) → ℕ → Side → ActiveOrder → ℕ → Side → ActiveOrder
set_active f i s x j t = if j == i && same_side t s then x else f j t

-- `position += qty` of a bid, `position -= qty` of an ask
abbrev pub moved : Side → ℤ → Qty → ℤ
moved bid p q = p +ℤ pos q
moved ask p q = p -ℤ pos q

abbrev pub abs_position : ℤ → ℤ
abs_position p = if ltb_ℤ p (pos 0) then pos 0 -ℤ p else p

module _ (sv : Services) where
  pub record Manager : Type 0 where
    pub next_order_id : ℕ
    pub outstanding_count : ℕ
    pub tokens : ℕ
    pub last_refill_ts : ℤ
    pub kill_switch_state : KillSwitchState
    pub pending_cancel_count : ℕ
    pub outstanding : sv.table.Map
    pub wheel : sv.Wheel
    pub last_advance_ns : ℤ
    pub net_position : ℕ → ℤ
    pub outstanding_per_symbol : ℕ → ℕ
    pub active_orders : ℕ → Side → ActiveOrder
    pub rejects : Rejects
    pub stats : Statistics

  unfoldable pub check_modify : Manager → Signal → ℤ → Manager × Option ModifyOrder
  check_modify m g now =
      let active = m.active_orders (g.symbol_id - 1) g.side in
      if not (is_normal m.kill_switch_state)
      then (m, none)
      else if not active.resting
      then (m, none)
      else if active.price ==ℤ g.price
      then (m, none)
      else (
        record m {
          active_orders =
              set_active m.active_orders (g.symbol_id - 1) g.side
                (record active { price = g.price; qty = g.qty });
          stats = record m.stats { modifies_sent = m.stats.modifies_sent + 1 };
        },
        some (record {
          client_order_id = active.client_order_id;
          symbol_id = g.symbol_id;
          new_price = g.price;
          new_qty = g.qty;
          send_ts = now;
        }),
      )

  module _ (lim : Limits) where
    -- The token bucket: one token for each whole interval since the last refill, up to the capacity.
    unfoldable pub refill : Manager → ℤ → Manager
    refill m now =
        let elapsed = now -ℤ m.last_refill_ts in
        let new_tokens = (pos_part elapsed / lim.refill_interval_ns) % u32 in
        if ltb_ℤ elapsed (pos lim.refill_interval_ns) then m else record m {
          tokens = min (add32 m.tokens new_tokens) lim.bucket_capacity;
          last_refill_ts = m.last_refill_ts +ℤ pos (new_tokens * lim.refill_interval_ns);
        }

    -- `on_signal` once all risk checks have passed: the order is tracked, with a timer, and a token is
    -- spent. If the map refuses it, the timer is cancelled; the id is used up all the same.
    unfoldable pub emit_order : Manager → Signal → ℤ → Manager × Option NewOrder
    emit_order m g send_ts =
        let id = m.next_order_id in
        let next = (id + 1) % 2 ^ 64 in
        let i = g.symbol_id - 1 in
        let timer = sv.schedule m.wheel id (lim.order_timeout_ns / tick_interval_ns) in
        let info : OrderInfo = record {
          side = g.side;
          price = g.price;
          qty = g.qty;
          symbol_id = g.symbol_id;
          send_ts = send_ts;
          timer_handle = timer.1;
        } in
        elim (sv.table.insert m.outstanding id info) [
          | none ↦
              (record m { next_order_id = next; wheel = sv.cancel_timer timer.0 timer.1 }, none)
          | some t ↦ (
            record m {
              next_order_id = next;
              wheel = timer.0;
              outstanding = t;
              outstanding_count = add32 m.outstanding_count 1;
              outstanding_per_symbol =
                  set_at m.outstanding_per_symbol i (add32 (m.outstanding_per_symbol i) 1);
              active_orders =
                  set_active m.active_orders i g.side
                    (record { client_order_id = id; price = g.price; qty = g.qty; resting = true });
              tokens = sub32 m.tokens 1;
            },
            some (record {
              client_order_id = id;
              symbol_id = g.symbol_id;
              side = side_code g.side;
              price = g.price;
              qty = g.qty;
              send_ts = send_ts;
            }),
          )
        ]

    abbrev pub refuse : Manager → Rejects → Manager × Option NewOrder
    refuse m r = (record m { rejects = r }, none)

    -- Risk checks 6 and 7, with the tokens refilled: the rate and the worst-case position.
    unfoldable pub check_rate_and_position : Manager → Signal → ℤ → Manager × Option NewOrder
    unfolding emit_order
    check_rate_and_position m g send_ts =
        let projected = moved g.side (m.net_position (g.symbol_id - 1)) g.qty in
        if m.tokens == 0
        then refuse m (record m.rejects { rate = m.rejects.rate + 1 })
        else if ltb_ℤ lim.max_position (abs_position projected)
        then refuse m (record m.rejects { position = m.rejects.position + 1 })
        else emit_order m g send_ts

    -- Risk checks 1 to 5: kill switch, outstanding orders, those of the symbol, size, notional.
    unfoldable pub on_signal : Manager → Signal → ℤ → ℤ → Manager × Option NewOrder
    unfolding refill check_rate_and_position
    on_signal m g now send_ts =
        if not (is_normal m.kill_switch_state)
        then refuse m (record m.rejects { killswitch = m.rejects.killswitch + 1 })
        else if leb lim.max_outstanding m.outstanding_count
        then refuse m (record m.rejects { outstanding = m.rejects.outstanding + 1 })
        else if leb lim.max_outstanding_per_symbol (m.outstanding_per_symbol (g.symbol_id - 1))
        then refuse m (record m.rejects { per_symbol = m.rejects.per_symbol + 1 })
        else if ltb lim.max_order_size g.qty
        then refuse m (record m.rejects { size = m.rejects.size + 1 })
        else if ltb_ℤ lim.max_notional (g.price *ℤ pos g.qty)
        then refuse m (record m.rejects { notional = m.rejects.notional + 1 })
        else check_rate_and_position (refill m now) g send_ts

    unfoldable pub cancels_of : ℤ → List (ℕ × OrderInfo) → List CancelOrder
    cancels_of now [] = []
    cancels_of now ((id, info) ∷ es) =
        record { client_order_id = id; symbol_id = info.symbol_id; send_ts = now }
        ∷ cancels_of now es

    -- A cancel for every outstanding order that the buffer has room for.
    unfoldable pub trigger_kill_switch : Manager → ℤ → Manager × List CancelOrder
    unfolding cancels_of
    trigger_kill_switch m now =
        let batch = take lim.max_outstanding (cancels_of now (sv.for_each m.outstanding)) in
        if not (is_normal m.kill_switch_state) then (m, []) else (
          record m {
            kill_switch_state = if length batch == 0 then complete else draining;
            wheel = sv.reset m.wheel;
            pending_cancel_count = length batch;
          },
          batch,
        )
