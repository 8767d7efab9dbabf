-- ===== src/Orders/Risk.antt =====
-- The pre-trade risk of `on_signal` (apps/tick_to_trade/order_manager.hpp): what holds when an order goes out,
-- and what a refusal changes.
use low_latency_tick_to_trad.Prelude.{
  ◌+◌, ◌-◌, ◌%◌, ◌≤◌, ◌<◌, ◌≡◌, refl, true, false, Bool-cases, inl, inr, ◌^◌, Option, some,
  Option-cases, none, ◌/◌, leb, ltb, ◌==◌, ap, ==_iff, arith, subst, ℕ, sym,
}
use low_latency_tick_to_trad.Orders.{
  Services, Limits, Signal, refill, Manager, is_normal, abs_position, moved, emit_order, on_signal,
  Rejects, check_rate_and_position, same_side, tick_interval_ns, OrderInfo, set_at, set_active,
}
use low_latency_tick_to_trad.Prelude.Int.{ℤ, ltb_ℤ, ◌-ℤ◌, ◌*ℤ◌, pos}
use low_latency_tick_to_trad.Protocol.{NewOrder, side_code}
use low_latency_tick_to_trad.Prelude.Word.{sub32, add32}
use low_latency_tick_to_trad.Types.{Side, bid, ask}

module _ (sv : Services) (lim : Limits) where
  abbrev M : Type 0
  M = Manager sv

  -- An order that goes out: every limit held before it, and the manager has tracked it.
  pub record Sends (m : M) (g : Signal) (now send_ts : ℤ) (r : M) (o : NewOrder) : Type 0 where
    pub not_killed : is_normal m.kill_switch_state ≡ true
    pub outstanding_in_limit : m.outstanding_count < lim.max_outstanding
    pub symbol_in_limit :
        m.outstanding_per_symbol (g.symbol_id - 1) < lim.max_outstanding_per_symbol
    pub size_in_limit : g.qty ≤ lim.max_order_size
    pub notional_in_limit : ltb_ℤ lim.max_notional (g.price *ℤ pos g.qty) ≡ false
    pub position_in_limit :
        ltb_ℤ lim.max_position
          (abs_position (moved g.side (m.net_position (g.symbol_id - 1)) g.qty))
        ≡ false
    pub token_left : 0 < (refill sv lim m now).tokens
    pub token_spent : r.tokens ≡ sub32 (refill sv lim m now).tokens 1
    pub as_signalled :
        (o.client_order_id ≡ m.next_order_id)
        × (o.symbol_id ≡ g.symbol_id)
        × (o.side ≡ side_code g.side)
        × (o.price ≡ g.price)
        × (o.qty ≡ g.qty)
    pub counted :
        (r.outstanding_count ≡ add32 m.outstanding_count 1)
        × (r.outstanding_per_symbol (g.symbol_id - 1)
            ≡ add32 (m.outstanding_per_symbol (g.symbol_id - 1)) 1)
    pub new_id : r.next_order_id ≡ (m.next_order_id + 1) % 2 ^ 64
    pub active : r.active_orders (g.symbol_id - 1) g.side ≡ record {
      client_order_id = o.client_order_id;
      price = g.price;
      qty = g.qty;
      resting = true;
    }
    pub positions_kept : r.net_position ≡ m.net_position

  refill_same :
      (m : M) (now : ℤ)
      → ((refill sv lim m now).next_order_id ≡ m.next_order_id)
        × ((refill sv lim m now).outstanding_count ≡ m.outstanding_count)
        × ((refill sv lim m now).outstanding_per_symbol ≡ m.outstanding_per_symbol)
        × ((refill sv lim m now).net_position ≡ m.net_position)
        × ((refill sv lim m now).outstanding ≡ m.outstanding)
  unfolding refill
  refill_same m now =
      elim (Bool-cases (ltb_ℤ (now -ℤ m.last_refill_ts) (pos lim.refill_interval_ns))) [
        | inl e ↦ rw e (refl, refl, refl, refl, refl)
        | inr e ↦ rw e (refl, refl, refl, refl, refl)
      ]

  -- A refusal: no order is tracked, and positions and active orders are as they were.
  pub record Refuses (m r : M) : Type 0 where
    pub outstanding_kept : r.outstanding ≡ m.outstanding
    pub count_kept : r.outstanding_count ≡ m.outstanding_count
    pub symbol_kept : r.outstanding_per_symbol ≡ m.outstanding_per_symbol
    pub active_kept : r.active_orders ≡ m.active_orders
    pub positions_kept : r.net_position ≡ m.net_position
    pub state_kept : r.kill_switch_state ≡ m.kill_switch_state

  abbrev pub Outcome : M → Signal → ℤ → ℤ → M × Option NewOrder → Type 0
  Outcome m g now send_ts (r, none) = Refuses m r
  Outcome m g now send_ts (r, some o) = Sends m g now send_ts r o

  refilled_active :
      (m : M) (now : ℤ)
      → ((refill sv lim m now).active_orders ≡ m.active_orders)
        × ((refill sv lim m now).kill_switch_state ≡ m.kill_switch_state)
  unfolding refill
  refilled_active m now =
      elim (Bool-cases (ltb_ℤ (now -ℤ m.last_refill_ts) (pos lim.refill_interval_ns))) [
        | inl e ↦ rw e (refl, refl)
        | inr e ↦ rw e (refl, refl)
      ]

  -- a refusal after the tokens are refilled
  refused :
      (m : M) (now : ℤ) (x : Rejects) → Refuses m (record (refill sv lim m now) { rejects = x })
  refused m now x =
      let (a, b, c, d, e) = refill_same m now in
      let (f, g) = refilled_active m now in
      record {
        outstanding_kept = e;
        count_kept = b;
        symbol_kept = c;
        active_kept = f;
        positions_kept = d;
        state_kept = g;
      }

  now_refused : (m : M) (x : Rejects) → Refuses m (record m { rejects = x })
  now_refused m x = record {
    outstanding_kept = refl;
    count_kept = refl;
    symbol_kept = refl;
    active_kept = refl;
    positions_kept = refl;
    state_kept = refl;
  }

  -- The limits that are checked before an order goes out.
  record Allowed (m : M) (g : Signal) (now : ℤ) : Type 0 where
    not_killed : is_normal m.kill_switch_state ≡ true
    outstanding_in_limit : m.outstanding_count < lim.max_outstanding
    symbol_in_limit : m.outstanding_per_symbol (g.symbol_id - 1) < lim.max_outstanding_per_symbol
    size_in_limit : g.qty ≤ lim.max_order_size
    notional_in_limit : ltb_ℤ lim.max_notional (g.price *ℤ pos g.qty) ≡ false
    position_in_limit :
        ltb_ℤ lim.max_position
          (abs_position (moved g.side (m.net_position (g.symbol_id - 1)) g.qty))
        ≡ false
    token_left : 0 < (refill sv lim m now).tokens

  same_side_refl : (s : Side) → same_side s s ≡ true
  same_side_refl bid = refl
  same_side_refl ask = refl

  -- the timer and the entry of an order that is emitted
  abbrev timer : M → sv.Wheel × ℕ
  timer m = sv.schedule m.wheel m.next_order_id (lim.order_timeout_ns / tick_interval_ns)

  abbrev entry : M → Signal → ℤ → OrderInfo
  entry m g send_ts = record {
    side = g.side;
    price = g.price;
    qty = g.qty;
    symbol_id = g.symbol_id;
    send_ts = send_ts;
    timer_handle = (timer m).1;
  }

  emit_refused :
      (m : M) (g : Signal) (send_ts : ℤ)
      → sv.table.insert m.outstanding m.next_order_id (entry m g send_ts) ≡ none
      → emit_order sv lim m g send_ts ≡ (
        record m {
          next_order_id = (m.next_order_id + 1) % 2 ^ 64;
          wheel = sv.cancel_timer (timer m).0 (timer m).1;
        },
        none,
      )
  unfolding emit_order
  emit_refused m g send_ts n = rw (n, emit_order)

  emit_accepted :
      (m : M) (g : Signal) (send_ts : ℤ) (t : sv.table.Map)
      → sv.table.insert m.outstanding m.next_order_id (entry m g send_ts) ≡ some t
      → emit_order sv lim m g send_ts ≡ (
        record m {
          next_order_id = (m.next_order_id + 1) % 2 ^ 64;
          wheel = (timer m).0;
          outstanding = t;
          outstanding_count = add32 m.outstanding_count 1;
          outstanding_per_symbol =
              set_at m.outstanding_per_symbol
                (g.symbol_id - 1)
                (add32 (m.outstanding_per_symbol (g.symbol_id - 1)) 1);
          active_orders = set_active m.active_orders (g.symbol_id - 1) g.side (record {
            client_order_id = m.next_order_id;
            price = g.price;
            qty = g.qty;
            resting = true;
          });
          tokens = sub32 m.tokens 1;
        },
        some (record {
          client_order_id = m.next_order_id;
          symbol_id = g.symbol_id;
          side = side_code g.side;
          price = g.price;
          qty = g.qty;
          send_ts = send_ts;
        }),
      )
  unfolding emit_order
  emit_accepted m g send_ts t y = rw (y, emit_order)

  emit_order-Outcome :
      (m : M) (g : Signal) (now send_ts : ℤ)
      → Allowed m g now
      → Outcome m g now send_ts (emit_order sv lim (refill sv lim m now) g send_ts)
  unfolding emit_order
  emit_order-Outcome m g now send_ts h =
      let (a, b, c, d, e) = refill_same m now in
      let (f, k) = refilled_active m now in
      elim (Option-cases (
        sv.table.insert (refill sv lim m now).outstanding (refill sv lim m now).next_order_id
          (record {
            side = g.side;
            price = g.price;
            qty = g.qty;
            symbol_id = g.symbol_id;
            send_ts = send_ts;
            timer_handle =
                (sv.schedule (refill sv lim m now).wheel (refill sv lim m now).next_order_id
                  (lim.order_timeout_ns / tick_interval_ns)).1;
          }))) [
            | inl n ↦
                subst (Outcome m g now send_ts)
                  (sym (emit_refused (refill sv lim m now) g send_ts n))
                  (record {
                    outstanding_kept = e;
                    count_kept = b;
                    symbol_kept = c;
                    active_kept = f;
                    positions_kept = d;
                    state_kept = k;
                  })
            | inr (t, y) ↦
                subst (Outcome m g now send_ts)
                  (sym (emit_accepted (refill sv lim m now) g send_ts t y))
                  (record {
                    not_killed = h.not_killed;
                    outstanding_in_limit = h.outstanding_in_limit;
                    symbol_in_limit = h.symbol_in_limit;
                    size_in_limit = h.size_in_limit;
                    notional_in_limit = h.notional_in_limit;
                    position_in_limit = h.position_in_limit;
                    token_left = h.token_left;
                    token_spent = refl;
                    as_signalled = (a, refl, refl, refl, refl);
                    counted = (
                      ap (λ n. add32 n 1) b,
                      rw ((==_iff (g.symbol_id - 1) (g.symbol_id - 1)).1 refl)
                          (ap (λ (n : ℕ → ℕ). add32 (n (g.symbol_id - 1)) 1) c),
                    );
                    new_id = ap (λ n. (n + 1) % 2 ^ 64) a;
                    active = rw (
                      (==_iff (g.symbol_id - 1) (g.symbol_id - 1)).1 refl,
                      same_side_refl g.side,
                    );
                    positions_kept = d;
                  })
          ]

  -- If `on_signal` sends an order, then before it the kill switch was off, the outstanding orders,
  -- those of the symbol, the size, the notional and the worst-case position were in their limits
  -- and the refilled bucket had a token; the order is as signalled with the next id, a token is
  -- spent, both counts go up by one (modulo 2 ^ 32), the order is its symbol's and side's active
  -- order, and no position moves. If it sends none, the outstanding orders, both counts, active
  -- orders, positions and the switch are as they were.
  pub on_signal-Outcome :
      (m : M) (g : Signal) (now send_ts : ℤ)
      → Outcome m g now send_ts (on_signal sv lim m g now send_ts)
  unfolding on_signal check_rate_and_position
  on_signal-Outcome m g now send_ts =
      let x = m.rejects in
      let y = (refill sv lim m now).rejects in
      let (a, b, c, d, e) = refill_same m now in
      elim (Bool-cases (is_normal m.kill_switch_state)) [
        | inr z1 ↦ rw z1 (now_refused m (record x { killswitch = x.killswitch + 1 }))
        | inl z1 ↦ elim (Bool-cases (leb lim.max_outstanding m.outstanding_count)) [
          | inl z2 ↦ rw (z1, z2) (now_refused m (record x { outstanding = x.outstanding + 1 }))
          | inr z2 ↦
              elim (Bool-cases
                (leb lim.max_outstanding_per_symbol (m.outstanding_per_symbol (g.symbol_id - 1)))) [
                  | inl z3 ↦
                      rw (z1, z2, z3) (now_refused m (record x { per_symbol = x.per_symbol + 1 }))
                  | inr z3 ↦ elim (Bool-cases (ltb lim.max_order_size g.qty)) [
                    | inl z4 ↦ rw (z1, z2, z3, z4) (now_refused m (record x { size = x.size + 1 }))
                    | inr z4 ↦ elim (Bool-cases (ltb_ℤ lim.max_notional (g.price *ℤ pos g.qty))) [
                      | inl z5 ↦
                          rw (z1, z2, z3, z4, z5)
                            (now_refused m (record x { notional = x.notional + 1 }))
                      | inr z5 ↦ elim (Bool-cases ((refill sv lim m now).tokens == 0)) [
                        | inl z6 ↦
                            rw (z1, z2, z3, z4, z5, z6)
                              (refused m now (record y { rate = y.rate + 1 }))
                        | inr z6 ↦
                            elim (Bool-cases (
                              ltb_ℤ lim.max_position (
                                abs_position (
                                  moved g.side
                                    ((refill sv lim m now).net_position (g.symbol_id - 1))
                                    g.qty)))) [
                                      | inl z7 ↦
                                          rw (z1, z2, z3, z4, z5, z6, z7)
                                            (refused m now (record y { position = y.position + 1 }))
                                      | inr z7 ↦
                                          rw (z1, z2, z3, z4, z5, z6, z7)
                                            (emit_order-Outcome m g now send_ts (record {
                                              not_killed = z1;
                                              outstanding_in_limit = ground (arith, z2);
                                              symbol_in_limit = ground (arith, z3);
                                              size_in_limit = ground (arith, z4);
                                              notional_in_limit = z5;
                                              position_in_limit =
                                                  subst
                                                    (λ (f : ℕ → ℤ).
                                                      ltb_ℤ lim.max_position (
                                                        abs_position (
                                                          moved g.side (f (g.symbol_id - 1)) g.qty))
                                                      ≡ false)
                                                    d z7;
                                              token_left = ground (arith, z6);
                                            }))
                                    ]
                      ]
                    ]
                  ]
                ]
        ]
      ]
