-- ===== src/Orders/Responses.antt =====
-- The handlers of exchange responses and of timeouts in apps/tick_to_trade/order_manager.hpp.
use low_latency_tick_to_trad.Prelude.{
  ℕ, zero, suc, ◌+◌, ◌-◌, ◌*◌, ◌%◌, false, not, ◌&&◌, ◌||◌, none, some, List, [], ◌∷◌, ◌++◌, ltb,
  ◌==◌, if◌then◌else◌, ◌/◌,
}
use low_latency_tick_to_trad.Orders.{
  Services, draining, Limits, Manager, complete, OrderInfo, set_active, set_at, normal, cancelling,
  tick_interval_ns, is_normal,
}
use low_latency_tick_to_trad.Protocol.{
  CancelReject, OrderAck, FillReport, ModifyReject, OrderReject, ModifyAck, CancelAck, CancelOrder,
}
use low_latency_tick_to_trad.Types.{Side, Qty, bid, ask}
use low_latency_tick_to_trad.Prelude.Int.{ℤ, ◌-ℤ◌, pos_part, ◌+ℤ◌, pos, ltb_ℤ}
use low_latency_tick_to_trad.Prelude.Word.{sub32, u32}

module _ (sv : Services) where
  abbrev M : Type 0
  M = Manager sv

  unfoldable pub maybe_compact_outstanding : M → M
  maybe_compact_outstanding m =
      if m.outstanding_count == 0 && sv.needs_rebuild m.outstanding
      then record m { outstanding = sv.table.clear m.outstanding }
      else m

  unfoldable pub check_drain_complete : M → M
  check_drain_complete m =
      let left =
        if ltb 0 m.pending_cancel_count
        then m.pending_cancel_count - 1
        else m.pending_cancel_count in
      elim m.kill_switch_state [
        | draining ↦ record m {
          pending_cancel_count = left;
          kill_switch_state = if left == 0 then complete else draining;
        }
        | normal ↦ m
        | cancelling ↦ m
        | complete ↦ m
      ]

  -- `if (outstanding_count_ > 0) --outstanding_count_;`
  abbrev pub count_down : ℕ → ℕ
  count_down n = n - 1

  module _ (lim : Limits) where
    unfoldable pub clear_active_if_match : M → ℕ → Side → ℕ → M
    clear_active_if_match m symbol_id s id =
        let active = m.active_orders (symbol_id - 1) s in
        if symbol_id == 0 || ltb lim.max_symbols symbol_id
        then m
        else if active.resting && active.client_order_id == id
        then record m {
          active_orders =
              set_active m.active_orders (symbol_id - 1) s (record active { resting = false });
        }
        else m

    -- What the handlers do for an order that the map knows: its timer is cancelled, and it is no longer
    -- its symbol's active order, nor counted.
    unfoldable pub release : M → ℕ → OrderInfo → M
    unfolding clear_active_if_match
    release m id info =
        let m' =
          clear_active_if_match (record m { wheel = sv.cancel_timer m.wheel info.timer_handle })
            info.symbol_id info.side id in
        record m' {
          outstanding_per_symbol =
              set_at m'.outstanding_per_symbol (info.symbol_id - 1)
                (sub32 (m'.outstanding_per_symbol (info.symbol_id - 1)) 1);
        }

    -- `outstanding_.erase(id)` and the count, whether or not the map knows the order
    unfoldable pub drop_order : M → ℕ → M
    unfolding maybe_compact_outstanding
    drop_order m id = maybe_compact_outstanding (record m {
      outstanding = sv.table.erase m.outstanding id;
      outstanding_count = count_down m.outstanding_count;
    })

    unfoldable pub release_known : M → ℕ → M
    unfolding release
    release_known m id = elim (sv.table.find m.outstanding id) [
      | none ↦ m
      | some info ↦ release m id info
    ]

    unfoldable pub on_order_ack : M → OrderAck → M
    on_order_ack m ack = record m {
      stats = record m.stats { acks_received = m.stats.acks_received + 1 };
    }

    unfoldable pub on_order_reject : M → OrderReject → M
    unfolding release_known drop_order
    on_order_reject m r =
        let m' = drop_order (release_known m r.client_order_id) r.client_order_id in
        record m' { stats = record m'.stats { rejects_received = m'.stats.rejects_received + 1 } }

    -- A fill of a bid adds to the position, one of an ask takes from it.
    unfoldable pub filled_position : Side → ℤ → Qty → ℤ
    filled_position bid p q = p +ℤ pos q
    filled_position ask p q = p -ℤ pos q

    -- The position of the symbol of a known order follows the fill.
    unfoldable pub move_position : M → ℕ → Qty → M
    unfolding filled_position
    move_position m id q = elim (sv.table.find m.outstanding id) [
      | none ↦ m
      | some info ↦
          if ltb (sub32 info.symbol_id 1) lim.max_symbols
          then record m {
            net_position =
                set_at m.net_position (sub32 info.symbol_id 1)
                  (filled_position info.side (m.net_position (sub32 info.symbol_id 1)) q);
          }
          else m
    ]

    unfoldable pub on_fill : M → FillReport → M
    unfolding release_known drop_order move_position
    on_fill m f =
        let moved_on = move_position m f.client_order_id f.fill_qty in
        let m' =
          if f.remaining_qty == 0
          then drop_order (release_known moved_on f.client_order_id) f.client_order_id
          else moved_on in
        record m' {
          stats = record m'.stats {
            fills_received = m'.stats.fills_received + 1;
            total_fill_qty = m'.stats.total_fill_qty + f.fill_qty;
          };
        }

    unfoldable pub on_modify_ack : M → ModifyAck → M
    on_modify_ack m ack = record m {
      stats = record m.stats { modifies_acked = m.stats.modifies_acked + 1 };
    }

    unfoldable pub on_modify_reject : M → ModifyReject → M
    unfolding clear_active_if_match
    on_modify_reject m r =
        let m' : M = elim (sv.table.find m.outstanding r.client_order_id) [
          | none ↦ m
          | some info ↦ clear_active_if_match m info.symbol_id info.side r.client_order_id
        ] in
        record m' { stats = record m'.stats { modifies_rejected = m'.stats.modifies_rejected + 1 } }

    unfoldable pub on_cancel_ack : M → CancelAck → M
    unfolding release_known drop_order check_drain_complete
    on_cancel_ack m ack =
        check_drain_complete (drop_order (release_known m ack.client_order_id) ack.client_order_id)

    unfoldable pub on_cancel_reject : M → CancelReject → M
    unfolding release drop_order check_drain_complete
    on_cancel_reject m r = elim (sv.table.find m.outstanding r.client_order_id) [
      | none ↦ check_drain_complete m
      | some info ↦
          check_drain_complete (drop_order (release m r.client_order_id info) r.client_order_id)
    ]

    -- `elapsed_ticks` ticks of the wheel, with the contexts of the callbacks in order
    unfoldable pub tick_times : ℕ → sv.Wheel → sv.Wheel × List ℕ
    tick_times zero w = (w, [])
    tick_times (suc n) w =
        let one = sv.tick w in let rest = tick_times n one.0 in (rest.0, one.1 ++ rest.1)

    -- The loop over the expired orders; `room` is what is left of the cancel buffer.
    unfoldable pub cancel_expired : ℤ → ℕ → List ℕ → M → M × List CancelOrder
    unfolding clear_active_if_match
    cancel_expired now room [] m = (m, [])
    cancel_expired now room (id ∷ ids) m = elim (sv.table.find m.outstanding id) [
      | none ↦ cancel_expired now room ids m
      | some info ↦
          let m' = clear_active_if_match m info.symbol_id info.side id in
          let gone : M = record m' {
            outstanding_per_symbol =
                set_at m'.outstanding_per_symbol (info.symbol_id - 1)
                  (sub32 (m'.outstanding_per_symbol (info.symbol_id - 1)) 1);
            outstanding = sv.table.erase m'.outstanding id;
            outstanding_count = count_down m'.outstanding_count;
            stats = record m'.stats { timeouts_fired = m'.stats.timeouts_fired + 1 };
          } in
          let rest = cancel_expired now (room - 1) ids gone in
          let cancel : CancelOrder = record {
            client_order_id = id;
            symbol_id = info.symbol_id;
            send_ts = now;
          } in
          (rest.0, if room == 0 then rest.1 else cancel ∷ rest.1)
    ]

    unfoldable pub advance_timeouts : M → ℤ → M × List CancelOrder
    unfolding tick_times cancel_expired maybe_compact_outstanding
    advance_timeouts m now =
        let elapsed = now -ℤ m.last_advance_ns in
        let ticks = (pos_part elapsed / tick_interval_ns) % u32 in
        let ticked = tick_times ticks m.wheel in
        let ready : M = record m {
          wheel = ticked.0;
          last_advance_ns = m.last_advance_ns +ℤ pos (ticks * tick_interval_ns);
        } in
        let done = cancel_expired now lim.max_outstanding ticked.1 ready in
        if not (is_normal m.kill_switch_state)
        then (m, [])
        else if ltb_ℤ elapsed (pos tick_interval_ns)
        then (m, [])
        else (maybe_compact_outstanding done.0, done.1)
