-- ===== src/Orders/Kill.antt =====
-- The kill switch of apps/tick_to_trade/order_manager.hpp over any sequence of events.
use low_latency_tick_to_trad.Prelude.{
  ℕ, ◌-◌, ◌≡◌, refl, ◌∙◌, Bool, true, false, ◌&&◌, ◌||◌, Option, none, some, List, [], ◌∷◌, arith,
  ltb, ◌==◌, Bool-cases, Option-cases, inl, inr,
}
use low_latency_tick_to_trad.Orders.{
  Services, Signal, Limits, is_normal, Manager, on_signal, OrderInfo, check_modify,
  trigger_kill_switch,
}
use low_latency_tick_to_trad.Prelude.Int.{ℤ}
use low_latency_tick_to_trad.Orders.Responses.{
  release_known, check_drain_complete, on_modify_reject, maybe_compact_outstanding, release,
  move_position, drop_order, clear_active_if_match, on_fill, on_order_ack, on_order_reject,
  on_modify_ack, on_cancel_ack, on_cancel_reject, advance_timeouts,
}
use low_latency_tick_to_trad.Protocol.{
  OrderAck, ModifyReject, OrderReject, FillReport, ModifyAck, CancelAck, CancelReject,
}
use low_latency_tick_to_trad.Types.{Side, Qty}
use low_latency_tick_to_trad.Prelude.Word.{sub32}

-- What can happen to a manager.
pub data Event : Type 0 where
  signal : Signal → ℤ → ℤ → Event
  modify_signal : Signal → ℤ → Event
  kill : ℤ → Event
  order_acked : OrderAck → Event
  order_rejected : OrderReject → Event
  filled : FillReport → Event
  modify_acked : ModifyAck → Event
  modify_rejected : ModifyReject → Event
  cancel_acked : CancelAck → Event
  cancel_rejected : CancelReject → Event
  time_passed : ℤ → Event

abbrev pub is_none {ℓ} : {A : Type ℓ} → Option A → Bool
is_none none = true
is_none (some x) = false

module _ (sv : Services) (lim : Limits) where
  abbrev pub M : Type 0
  M = Manager sv

  -- The manager after an event, and whether it sent no new order and no modify.
  unfoldable pub step : Event → M → M × Bool
  step (signal g now ts) m = let r = on_signal sv lim m g now ts in (r.0, is_none r.1)
  step (modify_signal g now) m = let r = check_modify sv m g now in (r.0, is_none r.1)
  step (kill now) m = ((trigger_kill_switch sv lim m now).0, true)
  step (order_acked a) m = (on_order_ack sv lim m a, true)
  step (order_rejected r) m = (on_order_reject sv lim m r, true)
  step (filled f) m = (on_fill sv lim m f, true)
  step (modify_acked a) m = (on_modify_ack sv lim m a, true)
  step (modify_rejected r) m = (on_modify_reject sv lim m r, true)
  step (cancel_acked a) m = (on_cancel_ack sv lim m a, true)
  step (cancel_rejected r) m = (on_cancel_reject sv lim m r, true)
  step (time_passed now) m = ((advance_timeouts sv lim m now).0, true)

  -- A sequence of events, in order.
  unfoldable pub run : List Event → M → M × Bool
  unfolding step
  run [] m = (m, true)
  run (e ∷ es) m = let one = step e m in let rest = run es one.0 in (rest.0, one.1 && rest.1)

  -- The manager and its switch, as the handlers of a response leave them.
  abbrev pub Keeps : M → M → Type 0
  Keeps m r = r.kill_switch_state ≡ m.kill_switch_state

  compact-Keeps :
      (m : M)
      → (Keeps m (maybe_compact_outstanding sv m))
        × ((maybe_compact_outstanding sv m).pending_cancel_count ≡ m.pending_cancel_count)
  unfolding maybe_compact_outstanding
  compact-Keeps m = elim (Bool-cases (m.outstanding_count == 0 && sv.needs_rebuild m.outstanding)) [
    | inl e ↦ rw e (refl, refl)
    | inr e ↦ rw e (refl, refl)
  ]

  clear-Keeps :
      (m : M) (x : ℕ) (s : Side) (i : ℕ)
      → (Keeps m (clear_active_if_match sv lim m x s i))
        × ((clear_active_if_match sv lim m x s i).pending_cancel_count ≡ m.pending_cancel_count)
  unfolding clear_active_if_match
  clear-Keeps m x s i = elim (Bool-cases (x == 0 || ltb lim.max_symbols x)) [
    | inl e ↦ rw e (refl, refl)
    | inr e ↦
        elim (Bool-cases (
          (m.active_orders (x - 1) s).resting
          && (m.active_orders (x - 1) s).client_order_id == i)) [
            | inl f ↦ rw (e, f) (refl, refl)
            | inr f ↦ rw (e, f) (refl, refl)
          ]
  ]

  pub drop_order-Keeps :
      (m : M) (i : ℕ)
      → (Keeps m (drop_order sv lim m i))
        × ((drop_order sv lim m i).pending_cancel_count ≡ m.pending_cancel_count)
  unfolding drop_order
  drop_order-Keeps m i = compact-Keeps (record m {
    outstanding = sv.table.erase m.outstanding i;
    outstanding_count = m.outstanding_count - 1;
  })

  pub release-Keeps :
      (m : M) (i : ℕ) (info : OrderInfo)
      → (Keeps m (release sv lim m i info))
        × ((release sv lim m i info).pending_cancel_count ≡ m.pending_cancel_count)
  unfolding release
  release-Keeps m i info =
      clear-Keeps (record m { wheel = sv.cancel_timer m.wheel info.timer_handle }) info.symbol_id
        info.side i

  release_known-Keeps :
      (m : M) (i : ℕ)
      → (Keeps m (release_known sv lim m i))
        × ((release_known sv lim m i).pending_cancel_count ≡ m.pending_cancel_count)
  unfolding release_known
  release_known-Keeps m i = elim (Option-cases (sv.table.find m.outstanding i)) [
    | inl e ↦ rw (e, release_known) (refl, refl)
    | inr (info, e) ↦ rw (e, release_known) (release-Keeps m i info)
  ]

  -- what `on_order_reject`, `on_cancel_ack` and a last fill do first
  abbrev pub forget : M → ℕ → M
  forget m i = drop_order sv lim (release_known sv lim m i) i

  pub forget-Keeps :
      (m : M) (i : ℕ)
      → (Keeps m (forget m i)) × ((forget m i).pending_cancel_count ≡ m.pending_cancel_count)
  forget-Keeps m i =
      let a = release_known-Keeps m i in
      let b = drop_order-Keeps (release_known sv lim m i) i in (b.0 ∙ a.0, b.1 ∙ a.1)

  move_position-Keeps : (m : M) (i : ℕ) (q : Qty) → Keeps m (move_position sv lim m i q)
  unfolding move_position
  move_position-Keeps m i q = elim (Option-cases (sv.table.find m.outstanding i)) [
    | inl e ↦ rw (e, move_position)
    | inr (info, e) ↦ elim (Bool-cases (ltb (sub32 info.symbol_id 1) lim.max_symbols)) [
      | inl f ↦ rw (e, f, move_position)
      | inr f ↦ rw (e, f, move_position)
    ]
  ]

  pub on_fill-Keeps : (m : M) (f : FillReport) → Keeps m (on_fill sv lim m f)
  unfolding on_fill
  on_fill-Keeps m f =
      let p = move_position-Keeps m f.client_order_id f.fill_qty in
      elim (Bool-cases (f.remaining_qty == 0)) [
        | inl e ↦ rw e (
            (forget-Keeps (move_position sv lim m f.client_order_id f.fill_qty) f.client_order_id).0
            ∙ p)
        | inr e ↦ rw e p
      ]

  on_modify_reject-Keeps : (m : M) (r : ModifyReject) → Keeps m (on_modify_reject sv lim m r)
  unfolding on_modify_reject
  on_modify_reject-Keeps m r = elim (Option-cases (sv.table.find m.outstanding r.client_order_id)) [
    | inl e ↦ rw (e, on_modify_reject)
    | inr (info, e) ↦
        rw (e, on_modify_reject) (clear-Keeps m info.symbol_id info.side r.client_order_id).0
  ]

  -- A killed manager: the switch has been triggered.
  abbrev pub Killed : M → Type 0
  Killed m = is_normal m.kill_switch_state ≡ false

  drained-Killed : (m : M) → Killed m → Killed (check_drain_complete sv m)
  unfolding check_drain_complete
  drained-Killed m k = ground (arith, k)

  still-Killed : (m r : M) → Keeps m r → Killed m → Killed r
  still-Killed m r e k = rw e k

  cancel_reject-Killed :
      (m : M) (r : CancelReject) → Killed m → Killed (on_cancel_reject sv lim m r)
  unfolding on_cancel_reject
  cancel_reject-Killed m r k = elim (Option-cases (sv.table.find m.outstanding r.client_order_id)) [
    | inl e ↦ rw (e, on_cancel_reject) (drained-Killed m k)
    | inr (info, e) ↦
        rw (e, on_cancel_reject)
          (drained-Killed
            (drop_order sv lim (release sv lim m r.client_order_id info) r.client_order_id)
            (still-Killed m
              (drop_order sv lim (release sv lim m r.client_order_id info) r.client_order_id)
              ((drop_order-Keeps (release sv lim m r.client_order_id info) r.client_order_id).0
                ∙ (release-Keeps m r.client_order_id info).0)
              k))
  ]

  step-Killed : (e : Event) (m : M) → Killed m → Killed (step e m).0 × ((step e m).1 ≡ true)
  unfolding step on_signal check_modify trigger_kill_switch advance_timeouts on_order_ack
      on_modify_ack on_order_reject on_cancel_ack
  step-Killed (signal g now ts) m k = rw k (k, refl)
  step-Killed (modify_signal g now) m k = rw k (k, refl)
  step-Killed (kill now) m k = rw k (k, refl)
  step-Killed (time_passed now) m k = rw k (k, refl)
  step-Killed (order_acked a) m k = (k, refl)
  step-Killed (modify_acked a) m k = (k, refl)
  step-Killed (order_rejected r) m k =
      (still-Killed m (forget m r.client_order_id) (forget-Keeps m r.client_order_id).0 k, refl)
  step-Killed (filled f) m k = (still-Killed m (on_fill sv lim m f) (on_fill-Keeps m f) k, refl)
  step-Killed (modify_rejected r) m k =
      (still-Killed m (on_modify_reject sv lim m r) (on_modify_reject-Keeps m r) k, refl)
  step-Killed (cancel_acked a) m k = (
    drained-Killed (forget m a.client_order_id)
        (still-Killed m (forget m a.client_order_id) (forget-Keeps m a.client_order_id).0 k),
    refl,
  )
  step-Killed (cancel_rejected r) m k = (cancel_reject-Killed m r k, refl)

  trigger-Killed : (m : M) (now : ℤ) → Killed (trigger_kill_switch sv lim m now).0
  unfolding trigger_kill_switch
  trigger-Killed m now = ground arith

  run-Killed : (es : List Event) (m : M) → Killed m → Killed (run es m).0 × ((run es m).1 ≡ true)
  unfolding run
  run-Killed [] m k = (k, refl)
  run-Killed (e ∷ es) m k =
      let (a, b) = step-Killed e m k in let (c, d) = run-Killed es (step e m).0 a in (c, rw b d)

  -- Once the kill switch has been triggered, no sequence of events (signals, responses, fills,
  -- timeouts, further triggers) turns it off or makes the manager send a new order or a modify.
  pub kill_is_final :
      (m : M) (now : ℤ) (es : List Event)
      → Killed (run es (trigger_kill_switch sv lim m now).0).0
        × ((run es (trigger_kill_switch sv lim m now).0).1 ≡ true)
  kill_is_final m now es = run-Killed es (trigger_kill_switch sv lim m now).0 (trigger-Killed m now)
