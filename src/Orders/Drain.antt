-- ===== src/Orders/Drain.antt =====
-- Draining after the kill switch in apps/tick_to_trade/order_manager.hpp.
use low_latency_tick_to_trad.Prelude.{
  ℕ, zero, suc, ◌≡◌, refl, sym, subst, ◌∙◌, ap, true, List, [], ◌∷◌, arith, leb, ◌==◌,
  if◌then◌else◌, length, Option-cases, inl, inr, take,
}
use low_latency_tick_to_trad.Orders.{
  Services, Limits, Manager, draining, complete, trigger_kill_switch, is_normal, cancels_of,
}
use low_latency_tick_to_trad.Protocol.{CancelAck, CancelReject, CancelOrder}
use low_latency_tick_to_trad.Orders.Responses.{
  on_cancel_ack, check_drain_complete, on_cancel_reject, release, drop_order,
}
use low_latency_tick_to_trad.Orders.Kill.{forget-Keeps, forget, release-Keeps, drop_order-Keeps}
use low_latency_tick_to_trad.Prelude.Int.{ℤ}

-- A response to a cancel.
pub data CancelResponse : Type 0 where
  ack : CancelAck → CancelResponse
  reject : CancelReject → CancelResponse

module _ (sv : Services) (lim : Limits) where
  abbrev M : Type 0
  M = Manager sv

  -- The manager after the responses, in their order.
  unfoldable pub respond : CancelResponse → M → M
  respond (ack a) m = on_cancel_ack sv lim m a
  respond (reject r) m = on_cancel_reject sv lim m r

  unfoldable pub respond_all : List CancelResponse → M → M
  unfolding respond
  respond_all [] m = m
  respond_all (r ∷ rs) m = respond_all rs (respond r m)

  -- The switch while cancels are pending.
  abbrev Waits : ℕ → M → Type 0
  Waits n m = (m.kill_switch_state ≡ draining) × (m.pending_cancel_count ≡ n)

  drained-Waits :
      (m : M) (n : ℕ) → Waits (suc (suc n)) m → Waits (suc n) (check_drain_complete sv m)
  unfolding check_drain_complete
  drained-Waits m n (s, p) = rw (s, check_drain_complete, p) (ground arith, ground arith)

  drained_last : (m : M) → Waits 1 m → (check_drain_complete sv m).kill_switch_state ≡ complete
  unfolding check_drain_complete
  drained_last m (s, p) = rw (s, check_drain_complete, p)

  drained_kept :
      (m : M)
      → m.kill_switch_state ≡ complete
      → (check_drain_complete sv m).kill_switch_state ≡ complete
  unfolding check_drain_complete
  drained_kept m e = rw (e, check_drain_complete) e

  -- A response is a step of the drain on a manager with the same switch.
  respond_drains :
      (r : CancelResponse) (m : M)
      → (d : M) × (respond r m ≡ check_drain_complete sv d)
        × (d.kill_switch_state ≡ m.kill_switch_state)
        × (d.pending_cancel_count ≡ m.pending_cancel_count)
  unfolding respond on_cancel_ack on_cancel_reject
  respond_drains (ack a) m =
      let k = forget-Keeps sv lim m a.client_order_id in
      (forget sv lim m a.client_order_id, refl, k.0, k.1)
  respond_drains (reject r) m =
      elim (Option-cases (sv.table.find m.outstanding r.client_order_id)) [
        | inl e ↦ (m, rw (e, on_cancel_reject), refl, refl)
        | inr (info, e) ↦
            let x = release-Keeps sv lim m r.client_order_id info in
            let y =
              drop_order-Keeps sv lim (release sv lim m r.client_order_id info) r.client_order_id in
            (
              drop_order sv lim (release sv lim m r.client_order_id info) r.client_order_id,
              rw (e, on_cancel_reject),
              y.0 ∙ x.0,
              y.1 ∙ x.1,
            )
      ]

  all_done :
      (rs : List CancelResponse) (m : M)
      → m.kill_switch_state ≡ complete
      → (respond_all rs m).kill_switch_state ≡ complete
  unfolding respond_all
  all_done [] m e = e
  all_done (r ∷ rs) m e =
      let (d, same, k, p) = respond_drains r m in
      all_done rs (respond r m) (ap (λ (x : M). x.kill_switch_state) same ∙ drained_kept d (k ∙ e))

  drains :
      (n : ℕ) (rs : List CancelResponse) (m : M)
      → Waits (suc n) m
      → (respond_all rs m).kill_switch_state
        ≡ (if leb (suc n) (length rs) then complete else draining)
  unfolding respond_all
  drains n [] m (s, p) = rw s (ground arith)
  drains zero (r ∷ rs) m (s, p) =
      let (d, same, k, q) = respond_drains r m in
      let z : leb 1 (length (r ∷ rs)) ≡ true = ground arith in
      subst
        (λ c. (respond_all rs (respond r m)).kill_switch_state ≡ (if c then complete else draining))
        (sym z)
        (all_done rs (respond r m)
          (ap (λ (x : M). x.kill_switch_state) same ∙ drained_last d (k ∙ s, q ∙ p)))
  drains (suc n) (r ∷ rs) m (s, p) =
      let (d, same, k, q) = respond_drains r m in
      let w = drained-Waits d n (k ∙ s, q ∙ p) in
      let z : leb (suc (suc n)) (length (r ∷ rs)) ≡ leb (suc n) (length rs) = ground arith in
      subst
        (λ c. (respond_all rs (respond r m)).kill_switch_state ≡ (if c then complete else draining))
        (sym z)
        (drains n rs (respond r m) (
          ap (λ (x : M). x.kill_switch_state) same ∙ w.0,
          ap (λ (x : M). x.pending_cancel_count) same ∙ w.1,
        ))

  -- Triggered on a normal manager, the kill switch is complete exactly when as many cancel
  -- responses, acknowledgements or rejects in any order and for any ids, have arrived as cancels
  -- were sent (at once if there were none), and draining before that.
  pub drain_completes :
      (m : M) (now : ℤ) (rs : List CancelResponse)
      → is_normal m.kill_switch_state ≡ true
      → (respond_all rs (trigger_kill_switch sv lim m now).0).kill_switch_state ≡ (
          if leb (length (trigger_kill_switch sv lim m now).1) (length rs)
          then complete
          else draining)
  unfolding trigger_kill_switch
  drain_completes m now rs e = rw e (by_count (length batch) refl)
    where
      batch : List CancelOrder
      batch = take lim.max_outstanding (cancels_of sv lim now (sv.for_each m.outstanding))

      triggered : M
      triggered = record m {
        kill_switch_state = if length batch == 0 then complete else draining;
        wheel = sv.reset m.wheel;
        pending_cancel_count = length batch;
      }

      by_count :
          (n : ℕ)
          → length batch ≡ n
          → (respond_all rs triggered).kill_switch_state
            ≡ (if leb (length batch) (length rs) then complete else draining)
      by_count zero f =
          let z : leb (length batch) (length rs) ≡ true = ground (arith, f) in
          rw z (all_done rs triggered (ground (arith, f)))
      by_count (suc n) f =
          subst
            (λ k.
              (respond_all rs triggered).kill_switch_state
              ≡ (if leb k (length rs) then complete else draining))
            (sym f) (drains n rs triggered (ground (arith, f), f))
