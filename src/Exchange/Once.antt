-- ===== src/Exchange/Once.antt =====
-- The ids of clients' orders (apps/simulated_exchange/exchange_core.hpp): an id is used once in a
-- session, whatever requests the engine's process handles in between.
use low_latency_tick_to_trad.Prelude.{
  ℕ, ◌≤◌, ◌<◌, ◌≡◌, refl, sym, subst, ◌∙◌, Bool, true, false, none, some, List, [], ◌∷◌, ◌++◌,
  arith, ltb, leb, length, ◌^◌,
}
use low_latency_tick_to_trad.Exchange.Serving.{Outcome, Outcome-bind, Outcome-some}
use low_latency_tick_to_trad.Exchange.{order_rejected}
use low_latency_tick_to_trad.Exchange.Requests.{
  reject, submit_order, submit_at, submit_unseen, submit_new,
}
use low_latency_tick_to_trad.Exchange.Seen.{UsedIn, key_found, submit_new-Used}
use low_latency_tick_to_trad.Exchange.Server.{
  Queue, serve, OrderRequest, handle, process_request, Server, new_order_request,
}
use low_latency_tick_to_trad.Exchange.{
  Config, ExchangeEvent, Core, emit, max_events, is_some, max_client_order_id, symbol_index,
  make_composite_key, duplicate_order_id,
}
use low_latency_tick_to_trad.Protocol.{NewOrder}
use low_latency_tick_to_trad.Exchange.Keys.{composite_key_round_trip}
use low_latency_tick_to_trad.Exchange.StaysOn.{StaysOn, answered-Used, serve-Used}

module _ (x : Config) where
  submit_first :
      (session_id : ℕ) (order : NewOrder) (c : Core x) (i : ℕ) (m : x.seen.Map)
      → order.client_order_id ≤ max_client_order_id
      → symbol_index x c order.symbol_id ≡ some i
      → x.seen.find c.seen_orders (make_composite_key session_id order.client_order_id) ≡ none
      → x.seen.insert c.seen_orders (make_composite_key session_id order.client_order_id) true
        ≡ some m
      → submit_order x session_id order c
        ≡ submit_new x session_id order i (record c { seen_orders = m })
  unfolding submit_order submit_at submit_unseen
  submit_first session_id order c i m k s u t =
      let l : ltb max_client_order_id order.client_order_id ≡ false = ground (arith, k) in
      rw (l, s, u, t) refl

  submit_known :
      (session_id : ℕ) (order : NewOrder) (c : Core x) (i : ℕ)
      → order.client_order_id ≤ max_client_order_id
      → symbol_index x c order.symbol_id ≡ some i
      → is_some (x.seen.find c.seen_orders (make_composite_key session_id order.client_order_id))
        ≡ true
      → submit_order x session_id order c
        ≡ emit x
            (reject order_rejected session_id order.client_order_id order.symbol_id order.send_ts
              duplicate_order_id)
            c
  unfolding submit_order submit_at
  submit_known session_id order c i k s u =
      let l : ltb max_client_order_id order.client_order_id ≡ false = ground (arith, k) in
      rw (l, s, u) refl

  -- An event that fits the buffer is appended.
  emit_fits :
      (e : ExchangeEvent) (c : Core x)
      → length c.events < max_events
      → emit x e c ≡ some (record c { events = c.events ++ e ∷ [] })
  unfolding emit
  emit_fits e c l =
      let z : leb max_events (length c.events) ≡ false = ground (arith, l) in rw z refl

  -- The order of a request.
  abbrev pub order_of : OrderRequest → NewOrder
  order_of req = record {
    client_order_id = req.client_order_id;
    symbol_id = req.symbol_id;
    side = req.side;
    price = req.price;
    qty = req.qty;
    send_ts = req.send_ts;
  }

  first_used :
      (num_gateways : ℕ) (accepts : Queue → ExchangeEvent → Bool) (first : OrderRequest)
      (s : Server x) (i : ℕ) {m : x.seen.Map}
      → first.type ≡ new_order_request
      → first.gateway_id < num_gateways
      → first.session_id < 2 ^ 16
      → first.client_order_id ≤ max_client_order_id
      → symbol_index x s.core first.symbol_id ≡ some i
      → x.seen.IsValid s.core.seen_orders
      → s.core.active_sessions first.session_id ≡ true
      → x.seen.find s.core.seen_orders (make_composite_key first.session_id first.client_order_id)
        ≡ none
      → x.seen.insert s.core.seen_orders
          (make_composite_key first.session_id first.client_order_id)
          true
        ≡ some m
      → Outcome ⊥
          (λ (t : Server x).
            UsedIn x first.session_id
              (make_composite_key first.session_id first.client_order_id)
              t.core)
          (process_request x accepts num_gateways first s)
  unfolding process_request handle
  first_used num_gateways accepts first s i {m} ty g w k sym_known v act new ins =
      let key = make_composite_key first.session_id first.client_order_id in
      let order = order_of first in
      let here : leb num_gateways first.gateway_id ≡ false = ground (arith, g) in
      let taken : Core x = record s.core { seen_orders = m } in
      let used : UsedIn x first.session_id key taken = record {
        valid = x.seen.insert-IsValid s.core.seen_orders key true v ins;
        found = key_found x key s.core.seen_orders m v ins;
        connected = act;
      } in
      rw (here, ty)
        (answered-Used x first.session_id key
          (composite_key_round_trip first.session_id first.client_order_id w k).0 accepts first s _
          (subst (Outcome ⊥ (UsedIn x first.session_id key))
            (sym (submit_first first.session_id order s.core i m k sym_known new ins))
            (submit_new-Used x first.session_id key first.session_id order i taken used)))

  -- Let a gateway send a new order of a connected session, with an id that fits and is new, for a
  -- registered symbol, and let the map of the ids seen take the id. Whether the engine then accepts
  -- or rejects it, and whatever sequence of requests of any sessions follows that the process gets
  -- through and that does not disconnect the session (new orders, cancels, modifies, connects,
  -- disconnects of others), with whatever events the queues drop: an order of the session with that
  -- id and a registered symbol then gets one event if the buffer has room, the rejection as a
  -- duplicate, and changes nothing else.
  pub ids_used_once :
      (num_gateways : ℕ) (accepts : Queue → ExchangeEvent → Bool) (first : OrderRequest)
      (rs : List ((Queue → ExchangeEvent → Bool) × OrderRequest)) (again : NewOrder) (s : Server x)
      (i j : ℕ) {m : x.seen.Map} {t : Server x}
      → first.type ≡ new_order_request
      → first.gateway_id < num_gateways
      → first.session_id < 2 ^ 16
      → first.client_order_id ≤ max_client_order_id
      → symbol_index x s.core first.symbol_id ≡ some i
      → x.seen.IsValid s.core.seen_orders
      → s.core.active_sessions first.session_id ≡ true
      → x.seen.find s.core.seen_orders (make_composite_key first.session_id first.client_order_id)
        ≡ none
      → x.seen.insert s.core.seen_orders
          (make_composite_key first.session_id first.client_order_id)
          true
        ≡ some m
      → StaysOn first.session_id rs
      → serve x num_gateways ((accepts, first) ∷ rs) s ≡ some t
      → again.client_order_id ≡ first.client_order_id
      → symbol_index x t.core again.symbol_id ≡ some j
      → length t.core.events < max_events
      → submit_order x first.session_id again t.core
        ≡ some (record t.core {
          events =
              t.core.events
              ++ reject order_rejected first.session_id again.client_order_id again.symbol_id
                  again.send_ts duplicate_order_id
                ∷ [];
        })
  unfolding serve
  ids_used_once num_gateways accepts first rs again s i j {m} {t} ty g w k sym_known v act new ins
        stays e same again_known room =
      let key = make_composite_key first.session_id first.client_order_id in
      let of_session = (composite_key_round_trip first.session_id first.client_order_id w k).0 in
      let used =
        Outcome-some ⊥ (λ (z : Server x). UsedIn x first.session_id key z.core) _ e
          (Outcome-bind ⊥ (λ (z : Server x). UsedIn x first.session_id key z.core)
            (λ (z : Server x). UsedIn x first.session_id key z.core)
            (process_request x accepts num_gateways first s) (serve x num_gateways rs)
            (first_used num_gateways accepts first s i ty g w k sym_known v act new ins)
            (λ z u. serve-Used x first.session_id key of_session num_gateways rs z stays u)) in
      submit_known first.session_id again t.core j
        (subst (λ z. z ≤ max_client_order_id) (sym same) k) again_known
        (subst
          (λ z.
            is_some (x.seen.find t.core.seen_orders (make_composite_key first.session_id z)) ≡ true)
          (sym same) used.found)
      ∙ emit_fits _ t.core room
