-- ===== src/Exchange/StaysOn.antt =====
-- Connects, disconnects and the loop of apps/simulated_exchange/exchange_engine_main.cpp keep the ids
-- seen of a session that is not disconnected.
use low_latency_tick_to_trad.Prelude.{
  ℕ, zero, suc, ◌+◌, ◌%◌, ◌≡◌, sym, subst, ◌∙◌, ap, Bool, true, false, Option, none, some, List, [],
  ◌∷◌, arith, leb, ◌==◌, ==_iff, if◌then◌else◌, Bool-cases, inl, inr, ◌^◌,
}
use low_latency_tick_to_trad.Exchange.Serving.{Outcome, Outcome-bind, Outcome-if}
use low_latency_tick_to_trad.Exchange.Seen.{
  Used, UsedIn, submit_order-Used, cancel_order-Used, modify_order-Used,
}
use low_latency_tick_to_trad.Exchange.Server.{
  Queue, OrderRequestType, serve, OrderRequest, handle, process_request, client_disconnect,
  drain_and_dispatch, assign_session, Server, answered, client_connect, new_order_request,
  cancel_order_request, modify_order_request, response,
}
use low_latency_tick_to_trad.Exchange.{
  extract_session_id, Config, ExchangeEvent, connect_from, Core, erase_ids, is_some,
  on_client_connect, IdEntry, ◌>>=◌, event, session_assigned,
}
use low_latency_tick_to_trad.Exchange.Sessions.{
  erase_seen, erase_pair, keys_of, erase_pairs, on_client_disconnect, close_session, forget_seen,
}

-- Every key is of the session.
abbrev AllOf : ℕ → List ℕ → Type 0
AllOf session_id [] = Unit
AllOf session_id (key ∷ keys) = (extract_session_id key ≡ session_id) × AllOf session_id keys

-- The request disconnects the session.
abbrev pub ends_session : ℕ → OrderRequestType → OrderRequest → Bool
ends_session session_id client_disconnect req = req.session_id == session_id
ends_session session_id _ req = false

-- No request disconnects the session.
abbrev pub StaysOn : ℕ → List ((Queue → ExchangeEvent → Bool) × OrderRequest) → Type 0
StaysOn session_id [] = Unit
StaysOn session_id ((_, req) ∷ rs) =
    (ends_session session_id req.type req ≡ false) × StaysOn session_id rs

module _ (x : Config) where
  keys_of-AllOf :
      {V : Type 0} (session_id : ℕ) (es : List (ℕ × V)) → AllOf session_id (keys_of x session_id es)
  unfolding keys_of
  keys_of-AllOf session_id [] = tt
  keys_of-AllOf session_id ((key, _) ∷ es) =
      elim (Bool-cases (extract_session_id key == session_id)) [
        | inl y ↦ rw y ((==_iff _ _).0 y, keys_of-AllOf session_id es)
        | inr y ↦ rw y (keys_of-AllOf session_id es)
      ]

  module _ (session_id key : ℕ) (of_session : extract_session_id key ≡ session_id) where
    erase_seen-Used :
        (other : ℕ) (keys : List ℕ) (seen : x.seen.Map) (active : ℕ → Bool)
        → (other == session_id) ≡ false
        → AllOf other keys
        → Used x session_id key seen active
        → Used x session_id key (erase_seen x keys seen) active
    unfolding erase_seen
    erase_seen-Used other [] seen active n a u = u
    erase_seen-Used other (k ∷ keys) seen active n a u =
        let differs : x.seen.same key k ≡ false = elim (Bool-cases (x.seen.same key k)) [
          | inl y ↦
              let e : other ≡ session_id =
                sym a.0 ∙ ap extract_session_id (sym ((x.seen.same_iff key k).0 y)) ∙ of_session in
              absurd (let t = (==_iff other session_id).1 e in cc (t, n))
          | inr y ↦ y
        ] in
        erase_seen-Used other keys (x.seen.erase seen k) active n a.1 (record {
          valid = x.seen.erase-IsValid seen k u.valid;
          found =
              subst (λ o. is_some o ≡ true) (sym (x.seen.find-erase seen k key u.valid))
                (rw differs u.found);
          connected = u.connected;
        })

    erase_pair-Used :
        (k : ℕ) (c : Core x) (o : Option IdEntry)
        → UsedIn x session_id key c
        → Outcome ⊥ (UsedIn x session_id key) (erase_pair x k c o)
    unfolding erase_pair erase_ids
    erase_pair-Used k c none u = λ h. h
    erase_pair-Used k c (some e) u =
        Outcome-if ⊥ _ (UsedIn x session_id key) (some _) none u (λ h. h)

    erase_pairs-Used :
        (keys : List ℕ) (c : Core x)
        → UsedIn x session_id key c
        → Outcome ⊥ (UsedIn x session_id key) (erase_pairs x keys c)
    unfolding erase_pairs
    erase_pairs-Used [] c u = u
    erase_pairs-Used (k ∷ keys) c u =
        Outcome-bind ⊥ (UsedIn x session_id key) (UsedIn x session_id key)
          (erase_pair x k c (x.ids.find c.id_map k)) _
          (erase_pair-Used k c (x.ids.find c.id_map k) u) (λ d v. erase_pairs-Used keys d v)

    on_client_disconnect-Used :
        (other : ℕ) (c : Core x)
        → (other == session_id) ≡ false
        → UsedIn x session_id key c
        → Outcome ⊥ (UsedIn x session_id key) (on_client_disconnect x other c)
    unfolding on_client_disconnect
    on_client_disconnect-Used other c n u =
        let keys = keys_of x other (x.ids_for_each c.id_map) in
        let closed = close_session x other c in
        let m : (session_id == other) ≡ false = ground (arith, n) in
        let v : UsedIn x session_id key closed = record {
          valid = u.valid;
          found = u.found;
          connected = rw m u.connected;
        } in
        Outcome-if ⊥ (other == 0) (UsedIn x session_id key) (some c) _ u (
          Outcome-bind ⊥ (UsedIn x session_id key) (UsedIn x session_id key)
            (erase_pairs x keys closed) (λ d. some (forget_seen x other d))
            (erase_pairs-Used keys closed v)
            (λ d w.
              erase_seen-Used other (keys_of x other (x.seen_for_each d.seen_orders)) d.seen_orders
                d.active_sessions n (keys_of-AllOf other (x.seen_for_each d.seen_orders)) w))

    -- A connection gets the number of a session that was not connected.
    abbrev Fresh : Core x × ℕ → Type 0
    Fresh (c, other) = UsedIn x session_id key c × ((other == session_id) ≡ false)

    connect_from-Used :
        (attempts : ℕ) (c : Core x)
        → UsedIn x session_id key c
        → Outcome ⊥ Fresh (connect_from x attempts c)
    unfolding connect_from
    connect_from-Used zero c u = λ h. h
    connect_from-Used (suc attempts) c u =
        let id = if c.next_session_id == 0 then 1 else c.next_session_id in
        let next : Core x = record c { next_session_id = (id + 1) % 2 ^ 16 } in
        elim (Bool-cases (c.active_sessions id)) [
          | inl y ↦ rw y (connect_from-Used attempts next u)
          | inr y ↦
              let n : (id == session_id) ≡ false = elim (Bool-cases (id == session_id)) [
                | inl e ↦
                    let z : c.active_sessions id ≡ true =
                      ap c.active_sessions ((==_iff id session_id).0 e) ∙ u.connected in
                    absurd (cc (z, y))
                | inr e ↦ e
              ] in
              let m : (session_id == id) ≡ false = ground (arith, n) in
              rw y (record { valid = u.valid; found = u.found; connected = rw m u.connected }, n)
        ]

    module _ (accepts : Queue → ExchangeEvent → Bool) where
      assign_session-Used :
          (req : OrderRequest) (other : ℕ) (s : Server x)
          → UsedIn x session_id key s.core
          → (other == session_id) ≡ false
          → Outcome ⊥
              (λ (t : Server x). UsedIn x session_id key t.core)
              (assign_session x accepts req other s)
      unfolding assign_session
      assign_session-Used req other s u n =
          Outcome-if ⊥
            (accepts (response req.gateway_id) (record (event session_assigned) {
              session_id = other;
              request_seq = req.request_seq;
              client_order_id = req.client_order_id;
            }))
            (λ (t : Server x). UsedIn x session_id key t.core) _ _ u
            (Outcome-bind ⊥ (UsedIn x session_id key)
              (λ (t : Server x). UsedIn x session_id key t.core) _ _
              (on_client_disconnect-Used other s.core n u) (λ d v. v))

      pub answered-Used :
          (req : OrderRequest) (s : Server x) (o : Option (Core x))
          → Outcome ⊥ (UsedIn x session_id key) o
          → Outcome ⊥
              (λ (t : Server x). UsedIn x session_id key t.core)
              (o >>= (λ core. some (answered x accepts req s core)))
      unfolding drain_and_dispatch
      answered-Used req s o h =
          Outcome-bind ⊥ (UsedIn x session_id key)
            (λ (t : Server x). UsedIn x session_id key t.core) o _ h
            (λ d v. record { valid = v.valid; found = v.found; connected = v.connected })

      handle-Used :
          (t : OrderRequestType) (req : OrderRequest) (s : Server x)
          → ends_session session_id t req ≡ false
          → UsedIn x session_id key s.core
          → Outcome ⊥ (λ (t : Server x). UsedIn x session_id key t.core) (handle x accepts t req s)
      unfolding handle on_client_connect
      handle-Used client_connect req s n u =
          Outcome-bind ⊥ Fresh (λ (t : Server x). UsedIn x session_id key t.core)
            (on_client_connect x s.core) _ (connect_from-Used 65535 s.core u)
            (λ a q. assign_session-Used req a.1 (record s { core = a.0 }) q.0 q.1)
      handle-Used client_disconnect req s n u =
          Outcome-bind ⊥ (UsedIn x session_id key)
            (λ (t : Server x). UsedIn x session_id key t.core) _ _
            (on_client_disconnect-Used req.session_id s.core n u) (λ d v. v)
      handle-Used new_order_request req s n u =
          answered-Used req s _ (submit_order-Used x session_id key req.session_id _ s.core u)
      handle-Used cancel_order_request req s n u =
          answered-Used req s _ (cancel_order-Used x session_id key req.session_id _ s.core u)
      handle-Used modify_order_request req s n u =
          answered-Used req s _ (modify_order-Used x session_id key req.session_id _ s.core u)

    pub serve-Used :
        (num_gateways : ℕ) (rs : List ((Queue → ExchangeEvent → Bool) × OrderRequest))
        (s : Server x)
        → StaysOn session_id rs
        → UsedIn x session_id key s.core
        → Outcome ⊥ (λ (t : Server x). UsedIn x session_id key t.core) (serve x num_gateways rs s)
    unfolding serve process_request
    serve-Used num_gateways [] s n u = u
    serve-Used num_gateways ((accepts, req) ∷ rs) s n u =
        Outcome-bind ⊥ (λ (t : Server x). UsedIn x session_id key t.core)
          (λ (t : Server x). UsedIn x session_id key t.core)
          (process_request x accepts num_gateways req s) _
          (Outcome-if ⊥ (leb num_gateways req.gateway_id)
            (λ (t : Server x). UsedIn x session_id key t.core) (some s)
            (handle x accepts req.type req s) u (handle-Used accepts req.type req s n.0 u))
          (λ t v. serve-Used num_gateways rs t n.1 v)
