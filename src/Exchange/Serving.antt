-- ===== src/Exchange/Serving.antt =====
-- The engine process (apps/simulated_exchange/exchange_engine_main.cpp) over sequences of requests.
use low_latency_tick_to_trad.Prelude.{
  ℕ, zero, suc, ◌+◌, ◌-◌, ◌%◌, ◌≤◌, ◌<◌, ◌≡◌, refl, ap, subst, Bool, true, false, Option, none,
  some, List, [], ◌∷◌, arith, ◌==◌, if◌then◌else◌, length, Bool-cases, inl, inr, ◌^◌, leb,
}
use low_latency_tick_to_trad.Prelude.Word.{u32}
use low_latency_tick_to_trad.Exchange.{
  Core, Config, Engine, ExchangeEvent, ◌>>=◌, on_client_connect, max_events, IdEntry,
  extract_session_id, connect_from, erase_ids, event, session_assigned,
}
use mathlib.Core.Option.{some-injective}
use low_latency_tick_to_trad.Exchange.Frames.{Matched}
use low_latency_tick_to_trad.Exchange.Serves.{Fine, Serves, most_events, submit_order-Serves}
use low_latency_tick_to_trad.Exchange.Upkeep.{
  cancelled-Fine, cancel_order-Serves, modify_order-Serves,
}
use low_latency_tick_to_trad.Exchange.Sessions.{
  cancel_all, erase_pair, erase_pairs, on_client_disconnect, keys_of, close_session, forget_seen,
}
use low_latency_tick_to_trad.Exchange.Server.{
  OrderRequest, OrderRequestType, Queue, Server, handle, assign_session, drain_and_dispatch,
  client_connect, client_disconnect, new_order_request, cancel_order_request, modify_order_request,
  response, answered, serve, process_request,
}

-- A result with the property, or an abort, and then not `q`.
abbrev pub Outcome : {A : Type 0} → Type 0 → (A → Type 0) → Option A → Type 0
Outcome q P none = ¬ q
Outcome q P (some a) = P a

weaken-Outcome :
    {A : Type 0} (q r : Type 0) (P : A → Type 0) (o : Option A)
    → (q → r)
    → Outcome r P o
    → Outcome q P o
weaken-Outcome q r P none f h = λ k. h (f k)
weaken-Outcome q r P (some a) f h = h

pub Outcome-bind :
    {A B : Type 0} (q : Type 0) (P : A → Type 0) (Q : B → Type 0) (o : Option A) (f : A → Option B)
    → Outcome q P o
    → ((a : A) → P a → Outcome q Q (f a))
    → Outcome q Q (o >>= f)
Outcome-bind q P Q none f h g = h
Outcome-bind q P Q (some a) f h g = g a h

pub Outcome-if :
    {A : Type 0} (q : Type 0) (b : Bool) (P : A → Type 0) (o p : Option A)
    → Outcome q P o
    → Outcome q P p
    → Outcome q P (if b then o else p)
Outcome-if q true P o p f g = f
Outcome-if q false P o p f g = g

pub Outcome-some :
    {A : Type 0} (q : Type 0) (P : A → Type 0) (o : Option A) {a : A}
    → o ≡ some a
    → Outcome q P o
    → P a
Outcome-some q P none e h = absurd (cc e)
Outcome-some q P (some b) e h = subst P (some-injective b _ e) h

-- A new order or a cancel.
abbrev pub adds_or_cancels : OrderRequestType → Bool
adds_or_cancels new_order_request = true
adds_or_cancels cancel_order_request = true
adds_or_cancels _ = false

module _ (x : Config) (max_orders max_levels : ℕ → ℕ) where
  abbrev pub Ready : Core x → Type 0
  Ready c = Fine x max_orders max_levels c.books × (c.events ≡ [])

  -- What a request needs not to abort: it is a new order or a cancel, and the id maps are paired.
  abbrev pub Safe : OrderRequestType → Core x → Type 0
  Safe t c = (adds_or_cancels t ≡ true) × Matched x c

  abbrev pub InRange : OrderRequest → Type 0
  InRange req = (req.qty < u32) × (req.new_qty < u32)

  served :
      (q : Type 0) (c : Core x) (n : ℕ) (o : Option (Core x))
      → c.events ≡ []
      → n ≤ max_events
      → Serves x max_orders max_levels q c n o
      → Outcome q (λ d. Fine x max_orders max_levels d.books) o
  served q c n none e l h =
      let z : length c.events ≡ 0 = ap length e in λ k. h (k, omega (arith, l, z))
  served q c n (some d) e l h = h.0

  cancel_all-Fine :
      (session_id : ℕ) (es : List (ℕ × IdEntry)) (books : ℕ → Engine x)
      → Fine x max_orders max_levels books
      → Fine x max_orders max_levels (cancel_all x session_id es books)
  unfolding cancel_all
  cancel_all-Fine session_id [] books f = f
  cancel_all-Fine session_id ((key, e) ∷ es) books f =
      elim (Bool-cases (extract_session_id key == session_id)) [
        | inl y ↦ rw y (
            cancel_all-Fine session_id es _
              (cancelled-Fine x max_orders max_levels books (e.symbol_id - 1) e.exchange_id f))
        | inr y ↦ rw y (cancel_all-Fine session_id es books f)
      ]

  erase_pair-Ready :
      (key : ℕ) (c : Core x) (o : Option IdEntry) → Ready c → Outcome ⊥ Ready (erase_pair x key c o)
  unfolding erase_pair erase_ids
  erase_pair-Ready key c none r = λ k. k
  erase_pair-Ready key c (some e) r = Outcome-if ⊥ _ Ready (some _) none r (λ k. k)

  erase_pairs-Ready :
      (keys : List ℕ) (c : Core x) → Ready c → Outcome ⊥ Ready (erase_pairs x keys c)
  unfolding erase_pairs
  erase_pairs-Ready [] c r = r
  erase_pairs-Ready (key ∷ keys) c r =
      Outcome-bind ⊥ Ready Ready (erase_pair x key c (x.ids.find c.id_map key)) _
        (erase_pair-Ready key c (x.ids.find c.id_map key) r) (λ d q. erase_pairs-Ready keys d q)

  on_client_disconnect-Ready :
      (session_id : ℕ) (c : Core x)
      → Ready c
      → Outcome ⊥ Ready (on_client_disconnect x session_id c)
  unfolding on_client_disconnect
  on_client_disconnect-Ready session_id c r =
      let keys = keys_of x session_id (x.ids_for_each c.id_map) in
      let closed = close_session x session_id c in
      Outcome-if ⊥ (session_id == 0) Ready (some c) _ r (
        Outcome-bind ⊥ Ready Ready (erase_pairs x keys closed)
          (λ d. some (forget_seen x session_id d))
          (erase_pairs-Ready keys closed
            (cancel_all-Fine session_id (x.ids_for_each c.id_map) c.books r.0, r.1))
          (λ d q. q))

  connect_from-Ready :
      (attempts : ℕ) (c : Core x)
      → Ready c
      → Outcome ⊥ (λ (a : Core x × ℕ). Ready a.0) (connect_from x attempts c)
  unfolding connect_from
  connect_from-Ready zero c r = λ k. k
  connect_from-Ready (suc attempts) c r =
      Outcome-if ⊥ (c.active_sessions (if c.next_session_id == 0 then 1 else c.next_session_id))
        (λ (a : Core x × ℕ). Ready a.0) _ _
        (connect_from-Ready attempts
          (record c {
            next_session_id =
                ((if c.next_session_id == 0 then 1 else c.next_session_id) + 1) % 2 ^ 16;
          })
          r)
        r

  on_client_connect-Ready :
      (c : Core x) → Ready c → Outcome ⊥ (λ (a : Core x × ℕ). Ready a.0) (on_client_connect x c)
  unfolding on_client_connect
  on_client_connect-Ready c r = connect_from-Ready 65535 c r

  abbrev pub Stands : Server x → Type 0
  Stands s = Ready s.core

  module _ (accepts : Queue → ExchangeEvent → Bool) where
    assign_session-Stands :
        (req : OrderRequest) (session_id : ℕ) (s : Server x)
        → Stands s
        → Outcome ⊥ Stands (assign_session x accepts req session_id s)
    unfolding assign_session
    assign_session-Stands req session_id s r =
        Outcome-if ⊥
          (accepts (response req.gateway_id) (record (event session_assigned) {
            session_id = session_id;
            request_seq = req.request_seq;
            client_order_id = req.client_order_id;
          }))
          Stands _ _ r
          (Outcome-bind ⊥ Ready Stands (on_client_disconnect x session_id s.core) _
            (on_client_disconnect-Ready session_id s.core r) (λ d q. q))

    answered-Stands :
        (q : Type 0) (req : OrderRequest) (s : Server x) (o : Option (Core x)) (n : ℕ)
        → s.core.events ≡ []
        → n ≤ max_events
        → Serves x max_orders max_levels q s.core n o
        → Outcome q Stands (o >>= (λ core. some (answered x accepts req s core)))
    unfolding drain_and_dispatch
    answered-Stands q req s o n e l h =
        Outcome-bind q (λ d. Fine x max_orders max_levels d.books) Stands o _
          (served q s.core n o e l h) (λ d f. (f, refl))

    handle-Stands :
        (t : OrderRequestType) (req : OrderRequest) (s : Server x)
        → most_events x max_orders max_levels ≤ max_events
        → InRange req
        → Stands s
        → Outcome (Safe t s.core) Stands (handle x accepts t req s)
    unfolding handle
    handle-Stands client_connect req s l h r =
        weaken-Outcome (Safe client_connect s.core) ⊥ Stands _ (λ k. absurd (let e = k.0 in cc e))
          (Outcome-bind ⊥ (λ (a : Core x × ℕ). Ready a.0) Stands (on_client_connect x s.core) _
            (on_client_connect-Ready s.core r)
            (λ a q. assign_session-Stands req a.1 (record s { core = a.0 }) q))
    handle-Stands client_disconnect req s l h r =
        weaken-Outcome (Safe client_disconnect s.core) ⊥ Stands _
          (λ k. absurd (let e = k.0 in cc e))
          (Outcome-bind ⊥ Ready Stands (on_client_disconnect x req.session_id s.core) _
            (on_client_disconnect-Ready req.session_id s.core r) (λ d q. q))
    handle-Stands new_order_request req s l h r =
        weaken-Outcome (Safe new_order_request s.core) (Matched x s.core) Stands _ (λ k. k.1)
          (answered-Stands (Matched x s.core) req s _ (most_events x max_orders max_levels) r.1 l
            (submit_order-Serves x max_orders max_levels req.session_id _ s.core r.0 h.0))
    handle-Stands cancel_order_request req s l h r =
        weaken-Outcome (Safe cancel_order_request s.core) (Matched x s.core) Stands _ (λ k. k.1)
          (answered-Stands (Matched x s.core) req s _ 1 r.1 (omega arith)
            (cancel_order-Serves x max_orders max_levels req.session_id _ s.core r.0))
    handle-Stands modify_order_request req s l h r =
        weaken-Outcome (Safe modify_order_request s.core) ⊥ Stands _
          (λ k. absurd (let e = k.0 in cc e))
          (answered-Stands ⊥ req s _ (most_events x max_orders max_levels) r.1 l
            (modify_order-Serves x max_orders max_levels req.session_id _ s.core r.0 h.1))

    process_request-Stands :
        (num_gateways : ℕ) (req : OrderRequest) (s : Server x)
        → most_events x max_orders max_levels ≤ max_events
        → InRange req
        → Stands s
        → Outcome (Safe req.type s.core) Stands (process_request x accepts num_gateways req s)
    unfolding process_request
    process_request-Stands num_gateways req s l h r =
        Outcome-if (Safe req.type s.core) (leb num_gateways req.gateway_id) Stands (some s)
          (handle x accepts req.type req s) r (handle-Stands req.type req s l h r)

  abbrev pub AllInRange : List ((Queue → ExchangeEvent → Bool) × OrderRequest) → Type 0
  AllInRange [] = Unit
  AllInRange ((_, req) ∷ rs) = InRange req × AllInRange rs

  run-Stands :
      (num_gateways : ℕ) (rs : List ((Queue → ExchangeEvent → Bool) × OrderRequest)) (s : Server x)
      → most_events x max_orders max_levels ≤ max_events
      → AllInRange rs
      → Stands s
      → Outcome ⊥ Stands (serve x num_gateways rs s)
  unfolding serve
  run-Stands num_gateways [] s l h r = r
  run-Stands num_gateways ((accepts, req) ∷ rs) s l h r =
      Outcome-bind ⊥ Stands Stands (process_request x accepts num_gateways req s) _
        (weaken-Outcome ⊥ (Safe req.type s.core) Stands _ (λ k. absurd k)
          (process_request-Stands accepts num_gateways req s l h.0 r))
        (λ t q. run-Stands num_gateways rs t l h.1 q)

  -- Let no event be pending and every book be consistent and not crossed, and let 1 + 4 * MaxFills
  -- events fit the buffer. Whatever sequence of requests with quantities below 2 ^ 32 the process
  -- gets through (new orders, cancels, modifies, connects and disconnects, for any ids and
  -- symbols), and whatever events the queues drop, afterwards no event is pending and every book is
  -- again consistent and not crossed. A next request that it returns from leaves it so too, and if
  -- that is a new order or a cancel, it aborts only if the forward and the reverse id map are not
  -- paired.
  pub serve-Stands :
      (num_gateways : ℕ) (rs : List ((Queue → ExchangeEvent → Bool) × OrderRequest)) (s : Server x)
      (accepts : Queue → ExchangeEvent → Bool) (next : OrderRequest) {t : Server x}
      → most_events x max_orders max_levels ≤ max_events
      → AllInRange rs
      → InRange next
      → Stands s
      → serve x num_gateways rs s ≡ some t
      → Stands t
        × Outcome (Safe next.type t.core) Stands (process_request x accepts num_gateways next t)
  serve-Stands num_gateways rs s accepts next {t} l h n r e =
      let u = Outcome-some ⊥ Stands _ e (run-Stands num_gateways rs s l h r) in
      (u, process_request-Stands accepts num_gateways next t l n u)
