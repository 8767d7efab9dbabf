-- ===== src/Exchange/Server.antt =====
-- The engine process (apps/simulated_exchange/exchange_engine_main.cpp): `process_request` for a request
-- that a gateway has queued, and `drain_and_dispatch`, which pushes the events to the gateways and to
-- the market-data queue. What the queues have taken is the list `pushed`; whether a queue has room for
-- an event is an argument, and an event it has no room for is dropped.
use low_latency_tick_to_trad.Prelude.{
  ℕ, Bool, Option, some, List, [], ◌∷◌, ◌++◌, leb, ◌==◌, if◌then◌else◌,
}
use low_latency_tick_to_trad.Types.{Price, Qty}
use low_latency_tick_to_trad.Exchange.{
  Core, Config, ExchangeEvent, ◌>>=◌, drain_events, on_client_connect, fill, bbo_event,
  session_assigned, event,
}
use low_latency_tick_to_trad.Exchange.Requests.{submit_order}
use low_latency_tick_to_trad.Exchange.Changes.{cancel_order, modify_order}
use low_latency_tick_to_trad.Exchange.Sessions.{on_client_disconnect}
use low_latency_tick_to_trad.Prelude.Int.{ℤ}

pub data OrderRequestType : Type 0 where
  new_order_request cancel_order_request modify_order_request client_connect client_disconnect :
      OrderRequestType

pub record OrderRequest : Type 0 where
  pub type : OrderRequestType
  pub gateway_id : ℕ
  pub session_id : ℕ
  pub request_seq : ℕ
  pub client_order_id : ℕ
  pub symbol_id : ℕ
  pub side : ℕ
  pub price : Price
  pub qty : Qty
  pub new_price : Price
  pub new_qty : Qty
  pub send_ts : ℤ

-- The response queue of a gateway, or the market-data queue.
pub data Queue : Type 0 where
  response : ℕ → Queue
  market_data : Queue

module _ (x : Config) where
  pub record Server : Type 0 where
    pub core : Core x
    pub session_to_gateway : ℕ → ℕ
    pub pushed : List (Queue × ExchangeEvent)

  module _ (accepts : Queue → ExchangeEvent → Bool) where
    abbrev pub try_push :
        Queue → ExchangeEvent → List (Queue × ExchangeEvent) → List (Queue × ExchangeEvent)
    try_push q e pushed = if accepts q e then pushed ++ (q, e) ∷ [] else pushed

    -- One round of the loop of `drain_and_dispatch`, for an event that has its request's number.
    unfoldable pub dispatch :
        (ℕ → ℕ) → ExchangeEvent → List (Queue × ExchangeEvent) → List (Queue × ExchangeEvent)
    dispatch gateway_of e pushed = elim e.type [
      | fill ↦ try_push market_data e (try_push (response (gateway_of e.session_id)) e pushed)
      | bbo_event ↦ try_push market_data e pushed
      | _ ↦ try_push (response (gateway_of e.session_id)) e pushed
    ]

    unfoldable pub dispatch_all :
        (ℕ → ℕ)
        → ℕ
        → List ExchangeEvent
        → List (Queue × ExchangeEvent)
        → List (Queue × ExchangeEvent)
    unfolding dispatch
    dispatch_all gateway_of request_seq [] pushed = pushed
    dispatch_all gateway_of request_seq (e ∷ es) pushed =
        dispatch_all gateway_of request_seq es
          (dispatch gateway_of (record e { request_seq = request_seq }) pushed)

    unfoldable pub drain_and_dispatch : ℕ → Server → Server
    unfolding dispatch_all
    drain_and_dispatch request_seq s =
        let (events, core) = drain_events x s.core in
        record s {
          core = core;
          pushed = dispatch_all s.session_to_gateway request_seq events s.pushed;
        }

    -- The answer to a new session; the session is taken back if the gateway's queue is full.
    unfoldable pub assign_session : OrderRequest → ℕ → Server → Option Server
    assign_session req session_id s =
        let e = record (event session_assigned) {
          session_id = session_id;
          request_seq = req.request_seq;
          client_order_id = req.client_order_id;
        } in
        let routed =
          λ (j : ℕ). if j == session_id then req.gateway_id else s.session_to_gateway j in
        let undone = on_client_disconnect x session_id s.core in
        if accepts (response req.gateway_id) e
        then some (record s {
          session_to_gateway = routed;
          pushed = s.pushed ++ (response req.gateway_id, e) ∷ [];
        })
        else (do
          core ← undone
          some (record s {
            core = core;
            session_to_gateway = λ j. if j == session_id then 0 else routed j;
          }))

    -- A request that the core has answered with events.
    abbrev pub answered : OrderRequest → Server → Core x → Server
    answered req s core = drain_and_dispatch req.request_seq (record s { core = core })

    unfoldable pub handle : OrderRequestType → OrderRequest → Server → Option Server
    unfolding assign_session drain_and_dispatch
    handle client_connect req s = do
      (core, session_id) ← on_client_connect x s.core
      assign_session req session_id (record s { core = core })
    handle client_disconnect req s = do
      core ← on_client_disconnect x req.session_id s.core
      some (record s { core = core })
    handle new_order_request req s = do
      core ←
          submit_order x req.session_id
            (record {
              client_order_id = req.client_order_id;
              symbol_id = req.symbol_id;
              side = req.side;
              price = req.price;
              qty = req.qty;
              send_ts = req.send_ts;
            })
            s.core
      some (answered req s core)
    handle cancel_order_request req s = do
      core ←
          cancel_order x req.session_id
            (record {
              client_order_id = req.client_order_id;
              symbol_id = req.symbol_id;
              send_ts = req.send_ts;
            })
            s.core
      some (answered req s core)
    handle modify_order_request req s = do
      core ←
          modify_order x req.session_id
            (record {
              client_order_id = req.client_order_id;
              symbol_id = req.symbol_id;
              new_price = req.new_price;
              new_qty = req.new_qty;
              send_ts = req.send_ts;
            })
            s.core
      some (answered req s core)

    unfoldable pub process_request : ℕ → OrderRequest → Server → Option Server
    unfolding handle
    process_request num_gateways req s =
        if leb num_gateways req.gateway_id then some s else handle req.type req s

  -- The loop over the requests that arrive, with the room of the queues at each.
  unfoldable pub serve :
      ℕ → List ((Queue → ExchangeEvent → Bool) × OrderRequest) → Server → Option Server
  unfolding process_request
  serve num_gateways [] s = some s
  serve num_gateways ((accepts, req) ∷ rs) s = do
    s' ← process_request accepts num_gateways req s
    serve num_gateways rs s'
