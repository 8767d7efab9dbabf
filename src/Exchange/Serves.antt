-- ===== src/Exchange/Serves.antt =====
-- The requests of apps/simulated_exchange/exchange_core.hpp keep every book consistent and not crossed,
-- and answer with so many events at most.
use low_latency_tick_to_trad.Prelude.{
  ℕ, ◌+◌, ◌*◌, ◌%◌, ◌≤◌, ◌<◌, ◌≡◌, refl, sym, subst, ◌∙◌, ap, Bool, true, false, not, ◌||◌, Option,
  none, some, List, [], arith, ltb, ◌==◌, ==_iff, if◌then◌else◌, length, length-append, append-nil,
  Bool-cases, inl, inr,
}
use low_latency_tick_to_trad.Types.{Price, OrderId, Qty, Side}
use low_latency_tick_to_trad.Prelude.Word.{u32}
use low_latency_tick_to_trad.Protocol.{NewOrder}
use low_latency_tick_to_trad.Book.Inv.{IsValid}
use low_latency_tick_to_trad.Engine.Uncrossed.{Uncrossed, submit_order-Uncrossed}
use low_latency_tick_to_trad.Exchange.{
  Core, Config, Engine, emit, max_events, set_book, IdEntry, max_client_order_id, symbol_index,
  make_composite_key, ReverseIdEntry, is_some, u64, ExchangeEvent,
}
use low_latency_tick_to_trad.Exchange.Frames.{
  Framed, none-Framed, emit-Emits, emit_fills-Emits, Ends, Ends-bind, Emits-Ends, Matched,
}
use low_latency_tick_to_trad.Exchange.Requests.{
  accept, submit_new, submit_unseen, submit_at, submit_order, side_of_code, remember,
}
use low_latency_tick_to_trad.Engine.Outcome.{submit_order_fair}
use low_latency_tick_to_trad.Engine
use low_latency_tick_to_trad.Book

module _ (x : Config) (max_orders max_levels : ℕ → ℕ) where
  -- Every book is consistent, and no bid of it crosses an ask.
  abbrev pub Fine : (ℕ → Engine x) → Type 0
  Fine books =
      (i : ℕ)
      → IsValid x.orders x.levels (max_orders i) (max_levels i) (books i)
        × Uncrossed x.orders x.levels (books i)

  -- All books are fine afterwards and at most `n` events are new, or the call aborts, and then not
  -- both: `q` holds and `n` more events fit.
  abbrev pub Serves : Type 0 → Core x → ℕ → Option (Core x) → Type 0
  Serves q c n none = ¬ (q × (length c.events + n ≤ max_events))
  Serves q c n (some c') = Fine c'.books × (length c'.events ≤ length c.events + n)

  pub Ends-Serves :
      (q : Type 0) (c : Core x) (n m : ℕ) (o : Option (Core x))
      → Fine c.books
      → n ≤ m
      → Ends x q c n o
      → Serves q c m o
  Ends-Serves q c n m none f l e =
      λ h. (let z = e h.0 in let w = h.1 in absurd (omega (arith, z, w, l)))
  Ends-Serves q c n m (some d) f l e = (
    subst Fine (sym e.books) f,
    (let s = length-append c.events e.new in
        let r : length d.events ≡ length c.events + length e.new = ap length e.appended ∙ s in
        omega (arith, r, e.at_most, l)),
  )

  -- One event, with the id maps as they were.
  pub emit-Serves :
      (q : Type 0) (e : ExchangeEvent) (c : Core x) (m : ℕ)
      → Fine c.books
      → 1 ≤ m
      → (q → Matched x c)
      → Serves q c m (emit x e c)
  emit-Serves q e c m f l p = Ends-Serves q c 1 m _ f l (Emits-Ends x c q 1 _ p (emit-Emits x e c))

  pub set_book-Fine :
      (books : ℕ → Engine x) (i : ℕ) (b : Engine x)
      → Fine books
      → IsValid x.orders x.levels (max_orders i) (max_levels i) b × Uncrossed x.orders x.levels b
      → Fine (λ j. if j == i then b else books j)
  set_book-Fine books i b f g j = elim (Bool-cases (j == i)) [
    | inl e ↦ rw e (
        subst
          (λ k.
            IsValid x.orders x.levels (max_orders k) (max_levels k) b
            × Uncrossed x.orders x.levels b)
          (sym ((==_iff j i).0 e)) g)
    | inr e ↦ rw e (f j)
  ]

  pub Serves-if :
      (q : Type 0) (c : Core x) (n : ℕ) (b : Bool) (o p : Option (Core x))
      → Serves q c n o
      → Serves q c n p
      → Serves q c n (if b then o else p)
  Serves-if q c n true o p f g = f
  Serves-if q c n false o p f g = g

  -- The number of events of one accepted order.
  abbrev pub most_events : ℕ
  most_events = 1 + 4 * x.max_fills

  pub remember-Framed :
      (key : ℕ) (e : IdEntry) (maker : ReverseIdEntry) (c : Core x) (rested : Bool)
      → Framed x c 0 (if rested then remember x key e maker c else c)
  remember-Framed key e maker c true = record {
    books = refl;
    seen = refl;
    next = refl;
    sessions = refl;
    new = [];
    appended = sym (append-nil c.events);
    at_most = omega arith;
  }
  remember-Framed key e maker c false = none-Framed x c 0

  pub accept-Ends :
      (q : Type 0) (session_id : ℕ) (order : NewOrder) (i : ℕ) (book : Engine x)
      (fills : List Engine.Fill) (rested : Bool) (c : Core x)
      → (q → Matched x c)
      → Ends x q c (1 + (4 * length fills + 0)) (accept x session_id order i book fills rested c)
  unfolding accept
  accept-Ends q session_id order i book fills rested c p =
      Ends-bind x q 1 (4 * length fills + 0) (emit x _ c) _ p (emit-Emits x _ c) (λ b f pb.
        Ends-bind x q (4 * length fills) 0 _ _ pb (emit_fills-Emits x book _ order.qty fills b)
          (λ d g pd.
            remember-Framed (make_composite_key session_id order.client_order_id)
              (record {
                exchange_id = i;
                side = side_of_code order.side;
                symbol_id = order.symbol_id;
              })
              (record {
                session_id = session_id;
                client_order_id = order.client_order_id;
                symbol_id = order.symbol_id;
                send_ts = order.send_ts;
              })
              d rested))

  -- The fills of an order that is submitted to a consistent book.
  fills_bounded :
      (i : ℕ) (b : Engine x) (id : OrderId) (s : Side) (price : Price) (qty : Qty)
      → IsValid x.orders x.levels (max_orders i) (max_levels i) b
      → qty < u32
      → length (Engine.submit_order x.orders x.levels x.max_fills b id s price qty).1.fills
        ≤ x.max_fills
  fills_bounded i b id s price qty v h =
      (submit_order_fair x.orders x.levels x.max_fills (max_orders i) (max_levels i) b id s price
        qty v h).1

  submit_new-Serves :
      (session_id : ℕ) (order : NewOrder) (i : ℕ) (c : Core x)
      → Fine c.books
      → order.qty < u32
      → Serves (Matched x c) c most_events (submit_new x session_id order i c)
  unfolding submit_new
  submit_new-Serves session_id order i c f h =
      let r =
        Engine.submit_order x.orders x.levels x.max_fills (c.books i) c.next_exchange_id
          (side_of_code order.side) order.price order.qty in
      let fine = set_book-Fine c.books i r.0 f (
        submit_order-Uncrossed x.orders x.levels x.max_fills (max_orders i) (max_levels i)
          (c.books i) c.next_exchange_id (side_of_code order.side) order.price order.qty (f i).0
          (f i).1 h) in
      let few =
        fills_bounded i (c.books i) c.next_exchange_id (side_of_code order.side) order.price
          order.qty (f i).0 h in
      let c' : Core x =
        set_book x (record c { next_exchange_id = (c.next_exchange_id + 1) % u64 }) i r.0 in
      Serves-if (Matched x c) c most_events (r.1.rested || not (Book.is_nil r.1.fills)) _ _
        (Ends-Serves (Matched x c) c' (1 + (4 * length r.1.fills + 0)) most_events _ fine
          (omega (arith, few))
          (accept-Ends (Matched x c) session_id order c.next_exchange_id r.0 r.1.fills r.1.rested c'
            (λ k. k)))
        (emit-Serves (Matched x c) _ c' most_events fine (omega arith) (λ k. k))

  submit_unseen-Serves :
      (session_id : ℕ) (order : NewOrder) (i : ℕ) (c : Core x) (o : Option x.seen.Map)
      → Fine c.books
      → order.qty < u32
      → Serves (Matched x c) c most_events (submit_unseen x session_id order i c o)
  unfolding submit_unseen
  submit_unseen-Serves session_id order i c none f h =
      emit-Serves (Matched x c) _ c most_events f (omega arith) (λ k. k)
  submit_unseen-Serves session_id order i c (some m) f h =
      submit_new-Serves session_id order i (record c { seen_orders = m }) f h

  submit_at-Serves :
      (session_id : ℕ) (order : NewOrder) (c : Core x) (o : Option ℕ)
      → Fine c.books
      → order.qty < u32
      → Serves (Matched x c) c most_events (submit_at x session_id order c o)
  unfolding submit_at
  submit_at-Serves session_id order c none f h =
      emit-Serves (Matched x c) _ c most_events f (omega arith) (λ k. k)
  submit_at-Serves session_id order c (some i) f h =
      Serves-if (Matched x c) c most_events
        (is_some (x.seen.find c.seen_orders (make_composite_key session_id order.client_order_id)))
        _ _ (emit-Serves (Matched x c) _ c most_events f (omega arith) (λ k. k))
        (submit_unseen-Serves session_id order i c _ f h)

  -- If every book is consistent and not crossed, `submit_order` for a quantity below 2 ^ 32 adds at
  -- most 1 + 4 * MaxFills events and leaves every book consistent and not crossed, or it aborts,
  -- and then the forward and the reverse id map are not paired, or the events before and 1 + 4 *
  -- MaxFills more are above the buffer's 512.
  pub submit_order-Serves :
      (session_id : ℕ) (order : NewOrder) (c : Core x)
      → Fine c.books
      → order.qty < u32
      → Serves (Matched x c) c most_events (submit_order x session_id order c)
  unfolding submit_order
  submit_order-Serves session_id order c f h =
      Serves-if (Matched x c) c most_events (ltb max_client_order_id order.client_order_id) _ _
        (emit-Serves (Matched x c) _ c most_events f (omega arith) (λ k. k))
        (submit_at-Serves session_id order c (symbol_index x c order.symbol_id) f h)
