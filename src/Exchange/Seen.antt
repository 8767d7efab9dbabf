-- ===== src/Exchange/Seen.antt =====
-- The ids of clients' orders that apps/simulated_exchange/exchange_core.hpp has seen: its calls keep
-- the ids of a session that is not disconnected.
use low_latency_tick_to_trad.Prelude.{
  ℕ, ◌+◌, ◌*◌, ◌%◌, ◌≡◌, refl, sym, subst, ◌∙◌, ap, Bool, true, false, not, ◌||◌, Option, none,
  some, if◌then◌else◌, length,
}
use low_latency_tick_to_trad.Exchange.Serving.{Outcome, Outcome-bind, Outcome-if}
use low_latency_tick_to_trad.Exchange.Requests.{
  submit_order, submit_unseen, submit_at, submit_new, side_of_code,
}
use low_latency_tick_to_trad.Exchange.{
  Config, Core, ExchangeEvent, is_some, symbol_index, make_composite_key, emit, IdEntry, set_book,
  u64,
}
use low_latency_tick_to_trad.Exchange.Changes.{modify_at, cancel_at, cancel_known, modify_known}
use low_latency_tick_to_trad.Protocol.{ModifyOrder, CancelOrder, NewOrder}
use low_latency_tick_to_trad.Exchange.Frames.{Ends, Emits-Ends, emit-Emits, known-Emits}
use low_latency_tick_to_trad.Exchange.Upkeep.{replace-Ends}
use low_latency_tick_to_trad.Exchange.Serves.{accept-Ends}
use low_latency_tick_to_trad.Exchange.Changes
use low_latency_tick_to_trad.Engine
use low_latency_tick_to_trad.Book

module _ (x : Config) where
  pub key_found :
      (k : ℕ) (m n : x.seen.Map)
      → x.seen.IsValid m
      → x.seen.insert m k true ≡ some n
      → is_some (x.seen.find n k) ≡ true
  key_found k m n v e =
      let y : x.seen.same k k ≡ true = (x.seen.same_iff k k).1 refl in
      subst (λ o. is_some o ≡ true)
        (sym (
          x.seen.find-insert m k true k v e ∙ ap (λ b. if b then some true else x.seen.find m k) y))
        refl

  module _ (session_id key : ℕ) where
    -- The session is connected and the key is among those seen.
    pub record Used (seen : x.seen.Map) (active : ℕ → Bool) : Type 0 where
      pub valid : x.seen.IsValid seen
      pub found : is_some (x.seen.find seen key) ≡ true
      pub connected : active session_id ≡ true

    abbrev pub UsedIn : Core x → Type 0
    UsedIn c = Used c.seen_orders c.active_sessions

    Ends-Used :
        (q : Type 0) (c : Core x) (n : ℕ) (o : Option (Core x))
        → UsedIn c
        → Ends x q c n o
        → Outcome ⊥ UsedIn o
    Ends-Used q c n none u e = λ k. k
    Ends-Used q c n (some d) u e =
        subst (λ m. Used m d.active_sessions) (sym e.seen)
          (subst (λ a. Used c.seen_orders a) (sym e.sessions) u)

    emit-Used : (e : ExchangeEvent) (c : Core x) → UsedIn c → Outcome ⊥ UsedIn (emit x e c)
    emit-Used e c u = Ends-Used ⊥ c 1 _ u (Emits-Ends x c ⊥ 1 _ (λ k. absurd k) (emit-Emits x e c))

    pub submit_new-Used :
        (session : ℕ) (order : NewOrder) (i : ℕ) (c : Core x)
        → UsedIn c
        → Outcome ⊥ UsedIn (submit_new x session order i c)
    unfolding submit_new
    submit_new-Used session order i c u =
        let r =
          Engine.submit_order x.orders x.levels x.max_fills (c.books i) c.next_exchange_id
            (side_of_code order.side) order.price order.qty in
        let c' : Core x =
          set_book x (record c { next_exchange_id = (c.next_exchange_id + 1) % u64 }) i r.0 in
        Outcome-if ⊥ (r.1.rested || not (Book.is_nil r.1.fills)) UsedIn _ _
          (Ends-Used ⊥ c' (1 + (4 * length r.1.fills + 0)) _ u (
            accept-Ends x (λ j. 0) (λ j. 0) ⊥ session order c.next_exchange_id r.0 r.1.fills
              r.1.rested c' (λ k. absurd k)))
          (emit-Used _ c' u)

    insert-Used :
        (seen n : x.seen.Map) (active : ℕ → Bool) (k : ℕ)
        → Used seen active
        → x.seen.insert seen k true ≡ some n
        → Used n active
    insert-Used seen n active k u e = record {
      valid = x.seen.insert-IsValid seen k true u.valid e;
      found =
          subst (λ o. is_some o ≡ true) (sym (x.seen.find-insert seen k true key u.valid e))
            (found_either (x.seen.same key k) (x.seen.find seen key) u.found);
      connected = u.connected;
    }
      where
        found_either :
            (b : Bool) (o : Option Bool)
            → is_some o ≡ true
            → is_some (if b then some true else o) ≡ true
        found_either true o h = refl
        found_either false o h = h

    submit_unseen-Used :
        (session : ℕ) (order : NewOrder) (i k : ℕ) (c : Core x) (o : Option x.seen.Map)
        → x.seen.insert c.seen_orders k true ≡ o
        → UsedIn c
        → Outcome ⊥ UsedIn (submit_unseen x session order i c o)
    unfolding submit_unseen
    submit_unseen-Used session order i k c none e u = emit-Used _ c u
    submit_unseen-Used session order i k c (some m) e u =
        submit_new-Used session order i (record c { seen_orders = m })
          (insert-Used c.seen_orders m c.active_sessions k u e)

    submit_at-Used :
        (session : ℕ) (order : NewOrder) (c : Core x) (o : Option ℕ)
        → UsedIn c
        → Outcome ⊥ UsedIn (submit_at x session order c o)
    unfolding submit_at
    submit_at-Used session order c none u = emit-Used _ c u
    submit_at-Used session order c (some i) u = Outcome-if ⊥ _ UsedIn _ _ (emit-Used _ c u) (
        submit_unseen-Used session order i (make_composite_key session order.client_order_id) c _
          refl u)

    pub submit_order-Used :
        (session : ℕ) (order : NewOrder) (c : Core x)
        → UsedIn c
        → Outcome ⊥ UsedIn (submit_order x session order c)
    unfolding submit_order
    submit_order-Used session order c u =
        Outcome-if ⊥ _ UsedIn _ _ (emit-Used _ c u)
          (submit_at-Used session order c (symbol_index x c order.symbol_id) u)

    cancel_known-Used :
        (session : ℕ) (cancel : CancelOrder) (i : ℕ) (c : Core x) (o : Option IdEntry)
        → x.ids.find c.id_map (make_composite_key session cancel.client_order_id) ≡ o
        → UsedIn c
        → Outcome ⊥ UsedIn (cancel_known x session cancel i c o)
    unfolding cancel_known
    cancel_known-Used session cancel i c none h u = emit-Used _ c u
    cancel_known-Used session cancel i c (some entry) h u =
        let c' =
          set_book x c i (Book.cancel_order x.orders x.levels (c.books i) entry.exchange_id).0 in
        Outcome-if ⊥ _ UsedIn _ _
          (Outcome-bind ⊥ UsedIn UsedIn _ _
            (Ends-Used ⊥ c' 0 _ u
              (Emits-Ends x c' ⊥ 0 _ (λ k. absurd k) (known-Emits x _ entry c' h)))
            (λ b v. emit-Used _ b v))
          (emit-Used _ c' u)

    cancel_at-Used :
        (session : ℕ) (cancel : CancelOrder) (c : Core x) (o : Option ℕ)
        → UsedIn c
        → Outcome ⊥ UsedIn (cancel_at x session cancel c o)
    unfolding cancel_at
    cancel_at-Used session cancel c none u = emit-Used _ c u
    cancel_at-Used session cancel c (some i) u = cancel_known-Used session cancel i c _ refl u

    pub cancel_order-Used :
        (session : ℕ) (cancel : CancelOrder) (c : Core x)
        → UsedIn c
        → Outcome ⊥ UsedIn (Changes.cancel_order x session cancel c)
    unfolding Changes.cancel_order
    cancel_order-Used session cancel c u =
        Outcome-if ⊥ _ UsedIn _ _ (emit-Used _ c u)
          (cancel_at-Used session cancel c (symbol_index x c cancel.symbol_id) u)

    modify_known-Used :
        (session : ℕ) (modify : ModifyOrder) (i : ℕ) (c : Core x) (o : Option IdEntry)
        → x.ids.find c.id_map (make_composite_key session modify.client_order_id) ≡ o
        → UsedIn c
        → Outcome ⊥ UsedIn (modify_known x session modify i c o)
    unfolding modify_known
    modify_known-Used session modify i c none h u = emit-Used _ c u
    modify_known-Used session modify i c (some e) h u =
        let r =
          Engine.modify_order x.orders x.levels x.max_fills (c.books i) e.exchange_id e.side
            modify.new_price modify.new_qty c.next_exchange_id in
        let c' : Core x =
          set_book x (record c { next_exchange_id = (c.next_exchange_id + 1) % u64 }) i r.0 in
        Outcome-if ⊥ r.1.success UsedIn _ _
          (Ends-Used ⊥ c' (0 + (0 + (1 + 4 * length r.1.fills))) _ u (
            replace-Ends x (λ j. 0) (λ j. 0) session modify e c.next_exchange_id r.0 r.1.fills
              r.1.rested c' h))
          (emit-Used _ c' u)

    modify_at-Used :
        (session : ℕ) (modify : ModifyOrder) (c : Core x) (o : Option ℕ)
        → UsedIn c
        → Outcome ⊥ UsedIn (modify_at x session modify c o)
    unfolding modify_at
    modify_at-Used session modify c none u = emit-Used _ c u
    modify_at-Used session modify c (some i) u = modify_known-Used session modify i c _ refl u

    pub modify_order-Used :
        (session : ℕ) (modify : ModifyOrder) (c : Core x)
        → UsedIn c
        → Outcome ⊥ UsedIn (Changes.modify_order x session modify c)
    unfolding Changes.modify_order
    modify_order-Used session modify c u =
        Outcome-if ⊥ _ UsedIn _ _ (emit-Used _ c u)
          (modify_at-Used session modify c (symbol_index x c modify.symbol_id) u)
