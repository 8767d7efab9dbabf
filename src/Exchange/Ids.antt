-- ===== src/Exchange/Ids.antt =====
-- The ids of clients' orders (apps/simulated_exchange/exchange_core.hpp): a cancelled order is gone.
use low_latency_tick_to_trad.Prelude.{
  ℕ, ◌≤◌, ◌≡◌, refl, sym, subst, ◌∙◌, ap, Bool, true, false, ◌&&◌, Option, none, some, [], ◌∷◌,
  ◌++◌, arith, ltb, leb, ◌==◌, ==_iff, if◌then◌else◌, length, Bool-cases, inl, inr,
}
use low_latency_tick_to_trad.Protocol.{CancelOrder}
use low_latency_tick_to_trad.Exchange.{
  Core, Config, ExchangeEvent, erase_ids, is_some, ◌>>=◌, emit, max_events, set_book, IdEntry,
  max_client_order_id, symbol_index, make_composite_key, cancel_rejected, order_not_found,
  cancel_ack,
}
use low_latency_tick_to_trad.Exchange.Requests.{reject, answer}
use low_latency_tick_to_trad.Exchange.Changes.{cancel_known, cancel_at, cancel_order}
use mathlib.Core.Option.{some-injective}
use low_latency_tick_to_trad.Book.Inv.{IsValid}
use low_latency_tick_to_trad.Book.Cancel.{cancel_order-Cancels}
use low_latency_tick_to_trad.Book

module _ (x : Config) where
  cancel_first :
      (session_id : ℕ) (cancel : CancelOrder) (c : Core x) (i : ℕ) (entry : IdEntry)
      → cancel.client_order_id ≤ max_client_order_id
      → symbol_index x c cancel.symbol_id ≡ some i
      → x.ids.find c.id_map (make_composite_key session_id cancel.client_order_id) ≡ some entry
      → (Book.cancel_order x.orders x.levels (c.books i) entry.exchange_id).1 ≡ true
      → cancel_order x session_id cancel c
        ≡ erase_ids x
            (make_composite_key session_id cancel.client_order_id)
            entry.exchange_id
            (set_book x c i (Book.cancel_order x.orders x.levels (c.books i) entry.exchange_id).0)
          >>= emit x (answer cancel_ack session_id cancel.client_order_id cancel.send_ts)
  unfolding cancel_order cancel_at cancel_known
  cancel_first session_id cancel c i entry k s t r =
      let l : ltb max_client_order_id cancel.client_order_id ≡ false = ground (arith, k) in
      rw (l, s, t, r) refl

  -- The core without the two entries.
  abbrev erased_core : ℕ → ℕ → Core x → Core x
  erased_core k i c = record c {
    id_map = x.ids.erase c.id_map k;
    reverse_id_map = x.reverse_ids.erase c.reverse_id_map i;
  }

  -- Erasures that are as asserted, and what follows them.
  erased_then :
      (k i : ℕ) (c : Core x) (f : Core x → Option (Core x)) {d : Core x}
      → erase_ids x k i c >>= f ≡ some d
      → f (erased_core k i c) ≡ some d
  unfolding erase_ids
  erased_then k i c f {d} h =
      then_some (is_some (x.ids.find c.id_map k) && is_some (x.reverse_ids.find c.reverse_id_map i))
        (erased_core k i c) h
    where
      then_some :
          (b : Bool) (e : Core x) → (if b then some e else none) >>= f ≡ some d → f e ≡ some d
      then_some true e h = h
      then_some false e h = absurd (cc h)

  cancel_unknown :
      (session_id : ℕ) (cancel : CancelOrder) (c : Core x) (i : ℕ)
      → cancel.client_order_id ≤ max_client_order_id
      → symbol_index x c cancel.symbol_id ≡ some i
      → x.ids.find c.id_map (make_composite_key session_id cancel.client_order_id) ≡ none
      → cancel_order x session_id cancel c
        ≡ emit x
            (reject cancel_rejected session_id cancel.client_order_id 0 cancel.send_ts
              order_not_found)
            c
  unfolding cancel_order cancel_at cancel_known
  cancel_unknown session_id cancel c i k s t =
      let l : ltb max_client_order_id cancel.client_order_id ≡ false = ground (arith, k) in
      rw (l, s, t) refl

  emit_lem :
      (e : ExchangeEvent) (c : Core x) {d : Core x}
      → emit x e c ≡ some d
      → d ≡ record c { events = c.events ++ e ∷ [] }
  unfolding emit
  emit_lem e c {d} h = elim (Bool-cases (leb max_events (length c.events))) [
    | inl y ↦ absurd (cc (rw y at h))
    | inr y ↦ sym (some-injective _ d (rw y at h))
  ]

  key_gone : (m : x.ids.Map) (k : ℕ) → x.ids.IsValid m → x.ids.find (x.ids.erase m k) k ≡ none
  key_gone m k v =
      let y : x.ids.same k k ≡ true = (x.ids.same_iff k k).1 refl in
      x.ids.find-erase m k k v ∙ ap (λ b. if b then none else x.ids.find m k) y

  -- If the forward map knows a session's id and the symbol's consistent book has the order, then
  -- after a cancel for it that returns, the book does not have the order any more, and another
  -- cancel for that id and a registered symbol gets one event, the rejection as not found, and
  -- changes nothing else.
  pub cancelled_is_gone :
      (max_orders max_levels session_id : ℕ) (cancel again : CancelOrder) (c : Core x) (i j : ℕ)
      (entry : IdEntry) {d : Core x}
      → IsValid x.orders x.levels max_orders max_levels (c.books i)
      → x.ids.IsValid c.id_map
      → cancel.client_order_id ≤ max_client_order_id
      → symbol_index x c cancel.symbol_id ≡ some i
      → x.ids.find c.id_map (make_composite_key session_id cancel.client_order_id) ≡ some entry
      → Book.has_order x.orders x.levels (c.books i) entry.exchange_id ≡ true
      → cancel_order x session_id cancel c ≡ some d
      → again.client_order_id ≡ cancel.client_order_id
      → symbol_index x d again.symbol_id ≡ some j
      → (Book.has_order x.orders x.levels (d.books i) entry.exchange_id ≡ false)
        × (cancel_order x session_id again d
            ≡ emit x
                (reject cancel_rejected session_id again.client_order_id 0 again.send_ts
                  order_not_found)
                d)
  cancelled_is_gone n l session_id cancel again c i j entry {d} w v k s t h e a b =
      let key = make_composite_key session_id cancel.client_order_id in
      let done = cancel_order-Cancels x.orders x.levels n l (c.books i) entry.exchange_id w in
      let r = Book.cancel_order x.orders x.levels (c.books i) entry.exchange_id in
      let c' = erased_core key entry.exchange_id (set_book x c i r.0) in
      let same : d ≡ record c' {
        events =
            c'.events ++ answer cancel_ack session_id cancel.client_order_id cancel.send_ts ∷ [];
      } =
        emit_lem _ c' (
          erased_then key entry.exchange_id (set_book x c i r.0) _
            (sym (cancel_first session_id cancel c i entry k s t (done.answer ∙ h)) ∙ e)) in
      let here : (i == i) ≡ true = (==_iff i i).1 refl in
      (
        subst (λ z. Book.has_order x.orders x.levels (z.books i) entry.exchange_id ≡ false)
            (sym same) (rw here done.gone),
        cancel_unknown session_id again d j (subst (λ z. z ≤ max_client_order_id) (sym a) k) b (
            subst (λ z. x.ids.find d.id_map (make_composite_key session_id z) ≡ none) (sym a)
              (subst (λ z. x.ids.find z.id_map key ≡ none) (sym same) (key_gone c.id_map key v))),
      )
