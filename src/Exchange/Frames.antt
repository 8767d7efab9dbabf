-- ===== src/Exchange/Frames.antt =====
-- What the events of fills leave alone, and how many they are (apps/simulated_exchange/exchange_core.hpp).
use low_latency_tick_to_trad.Prelude.{
  ℕ, ◌+◌, ◌*◌, ◌≤◌, ◌<◌, ◌≡◌, refl, sym, subst, ◌∙◌, ap, Option, none, some, List, [], ◌∷◌, ◌++◌,
  arith, leb, if◌then◌else◌, length, length-append, append-nil, append_assoc, Bool-cases, inl, inr,
  ◌&&◌,
}
use low_latency_tick_to_trad.Types.{OrderId, Qty, Side, bid, ask}
use low_latency_tick_to_trad.Prelude.Word.{sub32}
use low_latency_tick_to_trad.Book.{PriceLevel, has_order}
use low_latency_tick_to_trad.Engine.{Fill}
use low_latency_tick_to_trad.Exchange.{
  Core, Config, Engine, ExchangeEvent, emit, max_events, ◌>>=◌, ReverseIdEntry, erase_ids, IdEntry,
  is_some, make_composite_key,
}
use low_latency_tick_to_trad.Exchange.Fills.{
  emit_maker_fill, emit_best, emit_bbo, emit_fill, emit_fills, Taker, taker_fill, tell_maker,
}
use mathlib.Core.Option.{some-injective}
use low_latency_tick_to_trad.Exchange.Pairs.{Paired, erased_known, erased_maker}

module _ (x : Config) where
  -- At most `n` events are appended; the books, the ids given out and the sessions stay.
  pub record Framed (c : Core x) (n : ℕ) (c' : Core x) : Type 0 where
    pub books : c'.books ≡ c.books
    pub seen : c'.seen_orders ≡ c.seen_orders
    pub next : c'.next_exchange_id ≡ c.next_exchange_id
    pub sessions : c'.active_sessions ≡ c.active_sessions
    pub new : List ExchangeEvent
    pub appended : c'.events ≡ c.events ++ new
    pub at_most : length new ≤ n

  -- The id maps of the core are paired.
  abbrev pub Matched : Core x → Type 0
  Matched c = Paired x c.id_map c.reverse_id_map

  -- Framed and as paired as before; or an abort, which on paired maps is because the events do not
  -- fit the buffer.
  abbrev pub Emits : Core x → ℕ → Option (Core x) → Type 0
  Emits c n none = Matched c → max_events < length c.events + n
  Emits c n (some c') = Framed c n c' × (Matched c → Matched c')

  -- Framed, but perhaps not paired any more; the reason for an abort is known under `q`.
  abbrev pub Ends : Type 0 → Core x → ℕ → Option (Core x) → Type 0
  Ends q c n none = q → max_events < length c.events + n
  Ends q c n (some c') = Framed c n c'

  pub none-Framed : (c : Core x) (n : ℕ) → Framed c n c
  none-Framed c n = record {
    books = refl;
    seen = refl;
    next = refl;
    sessions = refl;
    new = [];
    appended = sym (append-nil c.events);
    at_most = omega arith;
  }

  pub then-Framed : {a b c : Core x} {n m : ℕ} → Framed a n b → Framed b m c → Framed a (n + m) c
  then-Framed {a} {b} {c} {n} {m} f g = record {
    books = g.books ∙ f.books;
    seen = g.seen ∙ f.seen;
    next = g.next ∙ f.next;
    sessions = g.sessions ∙ f.sessions;
    new = f.new ++ g.new;
    appended = g.appended ∙ ap (λ es. es ++ g.new) f.appended ∙ append_assoc a.events f.new g.new;
    at_most = (let l = length-append f.new g.new in omega (arith, l, f.at_most, g.at_most));
  }

  longer :
      {a b : Core x} (n m : ℕ)
      → Framed a n b
      → max_events < length b.events + m
      → max_events < length a.events + (n + m)
  longer {a} {b} n m f l =
      let s = length-append a.events f.new in
      let r : length b.events ≡ length a.events + length f.new = ap length f.appended ∙ s in
      omega (arith, l, r, f.at_most)

  then-Emits :
      {a b : Core x} (n m : ℕ) (o : Option (Core x))
      → Framed a n b
      → (Matched a → Matched b)
      → Emits b m o
      → Emits a (n + m) o
  then-Emits n m none f p l = λ q. longer n m f (l (p q))
  then-Emits n m (some c) f p g = (then-Framed f g.0, λ q. g.1 (p q))

  pub Emits-bind :
      {a : Core x} (n m : ℕ) (o : Option (Core x)) (f : Core x → Option (Core x))
      → Emits a n o
      → ((b : Core x) → Framed a n b → Emits b m (f b))
      → Emits a (n + m) (o >>= f)
  Emits-bind n m none f l g = λ q. (let h = l q in omega (arith, h))
  Emits-bind n m (some b) f l g = then-Emits n m (f b) l.0 l.1 (g b l.0)

  pub then-Ends :
      {a b : Core x} (q : Type 0) (n m : ℕ) (o : Option (Core x))
      → Framed a n b
      → Ends q b m o
      → Ends q a (n + m) o
  then-Ends q n m none f l = λ k. longer n m f (l k)
  then-Ends q n m (some c) f g = then-Framed f g

  pub Emits-Ends :
      (a : Core x) (q : Type 0) (n : ℕ) (o : Option (Core x))
      → (q → Matched a)
      → Emits a n o
      → Ends q a n o
  Emits-Ends a q n none p l = λ k. l (p k)
  Emits-Ends a q n (some c) p g = g.0

  pub Ends-bind :
      {a : Core x} (q : Type 0) (n m : ℕ) (o : Option (Core x)) (f : Core x → Option (Core x))
      → (q → Matched a)
      → Emits a n o
      → ((b : Core x) → Framed a n b → (q → Matched b) → Ends q b m (f b))
      → Ends q a (n + m) (o >>= f)
  Ends-bind q n m none f p l g = λ k. (let h = l (p k) in omega (arith, h))
  Ends-bind q n m (some b) f p l g = then-Ends q n m (f b) l.0 (g b l.0 (λ k. l.1 (p k)))

  pub emit-Emits : (e : ExchangeEvent) (c : Core x) → Emits c 1 (emit x e c)
  unfolding emit
  emit-Emits e c = elim (Bool-cases (leb max_events (length c.events))) [
    | inl y ↦ rw y (λ q. ground (arith, y))
    | inr y ↦ rw y (
      record {
        books = refl;
        seen = refl;
        next = refl;
        sessions = refl;
        new = e ∷ [];
        appended = refl;
        at_most = omega arith;
      },
      λ q. q,
    )
  ]

  nothing-Emits : (c : Core x) (n : ℕ) → Emits c n (some c)
  nothing-Emits c n = (none-Framed c n, λ q. q)

  erased-Framed :
      (c : Core x) (ids : x.ids.Map) (reverse : x.reverse_ids.Map)
      → Framed c 0 (record c { id_map = ids; reverse_id_map = reverse })
  erased-Framed c ids reverse = record {
    books = refl;
    seen = refl;
    next = refl;
    sessions = refl;
    new = [];
    appended = sym (append-nil c.events);
    at_most = omega arith;
  }

  -- The erasures emit nothing. They are as asserted, and leave paired maps paired, if `p` says so.
  erase_ids-Emits :
      (key : ℕ) (i : OrderId) (c : Core x)
      → (Matched c
          → (erase_ids x key i c
              ≡ some (record c {
                id_map = x.ids.erase c.id_map key;
                reverse_id_map = x.reverse_ids.erase c.reverse_id_map i;
              }))
            × Paired x (x.ids.erase c.id_map key) (x.reverse_ids.erase c.reverse_id_map i))
      → Emits c 0 (erase_ids x key i c)
  unfolding erase_ids
  erase_ids-Emits key i c p =
      elim (Bool-cases
        (is_some (x.ids.find c.id_map key) && is_some (x.reverse_ids.find c.reverse_id_map i))) [
          | inl y ↦ rw y (erased-Framed c _ _, λ q. (p q).1)
          | inr y ↦ rw y (λ q. absurd (let e = (p q).0 in cc (rw y at e)))
        ]

  pub known-Emits :
      (key : ℕ) (e : IdEntry) (c : Core x)
      → x.ids.find c.id_map key ≡ some e
      → Emits c 0 (erase_ids x key e.exchange_id c)
  known-Emits key e c f = erase_ids-Emits key e.exchange_id c (λ q. erased_known x c key e q f)

  emit_keeps :
      (e : ExchangeEvent) (c b : Core x) → emit x e c ≡ some b → b.reverse_id_map ≡ c.reverse_id_map
  unfolding emit
  emit_keeps e c b h = elim (Bool-cases (leb max_events (length c.events))) [
    | inl y ↦ absurd (cc (rw y at h))
    | inr y ↦ sym (ap (λ (z : Core x). z.reverse_id_map) (some-injective _ b (rw y at h)))
  ]

  -- With an event emitted, whatever is done next emits as it does alone.
  emitted-Emits :
      (e : ExchangeEvent) (c : Core x) (m : ℕ) (f : Core x → Option (Core x)) (o : Option (Core x))
      → emit x e c ≡ o
      → ((b : Core x) → emit x e c ≡ some b → Emits b m (f b))
      → Emits c 1 o
      → Emits c (1 + m) (o >>= f)
  emitted-Emits e c m f none h g l = λ q. (let z = l q in omega (arith, z))
  emitted-Emits e c m f (some b) h g l = then-Emits 1 m (f b) l.0 l.1 (g b h)

  tell_maker-Emits :
      (book : Engine x) (f : Fill) (s : Side) (c : Core x) (o : Option ReverseIdEntry)
      → x.reverse_ids.find c.reverse_id_map f.maker_id ≡ o
      → Emits c 1 (tell_maker x book f s c o)
  unfolding tell_maker
  tell_maker-Emits book f s c none h = nothing-Emits c 1
  tell_maker-Emits book f s c (some maker) h =
      emitted-Emits _ c 0 _ _ refl
        (λ b k.
          maker_gone book f maker b
            (ap (λ m. x.reverse_ids.find m f.maker_id) (emit_keeps _ c b k) ∙ h))
        (emit-Emits _ c)
    where
      maker_gone :
          (book : Engine x) (f : Fill) (maker : ReverseIdEntry) (b : Core x)
          → x.reverse_ids.find b.reverse_id_map f.maker_id ≡ some maker
          → Emits b 0 (
              if has_order x.orders x.levels book f.maker_id
              then some b
              else erase_ids x
                  (make_composite_key maker.session_id maker.client_order_id)
                  f.maker_id
                  b)
      maker_gone book f maker b e =
          elim (Bool-cases (has_order x.orders x.levels book f.maker_id)) [
            | inl y ↦ rw y (nothing-Emits b 0)
            | inr y ↦
                rw y (erase_ids-Emits _ f.maker_id b (λ q. erased_maker x b f.maker_id maker q e))
          ]

  pub emit_maker_fill-Emits :
      (book : Engine x) (f : Fill) (s : Side) (c : Core x)
      → Emits c 1 (emit_maker_fill x book f s c)
  unfolding emit_maker_fill
  emit_maker_fill-Emits book f s c =
      tell_maker-Emits book f s c (x.reverse_ids.find c.reverse_id_map f.maker_id) refl

  emit_best-Emits :
      (i : ℕ) (s : Side) (ls : List PriceLevel) (c : Core x) → Emits c 1 (emit_best x i s ls c)
  unfolding emit_best
  emit_best-Emits i s [] c = nothing-Emits c 1
  emit_best-Emits i s (l ∷ ls) c = emit-Emits _ c

  emit_bbo-Emits : (book : Engine x) (i : ℕ) (c : Core x) → Emits c 2 (emit_bbo x book i c)
  unfolding emit_bbo
  emit_bbo-Emits book i c =
      Emits-bind 1 1 (emit_best x i bid book.bids c) _ (emit_best-Emits i bid book.bids c)
        (λ b g. emit_best-Emits i ask book.asks b)

  emit_fill-Emits :
      (book : Engine x) (t : Taker x) (f : Fill) (q : Qty) (c : Core x)
      → Emits c 4 (emit_fill x book t f q c)
  unfolding emit_fill
  emit_fill-Emits book t f q c =
      Emits-bind 1 3 (emit x (taker_fill x t f q) c) _ (emit-Emits (taker_fill x t f q) c) (λ b g.
        Emits-bind 1 2 (emit_maker_fill x book f t.side b) _ (emit_maker_fill-Emits book f t.side b)
          (λ d h. emit_bbo-Emits book t.symbol_id d))

  pub emit_fills-Emits :
      (book : Engine x) (t : Taker x) (q : Qty) (fs : List Fill) (c : Core x)
      → Emits c (4 * length fs) (emit_fills x book t q fs c)
  unfolding emit_fills
  emit_fills-Emits book t q [] c = nothing-Emits c 0
  emit_fills-Emits book t q (f ∷ fs) c =
      subst (λ n. Emits c n (emit_fills x book t q (f ∷ fs) c)) (let l = length fs in omega arith)
        (Emits-bind 4 (4 * length fs) (emit_fill x book t f (sub32 q f.qty) c) _
          (emit_fill-Emits book t f (sub32 q f.qty) c)
          (λ b g. emit_fills-Emits book t (sub32 q f.qty) fs b))
