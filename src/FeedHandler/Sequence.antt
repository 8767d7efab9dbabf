-- ===== src/FeedHandler/Sequence.antt =====
-- The sequence numbers of apps/tick_to_trade/feed_handler.hpp over many datagrams.
use low_latency_tick_to_trad.Prelude.{
  ℕ, ◌+◌, ◌%◌, ◌≤◌, ◌<◌, ◌≡◌, refl, sym, subst, true, Option, none, some, List, [], ◌∷◌, ◌++◌,
  arith, ltb, length, length-append, Bool-cases, inl, inr,
}
use low_latency_tick_to_trad.Wire.{Bytes}
use low_latency_tick_to_trad.Protocol.{MarketDataUpdate}
use low_latency_tick_to_trad.ProtocolCodec.{deserialize_market_data}
use low_latency_tick_to_trad.FeedHandler.{
  FeedHandler, seq_limit, on_update, on_udp_data, on_datagrams, handed_on, on_decoded,
}

-- The updates have rising sequence numbers, from the first expected number to the one expected at last.
abbrev pub Rises : ℕ → List MarketDataUpdate → ℕ → Type 0
Rises e [] last = e ≡ last
Rises e (m ∷ ms) last = (e ≤ m.seq_num) × Rises ((m.seq_num + 1) % seq_limit) ms last

-- Updates and numbers in gaps are together the numbers since the first.
pub record Accounts (base : ℕ) (f : FeedHandler) : Type 0 where
  pub initialized : f.initialized ≡ true
  pub numbers : f.expected_seq ≡ (base + f.total_updates + f.gap_count) % seq_limit
  pub total_fits : f.total_updates < seq_limit

-- What the handling of one datagram, or of many, comes to.
abbrev pub Handled : ℕ → FeedHandler → FeedHandler → List MarketDataUpdate → Type 0
Handled base f f' ms =
    Accounts base f'
    × Rises f.expected_seq ms f'.expected_seq
    × (f'.total_updates ≡ (f.total_updates + length ms) % seq_limit)

on_update-Handled :
    (base : ℕ) (f : FeedHandler) (m : MarketDataUpdate)
    → Accounts base f
    → Handled base f (on_update f m).0 (handed_on (on_update f m).1)
unfolding on_update
on_update-Handled base f m a = elim (Bool-cases (ltb f.expected_seq m.seq_num)) [
  | inl e ↦
      let l : f.expected_seq ≤ m.seq_num = ground (arith, e) in
      rw (a.initialized, e)
        (
          record {
            initialized = refl;
            numbers = omega (arith, l, a.numbers);
            total_fits = omega arith;
          },
          (l, refl),
          refl,
        )
  | inr e ↦ elim (Bool-cases (ltb m.seq_num f.expected_seq)) [
    | inl g ↦
        rw (a.initialized, e, g)
          (
            record { initialized = refl; numbers = a.numbers; total_fits = a.total_fits },
            refl,
            (let t = a.total_fits in omega (arith, t)),
          )
    | inr g ↦
        let l : f.expected_seq ≡ m.seq_num = ground (arith, e, g) in
        rw (a.initialized, e, g)
          (
            record {
              initialized = refl;
              numbers = omega (arith, l, a.numbers);
              total_fits = omega arith;
            },
            (omega (arith, l), refl),
            refl,
          )
  ]
]

on_decoded-Handled :
    (base : ℕ) (f : FeedHandler) (o : Option MarketDataUpdate)
    → Accounts base f
    → Handled base f (on_decoded f o).0 (handed_on (on_decoded f o).1)
unfolding on_decoded
on_decoded-Handled base f none a = (
  record { initialized = a.initialized; numbers = a.numbers; total_fits = a.total_fits },
  refl,
  (let t = a.total_fits in omega (arith, t)),
)
on_decoded-Handled base f (some m) a = on_update-Handled base f m a

Rises-append :
    (e mid last : ℕ) (ms ns : List MarketDataUpdate)
    → Rises e ms mid
    → Rises mid ns last
    → Rises e (ms ++ ns) last
Rises-append e mid last [] ns r q = subst (λ z. Rises z ns last) (sym r) q
Rises-append e mid last (m ∷ ms) ns (l, r) q =
    (l, Rises-append ((m.seq_num + 1) % seq_limit) mid last ms ns r q)

-- From a feed handler that has its first packet and whose expected number is, modulo 2 ^ 64, a base
-- plus the updates and the gaps counted, any datagrams lead to one of which the same holds for the
-- same base; the updates handed on have each at least the number expected then, the next expected
-- being one above it (modulo 2 ^ 64), and the updates counted are as many more as are handed on
-- (modulo 2 ^ 64).
pub on_datagrams-Handled :
    (base : ℕ) (f : FeedHandler) (bufs : List Bytes)
    → Accounts base f
    → Handled base f (on_datagrams f bufs).0 (on_datagrams f bufs).1
unfolding on_datagrams
on_datagrams-Handled base f [] a = (a, refl, (let t = a.total_fits in omega (arith, t)))
on_datagrams-Handled base f (buf ∷ bufs) a =
    let r = on_udp_data f buf in
    let rest = on_datagrams r.0 bufs in
    let (b, p, t) = on_decoded-Handled base f (deserialize_market_data buf) a in
    let (c, q, u) = on_datagrams-Handled base r.0 bufs b in
    let n = length-append (handed_on r.1) rest.1 in
    (
      c,
      Rises-append f.expected_seq r.0.expected_seq rest.0.expected_seq (handed_on r.1) rest.1 p q,
      omega (arith, t, u, n),
    )
