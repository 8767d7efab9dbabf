-- ===== src/Exchange/Keys.antt =====
-- The composite keys of apps/simulated_exchange/exchange_core.hpp.
use low_latency_tick_to_trad.Prelude.{ℕ, ◌+◌, ◌*◌, ◌≤◌, ◌<◌, ◌≡◌, refl, sym, ◌∙◌, arith, ◌^◌}
use low_latency_tick_to_trad.Exchange.{
  make_composite_key, extract_session_id, max_client_order_id, u64,
}
use native.Mathlib.Nat.{mod-eq_of_lt}

key_form :
    (s c : ℕ) → s < 2 ^ 16 → c ≤ max_client_order_id → make_composite_key s c ≡ s * 2 ^ 48 + c
unfolding make_composite_key
key_form s c h k =
    let a : s * 2 ^ 48 < u64 = omega (arith, h) in
    let b : c < 2 ^ 48 = omega (arith, k) in rw (mod-eq_of_lt a, mod-eq_of_lt b) refl

-- For a session id of 16 bits and a client order id that the range check lets pass, the session id
-- is read back from the composite key, and no other pair of such ids has that key.
pub composite_key_round_trip :
    (session_id client_order_id : ℕ)
    → session_id < 2 ^ 16
    → client_order_id ≤ max_client_order_id
    → (extract_session_id (make_composite_key session_id client_order_id) ≡ session_id)
      × ((t d : ℕ)
          → t < 2 ^ 16
          → d ≤ max_client_order_id
          → make_composite_key t d ≡ make_composite_key session_id client_order_id
          → (t ≡ session_id) × (d ≡ client_order_id))
unfolding extract_session_id
composite_key_round_trip s c h k = (
  rw (key_form s c h k) (omega (arith, h, k)),
  λ t d i j e.
      let f : t * 2 ^ 48 + d ≡ s * 2 ^ 48 + c = sym (key_form t d i j) ∙ e ∙ key_form s c h k in
      (omega (arith, f, i, j, h, k), omega (arith, f, i, j, h, k)),
)
