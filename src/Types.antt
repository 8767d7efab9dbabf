-- ===== src/Types.antt =====
-- The vocabulary of libs/algo/trading_types.hpp: prices are signed 64-bit ticks, order ids and
-- quantities unsigned. `kCount` of the enum is only an array bound and has no constructor here.
use low_latency_tick_to_trad.Prelude.{ℕ, Bool, true, false}
use low_latency_tick_to_trad.Prelude.Int.{ℤ}

abbrev pub Price : Type 0
Price = ℤ

abbrev pub OrderId : Type 0
OrderId = ℕ

abbrev pub Qty : Type 0
Qty = ℕ

pub data Side : Type 0 where
  bid ask : Side

abbrev pub opposite : Side → Side
opposite bid = ask
opposite ask = bid

abbrev pub is_bid : Side → Bool
is_bid bid = true
is_bid ask = false
