-- ===== src/Wire.antt =====
-- libs/sys/endian.hpp: numbers written to and read from a byte buffer in network byte order. A buffer
-- is the list of its bytes. A signed 64-bit field travels as its two's complement.
pub mod Laws
pub mod Fields
use low_latency_tick_to_trad.Prelude.{
  ℕ, zero, suc, ◌+◌, ◌-◌, ◌*◌, ◌%◌, ◌≤◌, ◌<◌, ◌≡◌, ◌≢◌, refl, sym, subst, ◌∙◌, ap, Bool, true,
  false, not, ◌&&◌, ◌||◌, Option, none, some, List, [], ◌∷◌, ◌++◌, arith, ltb, leb, ◌==◌, ==_iff,
  if◌then◌else◌, length, length-append, append-nil, append_assoc, min, max, Bool-cases,
  Option-cases, inl, inr, ◌⊎◌, ◌/◌, ◌^◌,
}
use low_latency_tick_to_trad.Prelude.Int.{ℤ, pos, negsuc}

abbrev pub Bytes : Type 0
Bytes = List ℕ

-- `p[i]`; the code reads inside the buffer only.
unfoldable pub byte_at : ℕ → Bytes → ℕ
byte_at i [] = 0
byte_at zero (x ∷ b) = x
byte_at (suc i) (x ∷ b) = byte_at i b

-- the bytes of a number, most significant first
unfoldable pub be_bytes : ℕ → ℕ → Bytes
be_bytes zero v = []
be_bytes (suc k) v = be_bytes k (v / 256) ++ (v % 256) ∷ []

-- `memcpy` to the front of a buffer and to an offset
unfoldable pub overwrite : Bytes → Bytes → Bytes
overwrite [] b = b
overwrite (x ∷ xs) [] = []
overwrite (x ∷ xs) (y ∷ b) = x ∷ overwrite xs b

unfoldable pub store_at : ℕ → Bytes → Bytes → Bytes
unfolding overwrite
store_at zero xs b = overwrite xs b
store_at (suc i) xs [] = []
store_at (suc i) xs (y ∷ b) = y ∷ store_at i xs b

-- `store_be64`, `store_be32` and a single byte: the width, the offset, the value
unfoldable pub store_be : ℕ → ℕ → ℕ → Bytes → Bytes
unfolding be_bytes store_at
store_be k off v b = store_at off (be_bytes k v) b

-- `load_be64`, `load_be32` and a single byte
unfoldable pub load_from : ℕ → ℕ → ℕ → Bytes → ℕ
unfolding byte_at
load_from a zero off b = a
load_from a (suc k) off b = load_from (a * 256 + byte_at off b) k (suc off) b

abbrev pub load_be : ℕ → ℕ → Bytes → ℕ
load_be k off b = load_from 0 k off b

-- `static_cast<std::uint64_t>` of a `std::int64_t`, and back
unfoldable pub to_u64 : ℤ → ℕ
to_u64 (pos n) = n
to_u64 (negsuc n) = 2 ^ 64 - 1 - n

unfoldable pub from_u64 : ℕ → ℤ
from_u64 n = if ltb n (2 ^ 63) then pos n else negsuc (2 ^ 64 - 1 - n)

-- one past the greatest number of so many bytes
unfoldable pub limit : ℕ → ℕ
limit zero = 1
limit (suc k) = 256 * limit k
