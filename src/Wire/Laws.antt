-- ===== src/Wire/Laws.antt =====
-- Loads after stores of libs/sys/endian.hpp.
use low_latency_tick_to_trad.Prelude.{
  ℕ, zero, suc, ◌+◌, ◌-◌, ◌*◌, ◌%◌, ◌≤◌, ◌<◌, ◌≡◌, refl, subst, ◌∙◌, ap, false, [], ◌∷◌, ◌++◌,
  arith, ltb, length, length-append, inl, inr, ◌⊎◌, ◌/◌, ◌^◌,
}
use low_latency_tick_to_trad.Prelude.Int.{ℤ, pos, negsuc}
use low_latency_tick_to_trad.Wire.{
  load_from, byte_at, be_bytes, store_at, limit, overwrite, from_u64, to_u64, Bytes, store_be,
  load_be,
}

-- A value of `std::int64_t`.
abbrev pub Fits64 : ℤ → Type 0
Fits64 (pos n) = n < 2 ^ 63
Fits64 (negsuc n) = n < 2 ^ 63

pub from_u64-to_u64 : (z : ℤ) → Fits64 z → from_u64 (to_u64 z) ≡ z
unfolding from_u64 to_u64
from_u64-to_u64 (pos n) h = ground (arith, h)
from_u64-to_u64 (negsuc n) h =
    let e : ltb (2 ^ 64 - 1 - n) (2 ^ 63) ≡ false = ground (arith, h) in
    rw e (ap negsuc (omega (arith, h)))

pub to_u64-bounded : (z : ℤ) → Fits64 z → to_u64 z < limit 8
unfolding limit to_u64
to_u64-bounded (pos n) h = omega (arith, h)
to_u64-bounded (negsuc n) h = omega (arith, h)

length-be_bytes : (k v : ℕ) → length (be_bytes k v) ≡ k
unfolding be_bytes
length-be_bytes zero v = refl
length-be_bytes (suc k) v =
    omega (arith, length-append (be_bytes k (v / 256)) (v % 256 ∷ []), length-be_bytes k (v / 256))

-- A load depends on the bytes at its place only.
load_same :
    (k a off off' : ℕ) (b c : Bytes)
    → ((i : ℕ) → i < k → byte_at (off + i) b ≡ byte_at (off' + i) c)
    → load_from a k off b ≡ load_from a k off' c
unfolding load_from
load_same zero a off off' b c h = refl
load_same (suc k) a off off' b c h =
    let e : byte_at off b ≡ byte_at off' c =
      subst (λ x. byte_at x b ≡ byte_at off' c) (omega arith)
        (subst (λ x. byte_at (off + 0) b ≡ byte_at x c) (omega arith) (h 0 (omega arith))) in
    rw e (
      load_same k (a * 256 + byte_at off' c) (suc off) (suc off') b c (λ i l.
        subst (λ x. byte_at x b ≡ byte_at (suc off' + i) c) (omega arith)
          (subst (λ x. byte_at (off + suc i) b ≡ byte_at x c) (omega arith)
            (h (suc i) (omega (arith, l))))))

byte_at-overwrite :
    (xs b : Bytes) (i : ℕ)
    → length xs ≤ length b
    → i < length xs
    → byte_at i (overwrite xs b) ≡ byte_at i xs
unfolding byte_at overwrite
byte_at-overwrite [] b i h l = absurd (omega (arith, l))
byte_at-overwrite (x ∷ xs) [] i h l = absurd (omega (arith, h))
byte_at-overwrite (x ∷ xs) (y ∷ b) zero h l = refl
byte_at-overwrite (x ∷ xs) (y ∷ b) (suc i) h l =
    byte_at-overwrite xs b i (omega (arith, h)) (omega (arith, l))

byte_at-behind : (xs b : Bytes) (i : ℕ) → length xs ≤ i → byte_at i (overwrite xs b) ≡ byte_at i b
unfolding byte_at overwrite
byte_at-behind [] b i h = refl
byte_at-behind (x ∷ xs) [] i h = refl
byte_at-behind (x ∷ xs) (y ∷ b) zero h = absurd (omega (arith, h))
byte_at-behind (x ∷ xs) (y ∷ b) (suc i) h = byte_at-behind xs b i (omega (arith, h))

-- what a buffer holds after a write: at its place, and elsewhere
byte_at_written :
    (off : ℕ) (xs b : Bytes) (j i : ℕ)
    → j ≡ off + i
    → off + length xs ≤ length b
    → i < length xs
    → byte_at j (store_at off xs b) ≡ byte_at i xs
unfolding byte_at store_at
byte_at_written zero xs b j i e h l =
    let f : j ≡ i = omega (arith, e) in rw f (byte_at-overwrite xs b i (omega (arith, h)) l)
byte_at_written (suc off) xs [] j i e h l = absurd (omega (arith, h))
byte_at_written (suc off) xs (y ∷ b) zero i e h l = absurd (omega (arith, e))
byte_at_written (suc off) xs (y ∷ b) (suc j) i e h l =
    byte_at_written off xs b j i (omega (arith, e)) (omega (arith, h)) l

byte_at_apart :
    (off : ℕ) (xs b : Bytes) (i : ℕ)
    → (i < off) ⊎ (off + length xs ≤ i)
    → byte_at i (store_at off xs b) ≡ byte_at i b
unfolding byte_at store_at
byte_at_apart zero xs b i (inl l) = absurd (omega (arith, l))
byte_at_apart zero xs b i (inr l) = byte_at-behind xs b i (omega (arith, l))
byte_at_apart (suc off) xs [] i h = refl
byte_at_apart (suc off) xs (y ∷ b) zero h = refl
byte_at_apart (suc off) xs (y ∷ b) (suc i) (inl l) =
    byte_at_apart off xs b i (inl (omega (arith, l)))
byte_at_apart (suc off) xs (y ∷ b) (suc i) (inr l) =
    byte_at_apart off xs b i (inr (omega (arith, l)))

byte_at-append : (xs ys : Bytes) (i : ℕ) → i < length xs → byte_at i (xs ++ ys) ≡ byte_at i xs
unfolding byte_at
byte_at-append [] ys i l = absurd (omega (arith, l))
byte_at-append (x ∷ xs) ys zero l = refl
byte_at-append (x ∷ xs) ys (suc i) l = byte_at-append xs ys i (omega (arith, l))

byte_at_last : (xs : Bytes) (x i : ℕ) → i ≡ length xs → byte_at i (xs ++ x ∷ []) ≡ x
unfolding byte_at
byte_at_last [] x zero e = refl
byte_at_last [] x (suc i) e = absurd (omega (arith, e))
byte_at_last (y ∷ xs) x zero e = absurd (omega (arith, e))
byte_at_last (y ∷ xs) x (suc i) e = byte_at_last xs x i (omega (arith, e))

-- A load reads the last byte last.
load_last :
    (k a off : ℕ) (b : Bytes)
    → load_from a (suc k) off b ≡ load_from a k off b * 256 + byte_at (off + k) b
unfolding load_from
load_last zero a off b = ap (λ j. a * 256 + byte_at j b) (omega arith)
load_last (suc k) a off b =
    load_last k (a * 256 + byte_at off b) (suc off) b
    ∙ ap (λ j. load_from (a * 256 + byte_at off b) k (suc off) b * 256 + byte_at j b) (omega arith)

load-be_bytes : (k v : ℕ) → v < limit k → load_be k 0 (be_bytes k v) ≡ v
unfolding be_bytes limit load_from
load-be_bytes zero v h = omega (arith, h)
load-be_bytes (suc k) v h =
    let front : load_be k 0 (be_bytes (suc k) v) ≡ load_be k 0 (be_bytes k (v / 256)) =
      load_same k 0 0 0 (be_bytes (suc k) v) (be_bytes k (v / 256)) (λ i l.
        byte_at-append (be_bytes k (v / 256)) (v % 256 ∷ []) (0 + i)
          (omega (arith, l, length-be_bytes k (v / 256)))) in
    let last : byte_at (0 + k) (be_bytes (suc k) v) ≡ v % 256 =
      byte_at_last (be_bytes k (v / 256)) (v % 256) (0 + k)
        (omega (arith, length-be_bytes k (v / 256))) in
    load_last k 0 0 (be_bytes (suc k) v)
    ∙ omega (arith, front, last, load-be_bytes k (v / 256) (omega (arith, h)))

-- A number that is written in bounds is read back,
pub load-store :
    (k off v : ℕ) (b : Bytes)
    → off + k ≤ length b
    → v < limit k
    → load_be k off (store_be k off v b) ≡ v
unfolding store_be
load-store k off v b h l =
    load_same k 0 off 0 (store_be k off v b) (be_bytes k v) (λ i m.
      byte_at_written off (be_bytes k v) b (off + i) (0 + i) (omega arith)
        (omega (arith, h, length-be_bytes k v)) (omega (arith, m, length-be_bytes k v)))
    ∙ load-be_bytes k v l

-- and a write elsewhere is not seen.
pub load_apart :
    (k off k' off' v : ℕ) (b : Bytes)
    → (off + k ≤ off') ⊎ (off' + k' ≤ off)
    → load_be k off (store_be k' off' v b) ≡ load_be k off b
unfolding store_be
load_apart k off k' off' v b (inl h) =
    load_same k 0 off off (store_be k' off' v b) b
      (λ i l. byte_at_apart off' (be_bytes k' v) b (off + i) (inl (omega (arith, h, l))))
load_apart k off k' off' v b (inr h) = load_same k 0 off off (store_be k' off' v b) b (λ i l.
    byte_at_apart off' (be_bytes k' v) b (off + i)
      (inr (omega (arith, h, l, length-be_bytes k' v))))

pub length-store_at : (off : ℕ) (xs b : Bytes) → length (store_at off xs b) ≡ length b
unfolding store_at overwrite
length-store_at zero [] b = refl
length-store_at zero (x ∷ xs) [] = refl
length-store_at zero (x ∷ xs) (y ∷ b) = ground (arith, length-store_at zero xs b)
length-store_at (suc i) xs [] = refl
length-store_at (suc i) xs (y ∷ b) = ground (arith, length-store_at i xs b)

pub length-store_be : (k off v : ℕ) (b : Bytes) → length (store_be k off v b) ≡ length b
unfolding store_be
length-store_be k off v b = length-store_at off (be_bytes k v) b

-- Bytes that are written behind a place are not seen there.
pub load_before :
    (k off off' : ℕ) (xs b : Bytes)
    → off + k ≤ off'
    → load_be k off (store_at off' xs b) ≡ load_be k off b
load_before k off off' xs b h =
    load_same k 0 off off (store_at off' xs b) b
      (λ i l. byte_at_apart off' xs b (off + i) (inl (omega (arith, h, l))))
