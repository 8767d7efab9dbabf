-- ===== src/Framing/RoundTrip.antt =====
-- Frames of libs/net/length_prefix_codec.hpp that arrive in parts.
use low_latency_tick_to_trad.Prelude.{
  ℕ, zero, suc, ◌+◌, ◌-◌, ◌*◌, ◌%◌, ◌≤◌, ◌<◌, ◌≡◌, refl, ◌∙◌, ap, true, false, some, [], ◌∷◌, arith,
  ltb, length, Bool-cases, inl, inr, take, length-take,
}
use low_latency_tick_to_trad.Wire.{Bytes, load_be, load_from, byte_at, store_at, store_be, limit}
use low_latency_tick_to_trad.Wire.Laws.{load-store, load_before, length-store_at, length-store_be}
use low_latency_tick_to_trad.MessageCodec.{subspan}
use low_latency_tick_to_trad.MessageCodec.RoundTrip.{subspan-store_at}
use low_latency_tick_to_trad.Framing.{
  FrameDecodeResult, encode_length_prefix_frame, decode_length_prefix_frame, complete, incomplete,
}
use low_latency_tick_to_trad.Prelude.Word.{u32}

byte_at-take : (i n : ℕ) (b : Bytes) → i < n → byte_at i (take n b) ≡ byte_at i b
unfolding byte_at
byte_at-take i zero b l = absurd (omega (arith, l))
byte_at-take i (suc n) [] l = refl
byte_at-take zero (suc n) (x ∷ b) l = refl
byte_at-take (suc i) (suc n) (x ∷ b) l = byte_at-take i n b (omega (arith, l))

load_from-take :
    (a k off n : ℕ) (b : Bytes) → off + k ≤ n → load_from a k off (take n b) ≡ load_from a k off b
unfolding load_from
load_from-take a zero off n b l = refl
load_from-take a (suc k) off n b l =
    rw (byte_at-take off n b (omega (arith, l)))
      (load_from-take (a * 256 + byte_at off b) k (suc off) n b (omega (arith, l)))

abbrev framed : ℕ → Bytes → FrameDecodeResult
framed size payload = record { status = complete; frame_size = size; payload = payload }

decode_whole :
    (b payload : Bytes) (max_frame_size : ℕ)
    → load_be 4 0 b ≡ 4 + length payload
    → 4 + length payload ≤ max_frame_size
    → 4 + length payload ≤ length b
    → subspan 4 (length payload) b ≡ payload
    → decode_length_prefix_frame b max_frame_size
      ≡ record { status = complete; frame_size = 4 + length payload; payload = payload }
unfolding decode_length_prefix_frame
decode_whole b payload max_frame_size m small room s =
    let c : ltb (length b) 4 ≡ false = ground (arith, room) in
    let d : ltb (4 + length payload) 4 ≡ false = ground arith in
    let a : ltb max_frame_size (4 + length payload) ≡ false = ground (arith, small) in
    let e : ltb (length b) (4 + length payload) ≡ false = ground (arith, room) in
    let k : load_be 4 0 b - 4 ≡ length payload = omega (arith, m) in
    rw (c, m, d, a, e) (ap (framed (4 + length payload)) (ap (λ z. subspan 4 z b) k ∙ s))

decode_part :
    (b : Bytes) (max_frame_size total n : ℕ)
    → load_be 4 0 b ≡ total
    → 4 ≤ total
    → total ≤ max_frame_size
    → n < total
    → (decode_length_prefix_frame (take n b) max_frame_size).status ≡ incomplete
unfolding decode_length_prefix_frame
decode_part b max_frame_size total n m wide small l =
    elim (Bool-cases (ltb (length (take n b)) 4)) [
      | inl c ↦ rw c refl
      | inr c ↦
          let k = length-take n b in
          let more : 4 ≤ n = ground (arith, c, k) in
          let t : load_be 4 0 (take n b) ≡ total =
            load_from-take 0 4 0 n b (omega (arith, more)) ∙ m in
          let d : ltb total 4 ≡ false = ground (arith, wide) in
          let a : ltb max_frame_size total ≡ false = ground (arith, small) in
          let e : ltb (length (take n b)) total ≡ true = ground (arith, l, k) in
          rw (c, t, d, a, e) refl
    ]

-- A payload whose frame fits the maximum (below 2 ^ 32) and the buffer is encoded in 4 bytes more
-- than its length; decoding the buffer gives the frame's size and the payload, whatever follows it,
-- and decoding any part that ends before the frame does says incomplete.
pub frame_round_trip :
    (out payload : Bytes) (max_frame_size : ℕ)
    → max_frame_size < u32
    → 4 + length payload ≤ max_frame_size
    → 4 + length payload ≤ length out
    → ((encode_length_prefix_frame out payload max_frame_size).1 ≡ some (4 + length payload))
      × (decode_length_prefix_frame
            (encode_length_prefix_frame out payload max_frame_size).0
            max_frame_size
          ≡ record { status = complete; frame_size = 4 + length payload; payload = payload })
      × ((n : ℕ)
          → n < 4 + length payload
          → (decode_length_prefix_frame
              (take n (encode_length_prefix_frame out payload max_frame_size).0)
              max_frame_size).status
            ≡ incomplete)
unfolding encode_length_prefix_frame limit
frame_round_trip out payload max_frame_size fits small room =
    let total = 4 + length payload in
    let a : ltb max_frame_size total ≡ false = ground (arith, small) in
    let c : ltb (length out) total ≡ false = ground (arith, room) in
    let b : Bytes = store_at 4 payload (store_be 4 0 (total % u32) out) in
    let n : length b ≡ length out =
      length-store_at 4 payload (store_be 4 0 (total % u32) out)
      ∙ length-store_be 4 0 (total % u32) out in
    let m : load_be 4 0 b ≡ total =
      load_before 4 0 4 payload (store_be 4 0 (total % u32) out) (omega arith)
      ∙ load-store 4 0 (total % u32) out (omega (arith, room)) (omega arith)
      ∙ omega (arith, fits, small) in
    rw (a, c)
      (
        refl,
        decode_whole b payload max_frame_size m small (omega (arith, n, room)) (
            subspan-store_at 4 payload (store_be 4 0 (total % u32) out)
              (let k = length-store_be 4 0 (total % u32) out in omega (arith, k, room))),
        λ k l. decode_part b max_frame_size total k m (omega arith) small l,
      )
