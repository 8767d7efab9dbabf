-- ===== src/MessageCodec/RoundTrip.antt =====
-- Packing and unpacking of libs/net/message_codec.hpp.
use low_latency_tick_to_trad.Prelude.{
  ℕ, zero, suc, ◌+◌, ◌-◌, ◌%◌, ◌≤◌, ◌<◌, ◌≡◌, refl, ◌∙◌, ap, false, some, List, [], ◌∷◌, arith, ltb,
  length, Bool-cases, Option, inl, inr, none, ◌==◌, ==_iff,
}
use low_latency_tick_to_trad.MessageCodec.{
  pack_message, subspan, unpack_message, max_payload_size, message_magic, header_fields,
  ParsedMessageView,
}
use low_latency_tick_to_trad.Wire.{store_at, overwrite, Bytes, limit, load_be}
use low_latency_tick_to_trad.Wire.Fields.{
  field_at, all_within, Field, store_all, length-store_all, load-store_all,
}
use low_latency_tick_to_trad.Wire.Laws.{length-store_at, load_before}
use low_latency_tick_to_trad.Prelude.Word.{u32}

subspan-overwrite :
    (xs b : Bytes) → length xs ≤ length b → subspan 0 (length xs) (overwrite xs b) ≡ xs
unfolding subspan overwrite
subspan-overwrite [] b h = refl
subspan-overwrite (x ∷ xs) [] h = absurd (omega (arith, h))
subspan-overwrite (x ∷ xs) (y ∷ b) h = ap (λ t. x ∷ t) (subspan-overwrite xs b (omega (arith, h)))

pub subspan-store_at :
    (off : ℕ) (xs b : Bytes)
    → off + length xs ≤ length b
    → subspan off (length xs) (store_at off xs b) ≡ xs
unfolding subspan store_at
subspan-store_at zero xs b h = subspan-overwrite xs b (omega (arith, h))
subspan-store_at (suc off) xs [] h = absurd (omega (arith, h))
subspan-store_at (suc off) xs (y ∷ b) h = subspan-store_at off xs b (omega (arith, h))

-- The header's values fit their fields.
pub record FitsHeader (v t f : ℕ) : Type 0 where
  pub version : v < limit 2
  pub msg_type : t < limit 2
  pub flags : f < limit 4

-- A payload of at most 65536 bytes, with a version, a type and flags that fit their fields, packed
-- into a buffer with room for it and the header of 16 bytes, takes that many bytes and is unpacked
-- with the same header values and the same payload, whatever follows it in the buffer.
pub pack_message_round_trip :
    (out payload : Bytes) (version msg_type flags : ℕ)
    → FitsHeader version msg_type flags
    → length payload ≤ max_payload_size
    → 16 + length payload ≤ length out
    → ((pack_message out version msg_type flags payload).1 ≡ 16 + length payload)
      × (unpack_message (pack_message out version msg_type flags payload).0
          ≡ some (record {
            header = record {
              magic = message_magic;
              version = version;
              msg_type = msg_type;
              payload_len = length payload;
              flags = flags;
            };
            payload = payload;
          }))
unfolding pack_message unpack_message field_at all_within limit
pack_message_round_trip out payload version msg_type flags v small room =
    let fs : List Field = header_fields version msg_type (length payload) flags in
    let b : Bytes = store_all fs out in
    let a : ltb max_payload_size (length payload) ≡ false = ground (arith, small) in
    let c : ltb (length out) (16 + length payload) ≡ false = ground (arith, room) in
    let n : length b ≡ length out = length-store_all fs out in
    let w : length (store_at 16 payload b) ≡ length out = length-store_at 16 payload b ∙ n in
    let wide : 16 ≤ length out = omega (arith, room) in
    let same : length payload % u32 ≡ length payload = omega (arith, small) in
    let m0 =
      load_before 4 0 16 payload b (omega arith)
      ∙ load-store_all 16 4 0 message_magic fs out refl refl wide (omega arith) in
    let m1 =
      load_before 2 4 16 payload b (omega arith)
      ∙ load-store_all 16 2 4 version fs out refl refl wide v.version in
    let m2 =
      load_before 2 6 16 payload b (omega arith)
      ∙ load-store_all 16 2 6 msg_type fs out refl refl wide v.msg_type in
    let m3 =
      load_before 4 8 16 payload b (omega arith)
      ∙ load-store_all 16 4 8 (length payload % u32) fs out refl refl wide (omega (arith, small))
      ∙ same in
    let m4 =
      load_before 4 12 16 payload b (omega arith)
      ∙ load-store_all 16 4 12 flags fs out refl refl wide v.flags in
    let d : ltb (length (store_at 16 payload b)) 16 ≡ false = ground (arith, w, wide) in
    let e : ltb (length (store_at 16 payload b) - 16) (length payload) ≡ false =
      ground (arith, w, room) in
    let s : subspan 16 (length payload) (store_at 16 payload b) ≡ payload =
      subspan-store_at 16 payload b (omega (arith, n, room)) in
    rw (a, c) (refl, rw (d, m0, m3, a, e, m1, m2, m4, s) refl)

length-subspan : (off n : ℕ) (b : Bytes) → off + n ≤ length b → length (subspan off n b) ≡ n
unfolding subspan
length-subspan zero zero b h = refl
length-subspan zero (suc n) [] h = absurd (omega (arith, h))
length-subspan zero (suc n) (x ∷ b) h = ground (arith, length-subspan zero n b (omega (arith, h)))
length-subspan (suc off) n [] h = absurd (omega (arith, h))
length-subspan (suc off) n (x ∷ b) h = length-subspan off n b (omega (arith, h))

-- What holds of a view that is parsed from a buffer; nothing is claimed of a refusal.
abbrev pub Bounded : Bytes → Option ParsedMessageView → Type 0
Bounded buf none = Unit
Bounded buf (some m) =
    (m.header.magic ≡ message_magic)
    × (length m.payload ≡ m.header.payload_len)
    × (length m.payload ≤ max_payload_size)
    × (16 + length m.payload ≤ length buf)

-- Whatever bytes arrive, a message that `unpack_message` accepts has the magic number, a payload of
-- exactly the announced length, at most 65536 bytes, and lies with its header inside the buffer.
pub unpack_message-Bounded : (buf : Bytes) → Bounded buf (unpack_message buf)
unfolding unpack_message
unpack_message-Bounded buf = elim (Bool-cases (ltb (length buf) 16)) [
  | inl a ↦ rw a tt
  | inr a ↦ elim (Bool-cases (load_be 4 0 buf == message_magic)) [
    | inr b ↦ rw (a, b) tt
    | inl b ↦ elim (Bool-cases (ltb max_payload_size (load_be 4 8 buf))) [
      | inl c ↦ rw (a, b, c) tt
      | inr c ↦ elim (Bool-cases (ltb (length buf - 16) (load_be 4 8 buf))) [
        | inl d ↦ rw (a, b, c, d) tt
        | inr d ↦
            let n : length (subspan 16 (load_be 4 8 buf) buf) ≡ load_be 4 8 buf =
              length-subspan 16 (load_be 4 8 buf) buf (ground (arith, a, d)) in
            rw (a, b, c, d)
              (
                (==_iff (load_be 4 0 buf) message_magic).0 b,
                n,
                ground (arith, n, c),
                ground (arith, n, a, d),
              )
      ]
    ]
  ]
]
