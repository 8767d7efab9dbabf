-- ===== src/MessageCodec.antt =====
-- libs/net/message_codec.hpp: a header of 16 bytes and a payload. The output buffer is returned with the
-- number of bytes written.
pub mod RoundTrip
use low_latency_tick_to_trad.Prelude.{
  ℕ, zero, suc, ◌+◌, ◌-◌, ◌*◌, ◌%◌, ◌≤◌, ◌<◌, ◌≡◌, ◌≢◌, refl, sym, subst, ◌∙◌, ap, Bool, true,
  false, not, ◌&&◌, ◌||◌, Option, none, some, List, [], ◌∷◌, ◌++◌, arith, ltb, leb, ◌==◌, ==_iff,
  if◌then◌else◌, length, length-append, append-nil, append_assoc, min, max, Bool-cases,
  Option-cases, inl, inr, ◌⊎◌,
}
use low_latency_tick_to_trad.Wire.Fields.{Field, store_all}
use low_latency_tick_to_trad.Wire.{Bytes, load_be, store_at}
use low_latency_tick_to_trad.Prelude.Word.{u32}

-- `kMessageMagic` and `kMaxPayloadSize`
abbrev pub message_magic : ℕ
message_magic = 1397051953

abbrev pub max_payload_size : ℕ
max_payload_size = 65536

pub record MessageHeader : Type 0 where
  pub magic : ℕ
  pub version : ℕ
  pub msg_type : ℕ
  pub payload_len : ℕ
  pub flags : ℕ

pub record ParsedMessageView : Type 0 where
  pub header : MessageHeader
  pub payload : Bytes

abbrev pub header_fields : ℕ → ℕ → ℕ → ℕ → List Field
header_fields version msg_type size flags =
    (4, 0, message_magic)
    ∷ (2, 4, version)
    ∷ (2, 6, msg_type)
    ∷ (4, 8, size % u32)
    ∷ (4, 12, flags)
    ∷ []

unfoldable pub pack_message : Bytes → ℕ → ℕ → ℕ → Bytes → Bytes × ℕ
pack_message out version msg_type flags payload =
    if ltb max_payload_size (length payload)
    then (out, 0)
    else if ltb (length out) (16 + length payload)
    then (out, 0)
    else (
      store_at 16 payload (store_all (header_fields version msg_type (length payload) flags) out),
      16 + length payload,
    )

-- `in.subspan(offset, size)`
unfoldable pub subspan : ℕ → ℕ → Bytes → Bytes
subspan zero zero b = []
subspan zero (suc n) [] = []
subspan zero (suc n) (x ∷ b) = x ∷ subspan zero n b
subspan (suc off) n [] = []
subspan (suc off) n (x ∷ b) = subspan off n b

unfoldable pub unpack_message : Bytes → Option ParsedMessageView
unfolding subspan
unpack_message buf =
    let plen = load_be 4 8 buf in
    if ltb (length buf) 16
    then none
    else if not (load_be 4 0 buf == message_magic)
    then none
    else if ltb max_payload_size plen
    then none
    else if ltb (length buf - 16) plen
    then none
    else some (record {
      header = record {
        magic = load_be 4 0 buf;
        version = load_be 2 4 buf;
        msg_type = load_be 2 6 buf;
        payload_len = plen;
        flags = load_be 4 12 buf;
      };
      payload = subspan 16 plen buf;
    })
