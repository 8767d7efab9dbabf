-- ===== src/Framing.antt =====
-- libs/net/length_prefix_codec.hpp: frames on a stream, each with its whole length in the first 4 bytes.
-- The output buffer is returned beside the size of the frame.
pub mod RoundTrip
use low_latency_tick_to_trad.Prelude.{
  ℕ, zero, suc, ◌+◌, ◌-◌, ◌*◌, ◌%◌, ◌≤◌, ◌<◌, ◌≡◌, ◌≢◌, refl, sym, subst, ◌∙◌, ap, Bool, true,
  false, not, ◌&&◌, ◌||◌, Option, none, some, List, [], ◌∷◌, ◌++◌, arith, ltb, leb, ◌==◌, ==_iff,
  if◌then◌else◌, length, length-append, append-nil, append_assoc, min, max, Bool-cases,
  Option-cases, inl, inr, ◌⊎◌,
}
use low_latency_tick_to_trad.Wire.{Bytes, load_be, store_at, store_be}
use low_latency_tick_to_trad.MessageCodec.{subspan}
use low_latency_tick_to_trad.Prelude.Word.{u32}

abbrev pub length_prefix_size : ℕ
length_prefix_size = 4

pub data FrameStatus : Type 0 where
  complete incomplete malformed : FrameStatus

pub record FrameDecodeResult : Type 0 where
  pub status : FrameStatus
  pub frame_size : ℕ
  pub payload : Bytes

unfoldable pub encode_length_prefix_frame : Bytes → Bytes → ℕ → Bytes × Option ℕ
encode_length_prefix_frame out payload max_frame_size =
    let frame_size = length_prefix_size + length payload in
    if ltb max_frame_size frame_size
    then (out, none)
    else if ltb (length out) frame_size
    then (out, none)
    else (
      store_at length_prefix_size payload (store_be 4 0 (frame_size % u32) out),
      some frame_size,
    )

abbrev pub undecoded : FrameStatus → FrameDecodeResult
undecoded status = record { status = status; frame_size = 0; payload = [] }

unfoldable pub decode_length_prefix_frame : Bytes → ℕ → FrameDecodeResult
unfolding subspan
decode_length_prefix_frame buf max_frame_size =
    let total_len = load_be 4 0 buf in
    if ltb (length buf) length_prefix_size
    then undecoded incomplete
    else if ltb total_len length_prefix_size || ltb max_frame_size total_len
    then undecoded malformed
    else if ltb (length buf) total_len
    then undecoded incomplete
    else record {
      status = complete;
      frame_size = total_len;
      payload = subspan length_prefix_size (total_len - length_prefix_size) buf;
    }
