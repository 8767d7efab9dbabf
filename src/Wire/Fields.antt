-- ===== src/Wire/Fields.antt =====
-- The fields of a message of a fixed layout: a sequence of stores into the buffer, and what a load then
-- reads (libs/sys/endian.hpp as apps/shared/protocol_codec.hpp uses it).
use low_latency_tick_to_trad.Prelude.{
  ℕ, ◌+◌, ◌≤◌, ◌<◌, ◌≡◌, refl, ◌∙◌, Bool, true, ◌&&◌, ◌||◌, Option, none, some, List, [], ◌∷◌,
  arith, leb, ◌==◌, if◌then◌else◌, length, Bool-cases, inl, inr,
}
use mathlib.Core.Option.{some-injective}
use low_latency_tick_to_trad.Wire.{Bytes, load_be, limit, store_be}
use low_latency_tick_to_trad.Wire.Laws.{length-store_be, load_apart, load-store}

-- One store: how many bytes, at which offset, which value.
abbrev pub Field : Type 0
Field = ℕ × ℕ × ℕ

unfoldable pub store_all : List Field → Bytes → Bytes
store_all [] b = b
store_all ((k, off, v) ∷ fs) b = store_all fs (store_be k off v b)

-- No store touches the place.
unfoldable pub all_apart : ℕ → ℕ → List Field → Bool
all_apart k off [] = true
all_apart k off ((k', off', v) ∷ fs) =
    (leb (off + k) off' || leb (off' + k') off) && all_apart k off fs

-- The value that stands at a place after the stores, if a store is to it and no later one touches it.
unfoldable pub field_at : ℕ → ℕ → List Field → Option ℕ
unfolding all_apart
field_at k off [] = none
field_at k off ((k', off', v) ∷ fs) =
    let rest = field_at k off fs in
    if k' == k && (off' == off && all_apart k off fs) then some v else rest

-- The place of a field is in a buffer of so many bytes.
unfoldable pub all_within : ℕ → List Field → Bool
all_within n [] = true
all_within n ((k, off, v) ∷ fs) = leb (off + k) n && all_within n fs

pub length-store_all : (fs : List Field) (b : Bytes) → length (store_all fs b) ≡ length b
unfolding store_all
length-store_all [] b = refl
length-store_all ((k, off, v) ∷ fs) b =
    length-store_all fs (store_be k off v b) ∙ length-store_be k off v b

load_unseen :
    (k off : ℕ) (fs : List Field) (b : Bytes)
    → all_apart k off fs ≡ true
    → load_be k off (store_all fs b) ≡ load_be k off b
unfolding store_all all_apart
load_unseen k off [] b h = refl
load_unseen k off ((k', off', v) ∷ fs) b h =
    load_unseen k off fs (store_be k' off' v b) (ground (arith, h))
    ∙ load_apart k off k' off' v b (ground (arith, h))

pub load-store_all :
    (n k off v : ℕ) (fs : List Field) (b : Bytes)
    → field_at k off fs ≡ some v
    → all_within n fs ≡ true
    → n ≤ length b
    → v < limit k
    → load_be k off (store_all fs b) ≡ v
unfolding store_all field_at all_within
load-store_all n k off v [] b h w l m = absurd (cc h)
load-store_all n k off v ((k', off', x) ∷ fs) b h w l m =
    elim (Bool-cases (k' == k && (off' == off && all_apart k off fs))) [
      | inr e ↦
          load-store_all n k off v fs (store_be k' off' x b) (rw e at h) (ground (arith, w))
            (omega (arith, l, length-store_be k' off' x b)) m
      | inl e ↦
          let a : all_apart k off fs ≡ true = ground (arith, e) in
          let f : k' ≡ k = ground (arith, e) in
          let g : off' ≡ off = ground (arith, e) in
          let y : x ≡ v = some-injective x v (rw e at h) in
          load_unseen k off fs (store_be k' off' x b) a
          ∙ rw (f, g, y) (load-store k off v b (ground (arith, w, l, f, g)) m)
    ]
