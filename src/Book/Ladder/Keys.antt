-- ===== src/Book/Ladder/Keys.antt =====
-- The prices that a ladder of libs/algo/order_book.hpp holds levels at, as its level map is to know
-- them, and the number of its levels.
use low_latency_tick_to_trad.Prelude.{
  ◌+◌, ◌≡◌, refl, true, false, Option, none, some, List, [], ◌∷◌, arith, if◌then◌else◌, length,
  Bool-cases, inl, inr, ◌⊎◌,
}
use low_latency_tick_to_trad.Prelude.Word.{◌==ℤ◌, ==ℤ_iff}
use low_latency_tick_to_trad.Types.{Price, Side}
use low_latency_tick_to_trad.Book.{
  PriceLevel, level_at, put_level, erase_level, insert_level_sorted,
}
use low_latency_tick_to_trad.Book.Ladder.{IsLadder, level_at-AllWorse}

-- What the map of a side answers for a price.
unfoldable pub known : Price → List PriceLevel → Option (Unit {0})
known p [] = none
known p (l ∷ ls) = if l.price ==ℤ p then some tt else known p ls

pub known-level_at : (p : Price) (ls : List PriceLevel) → known p ls ≡ none → level_at p ls ≡ none
unfolding known level_at
known-level_at p [] e = refl
known-level_at p (l ∷ ls) e = ground (arith, known-level_at p ls)

pub level_at-known : (p : Price) (ls : List PriceLevel) → level_at p ls ≡ none → known p ls ≡ none
unfolding known level_at
level_at-known p [] e = refl
level_at-known p (l ∷ ls) e = ground (arith, level_at-known p ls)

pub known-some :
    (p : Price) (ls : List PriceLevel) (u : Unit {0})
    → known p ls ≡ some u
    → (l : PriceLevel) × (level_at p ls ≡ some l)
unfolding known level_at
known-some p [] u e = absurd (cc)
known-some p (l ∷ ls) u e = elim (Bool-cases (l.price ==ℤ p)) [
  | inl same ↦ (l, rw same)
  | inr other ↦ rw other (known-some p ls u (ground (arith, e, other)))
]

pub known-insert :
    (s : Side) (l : PriceLevel) (ls : List PriceLevel) (q : Price)
    → known q (insert_level_sorted s l ls) ≡ (if l.price ==ℤ q then some tt else known q ls)
unfolding known insert_level_sorted
known-insert s l [] q = refl
known-insert s l (k ∷ ls) q = ground (arith, known-insert s l ls q)

pub known-put_level :
    (l : PriceLevel) (ls : List PriceLevel) (q : Price) → known q (put_level l ls) ≡ known q ls
unfolding known put_level
known-put_level l [] q = refl
known-put_level l (k ∷ ls) q = elim (Bool-cases (k.price ==ℤ l.price)) [
  | inl same ↦ rw (same, (==ℤ_iff k.price l.price).0 same)
  | inr other ↦ rw (other, known-put_level l ls q)
]

pub known-erase_level :
    (s : Side) (p : Price) (ls : List PriceLevel) (q : Price)
    → IsLadder s ls
    → known q (erase_level p ls) ≡ (if p ==ℤ q then none else known q ls)
unfolding known erase_level
known-erase_level s p [] q v = ground arith
known-erase_level s p (k ∷ ls) q v = elim (Bool-cases (k.price ==ℤ p)) [
  | inl same ↦
      let e = (==ℤ_iff k.price p).0 same in rw (same, ← e) (hidden (Bool-cases (k.price ==ℤ q)))
  | inr other ↦
      rw (other, known-erase_level s p ls q v.2)
        (ground (arith, other, ==ℤ_iff p q, ==ℤ_iff k.price q, ==ℤ_iff k.price p))
]
  where
    hidden :
        ((k.price ==ℤ q) ≡ true) ⊎ ((k.price ==ℤ q) ≡ false)
        → known q ls
          ≡ (if k.price ==ℤ q then none else (if k.price ==ℤ q then some tt else known q ls))
    hidden (inl e) =
        rw e (
          level_at-known q ls
            (rw ((==ℤ_iff k.price q).0 e) at (level_at-AllWorse s k.price ls v.1)))
    hidden (inr e) = rw e

pub length-insert_level :
    (s : Side) (l : PriceLevel) (ls : List PriceLevel)
    → length (insert_level_sorted s l ls) ≡ length ls + 1
unfolding insert_level_sorted
length-insert_level s l [] = omega arith
length-insert_level s l (k ∷ ls) = ground (arith, length-insert_level s l ls)

pub length-put_level : (l : PriceLevel) (ls : List PriceLevel) → length (put_level l ls) ≡ length ls
unfolding put_level
length-put_level l [] = refl
length-put_level l (k ∷ ls) = ground (arith, length-put_level l ls)

pub length-erase_level :
    (p : Price) (ls : List PriceLevel) {l : PriceLevel}
    → level_at p ls ≡ some l
    → length (erase_level p ls) + 1 ≡ length ls
unfolding erase_level level_at
length-erase_level p [] {l} e = cc
length-erase_level p (k ∷ ls) {l} e = ground (arith, length-erase_level p ls {l = l})
