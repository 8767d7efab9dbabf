-- ===== src/Book/Ladder.antt =====
-- The price ladders of libs/algo/order_book.hpp: what makes a list of levels a ladder of its side,
-- and what the pointer operations on it do to the ladder and to the queue of its orders.
pub mod Insert
pub mod Remove
pub mod Keys
pub mod Reduce
use low_latency_tick_to_trad.Prelude.{
  ℕ, zero, suc, ◌+◌, ◌-◌, ◌*◌, ◌/◌, ◌%◌, ◌^◌, ◌≤◌, ◌<◌, ◌≡◌, refl, sym, ◌∙◌, ap, Bool, true, false,
  Option, none, some, List, [], ◌∷◌, ◌++◌, arith, ◌==◌, ==_iff, if◌then◌else◌, length,
  length-append, append-nil, append_assoc, ◌≢◌, Bool-cases, inl, inr, subst,
}
use low_latency_tick_to_trad.Prelude.Int.{ℤ, ltb_ℤ}
use low_latency_tick_to_trad.Prelude.Word.{u32, add32, sub32, ◌==ℤ◌, ==ℤ_refl, ==ℤ_iff}
use low_latency_tick_to_trad.Types.{Price, OrderId, Qty, Side, bid, ask}
use low_latency_tick_to_trad.Book.{
  Order, PriceLevel, Handle, worse, level_at, put_level, erase_level, insert_level_sorted,
  erase_order, qty_in, is_nil, take_order, queue_order,
}
use low_latency_tick_to_trad.Book.Queue.{
  entries, where_is, insert_entry, or_else, erase_order-append, where_is-append, erase_order-absent,
}

-- The quantity that a queue of orders asks for.
unfoldable pub total : List Order → ℕ
total [] = 0
total (o ∷ os) = o.qty + total os

-- An order that may rest in the level at a price.
pub record Rests (s : Side) (p : Price) (o : Order) : Type 0 where
  pub at_price : o.price ≡ p
  pub on_side : o.side ≡ s
  pub alive : 0 < o.qty
  pub fits : o.qty < u32

abbrev pub AllRest : Side → Price → List Order → Type 0
AllRest s p [] = Unit
AllRest s p (o ∷ os) = Rests s p o × AllRest s p os

-- A level holds orders of its side and price, at least one, and counts them modulo 2 ^ 32.
pub record IsLevel (s : Side) (l : PriceLevel) : Type 0 where
  pub side : l.side ≡ s
  pub queue : AllRest s l.price l.orders
  pub nonempty : is_nil l.orders ≡ false
  pub counted : l.total_qty ≡ total l.orders % u32

-- Every level is worse than the price.
abbrev pub AllWorse : Side → Price → List PriceLevel → Type 0
AllWorse s p [] = Unit
AllWorse s p (l ∷ ls) = (worse s l.price p ≡ true) × AllWorse s p ls

-- Levels from the best price to the worst, no price twice.
abbrev pub IsLadder : Side → List PriceLevel → Type 0
IsLadder s [] = Unit
IsLadder s (l ∷ ls) = IsLevel s l × AllWorse s l.price ls × IsLadder s ls

pub worse_trans :
    (s : Side) (p q r : Price) → worse s p q ≡ true → worse s q r ≡ true → worse s p r ≡ true
worse_trans bid p q r h k = ground arith
worse_trans ask p q r h k = ground arith

pub worse_irrefl : (s : Side) (p q : Price) → worse s p q ≡ true → (q ==ℤ p) ≡ false
worse_irrefl bid p q h = ground arith
worse_irrefl ask p q h = ground arith

pub worse_total :
    (s : Side) (p q : Price) → worse s p q ≡ false → (p ==ℤ q) ≡ false → worse s q p ≡ true
worse_total bid p q h k = ground arith
worse_total ask p q h k = ground arith

pub AllWorse-trans :
    (s : Side) (p q : Price) (ls : List PriceLevel)
    → worse s p q ≡ true
    → AllWorse s p ls
    → AllWorse s q ls
AllWorse-trans s p q [] h a = tt
AllWorse-trans s p q (l ∷ ls) h a = (worse_trans s l.price p q a.0 h, AllWorse-trans s p q ls h a.1)

-- No level of a ladder below a price is at it.
pub level_at-AllWorse :
    (s : Side) (p : Price) (ls : List PriceLevel) → AllWorse s p ls → level_at p ls ≡ none
unfolding level_at
level_at-AllWorse s p [] a = refl
level_at-AllWorse s p (l ∷ ls) a = ground (
  arith,
  level_at-AllWorse s p ls,
  worse_irrefl s l.price p,
  a.0,
  ==ℤ_iff l.price p,
  ==ℤ_iff p l.price,
)

-- A level that stands in for another at its price keeps the ladder.
pub AllWorse-put_level :
    (s : Side) (p : Price) (l : PriceLevel) (ls : List PriceLevel)
    → AllWorse s p ls
    → AllWorse s p (put_level l ls)
unfolding put_level
AllWorse-put_level s p l [] a = tt
AllWorse-put_level s p l (k ∷ ls) a =
    ground (arith, AllWorse-put_level s p l ls a.1, ==ℤ_iff k.price l.price)

pub put_level-IsLadder :
    (s : Side) (l : PriceLevel) (ls : List PriceLevel)
    → IsLevel s l
    → IsLadder s ls
    → IsLadder s (put_level l ls)
unfolding put_level
put_level-IsLadder s l [] v a = tt
put_level-IsLadder s l (k ∷ ls) v a = ground (
  arith,
  put_level-IsLadder s l ls v a.2,
  AllWorse-put_level s k.price l ls a.1,
  ==ℤ_iff k.price l.price,
)

pub AllWorse-erase_level :
    (s : Side) (p q : Price) (ls : List PriceLevel)
    → AllWorse s p ls
    → AllWorse s p (erase_level q ls)
unfolding erase_level
AllWorse-erase_level s p q [] a = tt
AllWorse-erase_level s p q (k ∷ ls) a = ground (arith, AllWorse-erase_level s p q ls a.1)

pub erase_level-IsLadder :
    (s : Side) (p : Price) (ls : List PriceLevel) → IsLadder s ls → IsLadder s (erase_level p ls)
unfolding erase_level
erase_level-IsLadder s p [] a = tt
erase_level-IsLadder s p (k ∷ ls) a =
    ground (arith, erase_level-IsLadder s p ls a.2, AllWorse-erase_level s k.price p ls a.1)

pub level_at-price :
    (p : Price) (ls : List PriceLevel) {l : PriceLevel} → level_at p ls ≡ some l → l.price ≡ p
unfolding level_at
level_at-price p [] e = cc
level_at-price p (k ∷ ls) {l} e = ground (arith, level_at-price p ls {l = l}, ==ℤ_iff k.price p)

pub level_at-worse :
    (s : Side) (q p : Price) (ls : List PriceLevel) {l : PriceLevel}
    → AllWorse s q ls
    → level_at p ls ≡ some l
    → worse s l.price q ≡ true
unfolding level_at
level_at-worse s q p [] a e = cc
level_at-worse s q p (k ∷ ls) {l} a e = elim (Bool-cases (k.price ==ℤ p)) [
  | inl same ↦ let eq : k ≡ l = ground (arith, e, same) in rw eq at (a.0)
  | inr other ↦ level_at-worse s q p ls {l = l} a.1 (ground (arith, e, other))
]

pub level_at-IsLevel :
    (s : Side) (p : Price) (ls : List PriceLevel) {l : PriceLevel}
    → IsLadder s ls
    → level_at p ls ≡ some l
    → IsLevel s l
unfolding level_at
level_at-IsLevel s p [] a e = cc
level_at-IsLevel s p (k ∷ ls) {l} a e = elim (Bool-cases (k.price ==ℤ p)) [
  | inl same ↦ let eq : k ≡ l = ground (arith, e, same) in subst (IsLevel s) eq a.0
  | inr other ↦ level_at-IsLevel s p ls {l = l} a.2 (ground (arith, e, other))
]
