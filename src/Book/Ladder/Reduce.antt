-- ===== src/Book/Ladder/Reduce.antt =====
-- A smaller quantity for an order of a ladder (libs/algo/order_book.hpp): the order keeps its place.
use low_latency_tick_to_trad.Prelude.{
  ◌+◌, ◌≤◌, ◌<◌, ◌≡◌, refl, List, ◌++◌, length, ◌-◌, arith, some, ◌∙◌, none, ◌∷◌, Option-cases,
  Bool-cases, inr, ◌==◌, ap, inl, false, [],
}
use low_latency_tick_to_trad.Types.{Price, OrderId, Qty, Side}
use low_latency_tick_to_trad.Book.{
  Order, set_qty, PriceLevel, qty_in, is_nil, level_at, put_level, Handle, reduce_in_level,
}
use low_latency_tick_to_trad.Book.Queue.{where_is, entries, Distinct}
use low_latency_tick_to_trad.Book.Ladder.{total, IsLevel, AllRest, IsLadder, level_at-price}
use low_latency_tick_to_trad.Prelude.Word.{u32, ==ℤ_refl, ◌==ℤ◌}
use low_latency_tick_to_trad.Book.Ladder.Remove.{
  qty_in-lt, where_is-first, at_own_price, where_is-later, not_at_later_price, where_is-Found,
}

pub where_is-set_qty :
    (i : OrderId) (q : Qty) (xs : List Order) (j : OrderId)
    → where_is j (set_qty i q xs) ≡ where_is j xs
unfolding where_is set_qty
where_is-set_qty i q [] j = refl
where_is-set_qty i q (x ∷ xs) j = ground (arith, where_is-set_qty i q xs j)

pub set_qty-absent :
    (i : OrderId) (q : Qty) (xs : List Order) → where_is i xs ≡ none → set_qty i q xs ≡ xs
unfolding where_is set_qty
set_qty-absent i q [] h = refl
set_qty-absent i q (x ∷ xs) h = ground (arith, h, set_qty-absent i q xs)

pub set_qty-Distinct :
    (i : OrderId) (q : Qty) (xs : List Order) → Distinct xs → Distinct (set_qty i q xs)
unfolding where_is set_qty
set_qty-Distinct i q [] d = tt
set_qty-Distinct i q (x ∷ xs) d = elim (Bool-cases (x.order_id == i)) [
  | inl e ↦ rw e d
  | inr e ↦ rw e (where_is-set_qty i q xs x.order_id ∙ d.0, set_qty-Distinct i q xs d.1)
]

pub length-set_qty : (i : OrderId) (q : Qty) (xs : List Order) → length (set_qty i q xs) ≡ length xs
unfolding set_qty
length-set_qty i q [] = refl
length-set_qty i q (x ∷ xs) = ground (arith, length-set_qty i q xs)

AllRest-set_qty :
    (s : Side) (p : Price) (i : OrderId) (q : Qty) (xs : List Order)
    → 0 < q
    → q < u32
    → AllRest s p xs
    → AllRest s p (set_qty i q xs)
unfolding set_qty
AllRest-set_qty s p i q [] lo hi a = tt
AllRest-set_qty s p i q (x ∷ xs) lo hi a = elim (Bool-cases (x.order_id == i)) [
  | inl e ↦
      rw e (record { at_price = a.0.at_price; on_side = a.0.on_side; alive = lo; fits = hi }, a.1)
  | inr e ↦ rw e (a.0, AllRest-set_qty s p i q xs lo hi a.1)
]

total-set_qty :
    (i : OrderId) (q : Qty) (xs : List Order)
    → q ≤ qty_in i xs
    → total (set_qty i q xs) + (qty_in i xs - q) ≡ total xs
unfolding total set_qty qty_in
total-set_qty i q [] h = omega arith
total-set_qty i q (x ∷ xs) h = ground (arith, total-set_qty i q xs)

is_nil-set_qty : (i : OrderId) (q : Qty) (xs : List Order) → is_nil (set_qty i q xs) ≡ is_nil xs
unfolding set_qty
is_nil-set_qty i q [] = refl
is_nil-set_qty i q (x ∷ xs) = ground arith

pub reduce-IsLevel :
    (s : Side) (i : OrderId) (q : Qty) (l : PriceLevel)
    → 0 < q
    → q ≤ qty_in i l.orders
    → IsLevel s l
    → IsLevel s (reduce_in_level i q l)
reduce-IsLevel s i q l lo le v =
    let hi = qty_in-lt s l.price i l.orders v.queue in
    record {
      side = v.side;
      queue = AllRest-set_qty s l.price i q l.orders lo (omega (arith, hi)) v.queue;
      nonempty = is_nil-set_qty i q l.orders ∙ v.nonempty;
      counted = omega (arith, v.counted, total-set_qty i q l.orders le, hi);
    }

set_qty-append :
    (i : OrderId) (q : Qty) (xs ys : List Order)
    → set_qty i q (xs ++ ys)
      ≡ elim (where_is i xs) [ none ↦ xs ++ set_qty i q ys | some _ ↦ set_qty i q xs ++ ys ]
unfolding where_is set_qty
set_qty-append i q [] ys = refl
set_qty-append i q (x ∷ xs) ys = ground (arith, set_qty-append i q xs ys)

pub entries-reduce :
    (s : Side) (i : OrderId) (q : Qty) (ls : List PriceLevel) {h : Handle} {l : PriceLevel}
    → IsLadder s ls
    → where_is i (entries ls) ≡ some h
    → level_at h.1 ls ≡ some l
    → entries (put_level (reduce_in_level i q l) ls) ≡ set_qty i q (entries ls)
unfolding entries level_at put_level
entries-reduce s i q [] v e f = cc
entries-reduce s i q (k ∷ ls) {h} {l} v e f = elim (Option-cases (where_is i k.orders)) [
  | inr (g, held) ↦
      let held' : where_is i k.orders ≡ some h = held ∙ ap some (where_is-first i k ls e held) in
      let eq : k ≡ l = ground (arith, f, (at_own_price s i k v.0 held').1) in
      rw (← eq, set_qty-append i q k.orders (entries ls), held', ==ℤ_refl k.price)
  | inl absent ↦
      let e' = where_is-later i k ls e absent in
      let apart = not_at_later_price s h.1 k ls v.1 (where_is-Found s i ls v.2 e').here in
      let f' : level_at h.1 ls ≡ some l = ground (arith, f, apart) in
      let apart' : (k.price ==ℤ l.price) ≡ false = rw (level_at-price h.1 ls f') apart in
      rw (apart', set_qty-append i q k.orders (entries ls), absent)
        (ap (λ t. k.orders ++ t) (entries-reduce s i q ls v.2 e' f'))
]
