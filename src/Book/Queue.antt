-- ===== src/Book/Queue.antt =====
-- The abstract view of one side of the book of libs/algo/order_book.hpp: the queue of its orders in
-- the order in which they trade, with the two updates that a book makes to it.
use low_latency_tick_to_trad.Prelude.{
  ◌+◌, ◌≡◌, refl, Option, none, some, List, [], ◌∷◌, ◌++◌, arith, ◌==◌, if◌then◌else◌, length,
}
use low_latency_tick_to_trad.Types.{OrderId, Side}
use low_latency_tick_to_trad.Book.{Order, PriceLevel, Handle, worse, erase_order}

-- The orders of a ladder, best level first and oldest order first.
unfoldable pub entries : List PriceLevel → List Order
entries [] = []
entries (l ∷ ls) = l.orders ++ entries ls

-- The handle of the first order with an id.
unfoldable pub where_is : OrderId → List Order → Option Handle
where_is i [] = none
where_is i (o ∷ os) = if o.order_id == i then some (o.side, o.price) else where_is i os

abbrev pub or_else {ℓ} : {A : Type ℓ} → Option A → Option A → Option A
or_else none y = y
or_else (some x) y = some x

-- Behind every order whose price is not worse: price priority, then time priority.
unfoldable pub insert_entry : Side → Order → List Order → List Order
insert_entry s o [] = o ∷ []
insert_entry s o (x ∷ xs) = if worse s x.price o.price then o ∷ x ∷ xs else x ∷ insert_entry s o xs

-- No id occurs twice.
abbrev pub Distinct : List Order → Type 0
Distinct [] = Unit
Distinct (o ∷ os) = (where_is o.order_id os ≡ none) × Distinct os

pub where_is-append :
    (i : OrderId) (xs ys : List Order)
    → where_is i (xs ++ ys) ≡ or_else (where_is i xs) (where_is i ys)
unfolding where_is
where_is-append i [] ys = refl
where_is-append i (x ∷ xs) ys = ground (arith, where_is-append i xs ys)

pub where_is-insert_entry :
    (s : Side) (o : Order) (xs : List Order) (j : OrderId)
    → where_is o.order_id xs ≡ none
    → where_is j (insert_entry s o xs)
      ≡ (if j == o.order_id then some (o.side, o.price) else where_is j xs)
unfolding where_is insert_entry
where_is-insert_entry s o [] j h = ground arith
where_is-insert_entry s o (x ∷ xs) j h = ground (arith, where_is-insert_entry s o xs j)

pub where_is-erase_order :
    (i : OrderId) (xs : List Order) (j : OrderId)
    → Distinct xs
    → where_is j (erase_order i xs) ≡ (if j == i then none else where_is j xs)
unfolding where_is erase_order
where_is-erase_order i [] j d = ground arith
where_is-erase_order i (x ∷ xs) j d = ground (arith, where_is-erase_order i xs j d.1)

pub insert_entry-Distinct :
    (s : Side) (o : Order) (xs : List Order)
    → where_is o.order_id xs ≡ none
    → Distinct xs
    → Distinct (insert_entry s o xs)
unfolding where_is insert_entry
insert_entry-Distinct s o [] h d = (refl, tt)
insert_entry-Distinct s o (x ∷ xs) h d =
    ground (arith, insert_entry-Distinct s o xs, where_is-insert_entry s o xs x.order_id)

pub erase_order-Distinct :
    (i : OrderId) (xs : List Order) → Distinct xs → Distinct (erase_order i xs)
unfolding where_is erase_order
erase_order-Distinct i [] d = tt
erase_order-Distinct i (x ∷ xs) d =
    ground (arith, erase_order-Distinct i xs d.1, where_is-erase_order i xs x.order_id d.1)

-- An order that the first list holds is erased there, any other from the second.
pub erase_order-append :
    (i : OrderId) (xs ys : List Order)
    → erase_order i (xs ++ ys)
      ≡ elim (where_is i xs) [ none ↦ xs ++ erase_order i ys | some _ ↦ erase_order i xs ++ ys ]
unfolding where_is erase_order
erase_order-append i [] ys = refl
erase_order-append i (x ∷ xs) ys = ground (arith, erase_order-append i xs ys)

pub erase_order-absent :
    (i : OrderId) (xs : List Order) → where_is i xs ≡ none → erase_order i xs ≡ xs
unfolding where_is erase_order
erase_order-absent i [] h = refl
erase_order-absent i (x ∷ xs) h = ground (arith, erase_order-absent i xs)

pub length-erase_order :
    (i : OrderId) (xs : List Order) {h : Handle}
    → where_is i xs ≡ some h
    → length (erase_order i xs) + 1 ≡ length xs
unfolding where_is erase_order
length-erase_order i [] {h} e = ground arith
length-erase_order i (x ∷ xs) {h} e = ground (arith, length-erase_order i xs {h = h})

pub length-insert_entry :
    (s : Side) (o : Order) (xs : List Order) → length (insert_entry s o xs) ≡ length xs + 1
unfolding insert_entry
length-insert_entry s o [] = omega arith
length-insert_entry s o (x ∷ xs) = ground (arith, length-insert_entry s o xs)
