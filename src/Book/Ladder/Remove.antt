-- ===== src/Book/Ladder/Remove.antt =====
-- Orders that leave a ladder of libs/algo/order_book.hpp, with their level when it is left empty: the
-- ladder stays a ladder, and its queue loses the order.
use low_latency_tick_to_trad.Prelude.{
  ◌+◌, ◌<◌, ◌≡◌, refl, ◌∙◌, ap, true, false, none, some, List, [], ◌∷◌, ◌++◌, arith, ◌==◌,
  if◌then◌else◌, Bool-cases, Option-cases, inl, inr,
}
use low_latency_tick_to_trad.Prelude.Word.{u32, sub32, ◌==ℤ◌, ==ℤ_refl}
use low_latency_tick_to_trad.Types.{Price, OrderId, Side}
use low_latency_tick_to_trad.Book.{
  Order, PriceLevel, Handle, level_at, put_level, erase_level, erase_order, qty_in, is_nil,
  take_order,
}
use low_latency_tick_to_trad.Book.Queue.{entries, where_is, erase_order-append, where_is-append}
use low_latency_tick_to_trad.Book.Ladder.{
  total, AllRest, IsLevel, AllWorse, IsLadder, worse_irrefl, put_level-IsLadder,
  erase_level-IsLadder, level_at-price, level_at-worse, level_at-IsLevel,
}

AllRest-erase_order :
    (s : Side) (p : Price) (i : OrderId) (xs : List Order)
    → AllRest s p xs
    → AllRest s p (erase_order i xs)
unfolding erase_order
AllRest-erase_order s p i [] a = tt
AllRest-erase_order s p i (x ∷ xs) a = elim (Bool-cases (x.order_id == i)) [
  | inl e ↦ rw e a.1
  | inr e ↦ rw e (a.0, AllRest-erase_order s p i xs a.1)
]

total-erase_order :
    (i : OrderId) (xs : List Order) → total (erase_order i xs) + qty_in i xs ≡ total xs
unfolding total erase_order qty_in
total-erase_order i [] = omega arith
total-erase_order i (x ∷ xs) = ground (arith, total-erase_order i xs)

pub qty_in-lt :
    (s : Side) (p : Price) (i : OrderId) (xs : List Order) → AllRest s p xs → qty_in i xs < u32
unfolding qty_in
qty_in-lt s p i [] a = omega arith
qty_in-lt s p i (x ∷ xs) a = ground (arith, a.0.fits, qty_in-lt s p i xs a.1)

-- A level that is left with an order.
pub take_order-IsLevel :
    (s : Side) (i : OrderId) (l : PriceLevel)
    → IsLevel s l
    → is_nil (erase_order i l.orders) ≡ false
    → IsLevel s (take_order i l)
take_order-IsLevel s i l v n = record {
  side = v.side;
  queue = AllRest-erase_order s l.price i l.orders v.queue;
  nonempty = n;
  counted =
      omega
        (arith, v.counted, total-erase_order i l.orders, qty_in-lt s l.price i l.orders v.queue);
}

-- Erasing a level forgets what was written to it.
pub erase_level-put_level :
    (l : PriceLevel) (ls : List PriceLevel)
    → erase_level l.price (put_level l ls) ≡ erase_level l.price ls
unfolding erase_level put_level
erase_level-put_level l [] = refl
erase_level-put_level l (k ∷ ls) = ground (arith, erase_level-put_level l ls, ==ℤ_refl l.price)

-- The ladder after `unlink_order`.
abbrev pub unlinked : OrderId → PriceLevel → List PriceLevel → List PriceLevel
unlinked i l ls =
    if is_nil (erase_order i l.orders)
    then erase_level l.price ls
    else put_level (take_order i l) ls

pub unlinked-IsLadder :
    (s : Side) (i : OrderId) (p : Price) (l : PriceLevel) (ls : List PriceLevel)
    → IsLadder s ls
    → level_at p ls ≡ some l
    → IsLadder s (unlinked i l ls)
unlinked-IsLadder s i p l ls v e = elim (Bool-cases (is_nil (erase_order i l.orders))) [
  | inl n ↦ rw n (erase_level-IsLadder s l.price ls v)
  | inr n ↦ rw n (
      put_level-IsLadder s (take_order i l) ls
        (take_order-IsLevel s i l (level_at-IsLevel s p ls v e) n) v)
]

nil_of_is_nil : {A : Type 0} (xs : List A) → is_nil xs ≡ true → xs ≡ []
nil_of_is_nil [] h = refl
nil_of_is_nil (x ∷ xs) h = cc

-- The order's level is the one at its price; there the order is erased from the queue.
where_is-price :
    (s : Side) (p : Price) (i : OrderId) (xs : List Order) {h : Handle}
    → AllRest s p xs
    → where_is i xs ≡ some h
    → h ≡ (s, p)
unfolding where_is
where_is-price s p i [] a e = cc
where_is-price s p i (x ∷ xs) {h} a e = elim (Bool-cases (x.order_id == i)) [
  | inl same ↦ ground (arith, e, same, a.0.at_price, a.0.on_side)
  | inr other ↦ where_is-price s p i xs {h = h} a.1 (ground (arith, e, other))
]

-- What the handle of an order leads to.
pub record Found (s : Side) (i : OrderId) (h : Handle) (ls : List PriceLevel) : Type 0 where
  pub level : PriceLevel
  pub side_eq : h.0 ≡ s
  pub here : level_at h.1 ls ≡ some level
  pub held : where_is i level.orders ≡ some h

-- An order of the first level, or of a later one.
pub where_is-first :
    (i : OrderId) (l : PriceLevel) (ls : List PriceLevel) {h g : Handle}
    → where_is i (entries (l ∷ ls)) ≡ some h
    → where_is i l.orders ≡ some g
    → g ≡ h
unfolding entries
where_is-first i l ls {h} {g} e held = ground (arith, where_is-append i l.orders (entries ls))

pub where_is-later :
    (i : OrderId) (l : PriceLevel) (ls : List PriceLevel) {h : Handle}
    → where_is i (entries (l ∷ ls)) ≡ some h
    → where_is i l.orders ≡ none
    → where_is i (entries ls) ≡ some h
unfolding entries
where_is-later i l ls {h} e absent = ground (arith, where_is-append i l.orders (entries ls))

pub at_own_price :
    (s : Side) (i : OrderId) (l : PriceLevel) {h : Handle}
    → IsLevel s l
    → where_is i l.orders ≡ some h
    → (h.0 ≡ s) × ((l.price ==ℤ h.1) ≡ true)
at_own_price s i l {h} v held =
    let e : h ≡ (s, l.price) = where_is-price s l.price i l.orders v.queue held in
    (ap (λ (g : Handle). g.0) e, rw e (==ℤ_refl l.price))

pub not_at_later_price :
    (s : Side) (p : Price) (l : PriceLevel) (ls : List PriceLevel) {k : PriceLevel}
    → AllWorse s l.price ls
    → level_at p ls ≡ some k
    → (l.price ==ℤ p) ≡ false
not_at_later_price s p l ls {k} a e =
    rw (← level_at-price p ls e)
      (worse_irrefl s k.price l.price (level_at-worse s l.price p ls a e))

pub where_is-Found :
    (s : Side) (i : OrderId) (ls : List PriceLevel) {h : Handle}
    → IsLadder s ls
    → where_is i (entries ls) ≡ some h
    → Found s i h ls
unfolding level_at
where_is-Found s i [] v e = unfold where_is entries in cc
where_is-Found s i (l ∷ ls) {h} v e = elim (Option-cases (where_is i l.orders)) [
  | inr (g, held) ↦
      let held' : where_is i l.orders ≡ some h = held ∙ ap some (where_is-first i l ls e held) in
      let own = at_own_price s i l v.0 held' in
      record { level = l; side_eq = own.0; here = rw own.1; held = held' }
  | inl absent ↦
      let f = where_is-Found s i ls v.2 (where_is-later i l ls e absent) in
      record {
        level = f.level;
        side_eq = f.side_eq;
        here = rw (not_at_later_price s h.1 l ls v.1 f.here) f.here;
        held = f.held;
      }
]

-- Unlinking an order takes it out of the queue, and nothing else.
pub entries-unlinked :
    (s : Side) (i : OrderId) (ls : List PriceLevel) {h : Handle} {l : PriceLevel}
    → IsLadder s ls
    → where_is i (entries ls) ≡ some h
    → level_at h.1 ls ≡ some l
    → entries (unlinked i l ls) ≡ erase_order i (entries ls)
unfolding entries level_at erase_level put_level
entries-unlinked s i [] v e f = cc
entries-unlinked s i (k ∷ ls) {h} {l} v e f = elim (Option-cases (where_is i k.orders)) [
  | inr (g, held) ↦
      let held' : where_is i k.orders ≡ some h = held ∙ ap some (where_is-first i k ls e held) in
      let eq : k ≡ l = ground (arith, f, (at_own_price s i k v.0 held').1) in
      rw (← eq, erase_order-append i k.orders (entries ls), held', ==ℤ_refl k.price)
        (first (erase_order i k.orders))
  | inl absent ↦
      let e' = where_is-later i k ls e absent in
      let apart = not_at_later_price s h.1 k ls v.1 (where_is-Found s i ls v.2 e').here in
      let f' : level_at h.1 ls ≡ some l = ground (arith, f, apart) in
      rw
        (
          skip (rw (level_at-price h.1 ls f') apart),
          erase_order-append i k.orders (entries ls),
          absent,
        )
        (ap (λ t. k.orders ++ t) (entries-unlinked s i ls v.2 e' f'))
]
  where
    first :
        (xs : List Order)
        → entries (
            if is_nil xs
            then ls
            else record k { total_qty = sub32 k.total_qty (qty_in i k.orders); orders = xs } ∷ ls)
          ≡ xs ++ entries ls
    first [] = refl
    first (x ∷ xs) = refl

    skip : (k.price ==ℤ l.price) ≡ false → unlinked i l (k ∷ ls) ≡ k ∷ unlinked i l ls
    skip apart = elim (Bool-cases (is_nil (erase_order i l.orders))) [
      | inl n ↦ rw (n, apart)
      | inr n ↦ rw (n, apart)
    ]
