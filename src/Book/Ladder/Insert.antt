-- ===== src/Book/Ladder/Insert.antt =====
-- Orders that come to rest in a ladder of libs/algo/order_book.hpp, in a level that is there or in
-- a new one: the ladder stays a ladder, and its queue gains the order at its place.
use low_latency_tick_to_trad.Prelude.{
  ◌+◌, ◌≡◌, refl, sym, ◌∙◌, ap, true, false, none, some, List, [], ◌∷◌, ◌++◌, arith, append_assoc,
  Bool-cases, inl, inr,
}
use low_latency_tick_to_trad.Prelude.Word.{◌==ℤ◌, ==ℤ_refl, ==ℤ_iff}
use low_latency_tick_to_trad.Types.{Price, Side, bid, ask}
use low_latency_tick_to_trad.Book.{
  Order, PriceLevel, worse, level_at, put_level, insert_level_sorted, is_nil, queue_order,
  fresh_level,
}
use low_latency_tick_to_trad.Book.Queue.{entries, insert_entry}
use low_latency_tick_to_trad.Book.Ladder.{
  total, Rests, AllRest, IsLevel, AllWorse, IsLadder, worse_total, AllWorse-trans, level_at-price,
  level_at-worse,
}

total-append : (xs ys : List Order) → total (xs ++ ys) ≡ total xs + total ys
unfolding total
total-append [] ys = omega arith
total-append (x ∷ xs) ys = omega (arith, total-append xs ys)

AllRest-append :
    (s : Side) (p : Price) (xs : List Order) (o : Order)
    → AllRest s p xs
    → Rests s p o
    → AllRest s p (xs ++ (o ∷ []))
AllRest-append s p [] o a r = (r, tt)
AllRest-append s p (x ∷ xs) o a r = (a.0, AllRest-append s p xs o a.1 r)

is_nil-append : (xs : List Order) (o : Order) → is_nil (xs ++ (o ∷ [])) ≡ false
is_nil-append [] o = refl
is_nil-append (x ∷ xs) o = refl

-- A level with room for one more order.
pub queue_order-IsLevel :
    (s : Side) (o : Order) (l : PriceLevel)
    → IsLevel s l
    → Rests s l.price o
    → IsLevel s (queue_order o l)
unfolding total
queue_order-IsLevel s o l v r = record {
  side = v.side;
  queue = AllRest-append s l.price l.orders o v.queue r;
  nonempty = is_nil-append l.orders o;
  counted = rw total-append (omega (arith, v.counted, r.fits));
}

pub fresh-IsLevel :
    (s : Side) (o : Order) → Rests s o.price o → IsLevel s (queue_order o (fresh_level s o.price))
unfolding total
fresh-IsLevel s o r = record {
  side = refl;
  queue = (r, tt);
  nonempty = refl;
  counted = omega arith;
}

AllWorse-insert :
    (s : Side) (p : Price) (l : PriceLevel) (ls : List PriceLevel)
    → worse s l.price p ≡ true
    → AllWorse s p ls
    → AllWorse s p (insert_level_sorted s l ls)
unfolding insert_level_sorted
AllWorse-insert s p l [] w a = (w, tt)
AllWorse-insert s p l (k ∷ ls) w a = elim (Bool-cases (worse s k.price l.price)) [
  | inl e ↦ rw e (w, a)
  | inr e ↦ rw e (a.0, AllWorse-insert s p l ls w a.1)
]

pub insert-IsLadder :
    (s : Side) (l : PriceLevel) (ls : List PriceLevel)
    → IsLevel s l
    → level_at l.price ls ≡ none
    → IsLadder s ls
    → IsLadder s (insert_level_sorted s l ls)
unfolding insert_level_sorted level_at
insert-IsLadder s l [] v n a = (v, tt, tt)
insert-IsLadder s l (k ∷ ls) v n a = elim (Bool-cases (worse s k.price l.price)) [
  | inl e ↦ rw e (v, (e, AllWorse-trans s k.price l.price ls e a.1), a)
  | inr e ↦ elim (Bool-cases (k.price ==ℤ l.price)) [
    | inl same ↦ absurd (ground (arith, same, n))
    | inr other ↦ rw e (
      a.0,
      AllWorse-insert s k.price l ls (worse_total s k.price l.price e other) a.1,
      insert-IsLadder s l ls v (ground (arith, other, n)) a.2,
    )
  ]
]

-- The new level is found where it was put, and writing to it is the same as inserting it filled.
pub level_at-insert :
    (s : Side) (l : PriceLevel) (ls : List PriceLevel)
    → level_at l.price ls ≡ none
    → level_at l.price (insert_level_sorted s l ls) ≡ some l
unfolding insert_level_sorted level_at
level_at-insert s l [] n = rw (==ℤ_refl l.price)
level_at-insert s l (k ∷ ls) n = ground (arith, level_at-insert s l ls, ==ℤ_refl l.price)

pub put_level-insert :
    (s : Side) (o : Order) (l : PriceLevel) (ls : List PriceLevel)
    → level_at l.price ls ≡ none
    → put_level (queue_order o l) (insert_level_sorted s l ls)
      ≡ insert_level_sorted s (queue_order o l) ls
unfolding insert_level_sorted level_at put_level
put_level-insert s o l [] n = rw (==ℤ_refl l.price)
put_level-insert s o l (k ∷ ls) n = ground (arith, put_level-insert s o l ls, ==ℤ_refl l.price)

-- An order passes every order that is not worse.
insert_entry-append :
    (s : Side) (p : Price) (o : Order) (xs ys : List Order)
    → AllRest s p xs
    → worse s p o.price ≡ false
    → insert_entry s o (xs ++ ys) ≡ xs ++ insert_entry s o ys
unfolding insert_entry
insert_entry-append s p o [] ys a w = refl
insert_entry-append s p o (x ∷ xs) ys a w =
    let e : worse s x.price o.price ≡ false = rw (a.0.at_price) w in
    rw (e, insert_entry-append s p o xs ys a.1 w)

insert_entry-level :
    (s : Side) (o : Order) (l : PriceLevel) (ys : List Order)
    → IsLevel s l
    → worse s l.price o.price ≡ true
    → insert_entry s o (l.orders ++ ys) ≡ o ∷ (l.orders ++ ys)
unfolding insert_entry
insert_entry-level s o l ys v w = go l.orders v.queue v.nonempty
  where
    go :
        (xs : List Order)
        → AllRest s l.price xs
        → is_nil xs ≡ false
        → insert_entry s o (xs ++ ys) ≡ o ∷ (xs ++ ys)
    go [] a n = cc
    go (x ∷ xs) a n = let e : worse s x.price o.price ≡ true = rw (a.0.at_price) w in rw e

insert_entry_first :
    (s : Side) (o : Order) (ls : List PriceLevel)
    → IsLadder s ls
    → AllWorse s o.price ls
    → insert_entry s o (entries ls) ≡ o ∷ entries ls
unfolding insert_entry entries
insert_entry_first s o [] v a = refl
insert_entry_first s o (l ∷ ls) v a = insert_entry-level s o l (entries ls) v.0 a.0

-- A new level with one order puts the order behind all that are not worse.
pub entries-insert :
    (s : Side) (o : Order) (l : PriceLevel) (ls : List PriceLevel)
    → l.orders ≡ o ∷ []
    → l.price ≡ o.price
    → IsLadder s ls
    → level_at l.price ls ≡ none
    → entries (insert_level_sorted s l ls) ≡ insert_entry s o (entries ls)
unfolding insert_level_sorted entries level_at insert_entry
entries-insert s o l [] e p v n = rw e
entries-insert s o l (k ∷ ls) e p v n = elim (Bool-cases (worse s k.price l.price)) [
  | inl w ↦ rw (w, e) (sym (insert_entry-level s o k (entries ls) v.0 (rw (← p) w)))
  | inr w ↦
      rw (w, insert_entry-append s k.price o k.orders (entries ls) v.0.queue (rw (← p) w))
        (ap (λ t. k.orders ++ t) (entries-insert s o l ls e p v.2 (ground (arith, n))))
]

worse_self : (s : Side) (p : Price) → worse s p p ≡ false
worse_self bid p = ground arith
worse_self ask p = ground arith

worse_asym : (s : Side) (p q : Price) → worse s p q ≡ true → worse s q p ≡ false
worse_asym bid p q h = ground arith
worse_asym ask p q h = ground arith

-- So does queueing at the level of its price.
pub entries-queue_order :
    (s : Side) (o : Order) (l : PriceLevel) (ls : List PriceLevel)
    → IsLadder s ls
    → level_at o.price ls ≡ some l
    → entries (put_level (queue_order o l) ls) ≡ insert_entry s o (entries ls)
unfolding entries level_at put_level
entries-queue_order s o l [] v e = cc
entries-queue_order s o l (k ∷ ls) v e = elim (Bool-cases (k.price ==ℤ o.price)) [
  | inl same ↦
      let eq : k ≡ l = ground (arith, e, same) in
      rw (← eq, ==ℤ_refl k.price) (append_assoc k.orders (o ∷ []) (entries ls) ∙ sym (goal same))
  | inr other ↦
      let found : level_at o.price ls ≡ some l = ground (arith, e, other) in
      let at : l.price ≡ o.price = level_at-price o.price ls found in
      let w : worse s o.price k.price ≡ true =
        rw at at (level_at-worse s k.price o.price ls v.1 found) in
      rw
        (
          at,
          other,
          insert_entry-append s k.price o k.orders (entries ls) v.0.queue
              (worse_asym s o.price k.price w),
        )
        (ap (λ t. k.orders ++ t) (entries-queue_order s o l ls v.2 found))
]
  where
    goal :
        (k.price ==ℤ o.price) ≡ true
        → insert_entry s o (k.orders ++ entries ls) ≡ k.orders ++ (o ∷ entries ls)
    goal same =
        let p : k.price ≡ o.price = (==ℤ_iff k.price o.price).0 same in
        rw
          (insert_entry-append s k.price o k.orders (entries ls) v.0.queue
            (rw p (worse_self s o.price)))
          (ap (λ t. k.orders ++ t) (insert_entry_first s o ls v.2 (rw p at v.1)))
