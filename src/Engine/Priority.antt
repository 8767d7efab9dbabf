-- ===== src/Engine/Priority.antt =====
-- Which resting orders a limit of libs/algo/matching_engine.hpp can trade with.
use low_latency_tick_to_trad.Prelude.{
  ℕ, zero, suc, ◌-◌, ◌≡◌, refl, subst, ap, true, false, List, [], ◌∷◌, ◌++◌, arith, leb, ◌==◌,
  ==_iff, Bool-cases, inl, inr, ◌⊎◌,
}
use low_latency_tick_to_trad.Types.{Price, OrderId, Qty, Side, bid, ask, opposite}
use low_latency_tick_to_trad.Book.{worse, Order, PriceLevel}
use low_latency_tick_to_trad.Engine.{crosses}
use low_latency_tick_to_trad.Engine.Spec.{cross, cross_apart, cross_full, cross_partial}
use low_latency_tick_to_trad.Book.Queue.{entries, insert_entry}
use low_latency_tick_to_trad.Book.Ladder.{AllRest, IsLadder, AllWorse}

-- The order stands in the queue.
abbrev pub In : Order → List Order → Type 0
In o [] = ⊥
In o (x ∷ xs) = (x ≡ o) ⊎ In o xs

pub In-append : (o : Order) (xs ys : List Order) → In o (xs ++ ys) → In o xs ⊎ In o ys
In-append o [] ys m = inr m
In-append o (x ∷ xs) ys (inl e) = inl (inl e)
In-append o (x ∷ xs) ys (inr m) = elim (In-append o xs ys m) [ inl a ↦ inl (inr a) | inr b ↦ inr b ]

pub In-insert_entry :
    (s : Side) (o : Order) (xs : List Order) (a : Order)
    → In a (insert_entry s o xs)
    → (o ≡ a) ⊎ In a xs
unfolding insert_entry
In-insert_entry s o [] a (inl e) = inl e
In-insert_entry s o [] a (inr m) = absurd m
In-insert_entry s o (x ∷ xs) a m = elim (Bool-cases (worse s x.price o.price)) [
  | inl w ↦ front w (rw w at m)
  | inr w ↦ behind (In-insert_entry s o xs a) (rw w at m)
]
  where
    front : worse s x.price o.price ≡ true → In a (o ∷ x ∷ xs) → (o ≡ a) ⊎ In a (x ∷ xs)
    front w (inl e) = inl e
    front w (inr n) = inr n

    behind :
        (In a (insert_entry s o xs) → (o ≡ a) ⊎ In a xs)
        → In a (x ∷ insert_entry s o xs)
        → (o ≡ a) ⊎ In a (x ∷ xs)
    behind ih (inl e) = inr (inl e)
    behind ih (inr n) = elim (ih n) [ inl e ↦ inl e | inr k ↦ inr (inr k) ]

-- The limit trades with no order of the queue.
abbrev pub CrossesNone : Side → Price → List Order → Type 0
CrossesNone s price os = (a : Order) → In a os → crosses s price a.price ≡ false

pub crosses-worse :
    (s : Side) (price p q : Price)
    → worse (opposite s) q p ≡ true
    → crosses s price p ≡ false
    → crosses s price q ≡ false
crosses-worse bid price p q w h = ground arith
crosses-worse ask price p q w h = ground arith

pub crosses_flip : (s : Side) (p q : Price) → crosses s p q ≡ crosses (opposite s) q p
crosses_flip bid p q = refl
crosses_flip ask p q = refl

level-CrossesNone :
    (s : Side) (price p : Price) (t : Side) (os : List Order)
    → AllRest t p os
    → crosses s price p ≡ false
    → CrossesNone s price os
level-CrossesNone s price p t [] r h a m = absurd m
level-CrossesNone s price p t (o ∷ os) r h a (inl e) =
    subst (λ (x : Order). crosses s price x.price ≡ false) e (rw (r.0.at_price) h)
level-CrossesNone s price p t (o ∷ os) r h a (inr m) = level-CrossesNone s price p t os r.1 h a m

worse-CrossesNone :
    (s : Side) (price p : Price) (ls : List PriceLevel)
    → IsLadder (opposite s) ls
    → AllWorse (opposite s) p ls
    → crosses s price p ≡ false
    → CrossesNone s price (entries ls)
unfolding entries
worse-CrossesNone s price p [] v w h a m = absurd m
worse-CrossesNone s price p (l ∷ ls) v w h a m = elim (In-append a l.orders (entries ls) m) [
  | inl n ↦
      level-CrossesNone s price l.price (opposite s) l.orders v.0.queue
        (crosses-worse s price p l.price w.0 h) a n
  | inr n ↦ worse-CrossesNone s price p ls v.2 w.1 h a n
]

pub front-CrossesNone :
    (s : Side) (price : Price) (l : PriceLevel) (ls : List PriceLevel)
    → IsLadder (opposite s) (l ∷ ls)
    → crosses s price l.price ≡ false
    → CrossesNone s price (entries (l ∷ ls))
unfolding entries
front-CrossesNone s price l ls v h a m = elim (In-append a l.orders (entries ls) m) [
  | inl n ↦ level-CrossesNone s price l.price (opposite s) l.orders v.0.queue h a n
  | inr n ↦ worse-CrossesNone s price l.price ls v.2 v.1 h a n
]

-- An order that is left after matching was there, perhaps with more quantity.
pub In-cross :
    (i : OrderId) (s : Side) (price : Price) (room : ℕ) (r : Qty) (os : List Order) (a : Order)
    → In a (cross i s price room r os).resting
    → (o : Order) × In o os × (o.price ≡ a.price)
unfolding cross
In-cross i s price zero r os a m = (a, m, refl)
In-cross i s price (suc room) r [] a m = (a, m, refl)
In-cross i s price (suc room) r (o ∷ os) a m = elim (Bool-cases (r == 0)) [
  | inl z ↦ (
    a,
    subst (λ (q : Qty). In a (cross i s price (suc room) q (o ∷ os)).resting) ((==_iff r 0).0 z) m,
    refl,
  )
  | inr more ↦ elim (Bool-cases (crosses s price o.price)) [
    | inr apart ↦
        (a, subst (λ x. In a x.resting) (cross_apart i s price (suc room) r o os apart) m, refl)
    | inl meets ↦ elim (Bool-cases (leb o.qty r)) [
      | inl full ↦
          let (x, y, e) =
            In-cross i s price room (r - o.qty) os a
              (subst (λ x. In a x.resting) (cross_full i s price room r o os more meets full) m) in
          (x, inr y, e)
      | inr part ↦
          reduced
            (subst (λ x. In a x.resting) (cross_partial i s price room r o os more meets part) m)
    ]
  ]
]
  where
    reduced :
        (record o { qty = o.qty - r } ≡ a) ⊎ In a os
        → (x : Order) × In x (o ∷ os) × (x.price ≡ a.price)
    reduced (inl e) = (o, inl refl, ap (λ (x : Order). x.price) e)
    reduced (inr n) = (a, inr n, refl)
