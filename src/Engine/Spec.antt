-- ===== src/Engine/Spec.antt =====
-- What matching means, as a reference for libs/algo/matching_engine.hpp: the incoming order trades with
-- the queue of the other side in price-time priority, one fill for each resting order that it
-- meets, until it is filled, the next order does not cross, or there is no room for a fill.
use low_latency_tick_to_trad.Prelude.{
  ℕ, zero, suc, ◌+◌, ◌-◌, ◌≤◌, ◌<◌, ◌≡◌, refl, true, false, not, ◌||◌, List, [], ◌∷◌, arith, leb,
  ◌==◌, length, Bool-cases, inl, inr, ◌++◌, ap, append_assoc,
}
use low_latency_tick_to_trad.Types.{Price, OrderId, Qty, Side}
use low_latency_tick_to_trad.Book.{Order}
use low_latency_tick_to_trad.Engine.{Fill, crosses}

pub record Crossed : Type 0 where
  pub fills : List Fill
  pub remaining : Qty
  pub resting : List Order

abbrev pub fill_of : OrderId → Order → Qty → Fill
fill_of i o q = record { maker_id = o.order_id; taker_id = i; price = o.price; qty = q }

unfoldable pub cross : OrderId → Side → Price → ℕ → Qty → List Order → Crossed
cross i s price zero r os = record { fills = []; remaining = r; resting = os }
cross i s price (suc room) r [] = record { fills = []; remaining = r; resting = [] }
cross i s price (suc room) r (o ∷ os) = elim (r == 0 || not (crosses s price o.price)) [
  | true ↦ record { fills = []; remaining = r; resting = o ∷ os }
  | false ↦ elim (leb o.qty r) [
    | true ↦
        let rest = cross i s price room (r - o.qty) os in
        record {
          fills = fill_of i o o.qty ∷ rest.fills;
          remaining = rest.remaining;
          resting = rest.resting;
        }
    | false ↦ record {
      fills = fill_of i o r ∷ [];
      remaining = 0;
      resting = record o { qty = o.qty - r } ∷ os;
    }
  ]
]

unfoldable pub traded : List Fill → ℕ
traded [] = 0
traded (f ∷ fs) = f.qty + traded fs

-- Every fill is a trade of the taker, of a positive quantity, at a price that its limit allows.
abbrev pub AllFair : OrderId → Side → Price → List Fill → Type 0
AllFair i s price [] = Unit
AllFair i s price (f ∷ fs) =
    ((f.taker_id ≡ i) × (crosses s price f.price ≡ true) × (0 < f.qty)) × AllFair i s price fs

module _ (i : OrderId) (s : Side) (price : Price) where
  pub cross_done :
      (room : ℕ) (os : List Order)
      → cross i s price room 0 os ≡ record { fills = []; remaining = 0; resting = os }
  unfolding cross
  cross_done zero os = refl
  cross_done (suc room) [] = refl
  cross_done (suc room) (o ∷ os) = refl

  -- No quantity is lost or made.
  pub cross_conserves :
      (room : ℕ) (r : Qty) (os : List Order)
      → traded (cross i s price room r os).fills + (cross i s price room r os).remaining ≡ r
  unfolding cross traded
  cross_conserves zero r os = omega arith
  cross_conserves (suc room) r [] = omega arith
  cross_conserves (suc room) r (o ∷ os) = ground (arith, cross_conserves room (r - o.qty) os)

  pub cross_room :
      (room : ℕ) (r : Qty) (os : List Order) → length (cross i s price room r os).fills ≤ room
  unfolding cross
  cross_room zero r os = omega arith
  cross_room (suc room) r [] = omega arith
  cross_room (suc room) r (o ∷ os) = ground (arith, cross_room room (r - o.qty) os)

  abbrev pub AllAlive : List Order → Type 0
  AllAlive [] = Unit
  AllAlive (o ∷ os) = (0 < o.qty) × AllAlive os

  pub cross-AllFair :
      (room : ℕ) (r : Qty) (os : List Order)
      → AllAlive os
      → AllFair i s price (cross i s price room r os).fills
  unfolding cross
  cross-AllFair zero r os a = tt
  cross-AllFair (suc room) r [] a = tt
  cross-AllFair (suc room) r (o ∷ os) a = elim (Bool-cases (r == 0)) [
    | inl z ↦ rw (z, AllFair) tt
    | inr z ↦ elim (Bool-cases (crosses s price o.price)) [
      | inr n ↦ rw (z, n, AllFair) tt
      | inl c ↦ elim (Bool-cases (leb o.qty r)) [
        | inl y ↦ rw (z, c, y, AllFair) ((refl, c, a.0), cross-AllFair room (r - o.qty) os a.1)
        | inr y ↦ rw (z, c, y, AllFair) ((refl, c, ground (arith, z)), tt)
      ]
    ]
  ]

-- Fills made before.
abbrev pub prepend : List Fill → Crossed → Crossed
prepend fs x = record x { fills = fs ++ x.fills }

pub prepend-append :
    (fs gs : List Fill) (x : Crossed) → prepend (fs ++ gs) x ≡ prepend fs (prepend gs x)
prepend-append fs gs x = ap (λ t. record x { fills = t }) (append_assoc fs gs x.fills)

module _ (i : OrderId) (s : Side) (price : Price) (room : ℕ) (r : Qty) (o : Order) (os : List Order)
    (more : (r == 0) ≡ false) (meets : crosses s price o.price ≡ true) where
  pub cross_full :
      leb o.qty r ≡ true
      → cross i s price (suc room) r (o ∷ os)
        ≡ prepend (fill_of i o o.qty ∷ []) (cross i s price room (r - o.qty) os)
  unfolding cross
  cross_full h = ground (arith, more, meets, h)

  pub cross_partial :
      leb o.qty r ≡ false
      → cross i s price (suc room) r (o ∷ os) ≡ record {
        fills = fill_of i o r ∷ [];
        remaining = 0;
        resting = record o { qty = o.qty - r } ∷ os;
      }
  unfolding cross
  cross_partial h = ground (arith, more, meets, h)

-- With no quantity, no room, no order or no crossing price there is nothing to do.
pub cross_apart :
    (i : OrderId) (s : Side) (price : Price) (room : ℕ) (r : Qty) (o : Order) (os : List Order)
    → crosses s price o.price ≡ false
    → cross i s price room r (o ∷ os) ≡ record { fills = []; remaining = r; resting = o ∷ os }
unfolding cross
cross_apart i s price zero r o os h = refl
cross_apart i s price (suc room) r o os h = ground (arith, h)

pub cross_empty :
    (i : OrderId) (s : Side) (price : Price) (room : ℕ) (r : Qty)
    → cross i s price room r [] ≡ record { fills = []; remaining = r; resting = [] }
unfolding cross
cross_empty i s price zero r = refl
cross_empty i s price (suc room) r = refl
