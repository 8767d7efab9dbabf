-- ===== src/Book.antt =====
-- libs/algo/order_book.hpp: a single-instrument limit order book with price-time priority.
-- An `Order *` stands for the order with its id, a `PriceLevel *` for the level with its side and
-- price, and an intrusive list for the list of its elements, so the book owns its levels and a
-- level its orders. The slot pools are the numbers of slots their free stacks hold. The maps
-- are tables (`Table`): from an id to the level of its order, and from a price to a level.
pub mod Queue
pub mod Ladder
pub mod Inv
pub mod Slots
pub mod Placing
pub mod Adding
pub mod Removal
pub mod Cancel
pub mod Reduction
pub mod Amend
pub mod Accepts
use low_latency_tick_to_trad.Prelude.{
  ℕ, suc, ◌+◌, ◌-◌, ◌≡◌, Bool, true, false, Option, none, some, List, [], ◌∷◌, ◌++◌, ltb, leb, ◌==◌,
  if◌then◌else◌, length,
}
use low_latency_tick_to_trad.Prelude.Int.{ℤ, ltb_ℤ, ◌-ℤ◌}
use low_latency_tick_to_trad.Prelude.Word.{add32, sub32, ◌==ℤ◌}
use low_latency_tick_to_trad.Types.{Price, OrderId, Qty, Side, bid, ask}
use low_latency_tick_to_trad.Table.{Table}

pub record Order : Type 0 where
  pub order_id : OrderId
  pub price : Price
  pub qty : Qty
  pub side : Side

pub record PriceLevel : Type 0 where
  pub price : Price
  pub total_qty : Qty
  pub side : Side
  pub orders : List Order

-- `order->level`: the level that an order is linked into
abbrev pub Handle : Type 0
Handle = Side × Price

-- Whether a level at `p` comes after a level at `q` in the ladder of a side.
abbrev pub worse : Side → Price → Price → Bool
worse bid p q = ltb_ℤ p q
worse ask p q = ltb_ℤ q p

-- The level that a pointer names, if it is in the ladder.
unfoldable pub level_at : Price → List PriceLevel → Option PriceLevel
level_at p [] = none
level_at p (l ∷ ls) = if l.price ==ℤ p then some l else level_at p ls

-- A write through a pointer to a level.
unfoldable pub put_level : PriceLevel → List PriceLevel → List PriceLevel
put_level l [] = []
put_level l (k ∷ ls) = if k.price ==ℤ l.price then l ∷ ls else k ∷ put_level l ls

-- `ladder.erase(*level)`
unfoldable pub erase_level : Price → List PriceLevel → List PriceLevel
erase_level p [] = []
erase_level p (l ∷ ls) = if l.price ==ℤ p then ls else l ∷ erase_level p ls

-- `insert_level_sorted`: before the first level with a worse price, else at the back.
unfoldable pub insert_level_sorted : Side → PriceLevel → List PriceLevel → List PriceLevel
insert_level_sorted s l [] = l ∷ []
insert_level_sorted s l (k ∷ ls) =
    if worse s k.price l.price then l ∷ k ∷ ls else k ∷ insert_level_sorted s l ls

-- `level->orders.erase(*order)`
unfoldable pub erase_order : OrderId → List Order → List Order
erase_order i [] = []
erase_order i (o ∷ os) = if o.order_id == i then os else o ∷ erase_order i os

-- The quantity of the order that a pointer names, 0 if it is not in the queue.
unfoldable pub qty_in : OrderId → List Order → Qty
qty_in i [] = 0
qty_in i (o ∷ os) = if o.order_id == i then o.qty else qty_in i os

-- `order->qty = q`
unfoldable pub set_qty : OrderId → Qty → List Order → List Order
set_qty i q [] = []
set_qty i q (o ∷ os) = if o.order_id == i then record o { qty = q } ∷ os else o ∷ set_qty i q os

abbrev pub is_nil {ℓ} : {A : Type ℓ} → List A → Bool
is_nil [] = true
is_nil (x ∷ xs) = false

-- `level->orders.erase(*order); level->total_qty -= order->qty;`
abbrev pub take_order : OrderId → PriceLevel → PriceLevel
take_order i l = record l {
  total_qty = sub32 l.total_qty (qty_in i l.orders);
  orders = erase_order i l.orders;
}

-- `level->orders.push_back(*order); level->total_qty += qty;`
abbrev pub queue_order : Order → PriceLevel → PriceLevel
queue_order o l = record l { total_qty = add32 l.total_qty o.qty; orders = l.orders ++ (o ∷ []) }

-- `level->price = price; total_qty = 0`; a level that is taken from the pool has no orders.
abbrev pub fresh_level : Side → Price → PriceLevel
fresh_level s p = record { price = p; total_qty = 0; side = s; orders = [] }

-- `order->qty = new_qty; order->level->total_qty -= delta;`
abbrev pub reduce_in_level : OrderId → Qty → PriceLevel → PriceLevel
reduce_in_level i q l = record l {
  total_qty = sub32 l.total_qty (sub32 (qty_in i l.orders) q);
  orders = set_qty i q l.orders;
}

module _ (orders_table : Table OrderId Handle) (levels_table : Table Price (Unit {0})) where
  open orders_table use {
    Map as OrderMap, find as find_order, insert as insert_order, erase as erase_order_id,
    clear as clear_orders, size as count_orders,
  }
  open levels_table use {
    Map as LevelMap, find as find_level, insert as insert_level, erase as erase_level_price,
    clear as clear_levels,
  }

  pub record OrderBook : Type 0 where
    pub free_orders : ℕ
    pub free_levels : ℕ
    pub bids : List PriceLevel
    pub asks : List PriceLevel
    pub order_map : OrderMap
    pub bid_map : LevelMap
    pub ask_map : LevelMap

  abbrev pub ladder : OrderBook → Side → List PriceLevel
  ladder b bid = b.bids
  ladder b ask = b.asks

  abbrev pub with_ladder : OrderBook → Side → List PriceLevel → OrderBook
  with_ladder b bid ls = record b { bids = ls }
  with_ladder b ask ls = record b { asks = ls }

  abbrev pub level_map : OrderBook → Side → LevelMap
  level_map b bid = b.bid_map
  level_map b ask = b.ask_map

  abbrev pub with_level_map : OrderBook → Side → LevelMap → OrderBook
  with_level_map b bid m = record b { bid_map = m }
  with_level_map b ask m = record b { ask_map = m }

  unfoldable pub alloc_order : OrderBook → Option OrderBook
  alloc_order b =
      if b.free_orders == 0 then none else some (record b { free_orders = b.free_orders - 1 })

  abbrev pub free_order : OrderBook → OrderBook
  free_order b = record b { free_orders = b.free_orders + 1 }

  unfoldable pub alloc_level : OrderBook → Option OrderBook
  alloc_level b =
      if b.free_levels == 0 then none else some (record b { free_levels = b.free_levels - 1 })

  abbrev pub free_level : OrderBook → OrderBook
  free_level b = record b { free_levels = b.free_levels + 1 }

  unfoldable pub has_order : OrderBook → OrderId → Bool
  has_order b i = elim (find_order b.order_map i) [ none ↦ false | some _ ↦ true ]

  unfoldable pub find_or_create_level : OrderBook → Side → Price → Option OrderBook
  unfolding alloc_level
  find_or_create_level b s p = elim (find_level (level_map b s) p) [
    | some _ ↦ some b
    | none ↦ elim (alloc_level b) [
      | none ↦ none
      | some b₁ ↦ elim (insert_level (level_map b₁ s) p tt) [
        | none ↦ none
        | some m ↦ some (
            with_ladder (with_level_map b₁ s m) s
              (insert_level_sorted s (fresh_level s p) (ladder b₁ s)))
      ]
    ]
  ]

  -- the last three statements of `add_order`, through the pointer to the level
  unfoldable pub link_order : OrderBook → Order → OrderBook
  link_order b o = elim (level_at o.price (ladder b o.side)) [
    | none ↦ b
    | some l ↦ with_ladder b o.side (put_level (queue_order o l) (ladder b o.side))
  ]

  unfoldable pub add_order : OrderBook → OrderId → Side → Price → Qty → OrderBook × Bool
  add_order b i s p q =
      if q == 0 then (b, false) else if has_order b i then (b, false) else elim (alloc_order b) [
        | none ↦ (b, false)
        | some b₁ ↦ elim (insert_order b₁.order_map i (s, p)) [
          | none ↦ (free_order b₁, false)
          | some m ↦ elim (find_or_create_level (record b₁ { order_map = m }) s p) [
            | none ↦ (free_order (record b₁ { order_map = erase_order_id m i }), false)
            | some b₂ ↦
                (link_order b₂ (record { order_id = i; price = p; qty = q; side = s }), true)
          ]
        ]
      ]

  -- `ladder.erase(*level); level_map_[si].erase(level->price); free_level(level);`
  unfoldable pub remove_level : OrderBook → Side → Price → OrderBook
  remove_level b s p = free_level (
      with_level_map (with_ladder b s (erase_level p (ladder b s))) s
        (erase_level_price (level_map b s) p))

  -- Takes an order out of its level and removes a level that is left empty. The answer is whether
  -- the level was removed.
  unfoldable pub unlink_order : OrderBook → Handle → OrderId → OrderBook × Bool
  unlink_order b (s, p) i = elim (level_at p (ladder b s)) [
    | none ↦ (b, false)
    | some l ↦
        let b' = with_ladder b s (put_level (take_order i l) (ladder b s)) in
        if is_nil (erase_order i l.orders) then (remove_level b' s p, true) else (b', false)
  ]

  -- `order_map_.erase(id); free_order(order);`
  abbrev pub forget_order : OrderBook → OrderId → OrderBook
  forget_order b i = free_order (record b { order_map = erase_order_id b.order_map i })

  unfoldable pub cancel_order : OrderBook → OrderId → OrderBook × Bool
  cancel_order b i = elim (find_order b.order_map i) [
    | none ↦ (b, false)
    | some h ↦ (forget_order (unlink_order b h i).0 i, true)
  ]

  unfoldable pub modify_order : OrderBook → OrderId → Qty → OrderBook × Bool
  modify_order b i q = elim (find_order b.order_map i) [
    | none ↦ (b, false)
    | some (s, p) ↦ elim (level_at p (ladder b s)) [
      | none ↦ (b, false)
      | some l ↦
          if leb (qty_in i l.orders) q
          then (b, false)
          else if q == 0
          then (forget_order (unlink_order b (s, p) i).0 i, true)
          else (with_ladder b s (put_level (reduce_in_level i q l) (ladder b s)), true)
    ]
  ]

  -- Called for an order that is filled; the caller has already taken the fill off the quantities.
  -- The id is erased from the map before the empty level is removed.
  unfoldable pub remove_filled_order : OrderBook → Handle → OrderId → OrderBook × Bool
  remove_filled_order b h i =
      let (b', destroyed) = unlink_order b h i in (forget_order b' i, destroyed)

  -- the slots that the inner loop of `clear` returns to the pool
  unfoldable pub count_in : List PriceLevel → ℕ
  count_in [] = 0
  count_in (l ∷ ls) = length l.orders + count_in ls

  unfoldable pub clear_side : OrderBook → Side → OrderBook
  unfolding count_in
  clear_side b s = record (with_level_map (with_ladder b s []) s (clear_levels (level_map b s))) {
    free_orders = b.free_orders + count_in (ladder b s);
    free_levels = b.free_levels + length (ladder b s);
  }

  unfoldable pub clear : OrderBook → OrderBook
  unfolding clear_side
  clear b =
      let b' = clear_side (clear_side b bid) ask in
      record b' { order_map = clear_orders b'.order_map }

  unfoldable pub best_price : OrderBook → Side → Option Price
  best_price b s = elim (ladder b s) [ [] ↦ none | l ∷ ls ↦ some l.price ]

  unfoldable pub spread : OrderBook → Option Price
  unfolding best_price
  spread b = elim (best_price b bid) [
    | none ↦ none
    | some bb ↦ elim (best_price b ask) [ none ↦ none | some ba ↦ some (ba -ℤ bb) ]
  ]

  unfoldable pub volume_at_level : OrderBook → Side → Price → Qty
  volume_at_level b s p = elim (find_level (level_map b s) p) [
    | none ↦ 0
    | some _ ↦ elim (level_at p (ladder b s)) [ none ↦ 0 | some l ↦ l.total_qty ]
  ]

  unfoldable pub order_qty : OrderBook → OrderId → Qty
  order_qty b i = elim (find_order b.order_map i) [
    | none ↦ 0
    | some (s, p) ↦ elim (level_at p (ladder b s)) [ none ↦ 0 | some l ↦ qty_in i l.orders ]
  ]

  abbrev pub total_orders : OrderBook → ℕ
  total_orders b = count_orders b.order_map

  abbrev pub book_depth : OrderBook → Side → ℕ
  book_depth b s = length (ladder b s)
