-- ===== src/Book/Inv.antt =====
-- When an order book (libs/algo/order_book.hpp) is consistent: its ladders are ladders, its maps know
-- exactly what the ladders hold, and its pools account for every slot.
use low_latency_tick_to_trad.Prelude.{
  ℕ, ◌+◌, ◌≡◌, refl, sym, subst, Bool, true, false, Option, none, some, List, length, if◌then◌else◌,
}
use low_latency_tick_to_trad.Types.{Price, OrderId, Side, bid, ask, opposite}
use low_latency_tick_to_trad.Table.{Table}
use low_latency_tick_to_trad.Book.{Order, PriceLevel, Handle, OrderBook, ladder, level_map}
use low_latency_tick_to_trad.Book.Queue.{entries, where_is, Distinct}
use low_latency_tick_to_trad.Book.Ladder.{IsLadder}
use low_latency_tick_to_trad.Book.Ladder.Keys.{known}

abbrev pub same_side : Side → Side → Bool
same_side bid bid = true
same_side ask ask = true
same_side _ _ = false

-- A handle, if it is on the side.
abbrev pub on_side : Side → Option Handle → Option Handle
on_side s none = none
on_side s (some (t, p)) = if same_side s t then some (t, p) else none

pub on_side_other : (s : Side) (p : Price) → on_side (opposite s) (some (s, p)) ≡ none
on_side_other bid p = refl
on_side_other ask p = refl

pub on_side_same : (s : Side) (p : Price) → on_side s (some (s, p)) ≡ some (s, p)
on_side_same bid p = refl
on_side_same ask p = refl

module _ (orders_table : Table OrderId Handle) (levels_table : Table Price (Unit {0})) where
  abbrev pub Book : Type 0
  Book = OrderBook orders_table levels_table

  -- the ladder of a side
  abbrev pub side_of : Book → Side → List PriceLevel
  side_of b s = ladder orders_table levels_table b s

  -- the queue of a side
  abbrev pub queue_of : Book → Side → List Order
  queue_of b s = entries (side_of b s)

  -- The levels, their maps and their pool of `max_levels` slots.
  pub record LevelsOk (max_levels : ℕ) (b : Book) : Type 0 where
    pub sorted : (s : Side) → IsLadder s (side_of b s)
    pub keys_valid : (s : Side) → levels_table.IsValid (level_map orders_table levels_table b s)
    pub keys :
        (s : Side) (p : Price)
        → levels_table.find (level_map orders_table levels_table b s) p ≡ known p (side_of b s)
    pub slots : b.free_levels + length b.bids + length b.asks ≡ max_levels

  -- The orders, their map and their pool of `max_orders` slots.
  pub record OrdersOk (max_orders : ℕ) (b : Book) : Type 0 where
    pub distinct : (s : Side) → Distinct (queue_of b s)
    pub map_valid : orders_table.IsValid b.order_map
    pub map_knows :
        (s : Side) (i : OrderId)
        → where_is i (queue_of b s) ≡ on_side s (orders_table.find b.order_map i)
    pub slots : b.free_orders + length (queue_of b bid) + length (queue_of b ask) ≡ max_orders

  pub record IsValid (max_orders max_levels : ℕ) (b : Book) : Type 0 where
    pub levels : LevelsOk max_levels b
    pub orders : OrdersOk max_orders b

  -- A step that touches the levels of one side only.
  pub record Touches (s : Side) (b c : Book) : Type 0 where
    pub others : side_of c (opposite s) ≡ side_of b (opposite s)
    pub other_map :
        level_map orders_table levels_table c (opposite s)
        ≡ level_map orders_table levels_table b (opposite s)
    pub sorted : IsLadder s (side_of c s)
    pub keys_valid : levels_table.IsValid (level_map orders_table levels_table c s)
    pub keys :
        (p : Price)
        → levels_table.find (level_map orders_table levels_table c s) p ≡ known p (side_of c s)

  pub Touches-LevelsOk :
      (max_levels : ℕ) (s : Side) (b c : Book)
      → LevelsOk max_levels b
      → Touches s b c
      → c.free_levels + length c.bids + length c.asks ≡ max_levels
      → LevelsOk max_levels c
  Touches-LevelsOk n bid b c v t e = record {
    sorted = elim [ bid ↦ t.sorted | ask ↦ subst (IsLadder ask) (sym t.others) (v.sorted ask) ];
    keys_valid = elim [
      | bid ↦ t.keys_valid
      | ask ↦ subst levels_table.IsValid (sym t.other_map) (v.keys_valid ask)
    ];
    keys = elim [ bid ↦ t.keys | ask ↦ λ p. rw (t.others, t.other_map) (v.keys ask p) ];
    slots = e;
  }
  Touches-LevelsOk n ask b c v t e = record {
    sorted = elim [ ask ↦ t.sorted | bid ↦ subst (IsLadder bid) (sym t.others) (v.sorted bid) ];
    keys_valid = elim [
      | ask ↦ t.keys_valid
      | bid ↦ subst levels_table.IsValid (sym t.other_map) (v.keys_valid bid)
    ];
    keys = elim [ ask ↦ t.keys | bid ↦ λ p. rw (t.others, t.other_map) (v.keys bid p) ];
    slots = e;
  }

  -- A step that touches the orders of one side only.
  pub record Trades (s : Side) (b c : Book) : Type 0 where
    pub others : queue_of c (opposite s) ≡ queue_of b (opposite s)
    pub distinct : Distinct (queue_of c s)
    pub map_valid : orders_table.IsValid c.order_map
    pub knows :
        (i : OrderId) → where_is i (queue_of c s) ≡ on_side s (orders_table.find c.order_map i)
    pub knows_others :
        (i : OrderId)
        → on_side (opposite s) (orders_table.find c.order_map i)
          ≡ on_side (opposite s) (orders_table.find b.order_map i)

  pub Trades-OrdersOk :
      (max_orders : ℕ) (s : Side) (b c : Book)
      → OrdersOk max_orders b
      → Trades s b c
      → c.free_orders + length (queue_of c bid) + length (queue_of c ask) ≡ max_orders
      → OrdersOk max_orders c
  Trades-OrdersOk n bid b c v t e = record {
    distinct = elim [ bid ↦ t.distinct | ask ↦ subst Distinct (sym t.others) (v.distinct ask) ];
    map_valid = t.map_valid;
    map_knows = elim [
      | bid ↦ t.knows
      | ask ↦ λ i. rw (t.others, t.knows_others i) (v.map_knows ask i)
    ];
    slots = e;
  }
  Trades-OrdersOk n ask b c v t e = record {
    distinct = elim [ ask ↦ t.distinct | bid ↦ subst Distinct (sym t.others) (v.distinct bid) ];
    map_valid = t.map_valid;
    map_knows = elim [
      | ask ↦ t.knows
      | bid ↦ λ i. rw (t.others, t.knows_others i) (v.map_knows bid i)
    ];
    slots = e;
  }
