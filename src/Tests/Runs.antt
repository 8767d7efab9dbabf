-- ===== src/Tests/Runs.antt =====
-- Books with a few orders, added, cancelled and amended (libs/algo/order_book.hpp).
use low_latency_tick_to_trad.Prelude.{◌≡◌, refl, false, [], arith, ◌==◌, ==_iff}
use low_latency_tick_to_trad.Table.{Table}
use low_latency_tick_to_trad.Book.Inv.{IsValid, Book}
use low_latency_tick_to_trad.Book.{
  modify_order, add_order, Handle, has_order, cancel_order, clear, alloc_order,
  find_or_create_level, link_order, level_at, insert_level_sorted, put_level,
}
use low_latency_tick_to_trad.Book.Queue.{where_is, entries}
use low_latency_tick_to_trad.Book.Ladder.Keys.{known}
use low_latency_tick_to_trad.Book.Adding.{add_order-Adds, Adds}
use low_latency_tick_to_trad.Types.{ask, OrderId, Price, bid}
use low_latency_tick_to_trad.Tests.Tables.{assoc_table, look_up, put_key}
use low_latency_tick_to_trad.Prelude.Int.{pos}
use low_latency_tick_to_trad.Prelude.Word.{◌==ℤ◌, ==ℤ_iff}
use low_latency_tick_to_trad.Book.Amend.{Amends, Clears, modify_order-Amends, clear-Clears}
use low_latency_tick_to_trad.Book.Cancel.{Cancels, cancel_order-Cancels}
use low_latency_tick_to_trad.Book.Placing.{resting}
use low_latency_tick_to_trad.Book.Accepts.{admits, add_order_answers}

abbrev pub T : Table OrderId Handle
T = assoc_table ◌==◌ ==_iff 8

abbrev pub L : Table Price (Unit {0})
L = assoc_table ◌==ℤ◌ ==ℤ_iff 4

abbrev pub B : Type 0
B = Book T L

abbrev pub no_orders : B
no_orders = record {
  free_orders = 8;
  free_levels = 4;
  bids = [];
  asks = [];
  order_map = [];
  bid_map = [];
  ask_map = [];
}

pub no_orders-IsValid : IsValid T L 8 4 no_orders
unfolding where_is known entries look_up
no_orders-IsValid = record {
  levels = record {
    sorted = elim [ bid ↦ tt | ask ↦ tt ];
    keys_valid = elim [ bid ↦ tt | ask ↦ tt ];
    keys = elim [ bid ↦ λ p. refl | ask ↦ λ p. refl ];
    slots = refl;
  };
  orders = record {
    distinct = elim [ bid ↦ tt | ask ↦ tt ];
    map_valid = tt;
    map_knows = elim [ bid ↦ λ i. refl | ask ↦ λ i. refl ];
    slots = refl;
  };
}

-- two asks at 100, one at 102, and a bid at 99
abbrev pub one_ask : B
one_ask = (add_order T L no_orders 1 ask (pos 100) 5).0

abbrev pub two_asks : B
two_asks = (add_order T L one_ask 2 ask (pos 100) 7).0

abbrev pub three_asks : B
three_asks = (add_order T L two_asks 3 ask (pos 102) 4).0

abbrev pub four_orders : B
four_orders = (add_order T L three_asks 4 bid (pos 99) 6).0

abbrev pub Good : B → Type 0
Good = IsValid T L 8 4

one_ask-IsValid : Good one_ask
one_ask-IsValid =
    (add_order-Adds T L 8 4 no_orders 1 ask (pos 100) 5 no_orders-IsValid (omega arith)).valid

two_asks-IsValid : Good two_asks
two_asks-IsValid =
    (add_order-Adds T L 8 4 one_ask 2 ask (pos 100) 7 one_ask-IsValid (omega arith)).valid

three_asks-IsValid : Good three_asks
three_asks-IsValid =
    (add_order-Adds T L 8 4 two_asks 3 ask (pos 102) 4 two_asks-IsValid (omega arith)).valid

pub four_orders-IsValid : Good four_orders
four_orders-IsValid =
    (add_order-Adds T L 8 4 three_asks 4 bid (pos 99) 6 three_asks-IsValid (omega arith)).valid

-- A fifth ask rests behind the first two.
add_order-Adds_example :
    Adds T L 8 4 four_orders
      (resting 5 ask (pos 100) 3)
      (add_order T L four_orders 5 ask (pos 100) 3)
add_order-Adds_example =
    add_order-Adds T L 8 4 four_orders 5 ask (pos 100) 3 four_orders-IsValid (omega arith)

-- The first ask is cancelled.
cancel_order-Cancels_example : Cancels T L 8 4 four_orders 1 (cancel_order T L four_orders 1)
cancel_order-Cancels_example = cancel_order-Cancels T L 8 4 four_orders 1 four_orders-IsValid

modify_order-Amends_example : Amends T L 8 4 four_orders 2 4 (modify_order T L four_orders 2 4)
modify_order-Amends_example = modify_order-Amends T L 8 4 four_orders 2 4 four_orders-IsValid

clear-Clears_example : Clears T L 8 4 (clear T L four_orders)
clear-Clears_example = clear-Clears T L 8 4 four_orders four_orders-IsValid

pub new_id : has_order T L four_orders 9 ≡ false
unfolding has_order add_order look_up alloc_order put_key find_or_create_level link_order level_at
    insert_level_sorted put_level
new_id = refl

add_order_answers_example :
    (add_order T L four_orders 5 ask (pos 101) 3).1 ≡ admits T L four_orders 5 ask (pos 101) 3
add_order_answers_example = add_order_answers T L four_orders 5 ask (pos 101) 3
