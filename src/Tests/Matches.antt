-- ===== src/Tests/Matches.antt =====
-- Orders matched against books with a few orders (libs/algo/matching_engine.hpp).
use low_latency_tick_to_trad.Prelude.{◌+◌, ◌≤◌, ◌≡◌, refl, true, [], ◌∷◌, arith, length}
use low_latency_tick_to_trad.Tests.Runs.{
  B, Good, T, L, no_orders, four_orders, no_orders-IsValid, four_orders-IsValid, new_id,
}
use low_latency_tick_to_trad.Book.{
  remove_filled_order, unlink_order, erase_order, remove_level, erase_level, has_order, add_order,
  alloc_order, find_or_create_level, link_order, level_at, insert_level_sorted, put_level,
}
use low_latency_tick_to_trad.Engine.Modify.{Modifies, modify_order-Modifies}
use low_latency_tick_to_trad.Book.Queue.{entries}
use low_latency_tick_to_trad.Engine.Spec.{traded, AllFair}
use low_latency_tick_to_trad.Engine.Result.{Submits, submit_order-Submits}
use low_latency_tick_to_trad.Engine.Uncrossed.{Uncrossed, submit_order-Uncrossed}
use low_latency_tick_to_trad.Engine.{modify_order, match_ladder, submit_order}
use low_latency_tick_to_trad.Tests.Tables.{drop_key, look_up, put_key}
use low_latency_tick_to_trad.Types.{ask, bid}
use low_latency_tick_to_trad.Prelude.Int.{pos}
use low_latency_tick_to_trad.Engine.Outcome.{submit_order_fair}

-- A bid of 14 at 101 takes both asks at 100 and rests the remainder.
submit_order-Submits_example :
    Submits T L 8 4 8 four_orders 9 bid
      (pos 101)
      14
      (submit_order T L 8 four_orders 9 bid (pos 101) 14)
submit_order-Submits_example =
    submit_order-Submits T L 8 4 8 four_orders 9 bid (pos 101) 14 four_orders-IsValid (omega arith)
      (omega arith) new_id

submit_order_fair_example :
    (traded (submit_order T L 8 four_orders 9 bid (pos 101) 14).1.fills
        + (submit_order T L 8 four_orders 9 bid (pos 101) 14).1.remaining_qty
      ≡ 14)
    × (length (submit_order T L 8 four_orders 9 bid (pos 101) 14).1.fills ≤ 8)
    × AllFair 9 bid (pos 101) (submit_order T L 8 four_orders 9 bid (pos 101) 14).1.fills
submit_order_fair_example =
    submit_order_fair T L 8 8 4 four_orders 9 bid (pos 101) 14 four_orders-IsValid (omega arith)

abbrev quoted : B
quoted = (submit_order T L 8 no_orders 1 ask (pos 100) 5).0

pub no_orders-Uncrossed : Uncrossed T L no_orders
unfolding entries
no_orders-Uncrossed o a m n = absurd m

quoted_fine : Good quoted × Uncrossed T L quoted
quoted_fine =
    submit_order-Uncrossed T L 8 8 4 no_orders 1 ask (pos 100) 5 no_orders-IsValid
      no_orders-Uncrossed (omega arith)

submit_order-Uncrossed_example :
    Good (submit_order T L 8 quoted 2 bid (pos 101) 7).0
    × Uncrossed T L (submit_order T L 8 quoted 2 bid (pos 101) 7).0
submit_order-Uncrossed_example =
    submit_order-Uncrossed T L 8 8 4 quoted 2 bid (pos 101) 7 quoted_fine.0 quoted_fine.1
      (omega arith)

modify_order-Modifies_example :
    Modifies T L 8 4 8 quoted 1 ask (pos 99) 6 2 (modify_order T L 8 quoted 1 ask (pos 99) 6 2)
modify_order-Modifies_example =
    modify_order-Modifies T L 8 4 8 quoted 1 ask (pos 99) 6 2 quoted_fine.0 quoted_fine.1
      (omega arith)

-- A run that ends in the state expected.
matched : (submit_order T L 8 four_orders 9 bid (pos 101) 14).1 ≡ record {
  fills =
      record { maker_id = 1; taker_id = 9; price = pos 100; qty = 5 }
      ∷ record { maker_id = 2; taker_id = 9; price = pos 100; qty = 7 }
      ∷ [];
  remaining_qty = 2;
  rested = true;
}
unfolding has_order add_order look_up alloc_order put_key find_or_create_level link_order level_at
    insert_level_sorted put_level submit_order match_ladder remove_filled_order unlink_order
    erase_order remove_level erase_level drop_key
matched = refl
