-- ===== src/Orders/Positions.antt =====
-- Positions and the fills of an order (apps/tick_to_trade/order_manager.hpp).
use low_latency_tick_to_trad.Prelude.{
  ℕ, ◌+◌, ◌-◌, ◌≤◌, ◌<◌, ◌≡◌, refl, ◌∙◌, true, false, some, List, [], ◌∷◌, arith, ltb, ◌==◌, ==_iff,
}
use low_latency_tick_to_trad.Types.{Side, Qty, bid, ask}
use low_latency_tick_to_trad.Protocol.{FillReport}
use low_latency_tick_to_trad.Orders.{Services, Limits, Manager, OrderInfo}
use low_latency_tick_to_trad.Prelude.Int.{int_laws, ℤ, pos, ◌+ℤ◌, ◌-ℤ◌}
use low_latency_tick_to_trad.Orders.Responses.{on_fill, move_position, filled_position}
use low_latency_tick_to_trad.Prelude.Word.{u32, sub32}

-- The quantity that the fills trade.
unfoldable pub filled_qty : List FillReport → ℕ
filled_qty [] = 0
filled_qty (f ∷ fs) = f.fill_qty + filled_qty fs

-- Every fill is of the order and leaves a quantity open.
abbrev pub AllPartial : ℕ → List FillReport → Type 0
AllPartial id [] = Unit
AllPartial id (f ∷ fs) = ((f.client_order_id ≡ id) × (0 < f.remaining_qty)) × AllPartial id fs

module _ (sv : Services) (lim : Limits) where
  abbrev M : Type 0
  M = Manager sv

  -- The manager after the fills, in order.
  unfoldable pub fill_all : List FillReport → M → M
  fill_all [] m = m
  fill_all (f ∷ fs) m = fill_all fs (on_fill sv lim m f)

  -- A partial fill of a known order of a symbol in range.
  record Moves (m : M) (info : OrderInfo) (q : Qty) (r : M) : Type 0 where
    known : r.outstanding ≡ m.outstanding
    position :
        r.net_position (info.symbol_id - 1)
        ≡ filled_position sv lim info.side (m.net_position (info.symbol_id - 1)) q
    others : (i : ℕ) → (i == info.symbol_id - 1) ≡ false → r.net_position i ≡ m.net_position i

  on_fill-Moves :
      (m : M) (f : FillReport) (info : OrderInfo)
      → sv.table.find m.outstanding f.client_order_id ≡ some info
      → 0 < info.symbol_id
      → info.symbol_id ≤ lim.max_symbols
      → info.symbol_id < u32
      → 0 < f.remaining_qty
      → Moves m info f.fill_qty (on_fill sv lim m f)
  unfolding on_fill move_position
  on_fill-Moves m f info e lo hi fits left =
      let z : (f.remaining_qty == 0) ≡ false = ground (arith, left) in
      let s : sub32 info.symbol_id 1 ≡ info.symbol_id - 1 = omega (arith, lo, fits) in
      let w : ltb (info.symbol_id - 1) lim.max_symbols ≡ true = ground (arith, lo, hi) in
      rw (z, e, move_position, s, w)
        (record {
          known = refl;
          position = rw ((==_iff (info.symbol_id - 1) (info.symbol_id - 1)).1 refl);
          others = λ i h. rw h;
        })

  -- The first fill's quantity and that of the others make the sum, in the direction of the side.
  bought :
      (s : Side) (p a r : ℤ) (n k : Qty)
      → a ≡ filled_position sv lim s p n
      → (s ≡ bid → r ≡ a +ℤ pos k)
      → s ≡ bid
      → r ≡ p +ℤ pos (n + k)
  unfolding filled_position
  bought bid p a r n k e f h =
      let g = f h in let start : a ≡ p +ℤ pos n = e in g ∙ rw start (omega int_laws)
  bought ask p a r n k e f h = absurd (cc h)

  sold :
      (s : Side) (p a r : ℤ) (n k : Qty)
      → a ≡ filled_position sv lim s p n
      → (s ≡ ask → r ≡ a -ℤ pos k)
      → s ≡ ask
      → r ≡ p -ℤ pos (n + k)
  unfolding filled_position
  sold bid p a r n k e f h = absurd (cc h)
  sold ask p a r n k e f h =
      let g = f h in let start : a ≡ p -ℤ pos n = e in g ∙ rw start (omega int_laws)

  -- A sequence of partial fills of an outstanding order of a symbol in range moves that symbol's
  -- position by the sum of their quantities, up for a bid and down for an ask, and no other
  -- symbol's position.
  pub fills_accumulate :
      (m : M) (id : ℕ) (info : OrderInfo) (fs : List FillReport)
      → sv.table.find m.outstanding id ≡ some info
      → 0 < info.symbol_id
      → info.symbol_id ≤ lim.max_symbols
      → info.symbol_id < u32
      → AllPartial id fs
      → (info.side ≡ bid
          → (fill_all fs m).net_position (info.symbol_id - 1)
            ≡ m.net_position (info.symbol_id - 1) +ℤ pos (filled_qty fs))
        × (info.side ≡ ask
            → (fill_all fs m).net_position (info.symbol_id - 1)
              ≡ m.net_position (info.symbol_id - 1) -ℤ pos (filled_qty fs))
        × ((i : ℕ)
            → (i == info.symbol_id - 1) ≡ false
            → (fill_all fs m).net_position i ≡ m.net_position i)
  unfolding fill_all filled_qty
  fills_accumulate m id info [] e lo hi fits a = (
    λ h. (let p = m.net_position (info.symbol_id - 1) in omega int_laws),
    λ h. (let p = m.net_position (info.symbol_id - 1) in omega int_laws),
    λ i h. refl,
  )
  fills_accumulate m id info (f ∷ fs) e lo hi fits a =
      let v = on_fill-Moves m f info (rw (a.0.0) e) lo hi fits a.0.1 in
      let r = fills_accumulate (on_fill sv lim m f) id info fs (rw v.known e) lo hi fits a.1 in
      (
        bought info.side _ _ _ f.fill_qty (filled_qty fs) v.position r.0,
        sold info.side _ _ _ f.fill_qty (filled_qty fs) v.position r.1,
        λ i h. r.2 i h ∙ v.others i h,
      )
