-- ===== src/Book/Accepts.antt =====
-- When `add_order` of libs/algo/order_book.hpp accepts an order.
use low_latency_tick_to_trad.Prelude.{
  ℕ, ◌+◌, ◌-◌, ◌≡◌, refl, sym, ◌∙◌, ap, Bool, true, false, not, ◌&&◌, ◌||◌, Option, none, some,
  arith, ltb, ◌==◌, Bool-cases, Option-cases, inl, inr,
}
use low_latency_tick_to_trad.Table.{Table}
use low_latency_tick_to_trad.Types.{OrderId, Price, Side, Qty, bid, ask}
use low_latency_tick_to_trad.Book.{
  Handle, add_order, find_or_create_level, alloc_order, alloc_level, level_map, has_order,
  link_order,
}
use low_latency_tick_to_trad.Book.Inv.{Book}

abbrev pub is_some {ℓ} : {A : Type ℓ} → Option A → Bool
is_some none = false
is_some (some x) = true

module _ (orders_table : Table OrderId Handle) (levels_table : Table Price (Unit {0})) where
  abbrev B : Type 0
  B = Book orders_table levels_table

  -- there is a level at the price, or it can be made
  abbrev pub has_place : B → Side → Price → Bool
  has_place b s p =
      is_some (levels_table.find (level_map orders_table levels_table b s) p)
      || (ltb 0 b.free_levels
          && is_some (levels_table.insert (level_map orders_table levels_table b s) p tt))

  abbrev pub admits : B → OrderId → Side → Price → Qty → Bool
  admits b i s p q =
      ltb 0 q
      && (not (has_order orders_table levels_table b i)
          && (ltb 0 b.free_orders
              && (is_some (orders_table.insert b.order_map i (s, p)) && has_place b s p)))

  abbrev unplaced : B → ℕ → orders_table.Map → B
  unplaced b k m = record b { free_orders = k; order_map = m }

  find_or_create_level_answers :
      (b : B) (k : ℕ) (m : orders_table.Map) (s : Side) (p : Price)
      → is_some (find_or_create_level orders_table levels_table (unplaced b k m) s p)
        ≡ has_place b s p
  unfolding find_or_create_level alloc_level
  find_or_create_level_answers b k m bid p = elim (Option-cases (levels_table.find b.bid_map p)) [
    | inr (v, e) ↦ rw (e, find_or_create_level) refl
    | inl e ↦ elim (Bool-cases (b.free_levels == 0)) [
      | inl f ↦ rw (e, f, find_or_create_level) (ground (arith, f))
      | inr f ↦
          let z : ltb 0 b.free_levels ≡ true = ground (arith, f) in
          elim (Option-cases (levels_table.insert b.bid_map p tt)) [
            | inl g ↦ rw (e, f, z, g, find_or_create_level) refl
            | inr (x, g) ↦ rw (e, f, z, g, find_or_create_level) refl
          ]
    ]
  ]
  find_or_create_level_answers b k m ask p = elim (Option-cases (levels_table.find b.ask_map p)) [
    | inr (v, e) ↦ rw (e, find_or_create_level) refl
    | inl e ↦ elim (Bool-cases (b.free_levels == 0)) [
      | inl f ↦ rw (e, f, find_or_create_level) (ground (arith, f))
      | inr f ↦
          let z : ltb 0 b.free_levels ≡ true = ground (arith, f) in
          elim (Option-cases (levels_table.insert b.ask_map p tt)) [
            | inl g ↦ rw (e, f, z, g, find_or_create_level) refl
            | inr (x, g) ↦ rw (e, f, z, g, find_or_create_level) refl
          ]
    ]
  ]

  -- `add_order` answers true exactly if the quantity is positive, the id is unknown, an order slot
  -- is free, the order map takes the id, and the level exists already or a level slot is free and
  -- the level map takes the price.
  pub add_order_answers :
      (b : B) (i : OrderId) (s : Side) (p : Price) (q : Qty)
      → (add_order orders_table levels_table b i s p q).1 ≡ admits b i s p q
  unfolding add_order alloc_order
  add_order_answers b i s p q = elim (Bool-cases (q == 0)) [
    | inl z ↦ rw z (ground (arith, z))
    | inr z ↦
        let y : ltb 0 q ≡ true = ground (arith, z) in
        elim (Bool-cases (has_order orders_table levels_table b i)) [
          | inl h ↦ rw (z, y, h) refl
          | inr h ↦ elim (Bool-cases (b.free_orders == 0)) [
            | inl f ↦
                let x : ltb 0 b.free_orders ≡ false = ground (arith, f) in rw (z, y, h, f, x) refl
            | inr f ↦
                let x : ltb 0 b.free_orders ≡ true = ground (arith, f) in
                elim (Option-cases (orders_table.insert b.order_map i (s, p))) [
                  | inl e ↦ rw (z, y, h, f, x, e) refl
                  | inr (m, e) ↦ rw (z, y, h, f, x, e) (placed m)
                ]
          ]
        ]
  ]
    where
      placed :
          (m : orders_table.Map)
          → (let r : B × Bool =
                elim (find_or_create_level orders_table levels_table
                  (unplaced b (b.free_orders - 1) m)
                  s
                  p) [
                    | none ↦ (
                      record b {
                        free_orders = b.free_orders - 1 + 1;
                        order_map = orders_table.erase m i;
                      },
                      false,
                    )
                    | some c ↦ (
                      link_order orders_table levels_table c
                          (record { order_id = i; price = p; qty = q; side = s }),
                      true,
                    )
                  ] in
              r.1 ≡ has_place b s p)
      placed m =
          elim (Option-cases (
            find_or_create_level orders_table levels_table (unplaced b (b.free_orders - 1) m) s
              p)) [
                | inl e ↦
                    rw e (
                      ap is_some (sym e) ∙ find_or_create_level_answers b (b.free_orders - 1) m s p)
                | inr (c, e) ↦
                    rw e (
                      ap is_some (sym e) ∙ find_or_create_level_answers b (b.free_orders - 1) m s p)
              ]
