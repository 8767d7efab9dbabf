-- ===== src/Book/Placing.antt =====
-- `find_or_create_level` of libs/algo/order_book.hpp and the linking of an order into the level.
use low_latency_tick_to_trad.Prelude.{
  ℕ, ◌-◌, ◌≡◌, refl, sym, ◌∙◌, ap, true, false, none, some, List, arith, ◌==◌, Bool-cases,
  Option-cases, inl, inr, ◌⊎◌,
}
use low_latency_tick_to_trad.Prelude.Word.{◌==ℤ◌, ==ℤ_iff}
use low_latency_tick_to_trad.Types.{Price, OrderId, Qty, Side, bid, ask, opposite}
use low_latency_tick_to_trad.Table.{Table}
use low_latency_tick_to_trad.Book.{
  Order, PriceLevel, Handle, level_map, with_ladder, with_level_map, level_at, put_level,
  insert_level_sorted, fresh_level, queue_order, find_or_create_level, link_order,
}
use low_latency_tick_to_trad.Book.Queue.{entries, insert_entry}
use low_latency_tick_to_trad.Book.Ladder.{
  IsLadder, Rests, put_level-IsLadder, level_at-IsLevel, level_at-price,
}
use low_latency_tick_to_trad.Book.Ladder.Insert.{
  queue_order-IsLevel, fresh-IsLevel, insert-IsLadder, level_at-insert, put_level-insert,
  entries-insert, entries-queue_order,
}
use low_latency_tick_to_trad.Book.Ladder.Keys.{
  known, known-level_at, known-some, known-insert, known-put_level, length-insert_level,
  length-put_level,
}
use low_latency_tick_to_trad.Book.Inv.{Book, side_of, LevelsOk}
use low_latency_tick_to_trad.Book.Inv.{Touches-LevelsOk}
use low_latency_tick_to_trad.Prelude.{subst}

-- A ladder in which an order was queued at its price.
pub record Queued (s : Side) (o : Order) (old new : List PriceLevel) : Type 0 where
  pub sorted : IsLadder s new
  pub queue : entries new ≡ insert_entry s o (entries old)

old-Queued :
    (s : Side) (o : Order) (l : PriceLevel) (ls : List PriceLevel)
    → IsLadder s ls
    → level_at o.price ls ≡ some l
    → Rests s o.price o
    → Queued s o ls (put_level (queue_order o l) ls)
old-Queued s o l ls v e r =
    let p = level_at-price o.price ls e in
    record {
      sorted =
          put_level-IsLadder s (queue_order o l) ls
            (queue_order-IsLevel s o l (level_at-IsLevel s o.price ls v e) (rw p r)) v;
      queue = entries-queue_order s o l ls v e;
    }

new-Queued :
    (s : Side) (o : Order) (ls : List PriceLevel)
    → IsLadder s ls
    → level_at o.price ls ≡ none
    → Rests s o.price o
    → Queued s o ls (insert_level_sorted s (queue_order o (fresh_level s o.price)) ls)
new-Queued s o ls v n r = record {
  sorted = insert-IsLadder s (queue_order o (fresh_level s o.price)) ls (fresh-IsLevel s o r) n v;
  queue = entries-insert s o (queue_order o (fresh_level s o.price)) ls refl refl v n;
}

abbrev pub resting : OrderId → Side → Price → Qty → Order
resting i s p q = record { order_id = i; price = p; qty = q; side = s }

module _ (orders_table : Table OrderId Handle) (levels_table : Table Price (Unit {0})) where
  abbrev B : Type 0
  B = Book orders_table levels_table

  abbrev ladder_of : B → Side → List PriceLevel
  ladder_of = side_of orders_table levels_table

  abbrev with_side : B → Side → List PriceLevel → B
  with_side = with_ladder orders_table levels_table

  -- What linking an order into its level does to a book.
  pub record Links (max_levels : ℕ) (o : Order) (b c : B) : Type 0 where
    pub levels : LevelsOk orders_table levels_table max_levels c
    pub queue : entries (ladder_of c o.side) ≡ insert_entry o.side o (entries (ladder_of b o.side))
    pub others : ladder_of c (opposite o.side) ≡ ladder_of b (opposite o.side)
    pub map_same : c.order_map ≡ b.order_map
    pub slots_same : c.free_orders ≡ b.free_orders

  -- the level was there
  queue_old :
      (max_levels : ℕ) (b : B) (i : OrderId) (s : Side) (p : Price) (q : Qty) (l : PriceLevel)
      → LevelsOk orders_table levels_table max_levels b
      → Rests s p (resting i s p q)
      → level_at p (ladder_of b s) ≡ some l
      → Links max_levels
          (resting i s p q)
          b
          (with_side b s (put_level (queue_order (resting i s p q) l) (ladder_of b s)))
  queue_old n b i bid p q l v r e =
      let o = resting i bid p q in
      let t = old-Queued bid o l b.bids (v.sorted bid) e r in
      record {
        levels =
            Touches-LevelsOk orders_table levels_table n bid b _ v
              (record {
                others = refl;
                other_map = refl;
                sorted = t.sorted;
                keys_valid = v.keys_valid bid;
                keys = λ x. v.keys bid x ∙ sym (known-put_level (queue_order o l) b.bids x);
              })
              (rw length-put_level v.slots);
        queue = t.queue;
        others = refl;
        map_same = refl;
        slots_same = refl;
      }
  queue_old n b i ask p q l v r e =
      let o = resting i ask p q in
      let t = old-Queued ask o l b.asks (v.sorted ask) e r in
      record {
        levels =
            Touches-LevelsOk orders_table levels_table n ask b _ v
              (record {
                others = refl;
                other_map = refl;
                sorted = t.sorted;
                keys_valid = v.keys_valid ask;
                keys = λ x. v.keys ask x ∙ sym (known-put_level (queue_order o l) b.asks x);
              })
              (rw length-put_level v.slots);
        queue = t.queue;
        others = refl;
        map_same = refl;
        slots_same = refl;
      }

  pub level_same : (j k : Price) → levels_table.same j k ≡ (k ==ℤ j)
  level_same j k = elim (Bool-cases (k ==ℤ j)) [
    | inl e ↦ rw e ((levels_table.same_iff j k).1 (sym ((==ℤ_iff k j).0 e)))
    | inr n ↦ rw n (apart (Bool-cases (levels_table.same j k)) n)
  ]
    where
      apart :
          ((levels_table.same j k ≡ true) ⊎ (levels_table.same j k ≡ false))
          → (k ==ℤ j) ≡ false
          → levels_table.same j k ≡ false
      apart (inr e) n = e
      apart (inl e) n = absurd (cc ((==ℤ_iff k j).1 (sym ((levels_table.same_iff j k).0 e))))

  -- A level map that learns a price knows the ladder that gains a level there.
  learnt :
      (s : Side) (ls : List PriceLevel) (l : PriceLevel) {m n : levels_table.Map}
      → levels_table.IsValid m
      → ((p : Price) → levels_table.find m p ≡ known p ls)
      → levels_table.insert m l.price tt ≡ some n
      → (p : Price) → levels_table.find n p ≡ known p (insert_level_sorted s l ls)
  learnt s ls l {m} {n} v k e p = rw (
    levels_table.find-insert m l.price tt p v e,
    known-insert s l ls p,
    level_same p l.price,
    k p,
  )

  -- The level is new: the insertion and the write through the pointer to it are one insertion.
  queue_new :
      (max_levels : ℕ) (b : B) (i : OrderId) (s : Side) (p : Price) (q : Qty) (m : levels_table.Map)
      → LevelsOk orders_table levels_table max_levels b
      → Rests s p (resting i s p q)
      → level_at p (ladder_of b s) ≡ none
      → (b.free_levels ≡ 0 → ⊥)
      → levels_table.insert (level_map orders_table levels_table b s) p tt ≡ some m
      → Links max_levels
          (resting i s p q)
          b
          (record (with_side (with_level_map orders_table levels_table b s m) s (
            insert_level_sorted s
              (queue_order (resting i s p q) (fresh_level s p))
              (ladder_of b s))) { free_levels = b.free_levels - 1 })
  queue_new n b i bid p q m v r e free ins =
      let o = resting i bid p q in
      let t = new-Queued bid o b.bids (v.sorted bid) e r in
      record {
        levels =
            Touches-LevelsOk orders_table levels_table n bid b _ v
              (record {
                others = refl;
                other_map = refl;
                sorted = t.sorted;
                keys_valid = levels_table.insert-IsValid b.bid_map p tt (v.keys_valid bid) ins;
                keys =
                    learnt bid b.bids (queue_order o (fresh_level bid p)) (v.keys_valid bid)
                      (v.keys bid) ins;
              })
              (rw length-insert_level (omega (arith, v.slots)));
        queue = t.queue;
        others = refl;
        map_same = refl;
        slots_same = refl;
      }
  queue_new n b i ask p q m v r e free ins =
      let o = resting i ask p q in
      let t = new-Queued ask o b.asks (v.sorted ask) e r in
      record {
        levels =
            Touches-LevelsOk orders_table levels_table n ask b _ v
              (record {
                others = refl;
                other_map = refl;
                sorted = t.sorted;
                keys_valid = levels_table.insert-IsValid b.ask_map p tt (v.keys_valid ask) ins;
                keys =
                    learnt ask b.asks (queue_order o (fresh_level ask p)) (v.keys_valid ask)
                      (v.keys ask) ins;
              })
              (rw length-insert_level (omega (arith, v.slots)));
        queue = t.queue;
        others = refl;
        map_same = refl;
        slots_same = refl;
      }

  -- The book in which `find_or_create_level` has put a new level.
  abbrev with_new_level : B → Side → Price → levels_table.Map → B
  with_new_level b s p m =
      record (with_side (with_level_map orders_table levels_table b s m) s
        (insert_level_sorted s (fresh_level s p) (ladder_of b s))) {
          free_levels = b.free_levels - 1;
        }

  link_old :
      (b : B) (i : OrderId) (s : Side) (p : Price) (q : Qty) (l : PriceLevel)
      → level_at p (ladder_of b s) ≡ some l
      → link_order orders_table levels_table b (resting i s p q)
        ≡ with_side b s (put_level (queue_order (resting i s p q) l) (ladder_of b s))
  unfolding link_order level_at put_level
  link_old b i s p q l e = rw e

  link_new :
      (b : B) (i : OrderId) (s : Side) (p : Price) (q : Qty) (m : levels_table.Map)
      → level_at p (ladder_of b s) ≡ none
      → link_order orders_table levels_table (with_new_level b s p m) (resting i s p q)
        ≡ record (with_side (with_level_map orders_table levels_table b s m) s (
            insert_level_sorted s
              (queue_order (resting i s p q) (fresh_level s p))
              (ladder_of b s))) { free_levels = b.free_levels - 1 }
  link_new b i bid p q m e =
      link_old (with_new_level b bid p m) i bid p q (fresh_level bid p)
        (level_at-insert bid (fresh_level bid p) b.bids e)
      ∙ ap (λ ls. record b { free_levels = b.free_levels - 1; bids = ls; bid_map = m })
          (put_level-insert bid (resting i bid p q) (fresh_level bid p) b.bids e)
  link_new b i ask p q m e =
      link_old (with_new_level b ask p m) i ask p q (fresh_level ask p)
        (level_at-insert ask (fresh_level ask p) b.asks e)
      ∙ ap (λ ls. record b { free_levels = b.free_levels - 1; asks = ls; ask_map = m })
          (put_level-insert ask (resting i ask p q) (fresh_level ask p) b.asks e)

  -- How `find_or_create_level` gets its level.
  data Gets (b : B) (s : Side) (p : Price) : B → Type 0 where
    there :
        (u : Unit {0})
        → levels_table.find (level_map orders_table levels_table b s) p ≡ some u
        → Gets b s p b
    made :
        (m : levels_table.Map)
        → levels_table.find (level_map orders_table levels_table b s) p ≡ none
        → (b.free_levels ≡ 0 → ⊥)
        → levels_table.insert (level_map orders_table levels_table b s) p tt ≡ some m
        → Gets b s p (with_new_level b s p m)

  -- the record that the code builds, its free slot taken first
  slot_first :
      (b : B) (s : Side) (p : Price) (m : levels_table.Map)
      → (let b₁ : B = record b { free_levels = b.free_levels - 1 } in
          with_side
            (with_level_map orders_table levels_table b₁ s m)
            s
            (insert_level_sorted s (fresh_level s p) (ladder_of b₁ s)))
        ≡ with_new_level b s p m
  slot_first b bid p m = refl
  slot_first b ask p m = refl

  find_or_create-Gets :
      (b : B) (s : Side) (p : Price) {c : B}
      → find_or_create_level orders_table levels_table b s p ≡ some c
      → Gets b s p c
  unfolding find_or_create_level
  find_or_create-Gets b s p {c} e =
      elim (Option-cases (levels_table.find (level_map orders_table levels_table b s) p)) [
        | inr (u, f) ↦ let eq : b ≡ c = ground (arith, e, f) in subst (Gets b s p) eq (there u f)
        | inl f ↦ elim (Bool-cases (b.free_levels == 0)) [
          | inl z ↦ absurd (ground (arith, e, f, z))
          | inr z ↦
              elim (Option-cases
                (levels_table.insert (level_map orders_table levels_table b s) p tt)) [
                  | inl g ↦ absurd (refused s e f z g)
                  | inr (m, g) ↦
                      subst (Gets b s p) (sym (slot_first b s p m) ∙ built s e f z g)
                        (made m f (λ t. ground (arith, t, z)) g)
                ]
        ]
      ]
    where
      refused :
          (s : Side)
          → find_or_create_level orders_table levels_table b s p ≡ some c
          → levels_table.find (level_map orders_table levels_table b s) p ≡ none
          → (b.free_levels == 0) ≡ false
          → levels_table.insert (level_map orders_table levels_table b s) p tt ≡ none
          → ⊥
      refused bid e f z g = ground (arith, e, f, z, g)
      refused ask e f z g = ground (arith, e, f, z, g)

      built :
          (s : Side) {m : levels_table.Map}
          → find_or_create_level orders_table levels_table b s p ≡ some c
          → levels_table.find (level_map orders_table levels_table b s) p ≡ none
          → (b.free_levels == 0) ≡ false
          → levels_table.insert (level_map orders_table levels_table b s) p tt ≡ some m
          → (let b₁ : B = record b { free_levels = b.free_levels - 1 } in
              with_side
                (with_level_map orders_table levels_table b₁ s m)
                s
                (insert_level_sorted s (fresh_level s p) (ladder_of b₁ s)))
            ≡ c
      built bid e f z g = ground (arith, e, f, z, g)
      built ask e f z g = ground (arith, e, f, z, g)

  -- A level found or created, and the order linked into it.
  pub place-Links :
      (max_levels : ℕ) (b : B) (i : OrderId) (s : Side) (p : Price) (q : Qty) {c : B}
      → LevelsOk orders_table levels_table max_levels b
      → Rests s p (resting i s p q)
      → find_or_create_level orders_table levels_table b s p ≡ some c
      → Links max_levels
          (resting i s p q)
          b
          (link_order orders_table levels_table c (resting i s p q))
  place-Links n b i s p q {c} v r e = by (find_or_create-Gets b s p e)
    where
      by :
          {c : B}
          → Gets b s p c
          → Links n (resting i s p q) b (link_order orders_table levels_table c (resting i s p q))
      by (there u f) =
          let (l, at) = known-some p (ladder_of b s) u (sym (v.keys s p) ∙ f) in
          subst (Links n (resting i s p q) b) (sym (link_old b i s p q l at))
            (queue_old n b i s p q l v r at)
      by (made m f free ins) =
          let at = known-level_at p (ladder_of b s) (sym (v.keys s p) ∙ f) in
          subst (Links n (resting i s p q) b) (sym (link_new b i s p q m at))
            (queue_new n b i s p q m v r at free ins)
