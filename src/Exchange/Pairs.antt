-- ===== src/Exchange/Pairs.antt =====
-- The forward and the reverse id map of apps/simulated_exchange/exchange_core.hpp as a pair: what its
-- assertions on the answers of the erasures rely on.
use low_latency_tick_to_trad.Prelude.{
  ℕ, ◌≡◌, refl, sym, subst, ◌∙◌, ap, Bool, true, false, Option, none, some, if◌then◌else◌,
  Bool-cases, inl, inr, ◌≤◌,
}
use low_latency_tick_to_trad.Exchange.{
  Config, IdEntry, erase_ids, ReverseIdEntry, Core, make_composite_key, max_client_order_id,
}
use mathlib.Core.Option.{some-injective}

-- A key that is still found after an erasure is another one, and was found before.
still_found :
    {V : Type 0} (b : Bool) (o p : Option V) (v : V)
    → p ≡ (if b then none else o)
    → p ≡ some v
    → (b ≡ false) × (o ≡ some v)
still_found true o p v e f = absurd (cc (e, f))
still_found false o p v e f = (refl, sym e ∙ f)

module _ (x : Config) where
  abbrev maker_key : ReverseIdEntry → ℕ
  maker_key r = make_composite_key r.session_id r.client_order_id

  -- Each entry of one map has its counterpart in the other, and the ids remembered are in the range
  -- that `make_composite_key` asserts.
  pub record Paired (ids : x.ids.Map) (reverse : x.reverse_ids.Map) : Type 0 where
    pub ids_valid : x.ids.IsValid ids
    pub reverse_valid : x.reverse_ids.IsValid reverse
    pub forward :
        (k : ℕ) (e : IdEntry)
        → x.ids.find ids k ≡ some e
        → (r : ReverseIdEntry) × ((x.reverse_ids.find reverse e.exchange_id ≡ some r)
            × (maker_key r ≡ k))
    pub in_range :
        (i : ℕ) (r : ReverseIdEntry)
        → x.reverse_ids.find reverse i ≡ some r
        → r.client_order_id ≤ max_client_order_id
    pub backward :
        (i : ℕ) (r : ReverseIdEntry)
        → x.reverse_ids.find reverse i ≡ some r
        → (e : IdEntry) × ((x.ids.find ids (maker_key r) ≡ some e) × (e.exchange_id ≡ i))

  erase-Paired :
      (ids : x.ids.Map) (reverse : x.reverse_ids.Map) (k : ℕ) (e : IdEntry) (r : ReverseIdEntry)
      → Paired ids reverse
      → x.ids.find ids k ≡ some e
      → x.reverse_ids.find reverse e.exchange_id ≡ some r
      → maker_key r ≡ k
      → Paired (x.ids.erase ids k) (x.reverse_ids.erase reverse e.exchange_id)
  erase-Paired ids reverse k e r p f g h = record {
    ids_valid = x.ids.erase-IsValid ids k p.ids_valid;
    reverse_valid = x.reverse_ids.erase-IsValid reverse e.exchange_id p.reverse_valid;
    forward = λ k' e' f'.
        let a = still_found (x.ids.same k' k) _ _ e' (x.ids.find-erase ids k k' p.ids_valid) f' in
        let b = p.forward k' e' a.1 in
        let other : x.reverse_ids.same e'.exchange_id e.exchange_id ≡ false =
          elim (Bool-cases (x.reverse_ids.same e'.exchange_id e.exchange_id)) [
            | inl w ↦
                let same = sym ((x.reverse_ids.same_iff e'.exchange_id e.exchange_id).0 w) in
                let rr : r ≡ b.0 =
                  some-injective r b.0 (sym g ∙ ap (x.reverse_ids.find reverse) same ∙ b.1.0) in
                let kk : k ≡ k' = sym h ∙ ap maker_key rr ∙ b.1.1 in
                absurd (let t = (x.ids.same_iff k' k).1 (sym kk) in let u = a.0 in cc (t, u))
            | inr w ↦ w
          ] in
        (
          b.0,
          (
            x.reverse_ids.find-erase reverse e.exchange_id e'.exchange_id p.reverse_valid
                ∙ rw other (b.1.0),
            b.1.1,
          ),
        );
    in_range = λ j r' g'.
        p.in_range j r'
          (still_found (x.reverse_ids.same j e.exchange_id) _ _ r'
            (x.reverse_ids.find-erase reverse e.exchange_id j p.reverse_valid) g').1;
    backward = λ j r' g'.
        let a =
          still_found (x.reverse_ids.same j e.exchange_id) _ _ r'
            (x.reverse_ids.find-erase reverse e.exchange_id j p.reverse_valid) g' in
        let b = p.backward j r' a.1 in
        let other : x.ids.same (maker_key r') k ≡ false =
          elim (Bool-cases (x.ids.same (maker_key r') k)) [
            | inl w ↦
                let same = sym ((x.ids.same_iff (maker_key r') k).0 w) in
                let ee : e ≡ b.0 =
                  some-injective e b.0 (sym f ∙ ap (x.ids.find ids) same ∙ b.1.0) in
                let jj : e.exchange_id ≡ j = ap (λ (z : IdEntry). z.exchange_id) ee ∙ b.1.1 in
                absurd (
                  let t = (x.reverse_ids.same_iff j e.exchange_id).1 (sym jj) in
                  let u = a.0 in cc (t, u))
            | inr w ↦ w
          ] in
        (b.0, (x.ids.find-erase ids k (maker_key r') p.ids_valid ∙ rw other (b.1.0), b.1.1));
  }

  -- On paired maps the entries of an order whose entry is known are erased.
  pub erased_known :
      (c : Core x) (k : ℕ) (e : IdEntry)
      → Paired c.id_map c.reverse_id_map
      → x.ids.find c.id_map k ≡ some e
      → (erase_ids x k e.exchange_id c
          ≡ some (record c {
            id_map = x.ids.erase c.id_map k;
            reverse_id_map = x.reverse_ids.erase c.reverse_id_map e.exchange_id;
          }))
        × Paired (x.ids.erase c.id_map k) (x.reverse_ids.erase c.reverse_id_map e.exchange_id)
  unfolding erase_ids
  erased_known c k e p f =
      let b = p.forward k e f in
      (rw (f, b.1.0) refl, erase-Paired c.id_map c.reverse_id_map k e b.0 p f b.1.0 b.1.1)

  -- So are those of an order whose reverse entry is known.
  pub erased_maker :
      (c : Core x) (i : ℕ) (r : ReverseIdEntry)
      → Paired c.id_map c.reverse_id_map
      → x.reverse_ids.find c.reverse_id_map i ≡ some r
      → (erase_ids x (make_composite_key r.session_id r.client_order_id) i c
          ≡ some (record c {
            id_map = x.ids.erase c.id_map (maker_key r);
            reverse_id_map = x.reverse_ids.erase c.reverse_id_map i;
          }))
        × Paired (x.ids.erase c.id_map (maker_key r)) (x.reverse_ids.erase c.reverse_id_map i)
  erased_maker c i r p f =
      let b = p.backward i r f in
      let a = erased_known c (maker_key r) b.0 p b.1.0 in
      subst
        (λ j.
          (erase_ids x (maker_key r) j c
            ≡ some (record c {
              id_map = x.ids.erase c.id_map (maker_key r);
              reverse_id_map = x.reverse_ids.erase c.reverse_id_map j;
            }))
          × Paired (x.ids.erase c.id_map (maker_key r)) (x.reverse_ids.erase c.reverse_id_map j))
        b.1.1 a
