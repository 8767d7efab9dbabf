-- ===== src/HashMap/AsTable.antt =====
-- The map of libs/ds/hash_map.hpp fulfils the laws that its clients rely on (Table.antt).
use low_latency_tick_to_trad.Prelude.{
  ℕ, ◌≡◌, refl, sym, subst, ◌∙◌, ap, Bool, true, false, ◌&&◌, Option, none, some, if◌then◌else◌,
  Bool-cases, inl, inr, ◌↔◌,
}
use low_latency_tick_to_trad.HashMap.{HashMap, find, insert, erase, clear}
use low_latency_tick_to_trad.HashMap.Inv.{IsValid}
use low_latency_tick_to_trad.HashMap.Laws.{find-insert, find-erase}
use low_latency_tick_to_trad.HashMap.Entries.{clear-IsValid, find-clear}
use low_latency_tick_to_trad.Table.{Table}

module _ {K V : Type 0} (same : K → K → Bool) (hash : K → ℕ) where
  -- The value of a lookup that returned.
  abbrev pub lookup : HashMap K V → K → Option V
  lookup m k = elim (find same hash m k) [ none ↦ none | some r ↦ r ]

  -- The map after an insertion that answered true.
  abbrev pub try_insert : HashMap K V → K → V → Option (HashMap K V)
  try_insert m k x = elim (insert same hash m k x) [
    | none ↦ none
    | some (n, ok) ↦ if ok then some n else none
  ]

  -- The map after an erasure, whatever it answered.
  abbrev pub remove : HashMap K V → K → HashMap K V
  remove m k = elim (erase same hash m k) [ none ↦ m | some (n, ok) ↦ n ]

  module _ (same_iff : (j k : K) → (same j k ≡ true) ↔ (j ≡ k)) where
    pub insert_answer :
        (m : HashMap K V) (k : K) (x : V) {n : HashMap K V}
        → IsValid same hash m
        → try_insert m k x ≡ some n
        → IsValid same hash n × ((j : K) → lookup n j ≡ (if same j k then some x else lookup m j))
    insert_answer m k x {n = n} v e =
        let (r, ok, run, w, f) = find-insert same hash same_iff m v k x in
        let out : (if ok then some r else none) ≡ some n =
          sym (ap (λ o. elim o [ none ↦ none | some (n, ok) ↦ if ok then some n else none ]) run)
          ∙ e in
        elim (Bool-cases ok) [
          | inr y ↦ absurd (cc (subst (λ b. (if b then some r else none) ≡ some n) y out))
          | inl y ↦
              let same_map : r ≡ n =
                cc (subst (λ b. (if b then some r else none) ≡ some n) y out) in
              (
                subst (IsValid same hash) same_map w,
                λ j.
                    ap (λ z. lookup z j) (sym same_map)
                    ∙ ap (λ o. elim o [ none ↦ none | some r ↦ r ]) (f j)
                    ∙ picked y (same j k) (find same hash m j),
              )
        ]
      where
        picked :
            {ok : Bool}
            → ok ≡ true
            → (b : Bool) (o : Option (Option V))
            → ◌≡◌ {A = Option V}
                (elim (if ok && b then some (some x) else o) [ none ↦ none | some r ↦ r ])
                (if b then some x else elim o [ none ↦ none | some r ↦ r ])
        picked y true o = rw y refl
        picked y false o = rw y refl

    pub remove_answer :
        (m : HashMap K V) (k : K)
        → IsValid same hash m
        → IsValid same hash (remove m k)
          × ((j : K) → lookup (remove m k) j ≡ (if same j k then none else lookup m j))
    remove_answer m k v =
        let (n, ok, run, w, z, f) = find-erase same hash same_iff m v k in
        let out : remove m k ≡ n = ap (λ o. elim o [ none ↦ m | some (n, ok) ↦ n ]) run in
        (
          subst (IsValid same hash) (sym out) w,
          λ j.
              ap (λ z. lookup z j) out
              ∙ ap (λ o. elim o [ none ↦ none | some r ↦ r ]) (f j)
              ∙ picked (same j k) (find same hash m j),
        )
      where
        picked :
            (b : Bool) (o : Option (Option V))
            → ◌≡◌ {A = Option V}
                (elim (if b then some none else o) [ none ↦ none | some r ↦ r ])
                (if b then none else elim o [ none ↦ none | some r ↦ r ])
        picked true o = refl
        picked false o = refl

    abbrev pub hash_table : Table K V
    hash_table = record {
      same = same;
      same_iff = same_iff;
      Map = HashMap K V;
      find = lookup;
      insert = try_insert;
      erase = remove;
      clear = clear;
      size = λ m. m.size;
      IsValid = IsValid same hash;
      insert-IsValid = λ m k x v e. (insert_answer m k x v e).0;
      erase-IsValid = λ m k v. (remove_answer m k v).0;
      clear-IsValid = λ m v. clear-IsValid same hash same_iff m v;
      find-insert = λ m k x j v e. (insert_answer m k x v e).1 j;
      find-erase = λ m k j v. (remove_answer m k v).1 j;
      find-clear = λ m j v.
          ap (λ o. elim o [ none ↦ none | some r ↦ r ]) (find-clear same hash same_iff m v j);
    }
