-- ===== src/Tests/Tables.antt =====
-- An association list that keeps the laws which the clients of libs/ds/hash_map.hpp rely on, for runs
-- of the code on concrete inputs: insertions are refused when it is full.
use low_latency_tick_to_trad.Prelude.{
  ℕ, ◌≡◌, refl, sym, subst, Bool, true, false, Option, none, some, List, [], ◌∷◌, arith, ltb,
  if◌then◌else◌, length, Bool-cases, Option-cases, inl, inr, ◌⊎◌, ◌↔◌,
}
use low_latency_tick_to_trad.Table.{Table}
use mathlib.Core.Option.{some-injective}

module _ {K V : Type 0} (same : K → K → Bool)
    (same_iff : (j k : K) → (same j k ≡ true) ↔ (j ≡ k)) where
  unfoldable pub look_up : List (K × V) → K → Option V
  look_up [] k = none
  look_up ((j, v) ∷ m) k = if same k j then some v else look_up m k

  unfoldable pub drop_key : K → List (K × V) → List (K × V)
  drop_key k [] = []
  drop_key k ((j, v) ∷ m) = let rest = drop_key k m in if same j k then rest else (j, v) ∷ rest

  unfoldable pub put_key : ℕ → List (K × V) → K → V → Option (List (K × V))
  unfolding look_up
  put_key room m k v = elim (look_up m k) [
    | some _ ↦ none
    | none ↦ if ltb (length m) room then some ((k, v) ∷ m) else none
  ]

  pub look_up-drop_key :
      (m : List (K × V)) (k j : K)
      → look_up (drop_key k m) j ≡ (if same j k then none else look_up m j)
  unfolding look_up drop_key
  look_up-drop_key [] k j = ground arith
  look_up-drop_key ((x, v) ∷ m) k j = elim (Bool-cases (same x k)) [
    | inl e ↦
        rw (e, look_up-drop_key m k j)
          (gone v (subst (λ y. same j y ≡ same j k) (sym ((same_iff x k).0 e)) refl))
    | inr e ↦ rw (e, look_up, look_up-drop_key m k j) (kept v e (Bool-cases (same j k)))
  ]
    where
      gone :
          {x : K} (v : V)
          → same j x ≡ same j k
          → (if same j k then none else look_up m j)
            ≡ (if same j k then none else (if same j x then some v else look_up m j))
      gone v e = rw e (ground arith)

      kept :
          {x : K} (v : V)
          → same x k ≡ false
          → ((same j k ≡ true) ⊎ (same j k ≡ false))
          → (if same j x then some v else (if same j k then none else look_up m j))
            ≡ (if same j k then none else (if same j x then some v else look_up m j))
      kept v e (inr f) = rw f refl
      kept {x = x} v e (inl f) =
          let g : same j x ≡ false = elim (Bool-cases (same j x)) [
            | inr y ↦ y
            | inl y ↦ absurd (cc (e, f, (same_iff j x).0 y))
          ] in
          rw (f, g) refl

  pub look_up_nil : (j : K) → look_up [] j ≡ none
  unfolding look_up
  look_up_nil j = refl

  pub look_up-put_key :
      (room : ℕ) (m : List (K × V)) (k : K) (v : V) (j : K) {n : List (K × V)}
      → put_key room m k v ≡ some n
      → look_up n j ≡ (if same j k then some v else look_up m j)
  unfolding look_up put_key
  look_up-put_key room m k v j {n = n} e = elim (Option-cases (look_up m k)) [
    | inr (w, f) ↦ absurd (cc (rw (f, put_key) at e))
    | inl f ↦ elim (Bool-cases (ltb (length m) room)) [
      | inr g ↦ absurd (cc (rw (f, g, put_key) at e))
      | inl g ↦
          subst (λ n. look_up n j ≡ (if same j k then some v else look_up m j))
            (some-injective ((k, v) ∷ m) n (rw (f, g, put_key) at e)) refl
    ]
  ]

  abbrev pub assoc_table : ℕ → Table K V
  assoc_table room = record {
    same = same;
    same_iff = same_iff;
    Map = List (K × V);
    find = look_up;
    insert = put_key room;
    erase = λ m k. drop_key k m;
    clear = λ m. [];
    size = length;
    IsValid = λ m. Unit;
    insert-IsValid = λ m k v w e. tt;
    erase-IsValid = λ m k w. tt;
    clear-IsValid = λ m w. tt;
    find-insert = λ m k v j w e. look_up-put_key room m k v j e;
    find-erase = λ m k j w. look_up-drop_key m k j;
    find-clear = λ m j w. look_up_nil j;
  }
