-- ===== src/Raft/Elements.antt =====
-- A list of keys with values as an ordered map, to apply the theorems to.
use vanus.Base.{
  ==_iff, ==_of, Bool-cases, List, Option, [], ap, arith, false, if◌then◌else◌, inl, inr, leb,
  leb→le, length, none, refl, some, sym, ℕ, ◌<◌, ◌==◌, ◌∙◌, ◌∷◌, ◌≡◌, ◌≤◌, ◌⊎◌,
}
use vanus.Base.OffsetMap.{OffsetMap}

abbrev find : List (ℕ × ℕ) → ℕ → Option ℕ
find [] k = none
find (x ∷ xs) k = if x.0 == k then some x.1 else find xs k

abbrev without : ℕ → List (ℕ × ℕ) → List (ℕ × ℕ)
without k [] = []
without k (x ∷ xs) = let rest = without k xs in if x.0 == k then rest else x ∷ rest

abbrev smaller : ℕ × ℕ → Option (ℕ × ℕ) → Option (ℕ × ℕ)
smaller x none = some x
smaller x (some y) = if leb x.0 y.0 then some x else some y

abbrev least : List (ℕ × ℕ) → Option (ℕ × ℕ)
least [] = none
least (x ∷ xs) = smaller x (least xs)

pub find-without :
    (k j : ℕ) (l : List (ℕ × ℕ)) → find (without k l) j ≡ (if k == j then none else find l j)
find-without k j [] = elim (Bool-cases (k == j)) [ inl q ↦ rw q refl | inr q ↦ rw q refl ]
find-without k j (x ∷ xs) = ground (arith, find-without k j xs)

smaller_some : (x : ℕ × ℕ) (o : Option (ℕ × ℕ)) → smaller x o ≡ none → ⊥
smaller_some x none h = cc
smaller_some x (some y) h = ground arith

-- The least of all is the first, with none or a greater one behind it, or the least behind it.
least_cases :
    (x : ℕ × ℕ) (o : Option (ℕ × ℕ)) (k v : ℕ)
    → smaller x o ≡ some (k, v)
    → ((x.0 ≡ k) × ((x.1 ≡ v) × ((o ≡ none) ⊎ ((y : ℕ × ℕ) × ((o ≡ some y) × (k ≤ y.0))))))
      ⊎ ((o ≡ some (k, v)) × (k < x.0))
least_cases x none k v h =
    let e : x ≡ (k, v) = cc in inl (ap (λ p. p.0) e, (ap (λ p. p.1) e, inl refl))
least_cases x (some y) k v h = elim (Bool-cases (leb x.0 y.0)) [
  | inl q ↦
      (let r : some x ≡ some (k, v) = sym (rw q refl) ∙ h in
        let e : x ≡ (k, v) = cc in
        let a : x.0 ≡ k = ap (λ p. p.0) e in
        inl (a, (ap (λ p. p.1) e, inr (y, (refl, omega (arith, leb→le x.0 y.0 q, a))))))
  | inr q ↦
      (let r : some y ≡ some (k, v) = sym (rw q refl) ∙ h in
        let e : y ≡ (k, v) = cc in
        let a : y.0 ≡ k = ap (λ p. p.0) e in
        let b : y.0 < x.0 = ground arith in inr (r, omega (arith, a, b)))
]

pub find-least : (k v : ℕ) (l : List (ℕ × ℕ)) → least l ≡ some (k, v) → find l k ≡ some v
find-least k v [] h = absurd (cc)
find-least k v (x ∷ xs) h = elim (least_cases x (least xs) k v h) [
  | inl c ↦ rw (==_of x.0 k c.0) (ap some c.1.0)
  | inr c ↦ (let d : (x.0 == k) ≡ false = ground (arith, c.1) in rw d (find-least k v xs c.0))
]

pub none-least : (k : ℕ) (l : List (ℕ × ℕ)) → least l ≡ none → find l k ≡ none
none-least k [] h = refl
none-least k (x ∷ xs) h = absurd (smaller_some x (least xs) h)

pub least-le : (k v j u : ℕ) (l : List (ℕ × ℕ)) → least l ≡ some (k, v) → find l j ≡ some u → k ≤ j
least-le k v j u [] h f = absurd (cc)
least-le k v j u (x ∷ xs) h f = elim (Bool-cases (x.0 == j)) [
  | inl q ↦ elim (least_cases x (least xs) k v h) [
    | inl c ↦ omega (arith, c.0, (==_iff x.0 j).0 q)
    | inr c ↦ omega (arith, c.1, (==_iff x.0 j).0 q)
  ]
  | inr q ↦
      (let g : find xs j ≡ some u = sym (rw q refl) ∙ f in
        elim (least_cases x (least xs) k v h) [
          | inr c ↦ least-le k v j u xs c.0 g
          | inl c ↦ elim c.1.1 [
            | inl n ↦ absurd (let z = none-least j xs n in cc)
            | inr y ↦ omega (arith, y.1.1, least-le y.0.0 y.0.1 j u xs y.1.0 g)
          ]
        ])
]

length-without : (k : ℕ) (l : List (ℕ × ℕ)) → length (without k l) ≤ length l
length-without k [] = omega arith
length-without k (x ∷ xs) = ground (arith, length-without k xs)

pub without-least :
    (k v : ℕ) (l : List (ℕ × ℕ)) → least l ≡ some (k, v) → length (without k l) < length l
without-least k v [] h = absurd (cc)
without-least k v (x ∷ xs) h = elim (least_cases x (least xs) k v h) [
  | inl c ↦ rw (==_of x.0 k c.0) (omega (arith, length-without k xs))
  | inr c ↦
      (let d : (x.0 == k) ≡ false = ground (arith, c.1) in
        rw d (omega (arith, without-least k v xs c.0)))
]

abbrev pub list_map : OffsetMap
list_map = record {
  Elems = List (ℕ × ℕ);
  new = [];
  set = λ k v l. (k, v) ∷ l;
  remove = without;
  len = λ l. length l;
  front = least;
  get = find;
  get-new = λ k. refl;
  get-set = λ k v j l. refl;
  get-remove = find-without;
  get-front = find-least;
  front-le = least-le;
  no_front = none-least;
  len-remove = without-least;
}
