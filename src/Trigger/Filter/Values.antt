-- ===== src/Trigger/Filter/Values.antt =====
-- What the conditions of a filter on pairs say of an event, apart from how the filter keeps them.
use mathlib.Core.Bool.{true≢false}
use mathlib.Core.Option.{some-injective}
use mathlib.Core.Path.{subst}
use vanus.Base.{
  ==_iff, Bool, Bool-cases, Option, [], ap, arith, drop, false, inl, inr, length, ltb, lt→ltb, none,
  refl, some, sym, take, take-append-drop, true, ℕ, ◌&&◌, ◌++◌, ◌==◌, ◌↔◌, ◌∙◌, ◌∷◌, ◌≡◌,
}
use vanus.Trigger.Filter.{
  Event, Text, Texts, data_name, data_prefix, data_value, is_empty, meets, new_common_filter, place,
  same_text,
}
use vanus.Trigger.Filter.Pairs.{IsProper, all_meet, common_filter-all, common_outcome, value_at}

same_text-eq : (a b : Text) → same_text a b ≡ true → a ≡ b
unfolding same_text
same_text-eq [] [] h = refl
same_text-eq [] (y ∷ ys) h = absurd (true≢false (sym h))
same_text-eq (x ∷ xs) [] h = absurd (true≢false (sym h))
same_text-eq (x ∷ xs) (y ∷ ys) h = elim (Bool-cases (x == y)) [
  | inl q ↦
      (let rest : same_text xs ys ≡ true = sym (rw q refl) ∙ h in
        let head : x ≡ y = (==_iff x y).0 q in rw (head, same_text-eq xs ys rest))
  | inr q ↦ absurd (true≢false (sym h ∙ rw q refl))
]

module _ (gjson : Text → Text → Option Text) (event : Event) where
  -- A name, in bytes: `data` and `data.` are the data, `data.` with more behind is a path in the
  -- data, and every other name is an attribute.
  pub data HasValue : Text → Text → Type 0 where
    whole : HasValue (100 ∷ 97 ∷ 116 ∷ 97 ∷ []) event.content
    whole_path : HasValue (100 ∷ 97 ∷ 116 ∷ 97 ∷ 46 ∷ []) event.content
    at_path :
        (x : ℕ) (xs v : Text)
        → gjson event.content (x ∷ xs) ≡ some v
        → HasValue (100 ∷ 97 ∷ 116 ∷ 97 ∷ 46 ∷ x ∷ xs) v
    of_attribute :
        (name v : Text)
        → ¬ (name ≡ 100 ∷ 97 ∷ 116 ∷ 97 ∷ [])
        → ((path : Text) → ¬ (name ≡ 100 ∷ 97 ∷ 116 ∷ 97 ∷ 46 ∷ path))
        → event.attribute name ≡ some v
        → HasValue name v

  -- Every pair's name has a value that meets the condition with the pair's own.
  abbrev pub EachHolds : (Text → Text → Bool) → Texts → Type 0
  EachHolds meet [] = Unit
  EachHolds meet ((name, w) ∷ pairs) =
      ((v : Text) × (HasValue name v × (meet v w ≡ true))) × EachHolds meet pairs

  begins : Text → Bool
  begins name = ltb 4 (length name) && same_text (take 5 name) data_prefix

  begins-eq : (name : Text) → begins name ≡ true → name ≡ data_prefix ++ drop 5 name
  unfolding begins
  begins-eq name h =
      let t : same_text (take 5 name) data_prefix ≡ true = elim (Bool-cases (ltb 4 (length name))) [
        | inl q ↦ sym (rw q refl) ∙ h
        | inr q ↦ absurd (true≢false (sym h ∙ rw q refl))
      ] in
      sym (take-append-drop 5 name)
      ∙ ap (λ p. p ++ drop 5 name) (same_text-eq (take 5 name) data_prefix t)

  begins_so : (path : Text) → begins (data_prefix ++ path) ≡ true
  unfolding begins same_text
  begins_so path = rw (lt→ltb 4 (length (data_prefix ++ path)) (omega arith))

  path_value :
      (rest v : Text) → data_value gjson event rest ≡ some v → HasValue (data_prefix ++ rest) v
  unfolding data_value is_empty
  path_value [] v h =
      subst (HasValue (data_prefix ++ [])) (some-injective event.content v h) whole_path
  path_value (x ∷ xs) v h = at_path x xs v h

  value-HasValue : (name v : Text) → value_at gjson event (place name) ≡ some v → HasValue name v
  unfolding place data_value is_empty begins same_text
  value-HasValue name v h = elim (Bool-cases (same_text name data_name)) [
    | inl q ↦
        (let e : data_name ≡ name = sym (same_text-eq name data_name q) in
          let at : place name ≡ (true, []) = rw q refl in
          let g : data_value gjson event [] ≡ some v = sym (ap (value_at gjson event) at) ∙ h in
          subst (λ n. HasValue n v) e
            (subst (HasValue data_name) (some-injective event.content v g) whole))
    | inr q ↦ elim (Bool-cases (begins name)) [
      | inl r ↦
          (let at : place name ≡ (true, drop 5 name) = rw (q, r) refl in
            let g : data_value gjson event (drop 5 name) ≡ some v =
              sym (ap (value_at gjson event) at) ∙ h in
            subst (λ n. HasValue n v) (sym (begins-eq name r)) (path_value (drop 5 name) v g))
      | inr r ↦
          (let at : place name ≡ (false, name) = rw (q, r) refl in
            of_attribute name v (λ e. true≢false (sym (ap (λ n. same_text n data_name) e) ∙ q))
              (λ path e. true≢false (sym (ap begins e ∙ begins_so path) ∙ r))
              (sym (ap (value_at gjson event) at) ∙ h))
    ]
  ]

  HasValue-value : (name v : Text) → HasValue name v → value_at gjson event (place name) ≡ some v
  unfolding place data_value is_empty same_text begins
  HasValue-value _ _ whole = refl
  HasValue-value _ _ whole_path = refl
  HasValue-value _ _ (at_path x xs v h) =
      rw (lt→ltb 4 (length (data_prefix ++ (x ∷ xs))) (omega arith)) h
  HasValue-value _ _ (of_attribute name v n p a) = elim (Bool-cases (same_text name data_name)) [
    | inl q ↦ absurd (n (same_text-eq name data_name q))
    | inr q ↦ elim (Bool-cases (begins name)) [
      | inl r ↦ absurd (p (drop 5 name) (begins-eq name r))
      | inr r ↦
          (let at : place name ≡ (false, name) = rw (q, r) refl in ap (value_at gjson event) at ∙ a)
    ]
  ]

  meets-so :
      (meet : Text → Text → Bool) (o : Option Text) (w : Text)
      → meets meet o w ≡ true
      → (v : Text) × ((o ≡ some v) × (meet v w ≡ true))
  unfolding meets
  meets-so meet none w h = absurd (true≢false (sym h))
  meets-so meet (some v) w h = (v, (refl, h))

  all_meet-EachHolds :
      (meet : Text → Text → Bool) (pairs : Texts)
      → all_meet gjson meet event pairs ≡ true
      → EachHolds meet pairs
  all_meet-EachHolds meet [] h = tt
  all_meet-EachHolds meet ((name, w) ∷ pairs) h =
      elim (Bool-cases (meets meet (value_at gjson event (place name)) w)) [
        | inl q ↦
            (let found = meets-so meet (value_at gjson event (place name)) w q in
              (
                (found.0, (value-HasValue name found.0 found.1.0, found.1.1)),
                all_meet-EachHolds meet pairs (sym (rw q refl) ∙ h),
              ))
        | inr q ↦ absurd (true≢false (sym h ∙ rw q refl))
      ]

  EachHolds-all_meet :
      (meet : Text → Text → Bool) (pairs : Texts)
      → EachHolds meet pairs
      → all_meet gjson meet event pairs ≡ true
  unfolding meets
  EachHolds-all_meet meet [] h = refl
  EachHolds-all_meet meet ((name, w) ∷ pairs) h =
      rw (HasValue-value name h.0.0 h.0.1.0, h.0.1.1) (EachHolds-all_meet meet pairs h.1)

  -- A filter made of pairs of names and values, none of them empty and no two for the same place,
  -- exists and passes an event exactly if each name has a value in the event that meets the
  -- condition with the pair's value: the data for the names data and data., the result of the JSON
  -- path for a name of data. and a path, and the attribute for every other name. So a missing
  -- value fails.
  pub common_filter_lem :
      (pairs : Texts) (meet : Text → Text → Bool)
      → IsProper pairs ([], [])
      → (passes : Bool) × ((common_outcome gjson event (new_common_filter pairs meet) ≡ some passes)
          × ((passes ≡ true) ↔ EachHolds meet pairs))
  common_filter_lem pairs meet h = (
    all_meet gjson meet event pairs,
    (
      common_filter-all gjson pairs meet event h,
      (all_meet-EachHolds meet pairs, EachHolds-all_meet meet pairs),
    ),
  )
