-- ===== src/Trigger/Filter/Pairs.antt =====
-- A filter on pairs passes exactly if each of its pairs does.
use mathlib.Core.Bool.{true≢false}
use vanus.Base.{
  Bool, Bool-cases, Option, [], ap, false, if◌then◌else◌, inl, inr, none, refl, some, sym, true,
  ◌&&◌, ◌||◌, ◌∙◌, ◌∷◌, ◌≡◌,
}
use vanus.Trigger.Filter.{
  CommonFilter, Event, Text, Texts, check_attributes, check_data, common_filter, common_of,
  data_value, is_empty, meets, new_common_filter, place, put, put_at, same_text, split_pairs,
}

abbrev has_key : Texts → Text → Bool
has_key [] key = false
has_key ((k, w) ∷ m) key = same_text k key || has_key m key

abbrev taken : Bool × Text → Texts × Texts → Bool
taken (true, key) (attribute, entries) = has_key entries key
taken (false, key) (attribute, entries) = has_key attribute key

-- No key or value is empty, and no two pairs have the same place.
abbrev pub IsProper : Texts → Texts × Texts → Type 0
IsProper [] acc = Unit
IsProper ((attr, v) ∷ pairs) acc =
    ((is_empty attr || is_empty v) ≡ false)
    × ((taken (place attr) acc ≡ false) × IsProper pairs (put_at (place attr) v acc))

-- Every pair of a map meets the condition, with the values that `g` gives.
abbrev pairs_meet : (Text → Text → Bool) → (Text → Option Text) → Texts → Bool
pairs_meet meet g [] = true
pairs_meet meet g ((k, w) ∷ m) = meets meet (g k) w && pairs_meet meet g m

if_and : (b x : Bool) → (if b then x else false) ≡ (b && x)
if_and true x = refl
if_and false x = refl

and_assoc : (a b c : Bool) → ((a && b) && c) ≡ (a && (b && c))
and_assoc true b c = refl
and_assoc false b c = refl

and_true : (a : Bool) → (a && true) ≡ a
and_true true = refl
and_true false = refl

and_move : (a b c : Bool) → ((a && b) && c) ≡ ((a && c) && b)
and_move true b true = and_true b
and_move true true false = refl
and_move true false false = refl
and_move false b c = refl

pairs_meet-put :
    (meet : Text → Text → Bool) (g : Text → Option Text) (m : Texts) (key v : Text)
    → has_key m key ≡ false
    → pairs_meet meet g (put m key v) ≡ (pairs_meet meet g m && meets meet (g key) v)
unfolding put
pairs_meet-put meet g [] key v h = and_true (meets meet (g key) v)
pairs_meet-put meet g ((k, w) ∷ m) key v h = elim (Bool-cases (same_text k key)) [
  | inl e ↦
      let found : (same_text k key || has_key m key) ≡ true = rw e in
      absurd (true≢false (sym found ∙ h))
  | inr e ↦
      let same : (same_text k key || has_key m key) ≡ has_key m key = rw e in
      let rest : has_key m key ≡ false = sym same ∙ h in
      rw (e, pairs_meet-put meet g m key v rest)
        (sym (and_assoc (meets meet (g k) w) (pairs_meet meet g m) (meets meet (g key) v)))
]

module _ (gjson : Text → Text → Option Text) where
  -- The value of an event that a pair is about.
  abbrev pub value_at : Event → Bool × Text → Option Text
  value_at event (true, key) = data_value gjson event key
  value_at event (false, key) = event.attribute key

  abbrev pub all_meet : (Text → Text → Bool) → Event → Texts → Bool
  all_meet meet event [] = true
  all_meet meet event ((attr, v) ∷ pairs) =
      meets meet (value_at event (place attr)) v && all_meet meet event pairs

  check_attributes-pairs :
      (meet : Text → Text → Bool) (event : Event) (m : Texts)
      → check_attributes gjson meet event m ≡ pairs_meet meet event.attribute m
  unfolding check_attributes
  check_attributes-pairs meet event [] = refl
  check_attributes-pairs meet event ((k, w) ∷ m) =
      if_and (meets meet (event.attribute k) w) (check_attributes gjson meet event m)
      ∙ ap (λ t. meets meet (event.attribute k) w && t) (check_attributes-pairs meet event m)

  check_data-pairs :
      (meet : Text → Text → Bool) (event : Event) (m : Texts)
      → check_data gjson meet event m ≡ pairs_meet meet (data_value gjson event) m
  unfolding check_data
  check_data-pairs meet event [] = refl
  check_data-pairs meet event ((k, w) ∷ m) =
      if_and (meets meet (data_value gjson event k) w) (check_data gjson meet event m)
      ∙ ap (λ t. meets meet (data_value gjson event k) w && t) (check_data-pairs meet event m)

  abbrev both_meet : (Text → Text → Bool) → Event → Texts × Texts → Bool
  both_meet meet event (attribute, entries) =
      pairs_meet meet event.attribute attribute && pairs_meet meet (data_value gjson event) entries

  -- A pair in a free place adds its own condition.
  both_meet-put_at :
      (meet : Text → Text → Bool) (event : Event) (p : Bool × Text) (v : Text) (acc : Texts × Texts)
      → taken p acc ≡ false
      → both_meet meet event (put_at p v acc)
        ≡ (both_meet meet event acc && meets meet (value_at event p) v)
  unfolding put_at
  both_meet-put_at meet event (true, key) v (attribute, entries) h =
      rw (pairs_meet-put meet (data_value gjson event) entries key v h) (
        sym (
          and_assoc (pairs_meet meet event.attribute attribute)
            (pairs_meet meet (data_value gjson event) entries)
            (meets meet (data_value gjson event key) v)))
  both_meet-put_at meet event (false, key) v (attribute, entries) h =
      rw (pairs_meet-put meet event.attribute attribute key v h) (
        and_move (pairs_meet meet event.attribute attribute) (meets meet (event.attribute key) v)
          (pairs_meet meet (data_value gjson event) entries))

  common_filter-both :
      (f : CommonFilter) (event : Event)
      → common_filter gjson f event ≡ both_meet f.meet_condition event (f.attribute, f.entries)
  unfolding common_filter
  common_filter-both f event =
      if_and (check_attributes gjson f.meet_condition event f.attribute)
        (check_data gjson f.meet_condition event f.entries)
      ∙ rw (
        check_attributes-pairs f.meet_condition event f.attribute,
        check_data-pairs f.meet_condition event f.entries,
      )

  abbrev outcome : (Text → Text → Bool) → Event → Option (Texts × Texts) → Option Bool
  outcome meet event none = none
  outcome meet event (some acc) = some (both_meet meet event acc)

  split_pairs-all :
      (meet : Text → Text → Bool) (event : Event) (pairs : Texts) (acc : Texts × Texts)
      → IsProper pairs acc
      → outcome meet event (split_pairs pairs acc)
        ≡ some (both_meet meet event acc && all_meet meet event pairs)
  unfolding split_pairs
  split_pairs-all meet event [] acc h = ap some (sym (and_true (both_meet meet event acc)))
  split_pairs-all meet event ((attr, v) ∷ pairs) acc h = rw h.0 (
      split_pairs-all meet event pairs (put_at (place attr) v acc) h.1.1
      ∙ ap some (
          ap (λ t. t && all_meet meet event pairs)
            (both_meet-put_at meet event (place attr) v acc h.1.0)
          ∙ and_assoc (both_meet meet event acc) (meets meet (value_at event (place attr)) v)
              (all_meet meet event pairs)))

  -- The outcome of a filter on pairs, or none where there is no such filter.
  abbrev pub common_outcome : Event → Option CommonFilter → Option Bool
  common_outcome event none = none
  common_outcome event (some f) = some (common_filter gjson f event)

  common_outcome-split :
      (meet : Text → Text → Bool) (event : Event) (split : Option (Texts × Texts))
      → common_outcome event (common_of meet split) ≡ outcome meet event split
  unfolding common_of
  common_outcome-split meet event none = refl
  common_outcome-split meet event (some (attribute, entries)) = ap some (
      common_filter-both
        (record { attribute = attribute; entries = entries; meet_condition = meet }) event)

  -- A filter made of pairs of names and values, none of them empty and no two for the same place,
  -- exists and passes an event exactly if every pair's condition holds of what the event has
  -- there: the data for the name data, the result of the JSON path behind data., and the attribute
  -- otherwise; a missing value fails.
  pub common_filter-all :
      (pairs : Texts) (meet : Text → Text → Bool) (event : Event)
      → IsProper pairs ([], [])
      → common_outcome event (new_common_filter pairs meet) ≡ some (all_meet meet event pairs)
  unfolding new_common_filter
  common_filter-all pairs meet event h =
      common_outcome-split meet event (split_pairs pairs ([], []))
      ∙ split_pairs-all meet event pairs ([], []) h
