-- ===== src/Trigger/Filter.antt =====
-- internal/trigger/filter: the filters of a subscription. A string is its bytes, a map of strings
-- an association list, and an event what is looked up in it. The two expression languages and the
-- JSON path library are third-party code: parameters.
pub mod Pairs
pub mod Tree
pub mod Values
use vanus.Base.{
  Bool, List, Option, [], drop, false, if◌then◌else◌, leb, length, ltb, none, some, take, true, ℕ,
  ◌&&◌, ◌-◌, ◌==◌, ◌||◌, ◌∷◌,
}

abbrev pub Text : Type 0
Text = List ℕ

abbrev pub Texts : Type 0
Texts = List (Text × Text)

unfoldable pub same_text : Text → Text → Bool
same_text [] [] = true
same_text [] (y ∷ ys) = false
same_text (x ∷ xs) [] = false
same_text (x ∷ xs) (y ∷ ys) = (x == y) && same_text xs ys

-- `strings.HasPrefix` and `strings.HasSuffix`.
unfoldable pub has_prefix : Text → Text → Bool
has_prefix text [] = true
has_prefix [] (p ∷ ps) = false
has_prefix (x ∷ xs) (p ∷ ps) = (x == p) && has_prefix xs ps

unfoldable pub has_suffix : Text → Text → Bool
has_suffix text suffix =
    leb (length suffix) (length text) && same_text (drop (length text - length suffix) text) suffix

-- The assignment `m[key] = v`.
unfoldable pub put : Texts → Text → Text → Texts
put [] key v = (key, v) ∷ []
put ((k, w) ∷ m) key v = if same_text k key then (key, v) ∷ m else (k, w) ∷ put m key v

-- `attribute` is util.LookupAttribute with the value formatted, `content` is `Data()`.
pub record Event : Type 0 where
  pub attribute : Text → Option Text
  pub content : Text

pub record CommonFilter : Type 0 where
  pub attribute : Texts
  pub entries : Texts  -- the field `data`
  pub meet_condition : Text → Text → Bool

abbrev pub data_name : Text
data_name = 100 ∷ 97 ∷ 116 ∷ 97 ∷ []

abbrev pub data_prefix : Text
data_prefix = 100 ∷ 97 ∷ 116 ∷ 97 ∷ 46 ∷ []

unfoldable pub is_empty : Text → Bool
is_empty [] = true
is_empty (x ∷ xs) = false

-- Where a pair goes: whether to the data, and its key there.
unfoldable pub place : Text → Bool × Text
place attr =
    if same_text attr data_name
    then (true, [])
    else if ltb 4 (length attr) && same_text (take 5 attr) data_prefix
    then (true, drop 5 attr)
    else (false, attr)

unfoldable pub put_at : Bool × Text → Text → Texts × Texts → Texts × Texts
put_at (true, key) v (attribute, entries) = (attribute, put entries key v)
put_at (false, key) v (attribute, entries) = (put attribute key v, entries)

unfoldable pub split_pairs : Texts → Texts × Texts → Option (Texts × Texts)
split_pairs [] acc = some acc
split_pairs ((attr, v) ∷ pairs) acc =
    if is_empty attr || is_empty v then none else split_pairs pairs (put_at (place attr) v acc)

unfoldable pub common_of : (Text → Text → Bool) → Option (Texts × Texts) → Option CommonFilter
common_of meet none = none
common_of meet (some (attribute, entries)) =
    some (record { attribute = attribute; entries = entries; meet_condition = meet })

unfoldable pub new_common_filter : Texts → (Text → Text → Bool) → Option CommonFilter
new_common_filter value meet = common_of meet (split_pairs value ([], []))

unfoldable pub meets : (Text → Text → Bool) → Option Text → Text → Bool
meets meet none v = false
meets meet (some value) v = meet value v

-- `gjson` stands for `gjson.GetBytes`, with `none` where the result does not exist.
module _ (gjson : Text → Text → Option Text) where
  unfoldable pub data_value : Event → Text → Option Text
  data_value event attr = if is_empty attr then some event.content else gjson event.content attr

  unfoldable pub check_attributes : (Text → Text → Bool) → Event → Texts → Bool
  check_attributes meet event [] = true
  check_attributes meet event ((attr, v) ∷ rest) =
      let next = check_attributes meet event rest in
      if meets meet (event.attribute attr) v then next else false

  unfoldable pub check_data : (Text → Text → Bool) → Event → Texts → Bool
  check_data meet event [] = true
  check_data meet event ((attr, v) ∷ rest) =
      let next = check_data meet event rest in
      if meets meet (data_value event attr) v then next else false

  unfoldable pub common_filter : CommonFilter → Event → Bool
  common_filter f event =
      if check_attributes f.meet_condition event f.attribute
      then check_data f.meet_condition event f.entries
      else false
