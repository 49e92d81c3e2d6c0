-- ===== src/Vsb/Seek.antt =====
-- internal/store/vsb/block_seek.go: seeking an entry by its time. The indexes are searched by
-- `sort.Search`, which asks for indexes in range only; -1 stands for no entry.
pub mod Answers
use vanus.Base.{
  Bool, List, Option, false, get_or, if◌then◌else◌, length, ltb, none, not, search, some, true, ℕ,
  ◌==◌,
}
use vanus.Base.Int.{negsuc, pos, ℤ, ◌-ℤ◌}
use vanus.Vsb.{Index, VsBlock}

pub data SeekKeyFlag : Type 0 where
  exact or_next or_prev after before : SeekKeyFlag
  prefix prefix_last prefix_last_or_prev : SeekKeyFlag

pub data Comparison : Type 0 where
  less equal greater : Comparison

abbrev pub index_at : List Index → ℕ → Index
index_at indexes i = get_or indexes i (record { offset = 0; length = 0; stime = 0 })

unfoldable pub compare_stime : ℕ → Index → Comparison
compare_stime val i = if i.stime == val then equal else if ltb val i.stime then greater else less

unfoldable pub at_least : Comparison → Bool
at_least less = false
at_least equal = true
at_least greater = true

unfoldable pub is_equal : Comparison → Bool
is_equal equal = true
is_equal less = false
is_equal greater = false

unfoldable pub is_greater : Comparison → Bool
is_greater greater = true
is_greater less = false
is_greater equal = false

abbrev pub minus_one : ℤ
minus_one = negsuc 0

-- The first index that passes, if there is one.
unfoldable pub found_or_none : ℕ → ℕ → ℤ
found_or_none sz seq = if ltb seq sz then pos seq else minus_one

unfoldable pub search_ge : List Index → (Index → Comparison) → ℤ
search_ge indexes cmp =
    found_or_none (length indexes)
      (search (length indexes) (λ i. at_least (cmp (index_at indexes i))))

unfoldable pub search_gt : List Index → (Index → Comparison) → ℤ
search_gt indexes cmp =
    found_or_none (length indexes)
      (search (length indexes) (λ i. is_greater (cmp (index_at indexes i))))

unfoldable pub exact_at : List Index → (Index → Comparison) → ℤ → ℤ
exact_at indexes cmp (pos seq) =
    if is_equal (cmp (index_at indexes seq)) then pos seq else minus_one
exact_at indexes cmp (negsuc n) = minus_one

unfoldable pub prev_at : List Index → (Index → Comparison) → ℤ → ℤ
prev_at indexes cmp (pos seq) =
    if not (is_equal (cmp (index_at indexes seq))) then pos seq -ℤ pos 1 else pos seq
prev_at indexes cmp (negsuc n) = negsuc n

unfoldable pub before_at : List Index → ℤ → ℤ
before_at indexes (pos seq) = pos seq -ℤ pos 1
before_at indexes (negsuc n) = pos (length indexes) -ℤ pos 1

-- `none` for a flag that is not supported.
unfoldable pub seek : VsBlock → ℕ → SeekKeyFlag → Option ℤ
seek b stime exact =
    let cmp = compare_stime stime in some (exact_at b.indexes cmp (search_ge b.indexes cmp))
seek b stime or_next = some (search_ge b.indexes (compare_stime stime))
seek b stime or_prev =
    let cmp = compare_stime stime in some (prev_at b.indexes cmp (search_ge b.indexes cmp))
seek b stime after = some (search_gt b.indexes (compare_stime stime))
seek b stime before = some (before_at b.indexes (search_ge b.indexes (compare_stime stime)))
seek b stime prefix = none
seek b stime prefix_last = none
seek b stime prefix_last_or_prev = none
