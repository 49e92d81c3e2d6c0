-- ===== src/Vsb/Seek/Answers.antt =====
-- What the answers of a seek mean, on indexes whose times do not fall.
use mathlib.Core.Bool.{true≢false}
use native.Mathlib.Decide.{dec_lt}
use vanus.Base.{
  Bool, Bool-cases, IsFirst-le, IsMonotone, List, ap, arith, false, if◌then◌else◌, inl, inr, length,
  ltb, ltb-false, lt→ltb, search, search-IsFirst, some, suc, sym, true, ℕ, ◌&&◌, ◌<◌, ◌==◌, ◌↔◌,
  ◌∙◌, ◌≡◌, ◌≤◌,
}
use vanus.Vsb.{Index, VsBlock}
use vanus.Vsb.Seek.{
  after, at_least, before, before_at, compare_stime, exact, exact_at, found_or_none, index_at,
  is_equal, is_greater, minus_one, or_next, or_prev, prev_at, search_ge, search_gt, seek,
}
use vanus.Base.Int.{pos, ◌-ℤ◌}

-- The times do not fall.
abbrev pub IsTimed : List Index → Type 0
IsTimed indexes =
    (i j : ℕ) → i ≤ j → j < length indexes → (index_at indexes i).stime ≤ (index_at indexes j).stime

-- `r` indexes have a time below `val`, and they are the first.
pub record Split (indexes : List Index) (val r : ℕ) : Type 0 where
  pub bounded : r ≤ length indexes
  pub below : (i : ℕ) → i < r → (index_at indexes i).stime < val
  pub above : (i : ℕ) → r ≤ i → i < length indexes → val ≤ (index_at indexes i).stime

at_least-compare : (val : ℕ) (i : Index) → (at_least (compare_stime val i) ≡ true) ↔ (val ≤ i.stime)
unfolding at_least compare_stime
at_least-compare val i = ground arith

is_greater-compare :
    (val : ℕ) (i : Index) → (is_greater (compare_stime val i) ≡ true) ↔ (val < i.stime)
unfolding is_greater compare_stime
is_greater-compare val i = ground arith

is_equal-compare : (val : ℕ) (i : Index) → (is_equal (compare_stime val i) ≡ true) ↔ (i.stime ≡ val)
unfolding is_equal compare_stime
is_equal-compare val i = ground arith

-- An index that is the first to pass a test splits the indexes in the same place.
search_of_Split :
    (indexes : List Index) (val r : ℕ) (f : ℕ → Bool)
    → ((i : ℕ) → (f i ≡ true) ↔ (val ≤ (index_at indexes i).stime))
    → Split indexes val r
    → search (length indexes) f ≡ r
search_of_Split indexes val r f test v =
    let mono : IsMonotone (length indexes) f = λ a b le within p. elim (dec_lt b r) [
      | yes h ↦ absurd (omega (arith, (test a).0 p, v.below a (omega arith)))
      | no h ↦ (test b).1 (v.above b (omega arith) within)
    ] in
    let first = search-IsFirst (length indexes) f mono in
    let s = search (length indexes) f in
    elim (dec_lt s r) [
      | yes h ↦
          absurd
            (omega (arith, v.below s h, (test s).0 (first.at_first (omega (arith, v.bounded)))))
      | no h ↦ elim (dec_lt r s) [
        | no k ↦ omega arith
        | yes k ↦
            let passes = (test r).1 (v.above r (omega arith) (omega (arith, first.within))) in
            absurd (omega (arith, IsFirst-le (length indexes) f s r first passes))
      ]
    ]

below_of : (t : Bool) (val time : ℕ) → (t ≡ true) ↔ (val ≤ time) → t ≡ false → time < val
below_of t val time test e = elim (dec_lt time val) [
  | yes h ↦ h
  | no h ↦ absurd (true≢false (sym (test.1 (omega arith)) ∙ e))
]

before_found :
    (indexes : List Index) (ge : ℕ)
    → ge ≤ length indexes
    → before_at indexes (if ltb ge (length indexes) then pos ge else minus_one) ≡ pos ge -ℤ pos 1
unfolding before_at
before_found indexes ge h = elim (dec_lt ge (length indexes)) [
  | yes k ↦ rw (lt→ltb ge (length indexes) k)
  | no k ↦
      let same : ge ≡ length indexes = omega arith in
      rw (ltb-false ge (length indexes) (omega arith), same)
]

is_equal_test : (val : ℕ) (i : Index) → is_equal (compare_stime val i) ≡ (i.stime == val)
unfolding is_equal compare_stime
is_equal_test val i = ground arith

exact_found :
    (indexes : List Index) (val ge : ℕ)
    → exact_at indexes (compare_stime val) (if ltb ge (length indexes) then pos ge else minus_one)
      ≡ (if ltb ge (length indexes) && ((index_at indexes ge).stime == val)
          then pos ge
          else minus_one)
unfolding exact_at
exact_found indexes val ge = elim (Bool-cases (ltb ge (length indexes))) [
  | inl e ↦ rw (e, is_equal_test val (index_at indexes ge))
  | inr e ↦ rw e
]

prev_found :
    (indexes : List Index) (val ge : ℕ)
    → prev_at indexes (compare_stime val) (if ltb ge (length indexes) then pos ge else minus_one)
      ≡ (if ltb ge (length indexes)
          then if (index_at indexes ge).stime == val then pos ge else pos ge -ℤ pos 1
          else minus_one)
unfolding prev_at
prev_found indexes val ge = elim (Bool-cases (ltb ge (length indexes))) [
  | inr e ↦ rw e
  | inl e ↦
      rw (e, is_equal_test val (index_at indexes ge))
        (elim (Bool-cases ((index_at indexes ge).stime == val)) [ inl k ↦ rw k | inr k ↦ rw k ])
]

-- Where the times do not fall there is a place where they split.
pub splits : (indexes : List Index) (val : ℕ) → IsTimed indexes → (r : ℕ) × Split indexes val r
splits indexes val timed =
    let f : ℕ → Bool = λ i. at_least (compare_stime val (index_at indexes i)) in
    let test : (i : ℕ) → (f i ≡ true) ↔ (val ≤ (index_at indexes i).stime) =
      λ i. at_least-compare val (index_at indexes i) in
    let first =
      search-IsFirst (length indexes) f
        (λ a b le within p. (test b).1 (omega (arith, (test a).0 p, timed a b le within))) in
    (
      search (length indexes) f,
      record {
        bounded = first.within;
        below = λ i h. below_of (f i) val (index_at indexes i).stime (test i) (first.before i h);
        above = λ i h k. omega (
          arith,
          (test (search (length indexes) f)).0 (first.at_first (omega arith)),
          timed (search (length indexes) f) i h k,
        );
      },
    )

-- Let ge indexes have a time before the key's and be the first, and gt indexes a time not after
-- it. Then OrNext finds index ge and After index gt, or none at the end of the block; Before finds
-- the index in front of ge; Exact finds ge where its time is the key's, and none otherwise; OrPrev
-- finds ge where its time is the key's and the index in front of it otherwise, but none where no
-- index is at or behind the key.
pub seek_lem :
    (b : VsBlock) (val ge gt : ℕ)
    → Split b.indexes val ge
    → Split b.indexes (suc val) gt
    → let n = length b.indexes in
      (seek b val or_next ≡ some (if ltb ge n then pos ge else minus_one))
      × ((seek b val after ≡ some (if ltb gt n then pos gt else minus_one))
          × ((seek b val before ≡ some (pos ge -ℤ pos 1))
              × ((seek b val exact
                    ≡ some (
                        if ltb ge n && ((index_at b.indexes ge).stime == val)
                        then pos ge
                        else minus_one))
                  × (seek b val or_prev
                      ≡ some (
                          if ltb ge n
                          then if (index_at b.indexes ge).stime == val
                            then pos ge
                            else pos ge -ℤ pos 1
                          else minus_one)))))
unfolding seek search_ge search_gt found_or_none
seek_lem b val ge gt v w =
    let s =
      search_of_Split b.indexes val ge _ (λ i. at_least-compare val (index_at b.indexes i)) v in
    let t =
      search_of_Split b.indexes (suc val) gt _ (λ i. is_greater-compare val (index_at b.indexes i))
        w in
    (
      rw s,
      (
        rw t,
        (
          rw s (ap some (before_found b.indexes ge v.bounded)),
          (
            rw s (ap some (exact_found b.indexes val ge)),
            rw s (ap some (prev_found b.indexes val ge)),
          ),
        ),
      ),
    )
