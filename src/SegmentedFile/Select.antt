-- ===== src/SegmentedFile/Select.antt =====
-- `SelectSegment` finds the segment that holds an offset.
use native.Mathlib.Decide.{dec_lt}
use vanus.Base.{
  Bool, Bool-cases, IsFirst, IsFirst-le, IsMonotone, List, Option, [], arith, false, get_elem?,
  if◌then◌else◌, inl, inr, leb-false, length, le→leb, ltb, ltb-false, ltb→lt, lt→ltb, none, refl,
  search, search-IsFirst, some, suc, true, zero, ℕ, ◌+◌, ◌-◌, ◌<◌, ◌==◌, ◌∷◌, ◌≡◌, ◌≤◌,
}
use vanus.SegmentedFile.{
  Segment, SegmentedFile, Selected, ends_after, found, last_segment, missing, of_found, panicked,
  search_segment, select_in, select_segment,
}

-- Segments that follow one another with no gap, each of them holding something.
abbrev pub IsContiguous : List Segment → Type 0
IsContiguous [] = Unit {0}
IsContiguous (s ∷ []) = (s.so + s.size ≡ s.eo) × (0 < s.size)
IsContiguous (s ∷ t ∷ ss) =
    (s.so + s.size ≡ s.eo) × (0 < s.size) × (s.eo ≡ t.so) × IsContiguous (t ∷ ss)

-- The first segment that ends after the offset.
unfoldable pub find_segment : List Segment → ℕ → Option Segment
find_segment [] offset = none
find_segment (s ∷ ss) offset =
    let rest = find_segment ss offset in if ltb offset s.eo then some s else rest

-- The answer for an offset from the first segment on, by the search through all segments.
unfoldable pub select_reference : SegmentedFile → Segment → ℕ → Selected
select_reference sf last offset = elim (find_segment sf.segments offset) [
  | some s ↦ found s sf
  | none ↦ if offset == last.eo then missing else panicked
]

head_grows : (t : Segment) (ss : List Segment) → IsContiguous (t ∷ ss) → t.so < t.eo
head_grows t [] c = omega arith
head_grows t (u ∷ ss) c = omega arith

eo-le_last :
    (s : Segment) (ss : List Segment) → IsContiguous (s ∷ ss) → s.eo ≤ (last_segment s ss).eo
unfolding last_segment
eo-le_last s [] c = omega arith
eo-le_last s (t ∷ ss) c = omega (arith, eo-le_last t ss c.3, head_grows t ss c.3)

so-le_last :
    (s : Segment) (ss : List Segment) → IsContiguous (s ∷ ss) → s.so ≤ (last_segment s ss).so
unfolding last_segment
so-le_last s [] c = omega arith
so-le_last s (t ∷ ss) c = omega (arith, so-le_last t ss c.3)

-- Nothing but the last segment ends after an offset that lies in it or behind it.
find_from_last :
    (s : Segment) (ss : List Segment) (offset : ℕ)
    → IsContiguous (s ∷ ss)
    → (last_segment s ss).so ≤ offset
    → find_segment (s ∷ ss) offset
      ≡ (if ltb offset (last_segment s ss).eo then some (last_segment s ss) else none)
unfolding find_segment last_segment
find_from_last s [] offset c h = refl
find_from_last s (t ∷ ss) offset c h =
    let i : t.so ≤ (last_segment t ss).so = so-le_last t ss c.3 in
    rw (ltb-false offset s.eo (omega arith)) (find_from_last t ss offset c.3 h)

find-first :
    (ss : List Segment) (offset r : ℕ)
    → r < length ss
    → ((i : ℕ) → i < r → ends_after ss offset i ≡ false)
    → ends_after ss offset r ≡ true
    → find_segment ss offset ≡ get_elem? ss r
unfolding find_segment ends_after
find-first [] offset r h below at = elim h [ ]
find-first (s ∷ ss) offset zero h below at = rw at
find-first (s ∷ ss) offset (suc r) h below at =
    rw (below 0 (omega arith))
      (find-first ss offset r (omega arith) (λ i k. below (suc i) (omega arith)) at)

ends_after_mono :
    (ss : List Segment) (offset : ℕ)
    → IsContiguous ss
    → IsMonotone (length ss) (ends_after ss offset)
unfolding ends_after
ends_after_mono [] offset c a b h k p = refl
ends_after_mono (s ∷ ss) offset c zero zero h k p = p
ends_after_mono (s ∷ []) offset c a (suc b) h k p = absurd (omega arith)
ends_after_mono (s ∷ t ∷ ss) offset c zero (suc b) h k p =
    ends_after_mono (t ∷ ss) offset c.3 zero b (omega arith) (omega arith)
      (lt→ltb offset t.eo (omega (arith, ltb→lt offset s.eo p, head_grows t ss c.3)))
ends_after_mono (s ∷ t ∷ ss) offset c (suc a) (suc b) h k p =
    ends_after_mono (t ∷ ss) offset c.3 a b (omega arith) (omega arith) p
ends_after_mono (s ∷ ss) offset c (suc a) zero h k p = absurd (omega arith)

-- The segment before the last ends where the last begins.
before_last :
    (s t : Segment) (ss : List Segment) (offset : ℕ)
    → IsContiguous (s ∷ t ∷ ss)
    → offset < (last_segment t ss).so
    → ends_after (s ∷ t ∷ ss) offset (length ss) ≡ true
unfolding last_segment ends_after
before_last s t [] offset c h = lt→ltb offset s.eo (omega arith)
before_last s t (u ∷ ss) offset c h = before_last t u ss offset c.3 h

IsMonotone-le : (m n : ℕ) (f : ℕ → Bool) → m ≤ n → IsMonotone n f → IsMonotone m f
IsMonotone-le m n f h mono a b k l p = mono a b k (omega arith) p

search-find :
    (s t : Segment) (ss : List Segment) (offset : ℕ)
    → IsContiguous (s ∷ t ∷ ss)
    → offset < (last_segment t ss).so
    → let r = search (suc (length ss)) (ends_after (s ∷ t ∷ ss) offset) in
      (r < suc (length ss)) × (find_segment (s ∷ t ∷ ss) offset ≡ get_elem? (s ∷ t ∷ ss) r)
search-find s t ss offset c h =
    let all : List Segment = s ∷ t ∷ ss in
    let test = ends_after all offset in
    let r = search (suc (length ss)) test in
    let first : IsFirst (suc (length ss)) test r = search-IsFirst (suc (length ss)) test (
      IsMonotone-le (suc (length ss)) (length all) test (omega arith)
        (ends_after_mono all offset c)) in
    let le : r ≤ length ss =
      IsFirst-le (suc (length ss)) test r (length ss) first (before_last s t ss offset c h) in
    let lt : r < suc (length ss) = omega (arith, le) in
    (lt, find-first all offset r (omega (arith, le)) first.before (first.at_first lt))

found_in : (ss : List Segment) (r : ℕ) → r < length ss → (s : Segment) × (get_elem? ss r ≡ some s)
found_in [] r h = elim h [ ]
found_in (s ∷ ss) zero h = (s, refl)
found_in (s ∷ ss) (suc r) h = found_in ss r (omega arith)

abbrev pub log_of : List Segment → ℕ → SegmentedFile
log_of ss segment_size = record { segments = ss; segment_size = segment_size }

search_segment-reference :
    (s t : Segment) (ss : List Segment) (z offset : ℕ)
    → IsContiguous (s ∷ t ∷ ss)
    → offset < (last_segment t ss).so
    → search_segment (log_of (s ∷ t ∷ ss) z) (suc (suc (length ss))) offset
      ≡ select_reference (log_of (s ∷ t ∷ ss) z) (last_segment t ss) offset
unfolding search_segment select_reference of_found
search_segment-reference s t ss z offset c h =
    let n : suc (suc (length ss)) - 1 ≡ suc (length ss) = omega arith in
    let all : List Segment = s ∷ t ∷ ss in
    let r = search (suc (length ss)) (ends_after all offset) in
    let found_at = search-find s t ss offset c h in
    let (q, eq) = found_in all r (omega (arith, found_at.0)) in
    rw (n, found_at.1, select_reference) (rw (lt→ltb r (suc (length ss)) found_at.0, eq, of_found))

before-reference :
    (s : Segment) (ss : List Segment) (z offset : ℕ)
    → IsContiguous (s ∷ ss)
    → s.so ≤ offset
    → offset < (last_segment s ss).so
    → search_segment (log_of (s ∷ ss) z) (length (s ∷ ss)) offset
      ≡ select_reference (log_of (s ∷ ss) z) (last_segment s ss) offset
unfolding last_segment
before-reference s [] z offset c h k = absurd (omega arith)
before-reference s (t ∷ ss) z offset c h k = search_segment-reference s t ss z offset c k

-- In a contiguous row of segments, for an offset from the start of the first on, SelectSegment
-- without creation returns the first segment that ends after the offset; it returns nil at the end
-- of the last segment and panics behind it. So the fast path and the binary search agree with the
-- search through all segments.
pub select_segment-reference :
    (s : Segment) (ss : List Segment) (z offset : ℕ)
    → IsContiguous (s ∷ ss)
    → s.so ≤ offset
    → select_segment (log_of (s ∷ ss) z) offset false
      ≡ select_reference (log_of (s ∷ ss) z) (last_segment s ss) offset
unfolding select_segment select_in select_reference
select_segment-reference s ss z offset c h = elim (dec_lt offset (last_segment s ss).so) [
  | yes k ↦
      rw (leb-false (last_segment s ss).so offset k, ltb-false offset s.so h)
        (before-reference s ss z offset c h k)
  | no k ↦
      (let le : (last_segment s ss).so ≤ offset = omega arith in
        let here = find_from_last s ss offset c le in
        rw (le→leb (last_segment s ss).so offset le, here, select_reference)
          (elim (Bool-cases (ltb offset (last_segment s ss).eo)) [
            | inl e ↦ rw (e, select_reference)
            | inr e ↦ rw (e, select_reference)
          ]))
]
