-- ===== src/SegmentedFile/Compact.antt =====
-- `Compact` and the recovery of the row of segments from the files of a directory.
use vanus.Base.{
  Bool-cases, List, Option, [], arith, inl, inr, ltb, ltb-false, none, refl, some, ℕ, ◌%◌, ◌++◌,
  ◌+◌, ◌-◌, ◌<◌, ◌==◌, ◌∷◌, ◌≡◌, ◌≤◌,
}
use vanus.SegmentedFile.{
  Segment, SegmentedFile, compact, compact_segments, last_segment, new_segment, scan_segment_files,
}
use vanus.SegmentedFile.Select.{IsContiguous, find_segment}

-- After `Compact` every offset from `off` on lies in the segment that it lay in before.
pub find-compact :
    (ss : List Segment) (off offset : ℕ)
    → off ≤ offset
    → find_segment (compact_segments ss off) offset ≡ find_segment ss offset
unfolding compact_segments find_segment
find-compact [] off offset h = refl
find-compact (s ∷ []) off offset h = refl
find-compact (s ∷ t ∷ ss) off offset h = elim (Bool-cases (ltb off s.eo)) [
  | inl e ↦ rw (e, IsContiguous)
  | inr e ↦ rw (e, ltb-false offset s.eo (ground arith)) (find-compact (t ∷ ss) off offset h)
]

-- `Compact` leaves a contiguous row contiguous, and its last segment in place.
pub compact-IsContiguous :
    (ss : List Segment) (off : ℕ) → IsContiguous ss → IsContiguous (compact_segments ss off)
unfolding compact_segments
compact-IsContiguous [] off c = tt
compact-IsContiguous (s ∷ []) off c = c
compact-IsContiguous (s ∷ t ∷ ss) off c = elim (Bool-cases (ltb off s.eo)) [
  | inl e ↦ rw e c
  | inr e ↦ rw e (compact-IsContiguous (t ∷ ss) off c.3)
]

abbrev pub last_of : List Segment → Option Segment
last_of [] = none
last_of (s ∷ ss) = some (last_segment s ss)

last_of-compact : (ss : List Segment) (off : ℕ) → last_of (compact_segments ss off) ≡ last_of ss
unfolding compact_segments last_segment
last_of-compact [] off = refl
last_of-compact (s ∷ []) off = refl
last_of-compact (s ∷ t ∷ ss) off = elim (Bool-cases (ltb off s.eo)) [
  | inl e ↦ rw (e, IsContiguous)
  | inr e ↦ rw e (last_of-compact (t ∷ ss) off)
]

-- Compacting a contiguous log at an offset keeps it contiguous, keeps its last segment, and leaves
-- every offset from there on in the segment that held it.
pub compact-keeps :
    (sf : SegmentedFile) (off offset : ℕ)
    → IsContiguous sf.segments
    → off ≤ offset
    → IsContiguous (compact sf off).segments
      × (last_of (compact sf off).segments ≡ last_of sf.segments)
      × (find_segment (compact sf off).segments offset ≡ find_segment sf.segments offset)
unfolding compact
compact-keeps sf off offset c h = (
  compact-IsContiguous sf.segments off c,
  last_of-compact sf.segments off,
  find-compact sf.segments off offset h,
)

-- The state of the recovery loop: the segments kept so far end in the last one read.
abbrev EndsIn : List Segment → Option Segment → Type 0
EndsIn ss last = IsContiguous ss × (last_of ss ≡ last)

snoc-EndsIn :
    (ss : List Segment) (l next : Segment)
    → EndsIn ss (some l)
    → next.so + next.size ≡ next.eo
    → 0 < next.size
    → next.so ≡ l.eo
    → EndsIn (ss ++ next ∷ []) (some next)
unfolding last_segment
snoc-EndsIn [] l next h e p q = absurd (ground (arith, h.1))
snoc-EndsIn (s ∷ []) l next h e p q = ground (arith, h.1)
snoc-EndsIn (s ∷ t ∷ ss) l next h e p q =
    let rest = snoc-EndsIn (t ∷ ss) l next (h.0.3, h.1) e p q in
    ((h.0.0, h.0.1, h.0.2, rest.0), rest.1)

-- Each file holds a segment at least.
abbrev pub AreFiles : ℕ → List (ℕ × ℕ) → Type 0
AreFiles segment_size [] = Unit {0}
AreFiles segment_size ((so, size) ∷ files) =
    (0 < size - size % segment_size) × AreFiles segment_size files

scan-EndsIn :
    (files : List (ℕ × ℕ)) (z : ℕ) (last : Option Segment) (ss ds : List Segment)
    → AreFiles z files
    → EndsIn ss last
    → IsContiguous (scan_segment_files files z last ss ds).0
unfolding scan_segment_files new_segment
scan-EndsIn [] z last ss ds a h = h.0
scan-EndsIn ((so, size) ∷ files) z none [] ds a h =
    scan-EndsIn files z (some (new_segment so (size - size % z)))
      (new_segment so (size - size % z) ∷ []) ds a.1 ((refl, a.0), unfold last_segment in refl)
scan-EndsIn ((so, size) ∷ files) z none (s ∷ ss) ds a h = absurd (ground (arith, h.1))
scan-EndsIn ((so, size) ∷ files) z (some l) ss ds a h = elim (Bool-cases (so == l.eo)) [
  | inl e ↦
      rw (e, IsContiguous)
        (scan-EndsIn files z (some (new_segment so (size - size % z)))
          (ss ++ new_segment so (size - size % z) ∷ []) ds a.1
          (snoc-EndsIn ss l (new_segment so (size - size % z)) h refl a.0 (ground arith)))
  | inr e ↦
      rw (e, IsContiguous)
        (scan-EndsIn files z (some (new_segment so (size - size % z)))
          (new_segment so (size - size % z) ∷ []) (ds ++ ss) a.1
          ((refl, a.0), unfold last_segment in refl))
]

-- Whatever gaps the files of a directory have, the segments that recovery keeps follow one another
-- without one, if every file holds at least one whole segment size.
pub scan-IsContiguous :
    (files : List (ℕ × ℕ)) (segment_size : ℕ)
    → AreFiles segment_size files
    → IsContiguous (scan_segment_files files segment_size none [] []).0
scan-IsContiguous files z a = scan-EndsIn files z none [] [] a (tt, refl)
