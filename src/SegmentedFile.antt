-- ===== src/SegmentedFile.antt =====
-- internal/store/io/zone/segmentedfile: one address space over a row of files of a fixed size.
-- A segment's file is left out here: the content of the log is a function of the segment.
pub mod Select
pub mod Compact
mod Tests
use vanus.Base.{
  Bool, List, Option, [], false, get_elem?, if◌then◌else◌, leb, length, ltb, none, not, search,
  some, true, ℕ, ◌%◌, ◌++◌, ◌+◌, ◌-◌, ◌==◌, ◌∷◌,
}

pub record Segment : Type 0 where
  pub so : ℕ
  pub eo : ℕ
  pub size : ℕ

unfoldable pub new_segment : ℕ → ℕ → Segment
new_segment so size = record { so = so; eo = so + size; size = size }

-- The segments in order, and the size of a new one.
pub record SegmentedFile : Type 0 where
  pub segments : List Segment
  pub segment_size : ℕ

-- What `SelectSegment` returns, with the file after it: a segment, nil, or a panic.
pub data Selected : Type 0 where
  found : Segment → SegmentedFile → Selected
  missing : Selected
  panicked : Selected

unfoldable pub last_segment : Segment → List Segment → Segment
last_segment s [] = s
last_segment s (t ∷ ts) = last_segment t ts

-- `createNextSegment` at the end of the last segment; the file system call is taken to succeed.
unfoldable pub create_next_segment : SegmentedFile → ℕ → Selected
unfolding new_segment
create_next_segment sf off =
    let next = new_segment off sf.segment_size in
    found next (record sf { segments = sf.segments ++ next ∷ [] })

unfoldable pub of_found : SegmentedFile → Option Segment → Selected
of_found sf none = panicked
of_found sf (some s) = found s sf

unfoldable pub ends_after : List Segment → ℕ → ℕ → Bool
ends_after ss offset i = elim (get_elem? ss i) [ none ↦ true | some s ↦ ltb offset s.eo ]

-- The search over the segments before the last.
unfoldable pub search_segment : SegmentedFile → ℕ → ℕ → Selected
unfolding of_found
search_segment sf sz offset =
    let i = search (sz - 1) (ends_after sf.segments offset) in
    if ltb i (sz - 1) then of_found sf (get_elem? sf.segments i) else panicked

unfoldable pub select_in : SegmentedFile → Segment → Segment → ℕ → Bool → Selected
unfolding create_next_segment
select_in sf first last offset auto_create =
    if leb last.so offset
    then if ltb offset last.eo
      then found last sf
      else if offset == last.eo
      then if auto_create then create_next_segment sf last.eo else missing
      else panicked
    else if ltb offset first.so
    then panicked
    else search_segment sf (length sf.segments) offset

unfoldable pub select_from : SegmentedFile → List Segment → ℕ → Bool → Selected
unfolding select_in create_next_segment last_segment
select_from sf [] offset auto_create =
    if offset == 0 then if auto_create then create_next_segment sf 0 else missing else panicked
select_from sf (s ∷ ss) offset auto_create = select_in sf s (last_segment s ss) offset auto_create

unfoldable pub select_segment : SegmentedFile → ℕ → Bool → Selected
unfolding select_from
select_segment sf offset auto_create = select_from sf sf.segments offset auto_create

-- `Compact` keeps the last segment and, before it, those from the first that ends after `off`.
unfoldable pub compact_segments : List Segment → ℕ → List Segment
compact_segments [] off = []
compact_segments (s ∷ []) off = s ∷ []
compact_segments (s ∷ t ∷ ss) off =
    let rest = compact_segments (t ∷ ss) off in if ltb off s.eo then s ∷ t ∷ ss else rest

unfoldable pub compact : SegmentedFile → ℕ → SegmentedFile
unfolding compact_segments
compact sf off = record sf { segments = compact_segments sf.segments off }

-- The loop of `scanSegmentFiles` over the start offsets and the sizes of the files, in order: the
-- segments kept so far, and those discarded before a gap.
unfoldable pub scan_segment_files :
    List (ℕ × ℕ) → ℕ → Option Segment → List Segment → List Segment → List Segment × List Segment
scan_segment_files [] segment_size last segments discards = (segments, discards)
scan_segment_files ((so, size) ∷ files) segment_size last segments discards =
    let gap : Bool = elim last [ none ↦ false | some l ↦ not (so == l.eo) ] in
    let next = new_segment so (size - size % segment_size) in
    scan_segment_files files segment_size (some next) ((if gap then [] else segments) ++ next ∷ [])
      (if gap then discards ++ segments else discards)
