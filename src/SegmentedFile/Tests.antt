-- ===== src/SegmentedFile/Tests.antt =====
-- The segmented file's theorems at concrete inputs.
use vanus.Base.{[], arith, false, none, ◌∷◌, ◌≡◌}
use vanus.SegmentedFile.{Segment, compact, last_segment, scan_segment_files, select_segment}
use vanus.SegmentedFile.Select.{
  IsContiguous, find_segment, log_of, select_reference, select_segment-reference,
}
use vanus.SegmentedFile.Compact.{compact-keeps, last_of, scan-IsContiguous}

abbrev first : Segment
first = record { so = 0; eo = 8; size = 8 }

abbrev second : Segment
second = record { so = 8; eo = 16; size = 8 }

abbrev third : Segment
third = record { so = 16; eo = 24; size = 8 }

select_segment-reference_example :
    select_segment (log_of (first ∷ second ∷ third ∷ []) 8) 9 false
    ≡ select_reference
        (log_of (first ∷ second ∷ third ∷ []) 8)
        (last_segment first (second ∷ third ∷ []))
        9
select_segment-reference_example =
    select_segment-reference first (second ∷ third ∷ []) 8 9 (omega arith) (omega arith)

compact-keeps_example :
    let sf = log_of (first ∷ second ∷ third ∷ []) 8 in
    IsContiguous (compact sf 9).segments
    × (last_of (compact sf 9).segments ≡ last_of sf.segments)
    × (find_segment (compact sf 9).segments 13 ≡ find_segment sf.segments 13)
compact-keeps_example =
    compact-keeps (log_of (first ∷ second ∷ third ∷ []) 8) 9 13 (omega arith) (omega arith)

scan-IsContiguous_example :
    IsContiguous (scan_segment_files ((0, 8) ∷ (16, 19) ∷ (32, 8) ∷ []) 8 none [] []).0
scan-IsContiguous_example = scan-IsContiguous ((0, 8) ∷ (16, 19) ∷ (32, 8) ∷ []) 8 (omega arith)
