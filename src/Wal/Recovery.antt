-- ===== src/Wal/Recovery.antt =====
-- internal/store/wal/recovery.go: the scan of the log on opening. The callback is a parameter with a
-- state of its own; an error of the callback is a value of the type `E`.
pub mod Reassembly
pub mod Blocks
pub mod Fuel
use vanus.Base.{
  Bool, List, Option, [], drop, false, if◌then◌else◌, leb, length, ltb, none, some, suc, zero, ℕ,
  ◌%◌, ◌++◌, ◌+◌, ◌-◌, ◌/◌, ◌==◌, ◌||◌, ◌∷◌,
}
use vanus.SegmentedFile.{Segment, SegmentedFile, found, missing, panicked, select_segment}
use vanus.Wal.Record.{
  Record, UnmarshalResult, first_type, full_type, header_size, incomplete, is_non_terminal,
  is_terminal, last_type, middle_type, panic, read, size, unmarshal, zero_type,
}

pub record Range : Type 0 where
  pub so : ℕ
  pub eo : ℕ

-- Why a scan stops before the end of the segments.
pub data Stop (E : Type 0) : Type 0 where
  end_of_log : Stop E
  corrupt : Stop E
  callback : E → Stop E
  unexpected_state : Stop E
  out_of_fuel : Stop E

-- What `scanLogEntries` returns.
pub data Scanned (E : Type 0) : Type 0 where
  scanned : ℕ → Scanned E
  failed : Stop E → Scanned E
  out_of_range : Scanned E

-- `scanner`; the state of the callback stands beside it.
pub record Scanner (S : Type 0) : Type 0 where
  pub block_size : ℕ
  pub buffer : List ℕ
  pub last : ℕ
  pub eo : ℕ
  pub from : ℕ
  pub state : S

-- Go on, unless there was an error.
abbrev pub unless_stopped :
    {S E : Type 0}
    → Scanner S × Option (Stop E)
    → (Scanner S → Scanner S × Option (Stop E))
    → Scanner S × Option (Stop E)
unless_stopped (sc, some e) next = (sc, some e)
unless_stopped (sc, none) next = next sc

-- The end of `onRecord`: the type is kept, and the end of an entry is noted.
unfoldable pub settle : {S : Type 0} → Scanner S → ℕ → ℕ → Scanner S
settle sc kind eo =
    let sc' = record sc { last = kind } in if is_terminal kind then record sc' { eo = eo } else sc'

-- `WAL: unexpected state` for a record that begins an entry, and for one that goes on with one.
unfoldable pub may_begin : ℕ → Bool
may_begin last = is_terminal last || last == zero_type

module _ {S E : Type 0} (cb : List ℕ → Range → S → S × Option E) where
  -- The callback on an entry that ends at `eo`, and the buffer after it. After an error the rest
  -- of the scanner stays as it is.
  unfoldable pub deliver : Scanner S → List ℕ → ℕ → ℕ → List ℕ → Scanner S × Option (Stop E)
  deliver sc entry kind eo buffer =
      let (st, err) = cb entry (record { so = sc.eo; eo = eo }) sc.state in
      let sc' = record sc { state = st } in
      elim err [
        | some e ↦ (sc', some (callback e))
        | none ↦ (settle (record sc' { buffer = buffer }) kind eo, none)
      ]

  unfoldable pub on_record : Scanner S → Record → ℕ → Scanner S × Option (Stop E)
  on_record sc r eo =
      let grown = record sc { buffer = sc.buffer ++ r.payload } in
      if r.kind == full_type
      then if may_begin sc.last
        then deliver sc r.payload r.kind eo sc.buffer
        else (sc, some unexpected_state)
      else if r.kind == first_type
      then if may_begin sc.last then (settle grown r.kind eo, none) else (sc, some unexpected_state)
      else if r.kind == middle_type
      then if is_non_terminal sc.last
        then (settle grown r.kind eo, none)
        else (sc, some unexpected_state)
      else if r.kind == last_type
      then if is_non_terminal sc.last
        then deliver grown grown.buffer r.kind eo []
        else (sc, some unexpected_state)
      else if r.kind == zero_type
      then (sc, some unexpected_state)
      else (settle sc r.kind eo, none)

  -- What the loop does with a record that it read at `at`; `next` is the loop behind it.
  unfoldable pub scan_record :
      Scanner S
      → UnmarshalResult
      → ℕ
      → (Scanner S → ℕ → Scanner S × Option (Stop E))
      → Scanner S × Option (Stop E)
  scan_record sc (incomplete r) at next = (sc, some corrupt)
  scan_record sc panic at next = (sc, some unexpected_state)
  scan_record sc (read r) at next =
      if r.kind == zero_type
      then (sc, some end_of_log)
      else unless_stopped (on_record sc r (at + size r)) (λ sc'. next sc' (size r))

  -- The inner loop of `scanSegmentFile` over one block that begins at `bso`, with fuel.
  unfoldable pub scan_block : ℕ → Scanner S → List ℕ → ℕ → ℕ → Scanner S × Option (Stop E)
  scan_block zero sc buf bso so = (sc, some out_of_fuel)
  scan_block (suc fuel) sc buf bso so =
      let rest =
        scan_record sc (unmarshal (drop so buf)) (bso + so)
          (λ sc' sz. scan_block fuel sc' buf bso (so + sz)) in
      if leb (so + header_size) sc.block_size then rest else (sc, none)

  unfoldable pub first_record_offset : Scanner S → ℕ → Option ℕ
  first_record_offset sc so =
      if ltb so sc.from
      then if leb sc.block_size (sc.from - so) then none else some (sc.from % sc.block_size)
      else some 0

  unfoldable pub first_block_offset : Scanner S → ℕ → ℕ → Option ℕ
  first_block_offset sc so eo =
      if ltb so sc.from
      then if leb eo sc.from then none else some (sc.from - so - (sc.from - so) % sc.block_size)
      else some 0

  -- The outer loop over the blocks of one segment that starts at `so`: the blocks from `at` on.
  unfoldable pub scan_blocks : ℕ → Scanner S → List (List ℕ) → ℕ → ℕ → Scanner S × Option (Stop E)
  scan_blocks fuel sc [] so at = (sc, none)
  scan_blocks fuel sc (buf ∷ bufs) so at = elim (first_record_offset sc (so + at)) [
    | none ↦ (sc, some unexpected_state)
    | some ro ↦
        (unless_stopped (scan_block fuel sc buf (so + at) ro)
          (λ sc'. scan_blocks fuel sc' bufs so (at + sc.block_size)))
  ]

  -- `scanSegmentFile`; `content` gives the blocks of a segment's file.
  unfoldable pub scan_segment_file :
      ℕ → (Segment → List (List ℕ)) → Scanner S → Segment → Scanner S × Option (Stop E)
  scan_segment_file fuel content sc s = elim (first_block_offset sc s.so s.eo) [
    | none ↦ (sc, some unexpected_state)
    | some at ↦ scan_blocks fuel sc (drop (at / sc.block_size) (content s)) s.so at
  ]

  -- The loop of `scanLogEntries` over the segments, with fuel: the offset to write from, which is
  -- 0 where the segments end before the log does.
  unfoldable pub scan_segments :
      ℕ
      → ℕ
      → (Segment → List (List ℕ))
      → SegmentedFile
      → Scanner S
      → Segment
      → Scanner S × Scanned E
  scan_segments zero fuel content sf sc s = (sc, failed out_of_fuel)
  scan_segments (suc rounds) fuel content sf sc s =
      let (sc', stop) = scan_segment_file fuel content sc s in
      elim stop [
        | some end_of_log ↦ (sc', scanned sc'.eo)
        | some e ↦ (sc', failed e)
        | none ↦ elim (select_segment sf s.eo false) [
          | found t _ ↦ scan_segments rounds fuel content sf sc' t
          | missing ↦ (sc', scanned 0)
          | panicked ↦ (sc', failed unexpected_state)
        ]
      ]

  unfoldable pub scan_log_entries :
      ℕ → (Segment → List (List ℕ)) → SegmentedFile → ℕ → ℕ → S → S × Scanned E
  scan_log_entries fuel content sf block_size from state = elim (select_segment sf from false) [
    | missing ↦ if from == 0 then (state, scanned 0) else (state, out_of_range)
    | panicked ↦ (state, failed unexpected_state)
    | found s _ ↦
        (let sc : Scanner S = record {
          block_size = block_size;
          buffer = [];
          last = zero_type;
          eo = from;
          from = from;
          state = state;
        } in
          let (sc', result) = scan_segments (suc (length sf.segments)) fuel content sf sc s in
          (sc'.state, result))
  ]
