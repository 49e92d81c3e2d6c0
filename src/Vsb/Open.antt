-- ===== src/Vsb/Open.antt =====
-- internal/store/vsb/block_open.go: what a block is when its file is opened again. A section reader
-- is the rest of the file from an offset, which moves by the bytes that are read.
pub mod Reopen
pub mod Archived
use vanus.Base.{
  Bool, List, [], drop, false, if◌then◌else◌, length, ltb, none, not, slice, some, suc, true, zero,
  ℕ, ◌++◌, ◌+◌, ◌-◌, ◌==◌, ◌∷◌,
}
use vanus.Vsb.{Index, VsBlock, end_offset, int32}
use vanus.Vsb.Codec.{Codec, Entry, EntryType, cloud_event, end_type, index_type}
use vanus.Vsb.Append.{is_end, last_index}
use vanus.Vsb.Header.{
  LoadResult, corrupted, incomplete, invalid_format, load_header, loaded, read_error,
}

-- codec.IndexSize.
abbrev pub index_entry_size : ℕ
index_entry_size = 24

pub data Repaired : Type 0 where
  repaired : VsBlock → Repaired
  corrupted_block repair_stuck : Repaired

pub data Rebuilt : Type 0 where
  rebuilt : List Index → Rebuilt
  rebuild_corrupted rebuild_stuck : Rebuilt

pub data InitResult : Type 0 where
  opened : VsBlock → InitResult
  header_failed : LoadResult → InitResult
  no_decoder repair_failed invalid never_ends : InitResult

unfoldable pub is_index : EntryType → Bool
is_index index_type = true
is_index cloud_event = false
is_index end_type = false

unfoldable pub is_event : EntryType → Bool
is_event cloud_event = true
is_event end_type = false
is_event index_type = false

-- SET_META.
unfoldable pub set_meta : VsBlock → ℕ → ℕ → Bool → VsBlock
set_meta b off seq full = record b {
  fm = record b.fm { write_offset = off };
  actx = record { seq = seq; offset = off; archived = if full then true else b.actx.archived };
}

unfoldable pub set_rebuilt : VsBlock → ℕ → ℕ → Bool → Rebuilt → Repaired
set_rebuilt b off seq full (rebuilt indexes) =
    repaired (set_meta (record b { indexes = indexes }) off seq full)
set_rebuilt b off seq full rebuild_corrupted = corrupted_block
set_rebuilt b off seq full rebuild_stuck = repair_stuck

-- The last index does not end where the entries end.
unfoldable pub misses_end : List Index → ℕ → Bool
misses_end [] eo = false
misses_end (i ∷ is) eo = not (end_offset (last_index i is) == eo)

unfoldable pub validate : VsBlock → InitResult
validate b = if ltb (length b.indexes) b.fm.entry_num then invalid else opened b

module _ (codec : Codec) where
  open codec use {unmarshal, indexes_in, is_incomplete}

  -- Every index gets the offset `off`, which the source does not move.
  unfoldable pub rebuild_rounds : ℕ → ℕ → List ℕ → List Index → Rebuilt
  rebuild_rounds zero off rest indexes = rebuild_stuck
  rebuild_rounds (suc fuel) off rest indexes = elim (unmarshal rest) [
    | none ↦ if is_incomplete rest then rebuilt indexes else rebuild_corrupted
    | some p ↦
        let idx : Index = record { offset = off; length = int32 p.0; stime = p.1.stime } in
        let next = rebuild_rounds fuel off (drop p.0 rest) (indexes ++ (idx ∷ [])) in
        if not (is_event p.1.kind) then rebuild_corrupted else next
  ]

  unfoldable pub with_tail : ℕ → List Index → Rebuilt → Rebuilt
  with_tail num tail (rebuilt indexes) =
      if not (length indexes + length tail == num)
      then rebuild_corrupted
      else rebuilt (indexes ++ tail)
  with_tail num tail rebuild_corrupted = rebuild_corrupted
  with_tail num tail rebuild_stuck = rebuild_stuck

  unfoldable pub rebuild_indexes : VsBlock → List ℕ → ℕ → List Index → Rebuilt
  rebuild_indexes b file num tail =
      let section = slice file b.data_offset (b.data_offset + b.fm.entry_length) in
      with_tail num tail (rebuild_rounds (suc (length section)) b.data_offset section [])

  -- FOUND_INDEX; `en` is the size of the end entry before it, or 0.
  unfoldable pub found_index : VsBlock → ℕ → ℕ → Bool → ℕ → ℕ → Entry → Repaired
  found_index b off seq full en n e =
      let indexes = indexes_in e in
      if misses_end indexes (off - en)
      then corrupted_block
      else repaired (
          set_meta (record b { indexes = indexes; index_offset = off; index_length = n }) off seq
            full)

  unfoldable pub after_end : VsBlock → List ℕ → ℕ → ℕ → ℕ → List Index → Repaired
  after_end b file off seq en indexes = elim (unmarshal (drop off file)) [
    | none ↦ set_rebuilt b off seq true (rebuild_indexes b file (seq - 1) indexes)
    | some p ↦
        if not (is_index p.1.kind) then corrupted_block else found_index b off seq true en p.0 p.1
  ]

  -- FOUND_END.
  unfoldable pub found_end : VsBlock → List ℕ → ℕ → ℕ → ℕ → Entry → List Index → Repaired
  found_end b file off seq n e indexes =
      if not (e.seq == seq) then corrupted_block else after_end b file (off + n) (seq + 1) n indexes

  -- An entry in the loop; `next` is the rest of it.
  unfoldable pub scan_entry :
      VsBlock → List ℕ → ℕ → ℕ → ℕ → Entry → List Index → Repaired → Repaired
  scan_entry b file off seq n e indexes next =
      if is_end e.kind
      then found_end b file off seq n e indexes
      else if is_index e.kind
      then found_index b off seq false 0 n e
      else next

  unfoldable pub scan_entries : ℕ → VsBlock → List ℕ → ℕ → ℕ → List Index → Repaired
  scan_entries zero b file off seq indexes = repair_stuck
  scan_entries (suc fuel) b file off seq indexes = elim (unmarshal (drop off file)) [
    | none ↦ set_rebuilt b off seq false (rebuild_indexes b file seq indexes)
    | some p ↦
        let idx : Index = record { offset = off; length = int32 p.0; stime = p.1.stime } in
        scan_entry b file off seq p.0 p.1 indexes
          (scan_entries fuel b file (off + p.0) (seq + 1) (indexes ++ (idx ∷ [])))
  ]

  -- A block whose header says archived begins with its end entry here.
  unfoldable pub repair_archived : VsBlock → List ℕ → ℕ → ℕ → Repaired
  repair_archived b file off seq = elim (unmarshal (drop off file)) [
    | none ↦ corrupted_block
    | some p ↦
        if not (is_end p.1.kind) then corrupted_block else found_end b file off seq p.0 p.1 []
  ]

  unfoldable pub repair_meta : VsBlock → List ℕ → Repaired
  repair_meta b file =
      let off = b.data_offset + b.fm.entry_length in
      if b.fm.archived
      then repair_archived b file off b.fm.entry_num
      else scan_entries (suc (length file)) b file off b.fm.entry_num []

  unfoldable pub init_repaired : Repaired → InitResult
  init_repaired (repaired b) = validate b
  init_repaired corrupted_block = repair_failed
  init_repaired repair_stuck = never_ends

  unfoldable pub init_loaded : List ℕ → LoadResult → InitResult
  -- NewDecoder refuses indexes that are too small.
  init_loaded file (loaded b) =
      if ltb b.index_size index_entry_size then no_decoder else init_repaired (repair_meta b file)
  init_loaded file read_error = header_failed read_error
  init_loaded file invalid_format = header_failed invalid_format
  init_loaded file incomplete = header_failed incomplete
  init_loaded file corrupted = header_failed corrupted

  unfoldable pub init : VsBlock → List ℕ → InitResult
  init b file = init_loaded file (load_header b file)
