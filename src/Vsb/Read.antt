-- ===== src/Vsb/Read.antt =====
-- internal/store/vsb/block_read.go: reading entries by their sequence number.
use vanus.Base.{
  Bool, List, Option, [], drop, false, get_elem?, if◌then◌else◌, leb, length, ltb, none, not, slice,
  some, suc, true, zero, ℕ, ◌&&◌, ◌++◌, ◌+◌, ◌-◌, ◌==◌, ◌∷◌,
}
use vanus.Vsb.{Index, VsBlock, end_offset, start_offset}
use vanus.Vsb.Codec.{Codec, Entry}

pub data EntryRange : Type 0 where
  range : ℕ → ℕ → ℕ → EntryRange
  on_end exceeded : EntryRange
  out_of_range : EntryRange  -- an index out of range, which panics

pub data ReadResult : Type 0 where
  entries : List Entry → ReadResult
  read_on_end read_exceeded read_panics io_error endless : ReadResult

unfoldable pub full : VsBlock → Bool
full b = b.actx.archived

unfoldable pub range_between : Option Index → Option Index → ℕ → EntryRange
range_between (some first) (some last) num = range (start_offset first) (end_offset last) num
range_between none last num = out_of_range
range_between (some first) none num = out_of_range

unfoldable pub entry_count : ℕ → ℕ → ℕ
entry_count sz count = if leb (sz + 1) count then sz else count

-- `count` is `start + num`, one more than the last index that is asked for.
unfoldable pub entry_range : VsBlock → ℕ → ℕ → EntryRange
entry_range b start num =
    let sz = length b.indexes in
    if leb sz start
    then if (start == sz) && not (full b) then on_end else exceeded
    else let count = entry_count sz (start + num) in
      if count == 0
      then out_of_range
      else range_between (get_elem? b.indexes start) (get_elem? b.indexes (count - 1))
          (count - start)

module _ (codec : Codec) where
  open codec use {unmarshal}

  -- A round for each byte is enough; packets of no bytes would be read for ever.
  unfoldable pub read_rounds : ℕ → List ℕ → List Entry → ReadResult
  read_rounds zero rest found = endless
  read_rounds (suc fuel) rest found = elim (ltb 0 (length rest)) [
    | false ↦ entries found
    | true ↦ elim (unmarshal rest) [
      | none ↦ endless
      | some p ↦ read_rounds fuel (drop p.0 rest) (found ++ (p.1 ∷ []))
    ]
  ]

  unfoldable pub read_range : List ℕ → EntryRange → ReadResult
  read_range file (range from to num) =
      if ltb (length file) to
      then io_error
      else let bytes = slice file from to in read_rounds (suc (length bytes)) bytes []
  read_range file on_end = read_on_end
  read_range file exceeded = read_exceeded
  read_range file out_of_range = read_panics

  unfoldable pub read : VsBlock → List ℕ → ℕ → ℕ → ReadResult
  read b file seq num = read_range file (entry_range b seq num)
