-- ===== src/Vsb/Header.antt =====
-- internal/store/vsb/block_header.go: the header of a block file.
pub mod RoundTrip
use vanus.Base.{
  List, [], crc_checksum, crc_update, drop, get_or, if◌then◌else◌, le_bytes, le_value, length, ltb,
  not, replicate, slice, take, write_at, ℕ, ◌%◌, ◌+◌, ◌-◌, ◌==◌, ◌∷◌,
}
use vanus.Vsb.{Meta, VsBlock, format_magic}

abbrev pub header_size : ℕ
header_size = 46

-- The checksum also covers the zeros that fill the header's block of 4096 bytes.
unfoldable pub header_crc : List ℕ → ℕ
header_crc covered = crc_update (crc_checksum covered) (replicate 4050 0)

-- The difference of the offsets that is written as the index offset, a uint16.
unfoldable pub index_gap : VsBlock → Meta → ℕ
index_gap b m =
    let eo = b.data_offset + m.entry_length in
    if ltb eo b.index_offset then (b.index_offset - eo) % 65536 else 0

-- The header's bytes before the checksum is written.
unfoldable pub header_fields : VsBlock → Meta → List ℕ
header_fields b m =
    let b0 = write_at (replicate header_size 0) 0 (le_bytes 4 format_magic) in
    let b1 = write_at b0 8 (le_bytes 4 0) in
    let b2 = write_at b1 12 (le_bytes 4 0) in
    let b3 = write_at b2 16 (le_bytes 4 b.data_offset) in
    let b4 = if m.archived then write_at b3 20 (1 ∷ []) else b3 in
    let b5 = write_at b4 22 (le_bytes 2 b.index_size) in
    let b6 = write_at b5 24 (le_bytes 8 b.capacity) in
    let b7 = write_at b6 32 (le_bytes 8 m.entry_length) in
    let b8 = write_at b7 40 (le_bytes 4 m.entry_num) in write_at b8 44 (le_bytes 2 (index_gap b m))

unfoldable pub header_bytes : VsBlock → Meta → List ℕ
header_bytes b m =
    let buf = header_fields b m in write_at buf 4 (le_bytes 4 (header_crc (drop 8 buf)))

-- The block, and the content of the file, after the write; the flushed meta is the one written.
unfoldable pub persist_header : VsBlock → Meta → List ℕ → VsBlock × List ℕ
persist_header b m file = (record b { fm = m }, write_at file 0 (header_bytes b m))

pub data LoadResult : Type 0 where
  loaded : VsBlock → LoadResult
  read_error invalid_format incomplete corrupted : LoadResult

-- The block with the fields of a header.
unfoldable pub load_fields : VsBlock → List ℕ → VsBlock
load_fields b buf = record b {
  data_offset = le_value (slice buf 16 20);
  index_size = le_value (slice buf 22 24);
  capacity = le_value (slice buf 24 32);
  fm = record {
    write_offset = b.fm.write_offset;
    entry_length = le_value (slice buf 32 40);
    entry_num = le_value (slice buf 40 44);
    archived = not (get_or buf 20 0 == 0);
  };
}

unfoldable pub load_header : VsBlock → List ℕ → LoadResult
load_header b file =
    if ltb (length file) header_size
    then read_error
    else let buf = take header_size file in
      if not (le_value (slice buf 0 4) == format_magic)
      then invalid_format
      else if not (le_value (slice buf 12 16) == 0)
      then incomplete
      else if le_value (slice buf 4 8) == header_crc (drop 8 buf)
      then loaded (load_fields b buf)
      else corrupted
