-- ===== src/Vsb.antt =====
-- internal/store/vsb: the file of a block. Offsets, sizes and times are int64 values that are not
-- negative; the reads and writes of the file go to its content, a list of bytes.
mod Tests
pub mod Codec
pub mod Packet
pub mod Header
pub mod Append
pub mod Read
pub mod Open
pub mod Seek
pub mod Snapshot
pub mod Refine
use vanus.Base.{Bool, List, ℕ, ◌%◌, ◌+◌}

-- index/index.go: where an entry lies, and its time.
pub record Index : Type 0 where
  pub offset : ℕ
  pub length : ℕ
  pub stime : ℕ

-- `int32(n)`: its low 32 bits. The values are below 2^31; the theorems exclude the others.
abbrev pub int32 : ℕ → ℕ
int32 n = n % 4294967296

unfoldable pub start_offset : Index → ℕ
start_offset i = i.offset

unfoldable pub end_offset : Index → ℕ
end_offset i = i.offset + i.length

pub record Meta : Type 0 where
  pub write_offset : ℕ
  pub entry_length : ℕ
  pub entry_num : ℕ
  pub archived : Bool

pub record AppendContext : Type 0 where
  pub seq : ℕ
  pub offset : ℕ
  pub archived : Bool

pub record VsBlock : Type 0 where
  pub capacity : ℕ
  pub data_offset : ℕ
  pub index_size : ℕ
  pub index_offset : ℕ
  pub index_length : ℕ
  pub fm : Meta
  pub actx : AppendContext
  pub indexes : List Index

abbrev pub format_magic : ℕ
format_magic = 0x0062_7376
