-- ===== src/Vsb/Header/RoundTrip.antt =====
-- What `persistHeader` writes is what `loadHeader` reads.
use vanus.Base.{
  Bool, Bool-cases, List, [], ap, arith, crc_checksum, crc_update-lt, drop, false, inl, inr,
  le_bytes, le_value, length, length-write_at, ltb-false, not, refl, replicate, same_number, slice,
  suc, sym, take, take-append_self, true, write_at, write_at-zero, zero, ℕ, ◌++◌, ◌/◌, ◌<◌, ◌==◌,
  ◌^◌, ◌∙◌, ◌∷◌, ◌≡◌, ◌≤◌,
}
use vanus.Vsb.{Meta, VsBlock, format_magic}
use vanus.Vsb.Header.{
  header_bytes, header_crc, header_fields, index_gap, load_fields, load_header, loaded,
  persist_header,
}

-- The values fit the widths of the header's fields.
pub record FitsHeader (b : VsBlock) (m : Meta) : Type 0 where
  pub data_offset_fits : b.data_offset < 2 ^ 32
  pub index_size_fits : b.index_size < 2 ^ 16
  pub capacity_fits : b.capacity < 2 ^ 64
  pub entry_length_fits : m.entry_length < 2 ^ 64
  pub entry_num_fits : m.entry_num < 2 ^ 32

-- `w` bytes are enough for `x`.
abbrev pub Fits : ℕ → ℕ → Type 0
Fits zero x = x ≡ 0
Fits (suc w) x = Fits w (x / 256)

pub le_value-le_bytes : (w x : ℕ) → Fits w x → le_value (le_bytes w x) ≡ x
unfolding le_value le_bytes
le_value-le_bytes zero x h = sym h
le_value-le_bytes (suc w) x h = omega (arith, le_value-le_bytes w (x / 256) h)

-- The bytes from the flags on.
covered : VsBlock → Meta → ℕ → List ℕ
covered b m state =
    le_bytes 4 0
    ++ (le_bytes 4 0
        ++ (le_bytes 4 b.data_offset
            ++ (state ∷ 0 ∷ []
                ++ (le_bytes 2 b.index_size
                    ++ (le_bytes 8 b.capacity
                        ++ (le_bytes 8 m.entry_length
                            ++ (le_bytes 4 m.entry_num ++ le_bytes 2 (index_gap b m))))))))

abbrev state_byte : Bool → ℕ
state_byte true = 1
state_byte false = 0

header-layout :
    (b : VsBlock) (m : Meta)
    → header_bytes b m
      ≡ le_bytes 4 format_magic
        ++ (le_bytes 4 (header_crc (covered b m (state_byte m.archived)))
            ++ covered b m (state_byte m.archived))
unfolding header_bytes header_fields write_at le_bytes covered
header-layout b m = elim (Bool-cases m.archived) [ inl e ↦ rw e | inr e ↦ rw e ]

pub length-header : (b : VsBlock) (m : Meta) → length (header_bytes b m) ≡ 46
unfolding le_bytes covered
length-header b m = rw (header-layout b m)

state_back : (archived : Bool) → not (state_byte archived == 0) ≡ archived
state_back true = refl
state_back false = refl

-- `b'` with the fields of `b` and of `m` that a header holds.
unfoldable pub read_fields : VsBlock → VsBlock → Meta → VsBlock
read_fields b b' m = record b' {
  data_offset = b.data_offset;
  index_size = b.index_size;
  capacity = b.capacity;
  fm = record m { write_offset = b'.fm.write_offset };
}

read_back :
    (b b' : VsBlock) (m : Meta)
    → FitsHeader b m
    → load_fields b' (header_bytes b m) ≡ read_fields b b' m
unfolding load_fields le_bytes covered read_fields
read_back b b' m h = rw (
  header-layout b m,
  le_value-le_bytes 4 b.data_offset (omega arith),
  le_value-le_bytes 2 b.index_size (omega arith),
  le_value-le_bytes 8 b.capacity (omega arith),
  le_value-le_bytes 8 m.entry_length (omega arith),
  le_value-le_bytes 4 m.entry_num (omega arith),
  state_back m.archived,
)

header_crc-lt : (bytes : List ℕ) → header_crc bytes < 2 ^ 32
unfolding header_crc
header_crc-lt bytes = crc_update-lt (crc_checksum bytes) (replicate 4050 0)

crc_back :
    (b : VsBlock) (m : Meta)
    → le_value (slice (header_bytes b m) 4 8) ≡ header_crc (drop 8 (header_bytes b m))
unfolding le_bytes
crc_back b m =
    let crc = header_crc (covered b m (state_byte m.archived)) in
    let small = header_crc-lt (covered b m (state_byte m.archived)) in
    rw (header-layout b m) (le_value-le_bytes 4 crc (omega (arith, small)))

magic_back : (b : VsBlock) (m : Meta) → le_value (slice (header_bytes b m) 0 4) ≡ format_magic
unfolding le_bytes le_value
magic_back b m = rw (header-layout b m)

break_flag_back : (b : VsBlock) (m : Meta) → le_value (slice (header_bytes b m) 12 16) ≡ 0
unfolding le_bytes le_value covered
break_flag_back b m = rw (header-layout b m)

written_header :
    (b : VsBlock) (m : Meta) (file : List ℕ)
    → 46 ≤ length file
    → take 46 (write_at file 0 (header_bytes b m)) ≡ header_bytes b m
written_header b m file h =
    let H = header_bytes b m in
    let n = length-header b m in
    ap (λ t. take 46 t) (write_at-zero file H (omega (arith, n, h)))
    ∙ (ap (λ k. take k (H ++ drop (length H) file)) (sym n)
        ∙ take-append_self H (drop (length H) file))

-- The tests of loadHeader pass on a header that was written.
load_of_header :
    (b' : VsBlock) (file buf : List ℕ)
    → 46 ≤ length file
    → take 46 file ≡ buf
    → le_value (slice buf 0 4) ≡ format_magic
    → le_value (slice buf 12 16) ≡ 0
    → le_value (slice buf 4 8) ≡ header_crc (drop 8 buf)
    → load_header b' file ≡ loaded (load_fields b' buf)
unfolding load_header
load_of_header b' file buf room whole magic flag crc = rw (
  ltb-false (length file) 46 room,
  whole,
  crc,
  magic,
  flag,
  same_number (header_crc (drop 8 buf)),
)

-- loadHeader reads the fields back that persistHeader wrote: data offset, index size, capacity,
-- length and number of the entries and the archived flag, whatever block they are read into. The
-- values fit the widths of their fields, and the file has at least 46 bytes.
pub load-persist :
    (b b' : VsBlock) (m : Meta) (file : List ℕ)
    → FitsHeader b m
    → 46 ≤ length file
    → load_header b' (persist_header b m file).1 ≡ loaded (read_fields b b' m)
unfolding persist_header
load-persist b b' m file h room =
    let buf = header_bytes b m in
    let out = write_at file 0 buf in
    let whole =
      load_of_header b' out buf (omega (arith, length-write_at file 0 buf, room))
        (written_header b m file room) (magic_back b m) (break_flag_back b m) (crc_back b m) in
    whole ∙ ap loaded (read_back b b' m h)
