-- ===== src/Wal/Record.antt =====
-- internal/store/wal/record/record.go: the layout of one record in a block of the log.
pub mod RoundTrip
use vanus.Base.{
  Bool, List, [], be_u16, be_u32, crc_checksum, drop, get_or, if◌then◌else◌, length, ltb, of_be_u16,
  of_be_u32, slice, write_at, ℕ, ◌%◌, ◌+◌, ◌==◌, ◌||◌, ◌∷◌,
}

abbrev pub header_size : ℕ
header_size = 7

-- The values of `Type`, a uint8.
abbrev pub zero_type : ℕ
zero_type = 0

abbrev pub full_type : ℕ
full_type = 1

abbrev pub first_type : ℕ
first_type = 2

abbrev pub middle_type : ℕ
middle_type = 3

abbrev pub last_type : ℕ
last_type = 4

unfoldable pub is_terminal : ℕ → Bool
is_terminal t = t == last_type || t == full_type

unfoldable pub is_non_terminal : ℕ → Bool
is_non_terminal t = t == middle_type || t == first_type

-- `Type` is the field `kind`, `Data` the field `payload`.
pub record Record : Type 0 where
  pub crc : ℕ  -- uint32
  pub length_field : ℕ  -- uint16
  pub kind : ℕ  -- uint8
  pub payload : List ℕ

unfoldable pub empty_record : Record
empty_record = record { crc = 0; length_field = 0; kind = zero_type; payload = [] }

abbrev pub size : Record → ℕ
size r = header_size + length r.payload

-- `MarshalTo` returns the size, updates the record's CRC and writes the buffer, or changes nothing.
pub data MarshalResult : Type 0 where
  marshalled : ℕ → Record → List ℕ → MarshalResult
  too_large : MarshalResult

-- The buffer before the checksum is written.
unfoldable pub marshal_body : Record → List ℕ → List ℕ
marshal_body r buf =
    let with_length = write_at buf 4 (be_u16 r.length_field) in
    let with_type = write_at with_length 6 (r.kind ∷ []) in
    if length r.payload == 0 then with_type else write_at with_type 7 r.payload

unfoldable pub marshal_crc : Record → List ℕ → ℕ
marshal_crc r body =
    if r.crc == 0 then crc_checksum (slice body 6 (7 + length r.payload)) else r.crc

unfoldable pub marshal_to : Record → List ℕ → MarshalResult
marshal_to r buf =
    if ltb (length buf) (size r)
    then too_large
    else let body = marshal_body r buf in
      let crc = marshal_crc r body in
      marshalled (size r) (record r { crc = crc }) (write_at body 0 (be_u32 crc))

-- `Unmarshal`: the record, the record with an error, or a slice out of range. The upper end of the
-- slice is computed in uint16.
pub data UnmarshalResult : Type 0 where
  read : Record → UnmarshalResult
  incomplete : Record → UnmarshalResult
  panic : UnmarshalResult

unfoldable pub unmarshal : List ℕ → UnmarshalResult
unfolding empty_record
unmarshal bytes =
    if ltb (length bytes) header_size
    then read empty_record
    else let len = of_be_u16 (drop 4 bytes) in
      let r : Record = record {
        crc = of_be_u32 bytes;
        length_field = len;
        kind = get_or bytes 6 0;
        payload = [];
      } in
      let eo = (7 + len) % 65536 in
      if ltb (length bytes) (len + header_size)
      then incomplete r
      else if ltb eo 7
      then panic
      else read (record r { payload = slice bytes 7 eo })
