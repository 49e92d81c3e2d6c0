-- ===== src/Vsb/Packet/Record.antt =====
-- internal/store/vsb/codec/record.go: a record, the data of a packet: the type of the entry, where its
-- optional attributes begin, and the encoding by type.
pub mod Layers
use vanus.Base.{
  List, drop, if◌then◌else◌, le_bytes, le_value, length, ltb, take, write_at, ℕ, ◌%◌, ◌++◌, ◌+◌,
  ◌-◌,
}
use vanus.Vsb.Codec.{Entry, EntryType, cloud_event, end_type, index_type}
use vanus.Vsb.Packet.{
  DataRead, PacketData, PacketWrite, data_fault, data_refused, not_encoded, out_of_range, written,
}

-- The types of entries, each a uint16.
unfoldable pub type_number : EntryType → ℕ
type_number cloud_event = 0x6563
type_number end_type = 0x6465
type_number index_type = 0x7864

-- What the encoder of a record's data returns: the number of bytes and that of the header, with the
-- buffer.
pub data RecordWrite : Type 0 where
  record_written : ℕ → ℕ → List ℕ → RecordWrite
  record_refused : RecordWrite
  record_fault : RecordWrite

-- `RecordDataEncoder` and `RecordDataDecoder`.
pub record RecordData : Type 0 where
  pub marshal_fields : Entry → List ℕ → RecordWrite
  pub unmarshal_fields : ℕ → ℕ → List ℕ → DataRead

abbrev pub record_header_size : ℕ
record_header_size = 4

-- Type and offset at the front; the offset is computed in 16 bits.
unfoldable pub frame_record : Entry → ℕ → List ℕ → List ℕ
unfolding type_number
frame_record e header_size buf =
    let with_type = write_at buf 0 (le_bytes 2 (type_number e.kind)) in
    write_at with_type 2 (le_bytes 2 (record_header_size + header_size % 65536))

unfoldable pub marshal_record : RecordData → Entry → List ℕ → PacketWrite
marshal_record c e buf =
    if ltb (length buf) record_header_size
    then out_of_range
    else elim (c.marshal_fields e (drop 4 buf)) [
      | record_refused ↦ not_encoded
      | record_fault ↦ out_of_range
      | record_written n header_size rest ↦
          written (record_header_size + n) (frame_record e header_size (take 4 buf ++ rest))
    ]

abbrev pub u16_at : List ℕ → ℕ → ℕ
u16_at buf off = le_value (take 2 (drop off buf))

unfoldable pub unmarshal_record : RecordData → List ℕ → DataRead
unmarshal_record c bytes =
    if ltb (length bytes) 4
    then data_fault
    else let offset = u16_at bytes 2 in
      if ltb offset record_header_size
      then data_refused
      else c.unmarshal_fields (u16_at bytes 0) (offset - record_header_size) (drop 4 bytes)

-- The record as the data of a packet.
unfoldable pub packet_data : RecordData → PacketData
packet_data c = record { marshal_data = marshal_record c; unmarshal_data = unmarshal_record c }
