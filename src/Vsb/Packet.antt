-- ===== src/Vsb/Packet.antt =====
-- internal/store/vsb/codec/packet.go: a packet around the data of an entry, with its length at both
-- ends and a checksum.
mod Tests
pub mod Image
pub mod Places
pub mod RoundTrip
pub mod Record
pub mod Format
use vanus.Base.{
  Bool, List, Option, crc_checksum, drop, if◌then◌else◌, le_bytes, le_value, length, ltb, none, not,
  replicate, slice, some, take, write_at, ℕ, ◌&&◌, ◌++◌, ◌+◌, ◌-◌, ◌==◌, ◌||◌,
}
use vanus.Vsb.Codec.{Entry}

abbrev pub packet_meta_size : ℕ
packet_meta_size = 12

abbrev pub packet_footer_size : ℕ
packet_footer_size = 8

-- What `MarshalTo` returns, with the buffer, or a slice out of range.
pub data PacketWrite : Type 0 where
  written : ℕ → List ℕ → PacketWrite
  not_encoded : PacketWrite
  out_of_range : PacketWrite

-- What a decoder of data returns: an entry or an error, or a slice out of range.
pub data DataRead : Type 0 where
  data_entry : Entry → DataRead
  data_refused : DataRead
  data_fault : DataRead

-- `PacketDataEncoder` and `PacketDataDecoder`. The first returns the number of bytes, and the buffer
-- that it wrote to.
pub record PacketData : Type 0 where
  pub marshal_data : Entry → List ℕ → PacketWrite
  pub unmarshal_data : List ℕ → DataRead

-- Length and entry, ErrIncompletePacket, ErrCorruptedPacket, or the error of the data decoder, which
-- may also fault.
pub data PacketRead : Type 0 where
  unpacked : ℕ → Entry → PacketRead
  incomplete : PacketRead
  corrupted : PacketRead
  not_decoded : PacketRead
  fault : PacketRead

-- `binary.LittleEndian.Uint32(buf[off:])`.
abbrev pub u32_at : List ℕ → ℕ → ℕ
u32_at buf off = le_value (take 4 (drop off buf))

-- The two lengths, and the checksum of all bytes before it.
unfoldable pub frame_packet : ℕ → List ℕ → List ℕ
frame_packet n buf =
    let len = packet_meta_size + n in
    let with_length = write_at buf 0 (le_bytes 4 len) in
    let with_footer = write_at with_length (4 + n) (le_bytes 4 len) in
    write_at with_footer (8 + n) (le_bytes 4 (crc_checksum (take (8 + n) with_footer)))

-- Go faults where the buffer is too short for the packet.
unfoldable pub marshal_packet : PacketData → Entry → List ℕ → PacketWrite
marshal_packet c e buf =
    if ltb (length buf) 4 then out_of_range else elim (c.marshal_data e (drop 4 buf)) [
      | not_encoded ↦ not_encoded
      | out_of_range ↦ out_of_range
      | written n rest ↦
          if ltb (length buf) (packet_meta_size + n)
          then out_of_range
          else written (packet_meta_size + n) (frame_packet n (take 4 buf ++ rest))
    ]

abbrev pub checksum_holds : ℕ → List ℕ → Bool
checksum_holds len bytes = crc_checksum (take (len - 4) bytes) == u32_at bytes (len - 4)

-- `checkCRC` is a flag of the decoder.
unfoldable pub unmarshal_frame : PacketData → Bool → ℕ → List ℕ → PacketRead
unmarshal_frame c check_crc len bytes =
    if check_crc && not (checksum_holds len bytes)
    then corrupted
    else elim (c.unmarshal_data (slice bytes 4 (len - packet_footer_size))) [
      | data_refused ↦ not_decoded
      | data_fault ↦ fault
      | data_entry e ↦ unpacked len e
    ]

unfoldable pub unmarshal_packet : PacketData → Bool → List ℕ → PacketRead
unmarshal_packet c check_crc bytes =
    if ltb (length bytes) 4
    then incomplete
    else let len = u32_at bytes 0 in
      if ltb len packet_meta_size
      then corrupted
      else if ltb (length bytes) len
      then incomplete
      else unmarshal_frame c check_crc len (take len bytes)

unfoldable pub unmarshal_last : PacketData → Bool → List ℕ → PacketRead
unmarshal_last c check_crc bytes =
    let sz = length bytes in
    if ltb sz packet_footer_size
    then incomplete
    else let len = u32_at bytes (sz - packet_footer_size) in
      if ltb len packet_meta_size
      then corrupted
      else if ltb sz len
      then incomplete
      else unmarshal_frame c check_crc len (drop (sz - len) bytes)

-- `r.Read(buf)` of an `io.ReadSeeker` over `content`, at a position: it fails at the end, and fills
-- the front of the buffer where less than its length is left.
unfoldable pub read_into : List ℕ → ℕ → List ℕ → Option (List ℕ × ℕ)
read_into content pos buf =
    let rest = take (length buf) (drop pos content) in
    if length rest == 0 then none else some (write_at buf 0 rest, pos + length rest)

-- The second read goes into the buffer of the first, and a seek before the start fails.
unfoldable pub unmarshal_reader : PacketData → Bool → List ℕ → ℕ → PacketRead
unmarshal_reader c check_crc content pos = elim (read_into content pos (replicate 4 0)) [
  | none ↦ incomplete
  | some (lb, behind) ↦
      let len = le_value lb in
      if ltb len packet_meta_size
      then if len == 0 then incomplete else corrupted
      else elim (read_into content (behind + (len - packet_meta_size)) lb) [
        | none ↦ corrupted
        | some (lb2, behind2) ↦
            if not (le_value lb2 == len) || ltb behind2 (len - 4)
            then corrupted
            else elim (read_into content (behind2 - (len - 4)) (replicate len 0)) [
              | none ↦ incomplete
              | some (bytes, _) ↦ unmarshal_frame c check_crc len bytes
            ]
      ]
]
