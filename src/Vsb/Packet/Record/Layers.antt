-- ===== src/Vsb/Packet/Record/Layers.antt =====
-- internal/store/vsb/codec/record.go: that a record in a packet is read back.
use vanus.Base.{
  Bool, List, [], append_assoc, arith, drop, drop-drop, le_bytes, length, length-append,
  length-le_bytes, ltb-false, refl, sym, take, write_at, write_at-zero, ℕ, ◌%◌, ◌++◌, ◌+◌, ◌-◌, ◌<◌,
  ◌^◌, ◌∷◌, ◌≡◌, ◌≤◌,
}
use vanus.Vsb.Codec.{Entry, EntryType, cloud_event, end_type, index_type}
use vanus.Vsb.Header.RoundTrip.{le_value-le_bytes}
use vanus.Vsb.Packet.{
  data_entry, incomplete, marshal_packet, unmarshal_last, unmarshal_packet, unmarshal_reader,
  unpacked, written,
}
use vanus.Vsb.Packet.Image.{drop_front, take_front}
use vanus.Vsb.Packet.RoundTrip.{IsData, unmarshal-marshal_packet}
use vanus.Vsb.Packet.Record.{
  RecordData, frame_record, marshal_record, packet_data, record_written, type_number, u16_at,
  unmarshal_record,
}

-- The fields of an entry, as the encoder inside writes them, behind a header of some size, and its
-- decoder reads them.
pub record IsFields (c : RecordData) (e : Entry) (fields : List ℕ) (size : ℕ) : Type 0 where
  pub fields_written :
      (buf : List ℕ)
      → length fields ≤ length buf
      → c.marshal_fields e buf
        ≡ record_written (length fields) size (fields ++ drop (length fields) buf)
  pub fields_read : c.unmarshal_fields (type_number e.kind) size fields ≡ data_entry e
  pub size_fits : size + 4 < 65536
  pub fields_fit : 16 + length fields < 2 ^ 32

-- Type and offset in front of the fields.
abbrev pub record_bytes : Entry → ℕ → List ℕ → List ℕ
record_bytes e size fields = le_bytes 2 (type_number e.kind) ++ (le_bytes 2 (4 + size) ++ fields)

type_number-lt : (kind : EntryType) → type_number kind < 2 ^ 16
unfolding type_number
type_number-lt cloud_event = omega arith
type_number-lt end_type = omega arith
type_number-lt index_type = omega arith

-- The first two numbers of a record, read back.
type_back :
    (e : Entry) (size : ℕ) (fields : List ℕ)
    → u16_at (record_bytes e size fields) 0 ≡ type_number e.kind
type_back e size fields =
    let number = type_number e.kind in
    rw (
      take_front 2 (le_bytes 2 number) (le_bytes 2 (4 + size) ++ fields)
          (sym (length-le_bytes 2 number)),
      le_value-le_bytes 2 number (omega (arith, type_number-lt e.kind)),
    )

offset_back :
    (e : Entry) (size : ℕ) (fields : List ℕ)
    → size + 4 < 65536
    → u16_at (record_bytes e size fields) 2 ≡ 4 + size
offset_back e size fields h =
    let number = type_number e.kind in
    rw (
      drop_front 2 (le_bytes 2 number) (le_bytes 2 (4 + size) ++ fields)
          (sym (length-le_bytes 2 number)),
      take_front 2 (le_bytes 2 (4 + size)) fields (sym (length-le_bytes 2 (4 + size))),
      le_value-le_bytes 2 (4 + size) (omega arith),
    )

pub length-record :
    (e : Entry) (size : ℕ) (fields : List ℕ)
    → length (record_bytes e size fields) ≡ 4 + length fields
length-record e size fields = omega (
  arith,
  length-append (le_bytes 2 (type_number e.kind)) (le_bytes 2 (4 + size) ++ fields),
  length-append (le_bytes 2 (4 + size)) fields,
  length-le_bytes 2 (type_number e.kind),
  length-le_bytes 2 (4 + size),
)

framed :
    (e : Entry) (size a b c d : ℕ) (rest : List ℕ)
    → size + 4 < 65536
    → frame_record e size (a ∷ b ∷ c ∷ d ∷ rest) ≡ record_bytes e size rest
unfolding frame_record write_at le_bytes
framed e size a b c d rest h =
    let small : size % 65536 ≡ size = omega arith in rw (small, write_at-zero rest [] (omega arith))

data_behind :
    (e : Entry) (size : ℕ) (fields : List ℕ) → drop 4 (record_bytes e size fields) ≡ fields
unfolding le_bytes
data_behind e size fields = refl

module _ (c : RecordData) (e : Entry) (fields : List ℕ) (size : ℕ)
    (v : IsFields c e fields size) where
  marshal_record-long :
      (buf : List ℕ)
      → 4 + length fields ≤ length buf
      → marshal_record c e buf
        ≡ written (4 + length fields) (record_bytes e size fields ++ drop (4 + length fields) buf)
  unfolding marshal_record
  marshal_record-long (x ∷ y ∷ z ∷ w ∷ rest) h =
      let buf : List ℕ = x ∷ y ∷ z ∷ w ∷ rest in
      rw (
        ltb-false (length buf) 4 (omega arith),
        v.fields_written rest (omega arith),
        framed e size x y z w (fields ++ drop (length fields) rest) v.size_fits,
        ← drop-drop 4 (length fields) buf,
        append_assoc (le_bytes 2 (type_number e.kind)) (le_bytes 2 (4 + size) ++ fields)
            (drop (length fields) rest),
        append_assoc (le_bytes 2 (4 + size)) fields (drop (length fields) rest),
      )
  marshal_record-long _ h = absurd (omega arith)

  unmarshal_record-bytes : unmarshal_record c (record_bytes e size fields) ≡ data_entry e
  unfolding unmarshal_record
  unmarshal_record-bytes =
      let width : 4 + size - 4 ≡ size = omega arith in
      rw (
        ltb-false (length (record_bytes e size fields)) 4
            (omega (arith, length-record e size fields)),
        offset_back e size fields v.size_fits,
        ltb-false (4 + size) 4 (omega arith),
        type_back e size fields,
        width,
        data_behind e size fields,
        v.fields_read,
      )

  pub packet_data-IsData : IsData (packet_data c) e (record_bytes e size fields)
  unfolding packet_data
  packet_data-IsData = record {
    data_written = λ buf h.
        rw (length-record e size fields)
          (marshal_record-long buf (omega (arith, length-record e size fields)));
    data_read = unmarshal_record-bytes;
    data_fits = omega (arith, length-record e size fields, v.fields_fit);
  }

  -- An entry whose fields the encoder inside writes and its decoder reads, marshalled as a record
  -- in a packet into a buffer with room for it, is read back with the packet's length by each of
  -- the three ways to read, from the front of bytes, from their back and at the position of a
  -- reader, with or without the check of the checksum and whatever lies around; and the packet cut
  -- off before its end is incomplete. The fields begin with a header, the offset behind which is a
  -- uint16, and the length of the packet is a uint32.
  pub unmarshal-marshal_record :
      (buf : List ℕ)
      → 16 + length fields ≤ length buf
      → (out : List ℕ) × (length out ≡ 16 + length fields)
        × (marshal_packet (packet_data c) e buf
            ≡ written (16 + length fields) (out ++ drop (16 + length fields) buf))
        × ((check_crc : Bool) (before rest : List ℕ)
            → (unmarshal_packet (packet_data c) check_crc (out ++ rest)
                ≡ unpacked (16 + length fields) e)
              × (unmarshal_last (packet_data c) check_crc (before ++ out)
                  ≡ unpacked (16 + length fields) e)
              × (unmarshal_reader
                    (packet_data c)
                    check_crc
                    (before ++ (out ++ rest))
                    (length before)
                  ≡ unpacked (16 + length fields) e))
        × ((check_crc : Bool) (k : ℕ)
            → k < 16 + length fields
            → unmarshal_packet (packet_data c) check_crc (take k out) ≡ incomplete)
  unmarshal-marshal_record buf room =
      let size_eq : 12 + length (record_bytes e size fields) ≡ 16 + length fields =
        omega (arith, length-record e size fields) in
      rw (← size_eq) (
        unmarshal-marshal_packet (packet_data c) e (record_bytes e size fields) packet_data-IsData
          buf (omega (arith, length-record e size fields)))
