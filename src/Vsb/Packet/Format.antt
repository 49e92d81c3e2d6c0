-- ===== src/Vsb/Packet/Format.antt =====
-- internal/store/vsb/codec/codec.go: the encoder and the decoder of a block, made of packets and
-- records over the encoding of the fields, meet what the block asks of its codec.
use vanus.Base.{
  Bool, List, Option, [], ap, arith, false, length, none, refl, some, sym, true, ℕ, ◌++◌, ◌+◌, ◌<◌,
  ◌∙◌, ◌≡◌,
}
use vanus.Vsb.{Index}
use vanus.Vsb.Codec.{Codec, Entry, index_type, wrap_entry}
use vanus.Vsb.Packet.{
  PacketRead, corrupted, fault, incomplete, not_decoded, unmarshal_packet, unpacked,
}
use vanus.Vsb.Packet.Image.{length-packet, packet_bytes}
use vanus.Vsb.Packet.Record.{RecordData, packet_data}
use vanus.Vsb.Packet.Record.Layers.{IsFields, length-record, packet_data-IsData, record_bytes}
use vanus.Vsb.Packet.RoundTrip.{unmarshal_packet-front}

-- The encoding of the fields: the bytes, how many of them are the header, and the optional
-- attributes of an index entry.
pub record Fields : Type 0 where
  pub coding : RecordData
  pub fields : Entry → List ℕ
  pub header_of : Entry → ℕ
  pub index_body : List Index → List ℕ
  pub indexes_of : List ℕ → List Index

-- The block looks at the entry only, and at whether the error is ErrIncompletePacket.
abbrev pub read_or_none : PacketRead → Option (ℕ × Entry)
read_or_none (unpacked n e) = some (n, e)
read_or_none incomplete = none
read_or_none corrupted = none
read_or_none not_decoded = none
read_or_none fault = none

abbrev pub is_incomplete_packet : PacketRead → Bool
is_incomplete_packet incomplete = true
is_incomplete_packet (unpacked n e) = false
is_incomplete_packet corrupted = false
is_incomplete_packet not_decoded = false
is_incomplete_packet fault = false

module _ (f : Fields) where
  abbrev pub packet_size : Entry → ℕ
  packet_size e = 16 + length (f.fields e)

  abbrev pub packet_of : Entry → List ℕ
  packet_of e = packet_bytes (record_bytes e (f.header_of e) (f.fields e))

  -- NewDecoder is called without the check of the checksum.
  abbrev pub decode_packet : List ℕ → PacketRead
  decode_packet bytes = unmarshal_packet (packet_data f.coding) false bytes

  -- The fields of the entry are written and read, and its packet is as long as an int32 allows.
  abbrev pub HasRoom : Entry → Type 0
  HasRoom e = IsFields f.coding e (f.fields e) (f.header_of e) × (packet_size e < 2147483648)

  abbrev pub entry_of_indexes : List Index → Entry
  entry_of_indexes is = wrap_entry (f.index_body is) index_type 0 0

  abbrev pub HasIndexRoom : List Index → Type 0
  HasIndexRoom is = HasRoom (entry_of_indexes is) × (f.indexes_of (f.index_body is) ≡ is)

  pub length-packet_of : (e : Entry) → length (packet_of e) ≡ packet_size e
  length-packet_of e = omega (
    arith,
    length-packet (record_bytes e (f.header_of e) (f.fields e)),
    length-record e (f.header_of e) (f.fields e),
  )

  pub decode-packet_of :
      (e : Entry) (rest : List ℕ)
      → HasRoom e
      → decode_packet (packet_of e ++ rest) ≡ unpacked (packet_size e) e
  decode-packet_of e rest v =
      let body = record_bytes e (f.header_of e) (f.fields e) in
      let sizes : 12 + length body ≡ packet_size e =
        omega (arith, length-record e (f.header_of e) (f.fields e)) in
      unmarshal_packet-front (packet_data f.coding) e body
        (packet_data-IsData f.coding e (f.fields e) (f.header_of e) v.0) false rest
      ∙ ap (λ n. unpacked n e) sizes

  pub nothing_there : decode_packet [] ≡ incomplete
  unfolding unmarshal_packet
  nothing_there = refl

  abbrev pub packet_codec : Codec
  packet_codec = record {
    size = packet_size;
    marshal = packet_of;
    unmarshal = λ bytes. read_or_none (decode_packet bytes);
    marshal_index = λ is. packet_of (entry_of_indexes is);
    index_entry = entry_of_indexes;
    indexes_in = λ e. f.indexes_of e.body;
    is_incomplete = λ bytes. is_incomplete_packet (decode_packet bytes);
    encodable = HasRoom;
    encodable_index = HasIndexRoom;
    length-marshal = length-packet_of;
    size-positive = λ e. omega arith;
    unmarshal-marshal = λ e rest v. ap read_or_none (decode-packet_of e rest v);
    size-fits = λ e v. v.1;
    unmarshal-marshal_index = λ is rest v.
        ap read_or_none (decode-packet_of (entry_of_indexes is) rest v.0)
        ∙ ap (λ n. some (n, entry_of_indexes is)) (sym (length-packet_of (entry_of_indexes is)));
    index_entry-kind = λ is. refl;
    indexes_in-index_entry = λ is v. v.1;
    unmarshal-empty = ap read_or_none nothing_there;
    is_incomplete-empty = ap is_incomplete_packet nothing_there;
  }
