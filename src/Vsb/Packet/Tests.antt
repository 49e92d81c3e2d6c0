-- ===== src/Vsb/Packet/Tests.antt =====
-- The packets of internal/store/vsb/codec/packet.go at concrete inputs, with data of one byte.
use vanus.Base.{
  Bool, List, [], arith, drop, if◌then◌else◌, le_value, length, ltb, ltb-false, refl, replicate,
  take, true, write_at, ℕ, ◌++◌, ◌<◌, ◌==◌, ◌∷◌, ◌≡◌,
}
use vanus.Vsb.Codec.{Entry, end_type, wrap_entry}
use vanus.Vsb.Packet.{
  DataRead, corrupted, data_entry, data_refused, incomplete, marshal_packet, read_into,
  unmarshal_last, unmarshal_packet, unmarshal_reader, unpacked, written,
}
use vanus.Vsb.Packet.Record.{RecordData, packet_data, record_fault, record_written}
use vanus.Vsb.Packet.Record.Layers.{IsFields, unmarshal-marshal_record}

abbrev entry_of : ℕ → Entry
entry_of t = wrap_entry [] end_type 0 t

abbrev time_of : List ℕ → DataRead
time_of (t ∷ []) = data_entry (entry_of t)
time_of _ = data_refused

-- The entry's time, as a byte, is all that is written; it counts as the header.
abbrev times : RecordData
times = record {
  marshal_fields = λ e buf.
      if ltb (length buf) 1
      then record_fault
      else record_written 1 1 ((e.stime ∷ []) ++ drop 1 buf);
  unmarshal_fields = λ kind size bytes. if size == 1 then time_of bytes else data_refused;
}

times-IsFields : IsFields times (entry_of 7) (7 ∷ []) 1
times-IsFields = record {
  fields_written = λ buf h. rw (ltb-false (length buf) 1 h) refl;
  fields_read = refl;
  size_fits = omega arith;
  fields_fit = omega arith;
}

abbrev room : List ℕ
room = replicate 18 9

unmarshal-marshal_record_example :
    (out : List ℕ) × (length out ≡ 17)
    × (marshal_packet (packet_data times) (entry_of 7) room ≡ written 17 (out ++ drop 17 room))
    × ((check_crc : Bool) (before rest : List ℕ)
        → (unmarshal_packet (packet_data times) check_crc (out ++ rest) ≡ unpacked 17 (entry_of 7))
          × (unmarshal_last (packet_data times) check_crc (before ++ out)
              ≡ unpacked 17 (entry_of 7))
          × (unmarshal_reader
                (packet_data times)
                check_crc
                (before ++ (out ++ rest))
                (length before)
              ≡ unpacked 17 (entry_of 7)))
    × ((check_crc : Bool) (k : ℕ)
        → k < 17
        → unmarshal_packet (packet_data times) check_crc (take k out) ≡ incomplete)
unmarshal-marshal_record_example =
    unmarshal-marshal_record times (entry_of 7) (7 ∷ []) 1 times-IsFields room (omega arith)

-- A length of 0 is corrupted to one way to read and incomplete to another.
zero_length : unmarshal_packet (packet_data times) true (replicate 8 0) ≡ corrupted
unfolding unmarshal_packet le_value
zero_length = refl

zero_length_read : unmarshal_reader (packet_data times) true (replicate 8 0) 0 ≡ incomplete
unfolding unmarshal_reader read_into le_value write_at
zero_length_read = refl
