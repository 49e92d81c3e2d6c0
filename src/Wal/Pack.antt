-- ===== src/Wal/Pack.antt =====
-- internal/store/wal/record/packing.go: an entry cut into records that fit the blocks of the log.
-- The sizes are Go ints; `first_size` is at least 7 and `other_size` more than 7 wherever `Pack`
-- is called, so that no difference below is negative.
pub mod Shape
pub mod Layout
use vanus.Base.{
  List, [], drop, if◌then◌else◌, leb, length, slice, suc, zero, ℕ, ◌%◌, ◌++◌, ◌+◌, ◌-◌, ◌/◌, ◌==◌,
  ◌∷◌,
}
use vanus.Wal.Record.{Record, first_type, full_type, header_size, last_type, middle_type, size}

unfoldable pub cal_packet_num : List ℕ → ℕ → ℕ → ℕ
cal_packet_num entry first_size other_size =
    let payload = length entry in
    if leb (payload + header_size) first_size
    then 1
    else 1 + (payload + other_size - 1 - first_size) / (other_size - header_size)

unfoldable pub make_packet : ℕ → List ℕ → Record
make_packet t payload = record {
  crc = 0;
  length_field = length payload % 65536;
  kind = t;
  payload = payload;
}

-- The loop over the middle packets: `n` rounds from the offset `fo`, and the offset it ends at.
unfoldable pub middle_packets : ℕ → List ℕ → ℕ → ℕ → List Record × ℕ
middle_packets zero entry other_size fo = ([], fo)
middle_packets (suc n) entry other_size fo =
    let eo = fo + other_size - header_size in
    let (packets, end) = middle_packets n entry other_size eo in
    (make_packet middle_type (slice entry fo eo) ∷ packets, end)

-- The padding after the last packet of a block with `room` bytes.
unfoldable pub padding_of : ℕ → Record → ℕ
padding_of room packet =
    let padding = room - size packet in if leb header_size padding then 0 else padding

unfoldable pub pack_one : List ℕ → ℕ → List Record × ℕ
pack_one entry first_size =
    let packet = make_packet full_type entry in (packet ∷ [], padding_of first_size packet)

unfoldable pub pack_many : ℕ → List ℕ → ℕ → ℕ → List Record × ℕ
pack_many num entry first_size other_size =
    let fo = first_size - header_size in
    let first = make_packet first_type (slice entry 0 fo) in
    let (middles, eo) = middle_packets (num - 2) entry other_size fo in
    let last = make_packet last_type (drop eo entry) in
    (first ∷ middles ++ last ∷ [], padding_of other_size last)

-- The records and the padding.
unfoldable pub pack : List ℕ → ℕ → ℕ → List Record × ℕ
pack entry first_size other_size =
    let num = cal_packet_num entry first_size other_size in
    if num == 1 then pack_one entry first_size else pack_many num entry first_size other_size
