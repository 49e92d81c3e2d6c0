-- ===== src/Wal/Tests.antt =====
-- Runs of the log's code, and its theorems at concrete inputs.
use vanus.Base.{
  List, Option, [], arith, length, map, none, refl, replicate, some, ℕ, ◌++◌, ◌∷◌, ◌≡◌,
}
use vanus.SegmentedFile.{select_segment}
use vanus.Wal.Record.{Record, is_terminal, marshal_to, marshalled, read, unmarshal}
use vanus.Wal.Record.RoundTrip.{IsRecord, image, marshal_to-image, sealed, unmarshal-marshal_to}
use vanus.Wal.Pack.{cal_packet_num, make_packet, middle_packets, pack, pack_many}
use vanus.Wal.Pack.Shape.{joined, joined-pack}
use vanus.Wal.Pack.Layout.{IsChain, pack-IsChain}
use vanus.Wal.Recovery.{
  Range, Scanner, deliver, end_of_log, first_block_offset, first_record_offset, may_begin,
  on_record, scan_block, scan_blocks, scan_log_entries, scan_record, scan_segment_file,
  scan_segments, scanned, settle,
}
use vanus.Wal.Recovery.Reassembly.{
  IsIdle, delivered, end_at, feed, feed-pack, placed_at, records_of,
}
use vanus.Wal.Recovery.Blocks.{AreRecords, finish, images, scan_full_block, scan_last_block}
use vanus.Wal.Recovery.Fuel.{IsReal, scan_block-total}

abbrev hello : Record
hello = record { crc = 0; length_field = 3; kind = 1; payload = 7 ∷ 8 ∷ 9 ∷ [] }

abbrev room : List ℕ
room = replicate 12 5

hello-IsRecord : IsRecord hello
hello-IsRecord = omega arith

marshal_to-image_example :
    marshal_to hello room ≡ marshalled 10 (sealed hello) (image (sealed hello) ++ 5 ∷ 5 ∷ [])
marshal_to-image_example = marshal_to-image hello room (omega arith)

unmarshal-marshal_to_example :
    (out : List ℕ) × (marshal_to hello room ≡ marshalled 10 (sealed hello) out)
    × (length out ≡ 12)
    × (unmarshal out ≡ read (sealed hello))
unmarshal-marshal_to_example = unmarshal-marshal_to hello room hello-IsRecord (omega arith)

abbrev entry : List ℕ
entry = 1 ∷ 2 ∷ 3 ∷ 4 ∷ 5 ∷ 6 ∷ 7 ∷ []

kinds_of_pack : map (λ (r : Record). r.kind) (pack entry 9 10).0 ≡ 2 ∷ 3 ∷ 4 ∷ []
unfolding pack pack_many middle_packets make_packet cal_packet_num
kinds_of_pack = refl

joined-pack_example : joined (pack entry 9 10).0 ≡ entry
joined-pack_example = joined-pack entry 9 10 (omega arith) (omega arith)

pack-IsChain_example : IsChain 9 10 (pack entry 9 10).0 (pack entry 9 10).1
pack-IsChain_example = pack-IsChain entry 9 10 (omega arith) (omega arith)

-- A callback that collects the entries with their ends.
abbrev collect : List ℕ → Range → List (List ℕ) → List (List ℕ) × Option (Unit {0})
collect e r st = (st ++ e ∷ [], none)

abbrev idle : Scanner (List (List ℕ))
idle = record { block_size = 10; buffer = []; last = 0; eo = 0; from = 0; state = [] }

idle-IsIdle : IsIdle collect idle
unfolding may_begin is_terminal
idle-IsIdle = record { empty = refl; ready = refl }

abbrev placed : List (Record × ℕ)
placed = placed_at 1 (pack entry 9 10).0

records-placed : records_of placed ≡ (pack entry 9 10).0
unfolding pack pack_many middle_packets make_packet cal_packet_num
records-placed = refl

feed-pack_example :
    (kind : ℕ) × (feed collect idle placed
      ≡ (delivered collect idle kind (end_at 0 placed) (entry ∷ []), none))
    × IsIdle collect (delivered collect idle kind (end_at 0 placed) (entry ∷ []))
feed-pack_example =
    feed-pack collect idle entry 9 10 placed (entry ∷ []) (omega arith) (omega arith) records-placed
      idle-IsIdle refl

abbrev one : Record
one = record { crc = 1; length_field = 1; kind = 1; payload = 42 ∷ [] }

one-AreRecords : AreRecords (one ∷ [])
one-AreRecords = (omega arith, refl, tt)

scan_full_block_example :
    scan_block collect 2 idle (images (one ∷ []) ++ 0 ∷ 0 ∷ []) 0 0
    ≡ finish collect (feed collect idle (placed_at 0 (one ∷ []))) none
scan_full_block_example =
    scan_full_block collect (one ∷ []) idle (images (one ∷ []) ++ 0 ∷ 0 ∷ []) (0 ∷ 0 ∷ []) 0 0 refl
      one-AreRecords (omega arith) (omega arith)

abbrev wide : Scanner (List (List ℕ))
wide = record idle { block_size = 20 }

scan_last_block_example :
    scan_block collect 2 wide (images (one ∷ []) ++ replicate 12 0) 0 0
    ≡ finish collect (feed collect wide (placed_at 0 (one ∷ []))) (some end_of_log)
scan_last_block_example =
    scan_last_block collect (one ∷ []) wide (images (one ∷ []) ++ replicate 12 0) 0 0 5 refl
      one-AreRecords (omega arith)

scan_block-total_example : IsReal collect (scan_block collect 11 idle (image one) 0 0).1
scan_block-total_example =
    scan_block-total collect 11 idle (image one) 0 0 (omega arith) (omega arith)

abbrev huge : Record
huge = record { crc = 1; length_field = 65529; kind = 1; payload = replicate 65529 0 }

-- A log that a full last segment ends is not continued at its end, but from 0.
full_log_restarts :
    (scan_log_entries collect 11
      (λ _. (images (one ∷ []) ++ 0 ∷ 0 ∷ []) ∷ [])
      (record { segments = record { so = 0; eo = 10; size = 10 } ∷ []; segment_size = 10 })
      10
      0
      []).1
    ≡ scanned 0
unfolding scan_log_entries scan_segments scan_segment_file scan_blocks scan_block scan_record
    on_record deliver settle first_block_offset first_record_offset unmarshal may_begin is_terminal
    select_segment
full_log_restarts = refl
