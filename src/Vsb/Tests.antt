-- ===== src/Vsb/Tests.antt =====
-- The block's theorems at concrete inputs, with entries coded as plain numbers.
use vanus.Vsb.Packet.{DataRead, data_entry, data_refused}
use vanus.Vsb.Packet.Record.{record_fault, record_written, type_number}
use vanus.Vsb.Packet.Format.{Fields, HasRoom, packet_codec}
use vanus.Base.{
  List, Option, [], ap, arith, drop, drop_all, false, if◌then◌else◌, length, length-replicate, ltb,
  ltb-false, none, refl, replicate, search, search_between, some, suc, sym, take, take-append_self,
  take_all, true, zero, ℕ, ◌++◌, ◌+◌, ◌<◌, ◌==◌, ◌∙◌, ◌∷◌, ◌≡◌, ◌≤◌,
}
use vanus.Vsb.{Index, Meta, VsBlock, end_offset, start_offset}
use vanus.Vsb.Codec.{Codec, Entry, EntryType, cloud_event, end_type, index_type, wrap_entry}
use vanus.Vsb.Append.{
  Fragment, build_entry, build_indexes, build_rounds, commit_append, commit_append_at, commit_built,
  entries_size, indexes_span, last_index, make_snapshot, marshal_entries, new_fragment,
  prepare_append, prepare_archive, wrap_entries,
}
use vanus.Vsb.Append.Layout.{IsNumbered, layout}
use vanus.Vsb.Refine.{Holds, commit-prepare, extended, extended-Holds}
use vanus.Base.Int.{pos}
use vanus.Vsb.Header.{load_header, loaded, persist_header}
use vanus.Vsb.Header.RoundTrip.{FitsHeader, load-persist, read_fields}
use vanus.Vsb.Append.Replay.{commit_again}
use vanus.Vsb.Read.{entries, read}
use vanus.Vsb.Refine.Reading.{read_lem}
use vanus.Vsb.Seek.{
  after, at_least, before, compare_stime, exact, found_or_none, index_at, minus_one, or_next,
  or_prev, prev_at, search_ge, seek,
}
use vanus.Vsb.Seek.Answers.{Split, seek_lem}
use vanus.Vsb.Snapshot.{applied, apply_snapshot}
use vanus.Vsb.Snapshot.CatchUp.{apply_snapshot-Holds}
use vanus.Vsb.Open.{
  init, is_event, opened, rebuild_indexes, rebuild_rounds, rebuilt, repair_meta, repaired, validate,
  with_tail,
}
use vanus.Vsb.Open.Archived.Sealed.{archive-reopen}
use vanus.Vsb.Open.Reopen.{reopen-Holds}

abbrev kind_code : EntryType → ℕ
kind_code cloud_event = 0
kind_code end_type = 1
kind_code index_type = 2

abbrev kind_of : ℕ → EntryType
kind_of n = if n == 0 then cloud_event else if n == 1 then end_type else index_type

abbrev encode : Entry → List ℕ
encode e = kind_code e.kind ∷ e.seq ∷ e.stime ∷ length e.body ∷ e.body

abbrev decode : List ℕ → Option (ℕ × Entry)
decode (k ∷ s ∷ t ∷ n ∷ rest) =
    some (4 + n, record { kind = kind_of k; seq = s; stime = t; body = take n rest })
decode _ = none

abbrev flatten : List Index → List ℕ
flatten [] = []
flatten (i ∷ is) = i.offset ∷ i.length ∷ i.stime ∷ flatten is

abbrev unflatten : List ℕ → List Index
unflatten (o ∷ l ∷ t ∷ rest) = record { offset = o; length = l; stime = t } ∷ unflatten rest
unflatten _ = []

unflatten-flatten : (is : List Index) → unflatten (flatten is) ≡ is
unflatten-flatten [] = refl
unflatten-flatten (i ∷ is) = ap (λ t. i ∷ t) (unflatten-flatten is)

kind_of-kind_code : (k : EntryType) → kind_of (kind_code k) ≡ k
kind_of-kind_code cloud_event = refl
kind_of-kind_code end_type = refl
kind_of-kind_code index_type = refl

decode-encode :
    (e : Entry) (rest : List ℕ) → decode (encode e ++ rest) ≡ some (4 + length e.body, e)
decode-encode e rest = rw (kind_of-kind_code e.kind, take-append_self e.body rest)

abbrev entry_of_indexes : List Index → Entry
entry_of_indexes is = record { kind = index_type; seq = 0; stime = 0; body = flatten is }

abbrev plain : Codec
plain = record {
  size = λ e. 4 + length e.body;
  marshal = encode;
  unmarshal = decode;
  marshal_index = λ is. encode (entry_of_indexes is);
  index_entry = entry_of_indexes;
  indexes_in = λ e. unflatten e.body;
  is_incomplete = λ bytes. ltb (length bytes) 4;
  encodable = λ e. 4 + length e.body < 2147483648;
  encodable_index = λ is. Unit;
  length-marshal = λ e. omega arith;
  size-positive = λ e. omega arith;
  unmarshal-marshal = λ e rest v. decode-encode e rest;
  size-fits = λ e v. v;
  unmarshal-marshal_index = λ is rest v.
      decode-encode (entry_of_indexes is) rest
      ∙ ap (λ n. some (n, entry_of_indexes is)) (omega arith);
  index_entry-kind = λ is. refl;
  indexes_in-index_entry = λ is v. unflatten-flatten is;
  unmarshal-empty = refl;
  is_incomplete-empty = refl;
}

-- The fields of an entry in packets: numbers, which count as the header, and the body.
abbrev kind_of_number : ℕ → EntryType
kind_of_number n = if n == 0x6563 then cloud_event else if n == 0x6465 then end_type else index_type

abbrev field_bytes : Entry → List ℕ
field_bytes e = e.seq ∷ e.stime ∷ length e.body ∷ e.body

abbrev read_fields_of : ℕ → List ℕ → DataRead
read_fields_of t (s ∷ time ∷ n ∷ rest) =
    data_entry (record { kind = kind_of_number t; seq = s; stime = time; body = take n rest })
read_fields_of t _ = data_refused

abbrev numbers : Fields
numbers = record {
  coding = record {
    marshal_fields = λ e buf.
        if ltb (length buf) (length (field_bytes e))
        then record_fault
        else record_written (length (field_bytes e)) 3
            (field_bytes e ++ drop (length (field_bytes e)) buf);
    unmarshal_fields = λ t size bytes. if size == 3 then read_fields_of t bytes else data_refused;
  };
  fields = field_bytes;
  header_of = λ e. 3;
  index_body = flatten;
  indexes_of = unflatten;
}

-- Entries as packets of records.
abbrev packets : Codec
packets = packet_codec numbers

kind_back : (k : EntryType) → kind_of_number (type_number k) ≡ k
unfolding type_number
kind_back cloud_event = refl
kind_back end_type = refl
kind_back index_type = refl

short-HasRoom : (e : Entry) → length e.body < 1000 → HasRoom numbers e
short-HasRoom e h = (
  record {
    fields_written = λ buf long. rw (ltb-false (length buf) (length (field_bytes e)) long) refl;
    fields_read = rw (kind_back e.kind, take_all (length e.body) e.body (omega arith)) refl;
    size_fits = omega arith;
    fields_fit = omega arith;
  },
  omega arith,
)

-- A block as it is created, with a header area of `d` bytes.
abbrev block_at : ℕ → VsBlock
block_at d = record {
  capacity = 1000;
  data_offset = d;
  index_size = 24;
  index_offset = 0;
  index_length = 0;
  fm = record { write_offset = d; entry_length = 0; entry_num = 0; archived = false };
  actx = record { seq = 0; offset = d; archived = false };
  indexes = [];
}

abbrev area : ℕ → List ℕ
area d = replicate d 0

block_at-Holds : (d : ℕ) → Holds packets [] (block_at d) (area d)
unfolding layout marshal_entries
block_at-Holds d = record {
  numbered = tt;
  indexed = refl;
  next_seq = refl;
  next_offset = sym (length-replicate {A = ℕ} d 0);
  open_still = refl;
  headed = omega (arith, length-replicate {A = ℕ} d 0);
  stored = drop_all d (area d) (omega (arith, length-replicate {A = ℕ} d 0));
}

abbrev bodies : List (List ℕ)
bodies = (7 ∷ 8 ∷ []) ∷ [] ∷ []

abbrev two : List Entry
two = wrap_entry (7 ∷ 8 ∷ []) cloud_event 0 500 ∷ wrap_entry [] cloud_event 1 500 ∷ []

two-IsNumbered : IsNumbered packets 0 two
two-IsNumbered = (
  refl,
  (
    refl,
    (
      short-HasRoom (wrap_entry (7 ∷ 8 ∷ []) cloud_event 0 500) (omega arith),
      (refl, (refl, (short-HasRoom (wrap_entry [] cloud_event 1 500) (omega arith), tt))),
    ),
  ),
)

two-Holds :
    (d : ℕ)
    → Holds packets two (extended packets (block_at d) two) (area d ++ marshal_entries packets two)
two-Holds d = extended-Holds packets [] (block_at d) (area d) two (block_at-Holds d) two-IsNumbered

commit-prepare_example :
    let p = prepare_append packets (block_at 64) (block_at 64).actx bodies 500 in
    (commit_append packets (block_at 64) (area 64) (some p.frag)
      ≡ some (extended packets (block_at 64) two, area 64 ++ marshal_entries packets two))
    × (((extended packets (block_at 64) two).actx ≡ p.context)
        × Holds packets two
            (extended packets (block_at 64) two)
            (area 64 ++ marshal_entries packets two))
unfolding prepare_append wrap_entries entries_size
commit-prepare_example =
    commit-prepare packets [] (block_at 64) (area 64) bodies 500 (block_at-Holds 64) (omega arith)
      (
        short-HasRoom (wrap_entry (7 ∷ 8 ∷ []) cloud_event 0 500) (omega arith),
        (short-HasRoom (wrap_entry [] cloud_event 1 500) (omega arith), tt),
      )
      (omega arith)

read_lem_example :
    read packets (extended packets (block_at 64) two) (area 64 ++ marshal_entries packets two) 1 5
    ≡ entries (wrap_entry [] cloud_event 1 500 ∷ [])
read_lem_example =
    read_lem packets two (extended packets (block_at 64) two)
      (area 64 ++ marshal_entries packets two) 1 5 (two-Holds 64) (omega arith)

commit_again_example :
    commit_append packets
      (extended packets (block_at 64) two)
      (area 64 ++ marshal_entries packets two)
      (some (new_fragment packets 64 two))
    ≡ some (extended packets (block_at 64) two, area 64 ++ marshal_entries packets two)
unfolding prepare_append wrap_entries
commit_again_example =
    commit_again packets (block_at 64) (extended packets (block_at 64) two) (area 64)
      (area 64 ++ marshal_entries packets two) (new_fragment packets 64 two)
      commit-prepare_example.0

apply_snapshot-Holds_example :
    (apply_snapshot packets
        (block_at 4096)
        (area 4096)
        (record { start = 4096; payload = marshal_entries packets two })
      ≡ applied (extended packets (block_at 4096) two) (area 4096 ++ marshal_entries packets two))
    × (Holds packets two
          (extended packets (block_at 4096) two)
          (area 4096 ++ marshal_entries packets two)
        × ((next : Fragment)
            → next.start ≡ length (area 4096 ++ marshal_entries packets two)
            → commit_append_at packets
                (length (area 4096))
                (extended packets (block_at 4096) two)
                (area 4096 ++ marshal_entries packets two)
                (some next)
              ≡ some
                  (extended packets (block_at 4096) two, area 4096 ++ marshal_entries packets two)))
apply_snapshot-Holds_example =
    apply_snapshot-Holds packets [] two (block_at 4096) (area 4096) (block_at-Holds 4096) refl
      two-IsNumbered (omega arith)

reopen-Holds_example :
    (b1 : VsBlock) × ((repair_meta packets (block_at 64) (area 64 ++ marshal_entries packets two)
        ≡ repaired b1)
      × ((validate b1 ≡ opened b1) × Holds packets two b1 (area 64 ++ marshal_entries packets two)))
unfolding extended
reopen-Holds_example =
    reopen-Holds packets two (extended packets (block_at 64) two) (block_at 64)
      (area 64 ++ marshal_entries packets two) (two-Holds 64) refl refl refl refl refl

-- The block with two entries, before it is archived.
abbrev filled : VsBlock
filled = extended packets (block_at 64) two

filled-FitsHeader : FitsHeader filled (make_snapshot filled.actx filled.indexes)
unfolding extended make_snapshot indexes_span last_index start_offset end_offset layout
filled-FitsHeader = record {
  data_offset_fits = omega arith;
  index_size_fits = omega arith;
  capacity_fits = omega arith;
  entry_length_fits = omega arith;
  entry_num_fits = omega arith;
}

archive-reopen_example :
    let archive = prepare_archive packets filled.actx 600 in
    (b1 b2 : VsBlock) × ((file' : List ℕ) × ((commit_append packets filled
            (area 64 ++ marshal_entries packets two)
            (some archive.0)
          ≡ some (b1, file'))
        × ((init packets (block_at 64) file' ≡ opened b2)
            × ((b2.indexes ≡ filled.indexes) × (b2.actx ≡ archive.1)))))
unfolding extended layout
archive-reopen_example =
    archive-reopen packets two filled (block_at 64) (area 64 ++ marshal_entries packets two) 600
      (two-Holds 64) (omega arith) (short-HasRoom (wrap_entry [] end_type 2 600) (omega arith))
      (
        short-HasRoom (wrap_entry (flatten filled.indexes) index_type 0 0) (omega arith),
        unflatten-flatten filled.indexes,
      )
      (omega arith) filled-FitsHeader

abbrev times : VsBlock
times = record (block_at 64) {
  indexes =
      record { offset = 64; length = 4; stime = 100 }
      ∷ record { offset = 68; length = 4; stime = 200 }
      ∷ record { offset = 72; length = 4; stime = 200 }
      ∷ record { offset = 76; length = 4; stime = 300 }
      ∷ [];
}

below_cases : (i : ℕ) → i < 1 → (index_at times.indexes i).stime < 200
below_cases zero h = omega arith
below_cases (suc i) h = absurd (omega arith)

above_cases : (i : ℕ) → 1 ≤ i → i < 4 → 200 ≤ (index_at times.indexes i).stime
above_cases zero h k = absurd (omega arith)
above_cases (suc zero) h k = omega arith
above_cases (suc (suc zero)) h k = omega arith
above_cases (suc (suc (suc zero))) h k = omega arith
above_cases (suc (suc (suc (suc i)))) h k = absurd (omega arith)

below_cases3 : (i : ℕ) → i < 3 → (index_at times.indexes i).stime < 201
below_cases3 zero h = omega arith
below_cases3 (suc zero) h = omega arith
below_cases3 (suc (suc zero)) h = omega arith
below_cases3 (suc (suc (suc i))) h = absurd (omega arith)

above_cases3 : (i : ℕ) → 3 ≤ i → i < 4 → 201 ≤ (index_at times.indexes i).stime
above_cases3 zero h k = absurd (omega arith)
above_cases3 (suc zero) h k = absurd (omega arith)
above_cases3 (suc (suc zero)) h k = absurd (omega arith)
above_cases3 (suc (suc (suc zero))) h k = omega arith
above_cases3 (suc (suc (suc (suc i)))) h k = absurd (omega arith)

times_below : Split times.indexes 200 1
times_below = record { bounded = omega arith; below = below_cases; above = above_cases }

times_up_to : Split times.indexes 201 3
times_up_to = record { bounded = omega arith; below = below_cases3; above = above_cases3 }

seek_lem_example :
    (seek times 200 or_next ≡ some (pos 1))
    × ((seek times 200 after ≡ some (pos 3))
        × ((seek times 200 before ≡ some (pos 0))
            × ((seek times 200 exact ≡ some (pos 1)) × (seek times 200 or_prev ≡ some (pos 1)))))
unfolding vanus.Base.Int.◌-ℤ◌
seek_lem_example = seek_lem times 200 1 3 times_below times_up_to

abbrev full_meta : Meta
full_meta = record { write_offset = 74; entry_length = 10; entry_num = 2; archived = true }

full_meta-FitsHeader : FitsHeader (block_at 64) full_meta
full_meta-FitsHeader = record {
  data_offset_fits = omega arith;
  index_size_fits = omega arith;
  capacity_fits = omega arith;
  entry_length_fits = omega arith;
  entry_num_fits = omega arith;
}

load-persist_example :
    load_header (block_at 64) (persist_header (block_at 64) full_meta (area 64)).1
    ≡ loaded (read_fields (block_at 64) (block_at 64) full_meta)
load-persist_example =
    load-persist (block_at 64) (block_at 64) full_meta (area 64) full_meta-FitsHeader (omega arith)

-- A key behind all entries: the last one before it is not found.
seek_prev_of_all : seek times 400 or_prev ≡ some minus_one
unfolding seek search_ge found_or_none search search_between at_least compare_stime prev_at
seek_prev_of_all = refl

-- Two entries that the header counts, rebuilt: both get the offset of the first.
rebuilt_offsets :
    rebuild_indexes plain
      (record (block_at 64) {
        fm = record { write_offset = 64; entry_length = 10; entry_num = 2; archived = false };
      })
      (area 64 ++ marshal_entries plain two)
      2
      []
    ≡ rebuilt (
        record { offset = 64; length = 6; stime = 500 }
        ∷ record { offset = 64; length = 4; stime = 500 }
        ∷ [])
unfolding rebuild_indexes rebuild_rounds with_tail marshal_entries is_event
rebuilt_offsets = refl

-- A fragment whose sequence numbers do not fit is written, and the next number becomes 0.
corrupted_commit :
    commit_append plain
      (record (block_at 64) { actx = record { seq = 5; offset = 64; archived = false } })
      (area 64)
      (some (new_fragment plain 64 two))
    ≡ some (
      record (block_at 64) { actx = record { seq = 0; offset = 74; archived = false } },
      area 64 ++ marshal_entries plain two,
    )
unfolding commit_append_at new_fragment build_indexes build_rounds build_entry commit_built
    marshal_entries
corrupted_commit = refl
