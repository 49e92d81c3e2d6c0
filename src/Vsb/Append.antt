-- ===== src/Vsb/Append.antt =====
-- internal/store/vsb/block_append.go and fragment.go: appending to a block in two phases. The
-- content of the block's file is a list of bytes, to which the stream appends; what is done when the
-- stream has written, is done at once.
pub mod Layout
pub mod Replay
use vanus.Base.{
  Bool, List, Option, [], drop, false, if◌then◌else◌, le_bytes, leb, length, ltb, none, not, some,
  suc, true, zero, ℕ, ◌++◌, ◌+◌, ◌-◌, ◌==◌, ◌∷◌,
}
use vanus.Vsb.{AppendContext, Index, Meta, VsBlock, end_offset, int32, start_offset}
use vanus.Vsb.Codec.{Codec, Entry, EntryType, cloud_event, end_type, index_type, wrap_entry}
use vanus.Vsb.Header.{persist_header}

-- `block.Fragment`: data at an offset of the block.
pub record Fragment : Type 0 where
  pub start : ℕ
  pub payload : List ℕ

abbrev pub fragment_end : Fragment → ℕ
fragment_end f = f.start + length f.payload

-- What buildIndexes returns. A packet that cannot be decoded gives a nil entry, which panics; one of
-- no bytes would be read for ever.
pub data Built : Type 0 where
  built : List Index → ℕ → Bool → Built
  corrupted_fragment panicked stuck : Built

unfoldable pub is_end : EntryType → Bool
is_end end_type = true
is_end cloud_event = false
is_end index_type = false

unfoldable pub last_index : Index → List Index → Index
last_index i [] = i
last_index i (j ∷ js) = last_index j js

-- From the start of the first entry to the end of the last.
unfoldable pub indexes_span : List Index → ℕ
indexes_span [] = 0
indexes_span (i ∷ is) = end_offset (last_index i is) - start_offset i

-- With the last fragment given, the entry is the last one in it.
unfoldable pub new_append_context : VsBlock → Option (Fragment × Entry) → AppendContext
new_append_context b none = b.actx
new_append_context b (some (last, entry)) = record {
  seq = entry.seq + 1;
  offset = fragment_end last;
  archived = is_end entry.kind;
}

unfoldable pub wrap_entries : List (List ℕ) → ℕ → ℕ → List Entry
wrap_entries [] seq now = []
wrap_entries (body ∷ bodies) seq now =
    wrap_entry body cloud_event seq now ∷ wrap_entries bodies (seq + 1) now

-- The sequence numbers of `num` entries from `seq` on.
unfoldable pub seqs_from : ℕ → ℕ → List ℕ
seqs_from seq zero = []
seqs_from seq (suc num) = seq ∷ seqs_from (seq + 1) num

pub record Prepared : Type 0 where
  pub seqs : List ℕ
  pub frag : Fragment
  pub enough : Bool  -- the block is full
  pub context : AppendContext

-- What an entry of `n` bytes, which `left` bytes begin with, does; `next` is the rest of the loop.
unfoldable pub build_entry : ℕ → ℕ → ℕ → Entry → List Index → Built → Built
build_entry expected left n e indexes next =
    if not (e.seq == expected)
    then corrupted_fragment
    else if is_end e.kind
    then if n == left then built indexes (expected + 1) true else corrupted_fragment
    else next

unfoldable pub make_snapshot : AppendContext → List Index → Meta
make_snapshot actx indexes = record {
  write_offset = actx.offset;
  entry_length = indexes_span indexes;
  entry_num = length indexes;
  archived = actx.archived;
}

module _ (codec : Codec) where
  open codec use {size, marshal, unmarshal, marshal_index}

  unfoldable pub entries_size : List Entry → ℕ
  entries_size [] = 0
  entries_size (e ∷ es) = size e + entries_size es

  unfoldable pub marshal_entries : List Entry → List ℕ
  marshal_entries [] = []
  marshal_entries (e ∷ es) = marshal e ++ marshal_entries es

  -- The size of a fragment is kept as a uint32; there are fewer bytes.
  unfoldable pub new_fragment : ℕ → List Entry → Fragment
  new_fragment offset entries = record { start = offset; payload = marshal_entries entries }

  unfoldable pub marshal_fragment : ℕ → List Entry → List ℕ
  marshal_fragment offset entries = le_bytes 8 offset ++ marshal_entries entries

  unfoldable pub prepare_append : VsBlock → AppendContext → List (List ℕ) → ℕ → Prepared
  prepare_append b actx bodies now =
      let ents = wrap_entries bodies actx.seq now in
      let offset = actx.offset + entries_size ents in
      record {
        seqs = seqs_from actx.seq (length bodies);
        frag = new_fragment actx.offset ents;
        enough = leb b.capacity (offset - b.data_offset);
        context = record actx { offset = offset; seq = actx.seq + length bodies };
      }

  unfoldable pub prepare_archive : AppendContext → ℕ → Fragment × AppendContext
  prepare_archive actx now =
      let end = wrap_entry [] end_type actx.seq now in
      (
        new_fragment actx.offset (end ∷ []),
        record { offset = actx.offset + size end; seq = actx.seq + 1; archived = true },
      )

  -- `off` is counted from the start of the block; `rest` is the data from there.
  unfoldable pub build_rounds : ℕ → ℕ → ℕ → List ℕ → List Index → Built
  build_rounds zero off expected rest indexes = stuck
  build_rounds (suc fuel) off expected rest indexes = elim (ltb 0 (length rest)) [
    | false ↦ built indexes expected false
    | true ↦ elim (unmarshal rest) [
      | none ↦ panicked
      | some p ↦
          let idx : Index = record { offset = off; length = int32 p.0; stime = p.1.stime } in
          build_entry expected (length rest) p.0 p.1 indexes
            (build_rounds fuel (off + p.0) (expected + 1) (drop p.0 rest) (indexes ++ (idx ∷ [])))
    ]
  ]

  unfoldable pub build_indexes : ℕ → Fragment → Built
  build_indexes expected frag =
      build_rounds (suc (length frag.payload)) frag.start expected frag.payload []

  -- The end of an archive: the index entry is appended and the header is written.
  unfoldable pub finish_archive : VsBlock → List ℕ → VsBlock × List ℕ
  finish_archive b file =
      let m = make_snapshot b.actx b.indexes in
      let index_entry = marshal_index b.indexes in
      persist_header (record b { index_offset = m.write_offset; index_length = length index_entry })
        m (file ++ index_entry)

  unfoldable pub commit_built : VsBlock → List ℕ → Fragment → Built → Option (VsBlock × List ℕ)
  commit_built b file frag (built indexes seq false) = some (
    record b {
      actx = record b.actx { seq = seq; offset = fragment_end frag };
      indexes = b.indexes ++ indexes;
    },
    file ++ frag.payload,
  )
  commit_built b file frag (built indexes seq true) = some (
      finish_archive
        (record b {
          actx = record { seq = seq; offset = fragment_end frag; archived = true };
          indexes = b.indexes ++ indexes;
        })
        (file ++ frag.payload))
  -- The error is not looked at: the data are written, and the zero values are taken.
  commit_built b file frag corrupted_fragment = some (
    record b { actx = record b.actx { seq = 0; offset = fragment_end frag } },
    file ++ frag.payload,
  )
  commit_built b file frag panicked = none
  commit_built b file frag stuck = none

  -- `off` is the write offset of the stream.
  unfoldable pub commit_append_at :
      ℕ → VsBlock → List ℕ → Option Fragment → Option (VsBlock × List ℕ)
  commit_append_at off b file none = some (b, file)
  commit_append_at off b file (some frag) =
      if leb (fragment_end frag) off
      then some (b, file)
      else if not (frag.start == off)
      then some (b, file)
      else commit_built b file frag (build_indexes b.actx.seq frag)

  -- CommitAppend where the stream is at the end of the file.
  abbrev pub commit_append : VsBlock → List ℕ → Option Fragment → Option (VsBlock × List ℕ)
  commit_append b file frag = commit_append_at (length file) b file frag
