-- ===== src/Vsb/Open/Archived/Sealed.antt =====
-- A block that is archived, with its header written, and opened again.
use vanus.Base.{
  List, [], ap, append-nil, append_assoc, arith, drop, drop-append_self, length, length-append,
  ltb-false, refl, some, true, write_at, ℕ, ◌++◌, ◌+◌, ◌∙◌, ◌≡◌, ◌≤◌,
}
use vanus.Vsb.{Meta, VsBlock}
use vanus.Vsb.Codec.{Codec, Entry}
use vanus.Vsb.Header.{header_bytes, persist_header}
use vanus.Vsb.Header.RoundTrip.{FitsHeader, length-header, load-persist, read_fields}
use vanus.Vsb.Append.{
  commit_append, entries_size, finish_archive, indexes_span, make_snapshot, prepare_archive,
}
use vanus.Vsb.Append.Layout.{layout, length-layout}
use vanus.Vsb.Refine.{Holds, file_length}
use vanus.Vsb.Open.{
  init, init_loaded, init_repaired, opened, repair_meta, repaired, set_meta, validate,
}
use vanus.Vsb.Open.Archived.{
  commit_end, drop-write_at, end_entry, ended, indexes_span-layout, repair_archived-layout,
}

module _ (codec : Codec) where
  open codec use {size, marshal, marshal_index}

  -- The block whose header is written at the end of an archive, and its meta.
  abbrev sealed : VsBlock → ℕ → VsBlock
  sealed b now = record (ended codec b now) {
    index_offset = (ended codec b now).actx.offset;
    index_length = length (marshal_index (ended codec b now).indexes);
  }

  abbrev sealed_meta : VsBlock → ℕ → Meta
  sealed_meta b now = make_snapshot (ended codec b now).actx (ended codec b now).indexes

  -- The content of the file before its header is written.
  abbrev content : VsBlock → List ℕ → ℕ → List ℕ
  content b file now =
      (file ++ (marshal (end_entry b now) ++ [])) ++ marshal_index (ended codec b now).indexes

  sealed-FitsHeader :
      (b : VsBlock) (now : ℕ)
      → FitsHeader b (make_snapshot b.actx b.indexes)
      → FitsHeader (sealed b now) (sealed_meta b now)
  unfolding make_snapshot
  sealed-FitsHeader b now h = record {
    data_offset_fits = h.data_offset_fits;
    index_size_fits = h.index_size_fits;
    capacity_fits = h.capacity_fits;
    entry_length_fits = rw (append-nil b.indexes) h.entry_length_fits;
    entry_num_fits = rw (append-nil b.indexes) h.entry_num_fits;
  }

  content_length :
      (b : VsBlock) (file : List ℕ) (now : ℕ) → length file ≤ length (content b file now)
  content_length b file now =
      let w = marshal (end_entry b now) ++ [] in
      let mi = marshal_index (ended codec b now).indexes in
      omega (arith, length-append (file ++ w) mi, length-append file w)

  content_behind :
      (b : VsBlock) (file : List ℕ) (now : ℕ)
      → drop (length file) (content b file now)
        ≡ marshal (end_entry b now) ++ marshal_index (ended codec b now).indexes
  content_behind b file now =
      let w = marshal (end_entry b now) in
      let mi = marshal_index (ended codec b now).indexes in
      ap (λ t. drop (length file) t) (append_assoc file (w ++ []) mi)
      ∙ (drop-append_self file ((w ++ []) ++ mi) ∙ ap (λ t. t ++ mi) (append-nil w))

  -- Everything but the meta of the reopened block.
  abbrev reopened : VsBlock → VsBlock → ℕ → VsBlock
  reopened b b0 now =
      let off = b.data_offset + (sealed_meta b now).entry_length + size (end_entry b now) in
      set_meta
        (record (read_fields (sealed b now) b0 (sealed_meta b now)) {
          indexes = (ended codec b now).indexes;
          index_offset = off;
          index_length = length (marshal_index (ended codec b now).indexes);
        })
        off ((sealed_meta b now).entry_num + 1) true

  repair_sealed :
      (es : List Entry) (b b0 : VsBlock) (file : List ℕ) (now : ℕ)
      → Holds codec es b file
      → 46 ≤ b.data_offset
      → codec.encodable (end_entry b now)
      → codec.encodable_index b.indexes
      → repair_meta codec
          (read_fields (sealed b now) b0 (sealed_meta b now))
          (write_at (content b file now) 0 (header_bytes (sealed b now) (sealed_meta b now)))
        ≡ repaired (reopened b b0 now)
  unfolding repair_meta read_fields make_snapshot
  repair_sealed es b b0 file now v room e x =
      let idx = b.indexes ++ [] in
      let off = b.data_offset + indexes_span idx in
      let hdr = header_bytes (sealed b now) (sealed_meta b now) in
      let all = content b file now in
      let i : idx ≡ layout codec b.data_offset es = append-nil b.indexes ∙ v.indexed in
      let span : indexes_span idx ≡ entries_size codec es =
        ap indexes_span i ∙ indexes_span-layout codec b.data_offset es in
      let size_of = file_length codec es b file v in
      let hdr_size = length-header (sealed b now) (sealed_meta b now) in
      let at_end : off ≡ length file = omega (arith, span, size_of) in
      let seq : b.actx.seq ≡ length idx =
        omega (arith, v.next_seq, ap length i, length-layout codec b.data_offset es) in
      let wide = content_length b file now in
      repair_archived-layout codec (read_fields (sealed b now) b0 (sealed_meta b now))
        (write_at all 0 hdr) es b.data_offset off now (length idx) (end_entry b now) idx i
        (omega (arith, span)) e (rw (append-nil b.indexes) x) refl seq
        (drop-write_at off all hdr (omega (arith, hdr_size, v.headed, wide))
            (omega (arith, hdr_size))
          ∙ (ap (λ k. drop k all) at_end ∙ content_behind b file now))

  validate-reopened :
      (b b0 : VsBlock) (now : ℕ) → validate (reopened b b0 now) ≡ opened (reopened b b0 now)
  unfolding validate set_meta read_fields make_snapshot
  validate-reopened b b0 now = let n = length (b.indexes ++ []) in rw (ltb-false n n (omega arith))

  init-sealed :
      (es : List Entry) (b b0 : VsBlock) (file : List ℕ) (now : ℕ)
      → Holds codec es b file
      → 46 ≤ b.data_offset
      → codec.encodable (end_entry b now)
      → codec.encodable_index b.indexes
      → 24 ≤ b.index_size
      → FitsHeader b (make_snapshot b.actx b.indexes)
      → init codec b0
          (write_at (content b file now) 0 (header_bytes (sealed b now) (sealed_meta b now)))
        ≡ opened (reopened b b0 now)
  unfolding init init_loaded init_repaired persist_header read_fields set_meta
  init-sealed es b b0 file now v room e x wide fit =
      let out = write_at (content b file now) 0 (header_bytes (sealed b now) (sealed_meta b now)) in
      let read =
        load-persist (sealed b now) b0 (sealed_meta b now) (content b file now)
          (sealed-FitsHeader b now fit) (omega (arith, v.headed, content_length b file now)) in
      ap (init_loaded codec out) read
      ∙ (rw (ltb-false b.index_size 24 wide) (
          ap (init_repaired codec) (repair_sealed es b b0 file now v room e x)
          ∙ validate-reopened b b0 now))

  reopened_context :
      (es : List Entry) (b b0 : VsBlock) (file : List ℕ) (now : ℕ)
      → Holds codec es b file
      → (reopened b b0 now).actx ≡ (prepare_archive codec b.actx now).1
  unfolding set_meta make_snapshot prepare_archive
  reopened_context es b b0 file now v =
      let idx = b.indexes ++ [] in
      let i : idx ≡ layout codec b.data_offset es = append-nil b.indexes ∙ v.indexed in
      let span : indexes_span idx ≡ entries_size codec es =
        ap indexes_span i ∙ indexes_span-layout codec b.data_offset es in
      let seq : length idx ≡ b.actx.seq =
        omega (arith, v.next_seq, ap length i, length-layout codec b.data_offset es) in
      let off : b.data_offset + indexes_span idx ≡ b.actx.offset =
        omega (arith, span, file_length codec es b file v, v.next_offset) in
      rw (off, seq)

  -- For a block that holds a list of entries and is not archived, whose data begins behind the
  -- header, whose values fit the header and whose index size is at least 24: committing the
  -- fragment of PrepareArchive with the stream at the end of the file succeeds, and the file it
  -- leaves, with the end entry, the indexes and the header written, is opened by init as a block
  -- with the same indexes and with the context that PrepareArchive returned. The format has room
  -- for the end entry and for the indexes.
  pub archive-reopen :
      (es : List Entry) (b b0 : VsBlock) (file : List ℕ) (now : ℕ)
      → Holds codec es b file
      → 46 ≤ b.data_offset
      → codec.encodable (end_entry b now)
      → codec.encodable_index b.indexes
      → 24 ≤ b.index_size
      → FitsHeader b (make_snapshot b.actx b.indexes)
      → let archive = prepare_archive codec b.actx now in
        (b1 b2 : VsBlock) × ((file' : List ℕ) × ((commit_append codec b file (some archive.0)
              ≡ some (b1, file'))
            × ((init codec b0 file' ≡ opened b2)
                × ((b2.indexes ≡ b.indexes) × (b2.actx ≡ archive.1)))))
  unfolding finish_archive prepare_archive persist_header set_meta make_snapshot
  archive-reopen es b b0 file now v room e x wide fit = (
    record (sealed b now) { fm = sealed_meta b now },
    reopened b b0 now,
    (
      write_at (content b file now) 0 (header_bytes (sealed b now) (sealed_meta b now)),
      (
        commit_end codec b file now v.next_offset e,
        (
          init-sealed es b b0 file now v room e x wide fit,
          (append-nil b.indexes, reopened_context es b b0 file now v),
        ),
      ),
    ),
  )
