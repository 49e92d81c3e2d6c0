-- ===== src/Vsb/Open/Archived.antt =====
-- A block that is archived, up to the repair of its file.
pub mod Sealed
use vanus.Base.{
  ==_of, List, [], ap, append-nil, arith, drop, drop-append_self, drop-drop, false, leb-false,
  length, length-append, lt→ltb, refl, same_number, some, sym, true, write_at, write_at-zero, ℕ,
  ◌++◌, ◌+◌, ◌-◌, ◌==◌, ◌∙◌, ◌∷◌, ◌≡◌, ◌≤◌,
}
use vanus.Vsb.{Index, VsBlock, end_offset, start_offset}
use vanus.Vsb.Codec.{Codec, Entry, EntryType, end_type, index_type, wrap_entry}
use vanus.Vsb.Append.{
  build_entry, build_indexes, build_rounds, built, commit_append, commit_append_at, commit_built,
  entries_size, finish_archive, indexes_span, is_end, last_index, marshal_entries, new_fragment,
  prepare_archive,
}
use vanus.Vsb.Append.Layout.{layout}
use vanus.Vsb.Open.{
  after_end, found_end, found_index, is_index, misses_end, repair_archived, repaired, set_meta,
}
use vanus.Vsb.Open.Reopen.{drop_entry}

drop-write_at :
    (n : ℕ) (buf bytes : List ℕ)
    → length bytes ≤ length buf
    → length bytes ≤ n
    → drop n (write_at buf 0 bytes) ≡ drop n buf
drop-write_at n buf bytes h k =
    let m = length bytes in
    let split : m + (n - m) ≡ n = omega arith in
    ap (λ t. drop n t) (write_at-zero buf bytes h)
    ∙ (ap (λ j. drop j (bytes ++ drop m buf)) (sym split)
        ∙ (sym (drop-drop m (n - m) (bytes ++ drop m buf))
            ∙ (ap (λ t. drop (n - m) t) (drop-append_self bytes (drop m buf))
                ∙ (drop-drop m (n - m) buf ∙ ap (λ j. drop j buf) split))))

end_tests : (k : EntryType) → k ≡ end_type → is_end k ≡ true
unfolding is_end
end_tests k e = rw e

index_tests : (k : EntryType) → k ≡ index_type → is_index k ≡ true
unfolding is_index
index_tests k e = rw e

abbrev end_entry : VsBlock → ℕ → Entry
end_entry b now = wrap_entry [] end_type b.actx.seq now

module _ (codec : Codec) where
  open codec use {size, marshal, marshal_index, unmarshal-marshal, length-marshal, size-positive}

  last_index-layout :
      (off : ℕ) (e : Entry) (es : List Entry)
      → end_offset (
          last_index
            (record { offset = off; length = size e; stime = e.stime })
            (layout codec (off + size e) es))
        ≡ off + entries_size codec (e ∷ es)
  unfolding last_index layout end_offset entries_size
  last_index-layout off e [] = omega arith
  last_index-layout off e (f ∷ es) = last_index-layout (off + size e) f es ∙ omega arith

  indexes_span-layout :
      (off : ℕ) (es : List Entry) → indexes_span (layout codec off es) ≡ entries_size codec es
  unfolding indexes_span layout start_offset entries_size
  indexes_span-layout off [] = refl
  indexes_span-layout off (e ∷ es) = omega (arith, last_index-layout off e es)

  misses_end-layout :
      (off : ℕ) (es : List Entry)
      → misses_end (layout codec off es) (off + entries_size codec es) ≡ false
  unfolding misses_end layout
  misses_end-layout off [] = refl
  misses_end-layout off (e ∷ es) = rw (==_of _ _ (last_index-layout off e es))

  -- The block when the end entry is written.
  abbrev ended : VsBlock → ℕ → VsBlock
  ended b now = record b {
    actx = record {
      seq = b.actx.seq + 1;
      offset = b.actx.offset + length (marshal (end_entry b now) ++ []);
      archived = true;
    };
    indexes = b.indexes ++ [];
  }

  build_indexes-end :
      (b : VsBlock) (now : ℕ)
      → codec.encodable (end_entry b now)
      → build_indexes codec b.actx.seq
          (record { start = b.actx.offset; payload = marshal (end_entry b now) ++ [] })
        ≡ built [] (b.actx.seq + 1) true
  unfolding build_indexes build_rounds build_entry is_end
  build_indexes-end b now v =
      let w = end_entry b now in
      let bytes = length (marshal w ++ []) in
      let some_left =
        lt→ltb 0 bytes
          (omega (arith, size-positive w, length-append (marshal w) [], length-marshal w)) in
      let whole : (size w == bytes) ≡ true =
        ==_of (size w) bytes (omega (arith, length-append (marshal w) [], length-marshal w)) in
      rw (some_left, build_rounds)
        (rw (unmarshal-marshal w [] v, build_rounds) (rw (same_number b.actx.seq, whole)))

  commit_end :
      (b : VsBlock) (file : List ℕ) (now : ℕ)
      → b.actx.offset ≡ length file
      → codec.encodable (end_entry b now)
      → commit_append codec b file (some (prepare_archive codec b.actx now).0)
        ≡ some (finish_archive codec (ended b now) (file ++ (marshal (end_entry b now) ++ [])))
  unfolding commit_append_at prepare_archive new_fragment marshal_entries commit_built
  commit_end b file now q v =
      let w = end_entry b now in
      let late =
        leb-false (b.actx.offset + length (marshal w ++ [])) (length file)
          (omega (arith, size-positive w, length-append (marshal w) [], length-marshal w)) in
      let same = ==_of b.actx.offset (length file) q in rw (late, same, build_indexes-end b now v)

  -- The repair of a block whose entries end at `off`, with the end entry and the indexes behind.
  repair_archived-layout :
      (b0 : VsBlock) (file : List ℕ) (es : List Entry) (d off now s : ℕ) (w : Entry)
      (idx : List Index)
      → idx ≡ layout codec d es
      → off ≡ d + entries_size codec es
      → codec.encodable w
      → codec.encodable_index idx
      → w.kind ≡ end_type
      → w.seq ≡ s
      → drop off file ≡ marshal w ++ marshal_index idx
      → repair_archived codec b0 file off s
        ≡ repaired (
            set_meta
              (record b0 {
                indexes = idx;
                index_offset = off + size w;
                index_length = length (marshal_index idx);
              })
              (off + size w)
              (s + 1)
              true)
  unfolding repair_archived found_end after_end found_index
  repair_archived-layout b0 file es d off now s w idx i o v x k q h =
      let behind : drop (off + size w) file ≡ marshal_index idx ++ [] =
        drop_entry codec file (marshal_index idx) off w h ∙ sym (append-nil (marshal_index idx)) in
      let at : off + size w - size w ≡ d + entries_size codec es = omega arith in
      let fits : misses_end idx (off + size w - size w) ≡ false =
        rw (at, i) (misses_end-layout d es) in
      let kind = index_tests (codec.index_entry idx).kind (codec.index_entry-kind idx) in
      rw (h, repair_archived)
        (rw (unmarshal-marshal w (marshal_index idx) v, repair_archived)
          (rw (end_tests w.kind k, ==_of w.seq s q, behind, after_end)
            (rw (codec.unmarshal-marshal_index idx [] x, after_end)
              (rw (kind, codec.indexes_in-index_entry idx x, fits)))))
