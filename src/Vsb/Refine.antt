-- ===== src/Vsb/Refine.antt =====
-- A block as a list of entries: what appending in two phases and reading do to the list.
pub mod Reading
use mathlib.Core.Path.{subst}
use vanus.Base.{
  ==_of, List, [], ap, arith, drop, drop-append, false, leb-false, length, length-append,
  length-drop, some, suc, sym, true, ℕ, ◌++◌, ◌+◌, ◌<◌, ◌==◌, ◌∙◌, ◌∷◌, ◌≡◌, ◌≤◌,
}
use vanus.Vsb.{VsBlock}
use vanus.Vsb.Codec.{Codec, Entry}
use vanus.Vsb.Append.{
  build_indexes, built, commit_append, commit_append_at, commit_built, entries_size,
  marshal_entries, new_fragment, prepare_append, wrap_entries,
}
use vanus.Vsb.Append.Layout.{
  AllEncodable, IsNumbered, IsNumbered-append, build_rounds-layout, layout, layout-append,
  length-marshal_entries, length-wrap_entries, marshal_entries-append, wrap_entries-IsNumbered,
}

module _ (codec : Codec) where
  -- The block and its file hold the entries `es`.
  pub record Holds (es : List Entry) (b : VsBlock) (file : List ℕ) : Type 0 where
    pub numbered : IsNumbered codec 0 es
    pub indexed : b.indexes ≡ layout codec b.data_offset es
    pub next_seq : b.actx.seq ≡ length es
    pub next_offset : b.actx.offset ≡ length file
    pub open_still : b.actx.archived ≡ false
    pub headed : b.data_offset ≤ length file
    pub stored : drop b.data_offset file ≡ marshal_entries codec es

  pub file_length :
      (es : List Entry) (b : VsBlock) (file : List ℕ)
      → Holds es b file
      → length file ≡ b.data_offset + entries_size codec es
  file_length es b file v = omega (
    arith,
    length-drop b.data_offset file,
    ap length v.stored,
    length-marshal_entries codec es,
    v.headed,
  )

  -- The block after entries were appended.
  unfoldable pub extended : VsBlock → List Entry → VsBlock
  extended b ws = record b {
    actx = record b.actx {
      seq = b.actx.seq + length ws;
      offset = b.actx.offset + entries_size codec ws;
    };
    indexes = b.indexes ++ layout codec b.actx.offset ws;
  }

  pub length_le_size : (es : List Entry) → length es ≤ entries_size codec es
  unfolding entries_size
  length_le_size [] = omega arith
  length_le_size (e ∷ es) = omega (arith, length_le_size es, codec.size-positive e)

  build_indexes-layout :
      (off s : ℕ) (ws : List Entry)
      → IsNumbered codec s ws
      → build_indexes codec s (new_fragment codec off ws)
        ≡ built (layout codec off ws) (s + length ws) false
  unfolding build_indexes new_fragment
  build_indexes-layout off s ws n =
      build_rounds-layout codec (suc (length (marshal_entries codec ws))) off s ws []
        (omega (arith, length-marshal_entries codec ws, length_le_size ws)) n

  commit_numbered :
      (b : VsBlock) (file : List ℕ) (ws : List Entry)
      → b.actx.offset ≡ length file
      → 0 < length ws
      → IsNumbered codec b.actx.seq ws
      → commit_append codec b file (some (new_fragment codec b.actx.offset ws))
        ≡ some (extended b ws, file ++ marshal_entries codec ws)
  unfolding commit_append_at new_fragment commit_built extended
  commit_numbered b file ws q h n =
      let late =
        leb-false (b.actx.offset + length (marshal_entries codec ws)) (length file)
          (omega (arith, length-marshal_entries codec ws, length_le_size ws)) in
      let same : (b.actx.offset == length file) ≡ true = ==_of b.actx.offset (length file) q in
      rw (
        late,
        same,
        build_indexes-layout b.actx.offset b.actx.seq ws n,
        length-marshal_entries codec ws,
      )

  pub extended-Holds :
      (es : List Entry) (b : VsBlock) (file : List ℕ) (ws : List Entry)
      → Holds es b file
      → IsNumbered codec b.actx.seq ws
      → Holds (es ++ ws) (extended b ws) (file ++ marshal_entries codec ws)
  unfolding extended
  extended-Holds es b file ws v n =
      let len = file_length es b file v in
      record {
        numbered =
            IsNumbered-append codec 0 es ws v.numbered
              (subst (λ k. IsNumbered codec k ws) (omega (arith, v.next_seq)) n);
        indexed =
            rw (layout-append codec b.data_offset es ws, v.indexed)
              (ap (λ k. layout codec b.data_offset es ++ layout codec k ws)
                (omega (arith, v.next_offset, len)));
        next_seq = omega (arith, length-append es ws, v.next_seq);
        next_offset = omega (
          arith,
          length-append file (marshal_entries codec ws),
          length-marshal_entries codec ws,
          v.next_offset,
        );
        open_still = v.open_still;
        headed = omega (arith, length-append file (marshal_entries codec ws), v.headed);
        stored =
            drop-append b.data_offset file (marshal_entries codec ws) v.headed
            ∙ (ap (λ t. t ++ marshal_entries codec ws) v.stored
                ∙ sym (marshal_entries-append codec es ws));
      }

  -- For a block whose indexes, counters and file hold a list of entries and that is not archived,
  -- with the stream at the end of the file, committing the fragment that PrepareAppend made of at
  -- least one new entry in the block's own context adds these entries, numbered on from the last,
  -- to the list that indexes, counters and file hold, and leaves the context that PrepareAppend
  -- returned. The format has room for each new entry, and the size of the fragment is a uint32.
  pub commit-prepare :
      (es : List Entry) (b : VsBlock) (file : List ℕ) (bodies : List (List ℕ)) (now : ℕ)
      → Holds es b file
      → 0 < length bodies
      → AllEncodable codec (wrap_entries bodies b.actx.seq now)
      → entries_size codec (wrap_entries bodies b.actx.seq now) < 4294967296
      → let ws = wrap_entries bodies b.actx.seq now in
        let p = prepare_append codec b b.actx bodies now in
        (commit_append codec b file (some p.frag)
          ≡ some (extended b ws, file ++ marshal_entries codec ws))
        × (((extended b ws).actx ≡ p.context)
            × Holds (es ++ ws) (extended b ws) (file ++ marshal_entries codec ws))
  unfolding prepare_append extended
  commit-prepare es b file bodies now v h room fits =
      let ws = wrap_entries bodies b.actx.seq now in
      let n = wrap_entries-IsNumbered codec bodies b.actx.seq now room in
      (
        commit_numbered b file ws v.next_offset
            (omega (arith, length-wrap_entries bodies b.actx.seq now)) n,
        (rw (length-wrap_entries bodies b.actx.seq now), extended-Holds es b file ws v n),
      )
