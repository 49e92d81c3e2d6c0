-- ===== src/Vsb/Open/Reopen.antt =====
-- A block that was not archived, opened again with the header it was created with.
use vanus.Base.{
  ==_of, List, [], ap, append-nil, append_assoc, arith, drop, drop-append_self, drop-drop, false,
  length, ltb-false, refl, suc, sym, zero, ℕ, ◌++◌, ◌+◌, ◌-◌, ◌<◌, ◌∙◌, ◌∷◌, ◌≡◌,
}
use vanus.Vsb.{Index, VsBlock}
use vanus.Vsb.Codec.{Codec, Entry, EntryType, cloud_event}
use vanus.Vsb.Append.{entries_size, is_end, marshal_entries}
use vanus.Vsb.Append.Layout.{IsNumbered, int32-size, layout, length-layout}
use vanus.Vsb.Refine.{Holds, file_length, length_le_size}
use vanus.Vsb.Open.{
  is_index, opened, rebuild_indexes, rebuild_rounds, rebuilt, repair_meta, repaired, scan_entries,
  scan_entry, set_meta, set_rebuilt, validate, with_tail,
}

pub drop_entry :
    (codec : Codec) (file rest : List ℕ) (off : ℕ) (e : Entry)
    → drop off file ≡ codec.marshal e ++ rest
    → drop (off + codec.size e) file ≡ rest
drop_entry codec file rest off e q =
    sym (drop-drop off (codec.size e) file)
    ∙ (ap (λ t. drop (codec.size e) t) q
        ∙ (ap (λ k. drop k (codec.marshal e ++ rest)) (sym (codec.length-marshal e))
            ∙ drop-append_self (codec.marshal e) rest))

event_tests : (k : EntryType) → k ≡ cloud_event → (is_end k ≡ false) × (is_index k ≡ false)
unfolding is_end is_index
event_tests k e = (rw e, rw e)

module _ (codec : Codec) where
  -- The loop over the entries, up to the end of the file.
  scan_entries-layout :
      (fuel off s : ℕ) (b : VsBlock) (file : List ℕ) (es : List Entry) (indexes : List Index)
      → length es < fuel
      → IsNumbered codec s es
      → drop off file ≡ marshal_entries codec es
      → scan_entries codec fuel b file off s indexes
        ≡ set_rebuilt b
            (off + entries_size codec es)
            (s + length es)
            false
            (rebuild_indexes codec b file (s + length es) (indexes ++ layout codec off es))
  unfolding scan_entries scan_entry marshal_entries layout entries_size
  scan_entries-layout zero off s b file es indexes h n q = absurd (omega arith)
  scan_entries-layout (suc fuel) off s b file [] indexes h n q =
      let o : off + 0 ≡ off = omega arith in
      let k : s + 0 ≡ s = omega arith in
      rw (q, scan_entries) (rw (codec.unmarshal-empty, append-nil indexes, o, k))
  scan_entries-layout (suc fuel) off s b file (e ∷ es) indexes h n q =
      let idx : Index = record { offset = off; length = codec.size e; stime = e.stime } in
      let kinds = event_tests e.kind n.1.0 in
      let o : off + codec.size e + entries_size codec es
          ≡ off + (codec.size e + entries_size codec es) =
        omega arith in
      let k : s + 1 + length es ≡ s + suc (length es) = omega arith in
      rw (q, scan_entries)
        (rw (codec.unmarshal-marshal e (marshal_entries codec es) n.1.1.0, scan_entries)
          (rw (int32-size codec e n.1.1.0, kinds.0, kinds.1)
            (scan_entries-layout fuel (off + codec.size e) (s + 1) b file es (indexes ++ (idx ∷ []))
                (omega arith) n.1.1.1 (drop_entry codec file (marshal_entries codec es) off e q)
              ∙ rw (o, k, append_assoc indexes (idx ∷ []) (layout codec (off + codec.size e) es)))))

  rounds_empty :
      (fuel off : ℕ) (found : List Index)
      → rebuild_rounds codec (suc fuel) off [] found ≡ rebuilt found
  unfolding rebuild_rounds
  rounds_empty fuel off found =
      rw (codec.unmarshal-empty, rebuild_rounds) (rw codec.is_incomplete-empty)

  -- With no entries counted in the header there is nothing to rebuild.
  rebuild_nothing :
      (b : VsBlock) (file : List ℕ) (num : ℕ) (tail : List Index)
      → b.fm.entry_length ≡ 0
      → length tail ≡ num
      → rebuild_indexes codec b file num tail ≡ rebuilt tail
  unfolding rebuild_indexes with_tail
  rebuild_nothing b file num tail q k =
      let none_there : b.data_offset + b.fm.entry_length - b.data_offset ≡ 0 = omega arith in
      let counted = ==_of (0 + length tail) num (omega arith) in
      rw (none_there, rounds_empty 0 b.data_offset [], counted)

  repair_meta-layout :
      (es : List Entry) (b b0 : VsBlock) (file : List ℕ)
      → Holds codec es b file
      → b0.data_offset ≡ b.data_offset
      → b0.fm.entry_length ≡ 0
      → b0.fm.entry_num ≡ 0
      → b0.fm.archived ≡ false
      → repair_meta codec b0 file
        ≡ repaired (
            set_meta
              (record b0 { indexes = layout codec b.data_offset es })
              (length file)
              (length es)
              false)
  unfolding repair_meta set_rebuilt
  repair_meta-layout es b b0 file v d l m a =
      let size = file_length codec es b file v in
      let from : b0.data_offset + b0.fm.entry_length ≡ b.data_offset = omega arith in
      let end : b.data_offset + entries_size codec es ≡ length file = sym size in
      let scanned =
        scan_entries-layout (suc (length file)) b.data_offset 0 b0 file es []
          (omega (arith, size, length_le_size codec es)) v.numbered v.stored in
      let nothing =
        rebuild_nothing b0 file (0 + length es) (layout codec b.data_offset es) l
          (omega (arith, length-layout codec b.data_offset es)) in
      let num : 0 + length es ≡ length es = omega arith in
      simp (a, from, m) (scanned ∙ rw (nothing, end, num))

  -- repairMeta, on the file of a block that holds a list of entries that the format has room for
  -- and was not archived, with a header that counts no entries yet, succeeds: the block passes
  -- validate and holds the same list of entries.
  pub reopen-Holds :
      (es : List Entry) (b b0 : VsBlock) (file : List ℕ)
      → Holds codec es b file
      → b0.data_offset ≡ b.data_offset
      → b0.fm.entry_length ≡ 0
      → b0.fm.entry_num ≡ 0
      → b0.fm.archived ≡ false
      → b0.actx.archived ≡ false
      → (b1 : VsBlock) × ((repair_meta codec b0 file ≡ repaired b1)
          × ((validate b1 ≡ opened b1) × Holds codec es b1 file))
  unfolding set_meta validate
  reopen-Holds es b b0 file v d l m a a' = (
    set_meta (record b0 { indexes = layout codec b.data_offset es }) (length file) (length es)
        false,
    (
      repair_meta-layout es b b0 file v d l m a,
      (
        rw (m, ltb-false (length (layout codec b.data_offset es)) 0 (omega arith)),
        record {
          numbered = v.numbered;
          indexed = rw d;
          next_seq = refl;
          next_offset = refl;
          open_still = a';
          headed = omega (arith, v.headed);
          stored = rw d v.stored;
        },
      ),
    ),
  )
