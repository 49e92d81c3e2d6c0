-- ===== src/Vsb/Snapshot/CatchUp.antt =====
-- A block that holds the first entries of another takes over the rest from its snapshot.
use mathlib.Core.Path.{subst}
use vanus.Base.{
  ==_iff, Bool-cases, List, [], above, ap, append-nil, append_assoc, arith, drop, drop-append_self,
  drop-drop, drop_all, false, inl, inr, le_bytes, leb-false, length, length-append, ltb-false,
  lt→ltb, refl, some, suc, sym, take_all, zero, ℕ, ◌++◌, ◌+◌, ◌-◌, ◌<◌, ◌==◌, ◌∙◌, ◌∷◌, ◌≡◌, ◌≤◌,
}
use vanus.Vsb.{Index, VsBlock}
use vanus.Vsb.Codec.{Codec, Entry, EntryType, cloud_event}
use vanus.Vsb.Append.{
  Fragment, commit_append_at, entries_size, fragment_end, is_end, make_snapshot, marshal_entries,
}
use vanus.Vsb.Append.Layout.{
  IsNumbered, int32-size, layout, length-layout, length-marshal_entries, marshal_entries-append,
}
use vanus.Vsb.Refine.{Holds, extended, extended-Holds, file_length, length_le_size}
use vanus.Vsb.Snapshot.{
  applied, applied_replay, apply_snapshot, replay, replayed, snapshot, snapshot_of, write_file,
}

empty_of : (xs : List ℕ) → length xs ≡ 0 → xs ≡ []
empty_of [] h = refl
empty_of (x ∷ xs) h = absurd (omega arith)

event_test : (k : EntryType) → k ≡ cloud_event → is_end k ≡ false
unfolding is_end
event_test k e = rw e

-- The snapshot of a block that holds a list of entries is its data offset in 8 bytes and the bytes
-- of these entries.
pub snapshot-Holds :
    (codec : Codec) (es : List Entry) (b : VsBlock) (file : List ℕ)
    → Holds codec es b file
    → snapshot b file ≡ snapshot_of (le_bytes 8 b.data_offset ++ marshal_entries codec es)
unfolding snapshot make_snapshot
snapshot-Holds codec es b file v =
    let size = file_length codec es b file v in
    let len = length-marshal_entries codec es in
    elim (Bool-cases (b.actx.offset == b.data_offset)) [
      | inl e ↦
          let none_yet : marshal_entries codec es ≡ [] =
            empty_of (marshal_entries codec es)
              (omega (arith, len, size, v.next_offset, (==_iff b.actx.offset b.data_offset).0 e)) in
          rw (e, none_yet, append-nil (le_bytes 8 b.data_offset))
      | inr e ↦
          let whole = ltb-false (length file) b.actx.offset (omega (arith, v.next_offset)) in
          let all =
            take_all (b.actx.offset - b.data_offset) (marshal_entries codec es)
              (omega (arith, len, size, v.next_offset)) in
          rw (e, whole, v.stored, all)
    ]

module _ (codec : Codec) where
  replay-layout :
      (fuel off eo s : ℕ) (es : List Entry) (payload : List ℕ) (indexes : List Index)
      → length es < fuel
      → IsNumbered codec s es
      → 4096 ≤ off
      → eo ≡ off + entries_size codec es
      → drop (off - 4096) payload ≡ marshal_entries codec es
      → replay codec fuel off eo payload indexes ≡ replayed (indexes ++ layout codec off es) false
  unfolding replay layout marshal_entries entries_size
  replay-layout zero off eo s es payload indexes h n low q e = absurd (omega arith)
  replay-layout (suc fuel) off eo s [] payload indexes h n low q e =
      rw (ltb-false off eo (omega arith), replay) (rw (append-nil indexes))
  replay-layout (suc fuel) off eo s (x ∷ es) payload indexes h n low q e =
      let more = lt→ltb off eo (omega (arith, codec.size-positive x)) in
      let idx : Index = record { offset = off; length = codec.size x; stime = x.stime } in
      let next : drop (off + codec.size x - 4096) payload ≡ marshal_entries codec es =
        ap (λ k. drop k payload) (omega arith)
        ∙ (sym (drop-drop (off - 4096) (codec.size x) payload)
            ∙ (ap (λ t. drop (codec.size x) t) e
                ∙ (ap (λ k. drop k (codec.marshal x ++ marshal_entries codec es))
                      (sym (codec.length-marshal x))
                    ∙ drop-append_self (codec.marshal x) (marshal_entries codec es)))) in
      let event : is_end x.kind ≡ false = event_test x.kind n.1.0 in
      rw (more, replay)
        (rw (e, codec.unmarshal-marshal x (marshal_entries codec es) n.1.1.0, replay)
          (rw (int32-size codec x n.1.1.0, event)
            (replay-layout fuel (off + codec.size x) eo (s + 1) es payload (indexes ++ (idx ∷ []))
                (omega arith) n.1.1.1 (omega arith) (omega arith) next
              ∙ ap (λ t. replayed t false)
                  (append_assoc indexes (idx ∷ []) (layout codec (off + codec.size x) es)))))

  -- The file after the bytes behind `cur` were written.
  write_file-end : (file bytes : List ℕ) → write_file file (length file) bytes ≡ file ++ bytes
  unfolding write_file
  write_file-end file bytes = rw (
    take_all (length file) file (omega arith),
    drop_all (length file + length bytes) file (omega arith),
    append-nil bytes,
  )

  -- What is left of the snapshot's data behind the entries that are there.
  rest_of :
      (es fs : List Entry) (n : ℕ)
      → n ≡ entries_size codec es
      → drop n (marshal_entries codec (es ++ fs)) ≡ marshal_entries codec fs
  rest_of es fs n q =
      ap (λ t. drop n t) (marshal_entries-append codec es fs)
      ∙ (ap (λ k. drop k (marshal_entries codec es ++ marshal_entries codec fs))
            (q ∙ sym (length-marshal_entries codec es))
          ∙ drop-append_self (marshal_entries codec es) (marshal_entries codec fs))

  applied_replay-extended :
      (es fs : List Entry) (b : VsBlock) (file : List ℕ) (eo : ℕ)
      → Holds codec es b file
      → eo ≡ b.actx.offset + entries_size codec fs
      → applied_replay b
          (file ++ marshal_entries codec fs)
          eo
          (replayed (b.indexes ++ layout codec b.actx.offset fs) false)
        ≡ applied (extended codec b fs) (file ++ marshal_entries codec fs)
  unfolding applied_replay extended
  applied_replay-extended es fs b file eo v q =
      let seqs : length (b.indexes ++ layout codec b.actx.offset fs) ≡ b.actx.seq + length fs =
        omega (
          arith,
          length-append b.indexes (layout codec b.actx.offset fs),
          length-layout codec b.actx.offset fs,
          v.next_seq,
          ap length v.indexed,
          length-layout codec b.data_offset es,
        ) in
      rw (seqs, q)

  -- A fragment at the end of a file that is longer than the stream knows is not taken.
  left_behind :
      (b : VsBlock) (file : List ℕ) (fs : List Entry)
      → 0 < length fs
      → (next : Fragment) → next.start ≡ length (file ++ marshal_entries codec fs)
      → commit_append_at codec (length file) b (file ++ marshal_entries codec fs) (some next)
        ≡ some (b, file ++ marshal_entries codec fs)
  unfolding commit_append_at
  left_behind b file fs h next q =
      let longer : length file < length (file ++ marshal_entries codec fs) = omega (
        arith,
        length-append file (marshal_entries codec fs),
        length-marshal_entries codec fs,
        length_le_size codec fs,
      ) in
      let late = leb-false (fragment_end next) (length file) (omega (arith, q, longer)) in
      let off = above next.start (length file) (omega (arith, q, longer)) in rw (late, off)

  -- ApplySnapshot, with the data of a block that holds a list of entries and more behind them, on
  -- a block of data offset 4096 that holds that list, makes it hold the longer list: file, indexes
  -- and counters are those after appending the rest. The stream is not moved: with a write offset
  -- that was the end of the file before, CommitAppend then writes no fragment that begins at the
  -- new end. The format has room for each entry.
  pub apply_snapshot-Holds :
      (es fs : List Entry) (b : VsBlock) (file : List ℕ)
      → Holds codec es b file
      → b.data_offset ≡ 4096
      → IsNumbered codec (length es) fs
      → 0 < length fs
      → (apply_snapshot codec b file
            (record { start = 4096; payload = marshal_entries codec (es ++ fs) })
          ≡ applied (extended codec b fs) (file ++ marshal_entries codec fs))
        × (Holds codec (es ++ fs) (extended codec b fs) (file ++ marshal_entries codec fs)
            × ((next : Fragment)
                → next.start ≡ length (file ++ marshal_entries codec fs)
                → commit_append_at codec
                    (length file)
                    (extended codec b fs)
                    (file ++ marshal_entries codec fs)
                    (some next)
                  ≡ some (extended codec b fs, file ++ marshal_entries codec fs)))
  unfolding apply_snapshot
  apply_snapshot-Holds es fs b file v d n h =
      let n' : IsNumbered codec b.actx.seq fs =
        subst (λ k. IsNumbered codec k fs) (sym v.next_seq) n in
      let payload = marshal_entries codec (es ++ fs) in
      let size = file_length codec es b file v in
      let total : length payload ≡ entries_size codec es + entries_size codec fs =
        ap length (marshal_entries-append codec es fs)
        ∙ omega (
          arith,
          length-append (marshal_entries codec es) (marshal_entries codec fs),
          length-marshal_entries codec es,
          length-marshal_entries codec fs,
        ) in
      let some_left = length_le_size codec fs in
      let eo = 4096 + length payload in
      let in_order = ltb-false b.actx.offset 4096 (omega (arith, size, v.next_offset)) in
      let longer = leb-false eo b.actx.offset (omega (arith, size, v.next_offset, total)) in
      let rest = rest_of es fs (b.actx.offset - 4096) (omega (arith, size, v.next_offset)) in
      let found =
        replay-layout (suc (eo - b.actx.offset)) b.actx.offset eo b.actx.seq fs payload b.indexes
          (omega (arith, size, v.next_offset, total)) n' (omega (arith, size, v.next_offset))
          (omega (arith, size, v.next_offset, total)) rest in
      let wrote : write_file file b.actx.offset (marshal_entries codec fs)
          ≡ file ++ marshal_entries codec fs =
        ap (λ k. write_file file k (marshal_entries codec fs)) v.next_offset
        ∙ write_file-end file (marshal_entries codec fs) in
      (
        rw (in_order, longer, found, rest, wrote)
            (applied_replay-extended es fs b file eo v (omega (arith, size, v.next_offset, total))),
        (extended-Holds codec es b file fs v n', left_behind (extended codec b fs) file fs h),
      )
