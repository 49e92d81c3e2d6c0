-- ===== src/Vsb/Refine/Reading.antt =====
-- Reading a block that holds entries.
use native.Mathlib.Decide.{dec_lt}
use vanus.Base.{
  Bool-cases, List, [], ap, append-nil, append_assoc, arith, drop, drop-append_self, drop-drop,
  false, get_elem?, if◌then◌else◌, inl, inr, leb-false, length, length-append, length-drop, le→leb,
  ltb, ltb-false, lt→ltb, refl, slice, some, suc, sym, take, take-append-drop, take-append_self,
  take_all, take_split, zero, ℕ, ◌++◌, ◌+◌, ◌-◌, ◌<◌, ◌==◌, ◌∙◌, ◌∷◌, ◌≡◌, ◌≤◌,
}
use vanus.Vsb.{Index, VsBlock, end_offset, start_offset}
use vanus.Vsb.Codec.{Codec, Entry}
use vanus.Vsb.Append.{entries_size, marshal_entries}
use vanus.Vsb.Append.Layout.{
  AllEncodable, AllEncodable-drop, AllEncodable-of, AllEncodable-take, layout, length-layout,
  length-marshal_entries, marshal_entries-append,
}
use vanus.Vsb.Read.{
  entries, entry_count, entry_range, full, range, range_between, read, read_exceeded, read_on_end,
  read_range, read_rounds,
}
use vanus.Vsb.Refine.{Holds, file_length, length_le_size}

module _ (codec : Codec) where
  -- The start of the `i`th index, and the end of it.
  starts :
      (off : ℕ) (es : List Entry) (i : ℕ)
      → i < length es
      → (x : Index) × ((get_elem? (layout codec off es) i ≡ some x)
          × ((start_offset x ≡ off + entries_size codec (take i es))
              × (end_offset x ≡ off + entries_size codec (take (suc i) es))))
  unfolding layout entries_size start_offset end_offset
  starts off [] i h = absurd (omega arith)
  starts off (e ∷ es) zero h = (_, (refl, (omega arith, omega arith)))
  starts off (e ∷ es) (suc i) h =
      let next = starts (off + codec.size e) es i (omega arith) in
      (next.0, (next.1.0, (omega (arith, next.1.1.0), omega (arith, next.1.1.1))))

  entries_size-append :
      (es fs : List Entry)
      → entries_size codec (es ++ fs) ≡ entries_size codec es + entries_size codec fs
  unfolding entries_size
  entries_size-append [] fs = omega arith
  entries_size-append (e ∷ es) fs = omega (arith, entries_size-append es fs)

  read_rounds-all :
      (fuel : ℕ) (es found : List Entry)
      → length es < fuel
      → AllEncodable codec es
      → read_rounds codec fuel (marshal_entries codec es) found ≡ entries (found ++ es)
  unfolding read_rounds marshal_entries
  read_rounds-all zero es found h a = absurd (omega arith)
  read_rounds-all (suc fuel) [] found h a = rw (append-nil found)
  read_rounds-all (suc fuel) (e ∷ es) found h a =
      let some_left = lt→ltb 0 (length (codec.marshal e ++ marshal_entries codec es)) (
        omega (
          arith,
          codec.size-positive e,
          length-append (codec.marshal e) (marshal_entries codec es),
          codec.length-marshal e,
        )) in
      let tail : drop (codec.size e) (codec.marshal e ++ marshal_entries codec es)
          ≡ marshal_entries codec es =
        ap (λ n. drop n (codec.marshal e ++ marshal_entries codec es))
          (sym (codec.length-marshal e))
        ∙ drop-append_self (codec.marshal e) (marshal_entries codec es) in
      rw (some_left, read_rounds)
        (rw (codec.unmarshal-marshal e (marshal_entries codec es) a.0, read_rounds)
          (rw tail (
            read_rounds-all fuel es (found ++ (e ∷ [])) (omega arith) a.1
            ∙ ap entries (append_assoc found (e ∷ []) es))))

  -- The bytes of the first `n` entries, and those behind them.
  bytes_of_take :
      (n : ℕ) (es : List Entry)
      → (take (entries_size codec (take n es)) (marshal_entries codec es)
          ≡ marshal_entries codec (take n es))
        × (drop (entries_size codec (take n es)) (marshal_entries codec es)
            ≡ marshal_entries codec (drop n es))
  bytes_of_take n es =
      let a = marshal_entries codec (take n es) in
      let b = marshal_entries codec (drop n es) in
      let whole : marshal_entries codec es ≡ a ++ b =
        ap (marshal_entries codec) (sym (take-append-drop n es))
        ∙ marshal_entries-append codec (take n es) (drop n es) in
      let len = length-marshal_entries codec (take n es) in
      (
        ap (λ t. take (entries_size codec (take n es)) t) whole
            ∙ (ap (λ k. take k (a ++ b)) (sym len) ∙ take-append_self a b),
        ap (λ t. drop (entries_size codec (take n es)) t) whole
            ∙ (ap (λ k. drop k (a ++ b)) (sym len) ∙ drop-append_self a b),
      )

  range_of_entries :
      (d : ℕ) (es : List Entry) (start count : ℕ)
      → start < count
      → count ≤ length es
      → range_between
          (get_elem? (layout codec d es) start)
          (get_elem? (layout codec d es) (count - 1))
          (count - start)
        ≡ range
            (d + entries_size codec (take start es))
            (d + entries_size codec (take count es))
            (count - start)
  unfolding range_between
  range_of_entries d es start count h k =
      let first = starts d es start (omega arith) in
      let last = starts d es (count - 1) (omega arith) in
      let whole : suc (count - 1) ≡ count = omega arith in
      rw (first.1.0, last.1.0, first.1.1.0, last.1.1.1, whole)

  -- The bytes of the entries from `start` to `start + k`.
  slice_of_entries :
      (es : List Entry) (b : VsBlock) (file : List ℕ) (start k : ℕ)
      → Holds codec es b file
      → slice file
          (b.data_offset + entries_size codec (take start es))
          (b.data_offset + entries_size codec (take (start + k) es))
        ≡ marshal_entries codec (take k (drop start es))
  slice_of_entries es b file start k v =
      let from = entries_size codec (take start es) in
      let behind : drop (b.data_offset + from) file ≡ marshal_entries codec (drop start es) =
        sym (drop-drop b.data_offset from file)
        ∙ (ap (λ t. drop from t) v.stored ∙ (bytes_of_take start es).1) in
      let sizes : entries_size codec (take (start + k) es)
          ≡ from + entries_size codec (take k (drop start es)) =
        ap (entries_size codec) (take_split start k es)
        ∙ entries_size-append (take start es) (take k (drop start es)) in
      let span : (b.data_offset + entries_size codec (take (start + k) es)) - (b.data_offset + from)
          ≡ entries_size codec (take k (drop start es)) =
        omega (arith, sizes) in
      rw (behind, span) ((bytes_of_take k (drop start es)).0)

  within_file :
      (es : List Entry) (b : VsBlock) (file : List ℕ) (n : ℕ)
      → Holds codec es b file
      → b.data_offset + entries_size codec (take n es) ≤ length file
  within_file es b file n v = omega (
    arith,
    file_length codec es b file v,
    entries_size-append (take n es) (drop n es),
    ap (entries_size codec) (take-append-drop n es),
  )

  read_range-entries :
      (es : List Entry) (b : VsBlock) (file : List ℕ) (start k : ℕ)
      → Holds codec es b file
      → read_range codec file (
          range
            (b.data_offset + entries_size codec (take start es))
            (b.data_offset + entries_size codec (take (start + k) es))
            k)
        ≡ entries (take k (drop start es))
  unfolding read_range
  read_range-entries es b file start k v =
      let found = take k (drop start es) in
      let room =
        ltb-false (length file) (b.data_offset + entries_size codec (take (start + k) es))
          (within_file es b file (start + k) v) in
      rw (room, slice_of_entries es b file start k v)
        (read_rounds-all (suc (length (marshal_entries codec found))) found []
          (omega (arith, length-marshal_entries codec found, length_le_size codec found))
          (AllEncodable-take codec k (drop start es)
            (AllEncodable-drop codec start es (AllEncodable-of codec 0 es v.numbered))))

  -- With `k` entries from `seq` on to be read.
  read_within :
      (es : List Entry) (b : VsBlock) (file : List ℕ) (seq num k : ℕ)
      → Holds codec es b file
      → 0 < k
      → seq + k ≤ length es
      → entry_count (length es) (seq + num) ≡ seq + k
      → read codec b file seq num ≡ entries (take k (drop seq es))
  unfolding read entry_range
  read_within es b file seq num k v positive fits q =
      let size : length b.indexes ≡ length es =
        ap length v.indexed ∙ length-layout codec b.data_offset es in
      let inside = leb-false (length es) seq (omega arith) in
      let some_asked : (seq + k == 0) ≡ false = ground arith in
      let got = range_of_entries b.data_offset es seq (seq + k) (omega arith) fits in
      let n : seq + k - seq ≡ k = omega arith in
      rw (size, inside, q, some_asked, v.indexed, got, n) (read_range-entries es b file seq k v)

  read_there :
      (es : List Entry) (b : VsBlock) (file : List ℕ) (seq num : ℕ)
      → Holds codec es b file
      → 0 < num
      → seq < length es
      → read codec b file seq num ≡ entries (take num (drop seq es))
  unfolding entry_count
  read_there es b file seq num v h within = elim (dec_lt (length es) (seq + num)) [
    | yes over ↦
        let rest = length es - seq in
        let q = le→leb (length es + 1) (seq + num) (omega arith) in
        let whole : length es ≡ seq + rest = omega arith in
        let short : take num (drop seq es) ≡ take rest (drop seq es) =
          take_all num (drop seq es) (omega (arith, length-drop seq es))
          ∙ sym (take_all rest (drop seq es) (omega (arith, length-drop seq es))) in
        read_within es b file seq num rest v (omega arith) (omega arith) (rw q whole)
        ∙ ap entries (sym short)
    | no all ↦
        let q = leb-false (length es + 1) (seq + num) (omega arith) in
        read_within es b file seq num num v h (omega arith) (rw q)
  ]

  read_behind :
      (es : List Entry) (b : VsBlock) (file : List ℕ) (seq num : ℕ)
      → Holds codec es b file
      → length es ≤ seq
      → read codec b file seq num ≡ (if seq == length es then read_on_end else read_exceeded)
  unfolding read entry_range full read_range
  read_behind es b file seq num v h =
      let size : length b.indexes ≡ length es =
        ap length v.indexed ∙ length-layout codec b.data_offset es in
      let beyond = le→leb (length es) seq h in
      elim (Bool-cases (seq == length es)) [
        | inl e ↦ rw (size, beyond, e, v.open_still)
        | inr e ↦ rw (size, beyond, e)
      ]

  -- Read on a block that is not archived and holds a list of entries that the format has room for
  -- returns, for a positive number, the entries from the sequence number on, as many as asked for
  -- and there; at the end of the list it reports the end, behind it that the block is exceeded.
  pub read_lem :
      (es : List Entry) (b : VsBlock) (file : List ℕ) (seq num : ℕ)
      → Holds codec es b file
      → 0 < num
      → read codec b file seq num ≡ (
          if ltb seq (length es)
          then entries (take num (drop seq es))
          else if seq == length es
          then read_on_end
          else read_exceeded)
  read_lem es b file seq num v h = elim (dec_lt seq (length es)) [
    | yes within ↦ rw (lt→ltb seq (length es) within) (read_there es b file seq num v h within)
    | no behind ↦
        rw (ltb-false seq (length es) (omega arith)) (read_behind es b file seq num v (omega arith))
  ]
