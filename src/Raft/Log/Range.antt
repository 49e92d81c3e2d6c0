-- ===== src/Raft/Log/Range.antt =====
-- The entries that are read from a log, within a size.
use mathlib.Core.Path.{subst}
use vanus.Base.{
  Bool-cases, List, [], ap, arith, drop, inl, inr, le_of_not_ltb, leb-false, length, length-drop,
  length-take, ltb, ltb-false, ltb→lt, not_zero, refl, slice, suc, sym, take, zero, ℕ, ◌+◌, ◌-◌,
  ◌<◌, ◌∙◌, ◌∷◌, ◌≡◌, ◌≤◌, ◌⊎◌,
}
use vanus.Raft.Log.{
  LogStorage, RaftEntry, add64, compacted_index, entries_are, entry_or, last_index, limit_size,
  limit_within, log_entries, log_length,
}
use vanus.Raft.Log.Chain.{IsLog, Chain-index, log_length-eq, next_index-eq}

abbrev pub total_size : (RaftEntry → ℕ) → List RaftEntry → ℕ
total_size size [] = 0
total_size size (e ∷ es) = size e + total_size size es

record Fills (size : RaftEntry → ℕ) (max_size total : ℕ) (es : List RaftEntry) (n : ℕ)
    : Type 0 where
  pub some_of : n ≤ length es
  pub within : (n ≡ 0) ⊎ (total + total_size size (take n es) ≤ max_size)
  pub most : (n ≡ length es) ⊎ (max_size < total + total_size size (take (suc n) es))

limit_within-Fills :
    (size : RaftEntry → ℕ) (max_size total : ℕ) (es : List RaftEntry)
    → Fills size max_size total es (limit_within size max_size total es)
unfolding limit_within
limit_within-Fills size max_size total [] = record {
  some_of = omega arith;
  within = inl refl;
  most = inl refl;
}
limit_within-Fills size max_size total (e ∷ es) =
    elim (Bool-cases (ltb max_size (total + size e))) [
      | inl q ↦ rw q (record {
        some_of = omega arith;
        within = inl refl;
        most = inr (omega (arith, ltb→lt max_size (total + size e) q));
      })
      | inr q ↦
          (let f = limit_within-Fills size max_size (total + size e) es in
            let n = limit_within size max_size (total + size e) es in
            let b = le_of_not_ltb max_size (total + size e) q in
            rw q (record {
              some_of = omega (arith, f.some_of);
              within =
                  inr
                    (elim f.within [ inl z ↦ rw z (omega (arith, b)) | inr l ↦ omega (arith, l) ]);
              most = elim f.most [
                | inl l ↦ inl (omega (arith, l))
                | inr l ↦ inr (omega (arith, l))
              ];
            }))
    ]

-- What is read of `range` within the size: at least one entry, and as many as fit.
pub record IsLimited (size : RaftEntry → ℕ) (max_size : ℕ) (range es : List RaftEntry)
    : Type 0 where
  pub prefix : es ≡ take (length es) range
  pub some_read : 0 < length es
  pub within : (length es ≡ 1) ⊎ (total_size size es ≤ max_size)
  pub most :
      (length es ≡ length range) ⊎ (max_size < total_size size (take (suc (length es)) range))

limit_size-IsLimited :
    (size : RaftEntry → ℕ) (max_size : ℕ) (range : List RaftEntry)
    → 0 < length range
    → IsLimited size max_size range (limit_size size max_size range)
unfolding limit_size
limit_size-IsLimited size max_size [] h = absurd (omega arith)
limit_size-IsLimited size max_size (e ∷ es) h =
    let f = limit_within-Fills size max_size (size e) es in
    let n = limit_within size max_size (size e) es in
    let l : length (take n es) ≡ n = length-take n es ∙ omega (arith, f.some_of) in
    record {
      prefix = ap (λ k. e ∷ take k es) (sym l);
      some_read = omega arith;
      within = elim f.within [ inl z ↦ inl (omega (arith, l, z)) | inr b ↦ inr (omega (arith, b)) ];
      most = elim f.most [
        | inl z ↦ inl (omega (arith, l, z))
        | inr b ↦ inr (subst (λ k. max_size < size e + total_size size (take (suc k) es)) (sym l) b)
      ];
    }

first_limited :
    (size : RaftEntry → ℕ) (max_size : ℕ) (range : List RaftEntry)
    → entry_or (limit_size size max_size range) 0 ≡ entry_or range 0
unfolding limit_size
first_limited size max_size [] = refl
first_limited size max_size (e ∷ es) = refl

first_of_slice :
    (xs : List RaftEntry) (k n : ℕ) → 0 < n → entry_or (take n (drop k xs)) 0 ≡ entry_or xs k
first_of_slice xs k zero h = absurd (omega arith)
first_of_slice [] zero (suc n) h = refl
first_of_slice [] (suc k) (suc n) h = refl
first_of_slice (x ∷ xs) zero (suc n) h = refl
first_of_slice (x ∷ xs) (suc k) (suc n) h = first_of_slice xs k (suc n) h

-- Entries of a log, for a range behind the compacted index that is not empty and ends at most
-- behind the last entry, returns entries from the first index of the range on: at least one,
-- within the size unless it is one, and as many as fit or the whole range.
pub log_entries_lem :
    (size : RaftEntry → ℕ) (s : LogStorage) (lo hi max_size : ℕ)
    → IsLog s
    → compacted_index s < lo
    → lo < hi
    → hi ≤ compacted_index s + length s.ents
    → (es : List RaftEntry) × ((log_entries size s lo hi max_size ≡ entries_are es)
        × ((length (slice s.ents (lo - compacted_index s) (hi - compacted_index s)) ≡ hi - lo)
            × (((entry_or es 0).index ≡ lo)
                × IsLimited size max_size
                    (slice s.ents (lo - compacted_index s) (hi - compacted_index s))
                    es)))
unfolding log_entries
log_entries_lem size s lo hi max_size w l h b =
    let ci = compacted_index s in
    let range = slice s.ents (lo - ci) (hi - ci) in
    let next = next_index-eq s w in
    let long : length range ≡ hi - lo =
      length-take (hi - ci - (lo - ci)) (drop (lo - ci) s.ents)
      ∙ omega (arith, length-drop (lo - ci) s.ents) in
    let limited = limit_size-IsLimited size max_size range (omega (arith, long)) in
    (
      limit_size size max_size range,
      (
        simp (
          leb-false lo ci l,
          ltb-false (add64 (last_index s) 1) hi (omega (arith, next)),
          ltb-false hi lo (omega arith),
          not_zero (log_length s) (omega (arith, log_length-eq s w)),
        ),
        (
          long,
          (
            ap (λ e. e.index)
                  (first_limited size max_size range
                    ∙ first_of_slice s.ents (lo - ci) (hi - ci - (lo - ci)) (omega arith))
                ∙ Chain-index s.ents (lo - ci) w.chain (omega arith)
                ∙ omega arith,
            limited,
          ),
        ),
      ),
    )
