-- ===== src/Raft/Compact/Reads.antt =====
-- Compact changes nothing that is read from the compacted index on.
use vanus.Base.{
  Bool-cases, List, ap, arith, drop, drop-drop, if◌then◌else◌, inl, inr, le_of_not_ltb, leb-false,
  ltb, ltb-false, not_zero, slice, suc, sym, take, zero, ℕ, ◌+◌, ◌-◌, ◌<◌, ◌∙◌, ◌∷◌, ◌≡◌, ◌≤◌,
}
use vanus.Raft.Log.{
  EntriesAnswer, LogStorage, RaftEntry, add64, compacted_index, entries_are, entry_or, last_index,
  last_stable_index, limit_size, log_entries, log_length, log_term, no_entries, no_term, term_is,
  unavailable,
}
use vanus.Raft.Log.Chain.{IsLog, last_index-eq, log_length-eq, next_index-eq}
use vanus.Raft.Compact.Kept.{IsCompacted, after-IsCompacted, after_compact}
use vanus.Raft.Log.Append.{CompactTask}
use vanus.Raft.Compact.{compact_done, compact_dummy, compact_log, compacted_log, task_of}

drop-cons :
    (n : ℕ) (x : RaftEntry) (xs : List RaftEntry) → 0 < n → drop n (x ∷ xs) ≡ drop (n - 1) xs
drop-cons zero x xs h = absurd (omega arith)
drop-cons (suc n) x xs h = ap (λ k. drop k xs) (omega arith)

term_above :
    (s : LogStorage) (j : ℕ)
    → compacted_index s ≤ j
    → log_term s j ≡ (
        if ltb (last_index s) j
        then no_term unavailable
        else term_is (entry_or s.ents (j - compacted_index s)).term)
unfolding log_term
term_above s j h = simp (ltb-false j (compacted_index s) h)

entries_above :
    (size : RaftEntry → ℕ) (s : LogStorage) (lo hi max_size : ℕ)
    → IsLog s
    → compacted_index s < lo
    → lo < hi
    → log_entries size s lo hi max_size ≡ (
        if ltb (add64 (last_index s) 1) hi
        then no_entries unavailable
        else entries_are (
            limit_size size max_size
              (slice s.ents (lo - compacted_index s) (hi - compacted_index s))))
unfolding log_entries
entries_above size s lo hi max_size w l h =
    let next = add64 (last_index s) 1 in
    elim (Bool-cases (ltb next hi)) [
      | inl q ↦ simp (leb-false lo (compacted_index s) l, q)
      | inr q ↦ simp (
        leb-false lo (compacted_index s) l,
        q,
        not_zero (log_length s)
            (omega (arith, le_of_not_ltb next hi q, next_index-eq s w, log_length-eq s w)),
        ltb-false hi lo (omega arith),
      )
    ]

module _ (s after : LogStorage) (i : ℕ) (w : IsLog s) (c : IsCompacted s after i)
    (above : compacted_index s < i) where
  same_next : add64 (last_index after) 1 ≡ add64 (last_index s) 1
  same_next = next_index-eq after c.is_log ∙ c.last_is ∙ sym (next_index-eq s w)

  same_last : last_index after ≡ last_index s
  same_last = omega (arith, last_index-eq after c.is_log, last_index-eq s w, c.last_is)

  same_term : (j : ℕ) → i ≤ j → log_term after j ≡ log_term s j
  same_term j h =
      let t : (entry_or after.ents (j - compacted_index after)).term
          ≡ (entry_or s.ents (j - compacted_index s)).term =
        c.term_is (j - compacted_index after)
        ∙ ap (λ k. (entry_or s.ents k).term) {y = j - compacted_index s}
            (omega (arith, c.index_is)) in
      term_above after j (omega (arith, c.index_is))
      ∙ ap
          (λ l.
            if ltb l j
            then no_term unavailable
            else term_is (entry_or after.ents (j - compacted_index after)).term)
          same_last
      ∙ ap (λ t. if ltb (last_index s) j then no_term unavailable else term_is t) t
      ∙ sym (term_above s j (omega arith))

  same_slice :
      (lo hi : ℕ)
      → i < lo
      → slice after.ents (lo - compacted_index after) (hi - compacted_index after)
        ≡ slice s.ents (lo - compacted_index s) (hi - compacted_index s)
  same_slice lo hi h =
      let sz = i - compacted_index s in
      let k = lo - compacted_index after in
      let d : drop k after.ents ≡ drop (lo - compacted_index s) s.ents =
        ap (drop k) c.left
        ∙ drop-cons k (compact_dummy (entry_or s.ents sz)) (drop (sz + 1) s.ents)
            (omega (arith, c.index_is))
        ∙ drop-drop (sz + 1) (k - 1) s.ents
        ∙ ap (λ n. drop n s.ents) {y = lo - compacted_index s} (omega (arith, c.index_is)) in
      ap (take (hi - compacted_index after - k)) d
      ∙ ap (λ n. take n (drop (lo - compacted_index s) s.ents))
          {y = hi - compacted_index s - (lo - compacted_index s)} (omega (arith, c.index_is))

  same_entries :
      (size : RaftEntry → ℕ) (lo hi max_size : ℕ)
      → i < lo
      → lo < hi
      → log_entries size after lo hi max_size ≡ log_entries size s lo hi max_size
  same_entries size lo hi max_size l h =
      let read : List RaftEntry → EntriesAnswer = λ r. entries_are (limit_size size max_size r) in
      let old = slice s.ents (lo - compacted_index s) (hi - compacted_index s) in
      entries_above size after lo hi max_size c.is_log (omega (arith, c.index_is)) h
      ∙ ap (λ r. if ltb (add64 (last_index after) 1) hi then no_entries unavailable else read r)
          (same_slice lo hi l)
      ∙ ap (λ n. if ltb n hi then no_entries unavailable else read old) same_next
      ∙ sym (entries_above size s lo hi max_size w (omega arith) h)

-- Compact at an index behind the compacted one and up to the last stable one succeeds and leaves a
-- log with that compacted index, in which Term at any index from there on, and Entries for a range
-- that is not empty and begins behind it, answer as before, errors included.
pub compact-reads :
    (node : ℕ) (size : RaftEntry → ℕ) (s : LogStorage) (i j lo hi max_size : ℕ)
    → IsLog s
    → compacted_index s < i
    → i ≤ last_stable_index s
    → i ≤ j
    → i < lo
    → lo < hi
    → (after : LogStorage) × ((task : CompactTask) × ((compact_log node s i
            ≡ compact_done after task)
          × (IsLog after
              × ((compacted_index after ≡ i)
                  × ((log_term after j ≡ log_term s j)
                      × (log_entries size after lo hi max_size
                          ≡ log_entries size s lo hi max_size))))))
unfolding compact_log compacted_log
compact-reads node size s i j lo hi max_size w a b h l k =
    let sz = i - compacted_index s in
    let after = after_compact s sz in
    let c = after-IsCompacted s i w a b in
    (
      after,
      (
        task_of node s sz,
        (
          simp (leb-false i (compacted_index s) a, ltb-false (last_stable_index s) i b),
          (
            c.is_log,
            (
              c.index_is,
              (same_term s after i w c a j h, same_entries s after i w c a size lo hi max_size l k),
            ),
          ),
        ),
      ),
    )
