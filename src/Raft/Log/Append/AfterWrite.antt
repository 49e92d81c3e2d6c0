-- ===== src/Raft/Log/Append/AfterWrite.antt =====
-- The log after the write-ahead log has the entries.
use mathlib.Core.Path.{subst}
use vanus.Raft.Log.Append.Kept.{
  InLog, NoneAbove, kept_of-InLog, kept_of-last, kept_of-none, no_fault, store_offsets-length,
}
use vanus.Base.{
  Bool, List, ap, arith, false, get_or, inl, inr, length, length-set, length-take, refl, suc, sym,
  take, true, zero_or, ℕ, ◌+◌, ◌<◌, ◌≡◌, ◌≤◌,
}
use vanus.Raft.Log.{LogStorage, RaftEntry, compacted_index, entry_or, last_stable_index, truncated}
use vanus.Raft.Log.Chain.{Chain, Chain-index, IsLog, last_index-eq, last_stable_index-eq}
use vanus.Raft.Log.Append.{
  Posted, kept_of, move_barrier, post_append, post_faults, post_refused, posted, store_offsets,
}

pub offs-IsLog :
    (s after : LogStorage)
    → IsLog s
    → after.ents ≡ s.ents
    → 0 < length after.offs
    → length after.offs ≤ length s.ents
    → IsLog after
offs-IsLog s after w e o l = record {
  has_dummy = omega (arith, ap length e, w.has_dummy);
  has_offset = o;
  chain = subst Chain (sym e) w.chain;
  stable = omega (arith, ap length e, l);
  fits = omega (arith, ap length e, ap (λ t. (entry_or t 0).index) e, w.fits);
}

move_barrier-same :
    (node : ℕ) (remark : Bool) (s : LogStorage)
    → ((move_barrier node remark s).0.ents ≡ s.ents)
      × (length (move_barrier node remark s).0.offs ≡ length s.offs)
unfolding move_barrier
move_barrier-same node false s = (refl, refl)
move_barrier-same node true s = (refl, length-set s.offs 0 (get_or s.offs 1 0))

-- The entry with the term and the index: the last of the entries that the log has.
abbrev IsReported : LogStorage → List RaftEntry → ℕ → ℕ → Type 0
IsReported s entries term index =
    (end : ℕ) × ((end < length entries)
      × (((entry_or entries end).term ≡ term)
          × (((entry_or entries end).index ≡ index)
              × (InLog s (entry_or entries end) × NoneAbove s entries (suc end) (length entries)))))

-- What postAppend leaves: the same entries and a log, up to the entry that it reports, or nothing
-- else than the message that all entries were truncated.
abbrev pub PostedOk : LogStorage → List RaftEntry → Posted → Type 0
PostedOk s entries (post_refused x tasks) = (x ≡ truncated) × NoneAbove s entries 0 (length entries)
PostedOk s entries post_faults = ⊥
PostedOk s entries (posted after tasks term index) =
    IsLog after
    × ((after.ents ≡ s.ents)
        × ((index ≡ last_stable_index after) × IsReported s entries term index))

-- When the write-ahead log has written a row of entries that begins behind the compacted index and
-- not behind the one after the last stable entry, postAppend does not fault and keeps the log and
-- its entries; it reports the index and the term of the last of these entries that the log has, by
-- index and term, and that entry is then the last stable one. It fails only with ErrTruncated, if
-- the log has none of them.
pub post_append_lem :
    (node : ℕ) (s : LogStorage) (entries : List RaftEntry) (offsets : List ℕ) (tail : ℕ)
    (remark : Bool)
    → IsLog s
    → Chain entries
    → length offsets ≡ length entries
    → compacted_index s < (entry_or entries 0).index
    → (entry_or entries 0).index ≤ last_stable_index s + 1
    → PostedOk s entries (post_append node s entries offsets tail remark)
unfolding post_append
post_append_lem node s entries offsets tail remark w c n a b =
    elim (zero_or (kept_of s entries (length entries))) [
      | inl z ↦
          rw (z, post_append)
            (
              refl,
              subst (λ k. NoneAbove s entries k (length entries)) z
                  (kept_of-none s entries (length entries)),
            )
      | inr found ↦
          (let end = found.0 in
            let index = (entry_or entries 0).index in
            let last = kept_of-last s entries (length entries) end found.1 in
            let at = Chain-index entries end c last.0 in
            let l = length-take (suc end) offsets in
            let offs = store_offsets s index (take (suc end) offsets) in
            let long = store_offsets-length s index (take (suc end) offsets) w a b in
            let s' : LogStorage = record s { offs = offs; tail = tail } in
            let same = move_barrier-same node remark s' in
            let after = (move_barrier node remark s').0 in
            let log =
              offs-IsLog s after w same.0 (omega (arith, same.1, long, l, n, last.0))
                (omega (arith, same.1, long, l, n, last.0, last.1, at, last_index-eq s w, a)) in
            let head = ap (λ t. (entry_or t 0).index) same.0 in
            rw (found.1, post_append, no_fault s index w a b)
              (
                log,
                (
                  same.0,
                  (
                    omega (
                      arith,
                      at,
                      last_stable_index-eq after log,
                      same.1,
                      long,
                      l,
                      n,
                      last.0,
                      head,
                      a,
                    ),
                    (
                      end,
                      (
                        last.0,
                        (
                          refl,
                          (
                            refl,
                            (
                              kept_of-InLog s entries (length entries) end found.1,
                              subst (λ k. NoneAbove s entries k (length entries)) found.1
                                  (kept_of-none s entries (length entries)),
                            ),
                          ),
                        ),
                      ),
                    ),
                  ),
                ),
              ))
    ]
