-- ===== src/Raft/Guard/Store.antt =====
-- The first offsets of a log after postAppend stored new ones.
use mathlib.Core.Path.{subst}
use vanus.Base.{
  ==_iff, Bool, Bool-cases, List, [], ap, arith, get_or, if◌then◌else◌, inl, inr, length,
  length-take, refl, suc, sym, take, zero_or, ℕ, ◌++◌, ◌+◌, ◌-◌, ◌<◌, ◌==◌, ◌∙◌, ◌∷◌, ◌≡◌, ◌≤◌,
}
use vanus.Raft.Log.{
  LogStorage, RaftEntry, add64, entry_or, first_index, last_stable_index, truncated,
}
use vanus.Raft.Log.Chain.{IsLog, first_index-eq, last_stable_index-eq}
use vanus.Raft.Log.Append.{
  CompactTask, kept_of, move_barrier, offsets_fault, post_append, post_faults, post_refused, posted,
  remove_barrier, store_offsets,
}
use vanus.Raft.Guard.Offsets.{first_one, first_two_append, first_two_cut, only_one}
use vanus.Raft.Log.Append.Kept.{offsets_before-eq}

-- The log with the offsets of the entries up to one that is still there.
abbrev pub with_offsets : LogStorage → List RaftEntry → List ℕ → ℕ → ℕ → LogStorage
with_offsets s entries offsets tail end = record s {
  offs = store_offsets s (entry_or entries 0).index (take (suc end) offsets);
  tail = tail;
}

pub posted-form :
    (node : ℕ) (s after : LogStorage) (entries : List RaftEntry) (offsets : List ℕ) (tail : ℕ)
    (remark : Bool) (tasks : List CompactTask) (term index : ℕ)
    → post_append node s entries offsets tail remark ≡ posted after tasks term index
    → (end : ℕ) × (((move_barrier node remark (with_offsets s entries offsets tail end)).0 ≡ after)
        × ((move_barrier node remark (with_offsets s entries offsets tail end)).1 ≡ tasks))
unfolding post_append
posted-form node s after entries offsets tail remark tasks term index h =
    elim (zero_or (kept_of s entries (length entries))) [
      | inl z ↦ absurd (
          let back = if remark then remove_barrier node (get_or offsets 0 0) ∷ [] else [] in
          let r : post_refused truncated back ≡ posted after tasks term index =
            sym (rw (z, post_append) refl) ∙ h in
          cc)
      | inr found ↦
          (let moved = move_barrier node remark (with_offsets s entries offsets tail found.0) in
            let e = entry_or entries found.0 in
            let index' = (entry_or entries 0).index in
            elim (Bool-cases (offsets_fault s index')) [
              | inl f ↦ absurd (
                  let q : post_faults ≡ posted after tasks term index =
                    sym (rw (found.1, post_append, f) refl) ∙ h in
                  cc)
              | inr f ↦
                  (let q : posted moved.0 moved.1 e.term e.index ≡ posted after tasks term index =
                      sym (rw (found.1, post_append, f) refl) ∙ h in
                    (found.0, (cc, cc)))
            ])
    ]

-- For the first entry of the log only the dummy's offset stays before the new ones.
pub store_first :
    (s : LogStorage) (offsets : List ℕ)
    → IsLog s
    → store_offsets s (first_index s) offsets ≡ get_or s.offs 0 0 ∷ offsets
unfolding store_offsets
store_first s offsets w =
    let i = first_index s in
    let next = add64 (last_stable_index s) 1 in
    elim (Bool-cases (i == next)) [
      | inl q ↦
          rw (q, store_offsets)
            (ap (λ t. t ++ offsets)
              (only_one s.offs (
                omega (
                  arith,
                  (==_iff i next).0 q,
                  first_index-eq s w,
                  last_stable_index-eq s w,
                  w.stable,
                  w.fits,
                  w.has_offset,
                ))))
      | inr q ↦
          rw (q, store_offsets)
            (ap (λ t. t ++ offsets)
              (ap (λ n. take n s.offs) {y = 1} (omega arith) ∙ first_one s.offs w.has_offset))
    ]

pub first_of_append :
    (offs more : List ℕ) → 0 < length offs → get_or (offs ++ more) 0 0 ≡ get_or offs 0 0
first_of_append [] more h = absurd (omega arith)
first_of_append (o ∷ os) more h = refl

pub first_of_take :
    (n : ℕ) (offs more : List ℕ)
    → 0 < length offs
    → get_or (take (n + 1) offs ++ more) 0 0 ≡ get_or offs 0 0
first_of_take n [] more h = absurd (omega arith)
first_of_take n (o ∷ os) more h =
    let e : n + 1 ≡ suc n = omega arith in ap (λ k. get_or (take k (o ∷ os) ++ more) 0 0) e

pub first_two_behind :
    (s : LogStorage) (index : ℕ) (offsets : List ℕ)
    → IsLog s
    → first_index s < index
    → index ≤ last_stable_index s + 1
    → 1 < length s.offs
    → (get_or (store_offsets s index offsets) 0 0 ≡ get_or s.offs 0 0)
      × (get_or (store_offsets s index offsets) 1 0 ≡ get_or s.offs 1 0)
unfolding store_offsets
first_two_behind s index offsets w a b h =
    let next = add64 (last_stable_index s) 1 in
    let i = index - first_index s + 1 in
    elim (Bool-cases (index == next)) [
      | inl q ↦ rw (q, store_offsets) (first_two_append s.offs offsets h)
      | inr q ↦
          (let m = index - first_index s - 1 in
            let e : i ≡ suc (suc m) = omega arith in
            let same = first_two_cut m s.offs in
            let two =
              first_two_append (take (suc (suc m)) s.offs) offsets
                (omega (arith, length-take (suc (suc m)) s.offs)) in
            rw (q, store_offsets, offsets_before-eq s index w (omega (arith, first_index-eq s w)) b)
              (subst
                (λ n.
                  (get_or (take n s.offs ++ offsets) 0 0 ≡ get_or s.offs 0 0)
                  × (get_or (take n s.offs ++ offsets) 1 0 ≡ get_or s.offs 1 0))
                (sym e) (two.0 ∙ same.0, two.1 ∙ same.1)))
    ]
