-- ===== src/Raft/Guard/Dropped.antt =====
-- Compact moves the barrier to the first entry that is left.
use mathlib.Core.Path.{subst}
use vanus.Base.{
  Bool-cases, ap, arith, drop, drop-drop, get_or, inl, inr, leb, length, length-drop, ltb, refl,
  sym, ℕ, ◌+◌, ◌-◌, ◌<◌, ◌∙◌, ◌≡◌,
}
use vanus.Base.OffsetMap.{OffsetMap}
use vanus.Raft.Log.{LogStorage, compacted, compacted_index, last_stable_index}
use vanus.Raft.Log.Chain.{last_stable_index-eq}
use vanus.Raft.Log.Append.{CompactTask}
use vanus.Raft.Compact.{
  compact_done, compact_log, compact_refused, compacted_log, remaining_offs, task_of,
}
use vanus.Raft.Compact.Kept.{after_compact, compact-IsLog, remaining_offs-first}
use vanus.Raft.Barrier.{WalState, compact_task, node_known}
use vanus.Raft.Guard.{IsGuarded, Rises}
use vanus.Raft.Guard.Offsets.{Rises-above, Rises-drop}
use vanus.Raft.Guard.Tasks.{task-nodes, task-set}

pub compact_done-form :
    (node : ℕ) (s after : LogStorage) (i : ℕ) (task : CompactTask)
    → compact_log node s i ≡ compact_done after task
    → (compacted_index s < i)
      × ((after_compact s (i - compacted_index s) ≡ after)
          × (task_of node s (i - compacted_index s) ≡ task))
unfolding compact_log compacted_log
compact_done-form node s after i task h = elim (Bool-cases (leb i (compacted_index s))) [
  | inl q ↦
      absurd
        (let r : compact_log node s i ≡ compact_refused compacted = rw (q, compact_log) refl in cc)
  | inr q ↦ elim (Bool-cases (ltb (last_stable_index s) i)) [
    | inl t ↦ absurd (
        let r : compact_log node s i ≡ compact_refused compacted =
          rw (q, compact_log) (rw (t, compact_log) refl) in
        cc)
    | inr t ↦
        (let r : compact_log node s i ≡ compacted_log node s (i - compacted_index s) =
            rw (q, compact_log) (rw (t, compact_log) refl) in
          let e : compact_done (after_compact s (i - compacted_index s))
                (task_of node s (i - compacted_index s))
              ≡ compact_done after task =
            sym r ∙ h in
          (ground arith, (cc, cc)))
  ]
]

module _ (om : OffsetMap) (node : ℕ) where
  compacted-IsGuarded :
      (s : LogStorage) (w : WalState om) (sz : ℕ)
      → IsGuarded om node s w
      → 0 < sz
      → sz + 1 < length s.offs
      → IsGuarded om node (after_compact s sz) (compact_task om (task_of node s sz) w)
  compacted-IsGuarded s w sz g p h =
      let rest = drop (sz + 1) s.offs in
      let task = task_of node s sz in
      let e = remaining_offs-first s sz g.is_log h in
      let up : Rises 0 rest =
        subst (Rises 0) (drop-drop 1 sz s.offs ∙ ap (λ k. drop k s.offs) (omega arith))
          (Rises-drop sz 0 (drop 1 s.offs) g.rises) in
      let l = length-drop (sz + 1) s.offs in
      let first = Rises-above 0 0 rest up (omega (arith, l, h)) in
      let o : task.offset ≡ get_or rest 0 0 = ap (λ x. get_or x 0 0) e in
      let second : get_or (remaining_offs s sz) 1 0 ≡ get_or rest 0 0 = ap (λ x. get_or x 1 0) e in
      let after = compact_task om task w in
      record {
        is_log = compact-IsLog s sz g.is_log p (omega arith);
        known = ap (λ n. node_known n node) (task-nodes om task w) ∙ g.known;
        rises = subst (λ x. Rises 0 (drop 1 x)) (sym e) up;
        guard = inr (
          o ∙ sym second,
          ap (om.get after.barrier) (second ∙ sym o)
              ∙ task-set om task w g.known (omega (arith, o, first)),
        );
      }

  pub dropped-IsGuarded :
      (s after : LogStorage) (w : WalState om) (i : ℕ) (task : CompactTask)
      → IsGuarded om node s w
      → i < last_stable_index s
      → compact_log node s i ≡ compact_done after task
      → IsGuarded om node after (compact_task om task w)
  dropped-IsGuarded s after w i task g h e =
      let f = compact_done-form node s after i task e in
      let sz = i - compacted_index s in
      let r =
        compacted-IsGuarded s w sz g (omega (arith, f.0))
          (omega (arith, f.0, h, last_stable_index-eq s g.is_log)) in
      subst (λ a. IsGuarded om node a (compact_task om task w)) f.1.0
        (subst (λ t. IsGuarded om node (after_compact s sz) (compact_task om t w)) f.1.1 r)
