-- ===== src/Raft/Guard/Noted.antt =====
-- A barrier is set before, and the old one removed after, the first entry's offset is written down.
use mathlib.Core.Path.{subst}
use vanus.Base.{
  ==_iff, ==_lt, Bool, Bool-cases, List, [], ap, arith, different, drop, false, get_or,
  if◌then◌else◌, inl, inr, length, refl, set, some, suc, sym, take, true, ℕ, ◌+◌, ◌-◌, ◌<◌, ◌==◌,
  ◌∙◌, ◌∷◌, ◌≡◌, ◌≤◌, ◌⊎◌,
}
use vanus.Raft.Log.{
  LogStorage, RaftEntry, add64, compacted_index, entry_or, first_index, last_stable_index,
}
use vanus.Raft.Log.Chain.{Chain, IsLog, first_index-eq}
use vanus.Raft.Log.Append.{
  CompactTask, move_barrier, post_append, posted, remove_barrier, store_offsets,
}
use vanus.Base.OffsetMap.{OffsetMap}
use vanus.Raft.Barrier.{WalState, compact_task, node_known}
use vanus.Raft.Guard.{HasBarrier, IsGuarded, Marked, Rises, run_tasks}
use vanus.Raft.Guard.Store.{
  first_of_append, first_of_take, first_two_behind, posted-form, store_first, with_offsets,
}
use vanus.Raft.Guard.Marks.{own-Marked}
use vanus.Raft.Guard.Tasks.{task-nodes, task-other}
use vanus.Raft.Log.Append.AfterWrite.{PostedOk, post_append_lem}
use vanus.Raft.Log.Append.Kept.{offsets_before-eq}

some_entry : (es : List RaftEntry) (c : ℕ) → c < (entry_or es 0).index → 0 < length es
some_entry [] c h = absurd (omega arith)
some_entry (e ∷ es) c h = omega arith

module _ (om : OffsetMap) (node : ℕ) where
  run_tasks-nodes : (ts : List CompactTask) (w : WalState om) → (run_tasks om ts w).nodes ≡ w.nodes
  unfolding run_tasks
  run_tasks-nodes [] w = refl
  run_tasks-nodes (t ∷ ts) w = run_tasks-nodes ts (compact_task om t w) ∙ task-nodes om t w

  -- The removal of the old barrier leaves the new one.
  removed_old :
      (h o : ℕ) (w : WalState om)
      → (h == o) ≡ false
      → 0 < o
      → om.get (run_tasks om (if h == 0 then [] else remove_barrier node h ∷ []) w).barrier o
        ≡ om.get w.barrier o
  unfolding run_tasks
  removed_old h o w d p = elim (Bool-cases (h == 0)) [
    | inl q ↦ rw q refl
    | inr q ↦ rw q (task-other om (remove_barrier node h) w o d (==_lt 0 o p))
  ]

  first_barrier :
      (h : ℕ) (o : ℕ) (rest : List ℕ) (s : LogStorage) (w : WalState om)
      → om.get w.barrier o ≡ some node
      → s.offs ≡ h ∷ o ∷ rest
      → (h == o) ≡ false
      → 0 < o
      → HasBarrier om node
          (run_tasks om (move_barrier node true s).1 w).barrier
          (move_barrier node true s).0.offs
  unfolding move_barrier
  first_barrier h o rest s w k e d p =
      subst
        (λ x.
          HasBarrier om node
            (run_tasks om
              (if get_or x 0 0 == 0 then [] else remove_barrier node (get_or x 0 0) ∷ []) w).barrier
            (set x 0 (get_or x 1 0)))
        (sym e) (refl, removed_old h o w d p ∙ k)

  same_first :
      (s : LogStorage) (entries : List RaftEntry) (offsets : List ℕ) (tail end : ℕ)
      → IsLog s
      → compacted_index s < (entry_or entries 0).index
      → (entry_or entries 0).index ≤ last_stable_index s + 1
      → get_or (with_offsets s entries offsets tail end).offs 0 0 ≡ get_or s.offs 0 0
  unfolding store_offsets
  same_first s entries offsets tail end w a l =
      let index = (entry_or entries 0).index in
      let some = take (suc end) offsets in
      elim (Bool-cases (index == add64 (last_stable_index s) 1)) [
        | inl q ↦ rw (q, store_offsets) (first_of_append s.offs some w.has_offset)
        | inr q ↦
            rw (q, store_offsets, offsets_before-eq s index w a l)
              (first_of_take (index - first_index s) s.offs some w.has_offset)
      ]

  moved-Marked :
      (remark : Bool) (s : LogStorage) (w : WalState om) (marks : List ℕ)
      → node_known w.nodes node ≡ some true
      → (remark ≡ true → Rises (get_or s.offs 0 0) marks)
      → Marked om node w marks
      → Marked om node (run_tasks om (move_barrier node remark s).1 w) marks
  unfolding move_barrier run_tasks
  moved-Marked false s w marks k r v = v
  moved-Marked true s w marks k r v = elim (Bool-cases (get_or s.offs 0 0 == 0)) [
    | inl q ↦ rw q v
    | inr q ↦
        rw q
          (own-Marked om node (remove_barrier node (get_or s.offs 0 0)) w marks refl k (r refl) v)
  ]

  noted-guard :
      (s after : LogStorage) (w : WalState om) (entries : List RaftEntry) (offsets : List ℕ)
      (tail end : ℕ) (remark : Bool)
      → IsGuarded om node s w
      → length offsets ≡ length entries
      → 0 < length entries
      → compacted_index s < (entry_or entries 0).index
      → (entry_or entries 0).index ≤ last_stable_index s + 1
      → remark ≡ ((entry_or entries 0).index == first_index s)
      → (remark ≡ true) ⊎ (1 < length s.offs)
      → (remark ≡ true
          → ((get_or s.offs 0 0 == get_or offsets 0 0) ≡ false)
            × (om.get w.barrier (get_or offsets 0 0) ≡ some node))
      → let moved = move_barrier node remark (with_offsets s entries offsets tail end) in
        Rises 0 (drop 1 moved.0.offs)
        → HasBarrier om node (run_tasks om moved.1 w).barrier moved.0.offs
  unfolding run_tasks move_barrier Rises
  noted-guard s after w entries [] tail end remark g n p a l m c d r = absurd (omega arith)
  noted-guard s after w entries (o ∷ os) tail end true g n p a l m c d r =
      let index = (entry_or entries 0).index in
      let more = o ∷ take end os in
      let h = get_or s.offs 0 0 in
      let i : index ≡ first_index s = (==_iff index (first_index s)).0 (sym m) in
      let e : store_offsets s index more ≡ h ∷ more =
        ap (λ i. store_offsets s i more) i ∙ store_first s more g.is_log in
      let up = subst (λ x. Rises 0 (drop 1 (set x 0 (get_or x 1 0)))) e r in
      first_barrier h o (take end os) (with_offsets s entries (o ∷ os) tail end) w (d refl).1 e
        (d refl).0 up.0
  noted-guard s after w entries (o ∷ os) tail end false g n p a l m c d r =
      let index = (entry_or entries 0).index in
      let other = different index (first_index s) (sym m) in
      let long : 1 < length s.offs = elim c [ inl t ↦ absurd (cc) | inr long ↦ long ] in
      let b : HasBarrier om node w.barrier s.offs = elim g.guard [
        | inl few ↦ absurd (omega arith)
        | inr b ↦ b
      ] in
      let two =
        first_two_behind s index (o ∷ take end os) g.is_log
          (omega (arith, other, first_index-eq s g.is_log)) l long in
      (two.0 ∙ b.0 ∙ sym two.1, ap (om.get w.barrier) two.1 ∙ b.1)

  -- What postAppend sends away removes at most the old barrier, with a new one.
  pub noted-Marked :
      (s after : LogStorage) (w : WalState om) (marks : List ℕ) (entries : List RaftEntry)
      (offsets : List ℕ) (tail : ℕ) (remark : Bool) (tasks : List CompactTask) (term index : ℕ)
      → node_known w.nodes node ≡ some true
      → IsLog s
      → compacted_index s < (entry_or entries 0).index
      → (entry_or entries 0).index ≤ last_stable_index s + 1
      → remark ≡ ((entry_or entries 0).index == first_index s)
      → post_append node s entries offsets tail remark ≡ posted after tasks term index
      → Rises (get_or s.offs 0 0) marks
      → Marked om node w marks
      → Marked om node (run_tasks om tasks w) marks
  noted-Marked s after w marks entries offsets tail remark tasks term index k g a l m h r v =
      let form = posted-form node s after entries offsets tail remark tasks term index h in
      let s' = with_offsets s entries offsets tail form.0 in
      subst (λ t. Marked om node (run_tasks om t w) marks) form.1.1
        (moved-Marked remark s' w marks k
          (λ e. subst (λ n. Rises n marks) (sym (same_first s entries offsets tail form.0 g a l)) r)
          v)

  pub noted-IsGuarded :
      (s after : LogStorage) (w : WalState om) (entries : List RaftEntry) (offsets : List ℕ)
      (tail : ℕ) (remark : Bool) (tasks : List CompactTask) (term index : ℕ)
      → IsGuarded om node s w
      → Chain entries
      → length offsets ≡ length entries
      → compacted_index s < (entry_or entries 0).index
      → (entry_or entries 0).index ≤ last_stable_index s + 1
      → remark ≡ ((entry_or entries 0).index == first_index s)
      → (remark ≡ true) ⊎ (1 < length s.offs)
      → post_append node s entries offsets tail remark ≡ posted after tasks term index
      → (remark ≡ true
          → ((get_or s.offs 0 0 == get_or offsets 0 0) ≡ false)
            × (om.get w.barrier (get_or offsets 0 0) ≡ some node))
      → Rises 0 (drop 1 after.offs)
      → IsGuarded om node after (run_tasks om tasks w)
  noted-IsGuarded s after w entries offsets tail remark tasks term index g c n a l m f h d r =
      let form = posted-form node s after entries offsets tail remark tasks term index h in
      let ok =
        subst (PostedOk s entries) h
          (post_append_lem node s entries offsets tail remark g.is_log c n a l) in
      let moved = move_barrier node remark (with_offsets s entries offsets tail form.0) in
      let b =
        noted-guard s after w entries offsets tail form.0 remark g n
          (some_entry entries (compacted_index s) a) a l m f d
          (subst (λ x. Rises 0 (drop 1 x.offs)) (sym form.1.0) r) in
      record {
        is_log = ok.0;
        known = ap (λ x. node_known x node) (run_tasks-nodes tasks w) ∙ g.known;
        rises = r;
        guard = inr (
            subst (λ t. HasBarrier om node (run_tasks om t w).barrier after.offs) form.1.1
              (subst (λ x. HasBarrier om node (run_tasks om moved.1 w).barrier x.offs) form.1.0 b));
      }
