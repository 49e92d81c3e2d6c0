-- ===== src/Raft/Guard/Marks.antt =====
-- The barriers of writes that are not noted yet stay.
use vanus.Base.{
  ==_iff, Bool, Bool-cases, List, Option, [], ap, arith, false, inl, inr, some, sym, true, ℕ, ◌++◌,
  ◌<◌, ◌==◌, ◌∙◌, ◌∷◌, ◌≡◌, ◌≤◌,
}
use vanus.Base.OffsetMap.{OffsetMap}
use vanus.Raft.Log.Append.{CompactTask}
use vanus.Raft.Barrier.{WalState, compact_task, do_compact, node_known}
use vanus.Raft.Barrier.Safe.{do_compact-Guards}
use vanus.Raft.Guard.{Apart, Marked, Rises}
use vanus.Raft.Guard.Tasks.{task-other, task-set}

pub above_not : (b o : ℕ) → b < o → (b == o) ≡ false
above_not b o h = ground arith

pub Rises-weaken : (a b : ℕ) (os : List ℕ) → a ≤ b → Rises b os → Rises a os
unfolding Rises
Rises-weaken a b [] h r = tt
Rises-weaken a b (o ∷ os) h r = (omega (arith, r.0), r.1)

module _ (om : OffsetMap) (node : ℕ) where
  -- A task of the node itself keeps a barrier that it does not remove.
  own_task :
      (t : CompactTask) (w : WalState om) (k : ℕ)
      → t.node ≡ node
      → node_known w.nodes node ≡ some true
      → 0 < k
      → (t.last == k) ≡ false
      → om.get w.barrier k ≡ some node
      → om.get (compact_task om t w).barrier k ≡ some node
  own_task t w k own known p l g = elim (Bool-cases (t.offset == k)) [
    | inl q ↦
        (let e : t.offset ≡ k = (==_iff t.offset k).0 q in
          ap (om.get (compact_task om t w).barrier) (sym e)
          ∙ task-set om t w (ap (node_known w.nodes) own ∙ known) (omega (arith, e, p))
          ∙ ap some own)
    | inr q ↦ task-other om t w k l q ∙ g
  ]

  -- It removes at most an offset below all that are marked.
  pub own-Marked :
      (t : CompactTask) (w : WalState om) (marks : List ℕ)
      → t.node ≡ node
      → node_known w.nodes node ≡ some true
      → Rises t.last marks
      → Marked om node w marks
      → Marked om node (compact_task om t w) marks
  unfolding Rises
  own-Marked t w [] own known r m = tt
  own-Marked t w (o ∷ os) own known r m = (
    (m.0.0, own_task t w o own known m.0.0 (above_not t.last o r.0) m.0.1),
    own-Marked t w os own known (Rises-weaken t.last o os (omega (arith, r.0)) r.1) m.1,
  )

  pub other-Marked :
      (t : CompactTask) (w : WalState om) (marks : List ℕ)
      → Apart om t marks
      → Marked om node w marks
      → Marked om node (compact_task om t w) marks
  other-Marked t w [] a m = tt
  other-Marked t w (o ∷ os) a m =
      ((m.0.0, task-other om t w o a.0.0 a.0.1 ∙ m.0.1), other-Marked t w os a.1 m.1)

  pub cut-Marked :
      (w after : WalState om) (synced : Bool) (at : Option ℕ) (marks : List ℕ)
      → node_known w.nodes node ≡ some true
      → do_compact om synced w ≡ some (after, at)
      → Marked om node w marks
      → Marked om node after marks
  cut-Marked w after synced at [] known h m = tt
  cut-Marked w after synced at (o ∷ os) known h m =
      let r =
        do_compact-Guards om synced w o node
          (record { placed = m.0.1; live = true; known = known }) in
      let e : ◌≡◌ {A = Option (WalState om × Option ℕ)} (some (r.0, r.1.0)) (some (after, at)) =
        sym r.1.1.0 ∙ h in
      let same : r.0 ≡ after = cc in
      (
        (m.0.0, ap (λ v. om.get v.barrier o) (sym same) ∙ r.1.1.1.0.placed),
        cut-Marked w after synced at os known h m.1,
      )

  pub Marked-last :
      (w : WalState om) (marks : List ℕ) (o : ℕ)
      → Marked om node w marks
      → 0 < o
      → om.get w.barrier o ≡ some node
      → Marked om node w (marks ++ o ∷ [])
  Marked-last w [] o m p g = ((p, g), tt)
  Marked-last w (k ∷ ks) o m p g = (m.0, Marked-last w ks o m.1 p g)

  -- A task that removes nothing.
  pub mark-Marked :
      (t : CompactTask) (w : WalState om) (marks : List ℕ)
      → t.node ≡ node
      → node_known w.nodes node ≡ some true
      → t.last ≡ 0
      → Marked om node w marks
      → Marked om node (compact_task om t w) marks
  mark-Marked t w [] own known z m = tt
  mark-Marked t w (o ∷ os) own known z m = (
    (m.0.0, own_task t w o own known m.0.0 (above_not t.last o (omega (arith, z, m.0.0))) m.0.1),
    mark-Marked t w os own known z m.1,
  )
