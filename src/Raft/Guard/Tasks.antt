-- ===== src/Raft/Guard/Tasks.antt =====
-- What the tasks do to a barrier.
use vanus.Base.{
  Bool, Bool-cases, List, ap, false, if◌then◌else◌, inl, inr, none, not_zero, refl, same_number,
  some, true, ℕ, ◌<◌, ◌==◌, ◌∙◌, ◌≡◌,
}
use vanus.Base.OffsetMap.{OffsetMap}
use vanus.Raft.Log.Append.{CompactTask}
use vanus.Raft.Barrier.{WalState, compact_task, move_to, node_known, node_live}

pub live_of :
    (nodes : List (ℕ × Bool)) (id : ℕ) → node_known nodes id ≡ some true → node_live nodes id ≡ true
live_of nodes id h = rw (h, node_live) refl

module _ (om : OffsetMap) where
  pub task-nodes : (t : CompactTask) (w : WalState om) → (compact_task om t w).nodes ≡ w.nodes
  unfolding compact_task
  task-nodes t w = elim (Bool-cases (node_live w.nodes t.node)) [
    | inl q ↦ rw (q, compact_task) refl
    | inr q ↦ rw (q, compact_task) refl
  ]

  task-barrier :
      (t : CompactTask) (w : WalState om)
      → node_live w.nodes t.node ≡ true
      → (compact_task om t w).barrier ≡ move_to om w.barrier t
  unfolding compact_task
  task-barrier t w q = rw (q, compact_task) refl

  -- A task sets its offset.
  move-set :
      (barrier : om.Elems) (t : CompactTask)
      → 0 < t.offset
      → om.get (move_to om barrier t) t.offset ≡ some t.node
  unfolding move_to
  move-set barrier t h =
      let left = if t.last == 0 then barrier else om.remove t.last barrier in
      rw (not_zero t.offset h, move_to)
        (om.get-set t.offset t.node t.offset left
          ∙ ap (λ b. if b then some t.node else om.get left t.offset) (same_number t.offset))

  left_other :
      (c : Bool) (barrier : om.Elems) (last k : ℕ)
      → (last == k) ≡ false
      → om.get (if c then barrier else om.remove last barrier) k ≡ om.get barrier k
  left_other true barrier last k h = refl
  left_other false barrier last k h =
      om.get-remove last k barrier ∙ ap (λ b. if b then none else om.get barrier k) h

  -- A task leaves other offsets alone.
  move-other :
      (barrier : om.Elems) (t : CompactTask) (k : ℕ)
      → (t.last == k) ≡ false
      → (t.offset == k) ≡ false
      → om.get (move_to om barrier t) k ≡ om.get barrier k
  unfolding move_to
  move-other barrier t k l o =
      let left = if t.last == 0 then barrier else om.remove t.last barrier in
      let below : om.get left k ≡ om.get barrier k = left_other (t.last == 0) barrier t.last k l in
      elim (Bool-cases (t.offset == 0)) [
        | inl q ↦ rw (q, move_to) below
        | inr q ↦
            rw (q, move_to)
              (om.get-set t.offset t.node k left
                ∙ ap (λ b. if b then some t.node else om.get left k) o
                ∙ below)
      ]

  -- A task of a node that is there leaves its offset with the node.
  pub task-set :
      (t : CompactTask) (w : WalState om)
      → node_known w.nodes t.node ≡ some true
      → 0 < t.offset
      → om.get (compact_task om t w).barrier t.offset ≡ some t.node
  task-set t w n h =
      ap (λ b. om.get b t.offset) (task-barrier t w (live_of w.nodes t.node n))
      ∙ move-set w.barrier t h

  pub task-other :
      (t : CompactTask) (w : WalState om) (k : ℕ)
      → (t.last == k) ≡ false
      → (t.offset == k) ≡ false
      → om.get (compact_task om t w).barrier k ≡ om.get w.barrier k
  unfolding compact_task
  task-other t w k l o = elim (Bool-cases (node_live w.nodes t.node)) [
    | inl q ↦ rw (q, compact_task) (move-other w.barrier t k l o)
    | inr q ↦ rw (q, compact_task) refl
  ]
