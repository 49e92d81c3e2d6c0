-- ===== src/Raft/Barrier.antt =====
-- internal/store/raft/storage/compaction.go and wal.go: the goroutine that compacts the write-ahead
-- log. A barrier is the offset of the first entry that a node needs.
use vanus.Base.{
  Bool, List, Option, [], false, if◌then◌else◌, length, ltb, none, not, some, suc, true, zero, ℕ,
  ◌&&◌, ◌==◌, ◌||◌, ◌∷◌,
}
pub mod Safe
use vanus.Base.OffsetMap.{OffsetMap}
use vanus.Raft.Log.Append.{CompactTask}

-- The nodes by their ids; the compaction information is index and term of a node.
pub record CompactContext : Type 0 where
  pub tail : ℕ
  pub compacted : ℕ
  pub to_compact : ℕ
  pub infos : List (ℕ × (ℕ × ℕ))

unfoldable pub node_known : List (ℕ × Bool) → ℕ → Option Bool
node_known [] id = none
node_known ((k, b) ∷ rest) id = if k == id then some b else node_known rest id

-- `w.nodes[id]`: false for a node that is not there.
abbrev pub node_live : List (ℕ × Bool) → ℕ → Bool
node_live nodes id = elim (node_known nodes id) [ none ↦ false | some b ↦ b ]

unfoldable pub forget {ℓ} : {A : Type ℓ} → ℕ → List (ℕ × A) → List (ℕ × A)
forget id [] = []
forget id (x ∷ rest) = let others = forget id rest in if x.0 == id then others else x ∷ others

abbrev pub put {ℓ} : {A : Type ℓ} → ℕ → A → List (ℕ × A) → List (ℕ × A)
put id a l = (id, a) ∷ forget id l

module _ (om : OffsetMap) where
  pub record WalState : Type 0 where
    pub nodes : List (ℕ × Bool)
    pub barrier : om.Elems
    pub ctx : CompactContext

  unfoldable pub move_to : om.Elems → CompactTask → om.Elems
  move_to barrier t =
      let left = if t.last == 0 then barrier else om.remove t.last barrier in
      if t.offset == 0 then left else om.set t.offset t.node left

  unfoldable pub with_info : CompactTask → CompactContext → CompactContext
  with_info t ctx =
      let later = if ltb ctx.tail t.tail then record ctx { tail = t.tail } else ctx in
      if t.info_index == 0
      then later
      else record later { infos = put t.node (t.info_index, t.info_term) later.infos }

  -- `compactTask.compact`.
  unfoldable pub compact_task : CompactTask → WalState → WalState
  compact_task t w =
      if node_live w.nodes t.node
      then record w { barrier = move_to w.barrier t; ctx = with_info t w.ctx }
      else w

  -- `adminTask.addNode`, less what it stores.
  unfoldable pub add_node : ℕ → WalState → WalState
  add_node id w = record w { nodes = put id true w.nodes }

  -- `adminTask.removeNode`, and what it sends itself when the information is deleted.
  unfoldable pub remove_node : ℕ → WalState → WalState
  remove_node id w = record w {
    nodes = put id false w.nodes;
    ctx = record w.ctx { infos = forget id w.ctx.infos };
  }

  unfoldable pub clean_node : ℕ → WalState → WalState
  clean_node id w = record w { nodes = forget id w.nodes }

  unfoldable pub recover_node : ℕ → ℕ → WalState → WalState
  recover_node id offset w = record w {
    nodes = put id true w.nodes;
    barrier = if offset == 0 then w.barrier else om.set offset id w.barrier;
  }

  -- The loop of doCompact, with fuel for the barriers of nodes that are gone; `none` without.
  unfoldable pub next_offset : ℕ → WalState → Option WalState
  next_offset zero w = none
  next_offset (suc fuel) w = elim (om.front w.barrier) [
    | none ↦ some (record w { ctx = record w.ctx { to_compact = w.ctx.tail } })
    | some front ↦ elim (node_known w.nodes front.1) [
      | none ↦ next_offset fuel (record w { barrier = om.remove front.0 w.barrier })
      | some b ↦ some (record w { ctx = record w.ctx { to_compact = front.0 } })
    ]
  ]

  unfoldable pub is_stale : CompactContext → Bool
  is_stale ctx = ltb ctx.compacted ctx.to_compact || not (length ctx.infos == 0)

  -- The rest of doCompact; the offset is the one that the write-ahead log is compacted at. `synced`
  -- tells whether the information is stored.
  unfoldable pub sync_compact : Bool → WalState → WalState × Option ℕ
  sync_compact synced w =
      if is_stale w.ctx && synced
      then (
        record w { ctx = record w.ctx { compacted = w.ctx.to_compact; infos = [] } },
        some w.ctx.to_compact,
      )
      else (w, none)

  unfoldable pub do_compact : Bool → WalState → Option (WalState × Option ℕ)
  do_compact synced w = elim (next_offset (suc (om.len w.barrier)) w) [
    | none ↦ none
    | some after ↦ some (sync_compact synced after)
  ]
