-- ===== src/Raft/Guard.antt =====
-- A node's storage and the goroutine that compacts the write-ahead log, step by step.
pub mod Offsets
pub mod Tasks
pub mod Steps
pub mod Dropped
pub mod Store
pub mod Noted
pub mod Marks
pub mod Safety
use vanus.Base.{
  Bool, List, Option, [], drop, false, get_or, length, some, true, ℕ, ◌++◌, ◌+◌, ◌<◌, ◌==◌, ◌∷◌,
  ◌≡◌, ◌≤◌, ◌⊎◌,
}
use vanus.Base.OffsetMap.{OffsetMap}
use vanus.Raft.Log.{
  LogError, LogStorage, RaftEntry, compacted_index, entry_or, first_index, last_stable_index,
  new_log,
}
use vanus.Raft.Log.Chain.{Chain, IsLog}
use vanus.Raft.Log.Append.{
  CompactTask, EntryCodec, append_entries, on_written, post_append, post_refused, posted, written,
}
use vanus.Raft.Compact.{compact_done, compact_log}
use vanus.Raft.Barrier.{WalState, compact_task, do_compact, node_known, recover_node}
use vanus.Raft.Recovery.{recovered_barrier}

-- Offsets that go up, above a first one.
unfoldable pub Rises : ℕ → List ℕ → Type 0
Rises b [] = Unit
Rises b (x ∷ xs) = (b < x) × Rises x xs

module _ (om : OffsetMap) where
  unfoldable pub run_tasks : List CompactTask → WalState om → WalState om
  run_tasks [] w = w
  run_tasks (t ∷ ts) w = run_tasks ts (compact_task om t w)

  -- The barriers that are set for writes of the node of which the offsets are not noted yet.
  abbrev pub Marked : ℕ → WalState om → List ℕ → Type 0
  Marked node w [] = Unit
  Marked node w (o ∷ os) = ((0 < o) × (om.get w.barrier o ≡ some node)) × Marked node w os

  abbrev pub Apart : CompactTask → List ℕ → Type 0
  Apart t [] = Unit
  Apart t (o ∷ os) = (((t.last == o) ≡ false) × ((t.offset == o) ≡ false)) × Apart t os

  abbrev pub first_mark : Bool → ℕ → List ℕ → List ℕ
  first_mark true o os = o ∷ os
  first_mark false o os = os

  -- What happens to the storage of `node` and to the goroutine, from a new or a recovered storage on,
  -- with the marked barriers of writes that are not noted. Offsets of the write-ahead log are positive
  -- and go up. A write is noted by postAppend some time after its callback, in the order of writes.
  module _ (codec : EntryCodec) (node : ℕ) where
    pub data Run : LogStorage → WalState om → List ℕ → Type 0 where
      fresh : (w : WalState om) → node_known w.nodes node ≡ some true → Run new_log w []
      restarted :
          (s : LogStorage) (w : WalState om)
          → IsLog s
          → length s.offs ≡ length s.ents
          → Rises 0 (drop 1 s.offs)
          → Run (recovered_barrier s).0 (recover_node om node (recovered_barrier s).1 w) []
      stored :
          (s after : LogStorage) (w : WalState om) (marks : List ℕ) (entries kept : List RaftEntry)
          (bytes : List (List ℕ)) (remark : Bool)
          → Run s w marks
          → (entry_or entries 0).index + length entries < 18446744073709551616
          → append_entries codec node s entries ≡ written after kept bytes remark
          → Run after w marks
      -- The callback of a write with a new barrier.
      barrier_set :
          (s : LogStorage) (w : WalState om) (marks : List ℕ) (offsets : List ℕ)
          → Run s w marks
          → 0 < get_or offsets 0 0
          → (get_or offsets 0 0 == get_or s.offs 1 0) ≡ false
          → Run s (run_tasks (on_written node true offsets) w) (marks ++ get_or offsets 0 0 ∷ [])
      noted :
          (s after : LogStorage) (w : WalState om) (marks : List ℕ) (entries : List RaftEntry)
          (offsets : List ℕ) (tail : ℕ) (remark : Bool) (tasks : List CompactTask) (term index : ℕ)
          → Run s w (first_mark remark (get_or offsets 0 0) marks)
          → Chain entries
          → length offsets ≡ length entries
          → compacted_index s < (entry_or entries 0).index
          → (entry_or entries 0).index ≤ last_stable_index s + 1
          → remark ≡ ((entry_or entries 0).index == first_index s)
          → (remark ≡ true) ⊎ (1 < length s.offs)
          → post_append node s entries offsets tail remark ≡ posted after tasks term index
          → Rises (get_or s.offs 0 0) (first_mark remark (get_or offsets 0 0) marks)
          → Rises 0 (drop 1 after.offs)
          → Run after (run_tasks tasks w) marks
      -- Every entry of the write was truncated before it was noted.
      note_refused :
          (s : LogStorage) (w : WalState om) (marks : List ℕ) (entries : List RaftEntry)
          (offsets : List ℕ) (tail : ℕ) (remark : Bool) (tasks : List CompactTask) (x : LogError)
          → Run s w (first_mark remark (get_or offsets 0 0) marks)
          → post_append node s entries offsets tail remark ≡ post_refused x tasks
          → (get_or offsets 0 0 == get_or s.offs 1 0) ≡ false
          → Rises (get_or offsets 0 0) marks
          → Run s (run_tasks tasks w) marks
      dropped :
          (s after : LogStorage) (w : WalState om) (marks : List ℕ) (i : ℕ) (task : CompactTask)
          → Run s w marks
          → i < last_stable_index s
          → compact_log node s i ≡ compact_done after task
          → Rises (get_or s.offs 0 0) marks
          → Run after (compact_task om task w) marks
      wal_compacted :
          (s : LogStorage) (w after : WalState om) (marks : List ℕ) (synced : Bool) (at : Option ℕ)
          → Run s w marks
          → do_compact om synced w ≡ some (after, at)
          → Run s after marks
      other_task :
          (s : LogStorage) (w : WalState om) (marks : List ℕ) (t : CompactTask)
          → Run s w marks
          → (t.last == get_or s.offs 1 0) ≡ false
          → (t.offset == get_or s.offs 1 0) ≡ false
          → Apart t marks
          → Run s (compact_task om t w) marks

  abbrev pub HasBarrier : ℕ → om.Elems → List ℕ → Type 0
  HasBarrier node barrier offs =
      (get_or offs 0 0 ≡ get_or offs 1 0) × (om.get barrier (get_or offs 1 0) ≡ some node)

  -- The barrier of the node is its first stable entry, if there is one.
  pub record IsGuarded (node : ℕ) (s : LogStorage) (w : WalState om) : Type 0 where
    pub is_log : IsLog s
    pub known : node_known w.nodes node ≡ some true
    pub rises : Rises 0 (drop 1 s.offs)
    pub guard : (length s.offs ≤ 1) ⊎ HasBarrier node w.barrier s.offs
