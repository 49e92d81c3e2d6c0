-- ===== src/Raft/Compact.antt =====
-- internal/store/raft/storage/compaction.go: Compact, which drops the entries up to an index.
pub mod Kept
pub mod Reads
use vanus.Base.{List, [], drop, get_or, if◌then◌else◌, leb, ltb, ℕ, ◌+◌, ◌-◌, ◌==◌, ◌∷◌}
use vanus.Raft.Log.{
  LogError, LogStorage, RaftEntry, compacted, compacted_index, entry_or, last_stable_index,
  log_length, stable_length, sub64, zero_entry,
}
use vanus.Raft.Log.Append.{CompactTask}

-- With the task for the goroutine of the write-ahead log.
pub data Compacting : Type 0 where
  compact_refused : LogError → Compacting
  compact_done : LogStorage → CompactTask → Compacting

-- The dummy entry of the compacted log.
abbrev pub compact_dummy : RaftEntry → RaftEntry
compact_dummy e = record zero_entry { index = e.index; term = e.term }

unfoldable pub remaining_ents : LogStorage → ℕ → List RaftEntry
remaining_ents s sz = if sub64 (log_length s) sz == 0 then [] else drop (sz + 1) s.ents

unfoldable pub remaining_offs : LogStorage → ℕ → List ℕ
remaining_offs s sz =
    let rest = drop (sz + 1) s.offs in
    if sub64 (log_length s) sz == 0
    then 0 ∷ []
    else if sub64 (stable_length s) sz == 0
    then 0 ∷ []
    else get_or rest 0 0 ∷ rest

-- What the goroutine is told of a node.
abbrev pub task_of : ℕ → LogStorage → ℕ → CompactTask
task_of node s sz = record {
  node = node;
  offset = get_or (remaining_offs s sz) 0 0;
  last = get_or s.offs 0 0;
  tail = s.tail;
  info_index = (entry_or s.ents sz).index;
  info_term = (entry_or s.ents sz).term;
}

unfoldable pub compacted_log : ℕ → LogStorage → ℕ → Compacting
compacted_log node s sz =
    compact_done
      (record s {
        ents = compact_dummy (entry_or s.ents sz) ∷ remaining_ents s sz;
        offs = remaining_offs s sz;
      })
      (task_of node s sz)

unfoldable pub compact_log : ℕ → LogStorage → ℕ → Compacting
compact_log node s i =
    if leb i (compacted_index s)
    then compact_refused compacted
    else if ltb (last_stable_index s) i
    then compact_refused compacted
    else compacted_log node s (i - compacted_index s)
