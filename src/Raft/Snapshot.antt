-- ===== src/Raft/Snapshot.antt =====
-- internal/store/raft/storage/snapshot_storage.go: snapshots of what the log was applied to, by an
-- operator of the application.
pub mod Applied
use vanus.Base.{Bool, List, Option, [], get_or, if◌then◌else◌, leb, none, some, ℕ, ◌∷◌}
use vanus.Raft.Log.{
  LogError, LogStorage, last_index, log_term, no_term, snapshot_failed, snapshot_unavailable,
  term_is, zero_entry,
}
use vanus.Raft.Log.Append.{CompactTask}
use vanus.Raft.State.{StateCodec, StateStorage, set_applied}

module _ (Conf : Type 0) where
  pub record RaftSnapshot : Type 0 where
    pub conf : Conf
    pub index : ℕ
    pub term : ℕ
    pub contents : List ℕ

  pub data SnapshotAnswer : Type 0 where
    snapshot_is : RaftSnapshot → SnapshotAnswer
    no_snapshot : LogError → SnapshotAnswer

  -- `get` is the operator's GetSnapshot, where there is an operator.
  unfoldable pub take_snapshot :
      Option (ℕ → Option (List ℕ)) → LogStorage → StateStorage Conf → SnapshotAnswer
  take_snapshot none l s = no_snapshot snapshot_unavailable
  take_snapshot (some get) l s = elim (log_term l s.apply) [
    | no_term x ↦ no_snapshot snapshot_unavailable
    | term_is term ↦ elim (get s.apply) [
      | none ↦ no_snapshot snapshot_failed
      | some bytes ↦
          snapshot_is (record { conf = s.conf; index = s.apply; term = term; contents = bytes })
    ]
  ]

  -- The log and the states, with the task for the goroutine of the write-ahead log.
  pub data SnapshotApplied : Type 0 where
    snapshot_old : SnapshotApplied
    snapshot_refused : SnapshotApplied
    snapshot_applied : LogStorage → StateStorage Conf → CompactTask → SnapshotApplied

  module _ (codec : StateCodec Conf) where
    unfoldable pub from_snapshot :
        ℕ → LogStorage → StateStorage Conf → RaftSnapshot → SnapshotApplied
    from_snapshot node l s snap =
        snapshot_applied
          (record l {
            ents = record zero_entry { term = snap.term; index = snap.index } ∷ [];
            offs = 0 ∷ [];
          })
          (set_applied Conf codec snap.index s)
          (record {
            node = node;
            offset = 0;
            last = get_or l.offs 0 0;
            tail = 0;
            info_index = snap.index;
            info_term = snap.term;
          })

    -- `succeeds` tells whether the operator's ApplySnapshot does.
    unfoldable pub apply_raft_snapshot :
        (List ℕ → Bool) → ℕ → LogStorage → StateStorage Conf → RaftSnapshot → SnapshotApplied
    apply_raft_snapshot succeeds node l s snap =
        if leb snap.index (last_index l)
        then snapshot_old
        else if succeeds snap.contents
        then from_snapshot node l s snap
        else snapshot_refused
