-- ===== src/Vsb/Snapshot.antt =====
-- internal/store/vsb/block_snapshot.go: the content of a block, and catching up with that of
-- another replica.
pub mod CatchUp
use vanus.Base.{
  Bool, List, [], drop, false, if◌then◌else◌, le_bytes, leb, length, ltb, none, slice, some, suc,
  take, true, zero, ℕ, ◌++◌, ◌+◌, ◌-◌, ◌==◌, ◌∷◌,
}
use vanus.Vsb.{Index, VsBlock, int32}
use vanus.Vsb.Codec.{Codec}
use vanus.Vsb.Append.{Fragment, fragment_end, is_end, make_snapshot}

abbrev pub header_block_size : ℕ
header_block_size = 4096

pub data SnapshotResult : Type 0 where
  snapshot_of : List ℕ → SnapshotResult
  snapshot_error : SnapshotResult

-- The indexes found, and whether the end entry was.
pub data Replayed : Type 0 where
  replayed : List Index → Bool → Replayed
  replay_panics replay_stuck : Replayed

pub data ApplyResult : Type 0 where
  applied : VsBlock → List ℕ → ApplyResult
  out_of_order apply_panics apply_stuck : ApplyResult

-- `WriteAt` of a file, which becomes longer where it has to.
unfoldable pub write_file : List ℕ → ℕ → List ℕ → List ℕ
write_file file off bytes = take off file ++ (bytes ++ drop (off + length bytes) file)

-- The data offset and the data.
unfoldable pub snapshot : VsBlock → List ℕ → SnapshotResult
snapshot b file =
    let m = make_snapshot b.actx b.indexes in
    if m.write_offset == b.data_offset
    then snapshot_of (le_bytes 8 b.data_offset)
    else if ltb (length file) m.write_offset
    then snapshot_error
    else snapshot_of (le_bytes 8 b.data_offset ++ slice file b.data_offset m.write_offset)

unfoldable pub applied_replay : VsBlock → List ℕ → ℕ → Replayed → ApplyResult
applied_replay b file eo (replayed indexes ended) =
    applied
      (record b {
        indexes = indexes;
        actx = record {
          seq = length indexes;
          offset = eo;
          archived = if ended then true else b.actx.archived;
        };
      })
      file
applied_replay b file eo replay_panics = apply_panics
applied_replay b file eo replay_stuck = apply_stuck

module _ (codec : Codec) where
  open codec use {unmarshal}

  -- Each entry is found by its offset behind the header block.
  unfoldable pub replay : ℕ → ℕ → ℕ → List ℕ → List Index → Replayed
  replay zero off eo payload indexes = replay_stuck
  replay (suc fuel) off eo payload indexes = elim (ltb off eo) [
    | false ↦ replayed indexes false
    | true ↦ elim (unmarshal (drop (off - header_block_size) payload)) [
      | none ↦ replay_panics
      | some p ↦
          let idx : Index = record { offset = off; length = int32 p.0; stime = p.1.stime } in
          let next = replay fuel (off + p.0) eo payload (indexes ++ (idx ∷ [])) in
          if is_end p.1.kind then replayed indexes true else next
    ]
  ]

  -- An offset within the header block is out of the payload's range.
  unfoldable pub apply_snapshot : VsBlock → List ℕ → Fragment → ApplyResult
  apply_snapshot b file snap =
      let cur = b.actx.offset in
      let eo = fragment_end snap in
      if ltb cur snap.start
      then out_of_order
      else if leb eo cur
      then applied b file
      else if ltb cur header_block_size
      then apply_panics
      else applied_replay b (write_file file cur (drop (cur - snap.start) snap.payload)) eo
          (replay (suc (eo - cur)) cur eo snap.payload b.indexes)
