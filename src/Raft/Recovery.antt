-- ===== src/Raft/Recovery.antt =====
-- internal/store/raft/storage/recovery.go: the log of a node from the entries in the write-ahead log.
pub mod Steps
pub mod Replay
pub mod Written
pub mod Entries
pub mod Mirror
pub mod History
use vanus.Base.{
  List, Option, [], get_or, if◌then◌else◌, ltb, none, not, set, some, take, ℕ, ◌++◌, ◌+◌, ◌-◌, ◌==◌,
  ◌||◌, ◌∷◌,
}
use vanus.Raft.Log.{
  LogStorage, RaftEntry, add64, compacted_term, first_index, last_index, last_term, log_length,
}
use vanus.Raft.Log.Append.{EntryCodec}

-- The panic is `unreachablePanic`.
pub data Recovering : Type 0 where
  recovered : LogStorage → Recovering
  recovery_panic : Recovering

abbrev recovery_cut : LogStorage → RaftEntry → ℕ → LogStorage
recovery_cut s entry so =
    let si = entry.index - first_index s + 1 in
    record s { ents = take si s.ents ++ entry ∷ []; offs = take si s.offs ++ so ∷ [] }

unfoldable pub cache_entry : LogStorage → RaftEntry → ℕ → Recovering
cache_entry s entry so =
    let expected = add64 (last_index s) 1 in
    if ltb entry.term (last_term s)
    then recovery_panic
    else if ltb expected entry.index
    then recovery_panic
    else if entry.index == expected
    then recovered (record s { ents = s.ents ++ entry ∷ []; offs = s.offs ++ so ∷ [] })
    else if ltb (last_term s) entry.term
    then recovered (recovery_cut s entry so)
    else recovery_panic

unfoldable pub append_in_recovery : LogStorage → RaftEntry → ℕ → Recovering
append_in_recovery s entry so =
    if ltb entry.term (compacted_term s)
    then recovered s
    else if ltb entry.index (first_index s)
    then (if not (entry.term == compacted_term s) || not (log_length s == 0)
        then recovery_panic
        else recovered s)
    else cache_entry s entry so

-- The storages by node; an entry of another node is left out.
unfoldable pub storage_of : ℕ → List (ℕ × LogStorage) → Option LogStorage
storage_of id [] = none
storage_of id ((k, s) ∷ rest) = if k == id then some s else storage_of id rest

unfoldable pub set_storage : ℕ → LogStorage → List (ℕ × LogStorage) → List (ℕ × LogStorage)
set_storage id t [] = []
set_storage id t ((k, s) ∷ rest) =
    let others = set_storage id t rest in if k == id then (k, t) ∷ rest else (k, s) ∷ others

pub data Storages : Type 0 where
  storages : List (ℕ × LogStorage) → Storages
  storages_panic : Storages
  storages_error : Storages

abbrev replaced : ℕ → List (ℕ × LogStorage) → Recovering → Storages
replaced id sb (recovered s) = storages (set_storage id s sb)
replaced id sb recovery_panic = storages_panic

unfoldable pub on_entry : EntryCodec → List (ℕ × LogStorage) → List ℕ → ℕ → Storages
on_entry codec sb bytes so = elim (codec.unmarshal bytes) [
  | none ↦ storages_error
  | some entry ↦ elim (storage_of entry.node_id sb) [
    | none ↦ storages sb
    | some s ↦ replaced entry.node_id sb (append_in_recovery s entry so)
  ]
]

-- The calls of onEntry for what the write-ahead log holds, up to the first that fails.
unfoldable pub on_entries : EntryCodec → Storages → List (List ℕ × ℕ) → Storages
on_entries codec sb [] = sb
on_entries codec (storages sb) ((bytes, so) ∷ rest) =
    on_entries codec (on_entry codec sb bytes so) rest
on_entries codec storages_panic (x ∷ rest) = storages_panic
on_entries codec storages_error (x ∷ rest) = storages_error

-- The last step of Recover: the barrier is the offset of the first entry, 0 if there is none.
unfoldable pub recovered_barrier : LogStorage → LogStorage × ℕ
recovered_barrier s =
    if log_length s == 0
    then (s, 0)
    else (record s { offs = set s.offs 0 (get_or s.offs 1 0) }, get_or s.offs 1 0)
