-- ===== src/Raft/Log/Append.antt =====
-- internal/store/raft/storage/log_storage.go: Append and what follows when the write-ahead log has
-- the entries. What is sent to the goroutine that compacts the log is returned.
pub mod Prepared
pub mod Stored
pub mod Accepted
pub mod Kept
pub mod AfterWrite
use vanus.Base.{
  Bool, List, Option, [], cons_some, drop, false, get_elem?, get_or, if◌then◌else◌, length, ltb,
  none, not, set, some, suc, take, true, zero, ℕ, ◌&&◌, ◌++◌, ◌+◌, ◌-◌, ◌==◌, ◌∷◌, ◌≡◌,
}
use vanus.Raft.Log.{
  LogError, LogStorage, RaftEntry, add64, bad_entry, entries_compacted, entry_or, first_index,
  last_index, last_stable_index, last_term, log_term, marshal_failed, no_entry, no_term, sub64,
  term_is, truncated,
}

-- The generated encoding of entries.
pub record EntryCodec : Type 0 where
  pub marshal : RaftEntry → Option (List ℕ)
  pub unmarshal : List ℕ → Option RaftEntry
  pub unmarshal-marshal :
      (e : RaftEntry) (bytes : List ℕ) → marshal e ≡ some bytes → unmarshal bytes ≡ some e

unfoldable pub follows : RaftEntry → RaftEntry → Bool
follows prev e = e.index == add64 prev.index 1 && not (ltb e.term prev.term)

unfoldable pub with_prev : RaftEntry → RaftEntry → RaftEntry
with_prev prev e = if e.term == prev.term then e else record e { prev_term = prev.term }

-- `none` is ErrBadEntry.
unfoldable pub prepare_from : RaftEntry → List RaftEntry → Option (List RaftEntry)
prepare_from prev [] = some []
prepare_from prev (e ∷ es) =
    let rest = prepare_from e es in
    if follows prev e then cons_some (with_prev prev e) rest else none

unfoldable pub prepare_entries : List RaftEntry → Option (List RaftEntry)
prepare_entries [] = some []
prepare_entries (e ∷ es) = cons_some e (prepare_from e es)

abbrev pub marked : ℕ → RaftEntry → RaftEntry
marked node e = record e { node_id = node }

unfoldable pub marshal_entries : EntryCodec → ℕ → List RaftEntry → Option (List (List ℕ))
marshal_entries codec node [] = some []
marshal_entries codec node (e ∷ es) =
    let rest = marshal_entries codec node es in
    elim (codec.marshal (marked node e)) [ none ↦ none | some bytes ↦ cons_some bytes rest ]

-- The callback is called with an error, an index is out of range, or: the state after the entries
-- are stored, the entries that are kept, their bytes for the write-ahead log, and whether the
-- barrier of the node has to move.
pub data Appending : Type 0 where
  refused : LogError → Appending
  faults : Appending
  written : LogStorage → List RaftEntry → List (List ℕ) → Bool → Appending

unfoldable pub store_entries : LogStorage → ℕ → List RaftEntry → LogStorage
store_entries s index entries =
    let i = index - first_index s + 1 in
    if index == add64 (last_index s) 1 then record s { ents = s.ents ++ entries } else record s {
      ents = take i s.ents ++ entries;
      offs = if ltb index (last_stable_index s) then take i s.offs else s.offs;
    }

unfoldable pub write_entries : EntryCodec → ℕ → LogStorage → ℕ → List RaftEntry → Appending
write_entries codec node s index entries = elim (marshal_entries codec node entries) [
  | none ↦ refused marshal_failed
  | some bytes ↦ written (store_entries s index entries) entries bytes (index == first_index s)
]

unfoldable pub append_behind : EntryCodec → ℕ → LogStorage → List RaftEntry → Appending
append_behind codec node s [] = faults
append_behind codec node s (e ∷ es) =
    if ltb e.term (last_term s)
    then refused bad_entry
    else elim (get_elem? s.ents (e.index - first_index s)) [
      | none ↦ faults
      | some prev ↦ write_entries codec node s e.index (with_prev prev e ∷ es)
    ]

unfoldable pub drop_compacted : ℕ → ℕ → List RaftEntry → List RaftEntry
drop_compacted first index entries =
    if ltb index first then drop (first - index) entries else entries

unfoldable pub append_prepared : EntryCodec → ℕ → LogStorage → List RaftEntry → Appending
append_prepared codec node s [] = faults
append_prepared codec node s (e ∷ es) =
    let rindex = sub64 (add64 e.index (length (e ∷ es))) 1 in
    if ltb (add64 (last_index s) 1) e.index
    then refused bad_entry
    else if ltb rindex (first_index s)
    then refused entries_compacted
    else append_behind codec node s (drop_compacted (first_index s) e.index (e ∷ es))

unfoldable pub append_entries : EntryCodec → ℕ → LogStorage → List RaftEntry → Appending
append_entries codec node s [] = refused no_entry
append_entries codec node s (e ∷ es) = elim (prepare_entries (e ∷ es)) [
  | none ↦ refused bad_entry
  | some entries ↦ append_prepared codec node s entries
]

-- A message to the goroutine that compacts the write-ahead log.
pub record CompactTask : Type 0 where
  pub node : ℕ
  pub offset : ℕ
  pub last : ℕ
  pub tail : ℕ
  pub info_index : ℕ
  pub info_term : ℕ

abbrev pub mark_barrier : ℕ → ℕ → CompactTask
mark_barrier node offset = record {
  node = node;
  offset = offset;
  last = 0;
  tail = 0;
  info_index = 0;
  info_term = 0;
}

abbrev pub remove_barrier : ℕ → ℕ → CompactTask
remove_barrier node offset = record {
  node = node;
  offset = 0;
  last = offset;
  tail = 0;
  info_index = 0;
  info_term = 0;
}

-- The callback of the write-ahead log, before postAppend.
unfoldable pub on_written : ℕ → Bool → List ℕ → List CompactTask
on_written node remark offsets = if remark then mark_barrier node (get_or offsets 0 0) ∷ [] else []

unfoldable pub still_there : LogStorage → RaftEntry → Bool
still_there s e = elim (log_term s e.index) [ term_is t ↦ t == e.term | no_term x ↦ false ]

-- The loop of postAppend: one more than the index of the last entry that is still in the log, or 0.
unfoldable pub kept_of : LogStorage → List RaftEntry → ℕ → ℕ
kept_of s entries zero = 0
kept_of s entries (suc end) =
    let rest = kept_of s entries end in
    if still_there s (entry_or entries end) then suc end else rest

pub data Posted : Type 0 where
  post_refused : LogError → List CompactTask → Posted
  posted : LogStorage → List CompactTask → ℕ → ℕ → Posted  -- term and index of the result
  post_faults : Posted

-- How many offsets stay before the new ones, a uint64.
abbrev pub offsets_before : LogStorage → ℕ → ℕ
offsets_before s index = add64 (sub64 index (first_index s)) 1

-- There are not as many: the slice is out of range.
unfoldable pub offsets_fault : LogStorage → ℕ → Bool
offsets_fault s index =
    if index == add64 (last_stable_index s) 1
    then false
    else ltb (length s.offs) (offsets_before s index)

unfoldable pub store_offsets : LogStorage → ℕ → List ℕ → List ℕ
store_offsets s index offsets =
    if index == add64 (last_stable_index s) 1
    then s.offs ++ offsets
    else take (offsets_before s index) s.offs ++ offsets

unfoldable pub move_barrier : ℕ → Bool → LogStorage → LogStorage × List CompactTask
move_barrier node false s = (s, [])
move_barrier node true s = (
  record s { offs = set s.offs 0 (get_or s.offs 1 0) },
  (if get_or s.offs 0 0 == 0 then [] else remove_barrier node (get_or s.offs 0 0) ∷ []),
)

unfoldable pub post_append : ℕ → LogStorage → List RaftEntry → List ℕ → ℕ → Bool → Posted
post_append node s entries offsets tail remark = elim (kept_of s entries (length entries)) [
  | zero ↦
      post_refused truncated (if remark then remove_barrier node (get_or offsets 0 0) ∷ [] else [])
  | suc end ↦
      (let index = (entry_or entries 0).index in
        let offs = store_offsets s index (take (suc end) offsets) in
        let moved = move_barrier node remark (record s { offs = offs; tail = tail }) in
        let e = entry_or entries end in
        if offsets_fault s index then post_faults else posted moved.0 moved.1 e.term e.index)
]
