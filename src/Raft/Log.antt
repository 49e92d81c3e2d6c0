-- ===== src/Raft/Log.antt =====
-- internal/store/raft/storage/log_storage.go: the entries of a Raft log and their offsets in the
-- write-ahead log. `ents` begins with a dummy entry, which has index and term of the last compacted
-- one. Indexes and terms are uint64.
pub mod Append
pub mod Chain
pub mod Range
use vanus.Base.{
  List, [], get_or, if◌then◌else◌, leb, length, ltb, slice, suc, take, ℕ, ◌%◌, ◌+◌, ◌-◌, ◌==◌, ◌^◌,
  ◌∷◌,
}

pub record RaftEntry : Type 0 where
  pub term : ℕ
  pub index : ℕ
  pub kind : ℕ
  pub payload : List ℕ
  pub node_id : ℕ
  pub prev_term : ℕ

pub record LogStorage : Type 0 where
  pub ents : List RaftEntry
  pub offs : List ℕ
  pub tail : ℕ

pub data LogError : Type 0 where
  no_entry : LogError
  bad_entry : LogError
  entries_compacted : LogError
  truncated : LogError
  compacted : LogError
  unavailable : LogError
  marshal_failed : LogError
  snapshot_unavailable : LogError
  snapshot_failed : LogError

abbrev pub zero_entry : RaftEntry
zero_entry = record { term = 0; index = 0; kind = 0; payload = []; node_id = 0; prev_term = 0 }

abbrev pub new_log : LogStorage
new_log = record { ents = zero_entry ∷ []; offs = 0 ∷ []; tail = 0 }

-- Sums and differences of uint64.
abbrev pub add64 : ℕ → ℕ → ℕ
add64 a b = (a + b) % 2 ^ 64

abbrev pub sub64 : ℕ → ℕ → ℕ
sub64 a b = (a + 2 ^ 64 - b) % 2 ^ 64

-- `ents[i]` for the indexes below its length, which are the only ones used.
abbrev pub entry_or : List RaftEntry → ℕ → RaftEntry
entry_or ents i = get_or ents i zero_entry

abbrev pub compacted_index : LogStorage → ℕ
compacted_index s = (entry_or s.ents 0).index

abbrev pub compacted_term : LogStorage → ℕ
compacted_term s = (entry_or s.ents 0).term

abbrev pub log_length : LogStorage → ℕ
log_length s = sub64 (length s.ents) 1

abbrev pub stable_length : LogStorage → ℕ
stable_length s = sub64 (length s.offs) 1

abbrev pub first_index : LogStorage → ℕ
first_index s = add64 (compacted_index s) 1

abbrev pub last_index : LogStorage → ℕ
last_index s = add64 (compacted_index s) (log_length s)

abbrev pub last_stable_index : LogStorage → ℕ
last_stable_index s = add64 (compacted_index s) (stable_length s)

abbrev pub last_term : LogStorage → ℕ
last_term s = (entry_or s.ents (log_length s)).term

pub data TermAnswer : Type 0 where
  term_is : ℕ → TermAnswer
  no_term : LogError → TermAnswer

unfoldable pub log_term : LogStorage → ℕ → TermAnswer
log_term s i =
    let ci = compacted_index s in
    if ltb i ci
    then no_term compacted
    else if ltb (last_index s) i
    then no_term unavailable
    else term_is (entry_or s.ents (i - ci)).term

-- The loop of `limitSize`: how many entries follow within the size.
unfoldable pub limit_within : (RaftEntry → ℕ) → ℕ → ℕ → List RaftEntry → ℕ
limit_within size max_size total [] = 0
limit_within size max_size total (e ∷ es) =
    let rest = limit_within size max_size (total + size e) es in
    if ltb max_size (total + size e) then 0 else suc rest

unfoldable pub limit_size : (RaftEntry → ℕ) → ℕ → List RaftEntry → List RaftEntry
limit_size size max_size [] = []
limit_size size max_size (e ∷ es) = take (suc (limit_within size max_size (size e) es)) (e ∷ es)

-- A slice whose bounds are in the wrong order panics.
pub data EntriesAnswer : Type 0 where
  entries_are : List RaftEntry → EntriesAnswer
  no_entries : LogError → EntriesAnswer
  entries_panic : EntriesAnswer

-- `size` is the encoded size of an entry, of the generated code.
unfoldable pub log_entries : (RaftEntry → ℕ) → LogStorage → ℕ → ℕ → ℕ → EntriesAnswer
log_entries size s lo hi max_size =
    let ci = compacted_index s in
    if leb lo ci
    then no_entries compacted
    else if ltb (add64 (last_index s) 1) hi
    then no_entries unavailable
    else if log_length s == 0
    then no_entries unavailable
    else if ltb hi lo
    then entries_panic
    else entries_are (limit_size size max_size (slice s.ents (lo - ci) (hi - ci)))
