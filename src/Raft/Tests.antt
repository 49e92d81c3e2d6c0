-- ===== src/Raft/Tests.antt =====
-- The theorems on the Raft storage at concrete inputs.
mod Snapshots
use vanus.Base.{
  List, Option, [], ap, arith, drop, false, inl, length, none, refl, slice, some, sym, true, zip, ℕ,
  ◌++◌, ◌∷◌, ◌≡◌, ◌≤◌, ◌⊎◌,
}
use vanus.Raft.Log.{
  LogStorage, RaftEntry, compacted_index, entries_are, entry_or, log_entries, log_term, new_log,
  zero_entry,
}
use vanus.Raft.Log.Chain.{Chain, Follow, IsLog}
use vanus.Raft.Log.Range.{IsLimited, log_entries_lem}
use vanus.Raft.Log.Append.{
  Appending, CompactTask, EntryCodec, Posted, append_behind, append_entries, append_prepared,
  drop_compacted, follows, kept_of, marshal_entries, move_barrier, offsets_fault, on_written,
  post_append, posted, prepare_entries, prepare_from, still_there, store_entries, store_offsets,
  with_prev, write_entries, written,
}
use vanus.Raft.Log.Append.Accepted.{Outcome, append_entries_lem}
use vanus.Raft.Log.Append.AfterWrite.{PostedOk, post_append_lem}
use vanus.Raft.Compact.{
  Compacting, compact_done, compact_log, compacted_log, remaining_ents, remaining_offs,
}
use vanus.Raft.Compact.Reads.{compact-reads}
use vanus.Raft.Barrier.{
  CompactContext, WalState, compact_task, do_compact, forget, is_stale, move_to, next_offset,
  node_known, sync_compact, with_info,
}
use vanus.Raft.Guard.{Rises, Run, barrier_set, fresh, noted, run_tasks, stored}
use vanus.Raft.Guard.Safety.{Run-keeps_entries}
use vanus.Raft.Elements.{list_map}
use vanus.Raft.Recovery.{
  append_in_recovery, cache_entry, on_entries, on_entry, set_storage, storage_of, storages,
  storages_panic,
}
use vanus.Raft.Recovery.History.{History, IsRecovered, appended, recover-History}

-- An encoding of entries, for the parameter.
abbrev decode : List ℕ → Option RaftEntry
decode (t ∷ i ∷ k ∷ n ∷ p ∷ bytes) =
    some (record { term = t; index = i; kind = k; payload = bytes; node_id = n; prev_term = p })
decode _ = none

abbrev encode : RaftEntry → Option (List ℕ)
encode e = some (e.term ∷ e.index ∷ e.kind ∷ e.node_id ∷ e.prev_term ∷ e.payload)

decode-encode : (e : RaftEntry) (bytes : List ℕ) → encode e ≡ some bytes → decode bytes ≡ some e
decode-encode e bytes h =
    let q : e.term ∷ e.index ∷ e.kind ∷ e.node_id ∷ e.prev_term ∷ e.payload ≡ bytes = cc in
    ap decode (sym q)

abbrev codec : EntryCodec
codec = record { marshal = encode; unmarshal = decode; unmarshal-marshal = decode-encode }

abbrev at : ℕ → ℕ → RaftEntry
at term index = record zero_entry { term = term; index = index }

-- A log with three entries behind the last compacted one, two of them stable.
abbrev three : LogStorage
three = record {
  ents = at 1 10 ∷ at 1 11 ∷ at 2 12 ∷ at 2 13 ∷ [];
  offs = 100 ∷ 100 ∷ 120 ∷ [];
  tail = 140;
}

three-IsLog : IsLog three
unfolding Chain Follow
three-IsLog = record {
  has_dummy = omega arith;
  has_offset = omega arith;
  chain = (refl, (omega arith, (refl, (omega arith, (refl, (omega arith, tt))))));
  stable = omega arith;
  fits = omega arith;
}

append_entries_lem_example :
    Outcome codec 7 three
      (at 3 12 ∷ at 3 13 ∷ [])
      (append_entries codec 7 three (at 3 12 ∷ at 3 13 ∷ []))
append_entries_lem_example =
    append_entries_lem codec 7 three (at 3 12 ∷ at 3 13 ∷ []) three-IsLog (omega arith)

abbrev ents_after : Appending → List RaftEntry
ents_after (written s kept bytes remark) = s.ents
ents_after _ = []

-- Two entries of a higher term take the place of two others; the previous term is filled in.
replaced_two :
    ents_after (append_entries codec 7 three (at 3 12 ∷ at 3 13 ∷ []))
    ≡ at 1 10 ∷ at 1 11 ∷ record (at 3 12) { prev_term = 1 } ∷ at 3 13 ∷ []
unfolding append_entries prepare_entries prepare_from follows append_prepared drop_compacted
    append_behind with_prev write_entries marshal_entries store_entries
replaced_two = refl

log_entries_lem_example :
    (es : List RaftEntry) × ((log_entries (λ e. 5) three 11 14 10 ≡ entries_are es)
      × ((length (slice three.ents 1 4) ≡ 3)
          × (((entry_or es 0).index ≡ 11) × IsLimited (λ e. 5) 10 (slice three.ents 1 4) es)))
log_entries_lem_example =
    log_entries_lem (λ e. 5) three 11 14 10 three-IsLog (omega arith) (omega arith) (omega arith)

new_log-IsLog : IsLog new_log
unfolding Chain Follow
new_log-IsLog = record {
  has_dummy = omega arith;
  has_offset = omega arith;
  chain = tt;
  stable = omega arith;
  fits = omega arith;
}

abbrev two_more : List RaftEntry
two_more = at 1 1 ∷ at 1 2 ∷ []

abbrev log_two : LogStorage
log_two = record new_log { ents = zero_entry ∷ two_more }

abbrev bytes_two : List (List ℕ)
bytes_two = (1 ∷ 1 ∷ 0 ∷ 7 ∷ 0 ∷ []) ∷ (1 ∷ 2 ∷ 0 ∷ 7 ∷ 0 ∷ []) ∷ []

abbrev offs_two : List ℕ
offs_two = 40 ∷ 60 ∷ []

recover-History_example : IsRecovered codec 7 new_log log_two (zip bytes_two offs_two)
unfolding append_entries prepare_entries prepare_from follows append_prepared drop_compacted
    append_behind with_prev write_entries marshal_entries store_entries
recover-History_example =
    recover-History codec 7 new_log log_two (zip bytes_two offs_two) new_log-IsLog refl (
      appended new_log new_log log_two [] two_more two_more bytes_two true offs_two History.began
        refl new_log-IsLog (omega arith) refl refl (inl refl))

-- Append takes entries of the same term in the place of others; recovery panics on them.
same_term_panics :
    on_entries codec
      (storages ((7, new_log) ∷ []))
      (zip bytes_two offs_two ++ (1 ∷ 2 ∷ 0 ∷ 7 ∷ 0 ∷ [], 80) ∷ [])
    ≡ storages_panic
unfolding on_entries on_entry storage_of set_storage append_in_recovery cache_entry
same_term_panics = refl

same_term_appended :
    ents_after (append_entries codec 7 three (at 2 13 ∷ []))
    ≡ at 1 10 ∷ at 1 11 ∷ at 2 12 ∷ at 2 13 ∷ []
unfolding append_entries prepare_entries prepare_from follows append_prepared drop_compacted
    append_behind with_prev write_entries marshal_entries store_entries
same_term_appended = refl

post_append_lem_example :
    PostedOk three (at 2 13 ∷ []) (post_append 7 three (at 2 13 ∷ []) (130 ∷ []) 150 false)
unfolding Chain Follow
post_append_lem_example =
    post_append_lem 7 three (at 2 13 ∷ []) (130 ∷ []) 150 false three-IsLog tt refl (omega arith)
      (omega arith)

compact-reads_example :
    (after : LogStorage) × ((task : CompactTask) × ((compact_log 7 three 11
          ≡ compact_done after task)
        × (IsLog after
            × ((compacted_index after ≡ 11)
                × ((log_term after 12 ≡ log_term three 12)
                    × (log_entries (λ e. 5) after 12 14 100
                        ≡ log_entries (λ e. 5) three 12 14 100))))))
compact-reads_example =
    compact-reads 7 (λ e. 5) three 11 12 12 14 100 three-IsLog (omega arith) (omega arith)
      (omega arith) (omega arith) (omega arith)

abbrev idle : CompactContext
idle = record { tail = 0; compacted = 0; to_compact = 0; infos = [] }

abbrev barriers : WalState list_map
barriers = record {
  nodes = (7, true) ∷ (8, true) ∷ [];
  barrier = (10, 7) ∷ (90, 8) ∷ [];
  ctx = idle;
}

abbrev recovered_log : LogStorage
recovered_log = record {
  ents = at 1 10 ∷ at 1 11 ∷ at 2 12 ∷ [];
  offs = 0 ∷ 100 ∷ 120 ∷ [];
  tail = 0;
}

recovered_log-IsLog : IsLog recovered_log
unfolding Chain Follow
recovered_log-IsLog = record {
  has_dummy = omega arith;
  has_offset = omega arith;
  chain = (refl, (omega arith, (refl, (omega arith, tt))));
  stable = omega arith;
  fits = omega arith;
}

recovered_log-Rises : Rises 0 (drop 1 recovered_log.offs)
unfolding Rises
recovered_log-Rises = (omega arith, (omega arith, tt))

-- The first entry of a new log is appended, its barrier set, and its offset noted; a second one is
-- appended behind it.
abbrev first_stored : LogStorage
first_stored = record new_log { ents = zero_entry ∷ at 1 1 ∷ [] }

abbrev first_noted : LogStorage
first_noted = record first_stored { offs = 40 ∷ 40 ∷ []; tail = 50 }

abbrev first_marked : WalState list_map
first_marked = run_tasks list_map (on_written 7 true (40 ∷ [])) barriers

first_Run : Run list_map codec 7 first_stored barriers []
unfolding append_entries prepare_entries prepare_from append_prepared drop_compacted append_behind
    with_prev write_entries marshal_entries store_entries node_known
first_Run =
    stored new_log first_stored barriers [] (at 1 1 ∷ []) (at 1 1 ∷ [])
      ((1 ∷ 1 ∷ 0 ∷ 7 ∷ 0 ∷ []) ∷ []) true (fresh barriers refl) (omega arith) refl

noted_Run : Run list_map codec 7 first_noted first_marked []
unfolding Rises Chain Follow post_append kept_of still_there log_term store_offsets move_barrier
    offsets_fault run_tasks
noted_Run =
    noted first_stored first_noted first_marked [] (at 1 1 ∷ []) (40 ∷ []) 50 true [] 1 1
      (barrier_set first_stored barriers [] (40 ∷ []) first_Run (omega arith) refl) tt refl
      (omega arith) (omega arith) refl (inl refl) refl (omega arith, tt) (omega arith, tt)

Run-keeps_entries_example :
    (after : WalState list_map) × ((cut : Option ℕ) × ((do_compact list_map true first_marked
          ≡ some (after, cut))
        × ((cut ≡ none) ⊎ ((c : ℕ) × ((cut ≡ some c) × (c ≤ 40))))))
Run-keeps_entries_example =
    Run-keeps_entries list_map 7 codec first_noted first_marked [] true 1 noted_Run (omega arith)
      (omega arith)

-- Three stable entries and one that is being written when Compact is called at the third: the node is
-- left without a barrier, and the write-ahead log is compacted at that of another node, behind the
-- offset of the fourth entry.
abbrev in_flight : LogStorage
in_flight = record {
  ents = zero_entry ∷ at 1 1 ∷ at 1 2 ∷ at 1 3 ∷ at 1 4 ∷ [];
  offs = 10 ∷ 10 ∷ 20 ∷ 30 ∷ [];
  tail = 40;
}

abbrev after_drop : Compacting → WalState list_map → Option (LogStorage × WalState list_map)
after_drop (compact_done s task) w = some (s, compact_task list_map task w)
after_drop _ w = none

abbrev offs_after : Posted → List ℕ
offs_after (posted s tasks term index) = s.offs
offs_after _ = []

abbrev cut_after : Option (LogStorage × WalState list_map) → List ℕ × Option ℕ
cut_after none = ([], none)
cut_after (some (s, w)) = (
  offs_after (post_append 7 s (at 1 4 ∷ []) (40 ∷ []) 50 false),
  elim (do_compact list_map true w) [ none ↦ none | some r ↦ r.1 ],
)

entry_lost : cut_after (after_drop (compact_log 7 in_flight 3) barriers) ≡ (0 ∷ 40 ∷ [], some 90)
unfolding compact_log compacted_log remaining_ents remaining_offs compact_task move_to with_info
    node_known forget post_append kept_of still_there log_term store_offsets move_barrier do_compact
    next_offset sync_compact is_stale offsets_fault
entry_lost = refl
