-- ===== src/Raft/Recovery/History.antt =====
-- Recovery from all that the write-ahead log was given for a node.
use mathlib.Core.Path.{subst}
use vanus.Base.{
  Bool, List, [], ap, arith, false, inl, inr, length, length-map, map, refl, some, sym, zip, ℕ,
  ◌++◌, ◌+◌, ◌-◌, ◌<◌, ◌==◌, ◌∙◌, ◌∷◌, ◌≡◌, ◌⊎◌,
}
use vanus.Raft.Log.{LogStorage, RaftEntry, add64, compacted_index, entry_or, last_term}
use vanus.Raft.Log.Append.{EntryCodec, append_entries, marked, marshal_entries, written}
use vanus.Raft.Recovery.{on_entries, on_entry, recovered, storage_of, storages}
use vanus.Raft.Log.Chain.{IsLog, last_term-eq}
use vanus.Raft.Log.Append.Stored.{spliced}
use vanus.Raft.Log.Append.Accepted.{IsStored, Outcome, append_entries_lem}
use vanus.Raft.Recovery.Entries.{on_entries-append, on_entries-replay, single}
use vanus.Raft.Log.Append.Prepared.{cleared}
use vanus.Raft.Recovery.Replay.{replay_from}
use vanus.Raft.Recovery.Written.{replay_written}
use vanus.Raft.Recovery.Mirror.{IsMirrored, IsSame, mirrored-IsSame, same-Within, spliced_mirrored}

-- What the write-ahead log holds of a node, and the log that its storage has then, which began as
-- `start`. In between the offsets may change, and entries of nodes that are gone may be written.
module _ (codec : EntryCodec) (node : ℕ) (start : LogStorage) where
  pub data History : LogStorage → List (List ℕ × ℕ) → Type 0 where
    began : History start []
    appended :
        (before s after : LogStorage) (wal : List (List ℕ × ℕ)) (entries kept : List RaftEntry)
        (bytes : List (List ℕ)) (remark : Bool) (offs : List ℕ)
        → History before wal
        → s.ents ≡ before.ents
        → IsLog s
        → (entry_or entries 0).index + length entries < 18446744073709551616
        → append_entries codec node s entries ≡ written after kept bytes remark
        → length offs ≡ length kept
        → ((entry_or kept 0).index ≡ compacted_index s + length s.ents)
          ⊎ (last_term s < (entry_or kept 0).term)
        → History after (wal ++ zip bytes offs)
    foreign :
        (s : LogStorage) (wal : List (List ℕ × ℕ)) (e : RaftEntry) (bytes : List ℕ) (so : ℕ)
        → History s wal
        → codec.marshal e ≡ some bytes
        → (node == e.node_id) ≡ false
        → History s (wal ++ (bytes, so) ∷ [])

-- What recovery makes of the write-ahead log.
pub record IsRecovered (codec : EntryCodec) (node : ℕ) (start s : LogStorage)
    (wal : List (List ℕ × ℕ)) : Type 0 where
  pub log : LogStorage
  pub runs : on_entries codec (storages ((node, start) ∷ [])) wal ≡ storages ((node, log) ∷ [])
  pub mirrored : IsMirrored node s log
  pub is_log : IsLog log
  pub aligned : length log.offs ≡ length log.ents

foreign-IsRecovered :
    (codec : EntryCodec) (node : ℕ) (start s : LogStorage) (wal : List (List ℕ × ℕ)) (e : RaftEntry)
    (bytes : List ℕ) (so : ℕ)
    → codec.marshal e ≡ some bytes
    → (node == e.node_id) ≡ false
    → IsRecovered codec node start s wal
    → IsRecovered codec node start s (wal ++ (bytes, so) ∷ [])
unfolding on_entries on_entry storage_of
foreign-IsRecovered codec node start s wal e bytes so m n r =
    let skip : on_entry codec ((node, r.log) ∷ []) bytes so ≡ storages ((node, r.log) ∷ []) =
      rw (codec.unmarshal-marshal e bytes m, on_entry) (rw (n, storage_of) refl) in
    record {
      log = r.log;
      runs =
          on_entries-append codec (storages ((node, start) ∷ [])) wal ((bytes, so) ∷ [])
          ∙ ap (λ x. on_entries codec x ((bytes, so) ∷ [])) r.runs
          ∙ skip;
      mirrored = r.mirrored;
      is_log = r.is_log;
      aligned = r.aligned;
    }

still_new :
    (node : ℕ) (s r : LogStorage) (k : RaftEntry)
    → IsSame s r
    → IsLog s
    → IsLog r
    → (k.index ≡ compacted_index s + length s.ents) ⊎ (last_term s < k.term)
    → (k.index ≡ compacted_index r + length r.ents) ⊎ (last_term r < k.term)
still_new node s r k e w x (inl i) = inl (omega (arith, i, e.index_same 0, e.length_same))
still_new node s r k e w x (inr t) =
    let j =
      e.term_same (length r.ents - 1) ∙ ap (λ l. (entry_or s.ents (l - 1)).term) e.length_same in
    inr (omega (arith, t, j, last_term-eq s w, last_term-eq r x))

written-IsRecovered :
    (codec : EntryCodec) (node : ℕ) (start before s after : LogStorage) (wal : List (List ℕ × ℕ))
    (given kept : List RaftEntry) (bytes : List (List ℕ)) (offs : List ℕ)
    → IsRecovered codec node start before wal
    → s.ents ≡ before.ents
    → IsLog s
    → IsStored s given after kept
    → marshal_entries codec node kept ≡ some bytes
    → length offs ≡ length kept
    → ((entry_or kept 0).index ≡ compacted_index s + length s.ents)
      ⊎ (last_term s < (entry_or kept 0).term)
    → IsRecovered codec node start after (wal ++ zip bytes offs)
written-IsRecovered codec node start before s after wal given kept bytes [] r same ws st m n new =
    absurd (omega (arith, ap length st.kept_are))
written-IsRecovered codec node start before s after wal given kept bytes (so ∷ offs) r same ws st m
      n new =
    let k = st.first in
    let ks = st.others in
    let mir : IsMirrored node s r.log = r.mirrored ∙ ap (map (marked node)) (sym same) in
    let e = mirrored-IsSame node s r.log mir in
    let v = same-Within node s r.log k ks e st.within in
    let len : length offs ≡ length (map (marked node) ks) =
      omega (arith, ap length st.kept_are, length-map ks (marked node)) in
    let newer = still_new node s r.log k e ws r.is_log (
      subst
        (λ l.
          ((entry_or l 0).index ≡ compacted_index s + length s.ents)
          ⊎ (last_term s < (entry_or l 0).term))
        st.kept_are new) in
    let rep =
      replay_written r.log (marked node k) (map (marked node) ks) so offs r.is_log v newer r.aligned
        len in
    record {
      log = rep.after;
      runs =
          on_entries-append codec (storages ((node, start) ∷ [])) wal (zip bytes (so ∷ offs))
          ∙ ap (λ x. on_entries codec x (zip bytes (so ∷ offs))) r.runs
          ∙ on_entries-replay codec node (recovered r.log) kept bytes (so ∷ offs) m
          ∙ ap
              (λ l.
                single node (replay_from (recovered r.log) (zip (map (marked node) l) (so ∷ offs))))
              st.kept_are
          ∙ ap (single node) rep.replays;
      mirrored =
          ap (map (marked node)) rep.whole
          ∙ spliced_mirrored node s r.log k.index (k ∷ ks) mir
              (ap (λ i. add64 i 1) (e.index_same 0))
          ∙ ap (λ l. map (marked node) (spliced s k.index l)) (sym st.kept_are)
          ∙ sym (ap (map (marked node)) st.whole);
      is_log = rep.is_log;
      aligned = rep.aligned;
    }

-- Whatever Append wrote to the write-ahead log, one call after another, onEntry on all of it
-- rebuilds the log: it never panics, and ends with the entries that the storage has, but for their
-- node, and an offset for each. It holds for a storage that began with an offset for each entry,
-- calls of Append that go on behind the last entry or have a greater term than it, indexes below
-- 2^64, and where entries of nodes that are gone may lie between.
pub recover-History :
    (codec : EntryCodec) (node : ℕ) (start s : LogStorage) (wal : List (List ℕ × ℕ))
    → IsLog start
    → length start.offs ≡ length start.ents
    → History codec node start s wal
    → IsRecovered codec node start s wal
unfolding on_entries
recover-History codec node start s wal w a began = record {
  log = start;
  runs = refl;
  mirrored = refl;
  is_log = w;
  aligned = a;
}
recover-History codec node start s wal w a
      (appended before t after wal' entries kept bytes remark offs h same wt fits e n new) =
    let o = append_entries_lem codec node t entries wt fits in
    let p = subst (Outcome codec node t (map cleared entries)) e o in
    written-IsRecovered codec node start before t s wal' (map cleared entries) kept bytes offs
      (recover-History codec node start before wal' w a h) same wt p.0 p.1.0 n new
recover-History codec node start s wal w a (foreign t wal' e bytes so h m n) =
    foreign-IsRecovered codec node start s wal' e bytes so m n
      (recover-History codec node start s wal' w a h)
