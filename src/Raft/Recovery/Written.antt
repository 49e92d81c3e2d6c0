-- ===== src/Raft/Recovery/Written.antt =====
-- What Append stored, replayed: a log whose entries have an offset each goes on in the same way.
use vanus.Base.{
  Bool-cases, List, [], ap, append_assoc, arith, inl, inr, le_of_not_ltb, length, length-append,
  length-take, ltb, ltb→lt, refl, suc, sym, take, zip, ℕ, ◌+◌, ◌-◌, ◌<◌, ◌∙◌, ◌∷◌, ◌≡◌, ◌⊎◌,
}
use vanus.Raft.Log.{LogStorage, RaftEntry, compacted_index, entry_or, first_index, last_term}
use vanus.Raft.Log.Chain.{Follow, IsLog, Chain-index, first_index-eq, Follow-none}
use vanus.Raft.Log.Append.Stored.{Within, first_of_take, spliced, spliced_at_end}
use vanus.Raft.Recovery.{recovered}
use vanus.Raft.Recovery.Steps.{cut_off, cut_off-IsLog, recover_cut}
use vanus.Raft.Recovery.Replay.{last_of_snoc, many_more, replay_from, replay_row}

pub record IsReplayed (s : LogStorage) (k : RaftEntry) (ks : List RaftEntry) (so : ℕ)
    (offs : List ℕ) : Type 0 where
  pub after : LogStorage
  pub replays : replay_from (recovered s) ((k, so) ∷ zip ks offs) ≡ recovered after
  pub is_log : IsLog after
  pub whole : after.ents ≡ spliced s k.index (k ∷ ks)
  pub aligned : length after.offs ≡ length after.ents

many-aligned :
    (s : LogStorage) (es : List RaftEntry) (offs : List ℕ)
    → length s.offs ≡ length s.ents
    → length offs ≡ length es
    → length (many_more s es offs).offs ≡ length (many_more s es offs).ents
many-aligned s es offs a b = omega (arith, length-append s.ents es, length-append s.offs offs)

cut-aligned :
    (s : LogStorage) (k : RaftEntry) (so : ℕ)
    → length s.offs ≡ length s.ents
    → length (cut_off s k so).offs ≡ length (cut_off s k so).ents
cut-aligned s k so a =
    let i = suc (k.index - first_index s) in
    omega (
      arith,
      length-append (take i s.ents) (k ∷ []),
      length-append (take i s.offs) (so ∷ []),
      length-take i s.ents,
      length-take i s.offs,
    )

replay_at_end :
    (s : LogStorage) (k : RaftEntry) (ks : List RaftEntry) (so : ℕ) (offs : List ℕ)
    → IsLog s
    → Within s k ks
    → k.index ≡ compacted_index s + length s.ents
    → length s.offs ≡ length s.ents
    → length offs ≡ length ks
    → IsReplayed s k ks so offs
unfolding Follow
replay_at_end s k ks so offs w v i a n =
    let l = entry_or s.ents (length s.ents - 1) in
    let at = Chain-index s.ents (length s.ents - 1) w.chain (omega (arith, w.has_dummy)) in
    let row : Follow l (k ∷ ks) = (omega (arith, at, w.has_dummy), (v.no_lower, v.row)) in
    let r = replay_row s l (k ∷ ks) (so ∷ offs) w refl row (omega (arith, v.fits)) (omega arith) in
    record {
      after = many_more s (k ∷ ks) (so ∷ offs);
      replays = r.0;
      is_log = r.1;
      whole = sym (spliced_at_end s k.index (k ∷ ks) w i);
      aligned = many-aligned s (k ∷ ks) (so ∷ offs) a (omega arith);
    }

replay-Within :
    (s : LogStorage) (k : RaftEntry) (ks : List RaftEntry) (so : ℕ) (offs : List ℕ)
    → IsLog s
    → Within s k ks
    → k.index < compacted_index s + length s.ents
    → last_term s < k.term
    → length s.offs ≡ length s.ents
    → length offs ≡ length ks
    → IsReplayed s k ks so offs
unfolding replay_from
replay-Within s k ks so offs w v i t a n =
    let one : Within s k [] = record {
      from_first = v.from_first;
      to_next = v.to_next;
      no_lower = v.no_lower;
      row = Follow-none k;
      fits = omega (arith, v.fits);
    } in
    let c = cut_off s k so in
    let m = suc (k.index - first_index s) in
    let wc = cut_off-IsLog s k so w one in
    let r =
      replay_row c k ks offs wc (last_of_snoc (take m s.ents) k) v.row
        (omega (
          arith,
          ap (λ y. y.index) (first_of_take (k.index - first_index s) s.ents (k ∷ []) w.has_dummy),
          length-append (take m s.ents) (k ∷ []),
          length-take m s.ents,
          first_index-eq s w,
          v.fits,
        ))
        n in
    record {
      after = many_more c ks offs;
      replays = ap (λ r. replay_from r (zip ks offs)) (recover_cut s k so w one i t) ∙ r.0;
      is_log = r.1;
      whole = append_assoc (take m s.ents) (k ∷ []) ks;
      aligned = many-aligned c ks offs (cut-aligned s k so a) n;
    }

-- Entries that go on behind the log, or have a higher term, are replayed as they were stored.
pub replay_written :
    (s : LogStorage) (k : RaftEntry) (ks : List RaftEntry) (so : ℕ) (offs : List ℕ)
    → IsLog s
    → Within s k ks
    → (k.index ≡ compacted_index s + length s.ents) ⊎ (last_term s < k.term)
    → length s.offs ≡ length s.ents
    → length offs ≡ length ks
    → IsReplayed s k ks so offs
replay_written s k ks so offs w v (inl i) a n = replay_at_end s k ks so offs w v i a n
replay_written s k ks so offs w v (inr t) a n =
    let next = compacted_index s + length s.ents in
    elim (Bool-cases (ltb k.index next)) [
      | inl q ↦ replay-Within s k ks so offs w v (ltb→lt k.index next q) t a n
      | inr q ↦
          replay_at_end s k ks so offs w v (omega (arith, v.to_next, le_of_not_ltb k.index next q))
            a n
    ]
