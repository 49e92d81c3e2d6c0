-- ===== src/Raft/Recovery/Steps.antt =====
-- One entry, and a row of entries, handed to appendInRecovery.
use vanus.Base.{
  ==_lt, ==_of, List, [], arith, false, length, length-append, length-take, ltb-false, lt→ltb, refl,
  suc, sym, take, ℕ, ◌++◌, ◌+◌, ◌-◌, ◌<◌, ◌==◌, ◌∙◌, ◌∷◌, ◌≡◌, ◌≤◌,
}
use vanus.Raft.Log.{
  LogStorage, RaftEntry, add64, compacted_index, compacted_term, entry_or, first_index, last_index,
  last_term,
}
use vanus.Raft.Log.Chain.{Chain, IsLog, first_index-eq, Follow-term, last_term-eq, next_index-eq}
use vanus.Raft.Log.Append.Stored.{Within, spliced-IsLog, spliced_at_end}
use vanus.Raft.Recovery.{append_in_recovery, cache_entry, recovered}

pub Chain-term :
    (ents : List RaftEntry) (i j : ℕ)
    → Chain ents
    → i ≤ j
    → j < length ents
    → (entry_or ents i).term ≤ (entry_or ents j).term
unfolding Chain
Chain-term [] i j c h k = absurd (omega arith)
Chain-term (d ∷ es) i j c h k = Follow-term i j d es c h (omega arith)

-- The log with one more entry at its end.
abbrev pub one_more : LogStorage → RaftEntry → ℕ → LogStorage
one_more s e so = record s { ents = s.ents ++ e ∷ []; offs = s.offs ++ so ∷ [] }

abbrev pub cut_off : LogStorage → RaftEntry → ℕ → LogStorage
cut_off s e so =
    let i = suc (e.index - first_index s) in
    record s { ents = take i s.ents ++ e ∷ []; offs = take i s.offs ++ so ∷ [] }

passes_compacted :
    (s : LogStorage) (e : RaftEntry) (so : ℕ)
    → IsLog s
    → Within s e []
    → append_in_recovery s e so ≡ cache_entry s e so
unfolding append_in_recovery
passes_compacted s e so w v =
    let t =
      Chain-term s.ents 0 (length s.ents - 1) w.chain (omega arith) (omega (arith, w.has_dummy)) in
    simp (
      ltb-false e.term (compacted_term s) (omega (arith, t, v.no_lower)),
      ltb-false e.index (first_index s) (omega (arith, first_index-eq s w, v.from_first)),
    )

pub recover_next :
    (s : LogStorage) (e : RaftEntry) (so : ℕ)
    → IsLog s
    → Within s e []
    → e.index ≡ compacted_index s + length s.ents
    → append_in_recovery s e so ≡ recovered (one_more s e so)
unfolding cache_entry
recover_next s e so w v i =
    let next = next_index-eq s w in
    passes_compacted s e so w v
    ∙ simp (
      ltb-false e.term (last_term s) (omega (arith, last_term-eq s w, v.no_lower)),
      ltb-false (add64 (last_index s) 1) e.index (omega (arith, next)),
      ==_of e.index (add64 (last_index s) 1) (omega (arith, next)),
    )

pub recover_cut :
    (s : LogStorage) (e : RaftEntry) (so : ℕ)
    → IsLog s
    → Within s e []
    → e.index < compacted_index s + length s.ents
    → last_term s < e.term
    → append_in_recovery s e so ≡ recovered (cut_off s e so)
unfolding cache_entry
recover_cut s e so w v i t =
    let next = next_index-eq s w in
    let n : (e.index == add64 (last_index s) 1) ≡ false =
      ==_lt e.index (add64 (last_index s) 1) (omega (arith, next)) in
    let j : e.index - first_index s + 1 ≡ suc (e.index - first_index s) = omega arith in
    passes_compacted s e so w v
    ∙ simp (
      ltb-false e.term (last_term s) (omega (arith)),
      ltb-false (add64 (last_index s) 1) e.index (omega (arith, next)),
      n,
      lt→ltb (last_term s) e.term t,
      j,
    )

pub one_more-IsLog :
    (s : LogStorage) (e : RaftEntry) (so : ℕ)
    → IsLog s
    → Within s e []
    → e.index ≡ compacted_index s + length s.ents
    → IsLog (one_more s e so)
one_more-IsLog s e so w v i =
    let l = length-append s.offs (so ∷ []) in
    spliced-IsLog s (one_more s e so) e [] w v (sym (spliced_at_end s e.index (e ∷ []) w i))
      (omega (arith, l)) (omega (arith, l, w.stable))

pub cut_off-IsLog :
    (s : LogStorage) (e : RaftEntry) (so : ℕ) → IsLog s → Within s e [] → IsLog (cut_off s e so)
cut_off-IsLog s e so w v =
    let i = suc (e.index - first_index s) in
    let l = length-append (take i s.offs) (so ∷ []) in
    let t = length-take i s.offs in
    spliced-IsLog s (cut_off s e so) e [] w v refl (omega (arith, l))
      (omega (arith, l, t, first_index-eq s w, v.from_first))
