-- ===== src/Raft/Recovery/Replay.antt =====
-- A row of entries replayed on a log.
use mathlib.Core.Path.{subst}
use vanus.Base.{
  List, [], ap, append-nil, append_assoc, arith, length, length-append, refl, sym, zip, ℕ, ◌++◌,
  ◌+◌, ◌-◌, ◌<◌, ◌∙◌, ◌∷◌, ◌≡◌,
}
use vanus.Raft.Log.{LogStorage, RaftEntry, compacted_index, entry_or}
use vanus.Raft.Log.Chain.{Follow, IsLog, Chain-index}
use vanus.Raft.Log.Append.Stored.{Within}
use vanus.Raft.Recovery.{Recovering, append_in_recovery, recovered, recovery_panic}
use vanus.Raft.Recovery.Steps.{one_more, one_more-IsLog, recover_next}

-- The calls of appendInRecovery for the entries of one node.
unfoldable pub replay_from : Recovering → List (RaftEntry × ℕ) → Recovering
replay_from r [] = r
replay_from (recovered s) ((e, so) ∷ rest) = replay_from (append_in_recovery s e so) rest
replay_from recovery_panic (x ∷ rest) = recovery_panic

behind_all : (xs : List RaftEntry) (e : RaftEntry) → entry_or (xs ++ e ∷ []) (length xs) ≡ e
behind_all [] e = refl
behind_all (x ∷ xs) e = behind_all xs e

pub last_of_snoc :
    (xs : List RaftEntry) (e : RaftEntry) → entry_or (xs ++ e ∷ []) (length (xs ++ e ∷ []) - 1) ≡ e
last_of_snoc xs e =
    ap (entry_or (xs ++ e ∷ [])) {y = length xs} (omega (arith, length-append xs (e ∷ [])))
    ∙ behind_all xs e

-- The log with more entries at its end.
abbrev pub many_more : LogStorage → List RaftEntry → List ℕ → LogStorage
many_more s es offs = record s { ents = s.ents ++ es; offs = s.offs ++ offs }

many_more_none : (s : LogStorage) → many_more s [] [] ≡ s
many_more_none s = simp append-nil

many_more_step :
    (s : LogStorage) (x : RaftEntry) (so : ℕ) (es : List RaftEntry) (offs : List ℕ)
    → many_more (one_more s x so) es offs ≡ many_more s (x ∷ es) (so ∷ offs)
many_more_step s x so es offs = simp append_assoc

pub first_of_append :
    (xs ys : List RaftEntry) → 0 < length xs → entry_or (xs ++ ys) 0 ≡ entry_or xs 0
first_of_append [] ys h = absurd (omega arith)
first_of_append (x ∷ xs) ys h = refl

pub replay_row :
    (s : LogStorage) (l : RaftEntry) (es : List RaftEntry) (offs : List ℕ)
    → IsLog s
    → entry_or s.ents (length s.ents - 1) ≡ l
    → Follow l es
    → compacted_index s + length s.ents + length es < 18446744073709551616
    → length offs ≡ length es
    → (replay_from (recovered s) (zip es offs) ≡ recovered (many_more s es offs))
      × IsLog (many_more s es offs)
unfolding replay_from Follow
replay_row s l [] [] w e f b n =
    (ap recovered (sym (many_more_none s)), subst IsLog (sym (many_more_none s)) w)
replay_row s l [] (so ∷ offs) w e f b n = absurd (omega arith)
replay_row s l (x ∷ es) [] w e f b n = absurd (omega arith)
replay_row s l (x ∷ es) (so ∷ offs) w e f b n =
    let at = Chain-index s.ents (length s.ents - 1) w.chain (omega (arith, w.has_dummy)) in
    let here : l.index ≡ compacted_index s + (length s.ents - 1) = ap (λ y. y.index) (sym e) ∙ at in
    let next : x.index ≡ compacted_index s + length s.ents =
      omega (arith, f.0, here, w.has_dummy) in
    let t = ap (λ y. y.term) e in
    let within : Within s x [] = record {
      from_first = omega (arith, next, w.has_dummy);
      to_next = omega (arith, next);
      no_lower = omega (arith, t, f.1.0);
      row = tt;
      fits = omega (arith, next);
    } in
    let step = recover_next s x so w within next in
    let rest =
      replay_row (one_more s x so) x es offs (one_more-IsLog s x so w within next)
        (last_of_snoc s.ents x) f.1.1
        (omega (
          arith,
          ap (λ y. y.index) (first_of_append s.ents (x ∷ []) w.has_dummy),
          length-append s.ents (x ∷ []),
        ))
        (omega arith) in
    (
      ap (λ r. replay_from r (zip es offs)) step
          ∙ rest.0
          ∙ ap recovered (many_more_step s x so es offs),
      subst IsLog (many_more_step s x so es offs) rest.1,
    )
