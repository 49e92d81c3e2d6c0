-- ===== src/Raft/Compact/Kept.antt =====
-- What a log answers after Compact.
use mathlib.Core.Path.{subst}
use vanus.Base.{
  ==_iff, Bool-cases, List, [], ap, arith, drop, drop_all, get_or, inl, inr, length, length-drop,
  not_zero, refl, suc, sym, zero, ℕ, ◌+◌, ◌-◌, ◌<◌, ◌==◌, ◌∙◌, ◌∷◌, ◌≡◌, ◌≤◌,
}
use vanus.Raft.Log.{
  LogStorage, RaftEntry, compacted_index, entry_or, last_stable_index, log_length, stable_length,
  sub64,
}
use vanus.Raft.Log.Chain.{
  Chain, Follow, IsLog, Chain-index, last_stable_index-eq, log_length-eq, stable_length-eq,
}
use vanus.Raft.Compact.{compact_dummy, remaining_ents, remaining_offs}

abbrev pub after_compact : LogStorage → ℕ → LogStorage
after_compact s sz = record s {
  ents = compact_dummy (entry_or s.ents sz) ∷ remaining_ents s sz;
  offs = remaining_offs s sz;
}

remaining-drop :
    (s : LogStorage) (sz : ℕ)
    → IsLog s
    → sz < length s.ents
    → remaining_ents s sz ≡ drop (sz + 1) s.ents
unfolding remaining_ents
remaining-drop s sz w h = elim (Bool-cases (sub64 (log_length s) sz == 0)) [
  | inl q ↦ rw q (
      sym (
        drop_all (sz + 1) s.ents
          (omega (arith, log_length-eq s w, w.fits, (==_iff (sub64 (log_length s) sz) 0).0 q))))
  | inr q ↦ rw q refl
]

remaining_offs-length :
    (s : LogStorage) (sz : ℕ)
    → IsLog s
    → 0 < sz
    → sz < length s.offs
    → length (remaining_offs s sz) ≡ length s.offs - sz
unfolding remaining_offs
remaining_offs-length s sz w p h =
    let l = log_length-eq s w in
    let t = stable_length-eq s w in
    elim (Bool-cases (sub64 (log_length s) sz == 0)) [
      | inl q ↦ rw q (omega (arith, l, w.fits, w.stable, (==_iff (sub64 (log_length s) sz) 0).0 q))
      | inr q ↦ elim (Bool-cases (sub64 (stable_length s) sz == 0)) [
        | inl r ↦
            rw (q, remaining_offs)
              (rw r
                (omega (arith, t, w.fits, w.stable, (==_iff (sub64 (stable_length s) sz) 0).0 r)))
        | inr r ↦ rw (q, remaining_offs) (rw r (omega (arith, length-drop (sz + 1) s.offs, h)))
      ]
    ]

Follow-drop :
    (n : ℕ) (d : RaftEntry) (es : List RaftEntry)
    → Follow d es
    → Follow (compact_dummy (entry_or (d ∷ es) n)) (drop n es)
unfolding Follow
Follow-drop zero d [] f = tt
Follow-drop zero d (e ∷ es) f = (f.0, (f.1.0, f.1.1))
Follow-drop (suc n) d [] f = tt
Follow-drop (suc n) d (e ∷ es) f = Follow-drop n e es f.1.1

Chain-drop :
    (ents : List RaftEntry) (n : ℕ)
    → Chain ents
    → n < length ents
    → Follow (compact_dummy (entry_or ents n)) (drop (n + 1) ents)
unfolding Chain
Chain-drop [] n c h = absurd (omega arith)
Chain-drop (d ∷ es) n c h =
    subst (λ k. Follow (compact_dummy (entry_or (d ∷ es) n)) (drop k (d ∷ es))) {x = suc n}
      (omega arith) (Follow-drop n d es c)

entry_or-drop : (n j : ℕ) (ents : List RaftEntry) → entry_or (drop n ents) j ≡ entry_or ents (n + j)
entry_or-drop zero j ents = ap (entry_or ents) (omega arith)
entry_or-drop (suc n) j [] = refl
entry_or-drop (suc n) j (e ∷ es) =
    entry_or-drop n j es ∙ ap (entry_or (e ∷ es)) {x = suc (n + j)} (omega arith)

-- The index and the term of each entry that is left, the compacted one included.
kept_at :
    (ents : List RaftEntry) (n j : ℕ)
    → let left = compact_dummy (entry_or ents n) ∷ drop (n + 1) ents in
      ((entry_or left j).index ≡ (entry_or ents (n + j)).index)
      × ((entry_or left j).term ≡ (entry_or ents (n + j)).term)
kept_at ents n zero =
    let e : entry_or ents n ≡ entry_or ents (n + 0) = ap (entry_or ents) (omega arith) in
    (ap (λ x. x.index) e, ap (λ x. x.term) e)
kept_at ents n (suc j) =
    let e : entry_or (drop (n + 1) ents) j ≡ entry_or ents (n + suc j) =
      entry_or-drop (n + 1) j ents ∙ ap (entry_or ents) (omega arith) in
    (ap (λ x. x.index) e, ap (λ x. x.term) e)

pub compact-IsLog :
    (s : LogStorage) (sz : ℕ) → IsLog s → 0 < sz → sz < length s.offs → IsLog (after_compact s sz)
unfolding Chain
compact-IsLog s sz w p h =
    let l : sz < length s.ents = omega (arith, w.stable) in
    let offs = remaining_offs-length s sz w p h in
    let left = remaining-drop s sz w l in
    let long : length (remaining_ents s sz) ≡ length s.ents - (sz + 1) =
      ap length left ∙ length-drop (sz + 1) s.ents in
    record {
      has_dummy = omega arith;
      has_offset = omega (arith, offs);
      chain =
          subst (Follow (compact_dummy (entry_or s.ents sz))) (sym left)
            (Chain-drop s.ents sz w.chain l);
      stable = omega (arith, offs, long, w.stable);
      fits = omega (arith, long, Chain-index s.ents sz w.chain l, w.fits);
    }

-- The log after Compact, at a compacted index.
pub record IsCompacted (s after : LogStorage) (i : ℕ) : Type 0 where
  pub is_log : IsLog after
  pub index_is : compacted_index after ≡ i
  pub last_is : compacted_index after + length after.ents ≡ compacted_index s + length s.ents
  pub term_is :
      (j : ℕ) → (entry_or after.ents j).term ≡ (entry_or s.ents (i - compacted_index s + j)).term
  pub left :
      after.ents
      ≡ compact_dummy (entry_or s.ents (i - compacted_index s))
        ∷ drop (i - compacted_index s + 1) s.ents

pub after-IsCompacted :
    (s : LogStorage) (i : ℕ)
    → IsLog s
    → compacted_index s < i
    → i ≤ last_stable_index s
    → IsCompacted s (after_compact s (i - compacted_index s)) i
after-IsCompacted s i w p h =
    let sz = i - compacted_index s in
    let b : sz < length s.offs = omega (arith, last_stable_index-eq s w) in
    let l : sz < length s.ents = omega (arith, b, w.stable) in
    let left = remaining-drop s sz w l in
    let whole = ap (λ t. compact_dummy (entry_or s.ents sz) ∷ t) left in
    let at = Chain-index s.ents sz w.chain l in
    record {
      is_log = compact-IsLog s sz w (omega arith) b;
      index_is = omega (arith, at);
      last_is = omega (arith, at, ap length left, length-drop (sz + 1) s.ents);
      term_is = λ j. ap (λ es. (entry_or es j).term) whole ∙ (kept_at s.ents sz j).1;
      left = whole;
    }

-- Where an entry behind the compacted ones is stable, its offset is the first that is left.
pub remaining_offs-first :
    (s : LogStorage) (sz : ℕ)
    → IsLog s
    → sz + 1 < length s.offs
    → remaining_offs s sz ≡ get_or (drop (sz + 1) s.offs) 0 0 ∷ drop (sz + 1) s.offs
unfolding remaining_offs
remaining_offs-first s sz w h = simp (
  not_zero (sub64 (log_length s) sz) (omega (arith, log_length-eq s w, w.fits, w.stable, h)),
  not_zero (sub64 (stable_length s) sz) (omega (arith, stable_length-eq s w, w.fits, w.stable, h)),
)
