-- ===== src/Raft/Log/Append/Kept.antt =====
-- Which of the written entries the log still has, and the offsets that are stored for them.
use native.Mathlib.Decide.{dec_lt}
use mathlib.Core.Path.{subst}
use vanus.Base.{
  ==_iff, Bool-cases, List, ap, arith, different, false, inl, inr, le_of_not_ltb, length,
  length-append, length-take, ltb, ltb-false, refl, same_number, suc, sym, take, true, zero, ℕ, ◌+◌,
  ◌-◌, ◌<◌, ◌==◌, ◌∙◌, ◌≡◌, ◌≤◌,
}
use vanus.Raft.Log.{
  LogStorage, RaftEntry, TermAnswer, add64, compacted_index, entry_or, first_index, last_index,
  last_stable_index, log_term, no_term, term_is,
}
use vanus.Raft.Log.Chain.{IsLog, first_index-eq, last_stable_index-eq}
use vanus.Raft.Log.Append.{kept_of, offsets_before, offsets_fault, still_there, store_offsets}

-- The log has the entry, with its term.
abbrev pub InLog : LogStorage → RaftEntry → Type 0
InLog s e = log_term s e.index ≡ term_is e.term

still_there-InLog : (s : LogStorage) (e : RaftEntry) → still_there s e ≡ true → InLog s e
unfolding still_there
still_there-InLog s e h = found (log_term s e.index) refl
  where
    found : (a : TermAnswer) → log_term s e.index ≡ a → InLog s e
    found (term_is t) q =
        let r : (t == e.term) ≡ true = sym (rw (q, still_there) refl) ∙ h in
        q ∙ ap term_is ((==_iff t e.term).0 r)
    found (no_term x) q = absurd (let r : false ≡ true = sym (rw (q, still_there) refl) ∙ h in cc)

not_there : (s : LogStorage) (e : RaftEntry) → still_there s e ≡ false → ¬ InLog s e
unfolding still_there
not_there s e h q =
    let r : still_there s e ≡ true = rw (q, still_there) (same_number e.term) in absurd (cc)

still_there-le : (s : LogStorage) (e : RaftEntry) → still_there s e ≡ true → e.index ≤ last_index s
unfolding still_there log_term
still_there-le s e h = elim (Bool-cases (ltb e.index (compacted_index s))) [
  | inl q ↦ absurd (let f : still_there s e ≡ false = rw (q, still_there, log_term) refl in cc)
  | inr q ↦ elim (Bool-cases (ltb (last_index s) e.index)) [
    | inl r ↦ absurd (
        let f : still_there s e ≡ false =
          rw (q, still_there, log_term) (rw (r, still_there, log_term) refl) in
        cc)
    | inr r ↦ le_of_not_ltb (last_index s) e.index r
  ]
]

-- The entry at which the loop stops is still in the log.
pub kept_of-last :
    (s : LogStorage) (entries : List RaftEntry) (n end : ℕ)
    → kept_of s entries n ≡ suc end
    → (end < n) × ((entry_or entries end).index ≤ last_index s)
unfolding kept_of
kept_of-last s entries zero end h = absurd (cc)
kept_of-last s entries (suc n) end h = elim (Bool-cases (still_there s (entry_or entries n))) [
  | inl q ↦
      (let e : suc n ≡ suc end = sym (rw (q, kept_of) refl) ∙ h in
        let i : n ≡ end = omega arith in
        (
          omega arith,
          subst (λ k. (entry_or entries k).index ≤ last_index s) i
              (still_there-le s (entry_or entries n) q),
        ))
  | inr q ↦
      (let r = kept_of-last s entries n end (sym (rw (q, kept_of) refl) ∙ h) in
        (omega (arith, r.0), r.1))
]

-- The loop stops at an entry that the log has, or at the front, and passed none that it has.
abbrev pub NoneAbove : LogStorage → List RaftEntry → ℕ → ℕ → Type 0
NoneAbove s entries low n = (i : ℕ) → low ≤ i → i < n → ¬ InLog s (entry_or entries i)

pub kept_of-none :
    (s : LogStorage) (entries : List RaftEntry) (n : ℕ)
    → NoneAbove s entries (kept_of s entries n) n
unfolding kept_of
kept_of-none s entries zero i a b = absurd (omega arith)
kept_of-none s entries (suc n) i a b = elim (Bool-cases (still_there s (entry_or entries n))) [
  | inl q ↦
      absurd
        (let e : kept_of s entries (suc n) ≡ suc n = rw (q, kept_of) refl in omega (arith, e, a, b))
  | inr q ↦
      (let e : kept_of s entries (suc n) ≡ kept_of s entries n = rw (q, kept_of) refl in
        let low : kept_of s entries n ≤ i = omega (arith, e, a) in
        elim (dec_lt i n) [
          | yes below ↦ kept_of-none s entries n i low below
          | no up ↦
              (let at : n ≡ i = omega (arith, b, up) in
                subst (λ k. ¬ InLog s (entry_or entries k)) at (not_there s (entry_or entries n) q))
        ])
]

pub kept_of-InLog :
    (s : LogStorage) (entries : List RaftEntry) (n end : ℕ)
    → kept_of s entries n ≡ suc end
    → InLog s (entry_or entries end)
unfolding kept_of
kept_of-InLog s entries zero end h = absurd (cc)
kept_of-InLog s entries (suc n) end h = elim (Bool-cases (still_there s (entry_or entries n))) [
  | inl q ↦
      (let e : suc n ≡ suc end = sym (rw (q, kept_of) refl) ∙ h in
        let i : n ≡ end = omega arith in
        subst (λ k. InLog s (entry_or entries k)) i (still_there-InLog s (entry_or entries n) q))
  | inr q ↦ kept_of-InLog s entries n end (sym (rw (q, kept_of) refl) ∙ h)
]

pub offsets_before-eq :
    (s : LogStorage) (index : ℕ)
    → IsLog s
    → compacted_index s < index
    → index ≤ last_stable_index s + 1
    → offsets_before s index ≡ index - first_index s + 1
offsets_before-eq s index w a b =
    omega (arith, first_index-eq s w, last_stable_index-eq s w, w.stable, w.fits, w.has_offset)

pub no_fault :
    (s : LogStorage) (index : ℕ)
    → IsLog s
    → compacted_index s < index
    → index ≤ last_stable_index s + 1
    → offsets_fault s index ≡ false
unfolding offsets_fault
no_fault s index w a b = elim (Bool-cases (index == add64 (last_stable_index s) 1)) [
  | inl q ↦ rw q
  | inr q ↦ rw q (
      ltb-false (length s.offs) (offsets_before s index) (
        omega (
          arith,
          offsets_before-eq s index w a b,
          different index (add64 (last_stable_index s) 1) q,
          first_index-eq s w,
          last_stable_index-eq s w,
          w.stable,
          w.fits,
          w.has_offset,
        )))
]

pub store_offsets-length :
    (s : LogStorage) (index : ℕ) (offsets : List ℕ)
    → IsLog s
    → compacted_index s < index
    → index ≤ last_stable_index s + 1
    → length (store_offsets s index offsets) ≡ index - compacted_index s + length offsets
unfolding store_offsets
store_offsets-length s index offsets w a b =
    let li = last_stable_index-eq s w in
    let first = first_index-eq s w in
    let i = index - first_index s + 1 in
    let next = add64 (last_stable_index s) 1 in
    elim (Bool-cases (index == next)) [
      | inl q ↦ rw q (
          omega (
            arith,
            length-append s.offs offsets,
            li,
            (==_iff index next).0 q,
            w.stable,
            w.fits,
            w.has_offset,
          ))
      | inr q ↦
          rw (q, offsets_before-eq s index w a b)
            (omega (
              arith,
              length-append (take i s.offs) offsets,
              length-take i s.offs,
              li,
              first,
              different index next q,
              w.stable,
              w.fits,
              w.has_offset,
            ))
    ]
