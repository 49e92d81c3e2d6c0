-- ===== src/Raft/Log/Append/Stored.antt =====
-- The log after entries are stored in it.
use mathlib.Core.Path.{subst}
use vanus.Base.{
  ==_iff, Bool-cases, List, [], ap, arith, inl, inr, le_of_not_ltb, length, length-append,
  length-take, ltb, refl, suc, sym, take, take_all, zero, ℕ, ◌++◌, ◌+◌, ◌-◌, ◌<◌, ◌==◌, ◌∙◌, ◌∷◌,
  ◌≡◌, ◌≤◌, ◌⊎◌,
}
use vanus.Raft.Log.{
  LogStorage, RaftEntry, add64, compacted_index, entry_or, first_index, last_index,
  last_stable_index,
}
use vanus.Raft.Log.Chain.{
  Chain, Follow, IsLog, first_index-eq, Follow-append, Follow-take, Follow-term,
  last_stable_index-eq, next_index-eq,
}
use vanus.Raft.Log.Append.{store_entries}

last_of_take :
    (n : ℕ) (d : RaftEntry) (xs : List RaftEntry)
    → n ≤ length xs
    → entry_or (d ∷ take n xs) (length (take n xs)) ≡ entry_or (d ∷ xs) n
last_of_take zero d xs h = refl
last_of_take (suc n) d [] h = absurd (omega arith)
last_of_take (suc n) d (x ∷ xs) h = last_of_take n x xs (omega arith)

pub first_of_take :
    (n : ℕ) (xs ys : List RaftEntry)
    → 0 < length xs
    → entry_or (take (suc n) xs ++ ys) 0 ≡ entry_or xs 0
first_of_take n [] ys h = absurd (omega arith)
first_of_take n (x ∷ xs) ys h = refl

-- A row cut behind its first `n + 1` entries and continued by a row of no lower term.
pub splice-Chain :
    (ents : List RaftEntry) (n : ℕ) (k : RaftEntry) (ks : List RaftEntry)
    → Chain ents
    → n < length ents
    → k.index ≡ (entry_or ents 0).index + suc n
    → (entry_or ents (length ents - 1)).term ≤ k.term
    → Follow k ks
    → Chain (take (suc n) ents ++ k ∷ ks)
unfolding Chain
splice-Chain [] n k ks c h i t f = absurd (omega arith)
splice-Chain (d ∷ xs) n k ks c h i t f =
    let m : n ≤ length xs = omega arith in
    let j : length (d ∷ xs) - 1 ≡ length xs = omega arith in
    let t : (entry_or (d ∷ xs) (length xs)).term ≤ k.term =
      subst (λ l. (entry_or (d ∷ xs) l).term ≤ k.term) j t in
    Follow-append d (take n xs) k ks (Follow-take n d xs c) (omega (arith, length-take n xs))
      (rw (last_of_take n d xs m) (omega (arith, Follow-term n (length xs) d xs c m (omega arith))))
      f

-- The entries of the log before an index, and those that are stored from it on.
abbrev pub spliced : LogStorage → ℕ → List RaftEntry → List RaftEntry
spliced s index kept = take (suc (index - first_index s)) s.ents ++ kept

pub record Within (s : LogStorage) (k : RaftEntry) (ks : List RaftEntry) : Type 0 where
  pub from_first : compacted_index s < k.index
  pub to_next : k.index ≤ compacted_index s + length s.ents
  pub no_lower : (entry_or s.ents (length s.ents - 1)).term ≤ k.term
  pub row : Follow k ks
  pub fits : k.index + suc (length ks) < 18446744073709551616

pub store-spliced :
    (s : LogStorage) (k : RaftEntry) (ks : List RaftEntry)
    → IsLog s
    → Within s k ks
    → (store_entries s k.index (k ∷ ks)).ents ≡ spliced s k.index (k ∷ ks)
unfolding store_entries
store-spliced s k ks w v =
    let first = first_index-eq s w in
    let next = next_index-eq s w in
    elim (Bool-cases (k.index == add64 (last_index s) 1)) [
      | inl q ↦ rw q (
          ap (λ t. t ++ k ∷ ks)
            (sym (
              take_all (suc (k.index - first_index s)) s.ents
                (omega (arith, first, next, (==_iff k.index (add64 (last_index s) 1)).0 q)))))
      | inr q ↦
          rw q (ap (λ j. take j s.ents ++ k ∷ ks) {y = suc (k.index - first_index s)} (omega arith))
    ]

-- The offsets that are kept are those of entries that are kept, and the one after at most.
store-offs :
    (s : LogStorage) (k : RaftEntry) (ks : List RaftEntry)
    → IsLog s
    → Within s k ks
    → let offs = (store_entries s k.index (k ∷ ks)).offs in
      (0 < length offs) × (length offs ≤ suc (k.index - compacted_index s))
unfolding store_entries
store-offs s k ks w v =
    let next = next_index-eq s w in
    let first = first_index-eq s w in
    let last = last_stable_index-eq s w in
    elim (Bool-cases (k.index == add64 (last_index s) 1)) [
      | inl q ↦ rw q (
        w.has_offset,
        omega (arith, w.stable, next, (==_iff k.index (add64 (last_index s) 1)).0 q),
      )
      | inr q ↦ rw q (elim (Bool-cases (ltb k.index (last_stable_index s))) [
        | inl r ↦ rw r (
            let l = length-take (k.index - first_index s + 1) s.offs in
            (omega (arith, l, w.has_offset), omega (arith, l, v.from_first, first)))
        | inr r ↦
            rw r (w.has_offset, omega (arith, last, le_of_not_ltb k.index (last_stable_index s) r))
      ])
    ]

-- A log that goes on with other entries from an index on is a log.
pub spliced-IsLog :
    (s after : LogStorage) (k : RaftEntry) (ks : List RaftEntry)
    → IsLog s
    → Within s k ks
    → after.ents ≡ spliced s k.index (k ∷ ks)
    → 0 < length after.offs
    → length after.offs ≤ k.index - compacted_index s + suc (length ks)
    → IsLog after
spliced-IsLog s after k ks w v whole some_off few_offs =
    let n = k.index - first_index s in
    let first = first_index-eq s w in
    let long : length after.ents ≡ suc n + suc (length ks) =
      ap length whole
      ∙ length-append (take (suc n) s.ents) (k ∷ ks)
      ∙ ap (λ m. m + suc (length ks)) (length-take (suc n) s.ents)
      ∙ omega (arith, first, v.from_first, v.to_next) in
    let row : Chain after.ents = subst Chain (sym whole) (
      splice-Chain s.ents n k ks w.chain (omega (arith, first)) (omega (arith, first)) v.no_lower
        v.row) in
    let dummy : compacted_index after ≡ compacted_index s =
      ap (λ es. (entry_or es 0).index) whole
      ∙ ap (λ e. e.index) (first_of_take n s.ents (k ∷ ks) w.has_dummy) in
    record {
      has_dummy = omega (arith, long);
      has_offset = some_off;
      chain = row;
      stable = omega (arith, long, few_offs, first, v.from_first);
      fits = omega (arith, long, dummy, first, v.fits);
    }

pub store-IsLog :
    (s : LogStorage) (k : RaftEntry) (ks : List RaftEntry)
    → IsLog s
    → Within s k ks
    → IsLog (store_entries s k.index (k ∷ ks))
store-IsLog s k ks w v =
    let offs = store-offs s k ks w v in
    spliced-IsLog s (store_entries s k.index (k ∷ ks)) k ks w v (store-spliced s k ks w v) offs.0
      (omega (arith, offs.1))

-- At the next index nothing is cut off.
pub spliced_at_end :
    (s : LogStorage) (index : ℕ) (kept : List RaftEntry)
    → IsLog s
    → index ≡ compacted_index s + length s.ents
    → spliced s index kept ≡ s.ents ++ kept
spliced_at_end s index kept w i =
    ap (λ t. t ++ kept)
      (take_all (suc (index - first_index s)) s.ents (omega (arith, i, first_index-eq s w)))

pub store-offs_left :
    (s : LogStorage) (index : ℕ) (kept : List RaftEntry)
    → let offs = (store_entries s index kept).offs in
      (offs ≡ s.offs) ⊎ (offs ≡ take (suc (index - first_index s)) s.offs)
unfolding store_entries
store-offs_left s index kept = elim (Bool-cases (index == add64 (last_index s) 1)) [
  | inl q ↦ rw q (inl refl)
  | inr q ↦
      rw (q, store_entries)
        (elim (Bool-cases (ltb index (last_stable_index s))) [
          | inl r ↦
              rw r (inr (ap (λ i. take i s.offs) {y = suc (index - first_index s)} (omega arith)))
          | inr r ↦ rw r (inl refl)
        ])
]
