-- ===== src/Raft/Log/Chain.antt =====
-- Rows of log entries: the indexes go up by one, and no term is below the one before.
use vanus.Base.{List, [], ap, arith, length, suc, take, zero, ℕ, ◌++◌, ◌+◌, ◌-◌, ◌<◌, ◌∷◌, ◌≡◌, ◌≤◌}
use vanus.Raft.Log.{
  LogStorage, RaftEntry, add64, compacted_index, entry_or, first_index, last_index,
  last_stable_index, last_term, log_length, stable_length,
}

unfoldable pub Follow : RaftEntry → List RaftEntry → Type 0
Follow prev [] = Unit
Follow prev (e ∷ es) = (e.index ≡ suc prev.index) × ((prev.term ≤ e.term) × Follow e es)

unfoldable pub Chain : List RaftEntry → Type 0
unfolding Follow
Chain [] = Unit
Chain (e ∷ es) = Follow e es

-- A log with its dummy entry, which does not have more offsets than entries, and whose next index
-- is a uint64.
pub record IsLog (s : LogStorage) : Type 0 where
  pub has_dummy : 0 < length s.ents
  pub has_offset : 0 < length s.offs
  pub chain : Chain s.ents
  pub stable : length s.offs ≤ length s.ents
  pub fits : compacted_index s + length s.ents < 18446744073709551616

pub Follow-none : (d : RaftEntry) → Follow d []
unfolding Follow
Follow-none d = tt

pub Follow-take : (n : ℕ) (d : RaftEntry) (es : List RaftEntry) → Follow d es → Follow d (take n es)
unfolding Follow
Follow-take zero d es f = tt
Follow-take (suc n) d [] f = tt
Follow-take (suc n) d (e ∷ es) f = (f.0, (f.1.0, Follow-take n e es f.1.1))

pub Follow-index :
    (i : ℕ) (d : RaftEntry) (es : List RaftEntry)
    → Follow d es
    → i ≤ length es
    → (entry_or (d ∷ es) i).index ≡ d.index + i
unfolding Follow
Follow-index zero d es f h = omega arith
Follow-index (suc i) d [] f h = absurd (omega arith)
Follow-index (suc i) d (e ∷ es) f h = omega (arith, f.0, Follow-index i e es f.1.1 (omega arith))

pub Follow-term :
    (i j : ℕ) (d : RaftEntry) (es : List RaftEntry)
    → Follow d es
    → i ≤ j
    → j ≤ length es
    → (entry_or (d ∷ es) i).term ≤ (entry_or (d ∷ es) j).term
unfolding Follow
Follow-term zero zero d es f h k = omega arith
Follow-term (suc i) zero d es f h k = absurd (omega arith)
Follow-term zero (suc j) d [] f h k = absurd (omega arith)
Follow-term (suc i) (suc j) d [] f h k = absurd (omega arith)
Follow-term zero (suc j) d (e ∷ es) f h k =
    omega (arith, f.1.0, Follow-term zero j e es f.1.1 (omega arith) (omega arith))
Follow-term (suc i) (suc j) d (e ∷ es) f h k =
    Follow-term i j e es f.1.1 (omega arith) (omega arith)

pub Follow-append :
    (d : RaftEntry) (xs : List RaftEntry) (e : RaftEntry) (es : List RaftEntry)
    → Follow d xs
    → e.index ≡ d.index + suc (length xs)
    → (entry_or (d ∷ xs) (length xs)).term ≤ e.term
    → Follow e es
    → Follow d (xs ++ e ∷ es)
unfolding Follow
Follow-append d [] e es f i t g = (omega arith, (t, g))
Follow-append d (x ∷ xs) e es f i t g =
    (f.0, (f.1.0, Follow-append x xs e es f.1.1 (omega (arith, f.0)) t g))

-- What the code reads of a log, without the wrap-around.
pub log_length-eq : (s : LogStorage) → IsLog s → log_length s ≡ length s.ents - 1
log_length-eq s w = omega (arith, w.has_dummy, w.fits)

pub stable_length-eq : (s : LogStorage) → IsLog s → stable_length s ≡ length s.offs - 1
stable_length-eq s w = omega (arith, w.has_offset, w.stable, w.fits)

pub first_index-eq : (s : LogStorage) → IsLog s → first_index s ≡ compacted_index s + 1
first_index-eq s w = omega (arith, w.has_dummy, w.fits)

pub last_index-eq :
    (s : LogStorage) → IsLog s → last_index s + 1 ≡ compacted_index s + length s.ents
last_index-eq s w = omega (arith, w.has_dummy, w.fits)

pub next_index-eq :
    (s : LogStorage) → IsLog s → add64 (last_index s) 1 ≡ compacted_index s + length s.ents
next_index-eq s w = omega (arith, w.has_dummy, w.fits)

pub last_stable_index-eq :
    (s : LogStorage) → IsLog s → last_stable_index s + 1 ≡ compacted_index s + length s.offs
last_stable_index-eq s w = omega (arith, w.has_offset, w.stable, w.fits)

pub Chain-index :
    (ents : List RaftEntry) (i : ℕ)
    → Chain ents
    → i < length ents
    → (entry_or ents i).index ≡ (entry_or ents 0).index + i
unfolding Chain
Chain-index [] i c h = absurd (omega arith)
Chain-index (d ∷ es) i c h = Follow-index i d es c (omega arith)

pub last_term-eq :
    (s : LogStorage) → IsLog s → last_term s ≡ (entry_or s.ents (length s.ents - 1)).term
last_term-eq s w = ap (λ i. (entry_or s.ents i).term) (log_length-eq s w)
