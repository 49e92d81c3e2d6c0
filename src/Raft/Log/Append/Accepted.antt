-- ===== src/Raft/Log/Append/Accepted.antt =====
-- What Append stores, and for which reasons it refuses.
use mathlib.Core.Path.{subst}
use vanus.Base.{
  Bool-cases, List, Option-cases, [], ap, arith, drop, get_elem?, inl, inr, le_of_not_ltb, length,
  length-map, ltb, ltb→lt, map, none, refl, some, suc, sym, take, zero, ℕ, ◌+◌, ◌-◌, ◌<◌, ◌==◌, ◌∙◌,
  ◌∷◌, ◌≡◌, ◌≤◌, ◌⊎◌,
}
use vanus.Raft.Log.{
  LogError, LogStorage, RaftEntry, add64, bad_entry, compacted_index, entries_compacted, entry_or,
  first_index, last_index, last_term, marshal_failed, no_entry, sub64,
}
use vanus.Raft.Log.Chain.{Chain, Follow, IsLog, first_index-eq, last_term-eq, next_index-eq}
use vanus.Raft.Log.Append.{
  Appending, EntryCodec, append_behind, append_entries, append_prepared, drop_compacted, faults,
  marshal_entries, prepare_entries, refused, with_prev, write_entries, written,
}
use vanus.Raft.Log.Append.Prepared.{
  Follow-same, Linked, Linked-same, cleared, cleared-with_prev, drop-Linked, not_prepared_entries,
  prepare_entries-Chain, row-cleared, with_prev-index, with_prev-links, with_prev-term,
}
use vanus.Raft.Log.Append.Stored.{Within, spliced, store-IsLog, store-offs_left, store-spliced}

-- `given` are the entries that Append was called with, but for their previous terms.
abbrev skipped : LogStorage → List RaftEntry → ℕ
skipped s given = first_index s - (entry_or given 0).index

-- The log `after` is the log `s` before the first kept entry, and the kept entries from there on.
pub record IsStored (s : LogStorage) (given : List RaftEntry) (after : LogStorage)
    (kept : List RaftEntry) : Type 0 where
  pub is_log : IsLog after
  pub first : RaftEntry
  pub others : List RaftEntry
  pub kept_are : kept ≡ first ∷ others
  pub within : Within s first others
  pub which : map cleared kept ≡ drop (skipped s given) given
  pub linked : Linked (entry_or s.ents (first.index - first_index s)) kept
  pub whole : after.ents ≡ spliced s first.index kept
  pub offs_left :
      (after.offs ≡ s.offs) ⊎ (after.offs ≡ take (suc (first.index - first_index s)) s.offs)

module _ (codec : EntryCodec) (node : ℕ) (s : LogStorage) (given : List RaftEntry) where
  abbrev pub Reason : LogError → Type 0
  Reason no_entry = length given ≡ 0
  Reason bad_entry =
      (¬ Chain given)
      ⊎ ((compacted_index s + length s.ents < (entry_or given 0).index)
          ⊎ ((entry_or (drop (skipped s given) given) 0).term < last_term s))
  Reason entries_compacted = (entry_or given 0).index + length given ≤ first_index s
  Reason marshal_failed =
      (kept : List RaftEntry) × ((map cleared kept ≡ drop (skipped s given) given)
        × (marshal_entries codec node kept ≡ none))
  Reason _ = ⊥

  abbrev pub Outcome : Appending → Type 0
  Outcome (refused x) = Reason x
  Outcome faults = ⊥
  Outcome (written after kept bytes remark) =
      IsStored s given after kept
      × ((marshal_entries codec node kept ≡ some bytes)
          × (remark ≡ ((entry_or kept 0).index == first_index s)))

-- The last stage: the entries to keep are there.
write-Outcome :
    (codec : EntryCodec) (node : ℕ) (s : LogStorage) (given : List RaftEntry) (index : ℕ)
    (k : RaftEntry) (ks : List RaftEntry)
    → IsLog s
    → Within s k ks
    → k.index ≡ index
    → Linked (entry_or s.ents (k.index - first_index s)) (k ∷ ks)
    → map cleared (k ∷ ks) ≡ drop (skipped s given) given
    → Outcome codec node s given (write_entries codec node s index (k ∷ ks))
unfolding write_entries
write-Outcome codec node s given index k ks w v i b m =
    subst (λ n. Outcome codec node s given (write_entries codec node s n (k ∷ ks))) i
      (elim (Option-cases (marshal_entries codec node (k ∷ ks))) [
        | inl q ↦ rw (q, write_entries) (k ∷ ks, (m, q))
        | inr found ↦
            rw (found.1, write_entries)
              (
                record {
                  is_log = store-IsLog s k ks w v;
                  first = k;
                  others = ks;
                  kept_are = refl;
                  within = v;
                  which = m;
                  linked = b;
                  whole = store-spliced s k ks w v;
                  offs_left = store-offs_left s k.index (k ∷ ks);
                },
                (found.1, refl),
              )
      ])

get_elem?-some :
    (es : List RaftEntry) (i : ℕ) → i < length es → (e : RaftEntry) × (get_elem? es i ≡ some e)
get_elem?-some [] i h = absurd (omega arith)
get_elem?-some (e ∷ es) zero h = (e, refl)
get_elem?-some (e ∷ es) (suc i) h = get_elem?-some es i (omega arith)

get_or-of :
    (es : List RaftEntry) (i : ℕ) (e : RaftEntry) → get_elem? es i ≡ some e → entry_or es i ≡ e
get_or-of [] i e h = absurd (cc)
get_or-of (x ∷ es) zero e h = cc
get_or-of (x ∷ es) (suc i) e h = get_or-of es i e h

-- The first kept entry is linked to the log's entry before it.
stored_link :
    (s : LogStorage) (p k : RaftEntry) (ks : List RaftEntry)
    → get_elem? s.ents (k.index - first_index s) ≡ some p
    → Linked k ks
    → Linked (entry_or s.ents ((with_prev p k).index - first_index s)) (with_prev p k ∷ ks)
stored_link s p k ks h l =
    let at : entry_or s.ents ((with_prev p k).index - first_index s) ≡ p =
      ap (λ i. entry_or s.ents (i - first_index s)) (with_prev-index p k)
      ∙ get_or-of s.ents (k.index - first_index s) p h in
    subst (λ x. Linked x (with_prev p k ∷ ks)) (sym at)
      (with_prev-links p k, Linked-same k (with_prev p k) ks (sym (with_prev-term p k)) l)

behind-Outcome :
    (codec : EntryCodec) (node : ℕ) (s : LogStorage) (given : List RaftEntry) (k : RaftEntry)
    (ks : List RaftEntry)
    → IsLog s
    → Follow k ks
    → Linked k ks
    → k.index + length ks < 18446744073709551615
    → compacted_index s < k.index
    → k.index ≤ compacted_index s + length s.ents
    → map cleared (k ∷ ks) ≡ drop (skipped s given) given
    → Outcome codec node s given (append_behind codec node s (k ∷ ks))
unfolding append_behind
behind-Outcome codec node s given k ks w f linked b l h m =
    let first = first_index-eq s w in
    elim (Bool-cases (ltb k.term (last_term s))) [
      | inl q ↦ rw q (
          inr (
            inr (subst (λ l. (entry_or l 0).term < last_term s) m (ltb→lt k.term (last_term s) q))))
      | inr q ↦
          (let found = get_elem?-some s.ents (k.index - first_index s) (omega (arith, first)) in
            let p = with_prev found.0 k in
            let i = with_prev-index found.0 k in
            let t = with_prev-term found.0 k in
            rw (q, append_behind)
              (rw (found.1, append_behind)
                (write-Outcome codec node s given k.index p ks w
                  (record {
                    from_first = omega (arith, i);
                    to_next = omega (arith, i);
                    no_lower =
                        omega (arith, t, last_term-eq s w, le_of_not_ltb k.term (last_term s) q);
                    row = Follow-same k p ks (sym i) (sym t) f;
                    fits = omega (arith, i);
                  })
                  i (stored_link s found.0 k ks found.1 linked)
                  (ap (λ x. x ∷ map cleared ks) (cleared-with_prev found.0 k) ∙ m))))
    ]

drop-Follow :
    (n : ℕ) (e : RaftEntry) (es : List RaftEntry)
    → Follow e es
    → n ≤ length es
    → (k : RaftEntry) × ((ks : List RaftEntry) × ((drop n (e ∷ es) ≡ k ∷ ks)
          × ((k.index ≡ e.index + n) × ((n + length ks ≡ length es) × Follow k ks))))
unfolding Follow
drop-Follow zero e es f h = (e, (es, (refl, (omega arith, (omega arith, f)))))
drop-Follow (suc n) e [] f h = absurd (omega arith)
drop-Follow (suc n) e (x ∷ xs) f h =
    let r = drop-Follow n x xs f.1.1 (omega arith) in
    (
      r.0,
      (
        r.1.0,
        (r.1.1.0, (omega (arith, r.1.1.1.0, f.0), (omega (arith, r.1.1.1.1.0), r.1.1.1.1.1))),
      ),
    )

drop_compacted-eq :
    (first index : ℕ) (es : List RaftEntry)
    → drop_compacted first index es ≡ drop (first - index) es
unfolding drop_compacted
drop_compacted-eq first index es = elim (Bool-cases (ltb index first)) [
  | inl q ↦ rw q refl
  | inr q ↦ rw q (
      let e : 0 ≡ first - index = omega (arith, le_of_not_ltb index first q) in
      ap (λ n. drop n es) e)
]

drop-map {ℓ κ} :
    {A : Type ℓ} {B : Type κ} (n : ℕ) (xs : List A) (f : A → B)
    → map f (drop n xs) ≡ drop n (map f xs)
drop-map zero xs f = refl
drop-map (suc n) [] f = refl
drop-map (suc n) (x ∷ xs) f = drop-map n xs f

prepared-Outcome :
    (codec : EntryCodec) (node : ℕ) (s : LogStorage) (e : RaftEntry) (es : List RaftEntry)
    → IsLog s
    → Follow e es
    → Linked e es
    → e.index + length (e ∷ es) < 18446744073709551616
    → Outcome codec node s (map cleared (e ∷ es)) (append_prepared codec node s (e ∷ es))
unfolding append_prepared
prepared-Outcome codec node s e es w f linked b =
    let first = first_index-eq s w in
    let next = next_index-eq s w in
    let rindex = sub64 (add64 e.index (length (e ∷ es))) 1 in
    let same = length-map es cleared in
    elim (Bool-cases (ltb (add64 (last_index s) 1) e.index)) [
      | inl q ↦ rw q (inr (inl (omega (arith, next, ltb→lt (add64 (last_index s) 1) e.index q))))
      | inr q ↦ elim (Bool-cases (ltb rindex (first_index s))) [
        | inl r ↦
            rw (q, append_prepared) (rw r (omega (arith, same, ltb→lt rindex (first_index s) r)))
        | inr r ↦
            (let n = first_index s - e.index in
              let cut =
                drop-Follow n e es f
                  (omega (arith, le_of_not_ltb rindex (first_index s) r, first, w.fits)) in
              rw (q, append_prepared)
                (rw r (
                  subst
                    (λ l.
                      Outcome codec node s (map cleared (e ∷ es)) (append_behind codec node s l))
                    (sym (drop_compacted-eq (first_index s) e.index (e ∷ es) ∙ cut.1.1.0))
                    (behind-Outcome codec node s (map cleared (e ∷ es)) cut.0 cut.1.0 w
                      cut.1.1.1.1.1 (drop-Linked n e cut.0 es cut.1.0 linked cut.1.1.0)
                      (omega (arith, cut.1.1.1.0, cut.1.1.1.1.0))
                      (omega (arith, first, cut.1.1.1.0))
                      (omega (
                        arith,
                        next,
                        cut.1.1.1.0,
                        le_of_not_ltb (add64 (last_index s) 1) e.index q,
                        first,
                        w.has_dummy,
                      ))
                      (ap (map cleared) (sym cut.1.1.0) ∙ drop-map n (e ∷ es) cleared)))))
      ]
    ]

-- Append on a log never indexes out of range. What it stores is again a log: the entries before
-- the first new one, then the new ones behind the compacted index, unchanged but for the previous
-- term, which is that of the entry before wherever the terms differ; their bytes go to the write-
-- ahead log. It refuses only an empty call, entries that are no row, that leave a gap or whose
-- term is below the last one's, entries that are all compacted, and entries that cannot be
-- encoded. Indexes are below 2^64.
pub append_entries_lem :
    (codec : EntryCodec) (node : ℕ) (s : LogStorage) (entries : List RaftEntry)
    → IsLog s
    → (entry_or entries 0).index + length entries < 18446744073709551616
    → Outcome codec node s (map cleared entries) (append_entries codec node s entries)
unfolding append_entries Chain
append_entries_lem codec node s [] w b = refl
append_entries_lem codec node s (e ∷ es) w b = elim (Option-cases (prepare_entries (e ∷ es))) [
  | inl q ↦
      rw (q, append_entries)
        (inl (λ c. not_prepared_entries e es q (omega arith) (row-cleared e es c)))
  | inr found ↦
      (let row = prepare_entries-Chain e es found.0 found.1 (omega arith) in
        let same : length row.0 ≡ length es =
          sym (length-map row.0 cleared) ∙ ap length row.1.1.1.0 ∙ length-map es cleared in
        rw (found.1, append_entries)
          (subst (λ l. Outcome codec node s (map cleared (e ∷ es)) (append_prepared codec node s l))
            (sym row.1.0)
            (subst (λ l. Outcome codec node s l (append_prepared codec node s (e ∷ row.0)))
              (ap (λ t. cleared e ∷ t) row.1.1.1.0)
              (prepared-Outcome codec node s e row.0 w row.1.1.0 row.1.1.1.1
                (omega (arith, same))))))
]
