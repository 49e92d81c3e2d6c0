-- ===== src/Raft/Snapshot/Applied.antt =====
-- A snapshot of one node, applied by another.
use vanus.Base.{
  Bool, List, Option, Option-cases, [], ap, arith, get_or, inl, inr, leb-false, ltb-false, refl,
  some, sym, true, ℕ, ◌+◌, ◌-◌, ◌<◌, ◌∙◌, ◌∷◌, ◌≡◌, ◌⊎◌,
}
use vanus.Raft.Log.{
  LogError, LogStorage, TermAnswer, last_index, log_term, no_term, snapshot_failed,
  snapshot_unavailable, term_is, zero_entry,
}
use vanus.Raft.Log.Chain.{Chain, Follow, IsLog}
use vanus.Raft.Log.Append.{CompactTask}
use vanus.Raft.State.{StateCodec, StateStorage, set_applied}
use vanus.Raft.Snapshot.{
  RaftSnapshot, apply_raft_snapshot, from_snapshot, no_snapshot, snapshot_applied, snapshot_is,
  take_snapshot,
}

TermAnswer-cases :
    (a : TermAnswer) → ((t : ℕ) × (a ≡ term_is t)) ⊎ ((x : LogError) × (a ≡ no_term x))
TermAnswer-cases (term_is t) = inl (t, refl)
TermAnswer-cases (no_term x) = inr (x, refl)

-- The log that a snapshot leaves.
snapshot_log : LogStorage → ℕ → ℕ → LogStorage
snapshot_log f term index = record f {
  ents = record zero_entry { term = term; index = index } ∷ [];
  offs = 0 ∷ [];
}

snapshot_log-IsLog :
    (f : LogStorage) (term index : ℕ)
    → index + 1 < 18446744073709551616
    → IsLog (snapshot_log f term index)
unfolding snapshot_log Chain Follow
snapshot_log-IsLog f term index h = record {
  has_dummy = omega arith;
  has_offset = omega arith;
  chain = tt;
  stable = omega arith;
  fits = omega arith;
}

snapshot_log-term :
    (f : LogStorage) (term index : ℕ)
    → index + 1 < 18446744073709551616
    → log_term (snapshot_log f term index) index ≡ term_is term
unfolding snapshot_log log_term
snapshot_log-term f term index h =
    let e : index - index ≡ 0 = omega arith in
    simp (
      ltb-false index index (omega arith),
      ltb-false (last_index (snapshot_log f term index)) index (omega arith),
      e,
    )

module _ (Conf : Type 0) where
  -- What a snapshot holds.
  record IsTaken (get : ℕ → Option (List ℕ)) (l : LogStorage) (s : StateStorage Conf)
      (snap : RaftSnapshot Conf) : Type 0 where
    pub index_is : s.apply ≡ snap.index
    pub term_there : log_term l s.apply ≡ term_is snap.term
    pub contents_are : get s.apply ≡ some snap.contents

  snapshot-IsTaken :
      (get : ℕ → Option (List ℕ)) (l : LogStorage) (s : StateStorage Conf)
      (snap : RaftSnapshot Conf)
      → take_snapshot Conf (some get) l s ≡ snapshot_is snap
      → IsTaken get l s snap
  unfolding take_snapshot
  snapshot-IsTaken get l s snap h = elim (TermAnswer-cases (log_term l s.apply)) [
    | inr x ↦ absurd (
        let r : no_snapshot snapshot_unavailable ≡ snapshot_is snap =
          sym (rw (x.1, take_snapshot) refl) ∙ h in
        cc)
    | inl t ↦ elim (Option-cases (get s.apply)) [
      | inl q ↦ absurd (
          let r : no_snapshot snapshot_failed ≡ snapshot_is snap =
            sym (rw (t.1, take_snapshot) (rw (q, take_snapshot) refl)) ∙ h in
          cc)
      | inr b ↦
          (let made : RaftSnapshot Conf = record {
            conf = s.conf;
            index = s.apply;
            term = t.0;
            contents = b.0;
          } in
            let r : snapshot_is made ≡ snapshot_is snap =
              sym (rw (t.1, take_snapshot) (rw (b.1, take_snapshot) refl)) ∙ h in
            let e : made ≡ snap = cc in
            record {
              index_is = ap (λ x. x.index) e;
              term_there = t.1 ∙ ap (λ x. term_is x.term) e;
              contents_are = b.1 ∙ ap (λ x. some x.contents) e;
            })
    ]
  ]

  -- A snapshot that one node took, applied by another whose last index is below it and whose
  -- operator succeeds, leaves a log of which the last and the applied index are the first node's
  -- applied index, Term there answers as on the first node, and what the operator was given is
  -- what the first node's operator gave for that index. The index after it is a uint64.
  pub apply-take :
      (codec : StateCodec Conf) (get : ℕ → Option (List ℕ)) (succeeds : List ℕ → Bool) (node : ℕ)
      (l f : LogStorage) (s t : StateStorage Conf) (snap : RaftSnapshot Conf)
      → take_snapshot Conf (some get) l s ≡ snapshot_is snap
      → last_index f < snap.index
      → snap.index + 1 < 18446744073709551616
      → succeeds snap.contents ≡ true
      → (after : LogStorage) × ((states : StateStorage Conf) × ((task : CompactTask)
            × ((apply_raft_snapshot Conf codec succeeds node f t snap
                  ≡ snapshot_applied after states task)
                × (IsLog after
                    × ((last_index after ≡ s.apply)
                        × ((log_term after s.apply ≡ log_term l s.apply)
                            × ((get s.apply ≡ some snap.contents) × (states.apply ≡ s.apply))))))))
  unfolding apply_raft_snapshot from_snapshot set_applied snapshot_log
  apply-take codec get succeeds node l f s t snap h a b o =
      let taken = snapshot-IsTaken get l s snap h in
      let after = snapshot_log f snap.term snap.index in
      let w = snapshot_log-IsLog f snap.term snap.index b in
      (
        after,
        (
          set_applied Conf codec snap.index t,
          (
            record {
              node = node;
              offset = 0;
              last = get_or f.offs 0 0;
              tail = 0;
              info_index = snap.index;
              info_term = snap.term;
            },
            (
              simp (leb-false snap.index (last_index f) a, o),
              (
                w,
                (
                  omega (arith, taken.index_is),
                  (
                    ap (log_term after) taken.index_is
                        ∙ snapshot_log-term f snap.term snap.index b
                        ∙ sym taken.term_there,
                    (taken.contents_are, sym taken.index_is),
                  ),
                ),
              ),
            ),
          ),
        ),
      )
