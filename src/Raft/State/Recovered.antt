-- ===== src/Raft/State/Recovered.antt =====
-- The states that are recovered are those that were set.
use vanus.Base.{
  Bool-cases, List, Option, Option-cases, ap, arith, inl, inr, le_of_not_ltb, ltb, none, refl, some,
  sym, ℕ, ◌∙◌, ◌≡◌, ◌≤◌, ◌⊎◌,
}
use vanus.Raft.State.{
  HardState, NodeMeta, StateCodec, StateStorage, Value, bytes_value, decoded, load_hard, loaded,
  new_states, not_below, number_value, recover_applied, recover_conf_state, recover_hard_state,
  recover_state, set_applied, set_commit, set_conf_state, set_hard_state, with_commit, zero_state,
}

module _ (Conf : Type 0) (codec : StateCodec Conf) where
  -- The states of a node after some calls.
  pub data States : StateStorage Conf → Type 0 where
    began : States (new_states Conf codec)
    hard_set :
        (hs : HardState) (s : StateStorage Conf)
        → States s
        → States (set_hard_state Conf codec hs s)
    commit_set : (c : ℕ) (s : StateStorage Conf) → States s → States (set_commit Conf codec c s)
    conf_set :
        (c : Conf) (s : StateStorage Conf) → States s → States (set_conf_state Conf codec c s)
    applied_set : (a : ℕ) (s : StateStorage Conf) → States s → States (set_applied Conf codec a s)

  abbrev HardSaved : HardState → Option Value → Type 0
  HardSaved hs v =
      ((v ≡ none) × ((hs.term ≡ 0) × (hs.vote ≡ 0)))
      ⊎ ((bytes : List ℕ) × ((old : HardState) × ((v ≡ some (bytes_value bytes))
              × ((codec.marshal_hard old ≡ some bytes)
                  × ((old.term ≡ hs.term) × (old.vote ≡ hs.vote))))))

  abbrev NumberSaved : ℕ → Option Value → Type 0
  NumberSaved n v = ((v ≡ none) × (n ≡ 0)) ⊎ (v ≡ some (number_value n))

  abbrev ConfSaved : Conf → Option Value → Type 0
  ConfSaved c v =
      ((v ≡ none) × (c ≡ codec.empty_conf))
      ⊎ ((bytes : List ℕ) × ((v ≡ some (bytes_value bytes)) × (codec.marshal_conf c ≡ some bytes)))

  record IsSaved (s : StateStorage Conf) : Type 0 where
    pub hard_saved : HardSaved s.hard s.store.hard_state
    pub commit_saved : NumberSaved s.hard.commit s.store.commit
    pub conf_saved : ConfSaved s.conf s.store.conf_state
    pub apply_saved : NumberSaved s.apply s.store.applied

  IsSaved-hard :
      (hs : HardState) (s : StateStorage Conf)
      → IsSaved s
      → IsSaved (set_hard_state Conf codec hs s)
  unfolding set_hard_state
  IsSaved-hard hs s v = elim (Option-cases (codec.marshal_hard hs)) [
    | inl q ↦ rw (q, set_hard_state) v
    | inr b ↦
        rw (b.1, set_hard_state)
          (record {
            hard_saved = inr (b.0, (hs, (refl, (b.1, (refl, refl)))));
            commit_saved = v.commit_saved;
            conf_saved = v.conf_saved;
            apply_saved = v.apply_saved;
          })
  ]

  IsSaved-conf :
      (c : Conf) (s : StateStorage Conf) → IsSaved s → IsSaved (set_conf_state Conf codec c s)
  unfolding set_conf_state
  IsSaved-conf c s v = elim (Option-cases (codec.marshal_conf c)) [
    | inl q ↦ rw (q, set_conf_state) v
    | inr b ↦
        rw (b.1, set_conf_state)
          (record {
            hard_saved = v.hard_saved;
            commit_saved = v.commit_saved;
            conf_saved = inr (b.0, (refl, b.1));
            apply_saved = v.apply_saved;
          })
  ]

  States-IsSaved : (s : StateStorage Conf) → States s → IsSaved s
  unfolding set_commit set_applied
  States-IsSaved s began = record {
    hard_saved = inl (refl, (refl, refl));
    commit_saved = inl (refl, refl);
    conf_saved = inl (refl, refl);
    apply_saved = inl (refl, refl);
  }
  States-IsSaved s (hard_set hs t r) = IsSaved-hard hs t (States-IsSaved t r)
  States-IsSaved s (conf_set c t r) = IsSaved-conf c t (States-IsSaved t r)
  States-IsSaved s (commit_set c t r) =
      let v = States-IsSaved t r in
      record {
        hard_saved = v.hard_saved;
        commit_saved = inr refl;
        conf_saved = v.conf_saved;
        apply_saved = v.apply_saved;
      }
  States-IsSaved s (applied_set a t r) =
      let v = States-IsSaved t r in
      record {
        hard_saved = v.hard_saved;
        commit_saved = v.commit_saved;
        conf_saved = v.conf_saved;
        apply_saved = inr refl;
      }

  -- The loader of each state, on what is stored.
  record HardBack (hs : HardState) (m : NodeMeta) : Type 0 where
    pub back : HardState
    pub loads : recover_hard_state Conf codec m ≡ loaded back
    pub term_back : back.term ≡ hs.term
    pub vote_back : back.vote ≡ hs.vote
    pub commit_back : hs.commit ≤ back.commit

  commit_step :
      (hs old : HardState) (v : Option Value)
      → NumberSaved hs.commit v
      → old.term ≡ hs.term
      → old.vote ≡ hs.vote
      → (back : HardState) × ((with_commit Conf codec v old ≡ loaded back)
          × ((back.term ≡ hs.term) × ((back.vote ≡ hs.vote) × (hs.commit ≤ back.commit))))
  commit_step hs old v (inl z) t w =
      (old, (ap (λ x. with_commit Conf codec x old) z.0, (t, (w, omega (arith, z.1)))))
  commit_step hs old v (inr z) t w = elim (Bool-cases (ltb old.commit hs.commit)) [
    | inl q ↦ (
      record old { commit = hs.commit },
      (ap (λ x. with_commit Conf codec x old) z ∙ simp q refl, (t, (w, omega arith))),
    )
    | inr q ↦ (
      old,
      (
        ap (λ x. with_commit Conf codec x old) z ∙ simp q refl,
        (t, (w, le_of_not_ltb old.commit hs.commit q)),
      ),
    )
  ]

  hard_back :
      (hs : HardState) (m : NodeMeta)
      → HardSaved hs m.hard_state
      → NumberSaved hs.commit m.commit
      → HardBack hs m
  unfolding recover_hard_state
  hard_back hs m (inl z) c =
      let step = commit_step hs zero_state m.commit c (sym z.1.0) (sym z.1.1) in
      let l : load_hard Conf codec m.hard_state ≡ loaded zero_state =
        ap (load_hard Conf codec) z.0 in
      record {
        back = step.0;
        loads = rw (l, recover_hard_state) step.1.0;
        term_back = step.1.1.0;
        vote_back = step.1.1.1.0;
        commit_back = step.1.1.1.1;
      }
  hard_back hs m (inr z) c =
      let old = z.1.0 in
      let step = commit_step hs old m.commit c z.1.1.1.1.0 z.1.1.1.1.1 in
      let l : load_hard Conf codec m.hard_state ≡ loaded old =
        ap (load_hard Conf codec) z.1.1.0
        ∙ ap decoded (codec.unmarshal-marshal_hard old z.0 z.1.1.1.0) in
      record {
        back = step.0;
        loads = rw (l, recover_hard_state) step.1.0;
        term_back = step.1.1.0;
        vote_back = step.1.1.1.0;
        commit_back = step.1.1.1.1;
      }

  conf_back :
      (c : Conf) (m : NodeMeta)
      → ConfSaved c m.conf_state
      → recover_conf_state Conf codec m ≡ loaded c
  unfolding recover_conf_state
  conf_back c m (inl z) = rw (z.0, recover_conf_state) (ap loaded (sym z.1))
  conf_back c m (inr z) =
      rw (z.1.0, recover_conf_state) (ap decoded (codec.unmarshal-marshal_conf c z.0 z.1.1))

  applied_back :
      (n : ℕ) (m : NodeMeta) → NumberSaved n m.applied → recover_applied Conf codec m ≡ loaded n
  unfolding recover_applied
  applied_back n m (inl z) = rw (z.0, recover_applied) (ap loaded (sym z.1))
  applied_back n m (inr z) = rw (z, recover_applied) refl

  not_below_lem :
      (low n : ℕ) → (low ≤ not_below Conf codec low n) × (n ≤ not_below Conf codec low n)
  not_below_lem low n = ground arith

  -- What is recovered is what was set; the indexes are not below the compacted one.
  pub record IsBack (low : ℕ) (s back : StateStorage Conf) : Type 0 where
    pub same_term : back.hard.term ≡ s.hard.term
    pub same_vote : back.hard.vote ≡ s.hard.vote
    pub same_conf : back.conf ≡ s.conf
    pub commit_kept : s.hard.commit ≤ back.hard.commit
    pub commit_low : low ≤ back.hard.commit
    pub applied_is : back.apply ≡ not_below Conf codec low s.apply

  -- After whatever calls that set hard state, commit index, configuration and applied index of a
  -- new node, recovery from what the stores then hold succeeds with the same term, vote and
  -- configuration, a commit index that is neither below the one set nor below the compacted index,
  -- and the greater of the applied and the compacted index.
  pub recover-States :
      (low : ℕ) (s : StateStorage Conf)
      → States s
      → (back : StateStorage Conf) × ((recover_state Conf codec low s.store ≡ loaded back)
          × IsBack low s back)
  unfolding recover_state
  recover-States low s r =
      let v = States-IsSaved s r in
      let h = hard_back s.hard s.store v.hard_saved v.commit_saved in
      let c = conf_back s.conf s.store v.conf_saved in
      let a = applied_back s.apply s.store v.apply_saved in
      let b = not_below_lem low h.back.commit in
      (
        record {
          hard = record h.back { commit = not_below Conf codec low h.back.commit };
          conf = s.conf;
          apply = not_below Conf codec low s.apply;
          store = s.store;
        },
        (
          rw (h.loads, recover_state) (rw (c, recover_state) (rw (a, recover_state) refl)),
          record {
            same_term = h.term_back;
            same_vote = h.vote_back;
            same_conf = refl;
            commit_kept = omega (arith, h.commit_back, b.1);
            commit_low = b.0;
            applied_is = refl;
          },
        ),
      )
