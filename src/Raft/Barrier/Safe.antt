-- ===== src/Raft/Barrier/Safe.antt =====
-- The write-ahead log is not compacted behind a barrier of a node that is there.
use vanus.Base.{
  ==_iff, Bool, Bool-cases, Option, Option-cases, ap, arith, false, if◌then◌else◌, inl, inr, none,
  refl, some, suc, sym, zero, ℕ, ◌&&◌, ◌<◌, ◌==◌, ◌∙◌, ◌≡◌, ◌≤◌, ◌⊎◌,
}
use vanus.Base.OffsetMap.{OffsetMap}
use vanus.Raft.Barrier.{WalState, do_compact, is_stale, next_offset, node_known, sync_compact}

module _ (om : OffsetMap) where
  -- The barrier of a node that is there.
  pub record Guards (w : WalState om) (k id : ℕ) : Type 0 where
    pub placed : om.get w.barrier k ≡ some id
    pub live : Bool
    pub known : node_known w.nodes id ≡ some live

  -- The first barrier, if its node is gone, is another one.
  other_key :
      (w : WalState om) (k id k' id' : ℕ)
      → Guards w k id
      → om.front w.barrier ≡ some (k', id')
      → node_known w.nodes id' ≡ none
      → (k' == k) ≡ false
  other_key w k id k' id' g f q = elim (Bool-cases (k' == k)) [
    | inr r ↦ r
    | inl t ↦ absurd (
        let e = (==_iff k' k).0 t in
        let a = om.get-front k' id' w.barrier f in
        let b : om.get w.barrier k' ≡ some id = ap (om.get w.barrier) e ∙ g.placed in
        let same : id' ≡ id = cc in
        let n : node_known w.nodes id ≡ none = ap (node_known w.nodes) (sym same) ∙ q in
        let known = g.known in cc)
  ]

  pub record IsAdvanced (w after : WalState om) (k id : ℕ) : Type 0 where
    pub guards : Guards after k id
    pub within : after.ctx.to_compact ≤ k

  next_offset-IsAdvanced :
      (fuel : ℕ) (w : WalState om) (k id : ℕ)
      → om.len w.barrier < fuel
      → Guards w k id
      → (after : WalState om) × ((next_offset om fuel w ≡ some after) × IsAdvanced w after k id)
  unfolding next_offset
  next_offset-IsAdvanced zero w k id h g = absurd (omega arith)
  next_offset-IsAdvanced (suc fuel) w k id h g = elim (Option-cases (om.front w.barrier)) [
    | inl q ↦ absurd (let n = om.no_front k w.barrier q in let p = g.placed in cc)
    | inr front ↦ elim (Option-cases (node_known w.nodes front.0.1)) [
      | inr b ↦ (
        record w { ctx = record w.ctx { to_compact = front.0.0 } },
        (
          rw (front.1, next_offset) (rw (b.1, next_offset) refl),
          record {
            guards = record { placed = g.placed; live = g.live; known = g.known };
            within = om.front-le front.0.0 front.0.1 k id w.barrier front.1 g.placed;
          },
        ),
      )
      | inl q ↦
          (let k' = front.0.0 in
            let rest : WalState om = record w { barrier = om.remove k' w.barrier } in
            let other : (k' == k) ≡ false = other_key w k id k' front.0.1 g front.1 q in
            let kept : om.get rest.barrier k ≡ some id =
              om.get-remove k' k w.barrier
              ∙ ap (λ t. if t then none else om.get w.barrier k) other
              ∙ g.placed in
            let r =
              next_offset-IsAdvanced fuel rest k id
                (omega (arith, om.len-remove k' front.0.1 w.barrier front.1))
                (record { placed = kept; live = g.live; known = g.known }) in
            (
              r.0,
              (
                rw (front.1, next_offset) (rw (q, next_offset) r.1.0),
                record { guards = r.1.1.guards; within = r.1.1.within },
              ),
            ))
    ]
  ]

  sync-bound :
      (synced : Bool) (w : WalState om) (k id : ℕ)
      → Guards w k id
      → w.ctx.to_compact ≤ k
      → Guards (sync_compact om synced w).0 k id
        × (((sync_compact om synced w).1 ≡ none)
            ⊎ ((c : ℕ) × (((sync_compact om synced w).1 ≡ some c) × (c ≤ k))))
  unfolding sync_compact
  sync-bound synced w k id g h = elim (Bool-cases (is_stale om w.ctx && synced)) [
    | inl q ↦ simp q (
      record { placed = g.placed; live = g.live; known = g.known },
      inr (w.ctx.to_compact, (refl, h)),
    )
    | inr q ↦ simp q (g, inl refl)
  ]

  -- A barrier of a node that is there stays, and the log is not compacted behind it.
  pub do_compact-Guards :
      (synced : Bool) (w : WalState om) (k id : ℕ)
      → Guards w k id
      → (after : WalState om) × ((cut : Option ℕ) × ((do_compact om synced w ≡ some (after, cut))
            × (Guards after k id × ((cut ≡ none) ⊎ ((c : ℕ) × ((cut ≡ some c) × (c ≤ k)))))))
  unfolding do_compact
  do_compact-Guards synced w k id g =
      let a = next_offset-IsAdvanced (suc (om.len w.barrier)) w k id (omega arith) g in
      let b = sync-bound synced a.0 k id a.1.1.guards a.1.1.within in
      let result = sync_compact om synced a.0 in
      (result.0, (result.1, (rw (a.1.0, do_compact) refl, (b.0, b.1))))

  next_offset-nodes :
      (fuel : ℕ) (w after : WalState om)
      → next_offset om fuel w ≡ some after
      → after.nodes ≡ w.nodes
  unfolding next_offset
  next_offset-nodes zero w after h = absurd (cc)
  next_offset-nodes (suc fuel) w after h = elim (Option-cases (om.front w.barrier)) [
    | inl q ↦
        (let r : some (record w { ctx = record w.ctx { to_compact = w.ctx.tail } }) ≡ some after =
            sym (rw (q, next_offset) refl) ∙ h in
          let e : record w { ctx = record w.ctx { to_compact = w.ctx.tail } } ≡ after = cc in
          ap (λ v. v.nodes) (sym e))
    | inr front ↦ elim (Option-cases (node_known w.nodes front.0.1)) [
      | inl q ↦
          next_offset-nodes fuel (record w { barrier = om.remove front.0.0 w.barrier }) after
            (sym (rw (front.1, next_offset) (rw (q, next_offset) refl)) ∙ h)
      | inr b ↦
          (let r : some (record w { ctx = record w.ctx { to_compact = front.0.0 } }) ≡ some after =
              sym (rw (front.1, next_offset) (rw (b.1, next_offset) refl)) ∙ h in
            let e : record w { ctx = record w.ctx { to_compact = front.0.0 } } ≡ after = cc in
            ap (λ v. v.nodes) (sym e))
    ]
  ]

  sync-nodes : (synced : Bool) (w : WalState om) → (sync_compact om synced w).0.nodes ≡ w.nodes
  unfolding sync_compact
  sync-nodes synced w = elim (Bool-cases (is_stale om w.ctx && synced)) [
    | inl q ↦ simp q refl
    | inr q ↦ simp q refl
  ]

  pub do_compact-nodes :
      (synced : Bool) (w after : WalState om) (at : Option ℕ)
      → do_compact om synced w ≡ some (after, at)
      → after.nodes ≡ w.nodes
  unfolding do_compact
  do_compact-nodes synced w after at h =
      elim (Option-cases (next_offset om (suc (om.len w.barrier)) w)) [
        | inl q ↦ absurd (let r : none ≡ some (after, at) = sym (rw (q, do_compact) refl) ∙ h in cc)
        | inr found ↦
            (let r : some (sync_compact om synced found.0) ≡ some (after, at) =
                sym (rw (found.1, do_compact) refl) ∙ h in
              let e : sync_compact om synced found.0 ≡ (after, at) = cc in
              ap (λ p. p.0.nodes) (sym e)
              ∙ sync-nodes synced found.0
              ∙ next_offset-nodes (suc (om.len w.barrier)) w found.0 found.1)
      ]
