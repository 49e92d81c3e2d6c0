-- ===== src/Raft/Guard/Steps.antt =====
-- The barrier stays the node's first stable entry.
use mathlib.Core.Path.{subst}
use vanus.Base.{
  ==_iff, Bool, Bool-cases, List, ap, arith, different, drop, false, get_or, if◌then◌else◌, inl,
  inr, length, length-set, length-take, map, not_zero, refl, same_number, set, some, suc, sym, take,
  true, zero, ℕ, ◌+◌, ◌-◌, ◌<◌, ◌==◌, ◌∙◌, ◌≡◌, ◌≤◌, ◌⊎◌,
}
use vanus.Base.OffsetMap.{OffsetMap}
use vanus.Raft.Log.{LogStorage, RaftEntry, entry_or, first_index, log_length, new_log}
use vanus.Raft.Log.Chain.{Chain, Follow, IsLog, log_length-eq}
use vanus.Raft.Log.Append.{CompactTask, EntryCodec, append_entries, written}
use vanus.Raft.Log.Append.Accepted.{Outcome, append_entries_lem}
use vanus.Raft.Log.Append.Prepared.{cleared}
use vanus.Raft.Log.Append.AfterWrite.{offs-IsLog}
use vanus.Raft.Barrier.{WalState, compact_task, node_known, put, recover_node}
use vanus.Raft.Recovery.{recovered_barrier}
use vanus.Raft.Guard.{HasBarrier, IsGuarded, Rises}
use vanus.Raft.Guard.Offsets.{first-le, first_two_cut, Rises-cut, set_first}
use vanus.Raft.Guard.Tasks.{task-nodes, task-other}

pub new_log-IsLog : IsLog new_log
unfolding Chain Follow
new_log-IsLog = record {
  has_dummy = omega arith;
  has_offset = omega arith;
  chain = tt;
  stable = omega arith;
  fits = omega arith;
}

module _ (om : OffsetMap) (node : ℕ) where
  pub fresh-IsGuarded :
      (w : WalState om) → node_known w.nodes node ≡ some true → IsGuarded om node new_log w
  unfolding Rises
  fresh-IsGuarded w k = record {
    is_log = new_log-IsLog;
    known = k;
    rises = tt;
    guard = inl (omega arith);
  }

  guard_cut :
      (n : ℕ) (barrier : om.Elems) (offs : List ℕ)
      → (length offs ≤ 1) ⊎ HasBarrier om node barrier offs
      → (length (take (suc n) offs) ≤ 1) ⊎ HasBarrier om node barrier (take (suc n) offs)
  guard_cut zero barrier offs g = inl (omega (arith, length-take 1 offs))
  guard_cut (suc n) barrier offs (inl l) = inl (omega (arith, l, length-take (suc (suc n)) offs))
  guard_cut (suc n) barrier offs (inr g) =
      let two = first_two_cut n offs in
      inr (two.0 ∙ g.0 ∙ sym two.1, ap (om.get barrier) two.1 ∙ g.1)

  pub stored-IsGuarded :
      (codec : EntryCodec) (s after : LogStorage) (w : WalState om) (entries kept : List RaftEntry)
      (bytes : List (List ℕ)) (remark : Bool)
      → IsGuarded om node s w
      → (entry_or entries 0).index + length entries < 18446744073709551616
      → append_entries codec node s entries ≡ written after kept bytes remark
      → IsGuarded om node after w
  stored-IsGuarded codec s after w entries kept bytes remark g b e =
      let o = append_entries_lem codec node s entries g.is_log b in
      let p = subst (Outcome codec node s (map cleared entries)) e o in
      let n = p.0.first.index - first_index s in
      elim p.0.offs_left [
        | inl q ↦ record {
          is_log = p.0.is_log;
          known = g.known;
          rises = subst (λ o. Rises 0 (drop 1 o)) (sym q) g.rises;
          guard = subst (λ o. (length o ≤ 1) ⊎ HasBarrier om node w.barrier o) (sym q) g.guard;
        }
        | inr q ↦ record {
          is_log = p.0.is_log;
          known = g.known;
          rises = subst (λ o. Rises 0 (drop 1 o)) (sym q) (Rises-cut n 0 s.offs g.rises);
          guard =
              subst (λ o. (length o ≤ 1) ⊎ HasBarrier om node w.barrier o) (sym q)
                (guard_cut n w.barrier s.offs g.guard);
        }
      ]

  pub other-IsGuarded :
      (s : LogStorage) (w : WalState om) (t : CompactTask)
      → IsGuarded om node s w
      → (t.last == get_or s.offs 1 0) ≡ false
      → (t.offset == get_or s.offs 1 0) ≡ false
      → IsGuarded om node s (compact_task om t w)
  other-IsGuarded s w t g l o = record {
    is_log = g.is_log;
    known = ap (λ n. node_known n node) (task-nodes om t w) ∙ g.known;
    rises = g.rises;
    guard = elim g.guard [
      | inl few ↦ inl few
      | inr b ↦ inr (b.0, task-other om t w (get_or s.offs 1 0) l o ∙ b.1)
    ];
  }

  put-known : (nodes : List (ℕ × Bool)) → node_known (put node true nodes) node ≡ some true
  unfolding node_known
  put-known nodes = rw (same_number node, node_known) refl

  set_unless_zero :
      (v : ℕ) (barrier : om.Elems)
      → 0 < v
      → om.get (if v == 0 then barrier else om.set v node barrier) v ≡ some node
  set_unless_zero v barrier h =
      ap (λ c. om.get (if c then barrier else om.set v node barrier) v) (not_zero v h)
      ∙ om.get-set v node v barrier
      ∙ ap (λ b. if b then some node else om.get barrier v) (same_number v)

  pub restarted-IsGuarded :
      (s : LogStorage) (w : WalState om)
      → IsLog s
      → length s.offs ≡ length s.ents
      → Rises 0 (drop 1 s.offs)
      → IsGuarded om node (recovered_barrier s).0 (recover_node om node (recovered_barrier s).1 w)
  unfolding recovered_barrier recover_node
  restarted-IsGuarded s w l a r = elim (Bool-cases (log_length s == 0)) [
    | inl q ↦
        rw (q, recovered_barrier)
          (record {
            is_log = l;
            known = put-known w.nodes;
            rises = r;
            guard = inl (omega (arith, a, log_length-eq s l, (==_iff (log_length s) 0).0 q));
          })
    | inr q ↦
        (let v = get_or s.offs 1 0 in
          let t = set_first s.offs v l.has_offset in
          let long : 1 < length s.offs =
            omega
              (arith, a, log_length-eq s l, different (log_length s) 0 q, l.has_dummy, l.fits) in
          let positive = (first-le 1 0 s.offs r (omega arith) long).0 in
          let n = length-set s.offs 0 v in
          rw (q, recovered_barrier)
            (record {
              is_log =
                  offs-IsLog s (record s { offs = set s.offs 0 v }) l refl (omega (arith, n, long))
                    (omega (arith, n, l.stable));
              known = put-known w.nodes;
              rises = subst (Rises 0) (sym t.1.1) r;
              guard = inr (
                t.0 ∙ sym t.1.0,
                ap (om.get (if v == 0 then w.barrier else om.set v node w.barrier)) t.1.0
                    ∙ set_unless_zero v w.barrier positive,
              );
            }))
  ]
