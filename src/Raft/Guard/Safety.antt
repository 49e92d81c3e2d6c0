-- ===== src/Raft/Guard/Safety.antt =====
-- The write-ahead log keeps every entry of the node that is written down.
use mathlib.Core.Bool.{true≢false}
use mathlib.Core.Path.{subst}
use native.Mathlib.Decide.{dec_lt}
use vanus.Raft.Guard.Marks.{
  Marked-last, Rises-weaken, above_not, cut-Marked, mark-Marked, other-Marked, own-Marked,
}
use vanus.Raft.Guard.Tasks.{task-nodes, task-set}
use vanus.Base.{
  ==_lt, Bool, Bool-cases, List, Option, [], ap, arith, false, get_or, if◌then◌else◌, inl, inr,
  length, none, refl, some, suc, sym, take, true, zero_or, ℕ, ◌<◌, ◌==◌, ◌∙◌, ◌∷◌, ◌≡◌, ◌≤◌, ◌⊎◌,
}
use vanus.Base.OffsetMap.{OffsetMap}
use vanus.Raft.Log.{LogError, LogStorage, RaftEntry, entry_or, truncated}
use vanus.Raft.Log.Append.{
  CompactTask, EntryCodec, kept_of, mark_barrier, move_barrier, offsets_fault, on_written,
  post_append, post_faults, post_refused, posted, remove_barrier, store_offsets,
}
use vanus.Raft.Barrier.{WalState, compact_task, do_compact, node_known}
use vanus.Raft.Barrier.Safe.{do_compact-Guards, do_compact-nodes}
use vanus.Raft.Guard.{
  HasBarrier, IsGuarded, Marked, Rises, Run, barrier_set, dropped, fresh, note_refused, noted,
  other_task, restarted, run_tasks, stored, wal_compacted,
}
use vanus.Raft.Guard.Offsets.{first-le}
use vanus.Raft.Guard.Steps.{fresh-IsGuarded, other-IsGuarded, restarted-IsGuarded, stored-IsGuarded}
use vanus.Raft.Guard.Dropped.{compact_done-form, dropped-IsGuarded}
use vanus.Raft.Guard.Noted.{noted-IsGuarded, noted-Marked}

zero_or_apart : (a b : ℕ) → 0 < b → (a ≡ 0) ⊎ ((a == b) ≡ false) → (a == b) ≡ false
zero_or_apart a b p (inl z) = ap (λ k. k == b) z ∙ ==_lt 0 b p
zero_or_apart a b p (inr n) = n

refused-form :
    (node : ℕ) (s : LogStorage) (entries : List RaftEntry) (offsets : List ℕ) (tail : ℕ)
    (remark : Bool) (tasks : List CompactTask) (x : LogError)
    → post_append node s entries offsets tail remark ≡ post_refused x tasks
    → (if remark then remove_barrier node (get_or offsets 0 0) ∷ [] else []) ≡ tasks
unfolding post_append
refused-form node s entries offsets tail remark tasks x h =
    let back = if remark then remove_barrier node (get_or offsets 0 0) ∷ [] else [] in
    elim (zero_or (kept_of s entries (length entries))) [
      | inl z ↦
          (let q : post_refused truncated back ≡ post_refused x tasks =
              sym (rw (z, post_append) refl) ∙ h in
            cc)
      | inr found ↦ absurd (not_refused found.0 found.1)
    ]
  where
    not_refused : (end : ℕ) → kept_of s entries (length entries) ≡ suc end → ⊥
    not_refused end e = elim (Bool-cases (offsets_fault s (entry_or entries 0).index)) [
      | inl f ↦
          (let q : post_faults ≡ post_refused x tasks = sym (rw (e, post_append, f) refl) ∙ h in
            absurd (cc))
      | inr f ↦
          (let offs = store_offsets s (entry_or entries 0).index (take (suc end) offsets) in
            let moved = move_barrier node remark (record s { offs = offs; tail = tail }) in
            let last = entry_or entries end in
            let q : posted moved.0 moved.1 last.term last.index ≡ post_refused x tasks =
              sym (rw (e, post_append, f) refl) ∙ h in
            absurd (cc))
    ]

module _ (om : OffsetMap) (node : ℕ) where
  cut-IsGuarded :
      (s : LogStorage) (w after : WalState om) (synced : Bool) (at : Option ℕ)
      → IsGuarded om node s w
      → do_compact om synced w ≡ some (after, at)
      → IsGuarded om node s after
  cut-IsGuarded s w after synced at g h = record {
    is_log = g.is_log;
    known = ap (λ n. node_known n node) (do_compact-nodes om synced w after at h) ∙ g.known;
    rises = g.rises;
    guard = elim g.guard [
      | inl few ↦ inl few
      | inr b ↦
          (let r =
              do_compact-Guards om synced w (get_or s.offs 1 0) node
                (record { placed = b.1; live = true; known = g.known }) in
            let e : ◌≡◌ {A = Option (WalState om × Option ℕ)} (some (r.0, r.1.0))
                (some (after, at)) =
              sym r.1.1.0 ∙ h in
            let same : r.0 ≡ after = cc in
            inr (b.0, ap (λ v. om.get v.barrier (get_or s.offs 1 0)) (sym same) ∙ r.1.1.1.0.placed))
    ];
  }

  -- A task that neither removes the node's barrier nor sets it.
  own-IsGuarded :
      (s : LogStorage) (w : WalState om) (t : CompactTask)
      → IsGuarded om node s w
      → (t.last ≡ 0) ⊎ ((t.last == get_or s.offs 1 0) ≡ false)
      → (t.offset ≡ 0) ⊎ ((t.offset == get_or s.offs 1 0) ≡ false)
      → IsGuarded om node s (compact_task om t w)
  own-IsGuarded s w t g l o = elim (dec_lt 1 (length s.offs)) [
    | yes long ↦
        (let positive = (first-le 1 0 s.offs g.rises (omega arith) long).0 in
          other-IsGuarded om node s w t g (zero_or_apart t.last (get_or s.offs 1 0) positive l)
            (zero_or_apart t.offset (get_or s.offs 1 0) positive o))
    | no few ↦ record {
      is_log = g.is_log;
      known = ap (λ n. node_known n node) (task-nodes om t w) ∙ g.known;
      rises = g.rises;
      guard = inl (omega arith);
    }
  ]

  -- The task of a refused note.
  refused-Safe :
      (s : LogStorage) (w : WalState om) (marks : List ℕ) (o : ℕ)
      → IsGuarded om node s w
      → (o == get_or s.offs 1 0) ≡ false
      → Rises o marks
      → Marked om node w (o ∷ marks)
      → IsGuarded om node s (compact_task om (remove_barrier node o) w)
        × Marked om node (compact_task om (remove_barrier node o) w) marks
  refused-Safe s w marks o g n r m = (
    own-IsGuarded s w (remove_barrier node o) g (inr n) (inl refl),
    own-Marked om node (remove_barrier node o) w marks refl g.known r m.1,
  )

  -- Whatever happens, the first stable entry of the node is its barrier, and the barriers of writes
  -- that are not noted are set.
  Run-Safe :
      (codec : EntryCodec) (s : LogStorage) (w : WalState om) (marks : List ℕ)
      → Run om codec node s w marks
      → IsGuarded om node s w × Marked om node w marks
  unfolding run_tasks on_written Rises
  Run-Safe codec s w marks (fresh v k) = (fresh-IsGuarded om node v k, tt)
  Run-Safe codec s w marks (restarted t v l a r) = (restarted-IsGuarded om node t v l a r, tt)
  Run-Safe codec s w marks (stored t after v ms entries kept bytes remark r b e) =
      let i = Run-Safe codec t v ms r in
      (stored-IsGuarded om node codec t after v entries kept bytes remark i.0 b e, i.1)
  Run-Safe codec s w marks (barrier_set t v ms offsets r p n) =
      let i = Run-Safe codec t v ms r in
      let o = get_or offsets 0 0 in
      let task = mark_barrier node o in
      (
        own-IsGuarded t v task i.0 (inl refl) (inr n),
        Marked-last om node (compact_task om task v) ms o
            (mark-Marked om node task v ms refl i.0.known refl i.1) p
            (task-set om task v i.0.known p),
      )
  Run-Safe codec s w marks
        (noted t after v ms entries offsets tail true tasks term index r c n a l m f h d u) =
      let i = Run-Safe codec t v (get_or offsets 0 0 ∷ ms) r in
      (
        noted-IsGuarded om node t after v entries offsets tail true tasks term index i.0 c n a l m f
            h (λ e. (above_not (get_or t.offs 0 0) (get_or offsets 0 0) d.0, i.1.0.1)) u,
        noted-Marked om node t after v ms entries offsets tail true tasks term index i.0.known
            i.0.is_log a l m h
            (Rises-weaken (get_or t.offs 0 0) (get_or offsets 0 0) ms (omega (arith, d.0)) d.1)
            i.1.1,
      )
  Run-Safe codec s w marks
        (noted t after v ms entries offsets tail false tasks term index r c n a l m f h d u) =
      let i = Run-Safe codec t v ms r in
      (
        noted-IsGuarded om node t after v entries offsets tail false tasks term index i.0 c n a l m
            f h (λ e. absurd (true≢false (sym e))) u,
        noted-Marked om node t after v ms entries offsets tail false tasks term index i.0.known
            i.0.is_log a l m h d i.1,
      )
  Run-Safe codec s w marks (note_refused t v ms entries offsets tail true tasks x r h n u) =
      let i = Run-Safe codec t v (get_or offsets 0 0 ∷ ms) r in
      subst (λ k. IsGuarded om node t (run_tasks om k v) × Marked om node (run_tasks om k v) ms)
        (refused-form node t entries offsets tail true tasks x h)
        (refused-Safe t v ms (get_or offsets 0 0) i.0 n u i.1)
  Run-Safe codec s w marks (note_refused t v ms entries offsets tail false tasks x r h n u) =
      subst (λ k. IsGuarded om node t (run_tasks om k v) × Marked om node (run_tasks om k v) ms)
        (refused-form node t entries offsets tail false tasks x h) (Run-Safe codec t v ms r)
  Run-Safe codec s w marks (dropped t after v ms i task r l e u) =
      let g = Run-Safe codec t v ms r in
      let form = compact_done-form node t after i task e in
      let last : get_or t.offs 0 0 ≡ task.last = ap (λ k. k.last) form.1.1 in
      (
        dropped-IsGuarded om node t after v i task g.0 l e,
        own-Marked om node task v ms (sym (ap (λ k. k.node) form.1.1)) g.0.known
            (subst (λ b. Rises b ms) last u) g.1,
      )
  Run-Safe codec s w marks (wal_compacted t v after ms synced at r h) =
      let g = Run-Safe codec t v ms r in
      (
        cut-IsGuarded t v after synced at g.0 h,
        cut-Marked om node v after synced at ms g.0.known h g.1,
      )
  Run-Safe codec s w marks (other_task t v ms task r l o a) =
      let g = Run-Safe codec t v ms r in
      (other-IsGuarded om node t v task g.0 l o, other-Marked om node task v ms a g.1)

  -- In whatever order the following steps are taken, from a new or recovered storage on, doCompact
  -- ends and does not compact the write-ahead log behind the offset of any stable entry of the
  -- node: Append; the callback of a write with a new barrier, which sets it; the note of a write
  -- by postAppend, or its refusal, at any time after, for new barriers in the order of their
  -- callbacks; Compact below the last stable entry; tasks of other nodes; and doCompact. In these
  -- steps indexes are below 2^64; offsets are positive and go up along the log; new barriers that
  -- are not noted yet are at offsets that go up, above the offset of the barrier that a note or
  -- Compact removes; a new barrier is not at the offset of the first stable entry, and other
  -- nodes' tasks are at neither that offset nor one of a new barrier; what is noted is a row of
  -- entries that begins behind the compacted index and not behind the one after the last stable
  -- entry, with a new barrier exactly if it begins at the first index, and an entry is stable
  -- before a write without one is noted.
  pub Run-keeps_entries :
      (codec : EntryCodec) (s : LogStorage) (w : WalState om) (marks : List ℕ) (synced : Bool)
      (j : ℕ)
      → Run om codec node s w marks
      → 0 < j
      → j < length s.offs
      → (after : WalState om) × ((at : Option ℕ) × ((do_compact om synced w ≡ some (after, at))
            × ((at ≡ none) ⊎ ((c : ℕ) × ((at ≡ some c) × (c ≤ get_or s.offs j 0))))))
  Run-keeps_entries codec s w marks synced j r p h =
      let g = (Run-Safe codec s w marks r).0 in
      let b : HasBarrier om node w.barrier s.offs = elim g.guard [
        | inl few ↦ absurd (omega arith)
        | inr b ↦ b
      ] in
      let least = first-le j 0 s.offs g.rises p h in
      let d =
        do_compact-Guards om synced w (get_or s.offs 1 0) node
          (record { placed = b.1; live = true; known = g.known }) in
      (
        d.0,
        (
          d.1.0,
          (
            d.1.1.0,
            elim d.1.1.1.1 [
              | inl q ↦ inl q
              | inr c ↦ inr (c.0, (c.1.0, omega (arith, c.1.1, least.1)))
            ],
          ),
        ),
      )
