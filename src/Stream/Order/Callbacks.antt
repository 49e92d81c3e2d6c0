-- ===== src/Stream/Order/Callbacks.antt =====
-- A flush of the ready block, and of one behind it.
use native.Mathlib.Nat.{mul-lt-mul_of_pos_right}
use mathlib.Core.Path.{subst}
use vanus.Base.{
  ==_iff, ==_lt, Bool-cases, List, [], above, ap, append-nil, append_assoc, arith, different, false,
  if◌then◌else◌, inl, inr, le_of_not_ltb, length, ltb, ltb→lt, none, refl, some, suc, sym, ℕ, ◌++◌,
  ◌<◌, ◌==◌, ◌∙◌, ◌∷◌, ◌≡◌, ◌≤◌,
}
use vanus.Base.Assoc.{insert, lookup, lookup-insert}
use vanus.Stream.{FlushTask, on_flushed}
use vanus.Stream.Order.{Flush, base_of, callbacks_below, cbs_of, seen}
use vanus.Stream.Order.Waiting.{
  AllFull, Behind, IsWaiting, base-other, inserted-Behind, inserted_there, one_more_full, unseen,
  waiting, waiting_task,
}
use vanus.Stream.Order.Loop.{next_blocks-Continues}
use vanus.Stream.Order.Latest.{
  new_cbs, new_off, new_waiting, ready_runs, same_below, same_off, same_waiting, when_full,
  when_partial,
}

module _ (batch start : ℕ) (positive : 0 < batch) where
  -- What a flush does.
  pub record IsCalled (es : List Flush) (e : Flush) (pending : List (ℕ × FlushTask))
      (called : List ℕ) : Type 0 where
    pub after : List (ℕ × FlushTask)
    pub more : List ℕ
    pub runs :
        on_flushed batch pending (base_of batch start e.block) e.off e.cbs ≡ some (after, more)
    pub ready_block : ℕ
    pub waits : IsWaiting batch start (e ∷ es) ready_block after
    pub in_order : called ++ more ≡ callbacks_below (suc ready_block) (e ∷ es)

  still_full :
      (es : List Flush) (e : Flush) (n : ℕ)
      → n ≤ e.block
      → AllFull batch start es n
      → AllFull batch start (e ∷ es) n
  unfolding AllFull
  still_full es e n h a i l = same_off e es i (above e.block i (omega arith)) ∙ a i l

  still-Behind :
      (es : List Flush) (e : Flush) (pending : List (ℕ × FlushTask))
      → Behind batch start es e.block pending
      → Behind batch start (e ∷ es) e.block pending
  unfolding Behind
  still-Behind es e pending b k h = b k h ∙ sym (same_waiting e es k (==_lt e.block k h))

  -- A flush of the ready block.
  pub at_ready :
      (es : List Flush) (e : Flush) (pending : List (ℕ × FlushTask)) (called : List ℕ)
      → IsWaiting batch start es e.block pending
      → called ≡ callbacks_below (suc e.block) es
      → IsCalled es e pending called
  at_ready es e pending called w c =
      let n = e.block in
      let base = base_of batch start n in
      let below : callbacks_below (suc n) (e ∷ es) ≡ called ++ e.cbs =
        ap (λ t. t ++ cbs_of (e ∷ es) n) (same_below e es n (omega arith))
        ∙ ap (λ t. callbacks_below n es ++ t) (new_cbs e es)
        ∙ sym (append_assoc (callbacks_below n es) (cbs_of es n) e.cbs)
        ∙ ap (λ t. t ++ e.cbs) (sym c) in
      let full = still_full es e n (omega arith) w.full in
      let ready = ready_runs batch pending w.task base e.off e.cbs w.there w.is_ready in
      elim (Bool-cases (e.off == batch)) [
        | inr o ↦
            (let task : FlushTask = record w.task { off = e.off } in
              record {
                after = insert base task pending;
                more = e.cbs;
                runs = ready ∙ when_partial batch pending w.task base e.off e.cbs o;
                ready_block = n;
                waits = record {
                  full = full;
                  not_full = ap (λ k. k == batch) (new_off e es) ∙ o;
                  task = task;
                  there = inserted_there batch start n task pending;
                  is_ready = w.is_ready;
                  behind =
                      inserted-Behind batch start (e ∷ es) n task pending positive
                        (still-Behind es e pending w.behind);
                };
                in_order = sym below;
              })
        | inl o ↦
            (let filled = new_off e es ∙ (==_iff e.off batch).0 o in
              let next =
                next_blocks-Continues batch start positive (suc (length pending)) (e ∷ es) n w.task
                  pending (omega arith) (one_more_full batch start (e ∷ es) n full filled) w.there
                  (still-Behind es e pending w.behind) in
              record {
                after = next.after;
                more = e.cbs ++ next.more;
                runs =
                    ready
                    ∙ when_full batch pending w.task base e.off e.cbs (next.after, next.more) o
                        next.runs;
                ready_block = next.last;
                waits = next.waits;
                in_order =
                    sym (append_assoc called e.cbs next.more)
                    ∙ ap (λ t. t ++ next.more) (sym below)
                    ∙ sym next.called;
              })
      ]

  flip-other : (j k : ℕ) → j < k → (base_of batch start k == base_of batch start j) ≡ false
  flip-other j k h =
      above (base_of batch start k) (base_of batch start j)
        (omega (arith, mul-lt-mul_of_pos_right h positive))

  apart : (j k : ℕ) → (j == k) ≡ false → (base_of batch start j == base_of batch start k) ≡ false
  apart j k h = elim (Bool-cases (ltb j k)) [
    | inl q ↦ base-other batch start j k positive (ltb→lt j k q)
    | inr q ↦ flip-other k j (omega (arith, le_of_not_ltb j k q, different j k h))
  ]

  behind-runs :
      (es : List Flush) (e : Flush) (n : ℕ) (pending : List (ℕ × FlushTask))
      → IsWaiting batch start es n pending
      → n < e.block
      → on_flushed batch pending (base_of batch start e.block) e.off e.cbs
        ≡ some (
          insert
              (base_of batch start e.block)
              (record { ready = false; off = e.off; cbs = cbs_of es e.block ++ e.cbs })
              pending,
          [],
        )
  unfolding on_flushed Behind
  behind-runs es e n pending w h =
      let l = w.behind e.block h in
      let base = base_of batch start e.block in
      elim (Bool-cases (seen es e.block)) [
        | inl q ↦
            (let t : lookup pending base ≡ some (waiting_task es e.block) =
                l ∙ ap (λ c. if c then some (waiting_task es e.block) else none) q in
              rw (t, on_flushed) refl)
        | inr q ↦
            (let t : lookup pending base ≡ none =
                l ∙ ap (λ c. if c then some (waiting_task es e.block) else none) q in
              let u = (unseen es e.block q).1 in
              rw (t, on_flushed)
                (ap
                  (λ cbs. some (
                    insert base (record { ready = false; off = e.off; cbs = cbs ++ e.cbs }) pending,
                    [],
                  ))
                  (sym u)))
      ]

  inserted-waiting :
      (es : List Flush) (e : Flush) (n : ℕ) (pending : List (ℕ × FlushTask))
      → Behind batch start es n pending
      → Behind batch start (e ∷ es) n (
          insert
            (base_of batch start e.block)
            (record { ready = false; off = e.off; cbs = cbs_of es e.block ++ e.cbs })
            pending)
  unfolding Behind
  inserted-waiting es e n pending b k h =
      let base = base_of batch start e.block in
      let task : FlushTask = record {
        ready = false;
        off = e.off;
        cbs = cbs_of es e.block ++ e.cbs;
      } in
      let l = lookup-insert base (base_of batch start k) task pending in
      elim (Bool-cases (e.block == k)) [
        | inl q ↦
            (let i = (==_iff e.block k).0 q in
              let same : lookup (insert base task pending) base ≡ waiting (e ∷ es) e.block =
                inserted_there batch start e.block task pending ∙ sym (new_waiting e es) in
              subst
                (λ j.
                  lookup (insert base task pending) (base_of batch start j) ≡ waiting (e ∷ es) j)
                i same)
        | inr q ↦
            l
            ∙ ap (λ c. if c then some task else lookup pending (base_of batch start k))
                (apart e.block k q)
            ∙ b k h
            ∙ sym (same_waiting e es k q)
      ]

  -- A flush of a block behind the ready one.
  pub at_behind :
      (es : List Flush) (e : Flush) (n : ℕ) (pending : List (ℕ × FlushTask)) (called : List ℕ)
      → IsWaiting batch start es n pending
      → n < e.block
      → called ≡ callbacks_below (suc n) es
      → IsCalled es e pending called
  at_behind es e n pending called w h c =
      let base = base_of batch start e.block in
      let task : FlushTask = record {
        ready = false;
        off = e.off;
        cbs = cbs_of es e.block ++ e.cbs;
      } in
      record {
        after = insert base task pending;
        more = [];
        runs = behind-runs es e n pending w h;
        ready_block = n;
        waits = record {
          full = still_full es e n (omega arith) w.full;
          not_full = ap (λ k. k == batch) (same_off e es n (above e.block n h)) ∙ w.not_full;
          task = w.task;
          there =
              lookup-insert base (base_of batch start n) task pending
              ∙ ap (λ b. if b then some task else lookup pending (base_of batch start n))
                  (flip-other n e.block h)
              ∙ w.there;
          is_ready = w.is_ready;
          behind = inserted-waiting es e n pending w.behind;
        };
        in_order = append-nil called ∙ c ∙ sym (same_below e es (suc n) h);
      }
