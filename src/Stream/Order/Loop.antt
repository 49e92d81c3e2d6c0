-- ===== src/Stream/Order/Loop.antt =====
-- The loop of onFlushed over the blocks that are full.
use vanus.Base.{
  ==_iff, ==_lt, Bool-cases, List, [], ap, append_assoc, arith, false, if◌then◌else◌, inl, inr,
  length, none, refl, some, suc, sym, true, zero, ℕ, ◌++◌, ◌+◌, ◌<◌, ◌==◌, ◌∙◌, ◌≡◌,
}
use vanus.Base.Assoc.{erase, erase_shorter, insert, lookup}
use vanus.Stream.{FlushTask, next_blocks, ready_task}
use vanus.Stream.Order.{Flush, base_of, callbacks_below, cbs_of, off_of, seen}
use vanus.Stream.Order.Waiting.{
  AllFull, Behind, IsWaiting, erased-Behind, further, inserted-Behind, inserted_there, next_base,
  one_more_full, unseen, waiting_task,
}

module _ (batch start : ℕ) (positive : 0 < batch) where
  -- What the loop leaves, from a full block on.
  pub record Continues (es : List Flush) (n fuel : ℕ) (pending : List (ℕ × FlushTask))
      : Type 0 where
    pub last : ℕ
    pub after : List (ℕ × FlushTask)
    pub more : List ℕ
    pub runs : next_blocks fuel batch pending (base_of batch start n) ≡ some (after, more)
    pub waits : IsWaiting batch start es last after
    pub called : callbacks_below (suc last) es ≡ callbacks_below (suc n) es ++ more

  none_next :
      (es : List Flush) (n fuel : ℕ) (pending : List (ℕ × FlushTask))
      → AllFull batch start es (suc n)
      → Behind batch start es n pending
      → seen es (suc n) ≡ false
      → Continues es n (suc fuel) pending
  unfolding next_blocks Behind
  none_next es n fuel pending a b q =
      let base = base_of batch start n in
      let left = erase base pending in
      let e = next_base batch start n in
      let u = unseen es (suc n) q in
      let l : lookup left (base + batch) ≡ none =
        ap (lookup left) e
        ∙ erased-Behind batch start es n pending positive b (suc n) (omega arith)
        ∙ ap (λ c. if c then some (waiting_task es (suc n)) else none) q in
      record {
        last = suc n;
        after = insert (base_of batch start (suc n)) ready_task left;
        more = [];
        runs = rw (l, next_blocks) (ap (λ k. some (insert k ready_task left, [])) e);
        waits = record {
          full = a;
          not_full = ap (λ k. k == batch) u.0 ∙ ==_lt 0 batch positive;
          task = ready_task;
          there = inserted_there batch start (suc n) ready_task left;
          is_ready = refl;
          behind =
              inserted-Behind batch start es (suc n) ready_task left positive
                (further batch start es n left (erased-Behind batch start es n pending positive b));
        };
        called = ap (λ t. callbacks_below (suc n) es ++ t) u.1;
      }

  some_next :
      (es : List Flush) (n fuel : ℕ) (pending : List (ℕ × FlushTask))
      → Behind batch start es n pending
      → seen es (suc n) ≡ true
      → lookup (erase (base_of batch start n) pending) (base_of batch start n + batch)
        ≡ some (waiting_task es (suc n))
  unfolding Behind
  some_next es n fuel pending b q =
      ap (lookup (erase (base_of batch start n) pending)) (next_base batch start n)
      ∙ erased-Behind batch start es n pending positive b (suc n) (omega arith)
      ∙ ap (λ c. if c then some (waiting_task es (suc n)) else none) q

  open_next :
      (es : List Flush) (n fuel : ℕ) (pending : List (ℕ × FlushTask))
      → AllFull batch start es (suc n)
      → Behind batch start es n pending
      → seen es (suc n) ≡ true
      → (off_of es (suc n) == batch) ≡ false
      → Continues es n (suc fuel) pending
  unfolding next_blocks
  open_next es n fuel pending a b q o =
      let left = erase (base_of batch start n) pending in
      let task : FlushTask = record (waiting_task es (suc n)) { ready = true; cbs = [] } in
      let e = next_base batch start n in
      record {
        last = suc n;
        after = insert (base_of batch start (suc n)) task left;
        more = cbs_of es (suc n);
        runs =
            rw (some_next es n fuel pending b q, next_blocks)
              (rw (o, next_blocks) (ap (λ k. some (insert k task left, cbs_of es (suc n))) e));
        waits = record {
          full = a;
          not_full = o;
          task = task;
          there = inserted_there batch start (suc n) task left;
          is_ready = refl;
          behind =
              inserted-Behind batch start es (suc n) task left positive
                (further batch start es n left (erased-Behind batch start es n pending positive b));
        };
        called = refl;
      }

  pub next_blocks-Continues :
      (fuel : ℕ) (es : List Flush) (n : ℕ) (task : FlushTask) (pending : List (ℕ × FlushTask))
      → length pending < fuel
      → AllFull batch start es (suc n)
      → lookup pending (base_of batch start n) ≡ some task
      → Behind batch start es n pending
      → Continues es n fuel pending
  unfolding next_blocks
  next_blocks-Continues zero es n task pending f a t b = absurd (omega arith)
  next_blocks-Continues (suc fuel) es n task pending f a t b = elim (Bool-cases (seen es (suc n))) [
    | inr q ↦ none_next es n fuel pending a b q
    | inl q ↦ elim (Bool-cases (off_of es (suc n) == batch)) [
      | inr o ↦ open_next es n fuel pending a b q o
      | inl o ↦
          (let left = erase (base_of batch start n) pending in
            let e = next_base batch start n in
            let l = some_next es n fuel pending b q in
            let there : lookup left (base_of batch start (suc n)) ≡ some (waiting_task es (suc n)) =
              ap (lookup left) (sym e) ∙ l in
            let rest =
              next_blocks-Continues fuel es (suc n) (waiting_task es (suc n)) left
                (omega (arith, erase_shorter (base_of batch start n) task pending t))
                (one_more_full batch start es (suc n) a ((==_iff (off_of es (suc n)) batch).0 o))
                there
                (further batch start es n left
                  (erased-Behind batch start es n pending positive b)) in
            let runs : next_blocks fuel batch left (base_of batch start n + batch)
                ≡ some (rest.after, rest.more) =
              ap (next_blocks fuel batch left) e ∙ rest.runs in
            record {
              last = rest.last;
              after = rest.after;
              more = cbs_of es (suc n) ++ rest.more;
              runs = rw (l, next_blocks) (rw (o, next_blocks) (rw (runs, next_blocks) refl));
              waits = rest.waits;
              called =
                  rest.called
                  ∙ append_assoc (callbacks_below (suc n) es) (cbs_of es (suc n)) rest.more;
            })
    ]
  ]
