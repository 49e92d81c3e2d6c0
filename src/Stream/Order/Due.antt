-- ===== src/Stream/Order/Due.antt =====
-- Each flush calls the callbacks that are due.
use mathlib.Core.Path.{subst}
use vanus.Base.{
  ==_iff, ==_lt, Bool-cases, List, Option, ap, arith, different, false, if◌then◌else◌, inl, inr,
  le_of_not_ltb, ltb, ltb→lt, none, refl, same_number, some, suc, sym, ℕ, ◌++◌, ◌<◌, ◌==◌, ◌∙◌, ◌∷◌,
  ◌≡◌,
}
use vanus.Stream.{FlushTask, ready_task}
use vanus.Stream.Order.{Flush, Flushing, base_of, callbacks_below, flushed, off_of, registered_at}
use vanus.Stream.Order.Waiting.{AllFull, Behind, IsWaiting, base-other}
use vanus.Stream.Order.Callbacks.{IsCalled, at_behind, at_ready}

module _ (batch start : ℕ) (positive : 0 < batch) where
  record IsDue (es : List Flush) (pending : List (ℕ × FlushTask)) (called : List ℕ) : Type 0 where
    pub block : ℕ
    pub waits : IsWaiting batch start es block pending
    pub in_order : called ≡ callbacks_below (suc block) es

  flush-IsCalled :
      (es : List Flush) (e : Flush) (pending : List (ℕ × FlushTask)) (called : List ℕ)
      → IsDue es pending called
      → (off_of es e.block == batch) ≡ false
      → IsCalled batch start positive es e pending called
  unfolding AllFull
  flush-IsCalled es e pending called d o = elim (Bool-cases (ltb d.block e.block)) [
    | inl q ↦
        at_behind batch start positive es e d.block pending called d.waits
          (ltb→lt d.block e.block q) d.in_order
    | inr q ↦ elim (Bool-cases (e.block == d.block)) [
      | inl r ↦
          (let i = (==_iff e.block d.block).0 r in
            at_ready batch start positive es e pending called
              (subst (λ n. IsWaiting batch start es n pending) (sym i) d.waits)
              (d.in_order ∙ ap (λ n. callbacks_below (suc n) es) (sym i)))
      | inr r ↦ absurd (
          different (off_of es e.block) batch o (
            d.waits.full e.block
              (omega (arith, le_of_not_ltb d.block e.block q, different e.block d.block r))))
    ]
  ]

  Flushing-IsDue :
      (es : List Flush) (pending : List (ℕ × FlushTask)) (called : List ℕ)
      → Flushing batch start es pending called
      → IsDue es pending called
  unfolding AllFull Behind
  Flushing-IsDue es pending called registered_at = record {
    block = 0;
    waits = record {
      full = λ i h. absurd (omega arith);
      not_full = ==_lt 0 batch positive;
      task = ready_task;
      there = ap (λ b. if b then some ready_task else none) (same_number (base_of batch start 0));
      is_ready = refl;
      behind = λ k h.
          ap (λ b. if b then some ready_task else none) (base-other batch start 0 k positive h);
    };
    in_order = refl;
  }
  Flushing-IsDue es pending called (flushed fs e before after past more f o r) =
      let c = flush-IsCalled fs e before past (Flushing-IsDue fs before past f) o in
      let same : ◌≡◌ {A = Option (List (ℕ × FlushTask) × List ℕ)} (some (c.after, c.more))
          (some (after, more)) =
        sym c.runs ∙ r in
      let a : c.after ≡ after = cc in
      let m : c.more ≡ more = cc in
      record {
        block = c.ready_block;
        waits = subst (λ p. IsWaiting batch start (e ∷ fs) c.ready_block p) a c.waits;
        in_order = ap (λ t. past ++ t) (sym m) ∙ c.in_order;
      }

  -- After whatever flushes of a stream's blocks, in any order and none of a block that was full,
  -- onFlushed on one more flush ends, and the callbacks that were called are then those of the
  -- blocks, block by block and flush by flush, up to the first block that is not full. So none is
  -- called before all blocks before its own are flushed, and none is left out or called twice. The
  -- size of a block is positive.
  pub on_flushed-IsCalled :
      (es : List Flush) (e : Flush) (pending : List (ℕ × FlushTask)) (called : List ℕ)
      → Flushing batch start es pending called
      → (off_of es e.block == batch) ≡ false
      → IsCalled batch start positive es e pending called
  on_flushed-IsCalled es e pending called f o =
      flush-IsCalled es e pending called (Flushing-IsDue es pending called f) o
