-- ===== src/Stream/Order/Latest.antt =====
-- What one more flush changes of what was flushed, and the steps of onFlushed.
use vanus.Base.{
  List, above, ap, arith, false, if◌then◌else◌, length, refl, same_number, some, suc, true, zero, ℕ,
  ◌++◌, ◌==◌, ◌∙◌, ◌∷◌, ◌≡◌, ◌≤◌,
}
use vanus.Base.Assoc.{insert, lookup}
use vanus.Stream.{FlushTask, next_blocks, on_flushed, when_ready}
use vanus.Stream.Order.{Flush, callbacks_below, cbs_of, off_of}
use vanus.Stream.Order.Waiting.{waiting}

pub same_off :
    (e : Flush) (es : List Flush) (k : ℕ) → (e.block == k) ≡ false → off_of (e ∷ es) k ≡ off_of es k
same_off e es k h = ap (λ b. if b then e.off else off_of es k) h

pub same_cbs :
    (e : Flush) (es : List Flush) (k : ℕ) → (e.block == k) ≡ false → cbs_of (e ∷ es) k ≡ cbs_of es k
same_cbs e es k h = ap (λ b. if b then cbs_of es k ++ e.cbs else cbs_of es k) h

pub same_waiting :
    (e : Flush) (es : List Flush) (k : ℕ)
    → (e.block == k) ≡ false
    → waiting (e ∷ es) k ≡ waiting es k
same_waiting e es k h = rw h refl

pub new_off : (e : Flush) (es : List Flush) → off_of (e ∷ es) e.block ≡ e.off
new_off e es = ap (λ b. if b then e.off else off_of es e.block) (same_number e.block)

pub new_cbs : (e : Flush) (es : List Flush) → cbs_of (e ∷ es) e.block ≡ cbs_of es e.block ++ e.cbs
new_cbs e es =
    ap (λ b. if b then cbs_of es e.block ++ e.cbs else cbs_of es e.block) (same_number e.block)

pub new_waiting :
    (e : Flush) (es : List Flush)
    → waiting (e ∷ es) e.block
      ≡ some (record { ready = false; off = e.off; cbs = cbs_of es e.block ++ e.cbs })
new_waiting e es = rw (same_number e.block) refl

-- Later blocks change nothing of the callbacks of earlier ones.
pub same_below :
    (e : Flush) (es : List Flush) (n : ℕ)
    → n ≤ e.block
    → callbacks_below n (e ∷ es) ≡ callbacks_below n es
same_below e es zero h = refl
same_below e es (suc n) h =
    ap (λ t. t ++ cbs_of (e ∷ es) n) (same_below e es n (omega arith))
    ∙ ap (λ t. callbacks_below n es ++ t) (same_cbs e es n (above e.block n (omega arith)))

pub ready_runs :
    (batch : ℕ) (pending : List (ℕ × FlushTask)) (task : FlushTask) (base off : ℕ) (cbs : List ℕ)
    → lookup pending base ≡ some task
    → task.ready ≡ true
    → on_flushed batch pending base off cbs ≡ when_ready batch pending task base off cbs
unfolding on_flushed
ready_runs batch pending task base off cbs t r = rw (t, on_flushed) (simp r)

pub when_partial :
    (batch : ℕ) (pending : List (ℕ × FlushTask)) (task : FlushTask) (base off : ℕ) (cbs : List ℕ)
    → (off == batch) ≡ false
    → when_ready batch pending task base off cbs
      ≡ some (insert base (record task { off = off }) pending, cbs)
unfolding when_ready
when_partial batch pending task base off cbs o = rw (o, when_ready) refl

pub when_full :
    (batch : ℕ) (pending : List (ℕ × FlushTask)) (task : FlushTask) (base off : ℕ) (cbs : List ℕ)
    (rest : List (ℕ × FlushTask) × List ℕ)
    → (off == batch) ≡ true
    → next_blocks (suc (length pending)) batch pending base ≡ some rest
    → when_ready batch pending task base off cbs ≡ some (rest.0, cbs ++ rest.1)
unfolding when_ready
when_full batch pending task base off cbs rest o h = rw (o, when_ready) (rw (h, when_ready) refl)
