-- ===== src/Stream/Order/Waiting.antt =====
-- The tasks of a stream while blocks are flushed.
use native.Mathlib.Nat.{mul-lt-mul_of_pos_right, suc-mul}
use vanus.Base.{
  ==_iff, ==_lt, Bool-cases, List, Option, [], ap, arith, different, false, if◌then◌else◌, inl, inr,
  none, refl, same_number, some, suc, sym, true, ℕ, ◌++◌, ◌+◌, ◌<◌, ◌==◌, ◌∙◌, ◌∷◌, ◌≡◌,
}
use vanus.Base.Assoc.{erase, insert, lookup, lookup-erase, lookup-insert}
use vanus.Stream.{FlushTask}
use vanus.Stream.Order.{Flush, base_of, cbs_of, off_of, seen}

abbrev pub waiting_task : List Flush → ℕ → FlushTask
waiting_task es k = record { ready = false; off = off_of es k; cbs = cbs_of es k }

abbrev pub waiting : List Flush → ℕ → Option FlushTask
waiting es k = if seen es k then some (waiting_task es k) else none

pub unseen : (es : List Flush) (k : ℕ) → seen es k ≡ false → (off_of es k ≡ 0) × (cbs_of es k ≡ [])
unseen [] k h = (refl, refl)
unseen (e ∷ es) k h = elim (Bool-cases (e.block == k)) [
  | inl q ↦ absurd (let t : seen (e ∷ es) k ≡ true = rw q refl in cc)
  | inr q ↦
      (let u = unseen es k (sym (rw q refl) ∙ h) in
        (
          ap (λ b. if b then e.off else off_of es k) q ∙ u.0,
          ap (λ b. if b then cbs_of es k ++ e.cbs else cbs_of es k) q ∙ u.1,
        ))
]

module _ (batch start : ℕ) where
  -- The first `n` blocks are full.
  unfoldable pub AllFull : List Flush → ℕ → Type 0
  AllFull es n = (i : ℕ) → i < n → off_of es i ≡ batch

  -- The blocks behind the first `n` and the next one wait.
  unfoldable pub Behind : List Flush → ℕ → List (ℕ × FlushTask) → Type 0
  Behind es n pending = (k : ℕ) → n < k → lookup pending (base_of batch start k) ≡ waiting es k

  -- The first `n` blocks are full, the next one is not, and it is ready.
  pub record IsWaiting (es : List Flush) (n : ℕ) (pending : List (ℕ × FlushTask)) : Type 0 where
    pub full : AllFull es n
    pub not_full : (off_of es n == batch) ≡ false
    pub task : FlushTask
    pub there : lookup pending (base_of batch start n) ≡ some task
    pub is_ready : task.ready ≡ true
    pub behind : Behind es n pending

  pub base-other :
      (j k : ℕ) → 0 < batch → j < k → (base_of batch start j == base_of batch start k) ≡ false
  base-other j k p h =
      ==_lt (base_of batch start j) (base_of batch start k)
        (omega (arith, mul-lt-mul_of_pos_right h p))

  pub next_base : (k : ℕ) → base_of batch start k + batch ≡ base_of batch start (suc k)
  next_base k = omega (arith, suc-mul k batch)

  pub erased-Behind :
      (es : List Flush) (n : ℕ) (pending : List (ℕ × FlushTask))
      → 0 < batch
      → Behind es n pending
      → Behind es n (erase (base_of batch start n) pending)
  unfolding Behind
  erased-Behind es n pending p b k h =
      lookup-erase (base_of batch start n) (base_of batch start k) pending
      ∙ ap (λ c. if c then none else lookup pending (base_of batch start k)) (base-other n k p h)
      ∙ b k h

  pub inserted-Behind :
      (es : List Flush) (n : ℕ) (task : FlushTask) (pending : List (ℕ × FlushTask))
      → 0 < batch
      → Behind es n pending
      → Behind es n (insert (base_of batch start n) task pending)
  unfolding Behind
  inserted-Behind es n task pending p b k h =
      lookup-insert (base_of batch start n) (base_of batch start k) task pending
      ∙ ap (λ c. if c then some task else lookup pending (base_of batch start k))
          (base-other n k p h)
      ∙ b k h

  pub inserted_there :
      (n : ℕ) (task : FlushTask) (pending : List (ℕ × FlushTask))
      → lookup (insert (base_of batch start n) task pending) (base_of batch start n) ≡ some task
  inserted_there n task pending =
      lookup-insert (base_of batch start n) (base_of batch start n) task pending
      ∙ ap (λ c. if c then some task else lookup pending (base_of batch start n))
          (same_number (base_of batch start n))

  pub further :
      (es : List Flush) (n : ℕ) (pending : List (ℕ × FlushTask))
      → Behind es n pending
      → Behind es (suc n) pending
  unfolding Behind
  further es n pending b k h = b k (omega arith)

  pub one_more_full :
      (es : List Flush) (n : ℕ) → AllFull es n → off_of es n ≡ batch → AllFull es (suc n)
  unfolding AllFull
  one_more_full es n a e i h = elim (Bool-cases (i == n)) [
    | inl q ↦ ap (off_of es) ((==_iff i n).0 q) ∙ e
    | inr q ↦ a i (omega (arith, different i n q))
  ]
