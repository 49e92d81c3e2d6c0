-- ===== src/Stream/Order.antt =====
-- Callbacks are called in the order of the blocks, once all blocks before are flushed.
pub mod Waiting
pub mod Loop
pub mod Latest
pub mod Callbacks
pub mod Due
use vanus.Base.{
  Bool, List, [], false, if◌then◌else◌, some, suc, true, zero, ℕ, ◌*◌, ◌++◌, ◌+◌, ◌==◌, ◌∷◌, ◌≡◌,
}
use vanus.Stream.{FlushTask, on_flushed, registered}

-- A block that was flushed: its place in the row of blocks, how far, and the callbacks.
pub record Flush : Type 0 where
  pub block : ℕ
  pub off : ℕ
  pub cbs : List ℕ

-- What was flushed of a block, the latest flush first: callbacks in the order of the flushes.
abbrev pub cbs_of : List Flush → ℕ → List ℕ
cbs_of [] k = []
cbs_of (e ∷ es) k = let rest = cbs_of es k in if e.block == k then rest ++ e.cbs else rest

abbrev pub off_of : List Flush → ℕ → ℕ
off_of [] k = 0
off_of (e ∷ es) k = let rest = off_of es k in if e.block == k then e.off else rest

abbrev seen : List Flush → ℕ → Bool
seen [] k = false
seen (e ∷ es) k = let rest = seen es k in if e.block == k then true else rest

-- The callbacks of the first blocks, block by block.
abbrev pub callbacks_below : ℕ → List Flush → List ℕ
callbacks_below zero es = []
callbacks_below (suc n) es = callbacks_below n es ++ cbs_of es n

module _ (batch start : ℕ) where
  abbrev pub base_of : ℕ → ℕ
  base_of k = start + k * batch

  -- What happens to a stream whose blocks are flushed in any order, none again after it was full;
  -- with the tasks and the callbacks that were called.
  pub data Flushing : List Flush → List (ℕ × FlushTask) → List ℕ → Type 0 where
    registered_at : Flushing [] (registered (base_of 0)) []
    flushed :
        (es : List Flush) (e : Flush) (pending after : List (ℕ × FlushTask)) (called more : List ℕ)
        → Flushing es pending called
        → (off_of es e.block == batch) ≡ false
        → on_flushed batch pending (base_of e.block) e.off e.cbs ≡ some (after, more)
        → Flushing (e ∷ es) after (called ++ more)
