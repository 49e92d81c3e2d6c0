-- ===== src/Stream/Tests.antt =====
-- The theorem on the order of callbacks at concrete inputs.
use vanus.Base.{List, [], arith, false, refl, some, ℕ, ◌∷◌, ◌≡◌}
use vanus.Stream.{FlushTask, next_blocks, on_flushed, registered, when_ready}
use vanus.Stream.Order.{Flush, Flushing, flushed, registered_at}
use vanus.Stream.Order.Due.{on_flushed-IsCalled}
use vanus.Stream.Order.Callbacks.{IsCalled}

-- Blocks of four bytes from 8 on; the second block is flushed before the first.
abbrev second : Flush
second = record { block = 1; off = 4; cbs = 21 ∷ 22 ∷ [] }

abbrev first : Flush
first = record { block = 0; off = 4; cbs = 11 ∷ [] }

abbrev waiting_second : List (ℕ × FlushTask)
waiting_second = (12, record { ready = false; off = 4; cbs = 21 ∷ 22 ∷ [] }) ∷ registered 8

second_waits : Flushing 4 8 (second ∷ []) waiting_second []
unfolding on_flushed
second_waits = flushed [] second (registered 8) waiting_second [] [] registered_at refl refl

on_flushed-IsCalled_example : IsCalled 4 8 (omega arith) (second ∷ []) first waiting_second []
on_flushed-IsCalled_example =
    on_flushed-IsCalled 4 8 (omega arith) (second ∷ []) first waiting_second [] second_waits refl

both_called : on_flushed 4 waiting_second 8 4 (11 ∷ []) ≡ some (registered 16, 11 ∷ 21 ∷ 22 ∷ [])
unfolding on_flushed when_ready next_blocks
both_called = refl
