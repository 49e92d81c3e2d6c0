-- ===== src/Stream.antt =====
-- internal/store/io/stream/stream.go: the order in which callbacks of writes are called when blocks are
-- flushed in any order. A callback is its number.
pub mod Order
mod Tests
use vanus.Base.{
  Bool, List, Option, [], false, length, none, some, suc, true, zero, ℕ, ◌++◌, ◌+◌, ◌==◌, ◌∷◌,
}
use vanus.Base.Assoc.{erase, insert, lookup}

-- `off` is how far the block was flushed; a block is ready if all blocks before it are flushed.
pub record FlushTask : Type 0 where
  pub ready : Bool
  pub off : ℕ
  pub cbs : List ℕ

abbrev pub ready_task : FlushTask
ready_task = record { ready = true; off = 0; cbs = [] }

-- The tasks of a stream from its registration on.
abbrev pub registered : ℕ → List (ℕ × FlushTask)
registered base = (base, ready_task) ∷ []

-- The loop of onFlushed, from a block that is full, with fuel for the blocks; the tasks that are left,
-- and the callbacks that are called.
unfoldable pub next_blocks :
    ℕ → ℕ → List (ℕ × FlushTask) → ℕ → Option (List (ℕ × FlushTask) × List ℕ)
next_blocks zero batch pending base = none
next_blocks (suc fuel) batch pending base =
    let left = erase base pending in
    let next = base + batch in
    elim (lookup left next) [
      | none ↦ some (insert next ready_task left, [])
      | some ft ↦ elim (ft.off == batch) [
        | false ↦ some (insert next (record ft { ready = true; cbs = [] }) left, ft.cbs)
        | true ↦ elim (next_blocks fuel batch left next) [
          | none ↦ none
          | some rest ↦ some (rest.0, ft.cbs ++ rest.1)
        ]
      ]
    ]

-- `off` of `batch` is a full block.
unfoldable pub when_ready :
    ℕ → List (ℕ × FlushTask) → FlushTask → ℕ → ℕ → List ℕ → Option (List (ℕ × FlushTask) × List ℕ)
when_ready batch pending ft base off cbs = elim (off == batch) [
  | false ↦ some (insert base (record ft { off = off }) pending, cbs)
  | true ↦ elim (next_blocks (suc (length pending)) batch pending base) [
    | none ↦ none
    | some rest ↦ some (rest.0, cbs ++ rest.1)
  ]
]

unfoldable pub on_flushed :
    ℕ → List (ℕ × FlushTask) → ℕ → ℕ → List ℕ → Option (List (ℕ × FlushTask) × List ℕ)
on_flushed batch pending base off cbs = elim (lookup pending base) [
  | none ↦ some (insert base (record { ready = false; off = off; cbs = cbs }) pending, [])
  | some ft ↦ elim ft.ready [
    | false ↦ some (insert base (record ft { off = off; cbs = ft.cbs ++ cbs }) pending, [])
    | true ↦ when_ready batch pending ft base off cbs
  ]
]
