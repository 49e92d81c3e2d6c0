-- ===== src/Wal/Pack/Layout.antt =====
-- How the records of `Pack` follow one another and fill the blocks of the log.
use native.Mathlib.Decide.{dec_lt}
use vanus.Base.{
  List, [], arith, drop, false, inl, inr, length, length-drop, refl, slice, ℕ, ◌*◌, ◌++◌, ◌+◌, ◌-◌,
  ◌<◌, ◌==◌, ◌∷◌, ◌≡◌, ◌≤◌, ◌⊎◌,
}
use vanus.Wal.Record.{Record, first_type, full_type, last_type, middle_type, size}
use vanus.Wal.Pack.{
  cal_packet_num, make_packet, middle_packets, pack, pack_many, pack_one, padding_of,
}
use vanus.Wal.Pack.Shape.{
  AreMiddle, length-slice, many_bounds, middle-AreMiddle, middle_end, num_one,
}

-- The padding fills up a rest of a block that is too short for a header, and no other.
abbrev pub Pads : ℕ → Record → ℕ → Type 0
Pads room r padding =
    (size r + padding ≡ room) × (padding < 7) ⊎ (padding ≡ 0) × (size r + 7 ≤ room)

-- Middle records that fill a block each, then a last one with some data that fits a block.
abbrev pub IsTail : ℕ → List Record → ℕ → Type 0
IsTail other [] padding = ⊥
IsTail other (r ∷ []) padding =
    (r.kind ≡ last_type) × (7 < size r) × (size r ≤ other) × Pads other r padding
IsTail other (r ∷ s ∷ rs) padding =
    (r.kind ≡ middle_type) × (size r ≡ other) × IsTail other (s ∷ rs) padding

-- One full record in the room left in a block, or a first record that fills that room and a tail.
abbrev pub IsChain : ℕ → ℕ → List Record → ℕ → Type 0
IsChain first other [] padding = ⊥
IsChain first other (r ∷ []) padding =
    (r.kind ≡ full_type) × (size r ≤ first) × Pads first r padding
IsChain first other (r ∷ s ∷ rs) padding =
    (r.kind ≡ first_type) × (size r ≡ first) × IsTail other (s ∷ rs) padding

padding_of-Pads : (room : ℕ) (r : Record) → size r ≤ room → Pads room r (padding_of room r)
unfolding padding_of
padding_of-Pads room r h = elim (dec_lt (room - size r) 7) [
  | yes k ↦ inl (ground arith, ground arith)
  | no k ↦ inr (ground arith, omega arith)
]

middle-IsTail :
    (other : ℕ) (ms : List Record) (r : Record) (padding : ℕ)
    → AreMiddle other ms
    → IsTail other (r ∷ []) padding
    → IsTail other (ms ++ r ∷ []) padding
middle-IsTail other [] r padding h t = t
middle-IsTail other (m ∷ []) r padding h t = (h.0, h.1, t)
middle-IsTail other (m ∷ n ∷ ms) r padding h t =
    (h.0, h.1, middle-IsTail other (n ∷ ms) r padding h.2 t)

IsChain-of_tail :
    (first other : ℕ) (r : Record) (rs : List Record) (padding : ℕ)
    → r.kind ≡ first_type
    → size r ≡ first
    → IsTail other rs padding
    → IsChain first other (r ∷ rs) padding
IsChain-of_tail first other r [] padding k s t = absurd t
IsChain-of_tail first other r (q ∷ rs) padding k s t = (k, s, t)

-- The last packet, for the data from `eo` on.
last-IsTail :
    (entry : List ℕ) (other eo : ℕ)
    → eo < length entry
    → length entry ≤ eo + (other - 7)
    → 7 < other
    → IsTail other
        (make_packet last_type (drop eo entry) ∷ [])
        (padding_of other (make_packet last_type (drop eo entry)))
unfolding make_packet
last-IsTail entry other eo lo hi ho =
    let n : length (drop eo entry) ≡ length entry - eo = length-drop eo entry in
    (
      refl,
      omega arith,
      omega arith,
      padding_of-Pads other (make_packet last_type (drop eo entry)) (omega arith),
    )

many-IsChain :
    (entry : List ℕ) (first other num : ℕ)
    → 7 ≤ first
    → 7 < other
    → first - 7 + (num - 2) * (other - 7) < length entry
    → length entry ≤ first - 7 + (num - 2) * (other - 7) + (other - 7)
    → IsChain first other (pack_many num entry first other).0 (pack_many num entry first other).1
unfolding pack_many make_packet
many-IsChain entry first other num hf ho lo hi =
    let n = num - 2 in
    let e : (middle_packets n entry other (first - 7)).1 ≡ first - 7 + n * (other - 7) =
      middle_end n entry other (first - 7) (omega arith) in
    let (ms, eo) = middle_packets n entry other (first - 7) in
    IsChain-of_tail first other (make_packet first_type (slice entry 0 (first - 7)))
      (ms ++ make_packet last_type (drop eo entry) ∷ [])
      (padding_of other (make_packet last_type (drop eo entry))) refl
      (omega (arith, length-slice entry 0 (first - 7) (omega arith) (omega arith)))
      (middle-IsTail other ms (make_packet last_type (drop eo entry))
        (padding_of other (make_packet last_type (drop eo entry)))
        (middle-AreMiddle n entry other (first - 7) (omega arith) (omega arith))
        (last-IsTail entry other eo (rw e lo) (rw e hi) ho))

-- Pack makes one full record that fits the room left in the block, or a first record that fills
-- that room, middle records that fill a block each, and a last record that holds some data and
-- fits a block; the padding is the rest behind the last record where a header does not fit, and 0
-- elsewhere. It holds for at least 7 bytes left in the first block and blocks of more than 7
-- bytes.
pub pack-IsChain :
    (entry : List ℕ) (first other : ℕ)
    → 7 ≤ first
    → 7 < other
    → IsChain first other (pack entry first other).0 (pack entry first other).1
unfolding pack pack_one make_packet
pack-IsChain entry first other hf ho = elim (dec_lt first (length entry + 7)) [
  | yes h ↦
      (let b = many_bounds entry first other hf ho h in
        let n : (cal_packet_num entry first other == 1) ≡ false = ground (arith, b.0) in
        rw n (many-IsChain entry first other (cal_packet_num entry first other) hf ho b.1 b.2))
  | no h ↦
      rw (num_one entry first other (omega arith))
        (refl, omega arith, padding_of-Pads first (make_packet full_type entry) (omega arith))
]
