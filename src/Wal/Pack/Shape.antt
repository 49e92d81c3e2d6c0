-- ===== src/Wal/Pack/Shape.antt =====
-- What `Pack` makes of an entry: how many records, of which types and sizes, and with which data.
use native.Mathlib.Decide.{dec_lt}
use native.Mathlib.Nat.{div-add-mod, mod-lt}
use vanus.Base.{
  List, [], ap, append-nil, append_assoc, arith, drop, drop-drop, false, leb-false, length,
  length-drop, length-take, le→leb, refl, slice, suc, sym, take-append-drop, zero, ℕ, ◌%◌, ◌*◌,
  ◌++◌, ◌+◌, ◌-◌, ◌/◌, ◌<◌, ◌==◌, ◌∙◌, ◌∷◌, ◌≡◌, ◌≤◌,
}
use vanus.Wal.Record.{Record, last_type, middle_type, size}
use vanus.Wal.Pack.{cal_packet_num, make_packet, middle_packets, pack, pack_many, pack_one}

-- The middle packets: where the loop ends, how many there are, their type, size and data.
pub middle_end :
    (n : ℕ) (entry : List ℕ) (other fo : ℕ)
    → 7 ≤ other
    → (middle_packets n entry other fo).1 ≡ fo + n * (other - 7)
unfolding middle_packets
middle_end zero entry other fo h = omega arith
middle_end (suc n) entry other fo h = grind (arith, middle_end n entry other (fo + other - 7) h)

-- The data of a list of records, joined.
unfoldable pub joined : List Record → List ℕ
joined [] = []
joined (r ∷ rs) = r.payload ++ joined rs

pub joined-append : (rs ss : List Record) → joined (rs ++ ss) ≡ joined rs ++ joined ss
unfolding joined
joined-append [] ss = refl
joined-append (r ∷ rs) ss = rw (joined-append rs ss, append_assoc)

slice-append-drop : (xs : List ℕ) (fo eo : ℕ) → fo ≤ eo → slice xs fo eo ++ drop eo xs ≡ drop fo xs
slice-append-drop xs fo eo h =
    let e : eo ≡ fo + (eo - fo) = omega arith in
    rw (ap (λ k. drop k xs) e ∙ sym (drop-drop fo (eo - fo) xs))
      (take-append-drop (eo - fo) (drop fo xs))

middle_joined :
    (n : ℕ) (entry : List ℕ) (other fo : ℕ)
    → 7 ≤ other
    → joined (middle_packets n entry other fo).0 ++ drop (middle_packets n entry other fo).1 entry
      ≡ drop fo entry
unfolding middle_packets joined make_packet
middle_joined zero entry other fo h = refl
middle_joined (suc n) entry other fo h = rw (
  append_assoc,
  middle_joined n entry other (fo + other - 7) h,
  slice-append-drop entry fo (fo + other - 7) (omega arith),
)

-- The middle packets fill a block each.
abbrev pub AreMiddle : ℕ → List Record → Type 0
AreMiddle other [] = Unit {0}
AreMiddle other (r ∷ rs) = (r.kind ≡ middle_type) × (size r ≡ other) × AreMiddle other rs

pub length-slice :
    (xs : List ℕ) (fo eo : ℕ) → fo ≤ eo → eo ≤ length xs → length (slice xs fo eo) ≡ eo - fo
length-slice xs fo eo h k = omega (arith, length-take (eo - fo) (drop fo xs), length-drop fo xs)

pub middle-AreMiddle :
    (n : ℕ) (entry : List ℕ) (other fo : ℕ)
    → 7 ≤ other
    → fo + n * (other - 7) ≤ length entry
    → AreMiddle other (middle_packets n entry other fo).0
unfolding middle_packets make_packet
middle-AreMiddle zero entry other fo h k = tt
middle-AreMiddle (suc n) entry other fo h k =
    let room : fo + (other - 7) + n * (other - 7) ≤ length entry = grind arith in
    let eo : fo + other - 7 ≡ fo + (other - 7) = omega arith in
    (
      refl,
      omega (arith, length-slice entry fo (fo + other - 7) (omega arith) (omega arith)),
      middle-AreMiddle n entry other (fo + other - 7) h (rw eo room),
    )

-- The arithmetic of `calPacketNum`: `q` is the quotient by a block's room for data, `c`.
quotient_bounds :
    (q rest c len first : ℕ)
    → 7 ≤ first
    → first < len + 7
    → rest < c
    → c * q + rest ≡ len + (c + 7) - 1 - first
    → (2 ≤ 1 + q) × (first - 7 + (1 + q - 2) * c < len) × (len ≤ first - 7 + (1 + q - 2) * c + c)
quotient_bounds zero rest c len first hf h m e = absurd (omega arith)
quotient_bounds (suc q) rest c len first hf h m e =
    let d : 1 + suc q - 2 ≡ q = omega arith in rw d (omega arith)

-- With more data than the first packet takes, the number of packets leaves at least one byte and
-- at most one block's worth for the last.
pub many_bounds :
    (entry : List ℕ) (first other : ℕ)
    → 7 ≤ first
    → 7 < other
    → first < length entry + 7
    → let num = cal_packet_num entry first other in
      (2 ≤ num)
      × (first - 7 + (num - 2) * (other - 7) < length entry)
      × (length entry ≤ first - 7 + (num - 2) * (other - 7) + (other - 7))
unfolding cal_packet_num
many_bounds entry first other hf ho h =
    let t = length entry + other - 1 - first in
    let e : (other - 7) * (t / (other - 7)) + t % (other - 7) ≡ t = div-add-mod t (other - 7) in
    let m : t % (other - 7) < other - 7 = mod-lt t (omega arith) in
    rw (leb-false (length entry + 7) first h) (
      quotient_bounds (t / (other - 7)) (t % (other - 7)) (other - 7) (length entry) first hf h m
        (omega arith))

-- One packet is made exactly where the entry fits the first block.
pub num_one :
    (entry : List ℕ) (first other : ℕ)
    → length entry + 7 ≤ first
    → cal_packet_num entry first other ≡ 1
unfolding cal_packet_num
num_one entry first other h = rw (le→leb (length entry + 7) first h)

-- The data of the records that Pack makes, joined, are the entry, for at least 7 bytes left in the
-- first block and blocks of more than 7 bytes.
pub joined-pack :
    (entry : List ℕ) (first other : ℕ)
    → 7 ≤ first
    → 7 < other
    → joined (pack entry first other).0 ≡ entry
unfolding pack pack_one pack_many joined make_packet
joined-pack entry first other hf ho = elim (dec_lt first (length entry + 7)) [
  | yes h ↦
      (let b = many_bounds entry first other hf ho h in
        let n : (cal_packet_num entry first other == 1) ≡ false = ground (arith, b.0) in
        let middles =
          middle_packets (cal_packet_num entry first other - 2) entry other (first - 7) in
        let z : first - 7 - 0 ≡ first - 7 = omega arith in
        rw
          (
            n,
            z,
            joined-append middles.0 (make_packet last_type (drop middles.1 entry) ∷ []),
            append-nil,
            middle_joined (cal_packet_num entry first other - 2) entry other (first - 7)
                (omega arith),
          )
          (take-append-drop (first - 7) entry))
  | no h ↦ rw (num_one entry first other (omega arith)) (append-nil entry)
]
