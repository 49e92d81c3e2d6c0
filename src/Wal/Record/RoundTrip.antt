-- ===== src/Wal/Record/RoundTrip.antt =====
-- What `MarshalTo` leaves in the buffer, and that `Unmarshal` reads it back.
use vanus.Base.{
  Bool-cases, List, [], ap, arith, be_u16, be_u32, crc_checksum, crc_checksum-lt, drop, drop-drop,
  if◌then◌else◌, inl, inr, length, length-append, length-drop, ltb-false, lt→ltb, of_be_u32, refl,
  slice, suc, take-append_self, true, write_at, write_at-zero, ℕ, ◌%◌, ◌*◌, ◌++◌, ◌+◌, ◌-◌, ◌/◌,
  ◌<◌, ◌==◌, ◌∷◌, ◌≡◌, ◌≤◌,
}
use vanus.Wal.Record.{
  Record, marshal_body, marshal_crc, marshal_to, marshalled, panic, read, size, unmarshal,
}

-- The header and the data as they lie in a buffer.
abbrev pub image : Record → List ℕ
image r = be_u32 r.crc ++ be_u16 r.length_field ++ r.kind ∷ r.payload

-- The record with the checksum that `MarshalTo` fills in where the field is 0.
abbrev pub sealed : Record → Record
sealed r = record r { crc = if r.crc == 0 then crc_checksum (r.kind ∷ r.payload) else r.crc }

-- The bytes under the checksum are the type and the data.
checked_bytes :
    (b0 b1 b2 b3 b4 b5 k : ℕ) (p rest : List ℕ)
    → slice (b0 ∷ b1 ∷ b2 ∷ b3 ∷ b4 ∷ b5 ∷ k ∷ p ++ rest) 6 (7 + length p) ≡ k ∷ p
checked_bytes b0 b1 b2 b3 b4 b5 k p rest =
    let e : 7 + length p - 6 ≡ suc (length p) = omega arith in
    rw e (ap (λ t. k ∷ t) (take-append_self p rest))

-- A buffer with room for the header, by its bytes.
data Headed : List ℕ → Type 0 where
  headed : (a b c d e f g : ℕ) (rest : List ℕ) → Headed (a ∷ b ∷ c ∷ d ∷ e ∷ f ∷ g ∷ rest)

Headed-of_le : (buf : List ℕ) → 7 ≤ length buf → Headed buf
Headed-of_le (a ∷ b ∷ c ∷ d ∷ e ∷ f ∷ g ∷ rest) h = headed a b c d e f g rest
Headed-of_le _ h = absurd (omega arith)

nil_of_length : (p rest : List ℕ) → (length p == 0) ≡ true → p ++ drop (length p) rest ≡ rest
nil_of_length [] rest h = refl
nil_of_length (x ∷ p) rest h = absurd (ground arith)

body-image :
    (r : Record) (b0 b1 b2 b3 b4 b5 b6 : ℕ) (rest : List ℕ)
    → length r.payload ≤ length rest
    → marshal_body r (b0 ∷ b1 ∷ b2 ∷ b3 ∷ b4 ∷ b5 ∷ b6 ∷ rest)
      ≡ b0
          ∷ b1
          ∷ b2
          ∷ b3
          ∷ (r.length_field / 256 % 256)
          ∷ (r.length_field % 256)
          ∷ r.kind
          ∷ r.payload
        ++ drop (length r.payload) rest
unfolding marshal_body write_at
body-image r b0 b1 b2 b3 b4 b5 b6 rest h = elim (Bool-cases (length r.payload == 0)) [
  | inl e ↦ rw (e, nil_of_length r.payload rest e, write_at-zero rest [] (omega arith))
  | inr e ↦ rw (e, write_at-zero rest [] (omega arith), write_at-zero rest r.payload h)
]

crc-image :
    (r : Record) (b0 b1 b2 b3 b4 b5 : ℕ) (rest : List ℕ)
    → marshal_crc r (b0 ∷ b1 ∷ b2 ∷ b3 ∷ b4 ∷ b5 ∷ r.kind ∷ r.payload ++ rest) ≡ (sealed r).crc
unfolding marshal_crc
crc-image r b0 b1 b2 b3 b4 b5 rest = rw (checked_bytes b0 b1 b2 b3 b4 b5 r.kind r.payload rest)

marshal_to-image-Headed :
    (r : Record) {buf : List ℕ}
    → Headed buf
    → size r ≤ length buf
    → marshal_to r buf ≡ marshalled (size r) (sealed r) (image (sealed r) ++ drop (size r) buf)
unfolding marshal_to write_at
marshal_to-image-Headed r (headed b0 b1 b2 b3 b4 b5 b6 rest) h = rw (
  ltb-false _ _ h,
  body-image r b0 b1 b2 b3 b4 b5 b6 rest (omega arith),
  crc-image r b0 b1 b2 b3 (r.length_field / 256 % 256) (r.length_field % 256)
      (drop (length r.payload) rest),
  ← drop-drop 7 (length r.payload) (b0 ∷ b1 ∷ b2 ∷ b3 ∷ b4 ∷ b5 ∷ b6 ∷ rest),
)

-- MarshalTo into a buffer with room for the record succeeds: it returns the record's size, fills
-- in the checksum over the type and the data where the field was 0, and leaves the header and the
-- data at the front of the buffer and all bytes behind them as they were.
pub marshal_to-image :
    (r : Record) (buf : List ℕ)
    → size r ≤ length buf
    → marshal_to r buf ≡ marshalled (size r) (sealed r) (image (sealed r) ++ drop (size r) buf)
marshal_to-image r buf h = marshal_to-image-Headed r (Headed-of_le buf (omega arith)) h

-- A record whose fields fit their widths and whose length field is right.
pub record IsRecord (r : Record) : Type 0 where
  pub crc_fits : r.crc < 4294967296
  pub length_right : r.length_field ≡ length r.payload
  pub length_fits : length r.payload + 7 < 65536

sealed-IsRecord : (r : Record) → IsRecord r → IsRecord (sealed r)
sealed-IsRecord r v = ground (arith, crc_checksum-lt (r.kind ∷ r.payload))

of_be_u32_lem : (x : ℕ) → x < 4294967296 → of_be_u32 (be_u32 x) ≡ x
of_be_u32_lem x h = omega arith

-- What lies in a buffer as the image of a record is read back as that record.
pub unmarshal-image :
    (r : Record) (rest : List ℕ) → IsRecord r → unmarshal (image r ++ rest) ≡ read r
unfolding unmarshal
unmarshal-image r rest v =
    let bytes : List ℕ = image r ++ rest in
    let len : r.length_field / 256 % 256 * 256 + r.length_field % 256 ≡ length r.payload =
      omega arith in
    let crc : r.crc / 16777216 % 256 * 16777216
          + r.crc / 65536 % 256 * 65536
          + r.crc / 256 % 256 * 256
          + r.crc % 256
        ≡ r.crc =
      omega arith in
    let long : length bytes ≡ 7 + length r.payload + length rest =
      omega (arith, length-append r.payload rest) in
    let eo : (7 + length r.payload) % 65536 ≡ 7 + length r.payload = omega arith in
    let width : 7 + length r.payload - 7 ≡ length r.payload = omega arith in
    rw (
      ltb-false (length bytes) 7 (omega arith),
      crc,
      len,
      ltb-false (length bytes) (length r.payload + 7) (omega arith),
      eo,
      ltb-false (7 + length r.payload) 7 (omega arith),
      width,
      take-append_self r.payload rest,
      v.length_right,
    )

-- A record with less than 65529 bytes of data, a right length field and a uint32 checksum,
-- marshalled into a buffer with room for it, is read back from that buffer by Unmarshal with every
-- field, the checksum filled in where it was 0; the buffer keeps its length.
pub unmarshal-marshal_to :
    (r : Record) (buf : List ℕ)
    → IsRecord r
    → size r ≤ length buf
    → (out : List ℕ) × (marshal_to r buf ≡ marshalled (size r) (sealed r) out)
      × (length out ≡ length buf)
      × (unmarshal out ≡ read (sealed r))
unmarshal-marshal_to r buf v h = (
  image (sealed r) ++ drop (size r) buf,
  marshal_to-image r buf h,
  omega (arith, length-append r.payload (drop (size r) buf), length-drop (size r) buf),
  unmarshal-image (sealed r) (drop (size r) buf) (sealed-IsRecord r v),
)

-- From 65529 bytes of data on, reading back what was written is a slice out of range: the end of
-- the data is computed in 16 bits.
pub unmarshal-overflow :
    (r : Record) (rest : List ℕ)
    → r.length_field ≡ length r.payload
    → 65529 ≤ length r.payload
    → length r.payload < 65536
    → unmarshal (image r ++ rest) ≡ panic
unfolding unmarshal
unmarshal-overflow r rest e lo hi =
    let bytes : List ℕ = image r ++ rest in
    let len : r.length_field / 256 % 256 * 256 + r.length_field % 256 ≡ length r.payload =
      omega arith in
    let long : length bytes ≡ 7 + length r.payload + length rest =
      omega (arith, length-append r.payload rest) in
    rw (
      ltb-false (length bytes) 7 (omega arith),
      len,
      ltb-false (length bytes) (length r.payload + 7) (omega arith),
      lt→ltb ((7 + length r.payload) % 65536) 7 (omega arith),
    )
