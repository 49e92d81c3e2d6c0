-- ===== src/Base/Bytes.antt =====
-- Bytes as native numbers below 256: fixed-width encodings in both orders, reads and writes of a
-- buffer at an offset (Go's `encoding/binary` and `copy`), and the checksum of `hash/crc32`.
use Prim.Native.Nat.{ℕ, zero, suc, ◌+◌, ◌-◌, ◌*◌, ◌/◌, ◌%◌, ◌^◌, ◌<◌, ◌≤◌, bit_xor}
use mathlib.Core.Path.{◌≡◌, refl, ap}
use mathlib.Core.List.{List, [], ◌∷◌, ◌++◌}
use native.Mathlib.Omega.{arith}
use vanus.Base.Tests.{if◌then◌else◌, ◌==◌}
use vanus.Base.Lists.{drop, length, take}

-- `binary.BigEndian.PutUint16` and `PutUint32`: the bytes that are written.
abbrev pub be_u16 : ℕ → List ℕ
be_u16 x = (x / 256 % 256) ∷ (x % 256) ∷ []

abbrev pub be_u32 : ℕ → List ℕ
be_u32 x = (x / 16777216 % 256) ∷ (x / 65536 % 256) ∷ (x / 256 % 256) ∷ (x % 256) ∷ []

-- `binary.BigEndian.Uint16` and `Uint32`; Go faults on a shorter slice, which the callers exclude.
abbrev pub of_be_u16 : List ℕ → ℕ
of_be_u16 (a ∷ b ∷ _) = a * 256 + b
of_be_u16 _ = 0

abbrev pub of_be_u32 : List ℕ → ℕ
of_be_u32 (a ∷ b ∷ c ∷ d ∷ _) = a * 16777216 + b * 65536 + c * 256 + d
of_be_u32 _ = 0

-- `binary.LittleEndian`: the `w` low bytes of `x`, the lowest first.
unfoldable pub le_bytes : ℕ → ℕ → List ℕ
le_bytes zero x = []
le_bytes (suc w) x = (x % 256) ∷ le_bytes w (x / 256)

-- The number that a list of bytes stands for, the lowest first.
unfoldable pub le_value : List ℕ → ℕ
le_value [] = 0
le_value (b ∷ bs) = b + 256 * le_value bs

pub length-le_bytes : (w x : ℕ) → length (le_bytes w x) ≡ w
unfolding le_bytes
length-le_bytes zero x = refl
length-le_bytes (suc w) x = ap suc (length-le_bytes w (x / 256))

-- `copy(buf[off:], bytes)` for bytes that fit; what is outside stays.
unfoldable pub write_at : List ℕ → ℕ → List ℕ → List ℕ
write_at [] off bytes = []
write_at (b ∷ buf) (suc off) bytes = b ∷ write_at buf off bytes
write_at (b ∷ buf) zero [] = b ∷ buf
write_at (b ∷ buf) zero (x ∷ bytes) = x ∷ write_at buf zero bytes

pub length-write_at :
    (buf : List ℕ) (off : ℕ) (bytes : List ℕ) → length (write_at buf off bytes) ≡ length buf
unfolding write_at
length-write_at [] off bytes = refl
length-write_at (b ∷ buf) (suc off) bytes = ap suc (length-write_at buf off bytes)
length-write_at (b ∷ buf) zero [] = refl
length-write_at (b ∷ buf) zero (x ∷ bytes) = ap suc (length-write_at buf zero bytes)

pub write_at-zero :
    (buf bytes : List ℕ)
    → length bytes ≤ length buf
    → write_at buf zero bytes ≡ bytes ++ drop (length bytes) buf
unfolding write_at
write_at-zero [] [] h = refl
write_at-zero [] (x ∷ bytes) h = absurd (omega arith)
write_at-zero (b ∷ buf) [] h = refl
write_at-zero (b ∷ buf) (x ∷ bytes) h = ap (λ t. x ∷ t) (write_at-zero buf bytes (omega arith))

-- `buf[so:eo]`.
abbrev pub slice {ℓ} : {A : Type ℓ} → List A → ℕ → ℕ → List A
slice buf so eo = take (eo - so) (drop so buf)

-- One bit of the reflected CRC-32C (Castagnoli) division.
crc_bit : ℕ → ℕ
crc_bit c = if c % 2 == 1 then bit_xor (c / 2) 0x82f6_3b78 else c / 2

crc_bits : ℕ → ℕ → ℕ
unfolding crc_bit
crc_bits zero c = c
crc_bits (suc n) c = crc_bits n (crc_bit c)

crc_bytes : ℕ → List ℕ → ℕ
unfolding crc_bits
crc_bytes c [] = c
crc_bytes c (b ∷ bs) = crc_bytes (crc_bits 8 (bit_xor c b)) bs

-- `crc32.Update(crc, crc32q, bytes)`, a uint32.
unfoldable pub crc_update : ℕ → List ℕ → ℕ
unfolding crc_bytes
crc_update crc bytes = bit_xor (crc_bytes (bit_xor crc 0xffff_ffff) bytes) 0xffff_ffff % 2 ^ 32

-- `crc32.Checksum(bytes, crc32q)`.
unfoldable pub crc_checksum : List ℕ → ℕ
unfolding crc_update
crc_checksum bytes = crc_update 0 bytes

pub crc_update-lt : (crc : ℕ) (bytes : List ℕ) → crc_update crc bytes < 4294967296
unfolding crc_update
crc_update-lt crc bytes = omega arith

pub crc_checksum-lt : (bytes : List ℕ) → crc_checksum bytes < 4294967296
unfolding crc_checksum
crc_checksum-lt bytes = crc_update-lt 0 bytes

-- The check value of CRC-32C over the text "123456789".
crc_check_value : crc_checksum (49 ∷ 50 ∷ 51 ∷ 52 ∷ 53 ∷ 54 ∷ 55 ∷ 56 ∷ 57 ∷ []) ≡ 0xe306_9283
unfolding crc_checksum
crc_check_value = refl
