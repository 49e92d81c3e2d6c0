-- ===== src/Vsb/Packet/Image.antt =====
-- internal/store/vsb/codec/packet.go: the bytes of a packet, and what is read out of them.
use vanus.Base.{
  List, [], ap, append_assoc, arith, crc_checksum, drop, drop-append_self, drop-drop, le_bytes,
  length, length-append, length-drop, length-le_bytes, suc, sym, take, take-append_self, write_at,
  write_at-zero, zero, ℕ, ◌++◌, ◌+◌, ◌<◌, ◌^◌, ◌∷◌, ◌≡◌, ◌≤◌,
}
use vanus.Vsb.Header.RoundTrip.{le_value-le_bytes}
use vanus.Vsb.Packet.{frame_packet, u32_at}

pub take_front : (n : ℕ) (a b : List ℕ) → n ≡ length a → take n (a ++ b) ≡ a
take_front n a b e = rw (e, take-append_self a b)

pub drop_front : (n : ℕ) (a b : List ℕ) → n ≡ length a → drop n (a ++ b) ≡ b
drop_front n a b e = rw (e, drop-append_self a b)

write_behind :
    (a b bytes : List ℕ) (off : ℕ)
    → off ≡ length a
    → length bytes ≤ length b
    → write_at (a ++ b) off bytes ≡ a ++ (bytes ++ drop (length bytes) b)
unfolding write_at
write_behind [] b bytes zero e h = write_at-zero b bytes h
write_behind [] b bytes (suc off) e h = absurd (omega arith)
write_behind (x ∷ a) b bytes zero e h = absurd (omega arith)
write_behind (x ∷ a) b bytes (suc off) e h =
    ap (λ t. x ∷ t) (write_behind a b bytes off (omega arith) h)

-- The length, as it stands at both ends, the bytes under the checksum, and all of them.
abbrev pub length_bytes : List ℕ → List ℕ
length_bytes body = le_bytes 4 (12 + length body)

abbrev pub front_bytes : List ℕ → List ℕ
front_bytes body = length_bytes body ++ (body ++ length_bytes body)

abbrev pub crc_bytes_of : List ℕ → List ℕ
crc_bytes_of body = le_bytes 4 (crc_checksum (front_bytes body))

abbrev pub packet_bytes : List ℕ → List ℕ
packet_bytes body = front_bytes body ++ crc_bytes_of body

pub length-front : (body : List ℕ) → length (front_bytes body) ≡ 8 + length body
length-front body = omega (
  arith,
  length-append (length_bytes body) (body ++ length_bytes body),
  length-append body (length_bytes body),
  length-le_bytes 4 (12 + length body),
)

pub length-packet : (body : List ℕ) → length (packet_bytes body) ≡ 12 + length body
length-packet body = omega (
  arith,
  length-append (front_bytes body) (crc_bytes_of body),
  length-front body,
  length-le_bytes 4 (crc_checksum (front_bytes body)),
)

-- The lengths and the checksum go around the data that lie behind the first four bytes.
length_written :
    (a b c d : ℕ) (bytes rest : List ℕ)
    → 4 ≡ length bytes
    → write_at (a ∷ b ∷ c ∷ d ∷ rest) 0 bytes ≡ bytes ++ rest
length_written a b c d bytes rest e =
    rw (write_at-zero (a ∷ b ∷ c ∷ d ∷ rest) bytes (omega arith), ← e)

footer_written :
    (body tail : List ℕ)
    → 8 ≤ length tail
    → write_at (length_bytes body ++ (body ++ tail)) (4 + length body) (length_bytes body)
      ≡ front_bytes body ++ drop 4 tail
footer_written body tail h =
    let len = length_bytes body in
    let size : length len ≡ 4 = length-le_bytes 4 (12 + length body) in
    let placed =
      write_behind (len ++ body) tail len (4 + length body)
        (omega (arith, size, length-append len body)) (omega (arith, size)) in
    rw (
      ← append_assoc len body tail,
      placed,
      size,
      append_assoc len body (len ++ drop 4 tail),
      ← append_assoc body len (drop 4 tail),
      ← append_assoc len (body ++ len) (drop 4 tail),
    )

checksum_written :
    (body tail : List ℕ)
    → 8 ≤ length tail
    → write_at (front_bytes body ++ drop 4 tail) (8 + length body) (crc_bytes_of body)
      ≡ packet_bytes body ++ drop 8 tail
checksum_written body tail h =
    let size : length (crc_bytes_of body) ≡ 4 =
      length-le_bytes 4 (crc_checksum (front_bytes body)) in
    let placed =
      write_behind (front_bytes body) (drop 4 tail) (crc_bytes_of body) (8 + length body)
        (sym (length-front body)) (omega (arith, size, length-drop 4 tail)) in
    rw (
      placed,
      size,
      drop-drop 4 4 tail,
      append_assoc (front_bytes body) (crc_bytes_of body) (drop 8 tail),
    )

pub frame_packet-image :
    (a b c d : ℕ) (body tail : List ℕ)
    → 8 ≤ length tail
    → frame_packet (length body) (a ∷ b ∷ c ∷ d ∷ body ++ tail) ≡ packet_bytes body ++ drop 8 tail
unfolding frame_packet
frame_packet-image a b c d body tail h =
    let behind = drop 4 tail in
    rw (
      length_written a b c d (length_bytes body) (body ++ tail)
          (sym (length-le_bytes 4 (12 + length body))),
      footer_written body tail h,
      take_front (8 + length body) (front_bytes body) behind (sym (length-front body)),
      checksum_written body tail h,
    )

-- The four bytes of a number behind others are that number.
pub u32_behind :
    (a : List ℕ) (x : ℕ) (rest : List ℕ) (off : ℕ)
    → off ≡ length a
    → x < 2 ^ 32
    → u32_at (a ++ (le_bytes 4 x ++ rest)) off ≡ x
u32_behind a x rest off e h = rw (
  drop_front off a (le_bytes 4 x ++ rest) e,
  take_front 4 (le_bytes 4 x) rest (sym (length-le_bytes 4 x)),
  le_value-le_bytes 4 x (omega arith),
)
