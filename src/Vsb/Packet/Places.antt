-- ===== src/Vsb/Packet/Places.antt =====
-- internal/store/vsb/codec/packet.go: the lengths of a packet at their places, and the three reads of a
-- reader.
use vanus.Base.{
  List, [], ap, append-nil, append_assoc, arith, drop, drop_all, length, length-append,
  length-le_bytes, length-replicate, length-take, not_zero, refl, replicate, some, suc, sym, take,
  take-append-drop, write_at-zero, zero, ℕ, ◌++◌, ◌+◌, ◌<◌, ◌^◌, ◌∷◌, ◌≡◌, ◌≤◌,
}
use vanus.Vsb.Packet.{read_into, u32_at}
use vanus.Vsb.Packet.Image.{
  crc_bytes_of, drop_front, length-packet, length_bytes, packet_bytes, take_front, u32_behind,
}

pub read_into-front :
    (a b r buf : List ℕ) (pos : ℕ)
    → pos ≡ length a
    → length b ≡ length buf
    → 0 < length b
    → read_into (a ++ (b ++ r)) pos buf ≡ some (b, pos + length buf)
unfolding read_into
read_into-front a b r buf pos e same h = rw (
  drop_front pos a (b ++ r) e,
  take_front (length buf) b r (sym same),
  not_zero (length b) h,
  write_at-zero buf b (omega arith),
  same,
  drop_all (length buf) buf (omega arith),
  append-nil b,
)

take_of_long : (n : ℕ) (a b : List ℕ) → n ≤ length a → take n (a ++ b) ≡ take n a
take_of_long zero a b h = refl
take_of_long (suc n) [] b h = absurd (omega arith)
take_of_long (suc n) (x ∷ a) b h = ap (λ t. x ∷ t) (take_of_long n a b (omega arith))

-- The two lengths, read at their places, and the three reads of a reader.
pub length_in_front :
    (body rest : List ℕ)
    → 12 + length body < 2 ^ 32
    → u32_at (packet_bytes body ++ rest) 0 ≡ 12 + length body
length_in_front body rest h =
    let len = length_bytes body in
    rw (
      append_assoc len (body ++ len) (crc_bytes_of body),
      append_assoc len ((body ++ len) ++ crc_bytes_of body) rest,
      u32_behind [] (12 + length body) (((body ++ len) ++ crc_bytes_of body) ++ rest) 0 refl h,
    )

pub length_of_cut :
    (body : List ℕ) (k : ℕ)
    → 4 ≤ k
    → 12 + length body < 2 ^ 32
    → u32_at (take k (packet_bytes body)) 0 ≡ 12 + length body
length_of_cut body k h fits =
    let both : u32_at (take k (packet_bytes body) ++ drop k (packet_bytes body)) 0
        ≡ 12 + length body =
      rw (take-append-drop k (packet_bytes body), ← append-nil (packet_bytes body))
        (length_in_front body [] fits) in
    let four : take 4 (take k (packet_bytes body) ++ drop k (packet_bytes body))
        ≡ take 4 (take k (packet_bytes body)) =
      take_of_long 4 (take k (packet_bytes body)) (drop k (packet_bytes body))
        (omega (arith, length-take k (packet_bytes body), length-packet body)) in
    rw (← four) both

-- The packet, from its footer on.
footer_split :
    (body before rest : List ℕ)
    → before ++ (packet_bytes body ++ rest)
      ≡ (before ++ (length_bytes body ++ body))
        ++ (length_bytes body ++ (crc_bytes_of body ++ rest))
footer_split body before rest = simp (append_assoc)

length-before_footer :
    (body before : List ℕ)
    → length (before ++ (length_bytes body ++ body)) ≡ length before + 4 + length body
length-before_footer body before = omega (
  arith,
  length-append before (length_bytes body ++ body),
  length-append (length_bytes body) body,
  length-le_bytes 4 (12 + length body),
)

pub length_at_back :
    (body before : List ℕ) (off : ℕ)
    → off ≡ length before + 4 + length body
    → 12 + length body < 2 ^ 32
    → u32_at (before ++ packet_bytes body) off ≡ 12 + length body
length_at_back body before off e h =
    let front : List ℕ = before ++ (length_bytes body ++ body) in
    let whole : before ++ packet_bytes body ≡ front ++ (length_bytes body ++ crc_bytes_of body) =
      simp (append_assoc) in
    rw (
      whole,
      u32_behind front (12 + length body) (crc_bytes_of body) off
          (omega (arith, length-before_footer body before)) h,
    )

pub read_length :
    (body before rest : List ℕ)
    → read_into (before ++ (packet_bytes body ++ rest)) (length before) (replicate 4 0)
      ≡ some (length_bytes body, length before + 4)
read_length body before rest =
    let len = length_bytes body in
    let size : length len ≡ 4 = length-le_bytes 4 (12 + length body) in
    let inner : List ℕ = (body ++ len) ++ crc_bytes_of body in
    rw (
      append_assoc len (body ++ len) (crc_bytes_of body),
      append_assoc len inner rest,
      read_into-front before len (inner ++ rest) (replicate 4 0) (length before) refl size
          (omega (arith, size)),
    )

pub read_footer :
    (body before rest lb : List ℕ) (pos : ℕ)
    → length lb ≡ 4
    → pos ≡ length before + 4 + length body
    → read_into (before ++ (packet_bytes body ++ rest)) pos lb ≡ some (length_bytes body, pos + 4)
read_footer body before rest lb pos four e =
    let len = length_bytes body in
    let size : length len ≡ 4 = length-le_bytes 4 (12 + length body) in
    let front : List ℕ = before ++ (len ++ body) in
    rw (
      footer_split body before rest,
      read_into-front front len (crc_bytes_of body ++ rest) lb pos
          (omega (arith, length-before_footer body before)) (omega (arith, size))
          (omega (arith, size)),
      four,
    )

pub read_packet :
    (body before rest : List ℕ)
    → read_into
        (before ++ (packet_bytes body ++ rest))
        (length before)
        (replicate (12 + length body) 0)
      ≡ some (packet_bytes body, length before + (12 + length body))
read_packet body before rest =
    let n = 12 + length body in
    let size = length-replicate {A = ℕ} n 0 in
    rw (
      read_into-front before (packet_bytes body) rest (replicate n 0) (length before) refl
          (omega (arith, size, length-packet body)) (omega (arith, length-packet body)),
      size,
    )
