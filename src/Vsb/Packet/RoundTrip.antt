-- ===== src/Vsb/Packet/RoundTrip.antt =====
-- internal/store/vsb/codec/packet.go: that each way to read a packet reads what was written.
use vanus.Base.{
  Bool, Bool-cases, List, [], ap, append-nil, append_assoc, arith, crc_checksum, crc_checksum-lt,
  drop, drop-drop, false, inl, inr, le_of_not_ltb, length, length-append, length-drop,
  length-le_bytes, length-take, ltb, ltb-false, lt→ltb, refl, same_number, slice, sym, take, true,
  ℕ, ◌++◌, ◌+◌, ◌-◌, ◌<◌, ◌^◌, ◌∙◌, ◌∷◌, ◌≡◌, ◌≤◌,
}
use vanus.Vsb.Codec.{Entry}
use vanus.Vsb.Header.RoundTrip.{le_value-le_bytes}
use vanus.Vsb.Packet.{
  PacketData, checksum_holds, data_entry, incomplete, marshal_packet, unmarshal_frame,
  unmarshal_last, unmarshal_packet, unmarshal_reader, unpacked, written,
}
use vanus.Vsb.Packet.Places.{
  length_at_back, length_in_front, length_of_cut, read_footer, read_length, read_packet,
}
use vanus.Vsb.Packet.Image.{
  crc_bytes_of, drop_front, frame_packet-image, front_bytes, length-front, length-packet,
  length_bytes, packet_bytes, take_front, u32_behind,
}

-- The data of an entry, as the encoder inside writes them and its decoder reads them.
pub record IsData (c : PacketData) (e : Entry) (body : List ℕ) : Type 0 where
  pub data_written :
      (buf : List ℕ)
      → length body ≤ length buf
      → c.marshal_data e buf ≡ written (length body) (body ++ drop (length body) buf)
  pub data_read : c.unmarshal_data body ≡ data_entry e
  pub data_fits : 12 + length body < 2 ^ 32

-- A buffer with room for the header, by its bytes.
data HasLength : List ℕ → Type 0 where
  has_length : (a b c d : ℕ) (rest : List ℕ) → HasLength (a ∷ b ∷ c ∷ d ∷ rest)

HasLength-of_le : (buf : List ℕ) → 4 ≤ length buf → HasLength buf
HasLength-of_le (a ∷ b ∷ c ∷ d ∷ rest) h = has_length a b c d rest
HasLength-of_le _ h = absurd (omega arith)

module _ (c : PacketData) (e : Entry) (body : List ℕ) (v : IsData c e body) where
  marshal_packet-HasLength :
      {buf : List ℕ}
      → HasLength buf
      → 12 + length body ≤ length buf
      → marshal_packet c e buf
        ≡ written (12 + length body) (packet_bytes body ++ drop (12 + length body) buf)
  unfolding marshal_packet
  marshal_packet-HasLength (has_length x y z w rest) h =
      let buf : List ℕ = x ∷ y ∷ z ∷ w ∷ rest in
      let n = length body in
      let inner : n + 8 ≡ 8 + n = omega arith in
      let outer : 4 + (8 + n) ≡ 12 + n = omega arith in
      let behind : drop 8 (drop n rest) ≡ drop (12 + n) buf =
        drop-drop n 8 rest
        ∙ ap (λ k. drop k rest) inner
        ∙ drop-drop 4 (8 + n) buf
        ∙ ap (λ k. drop k buf) outer in
      rw (
        ltb-false (length buf) 4 (omega arith),
        v.data_written rest (omega arith),
        ltb-false (length buf) (12 + n) h,
        frame_packet-image x y z w body (drop n rest) (omega (arith, length-drop n rest)),
        behind,
      )

  checksum_right :
      (len : ℕ) → len ≡ 12 + length body → checksum_holds len (packet_bytes body) ≡ true
  checksum_right len e =
      let front : len - 4 ≡ length (front_bytes body) = omega (arith, length-front body) in
      let crc = crc_checksum (front_bytes body) in
      rw (
        take_front (len - 4) (front_bytes body) (crc_bytes_of body) front,
        ← append-nil (crc_bytes_of body),
        u32_behind (front_bytes body) crc [] (len - 4) front
            (omega (arith, crc_checksum-lt (front_bytes body))),
        same_number crc,
      )

  data_slice : (len : ℕ) → len ≡ 12 + length body → slice (packet_bytes body) 4 (len - 8) ≡ body
  data_slice len e =
      let first = length_bytes body in
      let last = crc_bytes_of body in
      let width : len - 8 - 4 ≡ length body = omega arith in
      rw (
        append_assoc first (body ++ first) last,
        drop_front 4 first ((body ++ first) ++ last) (sym (length-le_bytes 4 (12 + length body))),
        append_assoc body first last,
        take_front (len - 8 - 4) body (first ++ last) width,
      )

  unmarshal_frame-packet :
      (check_crc : Bool)
      → unmarshal_frame c check_crc (12 + length body) (packet_bytes body)
        ≡ unpacked (12 + length body) e
  unfolding unmarshal_frame
  unmarshal_frame-packet true =
      rw (checksum_right (12 + length body) refl, data_slice (12 + length body) refl, v.data_read)
  unmarshal_frame-packet false = rw (data_slice (12 + length body) refl, v.data_read)

  pub unmarshal_packet-front :
      (check_crc : Bool) (rest : List ℕ)
      → unmarshal_packet c check_crc (packet_bytes body ++ rest) ≡ unpacked (12 + length body) e
  unfolding unmarshal_packet
  unmarshal_packet-front check_crc rest =
      let n = 12 + length body in
      let bytes : List ℕ = packet_bytes body ++ rest in
      let size : length bytes ≡ n + length rest =
        omega (arith, length-append (packet_bytes body) rest, length-packet body) in
      rw (
        ltb-false (length bytes) 4 (omega arith),
        length_in_front body rest v.data_fits,
        ltb-false n 12 (omega arith),
        ltb-false (length bytes) n (omega arith),
        take_front n (packet_bytes body) rest (sym (length-packet body)),
        unmarshal_frame-packet check_crc,
      )

  -- What is cut off before its end is incomplete.
  unmarshal_packet-cut :
      (check_crc : Bool) (k : ℕ)
      → k < 12 + length body
      → unmarshal_packet c check_crc (take k (packet_bytes body)) ≡ incomplete
  unfolding unmarshal_packet
  unmarshal_packet-cut check_crc k h =
      let n = 12 + length body in
      let bytes = take k (packet_bytes body) in
      let size : length bytes ≡ k =
        omega (arith, length-take k (packet_bytes body), length-packet body) in
      elim (Bool-cases (ltb (length bytes) 4)) [
        | inl e ↦ rw e
        | inr e ↦ rw (
          e,
          length_of_cut body k (omega (arith, le_of_not_ltb (length bytes) 4 e)) v.data_fits,
          ltb-false n 12 (omega arith),
          lt→ltb (length bytes) n (omega arith),
        )
      ]

  unmarshal_last-back :
      (check_crc : Bool) (before : List ℕ)
      → unmarshal_last c check_crc (before ++ packet_bytes body) ≡ unpacked (12 + length body) e
  unfolding unmarshal_last
  unmarshal_last-back check_crc before =
      let n = 12 + length body in
      let bytes : List ℕ = before ++ packet_bytes body in
      let size : length bytes ≡ length before + n =
        omega (arith, length-append before (packet_bytes body), length-packet body) in
      rw (
        ltb-false (length bytes) 8 (omega arith),
        length_at_back body before (length bytes - 8) (omega arith) v.data_fits,
        ltb-false n 12 (omega arith),
        ltb-false (length bytes) n (omega arith),
        drop_front (length bytes - n) before (packet_bytes body) (omega arith),
        unmarshal_frame-packet check_crc,
      )

  unmarshal_reader-inside :
      (check_crc : Bool) (before rest : List ℕ)
      → unmarshal_reader c check_crc (before ++ (packet_bytes body ++ rest)) (length before)
        ≡ unpacked (12 + length body) e
  unfolding unmarshal_reader
  unmarshal_reader-inside check_crc before rest =
      let n = 12 + length body in
      let p = length before in
      let lb = length_bytes body in
      let start : p + 4 + (n - 12) + 4 - (n - 4) ≡ p = omega arith in
      rw (
        unmarshal_reader,
        read_length body before rest,
        le_value-le_bytes 4 n (omega (arith, v.data_fits)),
        ltb-false n 12 (omega arith),
        read_footer body before rest lb (p + 4 + (n - 12)) (length-le_bytes 4 n) (omega arith),
        le_value-le_bytes 4 n (omega (arith, v.data_fits)),
        same_number n,
        ltb-false (p + 4 + (n - 12) + 4) (n - 4) (omega arith),
        start,
        read_packet body before rest,
        le_value-le_bytes 4 n (omega (arith, v.data_fits)),
        unmarshal_frame-packet check_crc,
      )

  -- An entry whose data encoder and decoder agree, marshalled as a packet into a buffer with room
  -- for it, is read back with the packet's length by each of the three ways to read, from the
  -- front of bytes, from their back and at the position of a reader, with or without the check of
  -- the checksum and whatever lies around; and every packet that is cut off before its end is
  -- incomplete. The length of the packet is a uint32.
  pub unmarshal-marshal_packet :
      (buf : List ℕ)
      → 12 + length body ≤ length buf
      → (out : List ℕ) × (length out ≡ 12 + length body)
        × (marshal_packet c e buf ≡ written (12 + length body) (out ++ drop (12 + length body) buf))
        × ((check_crc : Bool) (before rest : List ℕ)
            → (unmarshal_packet c check_crc (out ++ rest) ≡ unpacked (12 + length body) e)
              × (unmarshal_last c check_crc (before ++ out) ≡ unpacked (12 + length body) e)
              × (unmarshal_reader c check_crc (before ++ (out ++ rest)) (length before)
                  ≡ unpacked (12 + length body) e))
        × ((check_crc : Bool) (k : ℕ)
            → k < 12 + length body
            → unmarshal_packet c check_crc (take k out) ≡ incomplete)
  unmarshal-marshal_packet buf room = (
    packet_bytes body,
    length-packet body,
    marshal_packet-HasLength (HasLength-of_le buf (omega arith)) room,
    (λ check_crc before rest. (
      unmarshal_packet-front check_crc rest,
      unmarshal_last-back check_crc before,
      unmarshal_reader-inside check_crc before rest,
    )),
    unmarshal_packet-cut,
  )
