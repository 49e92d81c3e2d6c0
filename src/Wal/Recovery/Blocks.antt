-- ===== src/Wal/Recovery/Blocks.antt =====
-- The scan of one block reads the records that were laid out in it.
use vanus.Base.{
  Bool-cases, List, Option, [], ap, append_assoc, arith, drop, drop-append_self, drop-drop, false,
  inl, inr, leb-false, length, le→leb, ltb-false, none, refl, replicate, some, suc, sym, ℕ, ◌++◌,
  ◌+◌, ◌<◌, ◌==◌, ◌∙◌, ◌∷◌, ◌≡◌, ◌≤◌,
}
use vanus.Wal.Record.{Record, empty_record, is_terminal, read, size, unmarshal, zero_type}
use vanus.Wal.Record.RoundTrip.{IsRecord, image, unmarshal-image}
use vanus.Wal.Recovery.Reassembly.{feed, placed_at}
use vanus.Wal.Recovery.{
  Range, Scanner, Stop, deliver, end_of_log, on_record, scan_block, scan_record, settle,
  unless_stopped,
}

-- The records as they lie in a block.
abbrev pub images : List Record → List ℕ
images [] = []
images (r ∷ rs) = image r ++ images rs

abbrev pub total : List Record → ℕ
total [] = 0
total (r ∷ rs) = size r + total rs

-- Records that can be written and are no zero records.
abbrev pub AreRecords : List Record → Type 0
AreRecords [] = Unit {0}
AreRecords (r ∷ rs) = IsRecord r × ((r.kind == zero_type) ≡ false) × AreRecords rs

drop-image :
    (r : Record) (buf rest : List ℕ) (so : ℕ)
    → drop so buf ≡ image r ++ rest
    → drop (so + size r) buf ≡ rest
drop-image r buf rest so e =
    let n : size r ≡ length (image r) = omega arith in
    rw (← drop-drop so (size r) buf, e, n) (drop-append_self (image r) rest)

drop-images :
    (rs : List Record) (buf rest : List ℕ) (so : ℕ)
    → drop so buf ≡ images rs ++ rest
    → drop (so + total rs) buf ≡ rest
drop-images [] buf rest so e = let z : so + 0 ≡ so = omega arith in rw z e
drop-images (r ∷ rs) buf rest so e =
    let a : so + (size r + total rs) ≡ so + size r + total rs = omega arith in
    rw a (
      drop-images rs buf rest (so + size r)
        (drop-image r buf (images rs ++ rest) so (e ∙ append_assoc (image r) (images rs) rest)))

-- Zeros read as an empty record of the type 0.
unmarshal_zeros : (n : ℕ) → unmarshal (replicate (7 + n) 0) ≡ read empty_record
unfolding unmarshal empty_record
unmarshal_zeros n =
    let e : 7 + n ≡ suc (suc (suc (suc (suc (suc (suc n)))))) = omega arith in
    let bytes : List ℕ = replicate (suc (suc (suc (suc (suc (suc (suc n))))))) 0 in
    rw e (rw (ltb-false (length bytes) 7 (omega arith)) refl)

module _ {S E : Type 0} (cb : List ℕ → Range → S → S × Option E) where
  settle-block_size :
      (sc : Scanner S) (kind eo : ℕ) → (settle sc kind eo).block_size ≡ sc.block_size
  unfolding settle
  settle-block_size sc kind eo = elim (Bool-cases (is_terminal kind)) [
    | inl e ↦ rw e
    | inr e ↦ rw e
  ]

  deliver-block_size :
      (sc : Scanner S) (entry : List ℕ) (kind eo : ℕ) (buffer : List ℕ)
      → (deliver cb sc entry kind eo buffer).0.block_size ≡ sc.block_size
  unfolding deliver
  deliver-block_size sc entry kind eo buffer =
      by_answer (cb entry (record { so = sc.eo; eo = eo }) sc.state).1 refl
    where
      by_answer :
          (err : Option E)
          → (cb entry (record { so = sc.eo; eo = eo }) sc.state).1 ≡ err
          → (deliver cb sc entry kind eo buffer).0.block_size ≡ sc.block_size
      by_answer none e = rw (e, deliver) (settle-block_size _ kind eo)
      by_answer (some x) e = rw (e, deliver)

  pub on_record-block_size :
      (sc : Scanner S) (r : Record) (eo : ℕ) → (on_record cb sc r eo).0.block_size ≡ sc.block_size
  unfolding on_record
  on_record-block_size sc r eo =
      let grown = record sc { buffer = sc.buffer ++ r.payload } in
      ground (
        arith,
        deliver-block_size sc r.payload r.kind eo sc.buffer,
        deliver-block_size grown grown.buffer r.kind eo [],
        settle-block_size grown r.kind eo,
        settle-block_size sc r.kind eo,
      )

  -- A stop of the records goes before the way in which the block ends.
  abbrev pub finish : Scanner S × Option (Stop E) → Option (Stop E) → Scanner S × Option (Stop E)
  finish (sc, some e) last = (sc, some e)
  finish (sc, none) last = (sc, last)

  scan_step :
      (fuel : ℕ) (sc : Scanner S) (buf : List ℕ) (bso so : ℕ) (r : Record) (rest : List ℕ)
      → drop so buf ≡ image r ++ rest
      → IsRecord r
      → (r.kind == zero_type) ≡ false
      → so + size r ≤ sc.block_size
      → scan_block cb (suc fuel) sc buf bso so
        ≡ unless_stopped
            (on_record cb sc r (bso + so + size r))
            (λ sc'. scan_block cb fuel sc' buf bso (so + size r))
  unfolding scan_block scan_record
  scan_step fuel sc buf bso so r rest e v k h =
      rw (le→leb (so + 7) sc.block_size (omega arith), e, unmarshal-image r rest v, k)

  go_on :
      (p : Scanner S × Option (Stop E)) (k k' : Scanner S → Scanner S × Option (Stop E))
      (last : Option (Stop E))
      → ((sc' : Scanner S) → p ≡ (sc', none) → k sc' ≡ finish (k' sc') last)
      → unless_stopped p k ≡ finish (unless_stopped p k') last
  go_on (sc', none) k k' last h = h sc' refl
  go_on (sc', some e) k k' last h = refl

  -- The scan of a block in which the records `rs` lie from `so` on. `last` is how the scan goes
  -- on behind them.
  block_feed :
      (rs : List Record) (fuel : ℕ) (sc : Scanner S) (buf tail : List ℕ) (bso so : ℕ)
      (last : Option (Stop E))
      → drop so buf ≡ images rs ++ tail
      → AreRecords rs
      → so + total rs ≤ sc.block_size
      → ((sc' : Scanner S)
          → sc'.block_size ≡ sc.block_size
          → scan_block cb fuel sc' buf bso (so + total rs) ≡ (sc', last))
      → scan_block cb (length rs + fuel) sc buf bso so
        ≡ finish (feed cb sc (placed_at (bso + so) rs)) last
  unfolding feed
  block_feed [] fuel sc buf tail bso so last e v h end =
      let z : so + 0 ≡ so = omega arith in
      let n : 0 + fuel ≡ fuel = omega arith in rw n (rw z at (end sc refl))
  block_feed (r ∷ rs) fuel sc buf tail bso so last e v h end =
      let n : suc (length rs) + fuel ≡ suc (length rs + fuel) = omega arith in
      let e' : drop so buf ≡ image r ++ (images rs ++ tail) =
        e ∙ append_assoc (image r) (images rs) tail in
      let a : so + (size r + total rs) ≡ so + size r + total rs = omega arith in
      let b : bso + (so + size r) ≡ bso + so + size r = omega arith in
      rw n (
        scan_step (length rs + fuel) sc buf bso so r (images rs ++ tail) e' v.0 v.1 (omega arith)
        ∙ go_on (on_record cb sc r (bso + so + size r))
            (λ sc'. scan_block cb (length rs + fuel) sc' buf bso (so + size r))
            (λ sc'. feed cb sc' (placed_at (bso + so + size r) rs)) last
            (λ sc' q.
              let size' : sc'.block_size ≡ sc.block_size =
                sym (ap (λ p. p.0.block_size) q) ∙ on_record-block_size sc r (bso + so + size r) in
              rw b at (
                block_feed rs fuel sc' buf tail bso (so + size r) last
                  (drop-image r buf (images rs ++ tail) so e') v.2 (omega (arith, size'))
                  (λ sc'' k. rw a at (end sc'' (k ∙ size'))))))

  -- The scan of a block in which records that can be written lie from an offset on, and which they
  -- fill but for less than 7 bytes, is the same as handing these records with their end offsets to
  -- onRecord in turn, and ends with no error of its own.
  pub scan_full_block :
      (rs : List Record) (sc : Scanner S) (buf tail : List ℕ) (bso so : ℕ)
      → drop so buf ≡ images rs ++ tail
      → AreRecords rs
      → so + total rs ≤ sc.block_size
      → sc.block_size < so + total rs + 7
      → scan_block cb (length rs + 1) sc buf bso so
        ≡ finish (feed cb sc (placed_at (bso + so) rs)) none
  scan_full_block rs sc buf tail bso so e v h full =
      block_feed rs 1 sc buf tail bso so none e v h (λ sc' k.
        unfold scan_block in rw (leb-false (so + total rs + 7) sc'.block_size (omega (arith, k))))

  -- The scan of a block in which records that can be written lie from an offset on, followed by at
  -- least 7 zeros within the block, hands these records with their end offsets to onRecord in
  -- turn, and then reports the end of the log unless one of them stopped it.
  pub scan_last_block :
      (rs : List Record) (sc : Scanner S) (buf : List ℕ) (bso so zeros : ℕ)
      → drop so buf ≡ images rs ++ replicate (7 + zeros) 0
      → AreRecords rs
      → so + total rs + 7 ≤ sc.block_size
      → scan_block cb (length rs + 1) sc buf bso so
        ≡ finish (feed cb sc (placed_at (bso + so) rs)) (some end_of_log)
  unfolding empty_record
  scan_last_block rs sc buf bso so zeros e v h =
      block_feed rs 1 sc buf (replicate (7 + zeros) 0) bso so (some end_of_log) e v (omega arith)
        (λ sc' k.
          unfold scan_block scan_record in
          rw (
            le→leb (so + total rs + 7) sc'.block_size (omega (arith, k)),
            drop-images rs buf (replicate (7 + zeros) 0) so e,
            unmarshal_zeros zeros,
          ))
