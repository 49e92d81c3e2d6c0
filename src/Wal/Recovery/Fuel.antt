-- ===== src/Wal/Recovery/Fuel.antt =====
-- The scan of a block ends: every record takes seven bytes at least.
use vanus.Base.{
  Bool, Bool-cases, List, Option, [], arith, drop, false, if◌then◌else◌, inl, inr, leb, leb→le,
  none, refl, some, suc, true, zero, ℕ, ◌++◌, ◌+◌, ◌<◌, ◌==◌, ◌≡◌, ◌≤◌,
}
use vanus.Wal.Record.{
  Record, UnmarshalResult, first_type, full_type, header_size, incomplete, is_non_terminal,
  last_type, middle_type, panic, read, size, unmarshal, zero_type,
}
use vanus.Wal.Recovery.{
  Range, Scanner, Stop, deliver, may_begin, on_record, out_of_fuel, scan_block, scan_record,
  unless_stopped,
}
use vanus.Wal.Recovery.Blocks.{on_record-block_size}

module _ {S E : Type 0} (cb : List ℕ → Range → S → S × Option E) where
  -- The stop is not that the fuel ran out.
  abbrev pub IsReal : Option (Stop E) → Type 0
  IsReal (some out_of_fuel) = ⊥
  IsReal _ = Unit {0}

  deliver-IsReal :
      (sc : Scanner S) (entry : List ℕ) (kind eo : ℕ) (buffer : List ℕ)
      → IsReal (deliver cb sc entry kind eo buffer).1
  unfolding deliver
  deliver-IsReal sc entry kind eo buffer =
      by_answer (cb entry (record { so = sc.eo; eo = eo }) sc.state).1 refl
    where
      by_answer :
          (err : Option E)
          → (cb entry (record { so = sc.eo; eo = eo }) sc.state).1 ≡ err
          → IsReal (deliver cb sc entry kind eo buffer).1
      by_answer none e = rw (e, deliver) tt
      by_answer (some x) e = rw (e, deliver) tt

  by_test :
      (b : Bool) (x y : Scanner S × Option (Stop E))
      → IsReal x.1
      → IsReal y.1
      → IsReal (if b then x else y).1
  by_test true x y p q = p
  by_test false x y p q = q

  on_record-IsReal : (sc : Scanner S) (r : Record) (eo : ℕ) → IsReal (on_record cb sc r eo).1
  unfolding on_record
  on_record-IsReal sc r eo =
      let grown = record sc { buffer = sc.buffer ++ r.payload } in
      by_test (r.kind == full_type) _ _
        (by_test (may_begin sc.last) _ _ (deliver-IsReal sc r.payload r.kind eo sc.buffer) tt)
        (by_test (r.kind == first_type) _ _ (by_test (may_begin sc.last) _ _ tt tt) (
          by_test (r.kind == middle_type) _ _ (by_test (is_non_terminal sc.last) _ _ tt tt) (
            by_test (r.kind == last_type) _ _
              (by_test (is_non_terminal sc.last) _ _
                (deliver-IsReal grown grown.buffer r.kind eo []) tt)
              (by_test (r.kind == zero_type) _ _ tt tt))))

  unless_stopped-IsReal :
      (p : Scanner S × Option (Stop E)) (k : Scanner S → Scanner S × Option (Stop E))
      → IsReal p.1
      → IsReal (k p.0).1
      → IsReal (unless_stopped p k).1
  unless_stopped-IsReal (sc, none) k h g = g
  unless_stopped-IsReal (sc, some e) k h g = h

  scan_record-IsReal :
      (sc : Scanner S) (u : UnmarshalResult) (at : ℕ)
      (next : Scanner S → ℕ → Scanner S × Option (Stop E))
      → ((r : Record) → IsReal (next (on_record cb sc r (at + size r)).0 (size r)).1)
      → IsReal (scan_record cb sc u at next).1
  unfolding scan_record
  scan_record-IsReal sc (incomplete r) at next h = tt
  scan_record-IsReal sc panic at next h = tt
  scan_record-IsReal sc (read r) at next h = by_test (r.kind == zero_type) _ _ tt (
      unless_stopped-IsReal (on_record cb sc r (at + size r)) (λ sc'. next sc' (size r))
        (on_record-IsReal sc r (at + size r)) (h r))

  -- The scan of a block ends by itself, whatever the block and the callback, within one round more
  -- than the bytes left in the block.
  pub scan_block-total :
      (fuel : ℕ) (sc : Scanner S) (buf : List ℕ) (bso so : ℕ)
      → 0 < fuel
      → sc.block_size < so + fuel
      → IsReal (scan_block cb fuel sc buf bso so).1
  unfolding scan_block
  scan_block-total zero sc buf bso so p h = absurd (omega arith)
  scan_block-total (suc fuel) sc buf bso so p h =
      elim (Bool-cases (leb (so + header_size) sc.block_size)) [
        | inr e ↦ rw (e, IsReal) tt
        | inl e ↦
            (let room : so + header_size ≤ sc.block_size = leb→le _ _ e in
              rw (e, IsReal)
                (scan_record-IsReal sc (unmarshal (drop so buf)) (bso + so)
                  (λ sc' sz. scan_block cb fuel sc' buf bso (so + sz))
                  (λ r.
                    scan_block-total fuel (on_record cb sc r (bso + so + size r)).0 buf bso
                      (so + size r) (omega arith)
                      (omega (arith, on_record-block_size cb sc r (bso + so + size r))))))
      ]
