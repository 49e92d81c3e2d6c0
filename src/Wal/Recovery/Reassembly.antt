-- ===== src/Wal/Recovery/Reassembly.antt =====
-- The scanner puts the records of an entry together again.
use vanus.Base.{
  List, Option, [], ap, append-nil, append_assoc, map, none, refl, true, ℕ, ◌++◌, ◌+◌, ◌<◌, ◌∙◌,
  ◌∷◌, ◌≡◌, ◌≤◌,
}
use vanus.Wal.Record.{
  Record, first_type, full_type, is_non_terminal, is_terminal, last_type, middle_type, size,
}
use vanus.Wal.Pack.{pack}
use vanus.Wal.Pack.Shape.{joined, joined-pack}
use vanus.Wal.Pack.Layout.{IsChain, IsTail, pack-IsChain}
use vanus.Wal.Recovery.{Range, Scanner, Stop, deliver, may_begin, on_record, settle, unless_stopped}

-- Records one after another from an offset on, each with the offset of its end.
abbrev pub placed_at : ℕ → List Record → List (Record × ℕ)
placed_at at [] = []
placed_at at (r ∷ rs) = (r, at + size r) ∷ placed_at (at + size r) rs

-- The offset behind the last record.
abbrev pub end_at : ℕ → List (Record × ℕ) → ℕ
end_at at [] = at
end_at at ((r, eo) ∷ ps) = end_at eo ps

abbrev pub records_of : List (Record × ℕ) → List Record
records_of = map (λ p. p.0)

module _ {S E : Type 0} (cb : List ℕ → Range → S → S × Option E) where
  -- The records handed to `onRecord` in turn, up to the first stop.
  unfoldable pub feed : Scanner S → List (Record × ℕ) → Scanner S × Option (Stop E)
  feed sc [] = (sc, none)
  feed sc ((r, eo) ∷ ps) = unless_stopped (on_record cb sc r eo) (λ sc'. feed sc' ps)

  -- Between two entries nothing is buffered.
  pub record IsIdle (sc : Scanner S) : Type 0 where
    pub empty : sc.buffer ≡ []
    pub ready : may_begin sc.last ≡ true

  -- What the scanner is after it delivered an entry that ends at `eo`.
  abbrev pub delivered : Scanner S → ℕ → ℕ → S → Scanner S
  delivered sc kind eo st = record sc { buffer = []; last = kind; eo = eo; state = st }

  on_record-middle :
      (sc : Scanner S) (r : Record) (eo : ℕ)
      → r.kind ≡ middle_type
      → is_non_terminal sc.last ≡ true
      → on_record cb sc r eo
        ≡ (record sc { buffer = sc.buffer ++ r.payload; last = middle_type }, none)
  unfolding on_record settle is_terminal
  on_record-middle sc r eo k h = rw (k, h)

  on_record-first :
      (sc : Scanner S) (r : Record) (eo : ℕ)
      → r.kind ≡ first_type
      → may_begin sc.last ≡ true
      → on_record cb sc r eo
        ≡ (record sc { buffer = sc.buffer ++ r.payload; last = first_type }, none)
  unfolding on_record settle is_terminal
  on_record-first sc r eo k h = rw (k, h)

  on_record-last :
      (sc : Scanner S) (r : Record) (eo : ℕ) (st : S)
      → r.kind ≡ last_type
      → is_non_terminal sc.last ≡ true
      → cb (sc.buffer ++ r.payload) (record { so = sc.eo; eo = eo }) sc.state ≡ (st, none)
      → on_record cb sc r eo ≡ (delivered sc last_type eo st, none)
  unfolding on_record settle is_terminal deliver
  on_record-last sc r eo st k h c = rw (k, h) (rw (c, deliver) (rw c refl))

  on_record-full :
      (sc : Scanner S) (r : Record) (eo : ℕ) (st : S)
      → r.kind ≡ full_type
      → IsIdle sc
      → cb r.payload (record { so = sc.eo; eo = eo }) sc.state ≡ (st, none)
      → on_record cb sc r eo ≡ (delivered sc full_type eo st, none)
  unfolding on_record settle is_terminal deliver
  on_record-full sc r eo st k v c = rw (k, v.ready) (rw (c, deliver) (rw (c, v.empty)))

  feed_cons :
      (sc sc' : Scanner S) (r : Record) (eo : ℕ) (ps : List (Record × ℕ))
      → on_record cb sc r eo ≡ (sc', none)
      → feed sc ((r, eo) ∷ ps) ≡ feed sc' ps
  unfolding feed
  feed_cons sc sc' r eo ps h = rw h

  feed_tail :
      (sc : Scanner S) (ps : List (Record × ℕ)) (at other padding : ℕ) (st : S)
      → IsTail other (records_of ps) padding
      → is_non_terminal sc.last ≡ true
      → cb (sc.buffer ++ joined (records_of ps)) (record { so = sc.eo; eo = end_at at ps }) sc.state
        ≡ (st, none)
      → feed sc ps ≡ (delivered sc last_type (end_at at ps) st, none)
  unfolding feed joined
  feed_tail sc [] at other padding st t h c = absurd t
  feed_tail sc ((r, eo) ∷ []) at other padding st t h c =
      feed_cons sc (delivered sc last_type eo st) r eo []
        (on_record-last sc r eo st t.0 h (rw append-nil at c))
  feed_tail sc ((r, eo) ∷ (q, eq) ∷ ps) at other padding st t h c =
      let sc' = record sc { buffer = sc.buffer ++ r.payload; last = middle_type } in
      feed_cons sc sc' r eo ((q, eq) ∷ ps) (on_record-middle sc r eo t.0 h)
      ∙ feed_tail sc' ((q, eq) ∷ ps) eo other padding st t.2 (unfold is_non_terminal in refl)
          (rw append_assoc c)

  feed_chain :
      (sc : Scanner S) (ps : List (Record × ℕ)) (first other padding : ℕ) (st : S)
      → IsChain first other (records_of ps) padding
      → IsIdle sc
      → cb (joined (records_of ps)) (record { so = sc.eo; eo = end_at sc.eo ps }) sc.state
        ≡ (st, none)
      → (kind : ℕ) × (feed sc ps ≡ (delivered sc kind (end_at sc.eo ps) st, none))
        × IsIdle (delivered sc kind (end_at sc.eo ps) st)
  unfolding feed joined may_begin is_terminal is_non_terminal
  feed_chain sc [] first other padding st t v c = absurd t
  feed_chain sc ((r, eo) ∷ []) first other padding st t v c = (
    full_type,
    feed_cons sc (delivered sc full_type eo st) r eo []
        (on_record-full sc r eo st t.0 v (rw append-nil at c)),
    record { empty = refl; ready = refl },
  )
  feed_chain sc ((r, eo) ∷ (q, eq) ∷ ps) first other padding st t v c =
      let sc' = record sc { buffer = sc.buffer ++ r.payload; last = first_type } in
      (
        last_type,
        feed_cons sc sc' r eo ((q, eq) ∷ ps) (on_record-first sc r eo t.0 v.ready)
            ∙ feed_tail sc' ((q, eq) ∷ ps) eo other padding st t.2 refl (rw v.empty c),
        record { empty = refl; ready = refl },
      )

  -- The records that Pack makes of an entry, handed to onRecord in turn between two entries, make
  -- it call back exactly once, with the entry and the range from the end of the entry before to
  -- the end of the last record; the scanner is then between two entries again. It holds for at
  -- least 7 bytes left in the first block, blocks of more than 7 bytes, and a callback that
  -- accepts the entry.
  pub feed-pack :
      (sc : Scanner S) (entry : List ℕ) (first other : ℕ) (ps : List (Record × ℕ)) (st : S)
      → 7 ≤ first
      → 7 < other
      → records_of ps ≡ (pack entry first other).0
      → IsIdle sc
      → cb entry (record { so = sc.eo; eo = end_at sc.eo ps }) sc.state ≡ (st, none)
      → (kind : ℕ) × (feed sc ps ≡ (delivered sc kind (end_at sc.eo ps) st, none))
        × IsIdle (delivered sc kind (end_at sc.eo ps) st)
  feed-pack sc entry first other ps st hf ho e v c =
      feed_chain sc ps first other (pack entry first other).1 st
        (rw e (pack-IsChain entry first other hf ho)) v
        (rw (ap joined e ∙ joined-pack entry first other hf ho) c)
