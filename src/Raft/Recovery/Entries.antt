-- ===== src/Raft/Recovery/Entries.antt =====
-- The calls of onEntry for what Append handed to the write-ahead log.
use mathlib.Core.Path.{subst}
use vanus.Base.{
  List, Option-cases, [], ap, cons_some, inl, inr, map, none, refl, same_number, some, sym, zip,
  zip_none, ℕ, ◌++◌, ◌∙◌, ◌∷◌, ◌≡◌,
}
use vanus.Raft.Log.{LogStorage, RaftEntry}
use vanus.Raft.Log.Append.{EntryCodec, marked, marshal_entries}
use vanus.Raft.Log.Append.Prepared.{cons_some-invert}
use vanus.Raft.Recovery.{
  Recovering, Storages, append_in_recovery, on_entries, on_entry, recovered, recovery_panic,
  replaced, set_storage, storage_of, storages, storages_error, storages_panic,
}
use vanus.Raft.Recovery.Replay.{replay_from}

-- The storages of a server with one node.
abbrev pub single : ℕ → Recovering → Storages
single node (recovered s) = storages ((node, s) ∷ [])
single node recovery_panic = storages_panic

replaced-single :
    (node : ℕ) (s : LogStorage) (r : Recovering) → replaced node ((node, s) ∷ []) r ≡ single node r
unfolding set_storage
replaced-single node s (recovered t) = rw (same_number node, set_storage) refl
replaced-single node s recovery_panic = refl

on_own_entry :
    (codec : EntryCodec) (node : ℕ) (s : LogStorage) (e : RaftEntry) (bytes : List ℕ) (so : ℕ)
    → codec.marshal (marked node e) ≡ some bytes
    → on_entry codec ((node, s) ∷ []) bytes so
      ≡ single node (append_in_recovery s (marked node e) so)
unfolding on_entry storage_of
on_own_entry codec node s e bytes so h =
    rw (codec.unmarshal-marshal (marked node e) bytes h, on_entry)
      (rw (same_number node, storage_of)
        (replaced-single node s (append_in_recovery s (marked node e) so)))

marshal-cons :
    (codec : EntryCodec) (node : ℕ) (e : RaftEntry) (es : List RaftEntry) (bytes : List (List ℕ))
    → marshal_entries codec node (e ∷ es) ≡ some bytes
    → (b : List ℕ) × ((rest : List (List ℕ)) × ((bytes ≡ b ∷ rest)
          × ((codec.marshal (marked node e) ≡ some b)
              × (marshal_entries codec node es ≡ some rest))))
unfolding marshal_entries
marshal-cons codec node e es bytes h = elim (Option-cases (codec.marshal (marked node e))) [
  | inl q ↦ absurd (let g : none ≡ some bytes = sym (rw (q, marshal_entries) refl) ∙ h in cc)
  | inr b ↦
      (let g : cons_some b.0 (marshal_entries codec node es) ≡ some bytes =
          sym (rw (b.1, marshal_entries) refl) ∙ h in
        let cut = cons_some-invert b.0 (marshal_entries codec node es) bytes g in
        (b.0, (cut.0, (cut.1.1, (b.1, cut.1.0)))))
]

entries_after_panic :
    (codec : EntryCodec) (xs : List (List ℕ × ℕ))
    → on_entries codec storages_panic xs ≡ storages_panic
unfolding on_entries
entries_after_panic codec [] = refl
entries_after_panic codec (x ∷ xs) = refl

entries_after_error :
    (codec : EntryCodec) (xs : List (List ℕ × ℕ))
    → on_entries codec storages_error xs ≡ storages_error
unfolding on_entries
entries_after_error codec [] = refl
entries_after_error codec (x ∷ xs) = refl

replay_after_panic : (xs : List (RaftEntry × ℕ)) → replay_from recovery_panic xs ≡ recovery_panic
unfolding replay_from
replay_after_panic [] = refl
replay_after_panic (x ∷ xs) = refl

-- What Append handed to the write-ahead log, handed to onEntry.
pub on_entries-replay :
    (codec : EntryCodec) (node : ℕ) (r : Recovering) (kept : List RaftEntry) (bytes : List (List ℕ))
    (offs : List ℕ)
    → marshal_entries codec node kept ≡ some bytes
    → on_entries codec (single node r) (zip bytes offs)
      ≡ single node (replay_from r (zip (map (marked node) kept) offs))
unfolding marshal_entries on_entries replay_from
on_entries-replay codec node r [] bytes offs h =
    let e : [] ≡ bytes = cc in
    subst (λ b. on_entries codec (single node r) (zip b offs) ≡ single node r) e refl
on_entries-replay codec node recovery_panic (e ∷ es) bytes offs h =
    entries_after_panic codec (zip bytes offs)
    ∙ ap (single node) (sym (replay_after_panic (zip (map (marked node) (e ∷ es)) offs)))
on_entries-replay codec node (recovered s) (e ∷ es) bytes [] h =
    ap (on_entries codec (storages ((node, s) ∷ []))) (zip_none bytes)
on_entries-replay codec node (recovered s) (e ∷ es) bytes (so ∷ offs) h =
    let cut = marshal-cons codec node e es bytes h in
    let next = append_in_recovery s (marked node e) so in
    subst
      (λ b.
        on_entries codec (storages ((node, s) ∷ [])) (zip b (so ∷ offs))
        ≡ single node (replay_from next (zip (map (marked node) es) offs)))
      (sym cut.1.1.0)
      (ap (λ x. on_entries codec x (zip cut.1.0 offs))
          (on_own_entry codec node s e cut.0 so cut.1.1.1.0)
        ∙ on_entries-replay codec node next es cut.1.0 offs cut.1.1.1.1)

pub on_entries-append :
    (codec : EntryCodec) (sb : Storages) (xs ys : List (List ℕ × ℕ))
    → on_entries codec sb (xs ++ ys) ≡ on_entries codec (on_entries codec sb xs) ys
unfolding on_entries
on_entries-append codec sb [] ys = refl
on_entries-append codec (storages s) (x ∷ xs) ys =
    on_entries-append codec (on_entry codec s x.0 x.1) xs ys
on_entries-append codec storages_panic (x ∷ xs) ys = sym (entries_after_panic codec ys)
on_entries-append codec storages_error (x ∷ xs) ys = sym (entries_after_error codec ys)
