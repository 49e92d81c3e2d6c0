-- ===== src/Raft/Recovery/Mirror.antt =====
-- Logs that are the same but for the nodes that their entries are marked with.
use vanus.Base.{
  List, [], ap, arith, length, length-map, map, refl, suc, sym, take, zero, ℕ, ◌++◌, ◌-◌, ◌∙◌, ◌∷◌,
  ◌≡◌,
}
use vanus.Raft.Log.{LogStorage, RaftEntry, entry_or, first_index}
use vanus.Raft.Log.Append.{marked}
use vanus.Raft.Log.Chain.{Follow}
use vanus.Raft.Log.Append.Stored.{Within, spliced}

-- The entries but for the node that they are marked with.
abbrev pub IsMirrored : ℕ → LogStorage → LogStorage → Type 0
IsMirrored node s r = map (marked node) r.ents ≡ map (marked node) s.ents

marked_at :
    (node : ℕ) (xs : List RaftEntry) (i : ℕ)
    → ((entry_or (map (marked node) xs) i).index ≡ (entry_or xs i).index)
      × ((entry_or (map (marked node) xs) i).term ≡ (entry_or xs i).term)
marked_at node [] i = (refl, refl)
marked_at node (x ∷ xs) zero = (refl, refl)
marked_at node (x ∷ xs) (suc i) = marked_at node xs i

pub marked_row :
    (node : ℕ) (d : RaftEntry) (xs : List RaftEntry)
    → Follow d xs
    → Follow (marked node d) (map (marked node) xs)
unfolding Follow
marked_row node d [] f = tt
marked_row node d (x ∷ xs) f = (f.0, (f.1.0, marked_row node x xs f.1.1))

pub record IsSame (s r : LogStorage) : Type 0 where
  pub index_same : (i : ℕ) → (entry_or r.ents i).index ≡ (entry_or s.ents i).index
  pub term_same : (i : ℕ) → (entry_or r.ents i).term ≡ (entry_or s.ents i).term
  pub length_same : length r.ents ≡ length s.ents

pub mirrored-IsSame : (node : ℕ) (s r : LogStorage) → IsMirrored node s r → IsSame s r
mirrored-IsSame node s r m = record {
  index_same = λ i.
      sym (marked_at node r.ents i).0
      ∙ ap (λ es. (entry_or es i).index) m
      ∙ (marked_at node s.ents i).0;
  term_same = λ i.
      sym (marked_at node r.ents i).1
      ∙ ap (λ es. (entry_or es i).term) m
      ∙ (marked_at node s.ents i).1;
  length_same =
      sym (length-map r.ents (marked node)) ∙ ap length m ∙ length-map s.ents (marked node);
}

pub same-Within :
    (node : ℕ) (s r : LogStorage) (k : RaftEntry) (ks : List RaftEntry)
    → IsSame s r
    → Within s k ks
    → Within r (marked node k) (map (marked node) ks)
same-Within node s r k ks e v =
    let j : (entry_or r.ents (length r.ents - 1)).term
        ≡ (entry_or s.ents (length s.ents - 1)).term =
      e.term_same (length r.ents - 1) ∙ ap (λ l. (entry_or s.ents (l - 1)).term) e.length_same in
    record {
      from_first = omega (arith, e.index_same 0, v.from_first);
      to_next = omega (arith, e.index_same 0, e.length_same, v.to_next);
      no_lower = omega (arith, j, v.no_lower);
      row = marked_row node k ks v.row;
      fits = omega (arith, v.fits, length-map ks (marked node));
    }

map-take {ℓ κ} :
    {A : Type ℓ} {B : Type κ} (n : ℕ) (xs : List A) (f : A → B)
    → map f (take n xs) ≡ take n (map f xs)
map-take zero xs f = refl
map-take (suc n) [] f = refl
map-take (suc n) (x ∷ xs) f = ap (λ t. f x ∷ t) (map-take n xs f)

marked_twice :
    (node : ℕ) (xs : List RaftEntry)
    → map (marked node) (map (marked node) xs) ≡ map (marked node) xs
marked_twice node [] = refl
marked_twice node (x ∷ xs) = ap (λ t. marked node x ∷ t) (marked_twice node xs)

map-append {ℓ κ} :
    {A : Type ℓ} {B : Type κ} (f : A → B) (xs ys : List A) → map f (xs ++ ys) ≡ map f xs ++ map f ys
map-append f [] ys = refl
map-append f (x ∷ xs) ys = ap (λ t. f x ∷ t) (map-append f xs ys)

marked-spliced :
    (node : ℕ) (s : LogStorage) (index : ℕ) (kept : List RaftEntry)
    → map (marked node) (spliced s index kept)
      ≡ take (suc (index - first_index s)) (map (marked node) s.ents) ++ map (marked node) kept
marked-spliced node s index kept =
    let n = suc (index - first_index s) in
    map-append (marked node) (take n s.ents) kept
    ∙ ap (λ t. t ++ map (marked node) kept) (map-take n s.ents (marked node))

-- Mirrored logs that go on with the same entries are mirrored.
pub spliced_mirrored :
    (node : ℕ) (s r : LogStorage) (index : ℕ) (kept : List RaftEntry)
    → IsMirrored node s r
    → first_index r ≡ first_index s
    → map (marked node) (spliced r index (map (marked node) kept))
      ≡ map (marked node) (spliced s index kept)
spliced_mirrored node s r index kept m f =
    marked-spliced node r index (map (marked node) kept)
    ∙ ap (λ t. take (suc (index - first_index r)) (map (marked node) r.ents) ++ t)
        (marked_twice node kept)
    ∙ ap (λ t. take (suc (index - first_index r)) t ++ map (marked node) kept) m
    ∙ ap (λ i. take (suc (index - i)) (map (marked node) s.ents) ++ map (marked node) kept) f
    ∙ sym (marked-spliced node s index kept)
