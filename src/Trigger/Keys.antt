-- ===== src/Trigger/Keys.antt =====
-- A list of keys that behaves as the skip list of the offset trackers, so that they can run.
use Prim.Native.Nat.{min, max}
use vanus.Base.{
  Bool, List, [], arith, false, if◌then◌else◌, length, refl, true, ℕ, ◌==◌, ◌||◌, ◌∷◌, ◌≡◌, ◌≢◌,
  ◌≤◌,
}
use vanus.Base.SkipList.{SkipList}

unfoldable pub contains : List ℕ → ℕ → Bool
contains [] k = false
contains (x ∷ xs) k = x == k || contains xs k

unfoldable pub without : ℕ → List ℕ → List ℕ
without k [] = []
without k (x ∷ xs) = let rest = without k xs in if k == x then rest else x ∷ rest

unfoldable pub least : List ℕ → ℕ
least [] = 0
least (x ∷ []) = x
least (x ∷ y ∷ xs) = min x (least (y ∷ xs))

unfoldable pub greatest : List ℕ → ℕ
greatest [] = 0
greatest (x ∷ xs) = max x (greatest xs)

pub contains-nil : (k : ℕ) → contains [] k ≡ false
unfolding contains
contains-nil k = refl

pub contains-cons :
    (k j : ℕ) (l : List ℕ) → contains (k ∷ l) j ≡ (if k == j then true else contains l j)
unfolding contains
contains-cons k j l = ground arith

pub contains-without :
    (k j : ℕ) (l : List ℕ) → contains (without k l) j ≡ (if k == j then false else contains l j)
unfolding contains without
contains-without k j [] = ground arith
contains-without k j (x ∷ xs) = ground (arith, contains-without k j xs)

pub empty_contains : (l : List ℕ) (k : ℕ) → length l ≡ 0 → contains l k ≡ false
unfolding contains
empty_contains [] k e = refl
empty_contains (x ∷ xs) k e = absurd (omega arith)

pub contains-least : (l : List ℕ) → length l ≢ 0 → contains l (least l) ≡ true
unfolding contains least
contains-least [] h = absurd (h refl)
contains-least (x ∷ []) h = ground arith
contains-least (x ∷ y ∷ xs) h = ground (arith, contains-least (y ∷ xs) (λ e. absurd (omega arith)))

pub least-le : (l : List ℕ) (k : ℕ) → contains l k ≡ true → least l ≤ k
unfolding contains least
least-le [] k p = absurd (ground arith)
least-le (x ∷ []) k p = ground arith
least-le (x ∷ y ∷ xs) k p = ground (arith, least-le (y ∷ xs) k)

pub contains-greatest : (l : List ℕ) → length l ≢ 0 → contains l (greatest l) ≡ true
unfolding contains greatest
contains-greatest [] h = absurd (h refl)
contains-greatest (x ∷ []) h = ground arith
contains-greatest (x ∷ y ∷ xs) h =
    ground (arith, contains-greatest (y ∷ xs) (λ e. absurd (omega arith)))

pub le-greatest : (l : List ℕ) (k : ℕ) → contains l k ≡ true → k ≤ greatest l
unfolding contains greatest
le-greatest [] k p = absurd (ground arith)
le-greatest (x ∷ xs) k p = ground (arith, le-greatest xs k)

abbrev pub key_list : SkipList
key_list = record {
  Keys = List ℕ;
  new = [];
  set = λ k l. k ∷ l;
  remove = without;
  len = λ l. length l;
  front = least;
  back = greatest;
  has = contains;
  has-new = contains-nil;
  has-set = contains-cons;
  has-remove = contains-without;
  empty_has = empty_contains;
  has-front = contains-least;
  front-le = least-le;
  has-back = contains-greatest;
  le-back = le-greatest;
}
