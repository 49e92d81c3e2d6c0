-- ===== src/Raft/Guard/Offsets.antt =====
-- Offsets that go up.
use vanus.Base.{
  List, [], arith, drop, get_or, length, refl, set, suc, take, zero, ℕ, ◌++◌, ◌<◌, ◌∷◌, ◌≡◌, ◌≤◌,
}
use vanus.Raft.Guard.{Rises}

pub Rises-weaken : (b c : ℕ) (xs : List ℕ) → c ≤ b → Rises b xs → Rises c xs
unfolding Rises
Rises-weaken b c [] h r = tt
Rises-weaken b c (x ∷ xs) h r = (omega (arith, r.0), r.1)

pub Rises-take : (n b : ℕ) (xs : List ℕ) → Rises b xs → Rises b (take n xs)
unfolding Rises
Rises-take zero b xs r = tt
Rises-take (suc n) b [] r = tt
Rises-take (suc n) b (x ∷ xs) r = (r.0, Rises-take n x xs r.1)

pub Rises-drop : (n b : ℕ) (xs : List ℕ) → Rises b xs → Rises b (drop n xs)
unfolding Rises
Rises-drop zero b xs r = r
Rises-drop (suc n) b [] r = tt
Rises-drop (suc n) b (x ∷ xs) r = Rises-drop n b xs (Rises-weaken x b xs (omega (arith, r.0)) r.1)

pub Rises-above : (j b : ℕ) (xs : List ℕ) → Rises b xs → j < length xs → b < get_or xs j 0
unfolding Rises
Rises-above j b [] r h = absurd (omega arith)
Rises-above zero b (x ∷ xs) r h = r.0
Rises-above (suc j) b (x ∷ xs) r h = omega (arith, r.0, Rises-above j x xs r.1 (omega arith))

-- The first offset behind the dummy is the least.
pub first-le :
    (j b : ℕ) (xs : List ℕ)
    → Rises b (drop 1 xs)
    → 0 < j
    → j < length xs
    → (b < get_or xs 1 0) × (get_or xs 1 0 ≤ get_or xs j 0)
unfolding Rises
first-le j b [] r p h = absurd (omega arith)
first-le j b (x ∷ []) r p h = absurd (omega arith)
first-le zero b (x ∷ y ∷ ys) r p h = absurd (omega arith)
first-le (suc zero) b (x ∷ y ∷ ys) r p h = (r.0, omega arith)
first-le (suc (suc j)) b (x ∷ y ∷ ys) r p h =
    (r.0, omega (arith, Rises-above j y ys r.1 (omega arith)))

pub Rises-cut : (n b : ℕ) (xs : List ℕ) → Rises b (drop 1 xs) → Rises b (drop 1 (take (suc n) xs))
unfolding Rises
Rises-cut n b [] r = tt
Rises-cut n b (x ∷ xs) r = Rises-take n b xs r

pub first_two_cut :
    (n : ℕ) (xs : List ℕ)
    → (get_or (take (suc (suc n)) xs) 0 0 ≡ get_or xs 0 0)
      × (get_or (take (suc (suc n)) xs) 1 0 ≡ get_or xs 1 0)
first_two_cut n [] = (refl, refl)
first_two_cut n (x ∷ []) = (refl, refl)
first_two_cut n (x ∷ y ∷ xs) = (refl, refl)

pub set_first :
    (xs : List ℕ) (v : ℕ)
    → 0 < length xs
    → (get_or (set xs 0 v) 0 0 ≡ v)
      × ((get_or (set xs 0 v) 1 0 ≡ get_or xs 1 0) × (drop 1 (set xs 0 v) ≡ drop 1 xs))
set_first [] v h = absurd (omega arith)
set_first (x ∷ []) v h = (refl, (refl, refl))
set_first (x ∷ y ∷ xs) v h = (refl, (refl, refl))

pub only_one : (xs : List ℕ) → length xs ≡ 1 → xs ≡ get_or xs 0 0 ∷ []
only_one [] h = absurd (omega arith)
only_one (x ∷ []) h = refl
only_one (x ∷ y ∷ xs) h = absurd (omega arith)

pub first_one : (xs : List ℕ) → 0 < length xs → take 1 xs ≡ get_or xs 0 0 ∷ []
first_one [] h = absurd (omega arith)
first_one (x ∷ xs) h = refl

pub first_two_append :
    (xs ys : List ℕ)
    → 1 < length xs
    → (get_or (xs ++ ys) 0 0 ≡ get_or xs 0 0) × (get_or (xs ++ ys) 1 0 ≡ get_or xs 1 0)
first_two_append [] ys h = absurd (omega arith)
first_two_append (x ∷ []) ys h = absurd (omega arith)
first_two_append (x ∷ y ∷ xs) ys h = (refl, refl)
