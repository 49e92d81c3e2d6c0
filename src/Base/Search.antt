-- ===== src/Base/Search.antt =====
-- Go's `sort.Search`: the binary search for the first index at which a test passes.
use native.Mathlib.Omega.{arith}
use native.Mathlib.Decide.{dec_lt}
use Prim.Native.Nat.{ℕ, zero, suc, ◌+◌, ◌-◌, ◌/◌, ◌≤◌, ◌<◌}
use mathlib.Core.Path.{◌≡◌, refl}
use mathlib.Core.Bool.{Bool, true, false}
use mathlib.Core.Logic.{inl, inr}
use vanus.Base.Tests.{Bool-cases, ltb, ltb→lt}

-- The loop, with fuel for the rounds; the distance of the bounds falls in each.
unfoldable pub search_between : ℕ → ℕ → ℕ → (ℕ → Bool) → ℕ
search_between zero lo hi f = lo
search_between (suc fuel) lo hi f = elim (ltb lo hi) [
  | true ↦ elim (f ((lo + hi) / 2)) [
    | true ↦ search_between fuel lo ((lo + hi) / 2) f
    | false ↦ search_between fuel ((lo + hi) / 2 + 1) hi f
  ]
  | false ↦ lo
]

unfoldable pub search : ℕ → (ℕ → Bool) → ℕ
unfolding search_between
search n f = search_between n 0 n f

-- The test, once passed, stays passed below `n`.
abbrev pub IsMonotone : ℕ → (ℕ → Bool) → Type 0
IsMonotone n f = (a b : ℕ) → a ≤ b → b < n → f a ≡ true → f b ≡ true

-- `r` is the first index that passes, or `n`.
pub record IsFirst (n : ℕ) (f : ℕ → Bool) (r : ℕ) : Type 0 where
  pub within : r ≤ n
  pub before : (i : ℕ) → i < r → f i ≡ false
  pub at_first : r < n → f r ≡ true

not_true : (b : Bool) → ¬ (b ≡ true) → b ≡ false
not_true true h = absurd (h (ground arith))
not_true false h = ground arith

not_both : (b : Bool) → b ≡ true → b ≡ false → ⊥
not_both b p q = cc

search_hit :
    (fuel lo hi : ℕ) (f : ℕ → Bool)
    → ltb lo hi ≡ true
    → f ((lo + hi) / 2) ≡ true
    → search_between (suc fuel) lo hi f ≡ search_between fuel lo ((lo + hi) / 2) f
unfolding search_between
search_hit fuel lo hi f t p = rw (t, search_between) (rw (p, search_between) refl)

search_miss :
    (fuel lo hi : ℕ) (f : ℕ → Bool)
    → ltb lo hi ≡ true
    → f ((lo + hi) / 2) ≡ false
    → search_between (suc fuel) lo hi f ≡ search_between fuel ((lo + hi) / 2 + 1) hi f
unfolding search_between
search_miss fuel lo hi f t p = rw (t, search_between) (rw (p, search_between) refl)

search_end :
    (fuel lo hi : ℕ) (f : ℕ → Bool) → ltb lo hi ≡ false → search_between (suc fuel) lo hi f ≡ lo
unfolding search_between
search_end fuel lo hi f t = rw (t, search_between) refl

search_between-IsFirst :
    (fuel lo hi n : ℕ) (f : ℕ → Bool)
    → IsMonotone n f
    → lo ≤ hi
    → hi ≤ n
    → hi - lo ≤ fuel
    → ((i : ℕ) → i < lo → f i ≡ false)
    → (hi < n → f hi ≡ true)
    → IsFirst n f (search_between fuel lo hi f)
unfolding search_between
search_between-IsFirst zero lo hi n f mono l h k below above =
    let e : lo ≡ hi = omega arith in
    record { within = omega arith; before = below; at_first = rw e above }
search_between-IsFirst (suc fuel) lo hi n f mono l h k below above = elim (Bool-cases (ltb lo hi)) [
  | inl t ↦
      (let lt : lo < hi = ltb→lt lo hi t in
        let mid = (lo + hi) / 2 in
        elim (Bool-cases (f mid)) [
          | inl p ↦ rw (search_hit fuel lo hi f t p) (
              search_between-IsFirst fuel lo mid n f mono (omega arith) (omega arith) (omega arith)
                below (λ _. p))
          | inr p ↦ rw (search_miss fuel lo hi f t p) (
              search_between-IsFirst fuel (mid + 1) hi n f mono (omega arith) h (omega arith)
                (λ i q.
                  not_true (f i)
                    (λ e. not_both (f mid) (mono i mid (omega arith) (omega arith) e) p))
                above)
        ])
  | inr t ↦
      (let e : lo ≡ hi = ground arith in
        rw (search_end fuel lo hi f t)
          (record { within = omega arith; before = below; at_first = rw e above }))
]

-- The binary search returns the first index at which a monotone test passes, or the length.
pub search-IsFirst : (n : ℕ) (f : ℕ → Bool) → IsMonotone n f → IsFirst n f (search n f)
unfolding search
search-IsFirst n f mono =
    search_between-IsFirst n 0 n n f mono (omega arith) (omega arith) (omega arith)
      (λ i h. elim h [ ]) (λ h. absurd (omega arith))

-- No index that passes comes before the first.
pub IsFirst-le : (n : ℕ) (f : ℕ → Bool) (r k : ℕ) → IsFirst n f r → f k ≡ true → r ≤ k
IsFirst-le n f r k v p = elim (dec_lt k r) [
  | yes h ↦ absurd (not_both (f k) p (v.before k h))
  | no h ↦ omega arith
]
