-- ===== src/Base/SkipList.antt =====
-- What the code relies on of github.com/huandu/skiplist over uint64 keys in ascending order: a set
-- of keys with a least and a greatest element.
use Prim.Native.Nat.{ℕ, ◌≤◌}
use mathlib.Core.Path.{◌≡◌}
use mathlib.Core.Logic.{◌≢◌}
use mathlib.Core.Bool.{Bool, true, false}
use vanus.Base.Tests.{if◌then◌else◌, ◌==◌}

pub record SkipList : Type 1 where
  pub Keys : Type 0
  pub new : Keys
  pub set : ℕ → Keys → Keys
  pub remove : ℕ → Keys → Keys
  pub len : Keys → ℕ
  pub front : Keys → ℕ  -- the key of `Front()` of a list that is not empty
  pub back : Keys → ℕ
  pub has : Keys → ℕ → Bool
  pub has-new : (k : ℕ) → has new k ≡ false
  pub has-set : (k j : ℕ) (l : Keys) → has (set k l) j ≡ (if k == j then true else has l j)
  pub has-remove : (k j : ℕ) (l : Keys) → has (remove k l) j ≡ (if k == j then false else has l j)
  pub empty_has : (l : Keys) (k : ℕ) → len l ≡ 0 → has l k ≡ false
  pub has-front : (l : Keys) → len l ≢ 0 → has l (front l) ≡ true
  pub front-le : (l : Keys) (k : ℕ) → has l k ≡ true → front l ≤ k
  pub has-back : (l : Keys) → len l ≢ 0 → has l (back l) ≡ true
  pub le-back : (l : Keys) (k : ℕ) → has l k ≡ true → k ≤ back l
