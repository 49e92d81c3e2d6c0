-- ===== src/Base/OffsetMap.antt =====
-- What the code relies on of github.com/huandu/skiplist over int64 keys in ascending order, with a
-- value for each key.
use vanus.Base.Tests.{if◌then◌else◌, ◌==◌}
use Prim.Native.Nat.{ℕ, ◌≤◌, ◌<◌}
use mathlib.Core.Path.{◌≡◌}
use mathlib.Core.Option.{Option, none, some}

pub record OffsetMap : Type 1 where
  pub Elems : Type 0
  pub new : Elems
  pub set : ℕ → ℕ → Elems → Elems
  pub remove : ℕ → Elems → Elems
  pub len : Elems → ℕ
  pub front : Elems → Option (ℕ × ℕ)  -- `Front()`: the least key with its value
  pub get : Elems → ℕ → Option ℕ
  pub get-new : (k : ℕ) → get new k ≡ none
  pub get-set : (k v j : ℕ) (l : Elems) → get (set k v l) j ≡ (if k == j then some v else get l j)
  pub get-remove : (k j : ℕ) (l : Elems) → get (remove k l) j ≡ (if k == j then none else get l j)
  pub get-front : (k v : ℕ) (l : Elems) → front l ≡ some (k, v) → get l k ≡ some v
  pub front-le : (k v j u : ℕ) (l : Elems) → front l ≡ some (k, v) → get l j ≡ some u → k ≤ j
  pub no_front : (k : ℕ) (l : Elems) → front l ≡ none → get l k ≡ none
  pub len-remove : (k v : ℕ) (l : Elems) → front l ≡ some (k, v) → len (remove k l) < len l
