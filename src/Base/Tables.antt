-- ===== src/Base/Tables.antt =====
-- A database table as the list of its rows, in the model's `Meta.ordering`, and the queries that
-- the code makes: `filter`, `filter(…).first()`, `filter(…).exists()`, `count`, `get`, `save`.
use Prim.Native.Nat.{ℕ, suc}
use mathlib.Core.Path.{◌≡◌, refl}
use mathlib.Core.Bool.{Bool, true, false, ◌||◌}
use mathlib.Core.Option.{Option, none, some}
use mathlib.Core.List.{List, [], ◌∷◌}
use hamromentorback.Base.Tests.{◌==◌, if◌then◌else◌}

module _ {ℓ} {A : Type ℓ} where
  abbrev pub length : List A → ℕ
  length [] = 0
  length (x ∷ xs) = suc (length xs)

  -- `filter(p)`
  abbrev pub select : (A → Bool) → List A → List A
  select p [] = []
  select p (x ∷ xs) = let rest = select p xs in if p x then x ∷ rest else rest

  -- `filter(p).first()`
  abbrev pub find_first : (A → Bool) → List A → Option A
  find_first p [] = none
  find_first p (x ∷ xs) = if p x then some x else find_first p xs

  -- `filter(p).exists()`
  abbrev pub any : (A → Bool) → List A → Bool
  any p [] = false
  any p (x ∷ xs) = p x || any p xs

  -- `filter(p).count()`
  abbrev pub count_by : (A → Bool) → List A → ℕ
  count_by p [] = 0
  count_by p (x ∷ xs) = let n = count_by p xs in if p x then suc n else n

  -- `filter(p).update(f)`, and `save()` with a test of the primary key
  abbrev pub update_by : (A → Bool) → (A → A) → List A → List A
  update_by p f [] = []
  update_by p f (x ∷ xs) = (if p x then f x else x) ∷ update_by p f xs

-- `i in ids`
abbrev pub contains : ℕ → List ℕ → Bool
contains i [] = false
contains i (j ∷ js) = i == j || contains i js

-- `bool(a & b)`, for two sets of keys
abbrev pub intersects : List ℕ → List ℕ → Bool
intersects [] js = false
intersects (i ∷ is) js = contains i js || intersects is js

-- The truth of a list or a set.
abbrev pub nonempty {ℓ} : {A : Type ℓ} → List A → Bool
nonempty [] = false
nonempty (x ∷ xs) = true

pub intersects-nil : (is : List ℕ) → intersects is [] ≡ false
intersects-nil [] = refl
intersects-nil (i ∷ is) = intersects-nil is
