-- ===== src/Base/Sorting.antt =====
-- `sorted(rows, key=…)` and `order_by(…)` on a numeric key, which keep the order of equal keys.
use Prim.Native.Nat.{ℕ, ◌≤◌}
use mathlib.Core.Logic.{inl, inr}
use mathlib.Core.List.{List, [], ◌∷◌}
use native.Mathlib.Omega.{arith}
use hamromentorback.Base.Tests.{leb, if◌then◌else◌, Bool-cases, leb→le}
use hamromentorback.Base.Rows.{All}

module _ {ℓ} {A : Type ℓ} (key : A → ℕ) where
  unfoldable pub insert_by : A → List A → List A
  insert_by x [] = x ∷ []
  insert_by x (y ∷ ys) =
      let rest = insert_by x ys in if leb (key x) (key y) then x ∷ y ∷ ys else y ∷ rest

  unfoldable pub sorted_by : List A → List A
  unfolding insert_by
  sorted_by [] = []
  sorted_by (x ∷ xs) = insert_by x (sorted_by xs)

  -- Each key is at most every key after it.
  abbrev pub IsSorted : List A → Type 0
  IsSorted [] = Unit
  IsSorted (x ∷ xs) = All (λ y. key x ≤ key y) xs × IsSorted xs

  pub All-insert {κ} : (P : A → Type κ) (x : A) (l : List A) → P x → All P l → All P (insert_by x l)
  unfolding insert_by
  All-insert P x [] px a = (px, tt)
  All-insert P x (y ∷ ys) px a = elim (Bool-cases (leb (key x) (key y))) [
    | inl first ↦ rw first (px, a)
    | inr later ↦ rw later (a.0, All-insert P x ys px a.1)
  ]

  pub All-sorted_by {κ} : (P : A → Type κ) (l : List A) → All P l → All P (sorted_by l)
  unfolding sorted_by
  All-sorted_by P [] a = tt
  All-sorted_by P (x ∷ xs) a = All-insert P x (sorted_by xs) a.0 (All-sorted_by P xs a.1)

  All_of_insert {κ} : (P : A → Type κ) (x : A) (l : List A) → All P (insert_by x l) → P x × All P l
  unfolding insert_by
  All_of_insert P x [] a = a
  All_of_insert P x (y ∷ ys) a = elim (Bool-cases (leb (key x) (key y))) [
    | inl first ↦ rw first at a
    | inr later ↦
        let (py, rest) : P y × All P (insert_by x ys) = rw later at a in
        let (px, others) = All_of_insert P x ys rest in (px, (py, others))
  ]

  -- Sorting loses no row.
  pub All_of_sorted {κ} : (P : A → Type κ) (l : List A) → All P (sorted_by l) → All P l
  unfolding sorted_by
  All_of_sorted P [] a = tt
  All_of_sorted P (x ∷ xs) a =
      let (px, rest) = All_of_insert P x (sorted_by xs) a in (px, All_of_sorted P xs rest)

  All_le : (a b : ℕ) (l : List A) → a ≤ b → All (λ y. b ≤ key y) l → All (λ y. a ≤ key y) l
  All_le a b [] h all = tt
  All_le a b (y ∷ ys) h all = (omega (arith, h, all.0), All_le a b ys h all.1)

  insert_by-IsSorted : (x : A) (l : List A) → IsSorted l → IsSorted (insert_by x l)
  unfolding insert_by
  insert_by-IsSorted x [] s = (tt, tt)
  insert_by-IsSorted x (y ∷ ys) s = elim (Bool-cases (leb (key x) (key y))) [
    | inl first ↦
        let le = leb→le (key x) (key y) first in
        rw first ((le, All_le (key x) (key y) ys le s.0), s)
    | inr later ↦
        let le : key y ≤ key x = ground arith in
        rw later (All-insert (λ z. key y ≤ key z) x ys le s.0, insert_by-IsSorted x ys s.1)
  ]

  pub sorted_by-IsSorted : (l : List A) → IsSorted (sorted_by l)
  unfolding sorted_by
  sorted_by-IsSorted [] = tt
  sorted_by-IsSorted (x ∷ xs) = insert_by-IsSorted x (sorted_by xs) (sorted_by-IsSorted xs)
