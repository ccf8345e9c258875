-- ===== src/Base/Saves.antt =====
-- Rows with a primary key, and `save()`: what queries and counts return afterwards.
use Prim.Native.Nat.{ℕ, suc, ◌≤◌}
use mathlib.Core.Path.{◌≡◌, refl, sym, subst, ◌∙◌}
use mathlib.Core.Logic.{◌≢◌, inl, inr}
use mathlib.Core.Bool.{Bool, true, false}
use mathlib.Core.Option.{none, some}
use mathlib.Core.List.{List, [], ◌∷◌}
use native.Mathlib.Omega.{arith}
use hamromentorback.Base.Tests.{◌==◌, if◌then◌else◌, Bool-cases, eq→==, ==→eq}
use hamromentorback.Base.Tables.{find_first, select, count_by, update_by}
use hamromentorback.Base.Rows.{All, Unique, neq→==, find-update_other}

more_with : (b : Bool) (m n : ℕ) → m ≤ n → m ≤ (if b then suc n else n)
more_with b m n h = ground arith

more_both : (b : Bool) (m n : ℕ) → m ≤ n → (if b then suc m else m) ≤ (if b then suc n else n)
more_both b m n h = ground arith

module _ {ℓ} {A : Type ℓ} where
  -- A row that is saved is what its key finds, and what another key finds does not change.
  pub find-save_own :
      (key : A → ℕ) (k : ℕ) (b : A) (l : List A) {a : A}
      → find_first (λ r. key r == k) l ≡ some a
      → key b ≡ k
      → find_first (λ r. key r == k) (update_by (λ r. key r == k) (λ _. b) l) ≡ some b
  find-save_own key k b [] h e = cc
  find-save_own key k b (y ∷ l) h e = elim (Bool-cases (key y == k)) [
    | inl here ↦ simp (here, e, eq→== k)
    | inr later ↦ let rest = find-save_own key k b l (rw later at h) e in simp (later, rest)
  ]

  pub find-save_other :
      (key : A → ℕ) (j k : ℕ) (b : A) (l : List A)
      → key b ≡ j
      → j ≢ k
      → find_first (λ r. key r == k) (update_by (λ r. key r == j) (λ _. b) l)
        ≡ find_first (λ r. key r == k) l
  find-save_other key j k b l e ne =
      find-update_other (λ r. key r == k) (λ r. key r == j) (λ _. b) l
        (λ s hit.
          let at_j : key s ≡ j = ==→eq (key s) j hit in
          (simp (at_j, neq→== j k ne), simp (e, neq→== j k ne)))

  absent-save :
      (key : A → ℕ) (j c : ℕ) (b : A) (l : List A)
      → key b ≡ j
      → All (λ y. key y ≢ c) l
      → All (λ y. key y ≢ c) (update_by (λ r. key r == j) (λ _. b) l)
  absent-save key j c b [] e a = tt
  absent-save key j c b (y ∷ l) e a = elim (Bool-cases (key y == j)) [
    | inl hit ↦
        let at_j : key y ≡ key b = ==→eq (key y) j hit ∙ sym e in
        rw hit ((λ q. a.0 (at_j ∙ q)), absent-save key j c b l e a.1)
    | inr miss ↦ rw miss (a.0, absent-save key j c b l e a.1)
  ]

  pub Unique-save :
      (key : A → ℕ) (j : ℕ) (b : A) (l : List A)
      → key b ≡ j
      → Unique key l
      → Unique key (update_by (λ r. key r == j) (λ _. b) l)
  Unique-save key j b [] e u = tt
  Unique-save key j b (y ∷ l) e u = elim (Bool-cases (key y == j)) [
    | inl hit ↦
        let at_j : key y ≡ key b = ==→eq (key y) j hit ∙ sym e in
        rw hit (
          subst (λ c. All (λ z. key z ≢ c) (update_by (λ r. key r == j) (λ _. b) l)) at_j
              (absent-save key j (key y) b l e u.0),
          Unique-save key j b l e u.1,
        )
    | inr miss ↦ rw miss (absent-save key j (key y) b l e u.0, Unique-save key j b l e u.1)
  ]

  -- A filter that keeps neither the old nor the new value of what an update changes.
  pub select-update_other :
      (p k : A → Bool) (f : A → A) (l : List A)
      → ((s : A) → k s ≡ true → (p s ≡ false) × (p (f s) ≡ false))
      → select p (update_by k f l) ≡ select p l
  select-update_other p k f [] same = refl
  select-update_other p k f (y ∷ l) same = elim (Bool-cases (k y)) [
    | inl hit ↦
        let rest = select-update_other p k f l same in
        let (old, next) = same y hit in simp (hit, old, next, rest)
    | inr miss ↦ let rest = select-update_other p k f l same in simp (miss, rest)
  ]

  pub All-save {κ} :
      (P : A → Type κ) (k : A → Bool) (b : A) (l : List A)
      → P b
      → All P l
      → All P (update_by k (λ _. b) l)
  All-save P k b [] pb a = tt
  All-save P k b (y ∷ l) pb a = elim (Bool-cases (k y)) [
    | inl hit ↦ rw hit (pb, All-save P k b l pb a.1)
    | inr miss ↦ rw miss (a.0, All-save P k b l pb a.1)
  ]

  pub count_by-none : (p : A → Bool) (l : List A) → find_first p l ≡ none → count_by p l ≡ 0
  count_by-none p [] h = refl
  count_by-none p (y ∷ l) h = elim (Bool-cases (p y)) [
    | inl hit ↦ cc (rw hit at h)
    | inr miss ↦ let rest = count_by-none p l (rw miss at h) in simp (miss, rest)
  ]

  -- A row that does not count is saved in the place of others.
  pub count_by-save :
      (p k : A → Bool) (b : A) (l : List A)
      → p b ≡ false
      → count_by p (update_by k (λ _. b) l) ≤ count_by p l
  count_by-save p k b [] pb = omega (arith)
  count_by-save p k b (y ∷ l) pb =
      let rest = count_by-save p k b l pb in
      elim (Bool-cases (k y)) [
        | inl hit ↦ simp (hit, pb) (more_with (p y) _ _ rest)
        | inr miss ↦ simp miss (more_both (p y) _ _ rest)
      ]
