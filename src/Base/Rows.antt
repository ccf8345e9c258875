-- ===== src/Base/Rows.antt =====
-- Rows with a primary key: properties of all rows, and what `save()` does to a row that a query
-- has returned.
use Prim.Native.Nat.{ℕ}
use mathlib.Core.Path.{◌≡◌, refl, sym, ap, subst}
use mathlib.Core.Logic.{◌≢◌, ◌⊎◌, inl, inr}
use mathlib.Core.Bool.{Bool, true, false}
use mathlib.Core.Option.{some}
use mathlib.Core.List.{List, [], ◌∷◌}
use native.Mathlib.Omega.{arith}
use hamromentorback.Base.Tests.{◌==◌, if◌then◌else◌, Bool-cases, eq→==}
use hamromentorback.Base.Tables.{find_first, select, update_by}

abbrev pub All {ℓ κ} : {A : Type ℓ} → (A → Type κ) → List A → Type κ
All P [] = Unit
All P (x ∷ xs) = P x × All P xs

-- No two rows have the same key.
abbrev pub Unique {ℓ} : {A : Type ℓ} → (A → ℕ) → List A → Type 0
Unique key [] = Unit
Unique key (x ∷ xs) = All (λ y. key y ≢ key x) xs × Unique key xs

pub neq→== : (a b : ℕ) → a ≢ b → (a == b) ≡ false
neq→== a b h = ground arith

pub ==→neq : (a b : ℕ) → (a == b) ≡ false → a ≢ b
==→neq a b h e = ground arith

pub if-either :
    {A : Type 0} (b : Bool) (x y : A) {z : A} → (if b then x else y) ≡ z → (x ≡ z) ⊎ (y ≡ z)
if-either true x y h = inl h
if-either false x y h = inr h

module _ {ℓ} {A : Type ℓ} where
  pub find_first_sound : (p : A → Bool) (l : List A) {x : A} → find_first p l ≡ some x → p x ≡ true
  find_first_sound p [] h = cc
  find_first_sound p (y ∷ l) {x} h = elim (Bool-cases (p y)) [
    | inl t ↦ let e : y ≡ x = cc (rw t at h) in rw (← e) t
    | inr f ↦ find_first_sound p l (rw f at h)
  ]

  pub All-map {κ μ} :
      {P : A → Type κ} {Q : A → Type μ} → ((x : A) → P x → Q x) → (l : List A) → All P l → All Q l
  All-map f [] a = tt
  All-map f (x ∷ l) a = (f x a.0, All-map f l a.1)

  pub All-both {κ μ} :
      (P : A → Type κ) (Q : A → Type μ) (l : List A) → All P l → All Q l → All (λ x. P x × Q x) l
  All-both P Q [] a b = tt
  All-both P Q (x ∷ l) a b = ((a.0, b.0), All-both P Q l a.1 b.1)

  pub All-select {κ} : (P : A → Type κ) (p : A → Bool) (l : List A) → All P l → All P (select p l)
  All-select P p [] a = tt
  All-select P p (x ∷ l) a = elim (Bool-cases (p x)) [
    | inl t ↦ rw t (a.0, All-select P p l a.1)
    | inr f ↦ rw f (All-select P p l a.1)
  ]

  -- What holds of the rows that a filter keeps holds of a row that it does not drop.
  pub All-selected {κ} :
      (P : A → Type κ) (p q : A → Bool) (l : List A) {x : A}
      → All P (select p l)
      → find_first q l ≡ some x
      → p x ≡ true
      → P x
  All-selected P p q [] a h t = cc
  All-selected P p q (y ∷ l) {x} a h t = elim (Bool-cases (q y)) [
    | inl here ↦
        let e : y ≡ x = cc (rw here at h) in
        let a' : All P (y ∷ select p l) = rw (ap p e, t) at a in subst P e a'.0
    | inr later ↦
        All-selected P p q l
          (elim (Bool-cases (p y)) [ inl kept ↦ (rw kept at a).1 | inr dropped ↦ rw dropped at a ])
          (rw later at h) t
  ]

  -- The key of every row finds a row.
  pub All-found {κ} :
      (key : A → ℕ) (P : A → Type κ) (l : List A)
      → All P l
      → All (λ c. (x : A) × (find_first (λ r. key r == key c) l ≡ some x) × P x) l
  All-found key P [] a = tt
  All-found key P (y ∷ l) a = (
    (y, rw (eq→== (key y)) refl, a.0),
    All-map
        (λ c found. elim (Bool-cases (key y == key c)) [
          | inl same ↦ (y, rw same refl, a.0)
          | inr other ↦ (found.0, rw other found.1, found.2)
        ])
        l (All-found key P l a.1),
  )

  pub All-find {κ} :
      (P : A → Type κ) (p : A → Bool) (l : List A) {x : A} → All P l → find_first p l ≡ some x → P x
  All-find P p [] a h = cc
  All-find P p (y ∷ l) {x} a h = elim (Bool-cases (p y)) [
    | inl t ↦ let e : y ≡ x = cc (rw t at h) in rw (← e) a.0
    | inr f ↦ All-find P p l a.1 (rw f at h)
  ]

  pub update_by-absent :
      (key : A → ℕ) (k : ℕ) (f : A → A) (l : List A)
      → All (λ y. key y ≢ k) l
      → update_by (λ s. key s == k) f l ≡ l
  update_by-absent key k f [] a = refl
  update_by-absent key k f (y ∷ l) a = rw (neq→== (key y) k a.0, update_by-absent key k f l a.1)

  -- The row that the query returned takes the new value, and no other row changes.
  pub All-update_found {κ} :
      (P : A → Type κ) (p : A → Bool) (key : A → ℕ) (f : A → A) (l : List A) {x : A}
      → Unique key l
      → find_first p l ≡ some x
      → P (f x)
      → All P l
      → All P (update_by (λ s. key s == key x) f l)
  All-update_found P p key f [] u h px a = tt
  All-update_found P p key f (y ∷ l) {x} u h px a = elim (Bool-cases (p y)) [
    | inl t ↦
        let e : y ≡ x = cc (rw t at h) in
        (
          rw (ap key e, eq→== (key x)) (rw e px),
          rw (update_by-absent key (key x) f l (rw (← ap key e) u.0)) a.1,
        )
    | inr no_match ↦
        let found : find_first p l ≡ some x = rw no_match at h in
        let other : key y ≢ key x = λ q. All-find (λ z. key z ≢ key y) p l u.0 found (sym q) in
        (rw (neq→== (key y) (key x) other) a.0, All-update_found P p key f l u.1 found px a.1)
  ]

  -- After the save the same query returns the new value.
  pub find-update_found :
      (p : A → Bool) (key : A → ℕ) (f : A → A) (l : List A) {x : A}
      → Unique key l
      → find_first p l ≡ some x
      → p (f x) ≡ true
      → find_first p (update_by (λ s. key s == key x) f l) ≡ some (f x)
  find-update_found p key f [] u h t = cc
  find-update_found p key f (y ∷ l) {x} u h t = elim (Bool-cases (p y)) [
    | inl match ↦ let e : y ≡ x = cc (rw match at h) in rw (ap key e, eq→== (key x)) (rw (e, t))
    | inr no_match ↦
        let found : find_first p l ≡ some x = rw no_match at h in
        let other : key y ≢ key x = λ q. All-find (λ z. key z ≢ key y) p l u.0 found (sym q) in
        rw (neq→== (key y) (key x) other, no_match) (find-update_found p key f l u.1 found t)
  ]

  -- A query that the new value answers as the old one did, at every row with that key.
  pub find-update_other :
      (p : A → Bool) (k : A → Bool) (f : A → A) (l : List A)
      → ((s : A) → k s ≡ true → (p s ≡ false) × (p (f s) ≡ false))
      → find_first p (update_by k f l) ≡ find_first p l
  find-update_other p k f [] same = refl
  find-update_other p k f (y ∷ l) same = elim (Bool-cases (k y)) [
    | inl hit ↦ rw (hit, (same y hit).1, (same y hit).0) (find-update_other p k f l same)
    | inr miss ↦ rw (miss, find-update_other p k f l same)
  ]

  key-if :
      (key : A → ℕ) (b : Bool) (f : A → A) (y : A)
      → key (f y) ≡ key y
      → key (if b then f y else y) ≡ key y
  key-if key true f y e = e
  key-if key false f y e = refl

  absent-update :
      (key : A → ℕ) (c : ℕ) (k : A → Bool) (f : A → A) (l : List A)
      → ((s : A) → key (f s) ≡ key s)
      → All (λ y. key y ≢ c) l
      → All (λ y. key y ≢ c) (update_by k f l)
  absent-update key c k f [] same a = tt
  absent-update key c k f (y ∷ l) same a =
      (rw (key-if key (k y) f y (same y)) a.0, absent-update key c k f l same a.1)

  pub Unique-update :
      (key : A → ℕ) (k : A → Bool) (f : A → A) (l : List A)
      → ((s : A) → key (f s) ≡ key s)
      → Unique key l
      → Unique key (update_by k f l)
  Unique-update key k f [] same u = tt
  Unique-update key k f (y ∷ l) same u = (
    rw (key-if key (k y) f y (same y)) (absent-update key (key y) k f l same u.0),
    Unique-update key k f l same u.1,
  )

  -- The key of a row that a query returned finds that row.
  pub find-own_key :
      (p : A → Bool) (key : A → ℕ) (l : List A) {x : A}
      → Unique key l
      → find_first p l ≡ some x
      → find_first (λ r. key r == key x) l ≡ some x
  find-own_key p key [] u h = cc
  find-own_key p key (y ∷ l) {x} u h = elim (Bool-cases (p y)) [
    | inl match ↦ let e : y ≡ x = cc (rw match at h) in rw (ap key e, eq→== (key x)) (rw e refl)
    | inr no_match ↦
        let found : find_first p l ≡ some x = rw no_match at h in
        let other : key y ≢ key x = λ q. All-find (λ z. key z ≢ key y) p l u.0 found (sym q) in
        rw (neq→== (key y) (key x) other) (find-own_key p key l u.1 found)
  ]
