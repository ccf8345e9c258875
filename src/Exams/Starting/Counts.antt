-- ===== src/Exams/Starting/Counts.antt =====
-- tests_app/views.py, `_start_attempt`: counting the attempts of a student, and their keys.
use hamromentorback.Base.{
  ℕ, suc, ◌≤◌, ◌<◌, ◌≡◌, ◌≢◌, refl, ap, Bool, true, false, ◌&&◌, Option, none, some, List, [], ◌∷◌,
  ◌==◌, arith, inl, inr, Bool-cases, ==→eq, eq→==, find_first, update_by, count_by, count_by-save,
  same_key, if◌then◌else◌,
}
use hamromentorback.Exams.Models.{TestAttempt}
use hamromentorback.Exams.Gates.{is_attempt_at}

pub not_running : (b c : Bool) → c ≡ false → (b && c) ≡ false
not_running b c h = ground arith

pub below_suc : (n : ℕ) → n < suc n
below_suc n = omega (arith)

pub below_later : (a n : ℕ) → a < n → a < suc n
below_later a n h = omega (arith, h)

pub below_apart : (a n : ℕ) → a < n → a ≢ n
below_apart a n h e = omega (arith, h, e)

pub one_more : (b : Bool) (m : ℕ) → m ≤ 1 → (b ≡ true → m ≡ 0) → (if b then suc m else m) ≤ 1
one_more true m h none_yet = let e = none_yet refl in omega (arith, e)
one_more false m h none_yet = h

pub both_left : (b c : Bool) → (b && c) ≡ true → b ≡ true
both_left b c h = ground arith

pub both_right : (b c : Bool) → (b && c) ≡ true → c ≡ true
both_right b c h = ground arith

same_key→eq : (a b : Option ℕ) → same_key a b ≡ true → a ≡ b
same_key→eq none none h = refl
same_key→eq none (some b) h = cc
same_key→eq (some a) none h = cc
same_key→eq (some a) (some b) h = ap some (==→eq a b h)

less_one : (n : ℕ) → suc n ≤ 1 → n ≤ 0
less_one n h = omega (arith, h)

pub at_keys :
    (user test : ℕ) (session : Option ℕ) (a : TestAttempt)
    → is_attempt_at user test session a ≡ true
    → (a.test_id ≡ test) × (a.user_id ≡ user) × (a.session_id ≡ session)
at_keys user test session a h =
    let (t, u, k) =
      three (a.test_id == test) (a.user_id == user) (same_key a.session_id session) h in
    (==→eq a.test_id test t, ==→eq a.user_id user u, same_key→eq a.session_id session k)
  where
    three : (b c d : Bool) → (b && (c && d)) ≡ true → (b ≡ true) × (c ≡ true) × (d ≡ true)
    three b c d h = ground arith

-- The open attempt that is closed was the only one.
pub count-closed :
    (p : TestAttempt → Bool) (b : TestAttempt) (l : List TestAttempt) {x : TestAttempt}
    → find_first p l ≡ some x
    → count_by p l ≤ 1
    → p b ≡ false
    → count_by p (update_by (λ r. r.id == x.id) (λ _. b) l) ≡ 0
count-closed p b [] found few pb = refl
count-closed p b (y ∷ l) {x} found few pb = elim (Bool-cases (p y)) [
  | inl hit ↦
      let e : y ≡ x = cc (rw hit at found) in
      let none_left : count_by p l ≤ 0 = less_one _ (rw hit at few) in
      let fewer = count_by-save p (λ r. r.id == x.id) b l pb in
      rw (ap (λ r. r.id) e, eq→== x.id, pb) (omega (arith, fewer, none_left))
  | inr miss ↦
      let rest = count-closed p b l (rw miss at found) (rw miss at few) pb in
      elim (Bool-cases (y.id == x.id)) [
        | inl same ↦ simp (same, pb, rest)
        | inr other ↦ simp (other, miss, rest)
      ]
]
