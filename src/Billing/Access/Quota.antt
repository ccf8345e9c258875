-- ===== src/Billing/Access/Quota.antt =====
-- billing/access.py, `_quota_subscription`: the quota of the package that it finds.
use hamromentorback.Base.{
  ltb→lt, ◌&&◌, refl, ℕ, ◌+◌, ◌≤◌, ◌≡◌, Bool, true, none, some, List, [], ◌∷◌, arith, select,
  find_first, Option-cases, inl, inr,
}
use native.Mathlib.Numerals.{add-one}
use hamromentorback.Time.{Time}
use hamromentorback.Accounts.{User, signed_in}
use hamromentorback.Billing.Models.{ProductType, Subscription, has_quota_left}
use hamromentorback.Billing.Access.{quota_subscription, is_active_for, matches_course}

-- The count of a package is within its quota, if it has one.
abbrev pub WithinQuota : Subscription → Type 0
WithinQuota sub = elim sub.mock_test_quota [ none ↦ Unit | some quota ↦ sub.mock_test_used ≤ quota ]

abbrev pub sub_id : Subscription → ℕ
sub_id sub = sub.id

pub WithinQuota-use_once :
    (sub : Subscription)
    → has_quota_left sub ≡ true
    → WithinQuota (record sub { mock_test_used = sub.mock_test_used + 1 })
WithinQuota-use_once sub h = elim (Option-cases sub.mock_test_quota) [
  | inl unlimited ↦ rw unlimited tt
  | inr (quota, q) ↦ rw (q, add-one) (ltb→lt sub.mock_test_used quota (rw q at h))
]

find_first-select :
    (p q : Subscription → Bool) (subs : List Subscription)
    → find_first q (select p subs) ≡ find_first (λ s. p s && q s) subs
find_first-select p q [] = refl
find_first-select p q (s ∷ rest) = ground (arith, find_first-select p q rest)

abbrev is_active_here : Time → User → ProductType → Subscription → Bool
is_active_here now user product sub = is_active_for now user product sub && matches_course none sub

pub quota_subscription-found :
    (now : Time) (subs : List Subscription) (user : User) (product : ProductType)
    {sub : Subscription}
    → quota_subscription now subs (signed_in user) product ≡ some sub
    → find_first (λ s. is_active_here now user product s && has_quota_left s) subs ≡ some sub
unfolding quota_subscription
quota_subscription-found now subs user product h =
    rw (find_first-select (is_active_here now user product) has_quota_left subs) at h
