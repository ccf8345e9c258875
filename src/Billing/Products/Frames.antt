-- ===== src/Billing/Products/Frames.antt =====
-- The approval of a purchase of any kind leaves the purchases and the coupons alone.
use hamromentorback.Base.{ℕ, ◌≡◌, Option, none, some, List, [], ◌∷◌, arith, Option-cases, inl, inr}
use hamromentorback.Time.{Time}
use hamromentorback.Billing.Orders.{
  Purchase, PurchaseKind, subscription, grand_test, combo, grand_test_package, teacher_course,
  other_kind, Db, ok,
}
use hamromentorback.Billing.Orders.Frames.{Keeps, Keeps-refl, Keeps-trans, >>=-eq-ok}
use hamromentorback.Billing.Activation.{extend_or_create_subscription, record_grant}
use hamromentorback.Billing.Activation.Frames.{extend_or_create-Keeps}
use hamromentorback.Billing.Products.{
  terms_of, activate_plan, activate_combo, activate_grand_test, activate_package, package_item,
  package_items, activate_course, activate_kind, activate_product, maybe_reward_referrer, find_plan,
  grant_item, grant_access, create_access, enroll, on_access,
}

pub maybe_reward-Keeps :
    (reward : ℕ) (p : Purchase) (db : Db) → Keeps db (maybe_reward_referrer reward p db)
unfolding maybe_reward_referrer
maybe_reward-Keeps reward p db = ground arith

activate_plan-Keeps :
    (now : Time) (p : Purchase) (plan : Option ℕ) (db out : Db)
    → activate_plan now p plan db ≡ ok out
    → Keeps db out
unfolding activate_plan
activate_plan-Keeps now p none db out h = cc
activate_plan-Keeps now p (some id) db out h = elim (Option-cases (find_plan id db.plans)) [
  | inl missing ↦ cc (rw missing at h)
  | inr (plan, found) ↦
      let kept = extend_or_create-Keeps now (terms_of p plan) (some p.id) db in
      let same : ok (extend_or_create_subscription now (terms_of p plan) (some p.id) db) ≡ ok out =
        rw found at h in
      ground arith
]

activate_combo-Keeps :
    (now : Time) (p : Purchase) (plans : List ℕ) (db out : Db)
    → activate_combo now p plans db ≡ ok out
    → Keeps db out
unfolding activate_combo
activate_combo-Keeps now p [] db out h = ground arith
activate_combo-Keeps now p (plan ∷ plans) db out h =
    let (mid, one, rest) = >>=-eq-ok (activate_plan now p (some plan) db) _ h in
    Keeps-trans db mid out (activate_plan-Keeps now p (some plan) db mid one)
      (activate_combo-Keeps now p plans mid out rest)

activate_grand_test-Keeps :
    (now : Time) (p : Purchase) (test : Option ℕ) (db out : Db)
    → activate_grand_test now p test db ≡ ok out
    → Keeps db out
unfolding activate_grand_test grant_access on_access create_access record_grant
activate_grand_test-Keeps now p test db out h = ground arith

package_item-Keeps :
    (now : Time) (p : Purchase) (test : ℕ) (state : List ℕ × Db)
    → Keeps state.1 (package_item now p test state).1
unfolding package_item grant_item on_access create_access record_grant
package_item-Keeps now p test state = ground arith

package_items-Keeps :
    (now : Time) (p : Purchase) (tests : List ℕ) (state : List ℕ × Db)
    → Keeps state.1 (package_items now p tests state).1
unfolding package_items
package_items-Keeps now p [] state = Keeps-refl state.1
package_items-Keeps now p (test ∷ tests) state =
    Keeps-trans state.1 (package_item now p test state).1
      (package_items now p tests (package_item now p test state)).1
      (package_item-Keeps now p test state)
      (package_items-Keeps now p tests (package_item now p test state))

activate_package-Keeps :
    (now : Time) (p : Purchase) (db : Db) → Keeps db (activate_package now p db)
unfolding activate_package
activate_package-Keeps now p db = package_items-Keeps now p p.package_test_ids ([], db)

activate_course-Keeps :
    (now : Time) (p : Purchase) (course : Option ℕ) (db out : Db)
    → activate_course now p course db ≡ ok out
    → Keeps db out
unfolding activate_course enroll record_grant
activate_course-Keeps now p course db out h = ground arith

activate_kind-Keeps :
    (kind : PurchaseKind) (now : Time) (p : Purchase) (db out : Db)
    → activate_kind kind now p db ≡ ok out
    → Keeps db out
unfolding activate_kind
activate_kind-Keeps subscription now p db out h = activate_plan-Keeps now p p.plan_id db out h
activate_kind-Keeps grand_test now p db out h =
    activate_grand_test-Keeps now p p.grand_test_id db out h
activate_kind-Keeps combo now p db out h = activate_combo-Keeps now p p.combo_plan_ids db out h
activate_kind-Keeps grand_test_package now p db out h =
    let kept = activate_package-Keeps now p db in ground arith
activate_kind-Keeps teacher_course now p db out h =
    activate_course-Keeps now p p.teacher_course_id db out h
activate_kind-Keeps other_kind now p db out h = cc

pub activate_product-Keeps :
    (now : Time) (p : Purchase) (db : Db) {out : Db}
    → activate_product now p db ≡ ok out
    → Keeps db out
unfolding activate_product
activate_product-Keeps now p db {out} h = activate_kind-Keeps p.kind now p db out h
