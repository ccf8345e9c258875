-- ===== src/Tests/Payments.antt =====
-- Payments: decisions, coupons, references and refunds.
use hamromentorback.Base.{
  ℕ, ◌+◌, ◌≡◌, ◌⊎◌, refl, true, false, none, some, [], ◌∷◌, arith, contains, find_first, map, ◌==◌,
}
use hamromentorback.Base.Int.{◌-ℤ◌}
use hamromentorback.Time.{days}
use hamromentorback.Accounts.{signed_in}
use hamromentorback.Courses.{eligible_course_ids}
use hamromentorback.Billing.Models.{Subscription, duration_timedelta}
use hamromentorback.Texts.{strip, audit_reason}
use hamromentorback.Billing.Orders.{
  PurchaseEntitlementGrant, Purchase, PurchaseStatus, Db, Result, ok, err, already_decided,
  find_purchase,
}
use hamromentorback.Billing.Orders.Moves.{Move}
use hamromentorback.Billing.Activation.{
  extend_or_create_subscription, ensure_enrollment, record_grant,
}
use hamromentorback.Billing.Activation.Membership.{paid_course_visible}
use hamromentorback.Billing.Activation.Renewal.{renewal_end}
use hamromentorback.Billing.Products.{activate_product, maybe_reward_referrer, terms_of}
use hamromentorback.Billing.Refunds.{
  reverse_access_record, shortened, refund, reverse_grant, grant_contribution, other_live_grants,
}
use hamromentorback.Billing.Refunds.Again.{refund_idempotent}
use hamromentorback.Billing.Refunds.Others.{refund_keeps_others}
use hamromentorback.Billing.Refunds.Shares.{refunds_in_any_order}
use hamromentorback.Billing.Refunds.Renewed.{end_before, refund_of_renewal}
use hamromentorback.Billing.Orders.{PurchaseEntitlementGrant}
use hamromentorback.Base.{Bool, ◌++◌}
use hamromentorback.Billing.Payments.{activate, reject, run, op_reject, op_activate}
use hamromentorback.Billing.Payments.Transitions.{run_moves}
use hamromentorback.Billing.Payments.Histories.{History, done, call, activate_once}
use hamromentorback.Billing.Payments.Coupons.{CouponsWithin, run-CouponsWithin}
use hamromentorback.Tests.Data.{student}
use hamromentorback.Tests.Shop.{
  lifetime_row, blurred, reference, admin, month_plan, order, shop, extension, twice_shop,
}

-- The tables that a call leaves, where it succeeds.
abbrev after : Result Db → Db → Db
after (ok db) other = db
after (err e) other = other

abbrev rejected_shop : Db
rejected_shop = after (reject 5 admin 20 (some blurred) shop) shop

reject_ok : run 1 5 admin (op_reject 20 (some blurred)) shop ≡ ok rejected_shop
unfolding run reject strip audit_reason
reject_ok = refl

run_moves_example :
    (q : Purchase) × (find_purchase 20 rejected_shop.purchases ≡ some q)
    × ((q ≡ order) ⊎ Move PurchaseStatus.pending q.status)
run_moves_example = run_moves 1 5 admin (op_reject 20 (some blurred)) shop 20 reject_ok refl

abbrev active_shop : Db
active_shop = after (activate 5 admin 1 20 false shop) shop

activate_ok : activate 5 admin 1 20 false shop ≡ ok active_shop
unfolding activate activate_product extend_or_create_subscription ensure_enrollment record_grant
    maybe_reward_referrer duration_timedelta audit_reason
activate_ok = refl

activate_once_example : activate 9 admin 1 20 true active_shop ≡ err already_decided
activate_once_example =
    activate_once 1 5 9 admin admin 20 false true shop active_shop active_shop activate_ok
      (done active_shop)

activation : History 1 shop active_shop
unfolding run
activation =
    call 5 admin (op_activate 20 false) shop active_shop active_shop activate_ok (done active_shop)

run-CouponsWithin_example : CouponsWithin active_shop
run-CouponsWithin_example =
    run-CouponsWithin 1 shop active_shop activation ((tt, tt), (λ m h. omega arith, tt))

refunds_in_any_order_example :
    (reverse_access_record (extension 100 130) (some 160) true 0 ≡ ok (shortened 130))
    × (reverse_access_record (extension 130 160) (some 130) true 0 ≡ ok (shortened 100))
    × (reverse_access_record (extension 130 160) (some 160) true 0 ≡ ok (shortened 130))
    × (reverse_access_record (extension 100 130) (some 130) true 0 ≡ ok (shortened 100))
refunds_in_any_order_example =
    refunds_in_any_order (extension 100 130) (extension 130 160) 100 130 160 0 true
      (refl, refl, refl) (refl, refl, refl) (omega arith) (omega arith)

refund_of_renewal_example :
    let out = extend_or_create_subscription 15 (terms_of order month_plan) (some 20) shop in
    (row : Subscription) × (g : PurchaseEntitlementGrant) × (until : ℕ) × (find_first
        (λ r. r.id == 4)
        out.subscriptions
      ≡ some row)
    × (row.expires_at ≡ some until)
    × (out.grants ≡ shop.grants ++ (g ∷ []))
    × ((later : ℕ) (others : Bool)
        → reverse_access_record g (some (until + later)) others row.starts_at
          ≡ ok (shortened (end_before lifetime_row + later)))
unfolding duration_timedelta
refund_of_renewal_example =
    refund_of_renewal 15 (terms_of order month_plan) 20 shop (days 30) (tt, tt) refl refl
      (ground arith) (omega arith)

paid_course_visible_example :
    contains 3
      (eligible_course_ids 5 (ensure_enrollment 5 7 3 shop).memberships (signed_in student))
    ≡ true
paid_course_visible_example = paid_course_visible 5 student 3 shop

abbrev refunded_shop : Db
refunded_shop = after (refund 6 admin 20 (some blurred) active_shop) active_shop

refund_ok : refund 6 admin 20 (some blurred) active_shop ≡ ok refunded_shop
unfolding activate activate_product extend_or_create_subscription ensure_enrollment record_grant
    maybe_reward_referrer duration_timedelta audit_reason refund reverse_grant strip
    reverse_access_record grant_contribution other_live_grants ◌-ℤ◌
refund_ok = refl

refund_idempotent_example : refund 7 admin 20 (some reference) refunded_shop ≡ ok refunded_shop
unfolding strip
refund_idempotent_example =
    refund_idempotent 6 7 admin admin 20 (some blurred) (some reference) active_shop refunded_shop
      refund_ok refl

abbrev rejected_order : Purchase
rejected_order = record order {
  status = PurchaseStatus.rejected;
  admin_note = blurred;
  decided_at = some 5;
  decided_by = some 1;
}

rejected_found : find_purchase 20 rejected_shop.purchases ≡ some rejected_order
unfolding reject strip
rejected_found = refl

-- A month bought on top of access for life.
renewal_end_example :
    (row : Subscription) × (find_first
        (λ r. r.id == 4)
        (extend_or_create_subscription 5 (terms_of order month_plan) none shop).subscriptions
      ≡ some row)
    × (row.expires_at ≡ some (5 + days 30))
unfolding duration_timedelta
renewal_end_example =
    renewal_end 5 (terms_of order month_plan) none shop (days 30) (tt, tt) refl refl (ground arith)

-- A combo that names the same course and product twice: after its refund the student keeps the time
-- of the first plan.
abbrev twice_active : Db
twice_active = after (activate 0 admin 1 21 false twice_shop) twice_shop

abbrev twice_refunded : Db
twice_refunded = after (refund 6 admin 21 (some blurred) twice_active) twice_active

twice_kept :
    (map (λ s. s.is_active) twice_refunded.subscriptions ≡ true ∷ [])
    × (map (λ s. s.expires_at) twice_refunded.subscriptions ≡ some (days 30) ∷ [])
unfolding activate activate_product extend_or_create_subscription ensure_enrollment record_grant
    maybe_reward_referrer duration_timedelta audit_reason refund reverse_grant strip
    reverse_access_record grant_contribution other_live_grants ◌-ℤ◌
twice_kept = (refl, refl)

-- A ledger row of purchase 30 on the subscription that the refunded purchase 20 has extended too.
abbrev shared_grant : PurchaseEntitlementGrant
shared_grant = record (extension 200 300) { id = 7; purchase_id = 30 }

abbrev shared_shop : Db
shared_shop = record shop {
  purchases = record order { status = PurchaseStatus.approved } ∷ [];
  subscriptions = record lifetime_row { expires_at = some 300 } ∷ [];
  grants = extension 100 200 ∷ shared_grant ∷ [];
}

abbrev shared_after : Db
shared_after = after (refund 6 admin 20 (some blurred) shared_shop) shared_shop

shared_ok : refund 6 admin 20 (some blurred) shared_shop ≡ ok shared_after
unfolding refund reverse_grant strip reverse_access_record grant_contribution other_live_grants ◌-ℤ◌
    audit_reason
shared_ok = refl

-- The other purchase keeps its hundred units.
shared_end : map (λ s. s.expires_at) shared_after.subscriptions ≡ some 200 ∷ []
unfolding refund reverse_grant strip reverse_access_record grant_contribution other_live_grants ◌-ℤ◌
    audit_reason
shared_end = refl

refund_keeps_others_example : find_first (λ r. r.id == 7) shared_after.grants ≡ some shared_grant
refund_keeps_others_example =
    refund_keeps_others 6 admin 20 (some blurred) shared_shop 7 ((ground arith, tt), (tt, tt)) refl
      (ground arith) shared_ok
