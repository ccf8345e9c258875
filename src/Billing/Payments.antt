-- ===== src/Billing/Payments.antt =====
-- billing/payment_service.py: the operations on a purchase. An operation is one transaction and the
-- audit row after it; letters to the student are left out. `now` stands for every reading of the
-- clock in one operation.
pub mod Saves
pub mod Withdrawals
pub mod Submissions
pub mod Approvals
pub mod Transitions
pub mod Coupons
pub mod Histories
pub mod References
use hamromentorback.Base.{
  ℕ, suc, ◌+◌, Bool, true, false, ◌&&◌, ◌||◌, not, Option, none, some, List, [], ◌∷◌, ◌==◌, leb,
  if◌then◌else◌, find_first, any, count_by, update_by, holds_id,
}
use hamromentorback.Time.{Time}
use hamromentorback.Texts.{Text, audit_reason, is_empty, strip, same_text}
use hamromentorback.Billing.Orders.{
  PurchaseStatus, unpaid, pending, resubmission_requested, approved, rejected, expired, cancelled,
  Coupon, Purchase, has_status, is_expired, Db, Error, Result, ok, err, ◌>>=◌, ◌>>◌,
  not_awaiting_submission, window_expired, reference_required, reference_used, already_decided,
  reference_approved, coupon_exhausted, coupon_user_limit, reason_required,
  not_awaiting_verification, not_cancellable, invalid_screenshot, does_not_exist, raise_if,
  or_raise, is_reference_of, is_claimed, find_purchase, save_purchase,
}
use hamromentorback.Billing.Products.{activate_product, maybe_reward_referrer}
use hamromentorback.Billing.Refunds.{Caller, refund}

-- `record_payment_event`, of a purchase as it was before
record_event : Caller → Purchase → PurchaseStatus → Text → Text → Db → Db
record_event caller p new_status reason reference db = record db {
  audit_log =
      record {
        purchase_id = p.id;
        previous_status = p.status;
        new_status = new_status;
        actor = caller.noted_actor;
        reason = audit_reason reason;
        payment_reference = reference;
        grants_processed = 0;
      }
      ∷ db.audit_log;
}

save : Purchase → Db → Db
save p db = record db { purchases = save_purchase p db.purchases }

-- `screenshot` is what `store_screenshot` answers, nothing where it raises.
pub record Proof : Type 0 where
  pub payment_method : Option ℕ
  pub payment_reference : Option Text
  pub screenshot : Option Text

submitted : Option ℕ → Text → Text → Purchase → Purchase
submitted method reference key p = record p {
  payment_method = method;
  payment_reference = reference;
  screenshot_key = key;
  status = pending;
  admin_note = [];
}

submit_reference : Caller → Proof → Text → Purchase → Db → Result Db
unfolding submitted save record_event
submit_reference caller proof reference p db = do
  raise_if (is_empty reference) reference_required
  raise_if (any (is_reference_of is_claimed p.id reference) db.purchases) reference_used
  key ← or_raise invalid_screenshot proof.screenshot
  ok (
      record_event caller p pending [] reference
        (save (submitted proof.payment_method reference key p) db))

unfoldable pub submit : Time → Caller → ℕ → Proof → Db → Result Db
unfolding submit_reference
submit now caller purchase_id proof db = do
  p ← or_raise does_not_exist (find_purchase purchase_id db.purchases)
  raise_if (not (has_status unpaid p || has_status resubmission_requested p))
      not_awaiting_submission
  raise_if (has_status unpaid p && is_expired now p) window_expired
  submit_reference caller proof (strip proof.payment_reference) p db

is_redemption : Purchase → Coupon → Purchase → Bool
is_redemption p coupon q =
    (q.user_id == p.user_id)
    && holds_id coupon.id q.coupon_id
    && has_status approved q
    && not (q.id == p.id)

-- `max_uses is not None and usage_count >= max_uses`
is_exhausted : Coupon → Bool
is_exhausted coupon = elim coupon.max_uses [ none ↦ false | some m ↦ leb m coupon.usage_count ]

-- A `max_uses_per_user` of 0 sets no limit.
is_spent_by_user : Purchase → Coupon → Db → Bool
unfolding is_redemption
is_spent_by_user p coupon db =
    not (coupon.max_uses_per_user == 0)
    && leb coupon.max_uses_per_user (count_by (is_redemption p coupon) db.purchases)

abbrev pub find_coupon : ℕ → List Coupon → Option Coupon
find_coupon id l = find_first (λ c. c.id == id) l

pub check_coupon : Purchase → Option ℕ → Db → Result (Unit {0})
unfolding is_exhausted is_spent_by_user
check_coupon p none db = ok tt
check_coupon p (some coupon_id) db = do
  coupon ← or_raise does_not_exist (find_coupon coupon_id db.coupons)
  raise_if (is_exhausted coupon) coupon_exhausted
  raise_if (is_spent_by_user p coupon db) coupon_user_limit

pub approved_purchase : Time → Option ℕ → Purchase → Purchase
approved_purchase now actor p = record p {
  status = approved;
  decided_at = some now;
  decided_by = actor;
}

-- `update(usage_count=F('usage_count') + 1)`
pub redeem : Option ℕ → Db → Db
redeem none db = db
redeem (some coupon_id) db = record db {
  coupons =
      update_by (λ c. c.id == coupon_id) (λ c. record c { usage_count = suc c.usage_count })
        db.coupons;
}

settle : Time → Caller → ℕ → Purchase → Db → Db
unfolding approved_purchase save redeem record_event
settle now caller reward p db =
    let decided = save (approved_purchase now caller.actor p) db in
    let rewarded = maybe_reward_referrer reward p (redeem p.coupon_id decided) in
    record_event caller p approved [] [] rewarded

unfoldable pub activate : Time → Caller → ℕ → ℕ → Bool → Db → Result Db
unfolding check_coupon settle
activate now caller reward purchase_id allow_unpaid db = do
  p ← or_raise does_not_exist (find_purchase purchase_id db.purchases)
  raise_if (not (has_status pending p || (allow_unpaid && has_status unpaid p))) already_decided
  raise_if
      (not (is_empty p.payment_reference)
        && any (is_reference_of (has_status approved) p.id p.payment_reference) db.purchases)
      reference_approved
  check_coupon p p.coupon_id db
  active ← activate_product now p db
  ok (settle now caller reward p active)

rejected_purchase : Time → Option ℕ → Text → Purchase → Purchase
rejected_purchase now actor reason p = record p {
  status = rejected;
  admin_note = reason;
  decided_at = some now;
  decided_by = actor;
}

unfoldable pub reject : Time → Caller → ℕ → Option Text → Db → Result Db
unfolding rejected_purchase save record_event
reject now caller purchase_id reason db = do
  raise_if (is_empty (strip reason)) reason_required
  p ← or_raise does_not_exist (find_purchase purchase_id db.purchases)
  raise_if (not (has_status pending p || has_status resubmission_requested p)) already_decided
  ok (
      record_event caller p rejected (strip reason) []
        (save (rejected_purchase now caller.actor (strip reason) p) db))

unfoldable pub request_resubmission : Caller → ℕ → Option Text → Db → Result Db
unfolding save record_event
request_resubmission caller purchase_id reason db = do
  raise_if (is_empty (strip reason)) reason_required
  p ← or_raise does_not_exist (find_purchase purchase_id db.purchases)
  raise_if (not (has_status pending p)) not_awaiting_verification
  ok (
      record_event caller p resubmission_requested (strip reason) []
        (save (record p { status = resubmission_requested; admin_note = strip reason }) db))

expire_row : Purchase → Db → Db
unfolding save record_event
expire_row p db =
    record_event (record { actor = none; noted_actor = none }) p expired [] []
      (save (record p { status = expired }) db)

unfoldable pub expire : Time → ℕ → Db → Result Db
unfolding expire_row
expire now purchase_id db = do
  p ← or_raise does_not_exist (find_purchase purchase_id db.purchases)
  if not (has_status unpaid p) || not (is_expired now p) then ok db else ok (expire_row p db)

unfoldable pub cancel : Caller → ℕ → Db → Result Db
unfolding save record_event
cancel caller purchase_id db = do
  p ← or_raise does_not_exist (find_purchase purchase_id db.purchases)
  raise_if (not (has_status unpaid p || has_status resubmission_requested p)) not_cancellable
  ok (record_event caller p cancelled [] [] (save (record p { status = cancelled }) db))

-- A call of the service, with the setting REFERRAL_REWARD_AMOUNT for `run`.
pub data Operation : Type 0 where
  op_submit : ℕ → Proof → Operation
  op_activate : ℕ → Bool → Operation
  op_reject op_resubmit op_refund : ℕ → Option Text → Operation
  op_expire op_cancel : ℕ → Operation

unfoldable pub run : ℕ → Time → Caller → Operation → Db → Result Db
run reward now caller (op_submit id proof) db = submit now caller id proof db
run reward now caller (op_activate id allow_unpaid) db =
    activate now caller reward id allow_unpaid db
run reward now caller (op_reject id reason) db = reject now caller id reason db
run reward now caller (op_resubmit id reason) db = request_resubmission caller id reason db
run reward now caller (op_refund id reason) db = refund now caller id reason db
run reward now caller (op_expire id) db = expire now id db
run reward now caller (op_cancel id) db = cancel caller id db
