-- ===== src/Billing/Payments/Transitions.antt =====
-- billing/payment_service.py: the state machine of a purchase, over every operation of the service.
use hamromentorback.Base.{ℕ, ◌≡◌, ◌⊎◌, inl, inr, some}
use hamromentorback.Time.{Time}
use hamromentorback.Billing.Orders.{Purchase, Db, ok, find_purchase}
use hamromentorback.Billing.Orders.Moves.{Move, Change, Change-moves}
use hamromentorback.Billing.Refunds.{Caller}
use hamromentorback.Billing.Refunds.Frames.{refund-Change}
use hamromentorback.Billing.Payments.{
  check_coupon, redeem, Operation, op_submit, op_activate, op_reject, op_resubmit, op_refund,
  op_expire, op_cancel, run,
}
use hamromentorback.Billing.Payments.Withdrawals.{
  reject-Change, resubmit-Change, cancel-Change, expire-Change,
}
use hamromentorback.Billing.Payments.Submissions.{submit-Change}
use hamromentorback.Billing.Payments.Approvals.{activate_effect, activate-Change}

-- The coupons of an operation: as they were, or one redemption that the check let pass.
abbrev pub CouponEffect : Db → Db → Type 0
CouponEffect db out =
    (out.coupons ≡ db.coupons)
    ⊎ ((p : Purchase) × (check_coupon p p.coupon_id db ≡ ok tt)
        × (out.coupons ≡ (redeem p.coupon_id db).coupons))

pub run_effect :
    (reward : ℕ) (now : Time) (caller : Caller) (op : Operation) (db : Db) {out : Db}
    → run reward now caller op db ≡ ok out
    → Change db.purchases out.purchases × CouponEffect db out
unfolding run
run_effect reward now caller (op_submit id proof) db h =
    let (c, k) = submit-Change now caller id proof db h in (c, inl k)
run_effect reward now caller (op_activate id allow_unpaid) db h =
    let (p, _, _, _, checked, _, coupons) =
      activate_effect now caller reward id allow_unpaid db h in
    (activate-Change now caller reward id allow_unpaid db h, inr (p, checked, coupons))
run_effect reward now caller (op_reject id reason) db h =
    let (c, k) = reject-Change now caller id reason db h in (c, inl k)
run_effect reward now caller (op_resubmit id reason) db h =
    let (c, k) = resubmit-Change caller id reason db h in (c, inl k)
run_effect reward now caller (op_refund id reason) db h =
    let (c, k) = refund-Change now caller id reason db h in (c, inl k)
run_effect reward now caller (op_expire id) db h =
    let (c, k) = expire-Change now id db h in (c, inl k)
run_effect reward now caller (op_cancel id) db h =
    let (c, k) = cancel-Change caller id db h in (c, inl k)

-- Whichever operation of the service succeeds, and on whichever purchase it works, every purchase
-- is afterwards the row that it was, or its status has taken one of the edges of the state
-- machine: unpaid to pending, approved (a free order), expired or cancelled; pending to approved,
-- rejected or resubmission requested; resubmission requested to pending, rejected or cancelled;
-- approved to refunded.
pub run_moves :
    (reward : ℕ) (now : Time) (caller : Caller) (op : Operation) (db : Db) {out : Db} (k : ℕ)
    {p : Purchase}
    → run reward now caller op db ≡ ok out
    → find_purchase k db.purchases ≡ some p
    → (q : Purchase) × (find_purchase k out.purchases ≡ some q) × ((q ≡ p) ⊎ Move p.status q.status)
run_moves reward now caller op db {out} k h found =
    Change-moves k db.purchases out.purchases (run_effect reward now caller op db h).0 found
