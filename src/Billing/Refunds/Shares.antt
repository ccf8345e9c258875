-- ===== src/Billing/Refunds/Shares.antt =====
-- billing/payment_service.py, `_reverse_access_record`: several purchases on one access record.
use hamromentorback.Base.{◌+◌, ◌-◌, ◌≤◌, ◌≡◌, Bool, false, some, arith}
use hamromentorback.Base.Int.{◌-ℤ◌}
use hamromentorback.Time.{Time}
use hamromentorback.Billing.Orders.{PurchaseEntitlementGrant, ok}
use hamromentorback.Billing.Refunds.{
  grant_contribution, baseline_of, shortened, shorten, instant_of, reverse_access_record,
}

-- A grant that extended a record from one end to another.
abbrev pub Extends : Time → Time → PurchaseEntitlementGrant → Type 0
Extends e e' g =
    (g.was_created ≡ false) × (g.previous_expires_at ≡ some e) × (g.granted_expires_at ≡ some e')

shortens :
    (g : PurchaseEntitlementGrant) (e e' current : Time) (others : Bool) (start : Time)
    → Extends e e' g
    → e' ≤ current + e
    → reverse_access_record g (some current) others start ≡ ok (shortened (current + e - e'))
unfolding reverse_access_record shorten instant_of grant_contribution baseline_of ◌-ℤ◌
shortens g e e' current others start x h = ground arith

-- Two purchases have extended one record, the first from e to a and the second from a to b. Whatever
-- other grants are live, refunding both in either order ends at e, the end before both, and after
-- one refund exactly the duration of the other purchase is left from e on.
pub refunds_in_any_order :
    (first second : PurchaseEntitlementGrant) (e a b start : Time) (others : Bool)
    → Extends e a first
    → Extends a b second
    → e ≤ a
    → a ≤ b
    → (reverse_access_record first (some b) others start ≡ ok (shortened (e + (b - a))))
      × (reverse_access_record second (some (e + (b - a))) others start ≡ ok (shortened e))
      × (reverse_access_record second (some b) others start ≡ ok (shortened a))
      × (reverse_access_record first (some a) others start ≡ ok (shortened e))
refunds_in_any_order first second e a b start others x y h k =
    let r1 = shortens first e a b others start x (omega arith) in
    let r2 = shortens second a b (e + (b - a)) others start y (omega arith) in
    let r3 = shortens second a b b others start y (omega arith) in
    let r4 = shortens first e a a others start x (omega arith) in
    let e1 : b + e - a ≡ e + (b - a) = omega arith in
    let e2 : e + (b - a) + a - b ≡ e = omega arith in
    let e3 : b + a - b ≡ a = omega arith in
    let e4 : a + e - a ≡ e = omega arith in (rw e1 at r1, rw e2 at r2, rw e3 at r3, rw e4 at r4)
