-- ===== src/Billing/Payments/Coupons.antt =====
-- billing/payment_service.py, the redemption cap of a coupon: checked and counted in `activate`.
use hamromentorback.Base.{
  ℕ, suc, ◌≤◌, ◌≡◌, refl, false, Option, none, some, ◌==◌, arith, All, Unique, update_by,
  All-update_found, find_first_sound, ==→eq, inl, inr, Unique-update,
}
use hamromentorback.Billing.Orders.{
  Coupon, Purchase, Db, ok, does_not_exist, coupon_exhausted, or_raise,
}
use hamromentorback.Billing.Orders.Frames.{>>=-eq-ok, raise_if-eq-ok, or_raise-eq-ok}
use hamromentorback.Billing.Payments.{find_coupon, check_coupon, is_exhausted, redeem}
use hamromentorback.Billing.Payments.Transitions.{run_effect, CouponEffect}
use hamromentorback.Billing.Payments.Histories.{History, done, call}

-- Not more redemptions than the coupon allows.
abbrev pub WithinUses : Coupon → Type 0
WithinUses c = (m : ℕ) → c.max_uses ≡ some m → c.usage_count ≤ m

-- Coupons have keys of their own, and none is redeemed too often.
abbrev pub CouponsWithin : Db → Type 0
CouponsWithin db = Unique (λ c. c.id) db.coupons × All WithinUses db.coupons

abbrev count_up : Coupon → Coupon
count_up c = record c { usage_count = suc c.usage_count }

has_room : (c : Coupon) → is_exhausted c ≡ false → WithinUses (count_up c)
unfolding is_exhausted
has_room c room m h = ground arith

counted :
    (c : Coupon) (id : ℕ) (db : Db)
    → c.id ≡ id
    → find_coupon id db.coupons ≡ some c
    → is_exhausted c ≡ false
    → CouponsWithin db
    → All WithinUses (update_by (λ r. r.id == id) count_up db.coupons)
counted c id db key found room within = rw key at (
    All-update_found WithinUses (λ r. r.id == id) (λ r. r.id) count_up db.coupons within.0 found
      (has_room c room) within.1)

redeem-Within :
    (p : Purchase) (id : Option ℕ) (db : Db)
    → check_coupon p id db ≡ ok tt
    → CouponsWithin db
    → CouponsWithin (redeem id db)
unfolding check_coupon redeem
redeem-Within p none db h within = within
redeem-Within p (some id) db h within =
    let (c, get, rest) = >>=-eq-ok (or_raise does_not_exist (find_coupon id db.coupons)) _ h in
    let (room, _) = raise_if-eq-ok (is_exhausted c) coupon_exhausted _ rest in
    let found = or_raise-eq-ok does_not_exist (find_coupon id db.coupons) get in
    let key : c.id ≡ id = ==→eq c.id id (find_first_sound (λ r. r.id == id) db.coupons found) in
    (
      Unique-update (λ r. r.id) (λ r. r.id == id) count_up db.coupons (λ r. refl) within.0,
      counted c id db key found room within,
    )

effect-Within : (db out : Db) → CouponEffect db out → CouponsWithin db → CouponsWithin out
effect-Within db out (inl same) within = rw same within
effect-Within db out (inr (p, checked, counts)) within =
    rw counts (redeem-Within p p.coupon_id db checked within)

-- No sequence of successful calls of the service redeems a coupon more often than its `max_uses`:
-- where coupons have different keys and each is within its cap at the start, each is at the end.
pub run-CouponsWithin :
    (reward : ℕ) (a b : Db) → History reward a b → CouponsWithin a → CouponsWithin b
run-CouponsWithin reward a b (done c) within = within
run-CouponsWithin reward a b (call now caller op c mid e h rest) within =
    run-CouponsWithin reward mid b rest
      (effect-Within a mid (run_effect reward now caller op a h).1 within)
