-- ===== src/Billing/Pricing.antt =====
-- billing/views.py, `_resolve_amount`, `_coupon_usable`, `find_auto_apply_coupon` and `compute_price`:
-- what a purchase costs. Money is in millionths. `none` stands for an exception.
mod Offers
pub mod Discounts
pub mod Best
pub mod Combos
unfoldable pub use Offers.*
use hamromentorback.Base.{
  ℕ, ◌+◌, ◌-◌, ◌*◌, ◌/◌, Bool, true, false, ◌&&◌, ◌||◌, not, Option, none, some, List, [], ◌∷◌,
  ◌++◌, ◌==◌, ltb, leb, min, if◌then◌else◌, find_first, select, count_by, any, contains, intersects,
  nonempty, same_key,
}
use hamromentorback.Base.Int.{ℤ, pos, sub_ℕ}
use hamromentorback.Time.{Time, days}
use hamromentorback.Texts.{Text, is_empty, same_text, strip}
use hamromentorback.Base.{◌>>=◌}
use hamromentorback.Billing.Orders.{
  PurchaseStatus, unpaid, pending, resubmission_requested, approved, Purchase, PurchaseKind,
  has_status,
}

below_minimum : ℕ → Option ℕ → Bool
below_minimum amount none = false
below_minimum amount (some least) = ltb amount least

-- The student's open purchases with the coupon; a purchase always has a student.
uses_by : Option Buyer → ℕ → List Purchase → ℕ
unfolding is_open_purchase
uses_by none coupon_id purchases = 0
uses_by (some b) coupon_id purchases =
    count_by
      (λ p. (p.user_id == b.id) && same_key p.coupon_id (some coupon_id) && is_open_purchase p)
      purchases

-- What a price depends on.
pub record Shop : Type 0 where
  pub now : Time
  pub today : ℕ
  pub casing : Casing
  pub referral_percent : ℕ
  pub offers : List Offer
  pub purchases : List Purchase

unfoldable pub coupon_usable : Shop → Cart → Text → ℕ → Option Buyer → Offer → Bool
unfolding below_minimum uses_by
coupon_usable shop cart product_type amount user c =
    is_valid_now shop.today c
    && applies_to_product product_type c
    && applies_to_course cart c
    && is_eligible_for shop.casing shop.now shop.purchases c user
    && not (below_minimum amount c.min_purchase_amount)
    && ltb (uses_by user c.id shop.purchases) c.max_uses_per_user

-- The loop, with the best coupon and its discount so far.
best_from : (Offer → Bool) → ℕ → List Offer → Option Offer → ℕ → Option Offer
unfolding compute_discount
best_from usable amount [] best best_discount = best
best_from usable amount (c ∷ rest) best best_discount =
    let skipped = best_from usable amount rest best best_discount in
    let taken = best_from usable amount rest (some c) (compute_discount c amount) in
    if not (usable c)
    then skipped
    else if ltb best_discount (compute_discount c amount)
    then taken
    else skipped

unfoldable pub find_auto_apply_coupon : Shop → Cart → Text → ℕ → Option Buyer → Option Offer
unfolding best_from
find_auto_apply_coupon shop cart product_type amount user =
    best_from (coupon_usable shop cart product_type amount user) amount
      (select (λ c. c.auto_apply && c.is_active) shop.offers) none 0

-- "teacher_course" and "grand_test"
abbrev teacher_course_text : Text
teacher_course_text =
    116 ∷ 101 ∷ 97 ∷ 99 ∷ 104 ∷ 101 ∷ 114 ∷ 95 ∷ 99 ∷ 111 ∷ 117 ∷ 114 ∷ 115 ∷ 101 ∷ []

abbrev grand_test_text : Text
grand_test_text = 103 ∷ 114 ∷ 97 ∷ 110 ∷ 100 ∷ 95 ∷ 116 ∷ 101 ∷ 115 ∷ 116 ∷ []

-- `grand_test.price or Decimal('0')`
or_zero : Option ℕ → ℕ
or_zero none = 0
or_zero (some price) = price

-- A combo is priced elsewhere; its kind would be read as a Grand Test.
unfoldable pub resolve_amount : PurchaseKind → Cart → Option (ℕ × Text)
unfolding or_zero
resolve_amount PurchaseKind.subscription cart = do p ← cart.plan; some (p.price, p.product_type)
resolve_amount PurchaseKind.teacher_course cart = do
  c ← cart.teacher_course
  some (if c.is_free then 0 else c.price, teacher_course_text)
resolve_amount PurchaseKind.grand_test_package cart = do
  k ← cart.package_of_tests
  some (k.price, grand_test_text)
resolve_amount _ cart = do t ← cart.grand_test; some (or_zero t.price, grand_test_text)

-- Why a typed code is not taken.
pub data CodeError : Type 0 where
  invalid_code not_active other_product other_course not_eligible below_minimum_purchase
        already_used :
      CodeError

pub record Price : Type 0 where
  pub amount : ℕ
  pub discount : ℕ
  pub final : ℤ
  pub coupon : Option Offer
  pub error : Option CodeError

priced : ℕ → ℕ → Option Offer → Option CodeError → Price
priced amount discount coupon error = record {
  amount = amount;
  discount = discount;
  final = sub_ℕ amount discount;
  coupon = coupon;
  error = error;
}

-- The checks of a typed code, one by one.
pub code_error : Shop → Cart → Text → ℕ → Option Buyer → Offer → Option CodeError
unfolding below_minimum uses_by
code_error shop cart product_type amount user c =
    if not (is_valid_now shop.today c)
    then some not_active
    else if not (applies_to_product product_type c)
    then some other_product
    else if not (applies_to_course cart c)
    then some other_course
    else if not (is_eligible_for shop.casing shop.now shop.purchases c user)
    then some not_eligible
    else if below_minimum amount c.min_purchase_amount
    then some below_minimum_purchase
    else if leb c.max_uses_per_user (uses_by user c.id shop.purchases)
    then some already_used
    else none

with_error : ℕ → Offer → Option CodeError → Price
unfolding priced compute_discount
with_error amount c (some e) = priced amount 0 none (some e)
with_error amount c none = priced amount (compute_discount c amount) (some c) none

typed_price : Shop → Cart → Text → ℕ → Option Buyer → Option Offer → Price
unfolding priced with_error code_error
typed_price shop cart product_type amount user none = priced amount 0 none (some invalid_code)
typed_price shop cart product_type amount user (some c) =
    with_error amount c (code_error shop cart product_type amount user c)

-- A referred student's first purchase.
is_referral : Shop → Option Buyer → Bool
unfolding has_open_purchase
is_referral shop none = false
is_referral shop (some b) =
    is_referred b.referred_by_id && not (has_open_purchase b.id shop.purchases)
  where
    is_referred : Option ℕ → Bool
    is_referred none = false
    is_referred (some id) = not (id == 0)

auto_price : Shop → ℕ → Option Buyer → Option Offer → Price
unfolding priced is_referral compute_discount
auto_price shop amount user (some c) = priced amount (compute_discount c amount) (some c) none
auto_price shop amount user none =
    priced amount (if is_referral shop user then amount * shop.referral_percent / 100 else 0) none
      none

price_of : Shop → Cart → Text → Option Buyer → ℕ × Text → Price
unfolding typed_price auto_price
price_of shop cart coupon_code user (amount, product_type) =
    if not (is_empty (strip (some coupon_code)))
    then typed_price shop cart product_type amount user (
        find_first (λ c. same_text c.code (shop.casing.upper (strip (some coupon_code))))
          shop.offers)
    else auto_price shop amount user (find_auto_apply_coupon shop cart product_type amount user)

unfoldable pub compute_price : Shop → PurchaseKind → Cart → Text → Option Buyer → Option Price
unfolding price_of
compute_price shop kind cart coupon_code user = do
  resolved ← resolve_amount kind cart
  some (price_of shop cart coupon_code user resolved)
