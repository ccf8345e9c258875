-- ===== src/Tests/Prices.antt =====
-- Prices with a coupon of ten percent, at most fifty, and one of a fixed sum of thirty.
use hamromentorback.Base.{
  ℕ, ◌*◌, ◌≤◌, ◌≡◌, refl, true, ◌&&◌, not, Option, none, some, [], ◌∷◌, arith, is_some, All,
}
use hamromentorback.Base.Int.{pos}
use hamromentorback.Billing.Orders.{PurchaseKind}
use hamromentorback.Billing.Pricing.{
  Offer, Buyer, Cart, Shop, Price, DiscountType, Eligibility, compute_discount, coupon_usable,
  code_error, find_auto_apply_coupon, resolve_amount, compute_price, is_valid_now,
  applies_to_product, applies_to_course, is_eligible_for,
}
use hamromentorback.Billing.Pricing.Discounts.{IsFair, compute_price-IsFair, code_error-agrees}
use hamromentorback.Billing.Pricing.Best.{off, IsUsable, find_auto_apply_coupon-best}

abbrev rupees : ℕ → ℕ
rupees n = 1_000_000 * n

abbrev ten_percent : Offer
ten_percent = record {
  id = 1;
  code = 65 ∷ [];
  courses = [];
  discount_type = DiscountType.percentage;
  discount_value = 1000;
  applies_to = 97 ∷ 108 ∷ 108 ∷ [];
  start_date = none;
  expiry_date = some 90;
  max_uses = none;
  max_uses_per_user = 1;
  min_purchase_amount = none;
  max_discount_amount = some (rupees 50);
  eligibility = Eligibility.everyone;
  eligible_emails = [];
  new_student_days = 30;
  auto_apply = true;
  is_active = true;
  usage_count = 0;
}

abbrev thirty_off : Offer
thirty_off = record ten_percent {
  id = 2;
  code = 66 ∷ [];
  discount_type = DiscountType.fixed;
  discount_value = rupees 30;
}

abbrev shop : Shop
shop = record {
  now = 0;
  today = 60;
  casing = record { upper = λ t. t; lower = λ t. t };
  referral_percent = 10;
  offers = thirty_off ∷ ten_percent ∷ [];
  purchases = [];
}

abbrev buyer : Option Buyer
buyer = some (record { id = 7; date_joined = 0; email = []; referred_by_id = none })

abbrev cart : Cart
cart = record {
  plan = none;
  grand_test = some (record { courses = 3 ∷ []; price = some (rupees 400) });
  teacher_course = none;
  package_of_tests = none;
}

price_in : Option Price → Price
price_in none = record { amount = 0; discount = 0; final = pos 0; coupon = none; error = none }
price_in (some p) = p

compute_price-IsFair_example :
    IsFair (price_in (compute_price shop PurchaseKind.grand_test cart [] buyer))
unfolding price_in compute_price resolve_amount
compute_price-IsFair_example =
    compute_price-IsFair shop PurchaseKind.grand_test cart [] buyer
      {p = price_in (compute_price shop PurchaseKind.grand_test cart [] buyer)} (omega arith) refl

-- The better of the two coupons is found.
better_found : find_auto_apply_coupon shop cart [] (rupees 400) buyer ≡ some ten_percent
unfolding find_auto_apply_coupon coupon_usable compute_discount is_valid_now applies_to_product
    applies_to_course is_eligible_for
better_found = refl

code_error-agrees_example :
    is_some (code_error shop cart [] (rupees 400) buyer thirty_off)
    ≡ not (coupon_usable shop cart [] (rupees 400) buyer thirty_off)
code_error-agrees_example = code_error-agrees shop cart [] (rupees 400) buyer thirty_off

find_auto_apply_coupon-best_example :
    let usable = coupon_usable shop cart [] (rupees 400) buyer in
    let best = find_auto_apply_coupon shop cart [] (rupees 400) buyer in
    IsUsable usable best
    × All
        (λ c.
          (c.auto_apply && c.is_active) ≡ true
          → usable c ≡ true
          → compute_discount c (rupees 400) ≤ off (rupees 400) best)
        shop.offers
find_auto_apply_coupon-best_example = find_auto_apply_coupon-best shop cart [] (rupees 400) buyer
