-- ===== src/Billing/Pricing/Discounts.antt =====
-- billing/models.py and billing/views.py: the bounds of a price, and the two lists of checks of a coupon.
use hamromentorback.Base.{
  ℕ, ◌-◌, ◌*◌, ◌/◌, ◌≤◌, ◌≡◌, refl, subst, Bool, true, false, not, Option, none, some, arith, min,
  is_some, find_first, if◌then◌else◌,
}
use mathlib.Core.Option.{some_inj}
use native.Mathlib.Nat.{div-add-mod, mul-le-mul_left}
use hamromentorback.Base.Int.{pos, sub_ℕ}
use hamromentorback.Texts.{Text, is_empty, strip, same_text}
use hamromentorback.Base.{bind-eq-some}
use hamromentorback.Billing.Orders.{PurchaseKind}
use hamromentorback.Billing.Pricing.{
  Offer, Buyer, Cart, Shop, Price, CodeError, DiscountType, fixed, percentage, discount_of,
  compute_discount, coupon_usable, code_error, resolve_amount, find_auto_apply_coupon, is_referral,
  priced, with_error, typed_price, auto_price, price_of, compute_price,
}

min_right : (a b : ℕ) → min a b ≤ b
min_right a b = omega (arith)

discount_of_bound : (t : DiscountType) (c : Offer) (amount : ℕ) → discount_of t c amount ≤ amount
unfolding discount_of
discount_of_bound fixed c amount = min_right _ amount
discount_of_bound percentage c amount = min_right _ amount
discount_of_bound DiscountType.free_exam c amount = omega (arith)
discount_of_bound DiscountType.free_subscription c amount = omega (arith)
discount_of_bound DiscountType.free_grand_test c amount = omega (arith)

pub compute_discount_bound : (c : Offer) (amount : ℕ) → compute_discount c amount ≤ amount
unfolding compute_discount
compute_discount_bound c amount = discount_of_bound c.discount_type c amount

-- A discount that is at most the amount, a final amount that is what is left, and no discount where a
-- typed code was turned away.
pub record IsFair (p : Price) : Type 0 where
  pub at_most : p.discount ≤ p.amount
  pub left : p.final ≡ pos (p.amount - p.discount)
  pub none_on_error : (e : CodeError) → p.error ≡ some e → (p.discount ≡ 0) × (p.coupon ≡ none)

pub sub_left : (a b : ℕ) → b ≤ a → sub_ℕ a b ≡ pos (a - b)
sub_left a b h = ground arith

priced-IsFair :
    (amount discount : ℕ) (coupon : Option Offer)
    → discount ≤ amount
    → IsFair (priced amount discount coupon none)
unfolding priced
priced-IsFair amount discount coupon h = record {
  at_most = h;
  left = sub_left amount discount h;
  none_on_error = λ e no. cc;
}

refused-IsFair : (amount : ℕ) (e : CodeError) → IsFair (priced amount 0 none (some e))
unfolding priced
refused-IsFair amount e = record {
  at_most = omega (arith);
  left = sub_left amount 0 (omega (arith));
  none_on_error = λ e' h. (refl, refl);
}

with_error-IsFair : (amount : ℕ) (c : Offer) (e : Option CodeError) → IsFair (with_error amount c e)
unfolding with_error
with_error-IsFair amount c (some e) = refused-IsFair amount e
with_error-IsFair amount c none =
    priced-IsFair amount (compute_discount c amount) (some c) (compute_discount_bound c amount)

typed-IsFair :
    (shop : Shop) (cart : Cart) (t : Text) (amount : ℕ) (user : Option Buyer) (c : Option Offer)
    → IsFair (typed_price shop cart t amount user c)
unfolding typed_price
typed-IsFair shop cart t amount user none = refused-IsFair amount CodeError.invalid_code
typed-IsFair shop cart t amount user (some c) =
    with_error-IsFair amount c (code_error shop cart t amount user c)

pub percent_within : (amount percent : ℕ) → percent ≤ 100 → amount * percent / 100 ≤ amount
percent_within amount percent h =
    let parts = div-add-mod (amount * percent) 100 in
    let whole = mul-le-mul_left amount h in omega (arith, parts, whole)

if_bound : (b : Bool) (amount d : ℕ) → d ≤ amount → (if b then d else 0) ≤ amount
if_bound b amount d h = ground arith

auto-IsFair :
    (shop : Shop) (amount : ℕ) (user : Option Buyer) (c : Option Offer)
    → shop.referral_percent ≤ 100
    → IsFair (auto_price shop amount user c)
unfolding auto_price
auto-IsFair shop amount user (some c) h =
    priced-IsFair amount (compute_discount c amount) (some c) (compute_discount_bound c amount)
auto-IsFair shop amount user none h =
    priced-IsFair amount _ none
      (if_bound (is_referral shop user) amount _ (percent_within amount shop.referral_percent h))

-- A price that is computed, by a typed code, the best coupon of the shop or a referral: its discount
-- is at most the amount, the final amount is the amount less the discount and never negative, and a
-- typed code that is turned away gives no discount. The percentage for referrals is at most a
-- hundred.
pub compute_price-IsFair :
    (shop : Shop) (kind : PurchaseKind) (cart : Cart) (coupon_code : Text) (user : Option Buyer)
    {p : Price}
    → shop.referral_percent ≤ 100
    → compute_price shop kind cart coupon_code user ≡ some p
    → IsFair p
unfolding compute_price price_of
compute_price-IsFair shop kind cart coupon_code user percent h =
    let ((amount, product_type), _, e) = bind-eq-some (resolve_amount kind cart) _ h in
    subst IsFair (some_inj.0 e) (
      either (not (is_empty (strip (some coupon_code)))) _ _
        (typed-IsFair shop cart product_type amount user (
          find_first (λ c. same_text c.code (shop.casing.upper (strip (some coupon_code))))
            shop.offers))
        (auto-IsFair shop amount user (find_auto_apply_coupon shop cart product_type amount user)
          percent))
  where
    either : (b : Bool) (x y : Price) → IsFair x → IsFair y → IsFair (if b then x else y)
    either true x y fx fy = fx
    either false x y fx fy = fy

-- The two lists of checks of a coupon agree: a code that a student types is turned away by one of
-- the checks of compute_price exactly where the coupon would be passed over as one that applies by
-- itself, for every student, cart and price.
pub code_error-agrees :
    (shop : Shop) (cart : Cart) (product_type : Text) (amount : ℕ) (user : Option Buyer) (c : Offer)
    → is_some (code_error shop cart product_type amount user c)
      ≡ not (coupon_usable shop cart product_type amount user c)
unfolding code_error coupon_usable
code_error-agrees shop cart product_type amount user c = ground arith
