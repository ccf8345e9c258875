-- ===== src/Billing/Pricing/Combos.antt =====
-- billing/views.py, `_validate_and_price_combo` and `_price_predefined_combo`: a combo of plans, priced
-- by how many they are or by its own percentage. Money is in millionths.
use hamromentorback.Base.{
  ℕ, ◌+◌, ◌-◌, ◌*◌, ◌/◌, ◌≤◌, ◌≡◌, Bool, true, false, ◌&&◌, ◌||◌, not, List, [], ◌∷◌, ◌==◌, arith,
  ltb, if◌then◌else◌, length,
}
use hamromentorback.Base.Int.{ℤ, pos, sub_ℕ}
use hamromentorback.Billing.Pricing.Discounts.{sub_left, percent_within}
use hamromentorback.Billing.Models.{ProductType, product_tag}

pub record ComboItem : Type 0 where
  pub course_id : ℕ
  pub product_type : ProductType
  pub price : ℕ
  pub is_active : Bool

pub data ComboError : Type 0 where
  too_few_products several_courses repeated_product no_longer_available no_plans : ComboError

pub record ComboPrice : Type 0 where
  pub individual_value : ℕ
  pub discount_percent : ℕ
  pub you_save : ℕ
  pub final_price : ℤ

pub data Quote : Type 0 where
  quoted : ComboPrice → Quote
  refused_combo : ComboError → Quote

-- `COMBO_DISCOUNT_TIERS.get(n, 0)`
unfoldable pub combo_discount_tier : ℕ → ℕ
combo_discount_tier n =
    if n == 2 then 15 else if n == 3 then 25 else if n == 4 then 30 else if n == 5 then 35 else 0

sum_prices : List ComboItem → ℕ
sum_prices [] = 0
sum_prices (p ∷ rest) = p.price + sum_prices rest

in_course : ℕ → List ComboItem → Bool
in_course id [] = true
in_course id (p ∷ rest) = (p.course_id == id) && in_course id rest

-- `len({p.course_id for p in plans}) <= 1`
same_course : List ComboItem → Bool
unfolding in_course
same_course [] = true
same_course (p ∷ rest) = in_course p.course_id rest

has_product : ProductType → List ComboItem → Bool
has_product t [] = false
has_product t (p ∷ rest) = (product_tag p.product_type == product_tag t) || has_product t rest

-- `len(set(product_types)) == len(product_types)`
distinct_products : List ComboItem → Bool
unfolding has_product
distinct_products [] = true
distinct_products (p ∷ rest) = not (has_product p.product_type rest) && distinct_products rest

all_active : List ComboItem → Bool
all_active [] = true
all_active (p ∷ rest) = p.is_active && all_active rest

priced_combo : ℕ → ℕ → ComboPrice
priced_combo percent value = record {
  individual_value = value;
  discount_percent = percent;
  you_save = value * percent / 100;
  final_price = sub_ℕ value (value * percent / 100);
}

unfoldable pub validate_and_price_combo : List ComboItem → Quote
unfolding sum_prices same_course distinct_products all_active priced_combo
validate_and_price_combo plans =
    if ltb (length plans) 2
    then refused_combo too_few_products
    else if not (same_course plans)
    then refused_combo several_courses
    else if not (distinct_products plans)
    then refused_combo repeated_product
    else if not (all_active plans)
    then refused_combo no_longer_available
    else quoted (priced_combo (combo_discount_tier (length plans)) (sum_prices plans))

unfoldable pub price_predefined_combo : ℕ → List ComboItem → Quote
unfolding sum_prices priced_combo
price_predefined_combo discount_percent [] = refused_combo no_plans
price_predefined_combo discount_percent (p ∷ rest) =
    quoted (priced_combo discount_percent (sum_prices (p ∷ rest)))

-- Of a quote: what is paid is what is left of the sum of the prices, never below zero and never
-- above the sum.
pub data IsWithin : Quote → Type 0 where
  within :
      (p : ComboPrice)
      → p.you_save ≤ p.individual_value
      → p.final_price ≡ pos (p.individual_value - p.you_save)
      → IsWithin (quoted p)
  no_price : (e : ComboError) → IsWithin (refused_combo e)

priced_combo-IsWithin :
    (percent value : ℕ) → percent ≤ 100 → IsWithin (quoted (priced_combo percent value))
unfolding priced_combo
priced_combo-IsWithin percent value h =
    let save = percent_within value percent h in
    within (priced_combo percent value) save (sub_left value (value * percent / 100) save)

tier_bound : (n : ℕ) → combo_discount_tier n ≤ 100
unfolding combo_discount_tier
tier_bound n = ground arith

if_IsWithin : (b : Bool) (x y : Quote) → IsWithin x → IsWithin y → IsWithin (if b then x else y)
if_IsWithin true x y wx wy = wx
if_IsWithin false x y wx wy = wy

-- A combo that a student builds is refused or priced within the sum of its plans, whatever the plans.
pub combo-IsWithin : (plans : List ComboItem) → IsWithin (validate_and_price_combo plans)
unfolding validate_and_price_combo
combo-IsWithin plans = if_IsWithin (ltb (length plans) 2) _ _ (no_price too_few_products) (
    if_IsWithin (not (same_course plans)) _ _ (no_price several_courses) (
      if_IsWithin (not (distinct_products plans)) _ _ (no_price repeated_product) (
        if_IsWithin (not (all_active plans)) _ _ (no_price no_longer_available) (
          priced_combo-IsWithin (combo_discount_tier (length plans)) (sum_prices plans)
            (tier_bound (length plans))))))

-- A combo of the catalogue is refused or priced within the sum of its plans, where its percentage is
-- at most a hundred.
pub predefined_combo-IsWithin :
    (percent : ℕ) (plans : List ComboItem)
    → percent ≤ 100
    → IsWithin (price_predefined_combo percent plans)
unfolding price_predefined_combo
predefined_combo-IsWithin percent [] h = no_price no_plans
predefined_combo-IsWithin percent (p ∷ rest) h =
    priced_combo-IsWithin percent (sum_prices (p ∷ rest)) h
