-- ===== src/Billing/Pricing/Offers.antt =====
-- billing/models.py, `Coupon`: when a coupon applies, and its discount. Money is in millionths, in which
-- a hundredth of a percent of a price is a whole number; a percentage is in hundredths of a percent.
-- The letter cases of Unicode are a parameter.
use hamromentorback.Base.{
  ℕ, ◌+◌, ◌*◌, ◌/◌, Bool, true, false, ◌&&◌, ◌||◌, not, Option, none, some, List, [], ◌∷◌, ◌++◌,
  ◌==◌, ltb, leb, min, if◌then◌else◌, any, contains, intersects, nonempty,
}
use hamromentorback.Time.{Time, days}
use hamromentorback.Texts.{Text, is_empty, same_text, strip}
use hamromentorback.Billing.Orders.{
  unpaid, pending, resubmission_requested, approved, Purchase, has_status,
}

pub data DiscountType : Type 0 where
  fixed percentage free_exam free_subscription free_grand_test : DiscountType

pub data Eligibility : Type 0 where
  everyone registered first_purchase new_students specific_emails : Eligibility

-- A coupon with the columns that pricing reads; `applies_to` and the product types are their texts,
-- a date is the number of its day.
pub record Offer : Type 0 where
  pub id : ℕ
  pub code : Text
  pub courses : List ℕ
  pub discount_type : DiscountType
  pub discount_value : ℕ
  pub applies_to : Text
  pub start_date : Option ℕ
  pub expiry_date : Option ℕ
  pub max_uses : Option ℕ
  pub max_uses_per_user : ℕ
  pub min_purchase_amount : Option ℕ
  pub max_discount_amount : Option ℕ
  pub eligibility : Eligibility
  pub eligible_emails : Text
  pub new_student_days : ℕ
  pub auto_apply : Bool
  pub is_active : Bool
  pub usage_count : ℕ

-- The student who buys; nobody where the request is not signed in.
pub record Buyer : Type 0 where
  pub id : ℕ
  pub date_joined : Time
  pub email : Text
  pub referred_by_id : Option ℕ

-- `str.upper` and `str.lower`
pub record Casing : Type 0 where
  pub upper : Text → Text
  pub lower : Text → Text

pub record PricedPlan : Type 0 where
  pub course_id : ℕ
  pub price : ℕ
  pub product_type : Text

pub record PricedTest : Type 0 where
  pub courses : List ℕ
  pub price : Option ℕ

pub record PricedCourse : Type 0 where
  pub is_free : Bool
  pub price : ℕ

-- `tests` are the courses of each test of the package.
pub record PricedPackage : Type 0 where
  pub price : ℕ
  pub tests : List (List ℕ)

-- What a request names, whatever its kind.
pub record Cart : Type 0 where
  pub plan : Option PricedPlan
  pub grand_test : Option PricedTest
  pub teacher_course : Option PricedCourse
  pub package_of_tests : Option PricedPackage

before_day : ℕ → Option ℕ → Bool
before_day today none = false
before_day today (some d) = ltb today d

after_day : ℕ → Option ℕ → Bool
after_day today none = false
after_day today (some d) = ltb d today

used_up : Option ℕ → ℕ → Bool
used_up none used = false
used_up (some m) used = leb m used

unfoldable pub is_valid_now : ℕ → Offer → Bool
unfolding before_day after_day used_up
is_valid_now today c =
    c.is_active
    && not (before_day today c.start_date)
    && not (after_day today c.expiry_date)
    && not (used_up c.max_uses c.usage_count)

-- "all"
abbrev all_products : Text
all_products = 97 ∷ 108 ∷ 108 ∷ []

unfoldable pub applies_to_product : Text → Offer → Bool
applies_to_product product_type c =
    same_text c.applies_to all_products || same_text c.applies_to product_type

-- `not test_course_ids or bool(test_course_ids & coupon_course_ids)`
overlaps : List ℕ → List ℕ → Bool
overlaps test_courses coupon_courses =
    not (nonempty test_courses) || intersects test_courses coupon_courses

joined : List (List ℕ) → List ℕ
joined [] = []
joined (l ∷ rest) = l ++ joined rest

scoped : Option PricedPlan → Option PricedTest → Option PricedPackage → List ℕ → Bool
unfolding overlaps joined
scoped (some p) t k ids = contains p.course_id ids
scoped none (some t) k ids = overlaps t.courses ids
scoped none none (some k) ids = overlaps (joined k.tests) ids
scoped none none none ids = true

unfoldable pub applies_to_course : Cart → Offer → Bool
unfolding scoped
applies_to_course cart c =
    not (nonempty c.courses) || scoped cart.plan cart.grand_test cart.package_of_tests c.courses

-- `status__in=OPEN_STATUSES`
unfoldable pub is_open_purchase : Purchase → Bool
is_open_purchase p =
    has_status unpaid p
    || has_status pending p
    || has_status resubmission_requested p
    || has_status approved p

unfoldable pub has_open_purchase : ℕ → List Purchase → Bool
unfolding is_open_purchase
has_open_purchase user_id purchases =
    any (λ p. (p.user_id == user_id) && is_open_purchase p) purchases

-- `text.split(',')`; the part that is being read is kept in reverse.
reversed : Text → Text → Text
reversed [] acc = acc
reversed (c ∷ cs) acc = reversed cs (c ∷ acc)

split_from : Text → Text → List Text
unfolding reversed
split_from part [] = reversed part [] ∷ []
split_from part (c ∷ cs) =
    let ended = split_from [] cs in
    let longer = split_from (c ∷ part) cs in if c == 44 then reversed part [] ∷ ended else longer

any_text : Text → List Text → Bool
any_text t [] = false
any_text t (s ∷ rest) = same_text t s || any_text t rest

allowed_emails : Casing → List Text → List Text
allowed_emails casing [] = []
allowed_emails casing (e ∷ rest) =
    let others = allowed_emails casing rest in
    if is_empty (strip (some e)) then others else casing.lower (strip (some e)) ∷ others

eligible_as : Casing → Time → List Purchase → Eligibility → Offer → Buyer → Bool
unfolding split_from any_text allowed_emails
eligible_as casing now purchases first_purchase c b = not (has_open_purchase b.id purchases)
eligible_as casing now purchases new_students c b =
    leb now (b.date_joined + days c.new_student_days)
eligible_as casing now purchases specific_emails c b =
    any_text (casing.lower b.email) (allowed_emails casing (split_from [] c.eligible_emails))
eligible_as casing now purchases _ c b = true

is_for_everyone : Eligibility → Bool
is_for_everyone everyone = true
is_for_everyone _ = false

unfoldable pub is_eligible_for : Casing → Time → List Purchase → Offer → Option Buyer → Bool
unfolding eligible_as is_for_everyone
is_eligible_for casing now purchases c none = is_for_everyone c.eligibility
is_eligible_for casing now purchases c (some b) = eligible_as casing now purchases c.eligibility c b

capped : Option ℕ → ℕ → ℕ
capped none discount = discount
capped (some most) discount = min discount most

unfoldable pub discount_of : DiscountType → Offer → ℕ → ℕ
unfolding capped
discount_of fixed c amount = min (capped c.max_discount_amount c.discount_value) amount
discount_of percentage c amount =
    min (capped c.max_discount_amount (amount * c.discount_value / 10000)) amount
discount_of _ c amount = amount

unfoldable pub compute_discount : Offer → ℕ → ℕ
unfolding discount_of
compute_discount c amount = discount_of c.discount_type c amount
