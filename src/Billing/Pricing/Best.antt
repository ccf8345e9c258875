-- ===== src/Billing/Pricing/Best.antt =====
-- billing/views.py, `find_auto_apply_coupon`: the loop keeps the best coupon.
use hamromentorback.Base.{
  ℕ, ◌≤◌, ◌≡◌, refl, Bool, true, false, ◌&&◌, not, Option, none, some, List, [], ◌∷◌, arith, inl,
  inr, Bool-cases, ltb, select, All, if◌then◌else◌,
}
use hamromentorback.Texts.{Text}
use hamromentorback.Billing.Pricing.{
  Offer, Buyer, Cart, Shop, compute_discount, coupon_usable, best_from, find_auto_apply_coupon,
}

-- What a coupon takes off.
abbrev pub off : ℕ → Option Offer → ℕ
off amount none = 0
off amount (some c) = compute_discount c amount

-- A usable coupon takes off at most the best one's.
abbrev IsBeaten : (Offer → Bool) → ℕ → ℕ → Offer → Type 0
IsBeaten usable amount best c = usable c ≡ true → compute_discount c amount ≤ best

-- The coupon that is found is usable.
abbrev pub IsUsable : (Offer → Bool) → Option Offer → Type 0
IsUsable usable none = Unit
IsUsable usable (some c) = usable c ≡ true

not_below : (a b : ℕ) → ltb a b ≡ false → b ≤ a
not_below a b h = ground arith

-- What the loop has found in these coupons, from a discount on.
abbrev FoundBest : (Offer → Bool) → ℕ → List Offer → ℕ → Option Offer → Type 0
FoundBest usable amount l d out =
    (d ≤ off amount out) × IsUsable usable out × All (IsBeaten usable amount (off amount out)) l

if_either :
    (P : Option Offer → Type 0) (b : Bool) (x y : Option Offer)
    → (b ≡ true → P x)
    → (b ≡ false → P y)
    → P (if b then x else y)
if_either P true x y f g = f refl
if_either P false x y f g = g refl

no_claim : (b : Bool) (m n : ℕ) → not b ≡ true → b ≡ true → m ≤ n
no_claim b m n unfit fits = ground arith

is_usable_of : (b : Bool) → not b ≡ false → b ≡ true
is_usable_of b h = ground arith

le_lt_trans : (a b c : ℕ) → ltb a b ≡ true → b ≤ c → a ≤ c
le_lt_trans a b c h le = ground arith

best_from-FoundBest :
    (usable : Offer → Bool) (amount : ℕ) (l : List Offer) (best : Option Offer) (d : ℕ)
    → d ≡ off amount best
    → IsUsable usable best
    → FoundBest usable amount l d (best_from usable amount l best d)
unfolding best_from
best_from-FoundBest usable amount [] best d e u = (omega (arith, e), u, tt)
best_from-FoundBest usable amount (c ∷ rest) best d e u =
    let (low, good, all) = best_from-FoundBest usable amount rest best d e u in
    let found = FoundBest usable amount (c ∷ rest) d in
    let skipped = best_from usable amount rest best d in
    let taken = best_from usable amount rest (some c) (compute_discount c amount) in
    if_either found (not (usable c)) skipped
      (if ltb d (compute_discount c amount) then taken else skipped)
      (λ unfit. (
        low,
        good,
        (no_claim (usable c) (compute_discount c amount) (off amount skipped) unfit, all),
      ))
      (λ fit.
        if_either found (ltb d (compute_discount c amount)) taken skipped
          (λ more.
            let (low', good', all') =
              best_from-FoundBest usable amount rest (some c) (compute_discount c amount) refl
                (is_usable_of (usable c) fit) in
            (
              le_lt_trans d (compute_discount c amount) (off amount taken) more low',
              good',
              ((λ _. low'), all'),
            ))
          (λ less.
            let bound = not_below d (compute_discount c amount) less in
            (low, good, ((λ _. omega (arith, bound, low)), all))))

all_of_select :
    (P : Offer → Type 0) (p : Offer → Bool) (l : List Offer)
    → All P (select p l)
    → All (λ c. p c ≡ true → P c) l
all_of_select P p [] a = tt
all_of_select P p (c ∷ l) a = elim (Bool-cases (p c)) [
  | inl kept ↦
      let (here, rest) : P c × All P (select p l) = rw kept at a in
      ((λ _. here), all_of_select P p l rest)
  | inr dropped ↦ ((λ h. cc), all_of_select P p l (rw dropped at a))
]

-- The coupon that applies by itself is usable, and no active coupon of the shop that applies by
-- itself and is usable for the student, the cart and the price takes off more; where there is none,
-- each of them takes off nothing.
pub find_auto_apply_coupon-best :
    (shop : Shop) (cart : Cart) (product_type : Text) (amount : ℕ) (user : Option Buyer)
    → let usable = coupon_usable shop cart product_type amount user in
      let best = find_auto_apply_coupon shop cart product_type amount user in
      IsUsable usable best
      × All
          (λ c.
            (c.auto_apply && c.is_active) ≡ true
            → usable c ≡ true
            → compute_discount c amount ≤ off amount best)
          shop.offers
unfolding find_auto_apply_coupon
find_auto_apply_coupon-best shop cart product_type amount user =
    let usable = coupon_usable shop cart product_type amount user in
    let offers = select (λ c. c.auto_apply && c.is_active) shop.offers in
    let (_, good, all) = best_from-FoundBest usable amount offers none 0 refl tt in
    (
      good,
      all_of_select (IsBeaten usable amount (off amount (best_from usable amount offers none 0)))
          (λ c. c.auto_apply && c.is_active) shop.offers all,
    )
