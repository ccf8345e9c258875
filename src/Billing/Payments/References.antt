-- ===== src/Billing/Payments/References.antt =====
-- billing/payment_service.py, the payment reference: one transaction of a student's bank backs one
-- purchase.
use hamromentorback.Base.{ℕ, ◌≡◌, true, false, some, List}
use hamromentorback.Texts.{is_empty}
use hamromentorback.Billing.Orders.{unpaid, Purchase, find_purchase, is_claimed}

-- Purchases that are pending or approved with the same reference are the same purchase, and an
-- order that nobody has paid has no reference.
abbrev pub ReferencesUnique : List Purchase → Type 0
ReferencesUnique l =
    ((i j : ℕ) (p q : Purchase)
      → find_purchase i l ≡ some p
      → find_purchase j l ≡ some q
      → is_claimed p ≡ true
      → is_claimed q ≡ true
      → is_empty p.payment_reference ≡ false
      → p.payment_reference ≡ q.payment_reference
      → p.id ≡ q.id)
    × ((i : ℕ) (p : Purchase)
        → find_purchase i l ≡ some p
        → p.status ≡ unpaid
        → is_empty p.payment_reference ≡ true)
