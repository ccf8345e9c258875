-- ===== src/Billing/Orders/Moves.antt =====
-- billing/models.py and billing/payment_service.py: how the status of a purchase can move, and the
-- change that one operation makes to the table of purchases.
use hamromentorback.Base.{
  ℕ, ◌≡◌, refl, sym, ap, ◌∙◌, ◌⊎◌, inl, inr, true, false, some, List, [], ◌∷◌, ◌==◌, ◌≤◌, arith,
  any, find_first_sound, ==→eq, Bool-cases, if◌then◌else◌,
}
use hamromentorback.Billing.Orders.{
  PurchaseStatus, unpaid, pending, resubmission_requested, approved, rejected, expired, cancelled,
  refunded, Purchase, is_claimed, is_reference_of, find_purchase, save_purchase, has_status,
  status_tag,
}

pub data Move : PurchaseStatus → PurchaseStatus → Type 0 where
  submit_first : Move unpaid pending
  submit_again : Move resubmission_requested pending
  approve_proof : Move pending approved
  approve_free : Move unpaid approved
  reject_proof : Move pending rejected
  reject_stale : Move resubmission_requested rejected
  ask_again : Move pending resubmission_requested
  lapse : Move unpaid expired
  cancel_order : Move unpaid cancelled
  cancel_again : Move resubmission_requested cancelled
  pay_back : Move approved refunded

-- No operation makes an order unpaid.
pub paid_after : {s t : PurchaseStatus} → Move s t → 1 ≤ status_tag t
paid_after submit_first = omega arith
paid_after submit_again = omega arith
paid_after approve_proof = omega arith
paid_after approve_free = omega arith
paid_after reject_proof = omega arith
paid_after reject_stale = omega arith
paid_after ask_again = omega arith
paid_after lapse = omega arith
paid_after cancel_order = omega arith
paid_after cancel_again = omega arith
paid_after pay_back = omega arith

-- What a save does to the reference: it stays, and nobody claims it who did not or has never paid;
-- or no other purchase claims the new one.
abbrev pub Reference : Purchase → Purchase → List Purchase → Type 0
Reference p q l =
    ((q.payment_reference ≡ p.payment_reference)
      × (is_claimed q ≡ true → (is_claimed p ≡ true) ⊎ (p.status ≡ unpaid)))
    ⊎ (any (is_reference_of is_claimed p.id q.payment_reference) l ≡ false)

-- Nothing, or one purchase saved with a status that it can move to.
abbrev pub Change : List Purchase → List Purchase → Type 0
Change l l' =
    (l' ≡ l)
    ⊎ ((p : Purchase) × (q : Purchase) × (find_purchase p.id l ≡ some p)
        × (q.id ≡ p.id)
        × Move p.status q.status
        × Reference p q l
        × (l' ≡ save_purchase q l))

found_at :
    (k j : ℕ) (l : List Purchase) {p : Purchase}
    → k ≡ j
    → find_purchase k l ≡ some p
    → find_purchase j l ≡ some p
found_at k j l e h = rw (← e) h

pub found_key :
    (k : ℕ) (l : List Purchase) {p : Purchase}
    → find_purchase k l ≡ some p
    → find_purchase p.id l ≡ some p
found_key k l {p} h =
    found_at k p.id l (sym (==→eq p.id k (find_first_sound (λ r. r.id == k) l h))) h

-- The saved row where its key is asked for, else what stood there.
pub find-save :
    (k : ℕ) (q : Purchase) (l : List Purchase) {p : Purchase}
    → find_purchase k l ≡ some p
    → find_purchase k (save_purchase q l) ≡ some (if p.id == q.id then q else p)
find-save k q [] h = cc
find-save k q (r ∷ l) {p} h = elim (Bool-cases (r.id == k)) [
  | inl here ↦ ground arith
  | inr later ↦ let rest = find-save k q l (rw later at h) in ground arith
]

-- A tag names its status.
tag_inj : (s t : PurchaseStatus) → status_tag s ≡ status_tag t → s ≡ t
tag_inj s t h = ground arith

pub status_of : (s : PurchaseStatus) (p : Purchase) → has_status s p ≡ true → p.status ≡ s
status_of s p h = tag_inj p.status s (==→eq (status_tag p.status) (status_tag s) h)

moved : (p r q : Purchase) → p ≡ r → Move r.status q.status → Move p.status q.status
moved p r q same move = rw (ap (λ x. x.status) same) move

-- One operation takes the status of a purchase along one edge, or leaves the purchase as it is.
pub Change-moves :
    (k : ℕ) (l l' : List Purchase) {p : Purchase}
    → Change l l'
    → find_purchase k l ≡ some p
    → (q : Purchase) × (find_purchase k l' ≡ some q) × ((q ≡ p) ⊎ Move p.status q.status)
Change-moves k l l' {p} (inl same) h = (p, rw same h, inl refl)
Change-moves k l l' {p} (inr (r, q, found, id, move, _, saved)) h =
    let result = find-save k q l h in
    elim (Bool-cases (p.id == q.id)) [
      | inl here ↦
          let key : p.id ≡ r.id = ==→eq p.id q.id here ∙ id in
          let again : find_purchase p.id l ≡ some r = found_at r.id p.id l (sym key) found in
          let same : p ≡ r = cc (found_key k l h) in
          (q, rw saved (rw here at result), inr (moved p r q same move))
      | inr other ↦ (p, rw saved (rw other at result), inl refl)
    ]
