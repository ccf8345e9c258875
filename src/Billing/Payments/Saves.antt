-- ===== src/Billing/Payments/Saves.antt =====
-- billing/payment_service.py: a purchase that an operation reads and saves.
use hamromentorback.Base.{
  ℕ, ◌≡◌, ◌⊎◌, inl, inr, false, not, ◌||◌, some, ◌==◌, arith, Bool-cases, ==→eq, find_first_sound,
}
use hamromentorback.Billing.Orders.{
  PurchaseStatus, Purchase, has_status, Db, Result, ok, ◌>>=◌, or_raise, find_purchase,
  save_purchase, does_not_exist,
}
use hamromentorback.Billing.Orders.Frames.{>>=-eq-ok, or_raise-eq-ok}
use hamromentorback.Billing.Orders.Moves.{Move, Reference, Change, found_key, status_of}

-- A purchase that was found, and what is left of the operation.
pub got :
    (id : ℕ) (db : Db) (f : Purchase → Result Db) {out : Db}
    → (or_raise does_not_exist (find_purchase id db.purchases) >>= f) ≡ ok out
    → (p : Purchase) × (p.id ≡ id) × (find_purchase p.id db.purchases ≡ some p) × (f p ≡ ok out)
got id db f h =
    let (p, get, rest) = >>=-eq-ok (or_raise does_not_exist (find_purchase id db.purchases)) f h in
    let found = or_raise-eq-ok does_not_exist (find_purchase id db.purchases) get in
    (
      p,
      ==→eq p.id id (find_first_sound (λ r. r.id == id) db.purchases found),
      found_key id db.purchases found,
      rest,
    )

-- A row that is saved with a status that it can move to.
abbrev pub Saved : Purchase → Db → Db → Type 0
Saved p db out =
    (q : Purchase) × (q.id ≡ p.id)
    × Move p.status q.status
    × Reference p q db.purchases
    × (out.purchases ≡ save_purchase q db.purchases)

pub Saved-Change :
    (p : Purchase) (db out : Db)
    → find_purchase p.id db.purchases ≡ some p
    → Saved p db out
    → Change db.purchases out.purchases
Saved-Change p db out found (q, id, move, ref, saved) = inr (p, q, found, id, move, ref, saved)

-- One of two statuses, where a guard passed.
pub one_of :
    (s t : PurchaseStatus) (p : Purchase)
    → not (has_status s p || has_status t p) ≡ false
    → (p.status ≡ s) ⊎ (p.status ≡ t)
one_of s t p h = elim (Bool-cases (has_status s p)) [
  | inl first ↦ inl (status_of s p first)
  | inr other ↦ inr (status_of t p (ground arith))
]

pub Move-from :
    (s t : PurchaseStatus) (p : Purchase) (to : PurchaseStatus)
    → (p.status ≡ s) ⊎ (p.status ≡ t)
    → Move s to
    → Move t to
    → Move p.status to
Move-from s t p to (inl e) a b = rw e a
Move-from s t p to (inr e) a b = rw e b
