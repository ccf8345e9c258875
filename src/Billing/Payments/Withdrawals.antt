-- ===== src/Billing/Payments/Withdrawals.antt =====
-- billing/payment_service.py: `reject`, `request_resubmission`, `cancel` and `expire` save one purchase
-- with a status that it can move to.
use hamromentorback.Base.{ℕ, ◌≡◌, refl, inl, inr, true, not, ◌||◌, Option, some, arith, Bool-cases}
use hamromentorback.Time.{Time}
use hamromentorback.Texts.{Text, is_empty, strip}
use hamromentorback.Billing.Orders.{
  unpaid, pending, resubmission_requested, rejected, expired, cancelled, Purchase, has_status,
  is_expired, Db, ok, find_purchase, save_purchase, reason_required, already_decided,
  not_awaiting_verification, not_cancellable,
}
use hamromentorback.Billing.Orders.Frames.{raise_if-eq-ok}
use hamromentorback.Billing.Orders.Moves.{
  Move, reject_proof, reject_stale, ask_again, lapse, cancel_order, cancel_again, Change, status_of,
}
use hamromentorback.Billing.Refunds.{Caller}
use hamromentorback.Billing.Payments.{
  save, record_event, reject, rejected_purchase, request_resubmission, expire, expire_row, cancel,
}
use hamromentorback.Billing.Payments.Saves.{got, Saved-Change, one_of, Move-from}

pub reject-Change :
    (now : Time) (caller : Caller) (id : ℕ) (reason : Option Text) (db : Db) {out : Db}
    → reject now caller id reason db ≡ ok out
    → Change db.purchases out.purchases × (out.coupons ≡ db.coupons)
unfolding reject rejected_purchase save record_event
reject-Change now caller id reason db {out} h =
    let (_, h1) = raise_if-eq-ok (is_empty (strip reason)) reason_required _ h in
    let (p, _, found, h2) = got id db _ h1 in
    let (guard, h3) =
      raise_if-eq-ok (not (has_status pending p || has_status resubmission_requested p))
        already_decided _ h2 in
    let move =
      Move-from pending resubmission_requested p rejected (one_of _ _ p guard) reject_proof
        reject_stale in
    let q = rejected_purchase now caller.actor (strip reason) p in
    let saved : out.purchases ≡ save_purchase q db.purchases = ground arith in
    (
      Saved-Change p db out found (q, refl, move, inl (refl, λ c. ground arith), saved),
      ground arith,
    )

pub resubmit-Change :
    (caller : Caller) (id : ℕ) (reason : Option Text) (db : Db) {out : Db}
    → request_resubmission caller id reason db ≡ ok out
    → Change db.purchases out.purchases × (out.coupons ≡ db.coupons)
unfolding request_resubmission save record_event
resubmit-Change caller id reason db {out} h =
    let (_, h1) = raise_if-eq-ok (is_empty (strip reason)) reason_required _ h in
    let (p, _, found, h2) = got id db _ h1 in
    let (guard, h3) = raise_if-eq-ok (not (has_status pending p)) not_awaiting_verification _ h2 in
    let move : Move p.status resubmission_requested =
      rw (status_of pending p (ground arith)) ask_again in
    let q = record p { status = resubmission_requested; admin_note = strip reason } in
    let saved : out.purchases ≡ save_purchase q db.purchases = ground arith in
    (
      Saved-Change p db out found (q, refl, move, inl (refl, λ c. ground arith), saved),
      ground arith,
    )

pub cancel-Change :
    (caller : Caller) (id : ℕ) (db : Db) {out : Db}
    → cancel caller id db ≡ ok out
    → Change db.purchases out.purchases × (out.coupons ≡ db.coupons)
unfolding cancel save record_event
cancel-Change caller id db {out} h =
    let (p, _, found, h1) = got id db _ h in
    let (guard, h2) =
      raise_if-eq-ok (not (has_status unpaid p || has_status resubmission_requested p))
        not_cancellable _ h1 in
    let move =
      Move-from unpaid resubmission_requested p cancelled (one_of _ _ p guard) cancel_order
        cancel_again in
    let q = record p { status = cancelled } in
    let saved : out.purchases ≡ save_purchase q db.purchases = ground arith in
    (
      Saved-Change p db out found (q, refl, move, inl (refl, λ c. ground arith), saved),
      ground arith,
    )

expire_row-Change :
    (p : Purchase) (db out : Db)
    → find_purchase p.id db.purchases ≡ some p
    → has_status unpaid p ≡ true
    → expire_row p db ≡ out
    → Change db.purchases out.purchases × (out.coupons ≡ db.coupons)
unfolding expire_row save record_event
expire_row-Change p db out found due h =
    let move : Move p.status expired = rw (status_of unpaid p due) lapse in
    let q = record p { status = expired } in
    let saved : out.purchases ≡ save_purchase q db.purchases = ground arith in
    (
      Saved-Change p db out found (q, refl, move, inl (refl, λ c. ground arith), saved),
      ground arith,
    )

pub expire-Change :
    (now : Time) (id : ℕ) (db : Db) {out : Db}
    → expire now id db ≡ ok out
    → Change db.purchases out.purchases × (out.coupons ≡ db.coupons)
unfolding expire
expire-Change now id db {out} h =
    let (p, _, found, h1) = got id db _ h in
    elim (Bool-cases (not (has_status unpaid p) || not (is_expired now p))) [
      | inl early ↦ let same : ok db ≡ ok out = rw early at h1 in (inl (ground arith), ground arith)
      | inr due ↦
          let same : ok (expire_row p db) ≡ ok out = rw due at h1 in
          expire_row-Change p db out found (ground arith) (cc same)
    ]
