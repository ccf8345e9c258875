-- ===== src/Billing/Payments/Submissions.antt =====
-- billing/payment_service.py: `submit` saves one purchase as pending.
use hamromentorback.Base.{ℕ, ◌≡◌, refl, ◌⊎◌, inr, not, ◌&&◌, ◌||◌, some, arith, any}
use hamromentorback.Time.{Time}
use hamromentorback.Texts.{Text, is_empty, strip}
use hamromentorback.Billing.Orders.{
  unpaid, pending, resubmission_requested, Purchase, has_status, is_expired, Db, ok, or_raise,
  find_purchase, save_purchase, is_claimed, is_reference_of, not_awaiting_submission,
  window_expired, reference_required, reference_used, invalid_screenshot,
}
use hamromentorback.Billing.Orders.Frames.{>>=-eq-ok, raise_if-eq-ok}
use hamromentorback.Billing.Orders.Moves.{submit_first, submit_again, Change}
use hamromentorback.Billing.Refunds.{Caller}
use hamromentorback.Billing.Payments.{
  Proof, submit, submit_reference, submitted, save, record_event,
}
use hamromentorback.Billing.Payments.Saves.{got, Saved-Change, one_of, Move-from}

submit_reference-Change :
    (caller : Caller) (proof : Proof) (reference : Text) (p : Purchase) (db : Db) {out : Db}
    → find_purchase p.id db.purchases ≡ some p
    → (p.status ≡ unpaid) ⊎ (p.status ≡ resubmission_requested)
    → submit_reference caller proof reference p db ≡ ok out
    → Change db.purchases out.purchases × (out.coupons ≡ db.coupons)
unfolding submit_reference submitted save record_event
submit_reference-Change caller proof reference p db {out} found status h =
    let (_, h1) = raise_if-eq-ok (is_empty reference) reference_required _ h in
    let (free, h2) =
      raise_if-eq-ok (any (is_reference_of is_claimed p.id reference) db.purchases) reference_used _
        h1 in
    let (key, stored, h3) = >>=-eq-ok (or_raise invalid_screenshot proof.screenshot) _ h2 in
    let move = Move-from unpaid resubmission_requested p pending status submit_first submit_again in
    let q = submitted proof.payment_method reference key p in
    let saved : out.purchases ≡ save_purchase q db.purchases = ground arith in
    (Saved-Change p db out found (q, refl, move, inr free, saved), ground arith)

pub submit-Change :
    (now : Time) (caller : Caller) (id : ℕ) (proof : Proof) (db : Db) {out : Db}
    → submit now caller id proof db ≡ ok out
    → Change db.purchases out.purchases × (out.coupons ≡ db.coupons)
unfolding submit
submit-Change now caller id proof db h =
    let (p, _, found, h1) = got id db _ h in
    let (guard, h2) =
      raise_if-eq-ok (not (has_status unpaid p || has_status resubmission_requested p))
        not_awaiting_submission _ h1 in
    let (_, h3) = raise_if-eq-ok (has_status unpaid p && is_expired now p) window_expired _ h2 in
    submit_reference-Change caller proof (strip proof.payment_reference) p db found
      (one_of _ _ p guard) h3
