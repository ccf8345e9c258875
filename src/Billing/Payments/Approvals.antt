-- ===== src/Billing/Payments/Approvals.antt =====
-- billing/payment_service.py: what `activate` writes of the purchases and the coupons.
use hamromentorback.Base.{
  ℕ, ◌≡◌, refl, ◌⊎◌, inl, inr, Bool, true, not, ◌&&◌, ◌||◌, some, arith, any, Bool-cases,
}
use hamromentorback.Time.{Time}
use hamromentorback.Texts.{is_empty}
use hamromentorback.Billing.Orders.{
  unpaid, pending, approved, Purchase, has_status, Db, ok, find_purchase, save_purchase, is_claimed,
  is_reference_of, already_decided, reference_approved,
}
use hamromentorback.Billing.Orders.Frames.{>>=-eq-ok, raise_if-eq-ok}
use hamromentorback.Billing.Orders.Moves.{approve_proof, approve_free, Change, status_of}
use hamromentorback.Billing.Products.{activate_product}
use hamromentorback.Billing.Products.Frames.{activate_product-Keeps, maybe_reward-Keeps}
use hamromentorback.Billing.Refunds.{Caller}
use hamromentorback.Billing.Payments.{
  save, record_event, check_coupon, settle, redeem, approved_purchase, activate,
}
use hamromentorback.Billing.Payments.Saves.{got, Saved-Change, Move-from}

settle-tables :
    (now : Time) (caller : Caller) (reward : ℕ) (p : Purchase) (db : Db)
    → ((settle now caller reward p db).purchases
        ≡ save_purchase (approved_purchase now caller.actor p) db.purchases)
      × ((settle now caller reward p db).coupons ≡ (redeem p.coupon_id db).coupons)
unfolding settle save record_event redeem
settle-tables now caller reward p db =
    let decided = save (approved_purchase now caller.actor p) db in
    let kept = maybe_reward-Keeps reward p (redeem p.coupon_id decided) in ground arith

-- What a successful approval has checked and what it has written.
pub activate_effect :
    (now : Time) (caller : Caller) (reward id : ℕ) (allow_unpaid : Bool) (db : Db) {out : Db}
    → activate now caller reward id allow_unpaid db ≡ ok out
    → (p : Purchase) × (p.id ≡ id)
      × (find_purchase p.id db.purchases ≡ some p)
      × (has_status pending p || (allow_unpaid && has_status unpaid p) ≡ true)
      × (check_coupon p p.coupon_id db ≡ ok tt)
      × (out.purchases ≡ save_purchase (approved_purchase now caller.actor p) db.purchases)
      × (out.coupons ≡ (redeem p.coupon_id db).coupons)
unfolding activate redeem
activate_effect now caller reward id allow_unpaid db {out} h =
    let (p, key, found, h1) = got id db _ h in
    let (guard, h2) =
      raise_if-eq-ok (not (has_status pending p || (allow_unpaid && has_status unpaid p)))
        already_decided _ h1 in
    let (_, h3) =
      raise_if-eq-ok
        (not (is_empty p.payment_reference)
          && any (is_reference_of (has_status approved) p.id p.payment_reference) db.purchases)
        reference_approved _ h2 in
    let (_, checked, h4) = >>=-eq-ok (check_coupon p p.coupon_id db) _ h3 in
    let (active, granted, h5) = >>=-eq-ok (activate_product now p db) _ h4 in
    let kept = activate_product-Keeps now p db granted in
    let tables = settle-tables now caller reward p active in
    let result : ok (settle now caller reward p active) ≡ ok out = h5 in
    (p, key, found, ground arith, checked, ground arith, ground arith)

pub activate-Change :
    (now : Time) (caller : Caller) (reward id : ℕ) (allow_unpaid : Bool) (db : Db) {out : Db}
    → activate now caller reward id allow_unpaid db ≡ ok out
    → Change db.purchases out.purchases
unfolding approved_purchase
activate-Change now caller reward id allow_unpaid db {out} h =
    let (p, _, found, guard, _, saved, _) =
      activate_effect now caller reward id allow_unpaid db h in
    let from : (p.status ≡ pending) ⊎ (p.status ≡ unpaid) =
      elim (Bool-cases (has_status pending p)) [
        | inl proof ↦ inl (status_of pending p proof)
        | inr free ↦ inr (status_of unpaid p (ground arith))
      ] in
    let claimed : (is_claimed p ≡ true) ⊎ (p.status ≡ unpaid) = elim from [
      | inl e ↦ inl (rw e refl)
      | inr e ↦ inr e
    ] in
    let move = Move-from pending unpaid p approved from approve_proof approve_free in
    Saved-Change p db out found
      (approved_purchase now caller.actor p, refl, move, inl (refl, λ c. claimed), saved)
