-- ===== src/Billing/Refunds/Frames.antt =====
-- A reversal leaves the purchases and the coupons alone.
use hamromentorback.Base.{
  ℕ, refl, true, not, eq→==, Option, some, Bool, List, [], ◌∷◌, arith, ◌≡◌, is_some, if◌then◌else◌,
  Bool-cases, inl, inr,
}
use hamromentorback.Time.{Time}
use hamromentorback.Texts.{Text, is_empty, strip}
use hamromentorback.Billing.Orders.{
  PurchaseEntitlementGrant, Purchase, Db, ok, find_purchase, save_purchase, has_status, refunded,
  approved, not_approved, or_raise, does_not_exist, reason_required,
}
use hamromentorback.Billing.Orders.Frames.{
  Keeps, Keeps-refl, Keeps-trans, >>=-eq-ok, raise_if-eq-ok, or_raise-eq-ok,
}
use hamromentorback.Billing.Orders.Moves.{Change, find-save, Move, pay_back, found_key, status_of}
use hamromentorback.Billing.Refunds.{
  reverse_grant, refund_grant, refund_grants, refund_approved, settle_refund, grants_of,
  refunded_purchase, refund, Caller,
}

reverse_grant-Keeps :
    (now : Time) (g : PurchaseEntitlementGrant) (loaded db : Db) {out : Bool × Db}
    → reverse_grant now g loaded db ≡ ok out
    → Keeps db out.1
unfolding reverse_grant
reverse_grant-Keeps now g loaded db h = ground arith

refund_grant-Keeps :
    (now : Time) (loaded : Db) (g : PurchaseEntitlementGrant) (state out : ℕ × Db)
    → refund_grant now loaded g state ≡ ok out
    → Keeps state.1 out.1
unfolding refund_grant
refund_grant-Keeps now loaded g state out h =
    let (mid, reversed, rest) = >>=-eq-ok (reverse_grant now g loaded state.1) _ h in
    let kept = reverse_grant-Keeps now g loaded state.1 reversed in ground arith

step-Keeps :
    (now : Time) (loaded : Db) (g : PurchaseEntitlementGrant) (state out : ℕ × Db)
    → (if is_some g.revoked_at then ok state else refund_grant now loaded g state) ≡ ok out
    → Keeps state.1 out.1
step-Keeps now loaded g state out h = elim (Bool-cases (is_some g.revoked_at)) [
  | inl t ↦ let same : state ≡ out = cc (rw t at h) in rw (← same) (Keeps-refl state.1)
  | inr f ↦ refund_grant-Keeps now loaded g state out (rw f at h)
]

refund_grants-Keeps :
    (now : Time) (loaded : Db) (gs : List PurchaseEntitlementGrant) (state out : ℕ × Db)
    → refund_grants now loaded gs state ≡ ok out
    → Keeps state.1 out.1
unfolding refund_grants
refund_grants-Keeps now loaded [] state out h = ground arith
refund_grants-Keeps now loaded (g ∷ gs) state out h =
    let (mid, one, rest) = >>=-eq-ok _ (refund_grants now loaded gs) h in
    let kept = refund_grants-Keeps now loaded gs mid out rest in
    let first : Keeps state.1 mid.1 = step-Keeps now loaded g state mid one in
    Keeps-trans state.1 mid.1 out.1 first kept

refund_approved-Change :
    (now : Time) (caller : Caller) (reason : Text) (p : Purchase) (db out : Db)
    → find_purchase p.id db.purchases ≡ some p
    → refund_approved now caller reason p db ≡ ok out
    → Change db.purchases out.purchases × (out.coupons ≡ db.coupons)
unfolding refund_approved settle_refund refunded_purchase
refund_approved-Change now caller reason p db out found h =
    let (paid, h1) = raise_if-eq-ok (not (has_status approved p)) not_approved _ h in
    let (state, reversed, h2) = >>=-eq-ok (refund_grants now db (grants_of p db) (0, db)) _ h1 in
    let kept = refund_grants-Keeps now db (grants_of p db) (0, db) state reversed in
    let result : ok (settle_refund now caller reason p state) ≡ ok out = h2 in
    let move : Move p.status refunded = rw (status_of approved p (ground arith)) pay_back in
    let q = refunded_purchase now caller.actor reason p in
    let saved : out.purchases ≡ save_purchase q db.purchases = ground arith in
    (inr (p, q, found, refl, move, inl (refl, λ c. ground arith), saved), ground arith)

pub refund-Change :
    (now : Time) (caller : Caller) (id : ℕ) (reason : Option Text) (db : Db) {out : Db}
    → refund now caller id reason db ≡ ok out
    → Change db.purchases out.purchases × (out.coupons ≡ db.coupons)
unfolding refund
refund-Change now caller id reason db {out} h =
    let (_, h1) = raise_if-eq-ok (is_empty (strip reason)) reason_required _ h in
    let (p, get, h2) = >>=-eq-ok (or_raise does_not_exist (find_purchase id db.purchases)) _ h1 in
    let found = or_raise-eq-ok does_not_exist (find_purchase id db.purchases) get in
    elim (Bool-cases (has_status refunded p)) [
      | inl done ↦ let same : ok db ≡ ok out = rw done at h2 in ground arith
      | inr due ↦
          refund_approved-Change now caller (strip reason) p db out
            (found_key id db.purchases found) (rw due at h2)
    ]

refund_approved_saves :
    (now : Time) (caller : Caller) (reason : Text) (p : Purchase) (db out : Db)
    → refund_approved now caller reason p db ≡ ok out
    → out.purchases ≡ save_purchase (refunded_purchase now caller.actor reason p) db.purchases
unfolding refund_approved settle_refund
refund_approved_saves now caller reason p db out h =
    let (paid, h1) = raise_if-eq-ok (not (has_status approved p)) not_approved _ h in
    let (state, reversed, h2) = >>=-eq-ok (refund_grants now db (grants_of p db) (0, db)) _ h1 in
    let kept = refund_grants-Keeps now db (grants_of p db) (0, db) state reversed in
    let result : ok (settle_refund now caller reason p state) ≡ ok out = h2 in ground arith

refunded-has_status :
    (now : Time) (actor : Option ℕ) (reason : Text) (p : Purchase)
    → has_status refunded (refunded_purchase now actor reason p) ≡ true
unfolding refunded_purchase
refunded-has_status now actor reason p = refl

refund_found :
    (now : Time) (actor : Option ℕ) (reason : Text) (p : Purchase) (id : ℕ) (l l' : List Purchase)
    → find_purchase id l ≡ some p
    → l' ≡ save_purchase (refunded_purchase now actor reason p) l
    → find_purchase id l' ≡ some (refunded_purchase now actor reason p)
unfolding refunded_purchase
refund_found now actor reason p id l l' found saved =
    let q = refunded_purchase now actor reason p in
    rw saved (rw (eq→== p.id) at (find-save id q l found))

-- After a successful refund the purchase is refunded.
pub refund-refunded :
    (now : Time) (caller : Caller) (id : ℕ) (reason : Option Text) (db : Db) {out : Db}
    → refund now caller id reason db ≡ ok out
    → (q : Purchase) × (find_purchase id out.purchases ≡ some q) × (has_status refunded q ≡ true)
unfolding refund
refund-refunded now caller id reason db {out} h =
    let (_, h1) = raise_if-eq-ok (is_empty (strip reason)) reason_required _ h in
    let (p, get, h2) = >>=-eq-ok (or_raise does_not_exist (find_purchase id db.purchases)) _ h1 in
    let found = or_raise-eq-ok does_not_exist (find_purchase id db.purchases) get in
    elim (Bool-cases (has_status refunded p)) [
      | inl before ↦
          let same : ok db ≡ ok out = rw before at h2 in
          let e : db ≡ out = cc same in (p, rw (← e) found, before)
      | inr due ↦
          let saved = refund_approved_saves now caller (strip reason) p db out (rw due at h2) in
          (
            refunded_purchase now caller.actor (strip reason) p,
            refund_found now caller.actor (strip reason) p id db.purchases out.purchases found
                saved,
            refunded-has_status now caller.actor (strip reason) p,
          )
    ]
