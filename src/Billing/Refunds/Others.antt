-- ===== src/Billing/Refunds/Others.antt =====
-- billing/payment_service.py, `refund`: the ledger rows of other purchases.
use hamromentorback.Base.{
  ℕ, ◌≡◌, ◌≢◌, refl, sym, ◌∙◌, ap, inl, inr, Bool, false, not, Option, some, List, [], ◌∷◌, ◌==◌,
  arith, All, Unique, select, find_first, update_by, is_some, if◌then◌else◌, Bool-cases, ==→eq,
  neq→==, eq→==, find-update_other, find_first_sound,
}
use hamromentorback.Time.{Time}
use hamromentorback.Texts.{Text, is_empty, strip}
use hamromentorback.Billing.Orders.{
  PurchaseEntitlementGrant, Purchase, Db, ok, or_raise, does_not_exist, reason_required,
  not_approved, approved, refunded, has_status, find_purchase,
}
use hamromentorback.Billing.Orders.Frames.{>>=-eq-ok, raise_if-eq-ok, or_raise-eq-ok}
use hamromentorback.Billing.Refunds.{
  Caller, refund, refund_approved, refund_grants, refund_grant, mark_revoked, reverse_grant,
  settle_refund, grants_of,
}

abbrev find_grant : ℕ → List PurchaseEntitlementGrant → Option PurchaseEntitlementGrant
find_grant k l = find_first (λ g. g.id == k) l

reverse_grant-grants :
    (now : Time) (g : PurchaseEntitlementGrant) (loaded db : Db) {out : Bool × Db}
    → reverse_grant now g loaded db ≡ ok out
    → out.1.grants ≡ db.grants
unfolding reverse_grant
reverse_grant-grants now g loaded db h = ground arith

other_key :
    (j k : ℕ) (f : PurchaseEntitlementGrant → PurchaseEntitlementGrant)
    (l : List PurchaseEntitlementGrant)
    → ((s : PurchaseEntitlementGrant) → (f s).id ≡ s.id)
    → j ≢ k
    → find_grant k (update_by (λ g. g.id == j) f l) ≡ find_grant k l
other_key j k f l same ne =
    find-update_other (λ g. g.id == k) (λ g. g.id == j) f l
      (λ s hit.
        let e : s.id ≡ j = ==→eq s.id j hit in
        (rw e (neq→== j k ne), rw (same s, e) (neq→== j k ne)))

refund_grant-other :
    (now : Time) (loaded : Db) (g : PurchaseEntitlementGrant) (state out : ℕ × Db) (k : ℕ)
    → g.id ≢ k
    → (if is_some g.revoked_at then ok state else refund_grant now loaded g state) ≡ ok out
    → find_grant k out.1.grants ≡ find_grant k state.1.grants
unfolding refund_grant mark_revoked
refund_grant-other now loaded g state out k ne h = elim (Bool-cases (is_some g.revoked_at)) [
  | inl before ↦ let same : ok state ≡ ok out = rw before at h in ground arith
  | inr due ↦
      let (mid, reversed, rest) = >>=-eq-ok (reverse_grant now g loaded state.1) _ (rw due at h) in
      let kept = reverse_grant-grants now g loaded state.1 reversed in
      let moved =
        other_key g.id k (λ r. record r { revoked_at = some now }) mid.1.grants (λ s. refl) ne in
      ground arith
]

refund_grants-other :
    (now : Time) (loaded : Db) (gs : List PurchaseEntitlementGrant) (state out : ℕ × Db) (k : ℕ)
    → All (λ g. g.id ≢ k) gs
    → refund_grants now loaded gs state ≡ ok out
    → find_grant k out.1.grants ≡ find_grant k state.1.grants
unfolding refund_grants
refund_grants-other now loaded [] state out k all h = ground arith
refund_grants-other now loaded (g ∷ gs) state out k all h =
    let (mid, one, rest) = >>=-eq-ok _ (refund_grants now loaded gs) h in
    refund_grants-other now loaded gs mid out k all.1 rest
    ∙ refund_grant-other now loaded g state mid k all.0 one

All-select :
    (k pid : ℕ) (l : List PurchaseEntitlementGrant)
    → All (λ g. g.id ≢ k) l
    → All (λ g. g.id ≢ k) (select (λ g. g.purchase_id == pid) l)
All-select k pid [] all = tt
All-select k pid (h ∷ l) all =
    let rest = All-select k pid l all.1 in
    elim (Bool-cases (h.purchase_id == pid)) [
      | inl mine ↦ rw mine (all.0, rest)
      | inr theirs ↦ rw theirs rest
    ]

not_here : (h : PurchaseEntitlementGrant) (k : ℕ) → (h.id == k) ≡ false → h.id ≢ k
not_here h k miss e = cc (rw (e, eq→== k) at miss)

-- The ledger row with a key of another purchase is not among the rows of this one.
not_selected :
    (k pid : ℕ) (l : List PurchaseEntitlementGrant) {g : PurchaseEntitlementGrant}
    → Unique (λ r. r.id) l
    → find_grant k l ≡ some g
    → g.purchase_id ≢ pid
    → All (λ r. r.id ≢ k) (select (λ r. r.purchase_id == pid) l)
not_selected k pid [] u found ne = tt
not_selected k pid (h ∷ l) {g} u found ne = elim (Bool-cases (h.id == k)) [
  | inl here ↦
      let same : h ≡ g = cc (rw here at found) in
      let key : h.id ≡ k = ==→eq h.id k here in
      let theirs : (h.purchase_id == pid) ≡ false =
        neq→== h.purchase_id pid (λ e. ne (sym (ap (λ r. r.purchase_id) same) ∙ e)) in
      rw theirs (All-select k pid l (rw key at u.0))
  | inr later ↦
      let rest = not_selected k pid l u.1 (rw later at found) ne in
      let other : h.id ≢ k = not_here h k later in
      elim (Bool-cases (h.purchase_id == pid)) [
        | inl mine ↦ rw mine (other, rest)
        | inr theirs ↦ rw theirs rest
      ]
]

refund_approved-other :
    (now : Time) (caller : Caller) (reason : Text) (p : Purchase) (db out : Db) (k : ℕ)
    {g : PurchaseEntitlementGrant}
    → Unique (λ r. r.id) db.grants
    → find_grant k db.grants ≡ some g
    → g.purchase_id ≢ p.id
    → refund_approved now caller reason p db ≡ ok out
    → find_grant k out.grants ≡ some g
unfolding refund_approved settle_refund
refund_approved-other now caller reason p db out k u found ne h =
    let (paid, h1) = raise_if-eq-ok (not (has_status approved p)) not_approved _ h in
    let (state, reversed, h2) = >>=-eq-ok (refund_grants now db (grants_of p db) (0, db)) _ h1 in
    let kept =
      refund_grants-other now db (grants_of p db) (0, db) state k
        (not_selected k p.id db.grants u found ne) reversed in
    let result : ok (settle_refund now caller reason p state) ≡ ok out = h2 in
    let tables : out.grants ≡ state.1.grants = ground arith in rw tables (kept ∙ found)

-- Where ledger rows have different keys, refunding a purchase leaves the ledger row of every other
-- purchase as it was: it is not marked as reversed, whatever access records the two share.
pub refund_keeps_others :
    (now : Time) (caller : Caller) (id : ℕ) (reason : Option Text) (db : Db) {out : Db} (k : ℕ)
    {g : PurchaseEntitlementGrant}
    → Unique (λ r. r.id) db.grants
    → find_first (λ r. r.id == k) db.grants ≡ some g
    → g.purchase_id ≢ id
    → refund now caller id reason db ≡ ok out
    → find_first (λ r. r.id == k) out.grants ≡ some g
unfolding refund
refund_keeps_others now caller id reason db {out} k u found ne h =
    let (_, h1) = raise_if-eq-ok (is_empty (strip reason)) reason_required _ h in
    let (p, get, h2) = >>=-eq-ok (or_raise does_not_exist (find_purchase id db.purchases)) _ h1 in
    let here = or_raise-eq-ok does_not_exist (find_purchase id db.purchases) get in
    let key : p.id ≡ id = ==→eq p.id id (find_first_sound (λ r. r.id == id) db.purchases here) in
    elim (Bool-cases (has_status refunded p)) [
      | inl before ↦
          let same : ok db ≡ ok out = rw before at h2 in
          let grants : out.grants ≡ db.grants = ground arith in rw grants found
      | inr due ↦
          refund_approved-other now caller (strip reason) p db out k u found (λ e. ne (e ∙ key))
            (rw due at h2)
    ]
