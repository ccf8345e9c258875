-- ===== src/Billing/Activation/Renewal.antt =====
-- billing/payment_service.py, `_extend_or_create_subscription`: what a renewal does to the row that
-- it finds.
use hamromentorback.Base.{
  ℕ, ◌+◌, max, ◌≢◌, ◌≡◌, refl, sym, ap, Option, none, some, [], ◌∷◌, ◌++◌, false, ◌==◌, arith,
  Unique, find_first, update_by, find-own_key, ◌∙◌, find-update_found, eq→==,
}
use mathlib.Core.Option.{some_inj}
use hamromentorback.Time.{Time}
use hamromentorback.Billing.Models.{Subscription}
use hamromentorback.Billing.Orders.{Db, PurchaseEntitlementGrant, to_subscription}
use hamromentorback.Billing.Activation.{
  Terms, find_extendable, is_extendable, extend_or_create_subscription, save_or_create, extended,
  start_from, expiry_after, record_grant, ensure_enrollment,
}

-- The end of a renewal: the duration runs from the old end where that is in the future, else from
-- now; an unlimited row counts as one that ends now.
abbrev pub renewed_until : Time → Option Time → ℕ → Time
renewed_until now none duration = now + duration
renewed_until now (some e) duration = max now e + duration

renewed_expiry :
    (now : Time) (sub : Subscription) (duration : ℕ)
    → duration ≢ 0
    → expiry_after (start_from now (some sub)) (some duration)
      ≡ some (renewed_until now sub.expires_at duration)
unfolding expiry_after start_from
renewed_expiry now sub duration h = ground arith

subscriptions_after :
    (now : Time) (t : Terms) (p : Option ℕ) (db : Db) {sub : Subscription}
    → find_extendable now t db.subscriptions ≡ some sub
    → (extend_or_create_subscription now t p db).subscriptions
      ≡ update_by
          (λ r. r.id == sub.id)
          (λ _.
            extended
              (expiry_after (start_from now (some sub)) t.duration)
              t.plan_id
              t.mock_test_quota
              sub)
          db.subscriptions
unfolding extend_or_create_subscription save_or_create record_grant ensure_enrollment
subscriptions_after now t p db h = ground arith

extended_expiry :
    (until : Option Time) (plan quota : Option ℕ) (sub : Subscription)
    → (extended until plan quota sub).expires_at ≡ until
unfolding extended
extended_expiry until plan quota sub = refl

extended_start :
    (until : Option Time) (plan quota : Option ℕ) (sub : Subscription)
    → (extended until plan quota sub).starts_at ≡ sub.starts_at
unfolding extended
extended_start until plan quota sub = refl

extended_id :
    (until : Option Time) (plan quota : Option ℕ) (sub : Subscription)
    → (extended until plan quota sub).id ≡ sub.id
unfolding extended
extended_id until plan quota sub = refl

-- Where the query of a renewal finds a row and the duration is not zero, the row with its key runs
-- afterwards until the duration after the later of its old end and now. A row without an end, which
-- is access for life, gets one: it then runs for the duration from now.
pub renewal_end :
    (now : Time) (t : Terms) (p : Option ℕ) (db : Db) (duration : ℕ) {sub : Subscription}
    → Unique (λ r. r.id) db.subscriptions
    → find_extendable now t db.subscriptions ≡ some sub
    → t.duration ≡ some duration
    → duration ≢ 0
    → (row : Subscription) × (find_first
          (λ r. r.id == sub.id)
          (extend_or_create_subscription now t p db).subscriptions
        ≡ some row)
      × (row.expires_at ≡ some (renewed_until now sub.expires_at duration))
renewal_end now t p db duration {sub} unique found d positive =
    let until = expiry_after (start_from now (some sub)) t.duration in
    let row = extended until t.plan_id t.mock_test_quota sub in
    let end : until ≡ some (renewed_until now sub.expires_at duration) =
      rw d (renewed_expiry now sub duration positive) in
    let own : find_first (λ r. r.id == sub.id) db.subscriptions ≡ some sub =
      find-own_key (is_extendable now t.user_id t.course_id t.product_type t.is_scholarship)
        (λ r. r.id) db.subscriptions unique found in
    (
      row,
      rw (subscriptions_after now t p db found) (
          find-update_found (λ r. r.id == sub.id) (λ r. r.id) (λ _. row) db.subscriptions unique own
            (rw (extended_id until t.plan_id t.mock_test_quota sub) (eq→== sub.id))),
      extended_expiry until t.plan_id t.mock_test_quota sub ∙ end,
    )

-- A grant of a purchase that has extended a subscription from one end to another.
pub record IsExtension (g : PurchaseEntitlementGrant) (purchase id : ℕ) (previous : Option Time)
    (until : Time) : Type 0 where
  pub of_purchase : g.purchase_id ≡ purchase
  pub of_row : g.target ≡ to_subscription id
  pub not_created : g.was_created ≡ false
  pub from : g.previous_expires_at ≡ previous
  pub to : g.granted_expires_at ≡ some until
  pub live : g.revoked_at ≡ none

ensure-grants :
    (now : Time) (user_id course_id : ℕ) (db : Db)
    → (ensure_enrollment now user_id course_id db).grants ≡ db.grants
unfolding ensure_enrollment
ensure-grants now user_id course_id db = ground arith

-- The ledger after a renewal that a purchase pays for: one grant more.
pub renewal-IsExtension :
    (now : Time) (t : Terms) (purchase : ℕ) (db : Db) (duration : ℕ) {sub : Subscription}
    → find_extendable now t db.subscriptions ≡ some sub
    → t.duration ≡ some duration
    → duration ≢ 0
    → (g : PurchaseEntitlementGrant) × ((extend_or_create_subscription now t
          (some purchase)
          db).grants
        ≡ db.grants ++ (g ∷ []))
      × IsExtension g purchase sub.id sub.expires_at (renewed_until now sub.expires_at duration)
unfolding extend_or_create_subscription save_or_create record_grant
renewal-IsExtension now t purchase db duration {sub} found d positive =
    let until = expiry_after (start_from now (some sub)) t.duration in
    let end : until ≡ some (renewed_until now sub.expires_at duration) =
      rw d (renewed_expiry now sub duration positive) in
    let g : PurchaseEntitlementGrant = record {
      id = (ensure_enrollment now t.user_id t.course_id db).next_id;
      purchase_id = purchase;
      target = to_subscription sub.id;
      was_created = false;
      previous_expires_at = sub.expires_at;
      granted_expires_at = until;
      revoked_at = none;
    } in
    (
      g,
      rw found (ap (λ l. l ++ (g ∷ [])) (ensure-grants now t.user_id t.course_id db)),
      record {
        of_purchase = refl;
        of_row = refl;
        not_created = refl;
        from = refl;
        to = end;
        live = refl;
      },
    )

-- The row after a renewal starts when it did.
pub renewal_keeps_start :
    (now : Time) (t : Terms) (p : Option ℕ) (db : Db) {sub : Subscription}
    → Unique (λ r. r.id) db.subscriptions
    → find_extendable now t db.subscriptions ≡ some sub
    → (row : Subscription)
    → find_first (λ r. r.id == sub.id) (extend_or_create_subscription now t p db).subscriptions
      ≡ some row
    → row.starts_at ≡ sub.starts_at
renewal_keeps_start now t p db {sub} unique found row h =
    let until = expiry_after (start_from now (some sub)) t.duration in
    let saved = extended until t.plan_id t.mock_test_quota sub in
    let own : find_first (λ r. r.id == sub.id) db.subscriptions ≡ some sub =
      find-own_key (is_extendable now t.user_id t.course_id t.product_type t.is_scholarship)
        (λ r. r.id) db.subscriptions unique found in
    let after : find_first (λ r. r.id == sub.id)
          (extend_or_create_subscription now t p db).subscriptions
        ≡ some saved =
      rw (subscriptions_after now t p db found) (
        find-update_found (λ r. r.id == sub.id) (λ r. r.id) (λ _. saved) db.subscriptions unique own
          (rw (extended_id until t.plan_id t.mock_test_quota sub) (eq→== sub.id))) in
    let e : row ≡ saved = some_inj.0 (sym h ∙ after) in
    ap (λ r. r.starts_at) e ∙ extended_start until t.plan_id t.mock_test_quota sub
