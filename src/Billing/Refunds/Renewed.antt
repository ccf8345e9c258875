-- ===== src/Billing/Refunds/Renewed.antt =====
-- billing/payment_service.py, `_extend_or_create_subscription` and `_reverse_access_record`: a renewal
-- and its refund.
use hamromentorback.Base.{
  ℕ, ◌+◌, ◌≤◌, ◌≡◌, ◌≢◌, Bool, false, Option, none, some, [], ◌∷◌, ◌++◌, ◌==◌, arith, Unique,
  find_first,
}
use hamromentorback.Base.Int.{◌-ℤ◌}
use hamromentorback.Time.{Time}
use hamromentorback.Billing.Models.{Subscription}
use hamromentorback.Billing.Orders.{Db, PurchaseEntitlementGrant, ok}
use hamromentorback.Billing.Activation.{Terms, find_extendable, extend_or_create_subscription}
use hamromentorback.Billing.Activation.Renewal.{
  renewed_until, renewal_end, renewal_keeps_start, renewal-IsExtension,
}
use hamromentorback.Billing.Refunds.{
  grant_contribution, baseline_of, shortened, shorten, instant_of, reverse_access_record,
}

-- The end that a row had; its own start where it had none.
abbrev pub end_before : Subscription → Time
end_before sub = elim sub.expires_at [ none ↦ sub.starts_at | some e ↦ e ]

-- What the refund of a renewal computes, from the columns of its grant.
undone :
    (g : PurchaseEntitlementGrant) (now duration later : Time) (others : Bool) (start : Time)
    (previous : Option Time)
    → g.was_created ≡ false
    → g.previous_expires_at ≡ previous
    → g.granted_expires_at ≡ some (renewed_until now previous duration)
    → start ≤ now
    → reverse_access_record g (some (renewed_until now previous duration + later)) others start
      ≡ ok (shortened ((elim previous [ none ↦ start | some e ↦ e ]) + later))
unfolding reverse_access_record shorten instant_of grant_contribution baseline_of ◌-ℤ◌
undone g now duration later others start none c p e h = ground arith
undone g now duration later others start (some b) c p e h = ground arith

-- Where a purchase renews a subscription that has begun, for a time that is not zero, the grant that
-- it records has this reversal in a refund, whatever other grants are live and however much the row
-- was extended afterwards: the row ends at the end that it had before the purchase, plus the later
-- extensions. A row that had no end, access for life, does not get that back: it ends at its own
-- start, plus the later extensions.
pub refund_of_renewal :
    (now : Time) (t : Terms) (purchase : ℕ) (db : Db) (duration : ℕ) {sub : Subscription}
    → Unique (λ r. r.id) db.subscriptions
    → find_extendable now t db.subscriptions ≡ some sub
    → t.duration ≡ some duration
    → duration ≢ 0
    → sub.starts_at ≤ now
    → let out = extend_or_create_subscription now t (some purchase) db in
      (row : Subscription) × (g : PurchaseEntitlementGrant) × (until : Time) × (find_first
          (λ r. r.id == sub.id)
          out.subscriptions
        ≡ some row)
      × (row.expires_at ≡ some until)
      × (out.grants ≡ db.grants ++ (g ∷ []))
      × ((later : Time) (others : Bool)
          → reverse_access_record g (some (until + later)) others row.starts_at
            ≡ ok (shortened (end_before sub + later)))
refund_of_renewal now t purchase db duration {sub} unique found d positive begun =
    let (row, here, end) = renewal_end now t (some purchase) db duration unique found d positive in
    let (g, ledger, x) = renewal-IsExtension now t purchase db duration found d positive in
    let start = renewal_keeps_start now t (some purchase) db unique found row here in
    (
      row,
      g,
      renewed_until now sub.expires_at duration,
      here,
      end,
      ledger,
      λ later others. rw start (
          undone g now duration later others sub.starts_at sub.expires_at x.not_created x.from x.to
            begun),
    )
