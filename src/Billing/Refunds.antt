-- ===== src/Billing/Refunds.antt =====
-- billing/payment_service.py, `refund` and what it reverses. A `timedelta` that a refund subtracts
-- is signed; an instant before the first day that `datetime` has raises OverflowError.
pub mod Frames
pub mod Shares
pub mod Again
pub mod Renewed
pub mod Others
use hamromentorback.Base.{
  ℕ, suc, ◌+◌, ◌-◌, Bool, true, false, ◌&&◌, ◌||◌, not, Option, none, some, List, [], ◌∷◌, ◌==◌,
  is_some, if◌then◌else◌, find_first, select, any, update_by,
}
use hamromentorback.Base.Int.{ℤ, pos, negsuc, sub_ℕ, ◌-ℤ◌}
use hamromentorback.Time.{Time}
use hamromentorback.Billing.Models.{Subscription, GrandTestAccess}
use hamromentorback.Texts.{Text, audit_reason, is_empty, strip}
use hamromentorback.Billing.Orders.{
  Purchase, approved, refunded, has_status, PurchaseEntitlementGrant, Target, to_subscription,
  to_grand_test_access, to_course_enrollment, deleted, CourseEnrollment, Db, Result, ok, err, ◌>>=◌,
  ◌>>◌, crashed, raise_if, or_raise, reason_required, does_not_exist, not_approved, find_purchase,
  save_purchase,
}

-- `grant.previous_expires_at or record_start`
baseline_of : Option Time → Time → Time
baseline_of none record_start = record_start
baseline_of (some e) record_start = e

unfoldable pub grant_contribution : PurchaseEntitlementGrant → Time → Option ℤ
unfolding baseline_of
grant_contribution grant record_start = elim grant.granted_expires_at [
  | none ↦ none
  | some granted ↦ some (sub_ℕ granted (baseline_of grant.previous_expires_at record_start))
]

-- An instant, from a signed number of microseconds.
instant_of : ℤ → Result Time
instant_of (pos n) = ok n
instant_of (negsuc n) = err crashed

-- What a reversal saves of a time-windowed record: one column, or nothing.
pub data Reversal : Type 0 where
  deactivated unchanged : Reversal
  shortened : Time → Reversal

shorten : Option Time → Option ℤ → Result Reversal
unfolding instant_of
shorten none contribution = ok unchanged
shorten (some current) none = ok unchanged
shorten (some current) (some contribution) = do
  left ← instant_of (pos current -ℤ contribution)
  ok (shortened left)

-- `current` is the record's expiry and `record_start` its start: `starts_at` of a subscription,
-- `enrolled_at` of a course enrolment.
unfoldable pub reverse_access_record :
    PurchaseEntitlementGrant → Option Time → Bool → Time → Result Reversal
unfolding shorten
reverse_access_record grant current other_live_grants record_start =
    if not other_live_grants && grant.was_created
    then ok deactivated
    else shorten current (grant_contribution grant record_start)

abbrev pub is_same_target : Target → Target → Bool
is_same_target (to_subscription a) (to_subscription b) = a == b
is_same_target (to_grand_test_access a) (to_grand_test_access b) = a == b
is_same_target (to_course_enrollment a) (to_course_enrollment b) = a == b
is_same_target _ _ = false

abbrev pub is_live_other : PurchaseEntitlementGrant → PurchaseEntitlementGrant → Bool
is_live_other grant g =
    not (is_some g.revoked_at) && is_same_target grant.target g.target && not (g.id == grant.id)

unfoldable pub other_live_grants : PurchaseEntitlementGrant → Db → Bool
other_live_grants grant db = any (is_live_other grant) db.grants

save_subscription : Reversal → Subscription → Subscription
save_subscription deactivated r = record r { is_active = false }
save_subscription unchanged r = r
save_subscription (shortened e) r = record r { expires_at = some e }

save_enrollment : Reversal → CourseEnrollment → CourseEnrollment
save_enrollment deactivated r = record r { is_active = false }
save_enrollment unchanged r = r
save_enrollment (shortened e) r = record r { expires_at = some e }

reverse_subscription : PurchaseEntitlementGrant → Option Subscription → Db → Result (Bool × Db)
unfolding save_subscription
reverse_subscription grant none db = ok (false, db)
reverse_subscription grant (some sub) db = do
  reversal ← reverse_access_record grant sub.expires_at (other_live_grants grant db) sub.starts_at
  ok (
    true,
    record db {
      subscriptions = update_by (λ r. r.id == sub.id) (save_subscription reversal) db.subscriptions;
    },
  )

reverse_enrollment : PurchaseEntitlementGrant → Option CourseEnrollment → Db → Result (Bool × Db)
unfolding save_enrollment
reverse_enrollment grant none db = ok (false, db)
reverse_enrollment grant (some e) db = do
  reversal ← reverse_access_record grant e.expires_at (other_live_grants grant db) e.enrolled_at
  ok (
    true,
    record db {
      course_enrollments =
          update_by (λ r. r.id == e.id) (save_enrollment reversal) db.course_enrollments;
    },
  )

reverse_access : Time → Option GrandTestAccess → Db → Result (Bool × Db)
reverse_access now none db = ok (false, db)
reverse_access now (some a) db = ok (
  true,
  record db {
    grand_accesses =
        update_by (λ r. r.id == a.id) (λ r. record r { revoked_at = some now }) db.grand_accesses;
  },
)

reverse_target : Target → Time → PurchaseEntitlementGrant → Db → Db → Result (Bool × Db)
unfolding reverse_subscription reverse_access reverse_enrollment
reverse_target (to_subscription id) now grant loaded db =
    reverse_subscription grant (find_first (λ s. s.id == id) loaded.subscriptions) db
reverse_target (to_grand_test_access id) now grant loaded db =
    reverse_access now (find_first (λ a. a.id == id) loaded.grand_accesses) db
reverse_target (to_course_enrollment id) now grant loaded db =
    reverse_enrollment grant (find_first (λ e. e.id == id) loaded.course_enrollments) db
reverse_target deleted now grant loaded db = ok (false, db)

-- Whether there was something to reverse, and the tables after it. `select_related` has loaded the
-- grant with its record, so the record is the one of the tables `loaded` at that query.
unfoldable pub reverse_grant : Time → PurchaseEntitlementGrant → Db → Db → Result (Bool × Db)
unfolding reverse_target
reverse_grant now grant loaded db =
    if is_some grant.revoked_at
    then ok (false, db)
    else reverse_target grant.target now grant loaded db

mark_revoked : Time → PurchaseEntitlementGrant → Db → Db
mark_revoked now grant db = record db {
  grants = update_by (λ g. g.id == grant.id) (λ g. record g { revoked_at = some now }) db.grants;
}

refund_grant : Time → Db → PurchaseEntitlementGrant → ℕ × Db → Result (ℕ × Db)
unfolding mark_revoked
refund_grant now loaded grant (processed, db) = do
  (reversed, db') ← reverse_grant now grant loaded db
  ok ((if reversed then suc processed else processed), mark_revoked now grant db')

-- The rows were read before the loop; a row that is already reversed is passed over.
refund_grants : Time → Db → List PurchaseEntitlementGrant → ℕ × Db → Result (ℕ × Db)
unfolding refund_grant
refund_grants now loaded [] state = ok state
refund_grants now loaded (grant ∷ rest) state =
    (if is_some grant.revoked_at then ok state else refund_grant now loaded grant state)
    >>= refund_grants now loaded rest

abbrev pub grants_of : Purchase → Db → List PurchaseEntitlementGrant
grants_of p db = select (λ g. g.purchase_id == p.id) db.grants

refunded_purchase : Time → Option ℕ → Text → Purchase → Purchase
refunded_purchase now actor reason p = record p {
  status = refunded;
  refunded_at = some now;
  refunded_by = actor;
  refund_reason = reason;
}

-- The `actor`, and what `record_payment_event` notes as the actor: the user of the request where
-- there is no other.
pub record Caller : Type 0 where
  pub actor : Option ℕ
  pub noted_actor : Option ℕ

settle_refund : Time → Caller → Text → Purchase → ℕ × Db → Db
unfolding refunded_purchase
settle_refund now caller reason p (processed, db) = record db {
  purchases = save_purchase (refunded_purchase now caller.actor reason p) db.purchases;
  audit_log =
      record {
        purchase_id = p.id;
        previous_status = p.status;
        new_status = refunded;
        actor = caller.noted_actor;
        reason = audit_reason reason;
        payment_reference = [];
        grants_processed = processed;
      }
      ∷ db.audit_log;
}

refund_approved : Time → Caller → Text → Purchase → Db → Result Db
unfolding refund_grants settle_refund
refund_approved now caller reason p db = do
  raise_if (not (has_status approved p)) not_approved
  state ← refund_grants now db (grants_of p db) (0, db)
  ok (settle_refund now caller reason p state)

unfoldable pub refund : Time → Caller → ℕ → Option Text → Db → Result Db
unfolding refund_approved
refund now caller purchase_id reason db = do
  raise_if (is_empty (strip reason)) reason_required
  p ← or_raise does_not_exist (find_purchase purchase_id db.purchases)
  if has_status refunded p then ok db else refund_approved now caller (strip reason) p db
