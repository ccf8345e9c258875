-- ===== src/Billing/Refunds/Again.antt =====
-- billing/payment_service.py, `refund` on a purchase that is already refunded.
use hamromentorback.Base.{ℕ, ◌≡◌, true, false, Option, some}
use hamromentorback.Time.{Time}
use hamromentorback.Texts.{Text, is_empty, strip}
use hamromentorback.Billing.Orders.{Db, ok, find_purchase, refunded, has_status, Purchase}
use hamromentorback.Billing.Refunds.{Caller, refund}
use hamromentorback.Billing.Refunds.Frames.{refund-refunded}

refund_done :
    (now : Time) (caller : Caller) (id : ℕ) (reason : Option Text) (db : Db) (p : Purchase)
    → is_empty (strip reason) ≡ false
    → find_purchase id db.purchases ≡ some p
    → has_status refunded p ≡ true
    → refund now caller id reason db ≡ ok db
unfolding refund
refund_done now caller id reason db p given found before = simp (given, found, before)

-- Refunding a purchase a second time, later, by anybody and with any other reason that is not
-- blank, succeeds and changes nothing: no grant is reversed twice and no audit row is added.
pub refund_idempotent :
    (now later : Time) (caller other : Caller) (id : ℕ) (reason again : Option Text) (db mid : Db)
    → refund now caller id reason db ≡ ok mid
    → is_empty (strip again) ≡ false
    → refund later other id again mid ≡ ok mid
refund_idempotent now later caller other id reason again db mid h given =
    let (q, found, before) = refund-refunded now caller id reason db h in
    refund_done later other id again mid q given found before
