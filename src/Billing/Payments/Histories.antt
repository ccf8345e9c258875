-- ===== src/Billing/Payments/Histories.antt =====
-- billing/payment_service.py over any sequence of calls, each at its own time and by its own
-- caller: what a decision means for the rest of a purchase's life.
use hamromentorback.Base.{
  ℕ, ◌≡◌, refl, ap, ◌⊎◌, inl, inr, Bool, Option, some, List, arith, ◌≤◌, ◌∙◌, true, false, eq→==,
}
use hamromentorback.Time.{Time}
use hamromentorback.Billing.Orders.{
  PurchaseStatus, status_tag, pending, unpaid, approved, refunded, already_decided, save_purchase,
  Purchase, has_status, Db, ok, err, find_purchase,
}
use hamromentorback.Billing.Orders.Moves.{
  Move, submit_first, submit_again, approve_proof, approve_free, reject_proof, reject_stale,
  ask_again, lapse, cancel_order, cancel_again, pay_back, find-save,
}
use hamromentorback.Billing.Refunds.{Caller}
use hamromentorback.Billing.Payments.{Operation, run, activate, approved_purchase}
use hamromentorback.Billing.Payments.Transitions.{run_moves}
use hamromentorback.Billing.Payments.Approvals.{activate_effect}

-- Any number of successful calls.
pub data History (reward : ℕ) : Db → Db → Type 0 where
  done : (a : Db) → History reward a a
  call :
      (now : Time) (caller : Caller) (op : Operation) (a b c : Db)
      → run reward now caller op a ≡ ok b
      → History reward b c
      → History reward a c

-- Rejected, expired, cancelled and refunded.
abbrev pub IsClosed : Purchase → Type 0
IsClosed p = 4 ≤ status_tag p.status

-- An approved purchase can only be refunded, and a closed one cannot move.
Move-origin :
    {s t : PurchaseStatus} → Move s t → (status_tag s ≤ 2) ⊎ ((s ≡ approved) × (t ≡ refunded))
Move-origin pay_back = inr (refl, refl)
Move-origin submit_first = inl (omega arith)
Move-origin submit_again = inl (omega arith)
Move-origin approve_proof = inl (omega arith)
Move-origin approve_free = inl (omega arith)
Move-origin reject_proof = inl (omega arith)
Move-origin reject_stale = inl (omega arith)
Move-origin ask_again = inl (omega arith)
Move-origin lapse = inl (omega arith)
Move-origin cancel_order = inl (omega arith)
Move-origin cancel_again = inl (omega arith)

closed_fixed : (p q : Purchase) → IsClosed p → Move p.status q.status → q ≡ p
closed_fixed p q closed m = let from = Move-origin m in ground arith

unmoved :
    (k : ℕ) (l : List Purchase) (p q : Purchase)
    → IsClosed p
    → find_purchase k l ≡ some q
    → (q ≡ p) ⊎ Move p.status q.status
    → find_purchase k l ≡ some p
unmoved k l p q closed found (inl same) = found ∙ ap some same
unmoved k l p q closed found (inr move) = found ∙ ap some (closed_fixed p q closed move)

-- A purchase that is rejected, expired, cancelled or refunded is the same row after every sequence
-- of calls of the service: no status, date, reason or reference of it changes again.
pub closed_stays :
    (reward : ℕ) (a b : Db) (k : ℕ) {p : Purchase}
    → History reward a b
    → find_purchase k a.purchases ≡ some p
    → IsClosed p
    → find_purchase k b.purchases ≡ some p
closed_stays reward a b k (done c) found closed = found
closed_stays reward a b k {p} (call now caller op c mid e h rest) found closed =
    let (q, found', moved) = run_moves reward now caller op a k h found in
    closed_stays reward mid b k rest (unmoved k mid.purchases p q closed found' moved) closed

-- Approved or refunded.
abbrev IsWon : Purchase → Type 0
IsWon p = (p.status ≡ approved) ⊎ (p.status ≡ refunded)

won_moves : (s t : PurchaseStatus) → (s ≡ approved) ⊎ (s ≡ refunded) → Move s t → t ≡ refunded
won_moves s t won m = let from = Move-origin m in ground arith

IsWon-kept : (p q : Purchase) → IsWon p → (q ≡ p) ⊎ Move p.status q.status → IsWon q
IsWon-kept p q won (inl same) = rw (ap (λ x. x.status) same) won
IsWon-kept p q won (inr move) = inr (won_moves p.status q.status won move)

IsWon-stays :
    (reward : ℕ) (a b : Db) (k : ℕ) {p : Purchase}
    → History reward a b
    → find_purchase k a.purchases ≡ some p
    → IsWon p
    → (q : Purchase) × (find_purchase k b.purchases ≡ some q) × IsWon q
IsWon-stays reward a b k {p} (done c) found won = (p, found, won)
IsWon-stays reward a b k {p} (call now caller op c mid e h rest) found won =
    let (q, found', moved) = run_moves reward now caller op a k h found in
    IsWon-stays reward mid b k rest found' (IsWon-kept p q won moved)

won_refuses :
    (now : Time) (caller : Caller) (reward k : ℕ) (allow_unpaid : Bool) (db : Db) (p : Purchase)
    → find_purchase k db.purchases ≡ some p
    → has_status pending p ≡ false
    → has_status unpaid p ≡ false
    → activate now caller reward k allow_unpaid db ≡ err already_decided
unfolding activate
won_refuses now caller reward k true db p found np nu = simp (found, np, nu)
won_refuses now caller reward k false db p found np nu = simp (found, np)

not_pending : (p : Purchase) → IsWon p → has_status pending p ≡ false
not_pending p won = ground arith

not_unpaid : (p : Purchase) → IsWon p → has_status unpaid p ≡ false
not_unpaid p won = ground arith

approved-IsWon :
    (now : Time) (actor : Option ℕ) (p : Purchase) → IsWon (approved_purchase now actor p)
unfolding approved_purchase
approved-IsWon now actor p = inl refl

approved-found :
    (now : Time) (actor : Option ℕ) (db : Db) (p : Purchase)
    → find_purchase p.id db.purchases ≡ some p
    → find_purchase p.id (save_purchase (approved_purchase now actor p) db.purchases)
      ≡ some (approved_purchase now actor p)
unfolding approved_purchase
approved-found now actor db p found =
    let q = approved_purchase now actor p in
    rw (eq→== p.id) at (find-save p.id q db.purchases found)

-- A purchase is activated at most once: after its approval, and after every sequence of successful
-- calls that follows it, a refund of it included, approving it again is refused as already
-- decided, so its product, its coupon and the referral reward are not given twice.
pub activate_once :
    (reward : ℕ) (now later : Time) (caller other : Caller) (k : ℕ) (free again : Bool)
    (db mid last : Db)
    → activate now caller reward k free db ≡ ok mid
    → History reward mid last
    → activate later other reward k again last ≡ err already_decided
activate_once reward now later caller other k free again db mid last h history =
    let (p, key, found, _, _, saved, _) = activate_effect now caller reward k free db h in
    let q = approved_purchase now caller.actor p in
    let after : find_purchase k mid.purchases ≡ some q =
      rw (saved, ← key) (approved-found now caller.actor db p found) in
    let (r, found', won) =
      IsWon-stays reward mid last k history after (approved-IsWon now caller.actor p) in
    won_refuses later other reward k again last r found' (not_pending r won) (not_unpaid r won)
