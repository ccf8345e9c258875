-- ===== src/Billing/Access/Overlaps/Bound.antt =====
-- billing/access.py, `consume_quota`: the counts of the packages while its calls overlap. An object
-- that is read keeps the quota that it had left, and the quota of its row does not change, so what is
-- saved is within the quota of the row.
use hamromentorback.Base.{
  ℕ, zero, suc, ◌+◌, ◌≡◌, ◌≢◌, ◌==◌, refl, sym, ap, ◌∙◌, Bool, true, Bool-cases, Option, none, some,
  List, [], ◌∷◌, is_some, inl, inr, Option-cases, Unique, All, All-map, All-both, All-find,
  update_by, find_first, find_first_sound, and_right, ==→eq, Unique-update,
}
use hamromentorback.Time.{Time}
use hamromentorback.Accounts.{Visitor, anonymous, signed_in}
use hamromentorback.Billing.Models.{ProductType, Subscription, has_quota_left}
use hamromentorback.Billing.Access.{quota_subscription, consume_from, use_once}
use hamromentorback.Billing.Access.Quota.{
  WithinQuota, sub_id, WithinQuota-use_once, quota_subscription-found,
}
use hamromentorback.Billing.Access.Overlaps.{
  Quotas, QuotaStep, reads, writes, remember, put_back, take_out, save_object, quota_step,
  quota_steps,
}

-- A row with the primary key of an object has its quota.
HasQuotaOf : Subscription → Subscription → Type 0
HasQuotaOf o sub = sub.id ≡ o.id → sub.mock_test_quota ≡ o.mock_test_quota

-- The object of a call had quota left, and the quota of its row has not changed.
IsCurrentIn : List Subscription → Subscription → Type 0
unfolding HasQuotaOf
IsCurrentIn subs o = (has_quota_left o ≡ true) × All (HasQuotaOf o) subs

IsSound : Quotas → Type 0
unfolding IsCurrentIn
IsSound s =
    All WithinQuota s.subscriptions
    × Unique sub_id s.subscriptions
    × All (IsCurrentIn s.subscriptions) s.read

All-update {ℓ κ} :
    {A : Type ℓ}
    → (P : A → Type κ) (k : A → Bool) (f : A → A) (l : List A)
    → ((x : A) → k x ≡ true → P x → P (f x))
    → All P l
    → All P (update_by k f l)
All-update P k f [] same a = tt
All-update P k f (x ∷ l) same a = elim (Bool-cases (k x)) [
  | inl hit ↦ rw hit (same x hit a.0, All-update P k f l same a.1)
  | inr miss ↦ rw miss (a.0, All-update P k f l same a.1)
]

HasQuotaOf-save :
    (o sub : Subscription) (subs : List Subscription)
    → All (HasQuotaOf o) subs
    → All (HasQuotaOf o) (use_once sub subs)
unfolding HasQuotaOf use_once
HasQuotaOf-save o sub subs a =
    All-update (HasQuotaOf o) (λ s. s.id == sub.id)
      (λ s. record s { mock_test_used = sub.mock_test_used + 1 }) subs (λ x _ same. same) a

IsCurrentIn-save :
    (sub : Subscription) (subs read : List Subscription)
    → All (IsCurrentIn subs) read
    → All (IsCurrentIn (use_once sub subs)) read
unfolding IsCurrentIn
IsCurrentIn-save sub subs read a =
    All-map (λ o current. (current.0, HasQuotaOf-save o sub subs current.1)) read a

-- The rows stay within their quota when an object with quota left is saved, whatever their counts are.
WithinQuota-save :
    (sub : Subscription) (subs : List Subscription)
    → IsCurrentIn subs sub
    → All WithinQuota subs
    → All WithinQuota (use_once sub subs)
unfolding IsCurrentIn HasQuotaOf use_once
WithinQuota-save sub subs current w =
    let both = All-both WithinQuota (HasQuotaOf sub) subs w current.1 in
    All-map (λ x p. p.0) (use_once sub subs)
      (All-update (λ x. WithinQuota x × HasQuotaOf sub x) (λ s. s.id == sub.id)
        (λ s. record s { mock_test_used = sub.mock_test_used + 1 }) subs
        (λ x hit p. (rw (p.1 (==→eq x.id sub.id hit)) (WithinQuota-use_once sub current.0), p.1))
        both)

Unique-save_once :
    (sub : Subscription) (subs : List Subscription)
    → Unique sub_id subs
    → Unique sub_id (use_once sub subs)
unfolding use_once
Unique-save_once sub subs u =
    Unique-update sub_id (λ s. s.id == sub.id)
      (λ s. record s { mock_test_used = sub.mock_test_used + 1 }) subs (λ s. refl) u

IsSound-save :
    (sub : Subscription) (rest : List Subscription) (s : Quotas)
    → IsCurrentIn s.subscriptions sub
    → All (IsCurrentIn s.subscriptions) rest
    → IsSound s
    → IsSound (save_object (some (sub, rest)) s)
unfolding IsSound save_object consume_from
IsSound-save sub rest s current others (w, u, _) = elim (Bool-cases (is_some sub.mock_test_quota)) [
  | inl limited ↦ rw limited (
    WithinQuota-save sub s.subscriptions current w,
    Unique-save_once sub s.subscriptions u,
    IsCurrentIn-save sub s.subscriptions rest others,
  )
  | inr unlimited ↦ rw unlimited (w, u, others)
]

-- The one row with the primary key of a row that a query returned is that row.
found-HasQuotaOf :
    (p : Subscription → Bool) (subs : List Subscription) {o : Subscription}
    → Unique sub_id subs
    → find_first p subs ≡ some o
    → All (HasQuotaOf o) subs
unfolding HasQuotaOf
found-HasQuotaOf p [] u h = tt
found-HasQuotaOf p (x ∷ l) {o} u h = elim (Bool-cases (p x)) [
  | inl here ↦
      let e : x ≡ o = cc (rw here at h) in
      (
        λ _. ap (λ s. s.mock_test_quota) e,
        All-map (λ y other same. elim (other (same ∙ sym (ap sub_id e))) [ ]) l u.0,
      )
  | inr later ↦
      let found : find_first p l ≡ some o = rw later at h in
      (
        λ same. elim (All-find (λ y. sub_id y ≢ sub_id x) p l u.0 found (sym same)) [ ],
        found-HasQuotaOf p l u.1 found,
      )
]

AllTaken : (Subscription → Type 0) → Option (Subscription × List Subscription) → Type 0
AllTaken P none = Unit
AllTaken P (some (sub, rest)) = P sub × All P rest

AllTaken-put_back :
    (P : Subscription → Type 0) (x : Subscription)
    (taken : Option (Subscription × List Subscription))
    → P x
    → AllTaken P taken
    → AllTaken P (put_back x taken)
unfolding AllTaken put_back
AllTaken-put_back P x none px a = tt
AllTaken-put_back P x (some (sub, rest)) px a = (a.0, (px, a.1))

take_out-AllTaken :
    (P : Subscription → Type 0) (n : ℕ) (read : List Subscription)
    → All P read
    → AllTaken P (take_out n read)
unfolding AllTaken take_out
take_out-AllTaken P n [] a = tt
take_out-AllTaken P zero (x ∷ l) a = a
take_out-AllTaken P (suc n) (x ∷ l) a =
    AllTaken-put_back P x (take_out n l) a.0 (take_out-AllTaken P n l a.1)

save_object-IsSound :
    (taken : Option (Subscription × List Subscription)) (s : Quotas)
    → AllTaken (IsCurrentIn s.subscriptions) taken
    → IsSound s
    → IsSound (save_object taken s)
unfolding AllTaken save_object
save_object-IsSound none s a sound = sound
save_object-IsSound (some (sub, rest)) s a sound = IsSound-save sub rest s a.0 a.1 sound

reads-IsSound :
    (now : Time) (visitor : Visitor) (product : ProductType) (s : Quotas)
    → IsSound s
    → IsSound (remember (quota_subscription now s.subscriptions visitor product) s)
unfolding remember quota_subscription IsSound IsCurrentIn
reads-IsSound now anonymous product s sound = sound
reads-IsSound now (signed_in user) product s (w, u, a) =
    elim (Option-cases (quota_subscription now s.subscriptions (signed_in user) product)) [
      | inl nothing ↦ rw nothing (w, u, a)
      | inr (sub, h) ↦
          let found = quota_subscription-found now s.subscriptions user product h in
          let left = and_right _ (has_quota_left sub) (find_first_sound _ s.subscriptions found) in
          rw h (w, u, ((left, found-HasQuotaOf _ s.subscriptions u found), a))
    ]

quota_step-IsSound : (x : QuotaStep) (s : Quotas) → IsSound s → IsSound (quota_step x s)
unfolding quota_step IsSound
quota_step-IsSound (reads now visitor product) s sound = reads-IsSound now visitor product s sound
quota_step-IsSound (writes n) s sound =
    save_object-IsSound (take_out n s.read) s
      (take_out-AllTaken (IsCurrentIn s.subscriptions) n s.read sound.2) sound

quota_steps-IsSound : (l : List QuotaStep) (s : Quotas) → IsSound s → IsSound (quota_steps l s)
unfolding quota_steps
quota_steps-IsSound [] s sound = sound
quota_steps-IsSound (x ∷ l) s sound =
    quota_steps-IsSound l (quota_step x s) (quota_step-IsSound x s sound)

-- Whatever calls of consume_quota overlap, and in whatever order their queries and saves come, the
-- count of no package goes beyond its quota: from rows with different primary keys that are all within
-- their quota, and no call begun, after any list of queries and saves, with no other write of the
-- table among them, every row is within its quota. That is a bound of the count, and not of the
-- starts: calls that overlap can count once.
pub quota_steps-WithinQuota :
    (steps : List QuotaStep) (subs : List Subscription)
    → Unique sub_id subs
    → All WithinQuota subs
    → All WithinQuota (quota_steps steps (record { subscriptions = subs; read = [] })).subscriptions
unfolding IsSound
quota_steps-WithinQuota steps subs u w =
    (quota_steps-IsSound steps (record { subscriptions = subs; read = [] }) (w, u, tt)).0
