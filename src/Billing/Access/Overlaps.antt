-- ===== src/Billing/Access/Overlaps.antt =====
-- billing/access.py, `consume_quota`, as requests that overlap run it. The call takes no row lock and
-- opens no transaction, so its query and its save are two steps, and steps of other calls come between
-- them. Each call works on the object that its query returned, and saves the count of that object
-- plus one.
pub mod Bound
use hamromentorback.Base.{
  ℕ, zero, suc, ◌+◌, ◌≡◌, ◌≢◌, ◌==◌, refl, sym, ap, ◌∙◌, Bool, true, false, ◌&&◌, Bool-cases,
  Option, none, some, List, [], ◌∷◌, is_some, if◌then◌else◌, inl, inr, Option-cases, Unique, All,
  All-map, All-both, All-find, update_by, find_first, find_first_sound, and_right, ==→eq, eq→==,
  Unique-update,
}
use hamromentorback.Time.{Time}
use hamromentorback.Accounts.{Visitor, anonymous, signed_in}
use hamromentorback.Billing.Models.{ProductType, Subscription, has_quota_left}
use hamromentorback.Billing.Access.{quota_subscription, consume_from, consume_quota, use_once}
use hamromentorback.Billing.Access.Quota.{
  WithinQuota, sub_id, WithinQuota-use_once, quota_subscription-found,
}

-- The table, and the objects of the calls that have done their query and not yet their save.
pub record Quotas : Type 0 where
  pub subscriptions : List Subscription
  pub read : List Subscription

-- The query of a call, or the save of the call whose object is at this position.
pub data QuotaStep : Type 0 where
  reads : Time → Visitor → ProductType → QuotaStep
  writes : ℕ → QuotaStep

-- Without an object the call is over.
remember : Option Subscription → Quotas → Quotas
remember none s = s
remember (some sub) s = record s { read = sub ∷ s.read }

put_back :
    Subscription
    → Option (Subscription × List Subscription)
    → Option (Subscription × List Subscription)
put_back other none = none
put_back other (some (sub, rest)) = some (sub, other ∷ rest)

take_out : ℕ → List Subscription → Option (Subscription × List Subscription)
unfolding put_back
take_out n [] = none
take_out zero (sub ∷ rest) = some (sub, rest)
take_out (suc n) (sub ∷ rest) = put_back sub (take_out n rest)

save_object : Option (Subscription × List Subscription) → Quotas → Quotas
save_object none s = s
save_object (some (sub, rest)) s = record {
  subscriptions = consume_from (some sub) s.subscriptions;
  read = rest;
}

unfoldable pub quota_step : QuotaStep → Quotas → Quotas
unfolding remember take_out save_object
quota_step (reads now visitor product) s =
    remember (quota_subscription now s.subscriptions visitor product) s
quota_step (writes n) s = save_object (take_out n s.read) s

unfoldable pub quota_steps : List QuotaStep → Quotas → Quotas
unfolding quota_step
quota_steps [] s = s
quota_steps (x ∷ rest) s = quota_steps rest (quota_step x s)

-- A call of consume_quota with nothing between its query and its save is that query and that save.
pub consume_quota-alone :
    (now : Time) (subs : List Subscription) (visitor : Visitor) (product : ProductType)
    → quota_steps
        (reads now visitor product ∷ writes 0 ∷ [])
        (record { subscriptions = subs; read = [] })
      ≡ record { subscriptions = consume_quota now subs visitor product; read = [] }
unfolding consume_quota quota_steps quota_step remember save_object take_out consume_from
consume_quota-alone now subs visitor product =
    elim (Option-cases (quota_subscription now subs visitor product)) [
      | inl nothing ↦ rw nothing refl
      | inr (sub, h) ↦ rw h refl
    ]
