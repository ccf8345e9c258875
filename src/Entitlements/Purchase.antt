-- ===== src/Entitlements/Purchase.antt =====
-- `can_purchase_test` and `can_register` of entitlements/services.py.
use hamromentorback.Base.{true, false, not, none, if◌then◌else◌}
use hamromentorback.Time.{Time}
use hamromentorback.Accounts.{User, Visitor, anonymous, signed_in}
use hamromentorback.FreeStarter
use hamromentorback.Exams.Models.{Test}
use hamromentorback.Entitlements.Decision.{
  AccessDecision, allow, deny, tag, can_purchase, can_register as register_tag, no_source,
  authentication_required, not_entitled,
}
use hamromentorback.Entitlements.Start.{Tables, can_start_test}

-- For a signed-in student and an exam that costs something.
purchase_decision : Time → Tables → User → Test → AccessDecision × FreeStarter.Db
purchase_decision now t user test =
    let (start, db') = can_start_test now t (signed_in user) test none in
    (
      if start.allowed
          then deny not_entitled false
          else record (allow no_source) { upgrade_available = true },
      db',
    )

unfoldable pub can_purchase_test : Time → Tables → Visitor → Test → AccessDecision × FreeStarter.Db
unfolding purchase_decision
can_purchase_test now t anonymous test =
    (tag can_purchase (deny authentication_required false), t.free)
can_purchase_test now t (signed_in user) test =
    let (decision, db') = purchase_decision now t user test in
    if user.is_staff
    then (tag can_purchase (deny not_entitled false), t.free)
    else if not test.is_pro
    then (tag can_purchase (deny not_entitled false), t.free)
    else (tag can_purchase decision, db')

unfoldable pub can_register : AccessDecision
can_register = tag register_tag (allow no_source)
