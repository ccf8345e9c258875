-- ===== src/Entitlements/Decision.antt =====
-- The vocabulary of entitlements/services.py and `AccessDecision`, `_deny`, `_tag`. The sentence
-- `reason` for the reader is left out; `no_reason`, `untagged` are the empty string.
use hamromentorback.Base.{ℕ, Bool, true, false, Option, none}
use hamromentorback.Base.Int.{ℤ}
use hamromentorback.Time.{Time}

pub data SourceType : Type 0 where
  from_enrollment from_subscription from_scholarship from_purchase from_free_starter no_source :
      SourceType

pub data Capability : Type 0 where
  untagged can_view can_purchase can_register can_start can_continue can_submit can_review
        can_see_solutions can_see_detailed_review can_see_rank can_see_analytics :
      Capability

pub data ReasonCode : Type 0 where
  no_reason authentication_required not_entitled free_limit_reached subscription_expired
        purchase_required course_enrollment_expired assignment_required exam_not_open exam_closed
        attempt_limit_reached resume_not_allowed solutions_not_released review_expired :
      ReasonCode

pub record AccessDecision : Type 0 where
  pub allowed : Bool
  pub capability : Capability
  pub source_type : SourceType
  pub source_id : Option ℕ
  pub valid_from : Option Time
  pub expires_at : Option Time
  pub remaining : Option ℤ
  pub reason_code : ReasonCode
  pub upgrade_available : Bool

-- `AccessDecision(allowed=True, source_type=…)`, with the defaults of the class.
abbrev pub allow : SourceType → AccessDecision
allow source = record {
  allowed = true;
  capability = untagged;
  source_type = source;
  source_id = none;
  valid_from = none;
  expires_at = none;
  remaining = none;
  reason_code = no_reason;
  upgrade_available = false;
}

abbrev pub deny : ReasonCode → Bool → AccessDecision
deny code upgrade = record {
  allowed = false;
  capability = untagged;
  source_type = no_source;
  source_id = none;
  valid_from = none;
  expires_at = none;
  remaining = none;
  reason_code = code;
  upgrade_available = upgrade;
}

abbrev pub tag : Capability → AccessDecision → AccessDecision
tag capability decision = record decision { capability = capability }

abbrev pub has_reason : ReasonCode → Bool
has_reason no_reason = false
has_reason _ = true

abbrev pub is_free_starter : SourceType → Bool
is_free_starter from_free_starter = true
is_free_starter _ = false
