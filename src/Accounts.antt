-- ===== src/Accounts.antt =====
-- accounts.models.User, as far as access decisions read it, and `request.user`.
use hamromentorback.Base.{ℕ, Bool}

pub record User : Type 0 where
  pub id : ℕ
  pub is_staff : Bool

-- `request.user`: `anonymous` where `not user or not user.is_authenticated`.
pub data Visitor : Type 0 where
  anonymous : Visitor
  signed_in : User → Visitor
