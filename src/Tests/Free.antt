-- ===== src/Tests/Free.antt =====
-- The free starter allocation.
use hamromentorback.Base.{ℕ, ◌+◌, ◌≤◌, ◌≡◌, refl, List, [], ◌∷◌, All, arith}
use hamromentorback.Time.{Time}
use hamromentorback.Accounts.{signed_in}
use hamromentorback.FreeStarter.{
  ResourceType, is_currently_valid, consume_free_starter, has_free_starter_available,
  ensure_and_consume_free_starter, provision_free_starter, save_charge,
}
use hamromentorback.FreeStarter.Usage.{
  available-eq-consume, WithinAllocation, consume-WithinAllocation, consume_all,
  granted-le-quantity,
}
use hamromentorback.FreeStarter.Provisioning.{provision_idempotent}
use hamromentorback.Tests.Data.{student, free_row, free_db, empty_db}

-- Three requests of one unit, where two are left.
abbrev requests : List (Time × ℕ)
requests = (1, 1) ∷ (2, 1) ∷ (3, 1) ∷ []

two_are_granted : (consume_all requests student ResourceType.grand_test free_db).0 ≡ 2
unfolding consume_all consume_free_starter save_charge is_currently_valid
two_are_granted = refl

granted-le-quantity_example :
    (consume_all requests student ResourceType.grand_test free_db).0 + 0 ≤ 2
granted-le-quantity_example =
    granted-le-quantity requests student ResourceType.grand_test free_db free_row (tt, tt) refl refl
      (omega arith)

available-eq-consume_example :
    (has_free_starter_available 5 (signed_in student) ResourceType.grand_test empty_db).0
    ≡ (ensure_and_consume_free_starter 5 student ResourceType.grand_test 1 empty_db).0
available-eq-consume_example = available-eq-consume 5 student ResourceType.grand_test empty_db

consume-WithinAllocation_example :
    All WithinAllocation (consume_free_starter 5 student ResourceType.grand_test 2 free_db).1.rows
consume-WithinAllocation_example =
    consume-WithinAllocation 5 student ResourceType.grand_test 2 free_db (tt, tt)
      (λ limited. omega arith, tt)

provision_idempotent_example :
    provision_free_starter 9
      (signed_in student)
      (provision_free_starter 5 (signed_in student) empty_db)
    ≡ provision_free_starter 5 (signed_in student) empty_db
provision_idempotent_example = provision_idempotent 5 9 (signed_in student) empty_db
