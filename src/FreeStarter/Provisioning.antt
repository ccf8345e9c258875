-- ===== src/FreeStarter/Provisioning.antt =====
-- `provision_free_starter`: it creates what is missing, once, and rewrites nothing.
use hamromentorback.Base.{
  ℕ, ◌≡◌, refl, true, ◌&&◌, none, some, List, [], ◌∷◌, arith, ◌==◌, eq→==, is_some, if◌then◌else◌,
  Option-cases, Bool-cases, inl, inr,
}
use hamromentorback.Time.{Time}
use hamromentorback.Accounts.{Visitor, anonymous, signed_in}
use hamromentorback.FreeStarter.{
  ResourceType, resource_tag, FreeStarterPolicy, FreeStarterEntitlement, Db, find_row, new_row,
  create_row, get_or_create, provision_each, provision_free_starter,
}

resource_tag-injective : (r s : ResourceType) → resource_tag r ≡ resource_tag s → r ≡ s
resource_tag-injective r s h = ground arith

-- Two queries for the same student and resource are one query.
find_row-same :
    (user_id other : ℕ) (r s : ResourceType) (db : Db)
    → ((user_id == other) && (resource_tag s == resource_tag r)) ≡ true
    → find_row other r db ≡ find_row user_id s db
find_row-same user_id other r s db h =
    let same_user : other ≡ user_id = ground arith in
    let same_resource : r ≡ s = resource_tag-injective r s (ground arith) in
    rw (same_user, same_resource)

find_row-create :
    (now : Time) (user_id other : ℕ) (r : ResourceType) (policy : FreeStarterPolicy) (db : Db)
    {row : FreeStarterEntitlement}
    → find_row user_id policy.resource_type db ≡ none
    → find_row other r db ≡ some row
    → find_row other r (create_row now user_id policy db) ≡ some row
unfolding create_row
find_row-create now user_id other r policy db {row} missing found =
    elim (Bool-cases
      ((user_id == other) && (resource_tag policy.resource_type == resource_tag r))) [
        | inl same ↦
            absurd (cc (missing, found, find_row-same user_id other r policy.resource_type db same))
        | inr differs ↦ rw differs found
      ]

find_row-get_or_create :
    (now : Time) (user_id other : ℕ) (r : ResourceType) (policy : FreeStarterPolicy) (db : Db)
    {row : FreeStarterEntitlement}
    → find_row other r db ≡ some row
    → find_row other r (get_or_create now user_id policy db) ≡ some row
unfolding get_or_create
find_row-get_or_create now user_id other r policy db found =
    elim (Option-cases (find_row user_id policy.resource_type db)) [
      | inl missing ↦ rw missing (find_row-create now user_id other r policy db missing found)
      | inr (row, present) ↦ rw present found
    ]

find_row-provision_each :
    (now : Time) (user_id other : ℕ) (r : ResourceType) (policies : List FreeStarterPolicy)
    (db : Db) {row : FreeStarterEntitlement}
    → find_row other r db ≡ some row
    → find_row other r (provision_each now user_id policies db) ≡ some row
unfolding provision_each
find_row-provision_each now user_id other r [] db found = found
find_row-provision_each now user_id other r (policy ∷ rest) db found =
    elim (Bool-cases policy.is_active) [
      | inl on ↦ rw on (
          find_row-provision_each now user_id other r rest (get_or_create now user_id policy db)
            (find_row-get_or_create now user_id other r policy db found))
      | inr off ↦ rw off (find_row-provision_each now user_id other r rest db found)
    ]

-- Provisioning never rewrites a grant: an entitlement that a query finds is found unchanged
-- afterwards, whoever is provisioned and whatever the policies have become.
pub provision-keeps :
    (now : Time) (visitor : Visitor) (other : ℕ) (r : ResourceType) (db : Db)
    (row : FreeStarterEntitlement)
    → find_row other r db ≡ some row
    → find_row other r (provision_free_starter now visitor db) ≡ some row
unfolding provision_free_starter
provision-keeps now anonymous other r db row found = found
provision-keeps now (signed_in user) other r db row found =
    find_row-provision_each now user.id other r db.policies db found

-- Every active policy has given the student a row.
abbrev pub Provisioned : ℕ → List FreeStarterPolicy → Db → Type 0
Provisioned user_id [] db = Unit
Provisioned user_id (policy ∷ rest) db =
    (policy.is_active ≡ true → is_some (find_row user_id policy.resource_type db) ≡ true)
    × Provisioned user_id rest db

provision_each-Provisioned_same :
    (now : Time) (user_id : ℕ) (policies : List FreeStarterPolicy) (db : Db)
    → Provisioned user_id policies db
    → provision_each now user_id policies db ≡ db
unfolding provision_each get_or_create
provision_each-Provisioned_same now user_id [] db p = refl
provision_each-Provisioned_same now user_id (policy ∷ rest) db p =
    elim (Bool-cases policy.is_active) [
      | inl on ↦ rw (on, p.0 on) (provision_each-Provisioned_same now user_id rest db p.1)
      | inr off ↦ rw off (provision_each-Provisioned_same now user_id rest db p.1)
    ]

get_or_create-has_row :
    (now : Time) (user_id : ℕ) (policy : FreeStarterPolicy) (db : Db)
    → (row : FreeStarterEntitlement) × (find_row user_id policy.resource_type
          (get_or_create now user_id policy db)
        ≡ some row)
unfolding get_or_create create_row
get_or_create-has_row now user_id policy db =
    elim (Option-cases (find_row user_id policy.resource_type db)) [
      | inl missing ↦ (
        new_row now user_id policy db.next_id,
        rw missing (rw (eq→== user_id, eq→== (resource_tag policy.resource_type))),
      )
      | inr (row, present) ↦ (row, rw present present)
    ]

provision_each-Provisioned :
    (now : Time) (user_id : ℕ) (policies : List FreeStarterPolicy) (db : Db)
    → Provisioned user_id policies (provision_each now user_id policies db)
unfolding provision_each
provision_each-Provisioned now user_id [] db = tt
provision_each-Provisioned now user_id (policy ∷ rest) db = (
  λ on.
      let (row, found) = get_or_create-has_row now user_id policy db in
      rw (
        on,
        find_row-provision_each now user_id user_id policy.resource_type rest
            (get_or_create now user_id policy db) found,
      ),
  provision_each-Provisioned now user_id rest
      (if policy.is_active then get_or_create now user_id policy db else db),
)

policies-provision_each :
    (now : Time) (user_id : ℕ) (policies : List FreeStarterPolicy) (db : Db)
    → (provision_each now user_id policies db).policies ≡ db.policies
unfolding provision_each get_or_create create_row
policies-provision_each now user_id [] db = refl
policies-provision_each now user_id (policy ∷ rest) db = ground (
  arith,
  policies-provision_each now user_id rest
      (if policy.is_active then get_or_create now user_id policy db else db),
)

-- A second provisioning of the same student, at any later time, changes nothing: no row, no event.
pub provision_idempotent :
    (t u : Time) (visitor : Visitor) (db : Db)
    → provision_free_starter u visitor (provision_free_starter t visitor db)
      ≡ provision_free_starter t visitor db
unfolding provision_free_starter
provision_idempotent t u anonymous db = refl
provision_idempotent t u (signed_in user) db =
    rw (policies-provision_each t user.id db.policies db) (
      provision_each-Provisioned_same u user.id db.policies _
        (provision_each-Provisioned t user.id db.policies db))
