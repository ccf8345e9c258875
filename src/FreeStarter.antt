-- ===== src/FreeStarter.antt =====
-- entitlements/models.py and entitlements/provisioning.py: the free allocation of a student.
pub mod Usage
pub mod Provisioning
use hamromentorback.Base.{
  ℕ, suc, ◌+◌, ◌-◌, Bool, true, false, ◌&&◌, ◌||◌, not, Option, none, some, List, [], ◌∷◌, ◌==◌,
  ltb, leb, is_some, if◌then◌else◌, find_first, any, update_by,
}
use hamromentorback.Time.{Time, days}
use hamromentorback.Accounts.{User, Visitor, anonymous, signed_in}

pub data ResourceType : Type 0 where
  qbank mock_test daily_test grand_test pyq : ResourceType

abbrev pub resource_tag : ResourceType → ℕ
resource_tag qbank = 0
resource_tag mock_test = 1
resource_tag daily_test = 2
resource_tag grand_test = 3
resource_tag pyq = 4

pub record FreeStarterPolicy : Type 0 where
  pub resource_type : ResourceType
  pub quantity : ℕ
  pub unlimited : Bool
  pub validity_days : Option ℕ
  pub is_active : Bool

pub data Status : Type 0 where
  active exhausted expired revoked : Status

abbrev is_active_status : Status → Bool
is_active_status active = true
is_active_status _ = false

pub record FreeStarterEntitlement : Type 0 where
  pub id : ℕ
  pub user_id : ℕ
  pub resource_type : ResourceType
  pub quantity : ℕ
  pub unlimited : Bool
  pub used : ℕ
  pub valid_from : Time
  pub expires_at : Option Time
  pub status : Status

-- The property `remaining`; `none` is Python's `None`, for an unlimited grant.
unfoldable pub remaining : FreeStarterEntitlement → Option ℕ
remaining row = if row.unlimited then none else some (row.quantity - row.used)

-- `expires_at and expires_at < now`
is_past : Time → Option Time → Bool
is_past now none = false
is_past now (some e) = ltb e now

unrevoked_status : Time → FreeStarterEntitlement → Status
unfolding is_past
unrevoked_status now row =
    if is_past now row.expires_at
    then expired
    else if not row.unlimited && leb row.quantity row.used
    then exhausted
    else active

of_stored : Status → Time → FreeStarterEntitlement → Status
unfolding unrevoked_status
of_stored revoked now row = revoked
of_stored _ now row = unrevoked_status now row

unfoldable pub effective_status : Time → FreeStarterEntitlement → Status
unfolding of_stored
effective_status now row = of_stored row.status now row

unfoldable pub is_currently_valid : Time → FreeStarterEntitlement → Bool
unfolding effective_status
is_currently_valid now row = is_active_status (effective_status now row)

pub data Event : Type 0 where
  created consumed ran_out : Event

-- One EntitlementEventLog row; `amount` is the number in its detail.
pub record EventLog : Type 0 where
  pub user_id : ℕ
  pub resource_type : ResourceType
  pub event : Event
  pub amount : ℕ

-- The tables of the application; `events` has the latest entry first, and `next_id` is the key that
-- the next entitlement row gets.
pub record Db : Type 0 where
  pub policies : List FreeStarterPolicy
  pub rows : List FreeStarterEntitlement
  pub events : List EventLog
  pub next_id : ℕ

abbrev pub is_row : ℕ → ResourceType → FreeStarterEntitlement → Bool
is_row user_id resource row =
    (row.user_id == user_id) && (resource_tag row.resource_type == resource_tag resource)

abbrev pub find_row : ℕ → ResourceType → Db → Option FreeStarterEntitlement
find_row user_id resource db = find_first (is_row user_id resource) db.rows

-- `if policy.validity_days`: zero days count as no limit.
expiry_of : Time → Option ℕ → Option Time
expiry_of now none = none
expiry_of now (some n) = if n == 0 then none else some (now + days n)

-- The row that `defaults` describe.
new_row : Time → ℕ → FreeStarterPolicy → ℕ → FreeStarterEntitlement
unfolding expiry_of
new_row now user_id policy id = record {
  id = id;
  user_id = user_id;
  resource_type = policy.resource_type;
  quantity = policy.quantity;
  unlimited = policy.unlimited;
  used = 0;
  valid_from = now;
  expires_at = expiry_of now policy.validity_days;
  status = active;
}

create_row : Time → ℕ → FreeStarterPolicy → Db → Db
unfolding new_row
create_row now user_id policy db = record db {
  rows = new_row now user_id policy db.next_id ∷ db.rows;
  events =
      record {
        user_id = user_id;
        resource_type = policy.resource_type;
        event = created;
        amount = policy.quantity;
      }
      ∷ db.events;
  next_id = db.next_id + 1;
}

-- `get_or_create`, with the event that a creation logs
get_or_create : Time → ℕ → FreeStarterPolicy → Db → Db
unfolding create_row
get_or_create now user_id policy db =
    if is_some (find_row user_id policy.resource_type db)
    then db
    else create_row now user_id policy db

provision_each : Time → ℕ → List FreeStarterPolicy → Db → Db
unfolding get_or_create
provision_each now user_id [] db = db
provision_each now user_id (policy ∷ rest) db =
    provision_each now user_id rest
      (if policy.is_active then get_or_create now user_id policy db else db)

unfoldable pub provision_free_starter : Time → Visitor → Db → Db
unfolding provision_each
provision_free_starter now anonymous db = db
provision_free_starter now (signed_in user) db = provision_each now user.id db.policies db

abbrev log : ℕ → ResourceType → Event → ℕ → List EventLog → List EventLog
log user_id resource event amount events =
    record { user_id = user_id; resource_type = resource; event = event; amount = amount } ∷ events

-- `not row.unlimited and row.used >= row.quantity`, once `used` has grown
newly_exhausted : ℕ → FreeStarterEntitlement → Bool
newly_exhausted amount row = not row.unlimited && leb row.quantity (row.used + amount)

-- The saved row.
charge : ℕ → FreeStarterEntitlement → FreeStarterEntitlement
unfolding newly_exhausted
charge amount row = record row {
  used = row.used + amount;
  status = if newly_exhausted amount row then exhausted else row.status;
}

unfoldable pub save_charge : ℕ → ResourceType → ℕ → FreeStarterEntitlement → Db → Db
unfolding charge
save_charge user_id resource amount row db = record db {
  rows =
      let charged = charge amount row in
      update_by (λ r. r.id == row.id)
        (λ r. record r { used = charged.used; status = charged.status }) db.rows;
  events =
      let consumed_log = log user_id resource consumed amount db.events in
      if newly_exhausted amount row
      then log user_id resource ran_out 0 consumed_log
      else consumed_log;
}

consume_row : Time → ℕ → ResourceType → ℕ → Option FreeStarterEntitlement → Db → Bool × Db
consume_row now user_id resource amount none db = (false, db)
consume_row now user_id resource amount (some row) db =
    if not (is_currently_valid now row)
    then (false, db)
    else if not row.unlimited && ltb row.quantity (row.used + amount)
    then (false, db)
    else (true, save_charge user_id resource amount row db)

unfoldable pub consume_free_starter : Time → User → ResourceType → ℕ → Db → Bool × Db
unfolding consume_row
consume_free_starter now user resource amount db =
    consume_row now user.id resource amount (find_row user.id resource db) db

valid_row : Time → Option FreeStarterEntitlement → Bool
valid_row now none = false
valid_row now (some row) = is_currently_valid now row

-- The answer, and the tables after the lazy provisioning.
unfoldable pub has_free_starter_available : Time → Visitor → ResourceType → Db → Bool × Db
unfolding valid_row
has_free_starter_available now anonymous resource db = (false, db)
has_free_starter_available now (signed_in user) resource db =
    let db' = provision_free_starter now (signed_in user) db in
    (valid_row now (find_row user.id resource db'), db')

unfoldable pub ensure_and_consume_free_starter : Time → User → ResourceType → ℕ → Db → Bool × Db
ensure_and_consume_free_starter now user resource amount db =
    consume_free_starter now user resource amount (provision_free_starter now (signed_in user) db)
