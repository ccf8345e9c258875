-- ===== src/FreeStarter/Usage.antt =====
-- Consumption of a free allocation: `consume_free_starter` and `has_free_starter_available`.
use hamromentorback.Base.{
  ℕ, ◌+◌, ◌≤◌, ◌≡◌, refl, Bool, true, false, Option, none, some, List, [], ◌∷◌, arith,
  if◌then◌else◌, find_first_sound, All, Unique, All-update_found, find-update_found, Unique-update,
  Option-cases, Bool-cases, inl, inr,
}
use hamromentorback.Time.{Time}
use hamromentorback.Accounts.{User, signed_in}
use hamromentorback.FreeStarter.{
  ResourceType, FreeStarterEntitlement, Db, is_row, find_row, is_currently_valid, charge,
  save_charge, consume_row, consume_free_starter, has_free_starter_available,
  ensure_and_consume_free_starter,
}

-- `has_free_starter_available` answers whether a consumption of one unit would now succeed.
pub available-eq-consume :
    (now : Time) (user : User) (resource : ResourceType) (db : Db)
    → (has_free_starter_available now (signed_in user) resource db).0
      ≡ (ensure_and_consume_free_starter now user resource 1 db).0
unfolding has_free_starter_available ensure_and_consume_free_starter consume_free_starter
    is_currently_valid
available-eq-consume now user resource db = ground arith

abbrev pub WithinAllocation : FreeStarterEntitlement → Type 0
WithinAllocation row = row.unlimited ≡ false → row.used ≤ row.quantity

abbrev pub row_id : FreeStarterEntitlement → ℕ
row_id row = row.id

-- What a consumption that succeeds has found and done.
abbrev Charged : ResourceType → ℕ → Db → User → FreeStarterEntitlement → Bool × Db → Type 0
Charged resource amount db user row (done, db') =
    (row.unlimited ≡ false → row.used + amount ≤ row.quantity)
    × (db' ≡ save_charge user.id resource amount row db)

consume_row-Charged :
    (now : Time) (user : User) (resource : ResourceType) (amount : ℕ) (db : Db)
    (row : FreeStarterEntitlement)
    → (consume_row now user.id resource amount (some row) db).0 ≡ true
    → Charged resource amount db user row (consume_row now user.id resource amount (some row) db)
unfolding consume_row
consume_row-Charged now user resource amount db row h = ground arith

consume_row_fail :
    (now : Time) (user : User) (resource : ResourceType) (amount : ℕ) (db : Db)
    (o : Option FreeStarterEntitlement)
    → (consume_row now user.id resource amount o db).0 ≡ false
    → (consume_row now user.id resource amount o db).1 ≡ db
unfolding consume_row
consume_row_fail now user resource amount db none h = refl
consume_row_fail now user resource amount db (some row) h = ground arith

-- A consumption that fails changes nothing.
pub consume_fail :
    (now : Time) (user : User) (resource : ResourceType) (amount : ℕ) (db : Db)
    → (consume_free_starter now user resource amount db).0 ≡ false
    → (consume_free_starter now user resource amount db).1 ≡ db
unfolding consume_free_starter
consume_fail now user resource amount db h =
    consume_row_fail now user resource amount db (find_row user.id resource db) h

WithinAllocation-charge :
    (amount : ℕ) (row : FreeStarterEntitlement)
    → (row.unlimited ≡ false → row.used + amount ≤ row.quantity)
    → WithinAllocation (charge amount row)
unfolding charge
WithinAllocation-charge amount row h = h

save_charge-All :
    (user_id : ℕ) (resource : ResourceType) (amount : ℕ) (row : FreeStarterEntitlement) (db : Db)
    → Unique row_id db.rows
    → find_row user_id resource db ≡ some row
    → (row.unlimited ≡ false → row.used + amount ≤ row.quantity)
    → All WithinAllocation db.rows
    → All WithinAllocation (save_charge user_id resource amount row db).rows
unfolding save_charge
save_charge-All user_id resource amount row db u found h w =
    All-update_found WithinAllocation (is_row user_id resource) row_id _ db.rows u found
      (WithinAllocation-charge amount row h) w

consume_row-All :
    (now : Time) (user : User) (resource : ResourceType) (amount : ℕ) (db : Db)
    (row : FreeStarterEntitlement)
    → Unique row_id db.rows
    → find_row user.id resource db ≡ some row
    → All WithinAllocation db.rows
    → All WithinAllocation (consume_row now user.id resource amount (some row) db).1.rows
consume_row-All now user resource amount db row u found w =
    elim (Bool-cases (consume_row now user.id resource amount (some row) db).0) [
      | inl done ↦
          let charged = consume_row-Charged now user resource amount db row done in
          rw charged.1 (save_charge-All user.id resource amount row db u found charged.0 w)
      | inr refused ↦ rw (consume_row_fail now user resource amount db (some row) refused) w
    ]

-- Whatever is asked for, no limited allocation is used beyond its quantity.
pub consume-WithinAllocation :
    (now : Time) (user : User) (resource : ResourceType) (amount : ℕ) (db : Db)
    → Unique row_id db.rows
    → All WithinAllocation db.rows
    → All WithinAllocation (consume_free_starter now user resource amount db).1.rows
unfolding consume_free_starter
consume-WithinAllocation now user resource amount db u w =
    elim (Option-cases (find_row user.id resource db)) [
      | inl missing ↦ rw (missing, consume_row) w
      | inr (row, found) ↦ rw found (consume_row-All now user resource amount db row u found w)
    ]

-- A row of the student stays the student's row when it is charged.
is_row-charge :
    (user_id : ℕ) (resource : ResourceType) (amount : ℕ) (row : FreeStarterEntitlement)
    → is_row user_id resource row ≡ true
    → is_row user_id resource (charge amount row) ≡ true
unfolding charge
is_row-charge user_id resource amount row h = h

find_row-save_charge :
    (user_id : ℕ) (resource : ResourceType) (amount : ℕ) (row : FreeStarterEntitlement) (db : Db)
    → Unique row_id db.rows
    → find_row user_id resource db ≡ some row
    → find_row user_id resource (save_charge user_id resource amount row db)
      ≡ some (charge amount row)
unfolding save_charge
find_row-save_charge user_id resource amount row db u found =
    find-update_found (is_row user_id resource) row_id _ db.rows u found
      (is_row-charge user_id resource amount row (find_first_sound _ db.rows found))

Unique-save_charge :
    (user_id : ℕ) (resource : ResourceType) (amount : ℕ) (row : FreeStarterEntitlement) (db : Db)
    → Unique row_id db.rows
    → Unique row_id (save_charge user_id resource amount row db).rows
unfolding save_charge
Unique-save_charge user_id resource amount row db u = Unique-update row_id _ _ db.rows (λ s. refl) u

consume-Charged :
    (now : Time) (user : User) (resource : ResourceType) (amount : ℕ) (db : Db)
    (row : FreeStarterEntitlement)
    → find_row user.id resource db ≡ some row
    → (consume_free_starter now user resource amount db).0 ≡ true
    → Charged resource amount db user row (consume_free_starter now user resource amount db)
unfolding consume_free_starter
consume-Charged now user resource amount db row found =
    rw found (consume_row-Charged now user resource amount db row)

-- Requests of one student, each with its time and amount, served one after the other; the number is
-- the sum of the amounts granted.
unfoldable pub consume_all : List (Time × ℕ) → User → ResourceType → Db → ℕ × Db
consume_all [] user resource db = (0, db)
consume_all ((now, amount) ∷ rest) user resource db =
    let (done, db') = consume_free_starter now user resource amount db in
    let (granted, db'') = consume_all rest user resource db' in
    ((if done then amount else 0) + granted, db'')

-- However many requests are served, the sum granted from a limited allocation is at most what was
-- left of it.
pub granted-le-quantity :
    (requests : List (Time × ℕ)) (user : User) (resource : ResourceType) (db : Db)
    (row : FreeStarterEntitlement)
    → Unique row_id db.rows
    → find_row user.id resource db ≡ some row
    → row.unlimited ≡ false
    → row.used ≤ row.quantity
    → (consume_all requests user resource db).0 + row.used ≤ row.quantity
unfolding consume_all charge
granted-le-quantity [] user resource db row u found limited within = omega arith
granted-le-quantity ((now, amount) ∷ rest) user resource db row u found limited within =
    elim (Bool-cases (consume_free_starter now user resource amount db).0) [
      | inl done ↦
          let (fits, saved) = consume-Charged now user resource amount db row found done in
          let room = fits limited in
          rw (done, saved)
            (omega (
              arith,
              granted-le-quantity rest user resource (save_charge user.id resource amount row db)
                  (charge amount row) (Unique-save_charge user.id resource amount row db u)
                  (find_row-save_charge user.id resource amount row db u found) limited room,
            ))
      | inr refused ↦
          rw (refused, consume_fail now user resource amount db refused)
            (omega (arith, granted-le-quantity rest user resource db row u found limited within))
    ]
