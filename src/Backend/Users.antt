-- ===== src/Backend/Users.antt =====
-- internal/db/db.go: the users table and the echo log. GORM and Postgres are a parameter: the state
-- of the database, and what each chain of calls does with it. One request runs at a time.
pub mod Upsert
pub mod Update
use sample_grpc_service.Prelude.{
  ℕ, zero, suc, ◌≡◌, String, Bool, true, false, ◌||◌, Option, none, some, List, str_eq,
  if◌then◌else◌,
}
use sample_grpc_service.Backend.Text.{contains}
use Prim.Native.String

-- A row of the users table; a time is a number, to the precision of the database.
pub record DbUser : Type 0 where
  pub id : String
  pub google_sub : String
  pub email : String
  pub display_name : String
  pub picture_url : Option String
  pub username : Option String
  pub is_admin : Bool
  pub created_at : ℕ
  pub updated_at : ℕ

-- What `UpsertUser` fills in of a `User`.
pub record Profile : Type 0 where
  pub google_sub : String
  pub email : String
  pub display_name : String
  pub picture_url : Option String

-- An error of the database is its text.
pub data Found {ℓ} (A : Type ℓ) : Type ℓ where
  good : A → Found A
  bad : String → Found A

pub record Orm : Type 1 where
  pub State : Type 0
  -- `Where(User{GoogleSub: …}).Assign(…).FirstOrCreate(&u)`
  pub first_or_create : Profile → State → Found DbUser × State
  -- `Model(&User{}).Where("id = ?", id).Update("username", name)`
  pub set_username : String → Option String → State → Option String × State
  -- `First(&u, "id = ?", id)`
  pub first_by_id : String → State → Found DbUser
  -- `Order("created_at asc").Find(&users)`
  pub in_order : State → Found (List DbUser)
  -- `Create(&EchoRequest{Message: message})`
  pub create_echo : String → State → Option String × State

-- The documented behaviour of the calls.
pub record OrmLaws (db : Orm) : Type 0 where
  -- The row that is found or created has the key, and is the stored one.
  pub keyed :
      (p : Profile) (st st' : db.State) (u : DbUser)
      → str_eq p.google_sub "" ≡ false
      → db.first_or_create p st ≡ (good u, st')
      → u.google_sub ≡ p.google_sub
  pub stored :
      (p : Profile) (st st' : db.State) (u : DbUser)
      → db.first_or_create p st ≡ (good u, st')
      → db.first_by_id u.id st' ≡ good u
  -- The id of a row is spelled as the database spells it, so the row it finds has the same.
  pub by_id :
      (p : Profile) (st st₀ st' : db.State) (u v : DbUser)
      → db.first_or_create p st ≡ (good u, st₀)
      → db.first_by_id u.id st' ≡ good v
      → v.id ≡ u.id
  -- An update without an error changes the column, and the time of the update.
  pub set_done :
      (id : String) (name : Option String) (st st' : db.State) (u : DbUser)
      → db.set_username id name st ≡ (none, st')
      → db.first_by_id id st ≡ good u
      → (t : ℕ) × (db.first_by_id id st' ≡ good (record u { username = name; updated_at = t }))
  -- A statement that fails changes nothing.
  pub set_failed :
      (id e : String) (name : Option String) (st st' : db.State)
      → db.set_username id name st ≡ (some e, st')
      → st' ≡ st

-- The error of a method: the sentinel, or another with its text.
pub data DbError : Type 0 where
  username_taken : DbError
  failed : String → DbError

pub data Result {ℓ} (A : Type ℓ) : Type ℓ where
  done : A → Result A
  fail : DbError → Result A

-- `isUniqueViolation` of an error that is not nil
unfoldable pub is_unique_violation : String → Bool
unfolding contains
is_unique_violation msg = contains msg "23505" || contains msg "unique"

-- A pointer to a text, nil for the empty text.
abbrev pub pointer_to : String → Option String
pointer_to s = if str_eq s "" then none else some s

-- `if err != nil { return nil, fmt.Errorf("…: %w", err) }`
unfoldable pub wrapped {ℓ} : {A : Type ℓ} → String → Found A → Result A
wrapped before (good a) = done a
wrapped before (bad e) = fail (failed (String.◌++◌ before e))

module _ (db : Orm) where
  -- `WriteEchoRequest`
  unfoldable pub write_echo_request : String → db.State → Option String × db.State
  write_echo_request message st = db.create_echo message st

  unfoldable pub get_user_by_id : String → db.State → Result DbUser
  unfolding wrapped
  get_user_by_id id st =
      wrapped (String.◌++◌ "get user " (String.◌++◌ id ": ")) (db.first_by_id id st)

  unfoldable pub list_users : db.State → Result (List DbUser)
  unfolding wrapped
  list_users st = wrapped "list users: " (db.in_order st)

  after_update : String → Option String × db.State → Result DbUser × db.State
  unfolding get_user_by_id is_unique_violation
  after_update user_id (none, st) = (get_user_by_id user_id st, st)
  after_update user_id (some e, st) = (
    fail (
        if is_unique_violation e
        then username_taken
        else failed (String.◌++◌ "update username: " e)),
    st,
  )

  unfoldable pub update_username : String → String → db.State → Result DbUser × db.State
  unfolding after_update
  update_username user_id username st =
      after_update user_id (db.set_username user_id (pointer_to username) st)

  -- The `for range 10` of `UpsertUser`, of which `n` rounds are left; `candidate i` is what the i-th
  -- call of `generateUsername` gives.
  unfoldable pub try_names : (ℕ → String) → ℕ → ℕ → String → db.State → Result DbUser × db.State
  unfolding update_username get_user_by_id
  try_names candidate zero i id st = (get_user_by_id id st, st)
  try_names candidate (suc n) i id st = elim ((update_username id (candidate i) st).0) [
    | done u ↦ (done u, (update_username id (candidate i) st).1)
    | fail e ↦ try_names candidate n (suc i) id ((update_username id (candidate i) st).1)
  ]

  name_if_new : (ℕ → String) → DbUser → Option String → db.State → Result DbUser × db.State
  unfolding try_names
  name_if_new candidate u none st = try_names candidate 10 0 u.id st
  name_if_new candidate u (some name) st = (done u, st)

  after_create : (ℕ → String) → Found DbUser × db.State → Result DbUser × db.State
  unfolding name_if_new
  after_create candidate (bad e, st) = (fail (failed (String.◌++◌ "upsert user: " e)), st)
  after_create candidate (good u, st) = name_if_new candidate u u.username st

  unfoldable pub upsert_user :
      String → String → String → String → (ℕ → String) → db.State → Result DbUser × db.State
  unfolding after_create
  upsert_user google_sub email display_name picture_url candidate st = after_create candidate (
      db.first_or_create
        (record {
          google_sub = google_sub;
          email = email;
          display_name = display_name;
          picture_url = pointer_to picture_url;
        })
        st)
