-- ===== src/Backend/Users/Update.antt =====
-- What `UpdateUsername` of internal/db/db.go makes of an answer of the database.
use sample_grpc_service.Prelude.{
  ℕ, ◌≡◌, ◌≢◌, ◌⊎◌, inl, inr, String, true, false, Option, none, some, str_eq, eq_iff,
  if◌then◌else◌, Bool-cases, arith,
}
use sample_grpc_service.Backend.Text.{contains}
use sample_grpc_service.Backend.Text.Contains.{Within, contains-Within, Within-contains}
use sample_grpc_service.Backend.Users.{
  DbUser, Orm, OrmLaws, good, done, fail, DbError, username_taken, failed, is_unique_violation,
  pointer_to, update_username,
}
use sample_grpc_service.Backend.Users.Upsert.{update_username_run}
use Prim.Native.String

-- The column for a name: NULL for the empty text.
pub data StoredName (name : String) : Option String → Type 0 where
  cleared : name ≡ "" → StoredName name none
  set : name ≢ "" → StoredName name (some name)

-- The text of an error tells of a unique constraint, by the code of Postgres or by the word.
abbrev pub TellsUnique : String → Type 0
TellsUnique e = Within "23505" e ⊎ Within "unique" e

-- The error that stands for an error of the database with the text `e`.
pub data Refusal (e : String) : DbError → Type 0 where
  taken : TellsUnique e → Refusal e username_taken
  other : (TellsUnique e → ⊥) → Refusal e (failed (String.◌++◌ "update username: " e))

pub pointer_to-StoredName : (name : String) → StoredName name (pointer_to name)
pointer_to-StoredName name = elim (Bool-cases (str_eq name "")) [
  | inl empty ↦ rw empty (cleared ((eq_iff name "").0 empty))
  | inr full ↦ rw full (set (λ e. cc ((eq_iff name "").1 e, full)))
]

pub is_unique_violation-TellsUnique : (e : String) → is_unique_violation e ≡ true → TellsUnique e
unfolding is_unique_violation
is_unique_violation-TellsUnique e h = elim (Bool-cases (contains e "23505")) [
  | inl code ↦ inl (contains-Within e "23505" code)
  | inr absent ↦ inr (contains-Within e "unique" (rw absent at h))
]

pub is_unique_violation-not : (e : String) → is_unique_violation e ≡ false → TellsUnique e → ⊥
unfolding is_unique_violation
is_unique_violation-not e h (inl w) = let c = Within-contains e "23505" w in cc (rw c at h)
is_unique_violation-not e h (inr w) = let c = Within-contains e "unique" w in ground (arith, c, h)

pub refused-Refusal :
    (e : String)
    → Refusal e (
        if is_unique_violation e
        then username_taken
        else failed (String.◌++◌ "update username: " e))
refused-Refusal e = elim (Bool-cases (is_unique_violation e)) [
  | inl h ↦ rw h (taken (is_unique_violation-TellsUnique e h))
  | inr h ↦ rw h (other (is_unique_violation-not e h))
]

-- `UpdateUsername` of a stored user sends the name to the database, as NULL if it is empty. If the
-- database takes it, the result is the row as it is stored afterwards, which differs from the old
-- one in the name and the time of the update alone. If it answers with an error, the result is
-- `ErrUsernameTaken` when the text of that error holds "23505" or "unique", and an error with that
-- text behind "update username: " when not, and the database is as before.
pub update_username_cases :
    (db : Orm)
    → OrmLaws db
    → (id name : String) (st : db.State) (u : DbUser) → db.first_by_id id st ≡ good u
    → (column : Option String) × StoredName name column
      × (((t : ℕ) × (st' : db.State) × (db.set_username id column st ≡ (none, st'))
            × (update_username db id name st
                ≡ (done (record u { username = column; updated_at = t }), st'))
            × (db.first_by_id id st' ≡ good (record u { username = column; updated_at = t })))
          ⊎ ((e : String) × (why : DbError) × (db.set_username id column st ≡ (some e, st))
              × Refusal e why
              × (update_username db id name st ≡ (fail why, st))))
update_username_cases db laws id name st u h = (
  pointer_to name,
  pointer_to-StoredName name,
  elim (update_username_run db laws id name st u h) [
    | inl found ↦ inl found
    | inr (e, refused, answer) ↦ inr (e, _, refused, refused-Refusal e, answer)
  ],
)
