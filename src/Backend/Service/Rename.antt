-- ===== src/Backend/Service/Rename.antt =====
-- `UpdateProfile` of internal/auth/service.go, against the database's answer.
use sample_grpc_service.Prelude.{
  ℕ, ◌≡◌, ◌⊎◌, inl, inr, refl, ap, ◌∙◌, String, true, false, Option, none, some, str_eq, eq_iff,
  if◌then◌else◌, Bool-cases, arith,
}
use sample_grpc_service.Partial.{get_or}
use sample_grpc_service.Auth.UpdateProfileRequest.{UpdateProfileRequest}
use sample_grpc_service.Auth.User.{User}
use sample_grpc_service.Backend.Tokens.{Claims}
use sample_grpc_service.Backend.Interceptor.{
  Reply, reply, status, Code, invalid_argument, already_exists, internal, Context,
  claims_from_context,
}
use sample_grpc_service.Backend.Usernames.Pattern.{
  IsUsername, username_re-IsUsername, IsUsername-username_re,
}
use sample_grpc_service.Backend.Users.{DbUser, Orm, OrmLaws, good, pointer_to, is_unique_violation}
use sample_grpc_service.Backend.Users.Update.{
  StoredName, TellsUnique, pointer_to-StoredName, is_unique_violation-TellsUnique,
  is_unique_violation-not,
}
use sample_grpc_service.Backend.Service.{user_to_proto, update_profile}
use sample_grpc_service.Backend.Service.Profile.{is_allowed, pointer_back, update_profile_run}

-- The names that a player may ask for.
abbrev pub MayAsk : String → Type 0
MayAsk name = (name ≡ "") ⊎ IsUsername name

-- A user as it is shown, of a row that has the name.
pub record Shows (row : DbUser) (name : String) (shown : User) : Type 0 where
  pub id : shown.id ≡ row.id
  pub email : shown.email ≡ row.email
  pub display_name : shown.display_name ≡ row.display_name
  pub username : shown.username ≡ name
  pub picture_url : shown.picture_url ≡ get_or "" row.picture_url
  pub is_admin : shown.is_admin ≡ row.is_admin

-- The status for an error of the database with the text `e`.
pub data Answer (e : String) : Code → String → Type 0 where
  taken : TellsUnique e → Answer e already_exists "username is already taken"
  other : (TellsUnique e → ⊥) → Answer e internal "failed to update profile"

is_allowed-MayAsk : (name : String) → is_allowed name ≡ true → MayAsk name
is_allowed-MayAsk name h = elim (Bool-cases (str_eq name "")) [
  | inl empty ↦ inl ((eq_iff name "").0 empty)
  | inr full ↦ inr (username_re-IsUsername name (rw full at h))
]

refused_name : (name : String) → is_allowed name ≡ false → MayAsk name → ⊥
refused_name name h (inl empty) = let e = (eq_iff name "").1 empty in cc (rw e at h)
refused_name name h (inr fits) = let e = IsUsername-username_re name fits in ground (arith, e, h)

shown_row :
    (u : DbUser) (name : String) (t : ℕ)
    → Shows u name (user_to_proto (record u { username = pointer_to name; updated_at = t }))
unfolding user_to_proto
shown_row u name t = record {
  id = refl;
  email = refl;
  display_name = refl;
  username = pointer_back name;
  picture_url = refl;
  is_admin = refl;
}

answered :
    (A : Type 0) (e : String)
    → (k : Code) × (m : String) × Answer e k m
      × (◌≡◌ {A = Reply A}
          (if is_unique_violation e
            then status already_exists "username is already taken"
            else status internal "failed to update profile")
          (status k m))
answered A e = elim (Bool-cases (is_unique_violation e)) [
  | inl h ↦ (already_exists, _, taken (is_unique_violation-TellsUnique e h), rw h)
  | inr h ↦ (internal, _, other (is_unique_violation-not e h), rw h)
]

-- `UpdateProfile`, called by a stored user. A name that is neither empty nor 3 to 30 letters of
-- ASCII, digits and underscores is refused with `InvalidArgument`, and the database is as before.
-- Any other is sent to the database, as NULL if it is empty. If the database takes it, the reply
-- shows the row with that name, and the stored row differs from the old one in the name and the
-- time of the update alone. If it answers with an error, the status is `AlreadyExists` when the
-- text of that error holds "23505" or "unique" and `Internal` when not, and the database is as
-- before.
pub update_profile_cases :
    (db : Orm)
    → OrmLaws db
    → (ctx : Context) (req : UpdateProfileRequest) (st : db.State) (c : Claims) (u : DbUser)
    → claims_from_context ctx ≡ some c
    → db.first_by_id c.user_id st ≡ good u
    → ((MayAsk req.username → ⊥)
        × (update_profile db ctx req st ≡ (
          status invalid_argument
              "username must be 3–30 characters and contain only letters, numbers, and underscores",
          st,
        )))
      ⊎ (MayAsk req.username
          × ((column : Option String) × StoredName req.username column
              × (((t : ℕ) × (st' : db.State) × (shown : User) × (db.set_username c.user_id column st
                      ≡ (none, st'))
                    × (update_profile db ctx req st ≡ (reply shown, st'))
                    × Shows u req.username shown
                    × (db.first_by_id c.user_id st'
                        ≡ good (record u { username = column; updated_at = t })))
                  ⊎ ((e : String) × (k : Code) × (m : String) × (db.set_username c.user_id column st
                        ≡ (some e, st))
                      × Answer e k m
                      × (update_profile db ctx req st ≡ (status k m, st))))))
update_profile_cases db laws ctx req st c u is_caller here =
    elim (update_profile_run db laws ctx req st c u is_caller here) [
      | inl (bad_name, e) ↦ inl (refused_name req.username bad_name, e)
      | inr (fine, inl (t, st', set, e, now)) ↦ inr (
        is_allowed-MayAsk req.username fine,
        (
          pointer_to req.username,
          pointer_to-StoredName req.username,
          inl (t, st', _, set, e, shown_row u req.username t, now),
        ),
      )
      | inr (fine, inr (msg, set, e)) ↦
          let (k, m, answer, same) = answered User msg in
          inr (
            is_allowed-MayAsk req.username fine,
            (
              pointer_to req.username,
              pointer_to-StoredName req.username,
              inr (msg, k, m, set, answer, e ∙ ap (λ (r : Reply User). (r, st)) same),
            ),
          )
    ]
