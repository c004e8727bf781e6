-- ===== src/Backend/Service/Profile.antt =====
-- The handlers behind the interceptor: `UpdateProfile`, `GetCurrentUser` and `ListUsers`.
use sample_grpc_service.Prelude.{
  ℕ, ◌≡◌, refl, sym, ap, ◌∙◌, ◌⊎◌, inl, inr, String, Bool, true, false, not, ◌&&◌, ◌||◌, none, some,
  List, map, str_eq, eq_iff, if◌then◌else◌, Bool-cases,
}
use sample_grpc_service.Partial.{get_or}
use sample_grpc_service.Auth.UpdateProfileRequest.{UpdateProfileRequest}
use sample_grpc_service.Auth.GetCurrentUserRequest.{GetCurrentUserRequest}
use sample_grpc_service.Auth.ListUsersRequest.{ListUsersRequest}
use sample_grpc_service.Auth.ListUsersResponse.{ListUsersResponse}
use sample_grpc_service.Auth.User.{User}
use sample_grpc_service.Backend.Tokens.{Library, Claims}
use sample_grpc_service.Backend.Interceptor.{
  Reply, reply, status, invalid_argument, already_exists, internal, Context, claims_from_context,
  with_claims, extract_claims, is_listed, unary_auth_interceptor,
}
use sample_grpc_service.Backend.Interceptor.Access.{interceptor_cases}
use sample_grpc_service.Backend.Usernames.{username_re}
use sample_grpc_service.Backend.Users.{
  DbUser, Orm, OrmLaws, Found, good, bad, username_taken, failed, wrapped, pointer_to,
  is_unique_violation, update_username, list_users as stored_users,
}
use sample_grpc_service.Backend.Users.Upsert.{update_username_run, get-found}
use sample_grpc_service.Backend.Service.{
  user_to_proto, updated, update_failed, update_as, update_profile, found, current,
  get_current_user, all_users, list_users,
}
use Prim.Native.String

Found-cases {ℓ} :
    {A : Type ℓ} (o : Found A) → ((a : A) × (o ≡ good a)) ⊎ ((e : String) × (o ≡ bad e))
Found-cases (good a) = inl (a, refl)
Found-cases (bad e) = inr (e, refl)

-- The names that a player may ask for.
abbrev pub is_allowed : String → Bool
is_allowed name = str_eq name "" || username_re name

abbrev pub renamed : DbUser → String → ℕ → DbUser
renamed u name t = record u { username = pointer_to name; updated_at = t }

pub pointer_back : (s : String) → get_or "" (pointer_to s) ≡ s
pointer_back s = elim (Bool-cases (str_eq s "")) [
  | inl empty ↦ rw empty (sym ((eq_iff s "").0 empty))
  | inr full ↦ rw full
]

module _ (db : Orm) (laws : OrmLaws db) where
  guard_open : (a b : Bool) → (a || b) ≡ true → (not a && not b) ≡ false
  guard_open true b h = refl
  guard_open false true h = refl
  guard_open false false h = absurd (cc h)

  guard_shut : (a b : Bool) → (a || b) ≡ false → (not a && not b) ≡ true
  guard_shut true b h = absurd (cc h)
  guard_shut false true h = absurd (cc h)
  guard_shut false false h = refl

  update_allowed :
      (c : Claims) (req : UpdateProfileRequest) (st : db.State)
      → is_allowed req.username ≡ true
      → update_as db (some c) req st ≡ updated db (update_username db c.user_id req.username st)
  unfolding update_as
  update_allowed c req st h = rw (guard_open (str_eq req.username "") (username_re req.username) h)

  refused :
      (e : String) (st : db.State)
      → ◌≡◌ {A = Reply User × db.State}
          (
            update_failed db (
                if is_unique_violation e
                then username_taken
                else failed (String.◌++◌ "update username: " e)),
            st,
          )
          (
            if is_unique_violation e
                then status already_exists "username is already taken"
                else status internal "failed to update profile",
            st,
          )
  unfolding update_failed
  refused e st = elim (Bool-cases (is_unique_violation e)) [
    | inl taken ↦ rw taken
    | inr other ↦ rw other
  ]

  refused-reply :
      (b : Bool) (m m' : String) (st st' : db.State) (shown : User)
      → ◌≡◌ {A = Reply User × db.State}
          (if b then status already_exists m else status internal m', st)
          (reply shown, st')
      → ⊥
  refused-reply true m m' st st' shown h = cc h
  refused-reply false m m' st st' shown h = cc h

  pub update_profile_run :
      (ctx : Context) (req : UpdateProfileRequest) (st : db.State) (c : Claims) (u : DbUser)
      → claims_from_context ctx ≡ some c
      → db.first_by_id c.user_id st ≡ good u
      → ((is_allowed req.username ≡ false)
          × (update_profile db ctx req st ≡ (
            status invalid_argument
                "username must be 3–30 characters and contain only letters, numbers, and underscores",
            st,
          )))
        ⊎ ((is_allowed req.username ≡ true)
            × (((t : ℕ) × (st' : db.State) × (db.set_username c.user_id (pointer_to req.username) st
                    ≡ (none, st'))
                  × (update_profile db ctx req st
                      ≡ (reply (user_to_proto (renamed u req.username t)), st'))
                  × (db.first_by_id c.user_id st' ≡ good (renamed u req.username t)))
                ⊎ ((e : String) × (db.set_username c.user_id (pointer_to req.username) st
                      ≡ (some e, st))
                    × (update_profile db ctx req st ≡ (
                      if is_unique_violation e
                          then status already_exists "username is already taken"
                          else status internal "failed to update profile",
                      st,
                    )))))
  unfolding update_profile update_as updated update_failed
  update_profile_run ctx req st c u is_caller here = elim (Bool-cases (is_allowed req.username)) [
    | inl fine ↦ elim (update_username_run db laws c.user_id req.username st u here) [
      | inl (t, st', set, e, now) ↦
          inr
            (fine, inl (t, st', set, rw is_caller (rw (update_allowed c req st fine) (rw e)), now))
      | inr (msg, set, e) ↦ inr (
        fine,
        inr (msg, set, rw is_caller (rw (update_allowed c req st fine) (rw e (refused msg st)))),
      )
    ]
    | inr bad_name ↦ inl (
      bad_name,
      rw is_caller (rw (guard_shut (str_eq req.username "") (username_re req.username) bad_name)),
    )
  ]

  -- After `UpdateProfile` has answered a stored user, `GetCurrentUser` answers the same caller
  -- with the same profile, and it has the username that was asked for and the caller's id.
  pub get_current_user-update_profile :
      (ctx : Context) (req : UpdateProfileRequest) (st st' : db.State) (c : Claims) (u : DbUser)
      (shown : User) (me : GetCurrentUserRequest)
      → claims_from_context ctx ≡ some c
      → db.first_by_id c.user_id st ≡ good u
      → update_profile db ctx req st ≡ (reply shown, st')
      → (get_current_user db st' ctx me ≡ reply shown)
        × (shown.username ≡ req.username)
        × (shown.id ≡ u.id)
  unfolding get_current_user current found user_to_proto
  get_current_user-update_profile ctx req st st' c u shown me is_caller here h =
      elim (update_profile_run ctx req st c u is_caller here) [
        | inl (bad_name, e) ↦ absurd (cc (h, e))
        | inr (fine, inr (msg, set, e)) ↦
            absurd (refused-reply (is_unique_violation msg) _ _ st st' shown (sym e ∙ h))
        | inr (fine, inl (t, st'', set, e, now)) ↦
            let same : user_to_proto (renamed u req.username t) ≡ shown = cc (h, e) in
            let states : st'' ≡ st' = cc (h, e) in
            let there : db.first_by_id c.user_id st' ≡ good (renamed u req.username t) =
              cc (states, now) in
            (
              rw is_caller (rw (get-found db laws c.user_id st' _ there) (ap reply same)),
              ap (λ (x : User). x.username) (sym same) ∙ pointer_back req.username,
              ap (λ (x : User). x.id) (sym same),
            )
      ]

is_true : (b : Bool) → not b ≡ false → b ≡ true
is_true true h = refl
is_true false h = sym h

listed :
    (db : Orm) (st : db.State) (ctx : Context) (req : ListUsersRequest) (res : ListUsersResponse)
    → list_users db st ctx req ≡ reply res
    → (users : List DbUser) × (db.in_order st ≡ good users) × (res.users ≡ map user_to_proto users)
unfolding list_users all_users stored_users wrapped
listed db st ctx req res h = elim (Found-cases (db.in_order st)) [
  | inl (users, e) ↦
      let same : record { users = map user_to_proto users } ≡ res = cc (rw e at h) in
      (users, e, sym (ap (λ (x : ListUsersResponse). x.users) same))
  | inr (msg, e) ↦ absurd (cc (rw e at h))
]

-- If a call of `ListUsers` through the interceptor is answered with a list, the caller has a valid
-- token of an admin, and the list is the table in the order of the database.
pub list_users_admin :
    (l : Library) (now : ℕ) (jwt_secret : String) (db : Orm) (st : db.State) (ctx : Context)
    (req : ListUsersRequest) (res : ListUsersResponse)
    → unary_auth_interceptor l now jwt_secret ctx req "/greeter.AuthService/ListUsers"
        (list_users db st)
      ≡ reply res
    → (c : Claims) × (users : List DbUser) × (extract_claims l now jwt_secret ctx ≡ reply c)
      × (c.is_admin ≡ true)
      × (db.in_order st ≡ good users)
      × (res.users ≡ map user_to_proto users)
unfolding is_listed
list_users_admin l now jwt_secret db st ctx req res h =
    elim (interceptor_cases l now jwt_secret ctx req "/greeter.AuthService/ListUsers"
      (list_users db st) refl) [
        | inl (c, e, fine, ran) ↦
            let (users, ordered, same) = listed db st (with_claims ctx c) req res (sym ran ∙ h) in
            (c, users, e, is_true c.is_admin fine, ordered, same)
        | inr (inl (c, e, wanted, no_admin, ran)) ↦ absurd (cc (ran, h))
        | inr (inr (k, m, e, ran)) ↦ absurd (cc (ran, h))
      ]
