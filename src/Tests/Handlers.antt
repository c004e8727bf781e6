-- ===== src/Tests/Handlers.antt =====
-- The calls of main.go at concrete values: authorization, the handlers and the chain.
use sample_grpc_service.Prelude.{
  ℕ, ◌≡◌, ◌⊎◌, refl, String, true, false, arith, Option, some, none, List, [], ◌∷◌, map,
}
use sample_grpc_service.Auth.UpdateProfileRequest.{UpdateProfileRequest}
use sample_grpc_service.Auth.GetCurrentUserRequest.{GetCurrentUserRequest}
use sample_grpc_service.Auth.ListUsersRequest.{ListUsersRequest}
use sample_grpc_service.Backend.Tokens.{Claims, claim, issue_jwt, validate_jwt}
use sample_grpc_service.Backend.Interceptor.{
  reply, status, Code, permission_denied, invalid_argument, Context, claims_from_context, is_listed,
  get_all, extract_claims, unary_auth_interceptor,
}
use sample_grpc_service.Backend.Interceptor.Access.{Admitted, interceptor_sound}
use sample_grpc_service.Backend.Interceptor.Granted.{Rpc, interceptor-issue}
use sample_grpc_service.Backend.Interceptor.Bearer.{bearer_header}
use sample_grpc_service.Backend.Usernames.{username_re}
use sample_grpc_service.Backend.Users.{
  DbUser, good, update_username, write_echo_request, list_users as stored_users,
}
use sample_grpc_service.Backend.Service.{
  user_to_proto, update_profile, get_current_user, list_users,
}
use sample_grpc_service.Backend.Service.Profile.{get_current_user-update_profile, list_users_admin}
use sample_grpc_service.Backend.Service.Rename.{MayAsk, Shows, Answer, update_profile_cases}
use sample_grpc_service.Backend.Users.Update.{StoredName}
use sample_grpc_service.Auth.User.{User}
use sample_grpc_service.Backend.Greeter.{Log, serve, echo}
use sample_grpc_service.Backend.Greeter.Chain.{serve-unary_auth_interceptor, serve-echo}
use sample_grpc_service.Tests.SampleLibrary.{sample_library, sample_library_laws, sample_secret}
use sample_grpc_service.Tests.SampleOrm.{sample_orm, sample_orm_laws}
use sample_grpc_service.Backend.Text.{trim_prefix}
use sample_grpc_service.Tests.SampleValues.{ann_token, row, nobody, created, row_found}

abbrev bob_token : String
bob_token = String.◌∷◌ "B" "id-7"

-- The callers: an admin, and one without a token.
abbrev as_admin : Context
as_admin = bearer_header ann_token

abbrev as_nobody : Context
as_nobody = record { metadata = some []; claims = none }

admin_accepted :
    unary_auth_interceptor sample_library 5 sample_secret as_admin ListUsersRequest.empty
      "/greeter.AuthService/ListUsers"
      (list_users sample_orm created)
    ≡ reply (record { users = user_to_proto row ∷ [] })
unfolding unary_auth_interceptor is_listed extract_claims get_all validate_jwt sample_library claim
    list_users sample_orm created trim_prefix stored_users
admin_accepted = refl

list_users_admin_example :
    (c : Claims) × (users : List DbUser) × (extract_claims sample_library 5 sample_secret as_admin
      ≡ reply c)
    × (c.is_admin ≡ true)
    × (sample_orm.in_order created ≡ good users)
    × (user_to_proto row ∷ [] ≡ map user_to_proto users)
list_users_admin_example =
    list_users_admin sample_library 5 sample_secret sample_orm created as_admin
      ListUsersRequest.empty (record { users = user_to_proto row ∷ [] }) admin_accepted

interceptor_sound_example :
    (ctx' : Context) × Admitted sample_library 5 sample_secret as_admin
      "/greeter.AuthService/ListUsers" ctx'
    × (list_users sample_orm created ctx' ListUsersRequest.empty
        ≡ reply (record { users = user_to_proto row ∷ [] }))
interceptor_sound_example =
    interceptor_sound sample_library 5 sample_secret as_admin ListUsersRequest.empty
      "/greeter.AuthService/ListUsers" (list_users sample_orm created)
      (record { users = user_to_proto row ∷ [] }) admin_accepted

-- A token for a user who is no admin, at the method for admins.
bob_issued : issue_jwt sample_library 0 "id-7" false sample_secret ≡ some bob_token
unfolding issue_jwt sample_library
bob_issued = refl

interceptor-issue_example :
    unary_auth_interceptor sample_library 80000 sample_secret
      (bearer_header bob_token)
      ListUsersRequest.empty
      "/greeter.AuthService/ListUsers"
      (list_users sample_orm created)
    ≡ status permission_denied "admin access required"
interceptor-issue_example =
    interceptor-issue sample_library sample_library_laws Rpc.list_users 0 80000 "id-7" sample_secret
      bob_token false ListUsersRequest.empty (list_users sample_orm created) bob_issued
      (omega arith)

-- The user of the row asks for a name.
abbrev as_row : Context
as_row = record { metadata = none; claims = some (record { user_id = "id-42"; is_admin = false }) }

abbrev ask_name : UpdateProfileRequest
ask_name = record { username = "ann_1" }

has_claims : claims_from_context as_row ≡ some (record { user_id = "id-42"; is_admin = false })
unfolding claims_from_context
has_claims = refl

abbrev after_rename : sample_orm.State
unfolding sample_orm
after_rename = record row { username = some "ann_1"; updated_at = 1 } ∷ row ∷ []

row_renamed :
    update_profile sample_orm as_row ask_name created
    ≡ (reply (record (user_to_proto row) { username = "ann_1" }), after_rename)
unfolding update_profile user_to_proto claims_from_context username_re update_username sample_orm
    created after_rename
row_renamed = refl

get_current_user-update_profile_example :
    (get_current_user sample_orm after_rename as_row GetCurrentUserRequest.empty
      ≡ reply (record (user_to_proto row) { username = "ann_1" }))
    × ("ann_1" ≡ ask_name.username)
    × ((user_to_proto row).id ≡ row.id)
get_current_user-update_profile_example =
    get_current_user-update_profile sample_orm sample_orm_laws as_row ask_name created after_rename
      (record { user_id = "id-42"; is_admin = false }) row
      (record (user_to_proto row) { username = "ann_1" }) GetCurrentUserRequest.empty has_claims
      row_found row_renamed

update_profile_cases_example :
    ((MayAsk ask_name.username → ⊥)
      × (update_profile sample_orm as_row ask_name created ≡ (
        status invalid_argument
            "username must be 3–30 characters and contain only letters, numbers, and underscores",
        created,
      )))
    ⊎ (MayAsk ask_name.username
        × ((column : Option String) × StoredName ask_name.username column
            × (((t : ℕ) × (st' : sample_orm.State) × (shown : User) × (sample_orm.set_username
                      "id-42" column created
                    ≡ (none, st'))
                  × (update_profile sample_orm as_row ask_name created ≡ (reply shown, st'))
                  × Shows row ask_name.username shown
                  × (sample_orm.first_by_id "id-42" st'
                      ≡ good (record row { username = column; updated_at = t })))
                ⊎ ((e : String) × (k : Code) × (m : String) × (sample_orm.set_username "id-42"
                        column created
                      ≡ (some e, created))
                    × Answer e k m
                    × (update_profile sample_orm as_row ask_name created
                        ≡ (status k m, created))))))
update_profile_cases_example =
    update_profile_cases sample_orm sample_orm_laws as_row ask_name created
      (record { user_id = "id-42"; is_admin = false }) row has_claims row_found

-- The chain of main.go.
serve-unary_auth_interceptor_example :
    serve sample_library 5 sample_secret as_nobody GetCurrentUserRequest.empty
      "/greeter.AuthService/GetCurrentUser"
      (get_current_user sample_orm created)
    ≡ unary_auth_interceptor sample_library 5 sample_secret as_nobody GetCurrentUserRequest.empty
        "/greeter.AuthService/GetCurrentUser"
        (get_current_user sample_orm created)
serve-unary_auth_interceptor_example =
    serve-unary_auth_interceptor sample_library 5 sample_secret as_nobody
      GetCurrentUserRequest.empty "/greeter.AuthService/GetCurrentUser"
      (get_current_user sample_orm created)

serve-echo_example :
    (log : Log) × (serve sample_library 5 sample_secret as_nobody
        (record { message = "hi" })
        "/greeter.Greeter/Echo"
        (λ c r. reply (echo sample_orm nobody r))
      ≡ reply (record { message = "hi" }, log, (write_echo_request sample_orm "hi" nobody).1))
serve-echo_example =
    serve-echo sample_library 5 sample_secret sample_orm nobody as_nobody
      (record { message = "hi" })
