-- ===== src/Tests/Server.antt =====
-- Tokens, the table of users and the sign-in at concrete values.
use sample_grpc_service.Prelude.{
  ◌∷◌, [], ◌%◌, ◌^◌, ℕ, ◌≤◌, ◌<◌, ◌≡◌, ◌⊎◌, refl, String, true, none, Option, some, List, str_eq,
  arith,
}
use sample_grpc_service.Auth.User.{User}
use sample_grpc_service.Auth.GetCurrentUserRequest.{GetCurrentUserRequest}
use sample_grpc_service.Backend.Jwk.{JwkKey, RsaKey, jwk_to_rsa}
use sample_grpc_service.Backend.Jwk.Alphabet.{codes, url_code}
use sample_grpc_service.Backend.Jwk.Decoding.{
  sextets_of, big_endian, IsUrlText, jwk_to_rsa-IsUrlText,
}
use sample_grpc_service.Backend.Tokens.{
  Method, Key, MapClaims, GoogleClaims, claim, find_key, audience_ok, issuer_ok, google_claims,
  issue_jwt, validate_jwt, verify_google_id_token,
}
use sample_grpc_service.Backend.Tokens.Session.{validate-issue}
use sample_grpc_service.Backend.Tokens.Google.{
  KeyFor, RsaOnly, FromGoogle, AddressedTo, ClaimsOf, verify_google_sound,
}
use sample_grpc_service.Backend.Interceptor.{reply, extract_claims, unary_auth_interceptor}
use sample_grpc_service.Backend.Interceptor.Bearer.{bearer_header, extract-issue}
use sample_grpc_service.Backend.Usernames.{adjectives, nouns, generate_username, size, username_re}
use sample_grpc_service.Backend.Usernames.Valid.{generate_username-valid}
use sample_grpc_service.Backend.Users.{
  DbUser, DbError, good, done, fail, upsert_user, update_username,
}
use sample_grpc_service.Backend.Users.Upsert.{
  IsSignedIn, profile_of, upsert_user_returns, upsert_user_sound,
}
use sample_grpc_service.Backend.Users.Update.{StoredName, Refusal, update_username_cases}
use sample_grpc_service.Backend.Service.{user_to_proto, login_with_google, get_current_user}
use sample_grpc_service.Backend.Service.Login.{login_sound, get_current_user-login}
use sample_grpc_service.Tests.SampleLibrary.{
  sample_library, sample_library_laws, sample_secret, google_token,
}
use sample_grpc_service.Tests.SampleOrm.{sample_orm, sample_orm_laws}
use sample_grpc_service.Tests.SampleValues.{
  ann_token, one_key, google_ann, server, name_for, row, named_row, nobody, created, table,
  login_request, ann_session, ann_issued, row_found,
}

validate-issue_example :
    validate_jwt sample_library 80000 ann_token sample_secret
    ≡ some (record { user_id = "id-42"; is_admin = true })
validate-issue_example =
    validate-issue sample_library sample_library_laws 0 80000 "id-42" sample_secret ann_token true
      ann_issued (omega arith)

extract-issue_example :
    extract_claims sample_library 80000 sample_secret (bearer_header ann_token)
    ≡ reply (record { user_id = "id-42"; is_admin = true })
extract-issue_example =
    extract-issue sample_library sample_library_laws 0 80000 "id-42" sample_secret ann_token true
      ann_issued (omega arith)

generate_username-valid_example :
    (s : String) × (generate_username 2 3 989 ≡ some s)
    × (8 ≤ size s)
    × (size s ≤ 21)
    × (username_re s ≡ true)
unfolding adjectives nouns
generate_username-valid_example =
    generate_username-valid 2 3 989 (omega arith) (omega arith) (omega arith)

google_verified :
    verify_google_id_token sample_library one_key 0 google_token server.jwks_url
      server.google_client_id
    ≡ some google_ann
unfolding verify_google_id_token sample_library find_key jwk_to_rsa claim audience_ok google_claims
    issuer_ok
google_verified = refl

verify_google_sound_example :
    (keys : List JwkKey) × (kid : String) × (key : RsaKey) × (by_method : Method → Option Key)
    × (mc : MapClaims) × (exp : ℕ) × (one_key server.jwks_url ≡ some keys)
    × (sample_library.header_kid google_token ≡ some kid)
    × KeyFor kid keys key
    × RsaOnly key by_method
    × (sample_library.parse by_method 0 google_token ≡ some mc)
    × (sample_library.expiry mc ≡ some exp)
    × (0 < exp)
    × FromGoogle mc
    × AddressedTo server.google_client_id mc
    × ClaimsOf mc google_ann
verify_google_sound_example =
    verify_google_sound sample_library sample_library_laws one_key 0 google_token server.jwks_url
      server.google_client_id google_ann google_verified

row-created :
    sample_orm.first_or_create (profile_of "42" "a@b.c" "Ann" "") nobody ≡ (good row, created)
unfolding sample_orm nobody created
row-created = refl

named_row_found : sample_orm.first_by_id "id-42" table ≡ good named_row
unfolding sample_orm table
named_row_found = refl

upsert_user_returns_example :
    (v : DbUser) × (st' : sample_orm.State) × (upsert_user sample_orm "42" "a@b.c" "Ann" "" name_for
        nobody
      ≡ (done v, st'))
    × (sample_orm.first_by_id "id-42" st' ≡ good v)
    × IsSignedIn sample_orm sample_orm_laws name_for row v
upsert_user_returns_example =
    upsert_user_returns sample_orm sample_orm_laws "42" "a@b.c" "Ann" "" name_for nobody created row
      row-created

row_named : upsert_user sample_orm "42" "a@b.c" "Ann" "" name_for nobody ≡ (done named_row, table)
unfolding upsert_user sample_orm nobody table
row_named = refl

upsert_user_sound_example :
    (named_row.google_sub ≡ "42") × (sample_orm.first_by_id "id-42" table ≡ good named_row)
upsert_user_sound_example =
    upsert_user_sound sample_orm sample_orm_laws "42" "a@b.c" "Ann" "" name_for nobody table
      named_row refl row_named

update_username_cases_example :
    (column : Option String) × StoredName "ann_1" column
    × (((t : ℕ) × (st' : sample_orm.State) × (sample_orm.set_username "id-42" column created
            ≡ (none, st'))
          × (update_username sample_orm "id-42" "ann_1" created
              ≡ (done (record row { username = column; updated_at = t }), st'))
          × (sample_orm.first_by_id "id-42" st'
              ≡ good (record row { username = column; updated_at = t })))
        ⊎ ((e : String) × (why : DbError) × (sample_orm.set_username "id-42" column created
              ≡ (some e, created))
            × Refusal e why
            × (update_username sample_orm "id-42" "ann_1" created ≡ (fail why, created))))
update_username_cases_example =
    update_username_cases sample_orm sample_orm_laws "id-42" "ann_1" created row row_found

-- Signing in with the token of the sample library.
ann_login :
    login_with_google sample_library one_key sample_orm server 0 name_for login_request nobody
    ≡ (reply ann_session, table)
unfolding login_with_google issue_jwt sample_library upsert_user sample_orm nobody table
    verify_google_id_token find_key claim audience_ok google_claims ann_session jwk_to_rsa issuer_ok
ann_login = refl

login_sound_example :
    (g : GoogleClaims) × (u : DbUser) × (verify_google_id_token sample_library one_key 0
        google_token server.jwks_url server.google_client_id
      ≡ some g)
    × ((str_eq g.sub "" ≡ true)
        ⊎ ((u.google_sub ≡ g.sub) × (sample_orm.first_by_id u.id table ≡ good u)))
    × (ann_session.user ≡ some (user_to_proto u))
    × (extract_claims sample_library 5 sample_secret (bearer_header ann_session.jwt)
        ≡ reply (record { user_id = u.id; is_admin = u.is_admin }))
login_sound_example =
    login_sound sample_library sample_library_laws one_key sample_orm sample_orm_laws server 0 5
      name_for login_request nobody table ann_session ann_login (omega arith)

get_current_user-login_example :
    (u : User) × (ann_session.user ≡ some u)
    × (unary_auth_interceptor sample_library 5 sample_secret
          (bearer_header ann_session.jwt)
          GetCurrentUserRequest.empty
          "/greeter.AuthService/GetCurrentUser"
          (get_current_user sample_orm table)
        ≡ reply u)
get_current_user-login_example =
    get_current_user-login sample_library sample_library_laws one_key sample_orm sample_orm_laws
      server 0 5 name_for login_request nobody table ann_session google_ann
      GetCurrentUserRequest.empty ann_login (omega arith) google_verified refl

-- The exponent 65537 as the key sets of Google have it.
abbrev a_jwk : JwkKey
a_jwk = record { kid = "key-1"; kty = "RSA"; alg = "RS256"; n = "-_8A"; e = "AQAB" }

n_text : IsUrlText a_jwk.n (251 ∷ 255 ∷ 0 ∷ [])
unfolding codes url_code sextets_of
n_text = refl

e_text : IsUrlText a_jwk.e (1 ∷ 0 ∷ 1 ∷ [])
unfolding codes url_code sextets_of
e_text = refl

jwk_to_rsa-IsUrlText_example :
    jwk_to_rsa a_jwk
    ≡ some
        (record { n = big_endian (251 ∷ 255 ∷ 0 ∷ []); e = big_endian (1 ∷ 0 ∷ 1 ∷ []) % 2 ^ 64 })
jwk_to_rsa-IsUrlText_example =
    jwk_to_rsa-IsUrlText (251 ∷ 255 ∷ 0 ∷ []) (1 ∷ 0 ∷ 1 ∷ []) a_jwk
      (omega arith, (omega arith, (omega arith, tt)))
      (omega arith, (omega arith, (omega arith, tt))) n_text e_text
