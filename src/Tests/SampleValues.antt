-- ===== src/Tests/SampleValues.antt =====
-- Values that the tests of the Go server share.
use sample_grpc_service.Prelude.{
  ℕ, ◌≡◌, refl, String, true, false, Option, some, none, List, [], ◌∷◌,
}
use sample_grpc_service.Auth.SessionResponse.{SessionResponse}
use sample_grpc_service.Auth.GoogleLoginRequest.{GoogleLoginRequest}
use sample_grpc_service.Backend.Jwk.{JwkKey}
use sample_grpc_service.Backend.Tokens.{GoogleClaims, issue_jwt}
use sample_grpc_service.Backend.Users.{DbUser, good}
use sample_grpc_service.Backend.Service.{Server, user_to_proto}
use sample_grpc_service.Tests.SampleLibrary.{sample_library, sample_secret, google_token}
use sample_grpc_service.Tests.SampleOrm.{sample_orm}

abbrev pub ann_token : String
ann_token = String.◌∷◌ "A" "id-42"

abbrev pub one_key : String → Option (List JwkKey)
one_key url =
    some (record { kid = "key-1"; kty = "RSA"; alg = "RS256"; n = "wBYf"; e = "AQAB" } ∷ [])

abbrev pub google_ann : GoogleClaims
google_ann = record { sub = "42"; email = "a@b.c"; display_name = "Ann"; picture = "" }

abbrev pub server : Server
server = record {
  jwt_secret = sample_secret;
  jwks_url = "https://keys";
  google_client_id = "client";
}

abbrev pub name_for : ℕ → String
name_for i = "BoldBear10"

abbrev pub row : DbUser
row = record {
  id = "id-42";
  google_sub = "42";
  email = "a@b.c";
  display_name = "Ann";
  picture_url = none;
  username = none;
  is_admin = false;
  created_at = 0;
  updated_at = 0;
}

abbrev pub named_row : DbUser
named_row = record row { username = some "BoldBear10"; updated_at = 1 }

unfoldable pub nobody : sample_orm.State
unfolding sample_orm
nobody = []

unfoldable pub created : sample_orm.State
unfolding sample_orm
created = row ∷ []

unfoldable pub table : sample_orm.State
unfolding sample_orm
table = named_row ∷ row ∷ []

abbrev pub login_request : GoogleLoginRequest
login_request = record { id_token = google_token }

unfoldable pub ann_session : SessionResponse
unfolding user_to_proto
ann_session = record { jwt = String.◌∷◌ "B" "id-42"; user = some (user_to_proto named_row) }

pub ann_issued : issue_jwt sample_library 0 "id-42" true sample_secret ≡ some ann_token
unfolding issue_jwt sample_library
ann_issued = refl

pub row_found : sample_orm.first_by_id "id-42" created ≡ good row
unfolding sample_orm created
row_found = refl
