-- ===== src/Frontend/Api/Laws.antt =====
-- What the wrappers of web/src/api/auth.ts send, and when they throw an `AuthError`.
use sample_grpc_service.Prelude.{
  ◌≡◌, ◌≢◌, ◌↔◌, refl, String, Option, none, some, [], ◌∷◌, str_eq, eq_iff, arith, ◌==◌,
  if◌then◌else◌, inl, inr, Bool-cases,
}
use sample_grpc_service.Prelude.Outcome.{Outcome, ok, throw, auth_error}
use sample_grpc_service.Js.{Js, string_field, string_field_either}
use sample_grpc_service.Frontend.Api.{
  Headers, set_header, get_header, HttpResponse, is_ok, build_request, receive, login_body,
  profile_body,
}
use sample_grpc_service.Auth.GoogleLoginRequest
use sample_grpc_service.Auth.UpdateProfileRequest
use Prim.Native.String

pub get_header-set_header :
    (k j v : String) (hs : Headers)
    → get_header j (set_header k v hs) ≡ (if str_eq k j then some v else get_header j hs)
unfolding get_header set_header
get_header-set_header k j v [] = refl
get_header-set_header k j v ((i, u) ∷ hs) =
    ground (arith, eq_iff k j, eq_iff i k, eq_iff i j, get_header-set_header k j v hs)

-- The token that a session holds, if it is not the empty text.
abbrev pub bearer : Option String → Option String
bearer none = none
bearer (some jwt) = if str_eq jwt "" then none else some (String.◌++◌ "Bearer " jwt)

-- A request without headers of its own carries the JSON content type, and an Authorization header
-- of "Bearer " and the token exactly if there is a token that is not empty.
pub build_request-headers :
    (kong_base jwt : Option String) (path method : String) (body : Option Js)
    → (get_header "Content-Type"
          (build_request kong_base path
            (record { method = method; headers = none; body = body })
            jwt).headers
        ≡ some "application/json")
      × (get_header "Authorization"
            (build_request kong_base path
              (record { method = method; headers = none; body = body })
              jwt).headers
          ≡ bearer jwt)
unfolding build_request get_header set_header
build_request-headers kong_base none path method body = (refl, refl)
build_request-headers kong_base (some jwt) path method body = elim (Bool-cases (str_eq jwt "")) [
  | inl empty ↦ (rw empty, rw empty)
  | inr full ↦ (rw full, rw full)
]

-- A response makes `request` throw an `AuthError` with a text exactly if its status is 401 and
-- that is its body, provided that the parsing of a body throws no `AuthError`.
pub receive-auth_error {ℓ} :
    {T : Type ℓ} (parse : String → Outcome T) (res : HttpResponse) (m : String)
    → ((text m' : String) → parse text ≢ throw (auth_error m'))
    → (receive parse res ≡ throw (auth_error m)) ↔ ((res.status ≡ 401) × (res.text ≡ m))
unfolding receive
receive-auth_error parse res m h = elim (Bool-cases (res.status == 401)) [
  | inl is_401 ↦ rw is_401 (λ e. (ground arith, cc e), λ p. cc (p.1))
  | inr not_401 ↦ elim (Bool-cases (is_ok res)) [
    | inl good ↦ rw (not_401, good) (λ e. absurd (h res.text m e), λ p. ground arith)
    | inr bad ↦ rw (not_401, bad) (λ e. cc e, λ p. ground arith)
  ]
]

-- What the login sends is what the generated `GoogleLoginRequest` reads.
pub from_json-login_body :
    (id_token : String)
    → GoogleLoginRequest.from_json (login_body id_token) ≡ ok (record { id_token = id_token })
unfolding login_body GoogleLoginRequest.from_json string_field_either
from_json-login_body id_token = refl

pub from_json-profile_body :
    (username : String)
    → UpdateProfileRequest.from_json (profile_body username) ≡ ok (record { username = username })
unfolding profile_body UpdateProfileRequest.from_json string_field
from_json-profile_body username = refl
