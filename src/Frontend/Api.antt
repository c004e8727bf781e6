-- ===== src/Frontend/Api.antt =====
-- web/src/api/auth.ts: the fetch wrappers of the AuthService endpoints. `fetch` is an input: what is
-- sent is a value, and so is the response. A parsed body is trusted at its declared type, as the
-- casts of the source trust it: `parse` stands for `res.json()`.
pub mod Laws
use sample_grpc_service.Prelude.{
  ℕ, ◌≤◌, String, Bool, true, false, ◌&&◌, not, Option, none, some, List, [], ◌∷◌, str_eq, leb,
  ◌==◌, if◌then◌else◌,
}
use sample_grpc_service.Prelude.Outcome.{Outcome, ok, throw, auth_error, error, ◌>>=◌}
use sample_grpc_service.Js.{Js, obj, str, Props, end, prop, set_prop}
use sample_grpc_service.Partial.{get_or}
use sample_grpc_service.Decimal.{decimal}
use sample_grpc_service.Auth.User.{User}
use Prim.Native.String

abbrev pub Headers : Type 0
Headers = List (String × String)

-- `headers[k] = v`
unfoldable pub set_header : String → String → Headers → Headers
set_header k v [] = (k, v) ∷ []
set_header k v ((j, u) ∷ hs) = if str_eq j k then (j, v) ∷ hs else (j, u) ∷ set_header k v hs

unfoldable pub get_header : String → Headers → Option String
get_header k [] = none
get_header k ((j, u) ∷ hs) = if str_eq j k then some u else get_header k hs

-- `{ ...base, ...more }`
unfoldable pub spread : Headers → Headers → Headers
unfolding set_header
spread base [] = base
spread base ((k, v) ∷ more) = spread (set_header k v base) more

pub record RequestInit : Type 0 where
  pub method : String
  pub headers : Option Headers
  pub body : Option Js

pub record HttpRequest : Type 0 where
  pub url : String
  pub method : String
  pub headers : Headers
  pub body : Option Js

pub record HttpResponse : Type 0 where
  pub status : ℕ
  pub text : String

abbrev pub is_ok : HttpResponse → Bool
is_ok res = leb 200 res.status && leb res.status 299

-- `VITE_KONG_BASE ?? ''`
unfoldable pub api_base : Option String → String
api_base kong_base = String.◌++◌ (get_or "" kong_base) "/greeter/api"

-- `if (jwt) { headers['Authorization'] = … }`
unfoldable pub authorize : Option String → Headers → Headers
unfolding set_header
authorize none hs = hs
authorize (some jwt) hs =
    if str_eq jwt "" then hs else set_header "Authorization" (String.◌++◌ "Bearer " jwt) hs

-- The first half of `request`: what is handed to `fetch`.
unfoldable pub build_request : Option String → String → RequestInit → Option String → HttpRequest
unfolding api_base authorize spread
build_request kong_base path init jwt = record {
  url = String.◌++◌ (api_base kong_base) path;
  method = init.method;
  headers =
      authorize jwt (spread (("Content-Type", "application/json") ∷ []) (get_or [] init.headers));
  body = init.body;
}

-- The second half: what is made of the response.
unfoldable pub receive {ℓ} : {T : Type ℓ} → (String → Outcome T) → HttpResponse → Outcome T
unfolding decimal
receive parse res =
    if res.status == 401
    then throw (auth_error res.text)
    else if not (is_ok res)
    then throw (error (String.◌++◌ (decimal res.status) (String.◌++◌ ": " res.text)))
    else parse res.text

-- `await fetch(…)`, which itself may reject, and what follows.
unfoldable pub request {ℓ} :
    {T : Type ℓ}
    → (String → Outcome T)
    → (HttpRequest → Outcome HttpResponse)
    → Option String
    → String
    → RequestInit
    → Option String
    → Outcome T
unfolding build_request receive
request parse fetch kong_base path init jwt = do
  res ← fetch (build_request kong_base path init jwt)
  receive parse res

pub record SessionResponseJson : Type 0 where
  pub jwt : String
  pub user : User

unfoldable pub login_body : String → Js
unfolding set_prop
login_body id_token = obj (set_prop "id_token" (str id_token) end)

unfoldable pub profile_body : String → Js
unfolding set_prop
profile_body username = obj (set_prop "username" (str username) end)

module _ (fetch : HttpRequest → Outcome HttpResponse) (kong_base : Option String) where
  unfoldable pub login_with_google :
      (String → Outcome SessionResponseJson) → String → Outcome SessionResponseJson
  unfolding request login_body
  login_with_google parse id_token =
      request parse fetch kong_base "/auth/login"
        (record { method = "POST"; headers = none; body = some (login_body id_token) }) none

  unfoldable pub get_current_user : (String → Outcome User) → String → Outcome User
  unfolding request
  get_current_user parse jwt =
      request parse fetch kong_base "/auth/me"
        (record { method = "GET"; headers = none; body = none }) (some jwt)

  unfoldable pub update_profile : (String → Outcome User) → String → String → Outcome User
  unfolding request profile_body
  update_profile parse jwt username =
      request parse fetch kong_base "/auth/me"
        (record { method = "POST"; headers = none; body = some (profile_body username) }) (some jwt)
