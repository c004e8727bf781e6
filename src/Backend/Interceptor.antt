-- ===== src/Backend/Interceptor.antt =====
-- internal/auth/interceptor.go, and the chain of main.go: who may call which method.
pub mod Access
pub mod Bearer
pub mod Granted
use sample_grpc_service.Prelude.{
  ℕ, String, Bool, true, false, not, ◌&&◌, ◌||◌, Option, none, some, List, [], ◌∷◌, str_eq,
  if◌then◌else◌,
}
use sample_grpc_service.Backend.Tokens.{Library, Claims, validate_jwt}
use sample_grpc_service.Backend.Text.{trim_prefix}

-- The status codes that the handlers use.
pub data Code : Type 0 where
  invalid_argument unauthenticated permission_denied not_found already_exists internal : Code

-- Go's `(value, error)` of a handler.
pub data Reply {ℓ} (A : Type ℓ) : Type ℓ where
  reply : A → Reply A
  status : Code → String → Reply A

infixl 5 ◌>>=◌
abbrev pub ◌>>=◌ {ℓ κ} : {A : Type ℓ} {B : Type κ} → Reply A → (A → Reply B) → Reply B
reply a >>= f = f a
status c m >>= f = status c m

-- What is read of a `context.Context`: the incoming metadata, keys in lower case, and the claims.
pub record Context : Type 0 where
  pub metadata : Option (List (String × List String))
  pub claims : Option Claims

-- `md.Get(k)`
unfoldable pub get_all : String → List (String × List String) → List String
get_all k [] = []
get_all k ((j, vs) ∷ md) = if str_eq j k then vs else get_all k md

-- `WithClaims` and `ClaimsFromContext`
unfoldable pub with_claims : Context → Claims → Context
with_claims ctx c = record ctx { claims = some c }

unfoldable pub claims_from_context : Context → Option Claims
claims_from_context ctx = ctx.claims

unfoldable pub is_listed : List String → String → Bool
is_listed [] m = false
is_listed (x ∷ xs) m = str_eq x m || is_listed xs m

abbrev pub public_rpcs : List String
public_rpcs =
    "/greeter.AuthService/LoginWithGoogle" ∷ "/greeter.Greeter/Echo"
    ∷ "/grpc.health.v1.Health/Check" ∷ "/grpc.health.v1.Health/Watch"
    ∷ "/grpc.reflection.v1.ServerReflection/ServerReflectionInfo"
    ∷ "/grpc.reflection.v1alpha.ServerReflection/ServerReflectionInfo" ∷ []

abbrev pub admin_rpcs : List String
admin_rpcs = "/greeter.AuthService/ListUsers" ∷ []

module _ (l : Library) (now : ℕ) (jwt_secret : String) where
  checked : Option Claims → Reply Claims
  checked none = status unauthenticated "invalid or expired token"
  checked (some c) = reply c

  from_header : List String → Reply Claims
  unfolding checked
  from_header [] = status unauthenticated "missing authorization header"
  from_header (v ∷ vs) =
      if str_eq (trim_prefix v "Bearer ") v
      then status unauthenticated "authorization must be Bearer <token>"
      else checked (validate_jwt l now (trim_prefix v "Bearer ") jwt_secret)

  from_metadata : Option (List (String × List String)) → Reply Claims
  unfolding from_header
  from_metadata none = status unauthenticated "missing metadata"
  from_metadata (some md) = from_header (get_all "authorization" md)

  unfoldable pub extract_claims : Context → Reply Claims
  unfolding from_metadata
  extract_claims ctx = from_metadata ctx.metadata

  unfoldable pub unary_auth_interceptor {ℓ κ} :
      {Req : Type ℓ} {A : Type κ} → Context → Req → String → (Context → Req → Reply A) → Reply A
  unary_auth_interceptor ctx req full_method handler =
      if is_listed public_rpcs full_method then handler ctx req else (do
        claims ← extract_claims ctx
        if is_listed admin_rpcs full_method && not claims.is_admin
            then status permission_denied "admin access required"
            else handler (with_claims ctx claims) req)
