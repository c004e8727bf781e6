-- ===== src/Backend/Greeter.antt =====
-- main.go: the handler of Greeter, and the interceptors that all calls pass. What is logged is a
-- list of levels and messages; the attributes of a line are left out.
pub mod Chain
use sample_grpc_service.Prelude.{
  ℕ, String, Bool, true, false, Option, none, some, List, [], ◌∷◌, ◌++◌, str_eq, if◌then◌else◌,
}
use sample_grpc_service.Greeter.EchoRequest.{EchoRequest}
use sample_grpc_service.Greeter.EchoReply.{EchoReply}
use sample_grpc_service.Backend.Tokens.{Library}
use sample_grpc_service.Backend.Interceptor.{
  Reply, reply, status, Code, invalid_argument, unauthenticated, permission_denied, not_found,
  already_exists, internal, Context, unary_auth_interceptor,
}
use sample_grpc_service.Backend.Users.{Orm, write_echo_request}

pub data Level : Type 0 where
  info warn error : Level

abbrev pub Log : Type 0
Log = List (Level × String)

warn_if_empty : String → Log
warn_if_empty message =
    if str_eq message "" then (warn, "Echo called with empty message") ∷ [] else []

log_failure : Option String → Log
log_failure none = []
log_failure (some e) = (error, "failed to write echo request to db") ∷ []

module _ (db : Orm) where
  -- `server.Echo`: the reply, what is logged, and the database after it.
  unfoldable pub echo : db.State → EchoRequest → EchoReply × Log × db.State
  unfolding warn_if_empty log_failure write_echo_request
  echo st req = (
    record { message = req.message },
    warn_if_empty req.message ++ log_failure ((write_echo_request db req.message st).0),
    (write_echo_request db req.message st).1,
  )

-- The level of the line for a status, and the line.
failure_line : Code → Level × String
failure_line internal = (error, "request failed")
failure_line _ = (warn, "request completed with non-OK status")

logged {ℓ} : {A : Type ℓ} → Reply A → Reply A × Log
unfolding failure_line
logged (reply a) = (reply a, (info, "request received") ∷ (info, "request completed") ∷ [])
logged (status c m) = (status c m, (info, "request received") ∷ failure_line c ∷ [])

module _ {ℓ κ} {Req : Type ℓ} {A : Type κ} where
  -- `loggingInterceptor`: what it returns, and the lines that it logs around those of the handler.
  unfoldable pub logging_interceptor : Context → Req → (Context → Req → Reply A) → Reply A × Log
  unfolding logged
  logging_interceptor ctx req handler = logged (handler ctx req)

  returned : Context → Req → (Context → Req → Reply A) → Reply A
  unfolding logging_interceptor
  returned ctx req handler = (logging_interceptor ctx req handler).0

  -- The chain of `grpc.ChainUnaryInterceptor`: what the caller of a method gets.
  unfoldable pub serve :
      Library → ℕ → String → Context → Req → String → (Context → Req → Reply A) → Reply A
  unfolding returned
  serve l now jwt_secret ctx req full_method handler =
      unary_auth_interceptor l now jwt_secret ctx req full_method
        (λ ctx' req'. returned ctx' req' handler)
