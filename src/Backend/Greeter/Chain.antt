-- ===== src/Backend/Greeter/Chain.antt =====
-- The chain of interceptors of main.go, and the echo behind it.
use sample_grpc_service.Prelude.{ℕ, ◌≡◌, refl, String}
use sample_grpc_service.Greeter.EchoRequest.{EchoRequest}
use sample_grpc_service.Backend.Tokens.{Library}
use sample_grpc_service.Backend.Interceptor.{
  Reply, reply, status, Context, is_listed, unary_auth_interceptor,
}
use sample_grpc_service.Backend.Users.{Orm, write_echo_request}
use sample_grpc_service.Backend.Greeter.{Log, logged, logging_interceptor, returned, serve, echo}

logged_same {ℓ} : {A : Type ℓ} (r : Reply A) → (logged r).0 ≡ r
unfolding logged
logged_same (reply a) = refl
logged_same (status c m) = refl

module _ {ℓ κ} {Req : Type ℓ} {A : Type κ} where
  returned_same :
      (ctx : Context) (req : Req) (handler : Context → Req → Reply A)
      → returned ctx req handler ≡ handler ctx req
  unfolding returned logging_interceptor
  returned_same ctx req handler = logged_same (handler ctx req)

  -- The chain of interceptors answers each call as the authorization alone does: logging changes
  -- no answer, an error included.
  pub serve-unary_auth_interceptor :
      (l : Library) (now : ℕ) (jwt_secret : String) (ctx : Context) (req : Req)
      (full_method : String) (handler : Context → Req → Reply A)
      → serve l now jwt_secret ctx req full_method handler
        ≡ unary_auth_interceptor l now jwt_secret ctx req full_method handler
  unfolding serve
  serve-unary_auth_interceptor l now jwt_secret ctx req full_method handler = λ i.
      unary_auth_interceptor l now jwt_secret ctx req full_method
        (λ c r. returned_same c r handler i)

-- Whatever its metadata, a call of `Echo` passes the chain and is answered with its own message,
-- whether or not the database takes it; the database is as the write leaves it.
pub serve-echo :
    (l : Library) (now : ℕ) (jwt_secret : String) (db : Orm) (st : db.State) (ctx : Context)
    (req : EchoRequest)
    → (log : Log) × (serve l now jwt_secret ctx req "/greeter.Greeter/Echo"
          (λ c r. reply (echo db st r))
        ≡ reply (record { message = req.message }, log, (write_echo_request db req.message st).1))
unfolding serve echo unary_auth_interceptor is_listed returned logging_interceptor logged
serve-echo l now jwt_secret db st ctx req = (_, refl)
