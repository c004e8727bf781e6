-- ===== src/Frontend/Session/Liveness.antt =====
-- The check of a cached token in web/src/auth/AuthContext.tsx: it can always be answered, and the
-- page is never busy after.
use sample_grpc_service.Prelude.Outcome.{Outcome}
use sample_grpc_service.Auth.User.{User}
