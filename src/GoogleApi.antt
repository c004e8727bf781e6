-- ===== src/GoogleApi.antt =====
-- The messages of web/src/generated/google/api/http.ts.
pub mod CustomHttpPattern
pub mod HttpRule
pub mod Http
