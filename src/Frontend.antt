-- ===== src/Frontend.antt =====
-- The web front end: web/src/api/auth.ts, web/src/auth and web/src/App.tsx.
pub mod Api
pub mod Session
pub mod Echo
