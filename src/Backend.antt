-- ===== src/Backend.antt =====
-- The Go server: internal/auth, internal/db and main.go.
pub mod Text
pub mod Jwk
pub mod Tokens
pub mod Interceptor
pub mod Usernames
pub mod Users
pub mod Service
pub mod Greeter
