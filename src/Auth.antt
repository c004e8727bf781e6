-- ===== src/Auth.antt =====
-- The messages of web/src/generated/auth.ts.
pub mod GoogleLoginRequest
pub mod User
pub mod SessionResponse
pub mod UpdateProfileRequest
pub mod GetCurrentUserRequest
pub mod ListUsersRequest
pub mod ListUsersResponse
