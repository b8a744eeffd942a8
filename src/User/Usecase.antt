-- ===== src/User/Usecase.antt =====
-- internal/user/usecase/user_usecase.go over any `UserRepository`. What the methods take from
-- outside is a parameter: bcrypt, SHA-256, the signer of access tokens, the OIDC verifiers, and, for
-- each call, the time and the identifiers that it draws. The lines that only log are left out.
pub mod Accounts
pub mod Sessions
pub mod Issue
pub mod Access
pub mod Rotation
pub mod Logins
