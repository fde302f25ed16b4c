-- ===== src/Auth.antt =====
-- src/auth: logins, refresh tokens and access tokens. The tokens are in Auth/Tokens, the operations
-- of auth.service.ts in Auth/Service, the proofs in the other children.
pub mod Tokens
pub mod Responses
pub mod Service
pub mod Issue
pub mod Checks
pub mod Refreshed
pub mod Rotation
pub mod Interleaving
pub mod Revocation
pub mod Login
pub mod Cleanup
