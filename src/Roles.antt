-- ===== src/Roles.antt =====
-- src/roles/roles.service.ts: the roles of a tenant and the permissions that they grant. The checks
-- and the operations are in the first two modules, the proofs in the others.
pub mod Checks
pub mod Service
pub mod Frame
pub mod Escalation
pub mod Bindings
pub mod SetPermissions
pub mod Matrix
pub mod Definitions
