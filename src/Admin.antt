-- ===== src/Admin.antt =====
-- modules/admin: account states and their audit trail.
pub mod Transitions
pub mod AccountStatus
