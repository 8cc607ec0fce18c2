-- ===== src/Auth.antt =====
-- eventauth.go: which events a room's state allows.
pub mod Provider
pub mod Context
pub mod Levels
pub mod Events
pub mod Membership
pub mod Allowed
pub mod Needed
