-- ===== src/Content.antt =====
-- eventcontent.go: the contents of the events that authorisation reads.
pub mod Create
pub mod Member
pub mod JoinRules
pub mod PowerLevels
pub mod ThirdPartyInvite
pub mod History
pub mod Accessors
