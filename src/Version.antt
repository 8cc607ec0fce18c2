-- ===== src/Version.antt =====
-- eventversion.go: the room versions, by what each one prescribes.
pub mod Meta
pub mod Queries
pub mod Rules
use gomatrixserverlib.Prelude.{Bool, String}

pub data EventFormat : Type 0 where
  v1 v2 : EventFormat

pub data EventIdFormat : Type 0 where
  v1 v2 v3 : EventIdFormat

pub data StateResAlgorithm : Type 0 where
  v1 v2 : StateResAlgorithm

pub data RedactionAlgorithm : Type 0 where
  v1 v2 v3 v4 : RedactionAlgorithm

pub data JoinRulesPermittingKnockInEventAuth : Type 0 where
  knocks_forbidden knock_only knock_or_knock_restricted : JoinRulesPermittingKnockInEventAuth

pub data JoinRulesPermittingRestrictedJoinInEventAuth : Type 0 where
  no_restricted_joins restricted_only restricted_or_knock_restricted :
      JoinRulesPermittingRestrictedJoinInEventAuth

pub record RoomVersionDescription : Type 0 where
  pub supported : Bool
  pub stable : Bool
  pub state_res_algorithm : StateResAlgorithm
  pub event_format : EventFormat
  pub event_id_format : EventIdFormat
  pub redaction_algorithm : RedactionAlgorithm
  pub enforce_signature_checks : Bool
  pub enforce_canonical_json : Bool
  pub power_levels_include_notifications : Bool
  pub allow_knocking_in_event_auth : JoinRulesPermittingKnockInEventAuth
  pub allow_restricted_joins_in_event_auth : JoinRulesPermittingRestrictedJoinInEventAuth
  pub require_integer_power_levels : Bool

-- The join rules that the tests below name (eventauth.go).
abbrev pub knock : String
knock = "knock"

abbrev pub restricted : String
restricted = "restricted"

abbrev pub knock_restricted : String
knock_restricted = "knock_restricted"
