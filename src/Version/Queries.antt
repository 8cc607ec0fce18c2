-- ===== src/Version/Queries.antt =====
-- The functions of eventversion.go that look a room version up in the table.
use gomatrixserverlib.Prelude.{
  Option, Bool, true, false, ◌&&◌, ◌||◌, none, some, [], ◌∷◌, String, ◌==◌, if◌then◌else◌, Assoc,
  lookup,
}
use gomatrixserverlib.Result.{Result, ok, err, unsupported_room_version, ◌>>=◌}
use gomatrixserverlib.Version.{
  RoomVersionDescription, EventFormat, EventIdFormat, StateResAlgorithm, RedactionAlgorithm,
  JoinRulesPermittingKnockInEventAuth, JoinRulesPermittingRestrictedJoinInEventAuth,
  knocks_forbidden, knock_only, knock_or_knock_restricted, no_restricted_joins, restricted_only,
  restricted_or_knock_restricted, knock, restricted, knock_restricted,
}
use gomatrixserverlib.Version.Meta.{room_version_meta}

-- `r, ok := roomVersionMeta[v]`, and the error where the version is not in the table
abbrev pub described : String → Option RoomVersionDescription → Result RoomVersionDescription
described v (some r) = ok r
described v none = err (unsupported_room_version v)

unfoldable pub describe : String → Result RoomVersionDescription
unfolding lookup room_version_meta
describe v = described v (lookup v room_version_meta)

unfoldable pub state_res_algorithm : String → Result StateResAlgorithm
state_res_algorithm v = do r ← describe v; ok r.state_res_algorithm

unfoldable pub event_format : String → Result EventFormat
event_format v = do r ← describe v; ok r.event_format

unfoldable pub event_id_format : String → Result EventIdFormat
event_id_format v = do r ← describe v; ok r.event_id_format

unfoldable pub redaction_algorithm : String → Result RedactionAlgorithm
redaction_algorithm v = do r ← describe v; ok r.redaction_algorithm

unfoldable pub strict_validity_checking : String → Result Bool
strict_validity_checking v = do r ← describe v; ok r.enforce_signature_checks

unfoldable pub power_levels_include_notifications : String → Result Bool
power_levels_include_notifications v = do r ← describe v; ok r.power_levels_include_notifications

-- The `switch` of AllowKnockingInEventAuth.
abbrev pub knock_permitted : JoinRulesPermittingKnockInEventAuth → String → Bool
knock_permitted knock_only join_rule = join_rule == knock
knock_permitted knock_or_knock_restricted join_rule =
    join_rule == knock || join_rule == knock_restricted
knock_permitted knocks_forbidden join_rule = false

unfoldable pub allow_knocking_in_event_auth : String → String → Result Bool
allow_knocking_in_event_auth v join_rule = do
  r ← describe v
  ok (knock_permitted r.allow_knocking_in_event_auth join_rule)

-- The `switch` of AllowRestrictedJoinsInEventAuth.
abbrev pub restricted_join_permitted : JoinRulesPermittingRestrictedJoinInEventAuth → String → Bool
restricted_join_permitted no_restricted_joins join_rule = false
restricted_join_permitted restricted_only join_rule = join_rule == restricted
restricted_join_permitted restricted_or_knock_restricted join_rule =
    join_rule == restricted || join_rule == knock_restricted

unfoldable pub allow_restricted_joins_in_event_auth : String → String → Result Bool
allow_restricted_joins_in_event_auth v join_rule = do
  r ← describe v
  ok (restricted_join_permitted r.allow_restricted_joins_in_event_auth join_rule)

abbrev some_restricted_join : JoinRulesPermittingRestrictedJoinInEventAuth → Bool
some_restricted_join no_restricted_joins = false
some_restricted_join _ = true

unfoldable pub may_allow_restricted_joins_in_event_auth : String → Result Bool
may_allow_restricted_joins_in_event_auth v = do
  r ← describe v
  ok (some_restricted_join r.allow_restricted_joins_in_event_auth)

unfoldable pub enforce_canonical_json : String → Result Bool
enforce_canonical_json v = do r ← describe v; ok r.enforce_canonical_json

unfoldable pub require_integer_power_levels : String → Result Bool
require_integer_power_levels v = do r ← describe v; ok r.require_integer_power_levels

-- SupportedRoomVersions and StableRoomVersions: the entries of the table that pass the test.
module _ (test : RoomVersionDescription → Bool) where
  versions_where : Assoc RoomVersionDescription → Assoc RoomVersionDescription
  versions_where [] = []
  versions_where ((v, r) ∷ m) =
      let rest = versions_where m in if test r then (v, r) ∷ rest else rest

unfoldable pub supported_room_versions : Assoc RoomVersionDescription
unfolding versions_where room_version_meta
supported_room_versions = versions_where (λ r. r.supported) room_version_meta

unfoldable pub stable_room_versions : Assoc RoomVersionDescription
unfolding versions_where room_version_meta
stable_room_versions = versions_where (λ r. r.supported && r.stable) room_version_meta
