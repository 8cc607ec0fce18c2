-- ===== src/Version/Meta.antt =====
-- The table `roomVersionMeta` of eventversion.go.
use gomatrixserverlib.Prelude.{true, false, [], ◌∷◌, Assoc}
use gomatrixserverlib.Version.{
  RoomVersionDescription, EventFormat, EventIdFormat, StateResAlgorithm, RedactionAlgorithm,
  knocks_forbidden, knock_only, knock_or_knock_restricted, no_restricted_joins, restricted_only,
  restricted_or_knock_restricted,
}

abbrev room_version_v1 : RoomVersionDescription
room_version_v1 = record {
  supported = true;
  stable = true;
  state_res_algorithm = StateResAlgorithm.v1;
  event_format = EventFormat.v1;
  event_id_format = EventIdFormat.v1;
  redaction_algorithm = RedactionAlgorithm.v1;
  enforce_signature_checks = false;
  enforce_canonical_json = false;
  power_levels_include_notifications = false;
  allow_knocking_in_event_auth = knocks_forbidden;
  allow_restricted_joins_in_event_auth = no_restricted_joins;
  require_integer_power_levels = false;
}

abbrev room_version_v2 : RoomVersionDescription
room_version_v2 = record {
  supported = true;
  stable = true;
  state_res_algorithm = StateResAlgorithm.v2;
  event_format = EventFormat.v1;
  event_id_format = EventIdFormat.v1;
  redaction_algorithm = RedactionAlgorithm.v1;
  enforce_signature_checks = false;
  enforce_canonical_json = false;
  power_levels_include_notifications = false;
  allow_knocking_in_event_auth = knocks_forbidden;
  allow_restricted_joins_in_event_auth = no_restricted_joins;
  require_integer_power_levels = false;
}

abbrev room_version_v3 : RoomVersionDescription
room_version_v3 = record {
  supported = true;
  stable = true;
  state_res_algorithm = StateResAlgorithm.v2;
  event_format = EventFormat.v2;
  event_id_format = EventIdFormat.v2;
  redaction_algorithm = RedactionAlgorithm.v1;
  enforce_signature_checks = false;
  enforce_canonical_json = false;
  power_levels_include_notifications = false;
  allow_knocking_in_event_auth = knocks_forbidden;
  allow_restricted_joins_in_event_auth = no_restricted_joins;
  require_integer_power_levels = false;
}

abbrev room_version_v4 : RoomVersionDescription
room_version_v4 = record {
  supported = true;
  stable = true;
  state_res_algorithm = StateResAlgorithm.v2;
  event_format = EventFormat.v2;
  event_id_format = EventIdFormat.v3;
  redaction_algorithm = RedactionAlgorithm.v1;
  enforce_signature_checks = false;
  enforce_canonical_json = false;
  power_levels_include_notifications = false;
  allow_knocking_in_event_auth = knocks_forbidden;
  allow_restricted_joins_in_event_auth = no_restricted_joins;
  require_integer_power_levels = false;
}

abbrev room_version_v5 : RoomVersionDescription
room_version_v5 = record {
  supported = true;
  stable = true;
  state_res_algorithm = StateResAlgorithm.v2;
  event_format = EventFormat.v2;
  event_id_format = EventIdFormat.v3;
  redaction_algorithm = RedactionAlgorithm.v1;
  enforce_signature_checks = true;
  enforce_canonical_json = false;
  power_levels_include_notifications = false;
  allow_knocking_in_event_auth = knocks_forbidden;
  allow_restricted_joins_in_event_auth = no_restricted_joins;
  require_integer_power_levels = false;
}

abbrev room_version_v6 : RoomVersionDescription
room_version_v6 = record {
  supported = true;
  stable = true;
  state_res_algorithm = StateResAlgorithm.v2;
  event_format = EventFormat.v2;
  event_id_format = EventIdFormat.v3;
  redaction_algorithm = RedactionAlgorithm.v2;
  enforce_signature_checks = true;
  enforce_canonical_json = true;
  power_levels_include_notifications = true;
  allow_knocking_in_event_auth = knocks_forbidden;
  allow_restricted_joins_in_event_auth = no_restricted_joins;
  require_integer_power_levels = false;
}

abbrev room_version_v7 : RoomVersionDescription
room_version_v7 = record {
  supported = true;
  stable = true;
  state_res_algorithm = StateResAlgorithm.v2;
  event_format = EventFormat.v2;
  event_id_format = EventIdFormat.v3;
  redaction_algorithm = RedactionAlgorithm.v2;
  enforce_signature_checks = true;
  enforce_canonical_json = true;
  power_levels_include_notifications = true;
  allow_knocking_in_event_auth = knock_only;
  allow_restricted_joins_in_event_auth = no_restricted_joins;
  require_integer_power_levels = false;
}

abbrev room_version_v8 : RoomVersionDescription
room_version_v8 = record {
  supported = true;
  stable = true;
  state_res_algorithm = StateResAlgorithm.v2;
  event_format = EventFormat.v2;
  event_id_format = EventIdFormat.v3;
  redaction_algorithm = RedactionAlgorithm.v3;
  enforce_signature_checks = true;
  enforce_canonical_json = true;
  power_levels_include_notifications = true;
  allow_knocking_in_event_auth = knocks_forbidden;
  allow_restricted_joins_in_event_auth = restricted_only;
  require_integer_power_levels = false;
}

abbrev room_version_v9 : RoomVersionDescription
room_version_v9 = record {
  supported = true;
  stable = true;
  state_res_algorithm = StateResAlgorithm.v2;
  event_format = EventFormat.v2;
  event_id_format = EventIdFormat.v3;
  redaction_algorithm = RedactionAlgorithm.v4;
  enforce_signature_checks = true;
  enforce_canonical_json = true;
  power_levels_include_notifications = true;
  allow_knocking_in_event_auth = knocks_forbidden;
  allow_restricted_joins_in_event_auth = restricted_only;
  require_integer_power_levels = false;
}

abbrev room_version_v10 : RoomVersionDescription
room_version_v10 = record {
  supported = true;
  stable = true;
  state_res_algorithm = StateResAlgorithm.v2;
  event_format = EventFormat.v2;
  event_id_format = EventIdFormat.v3;
  redaction_algorithm = RedactionAlgorithm.v4;
  enforce_signature_checks = true;
  enforce_canonical_json = true;
  power_levels_include_notifications = true;
  allow_knocking_in_event_auth = knock_or_knock_restricted;
  allow_restricted_joins_in_event_auth = restricted_or_knock_restricted;
  require_integer_power_levels = true;
}

abbrev msc3667 : RoomVersionDescription
msc3667 = record {
  supported = true;
  stable = false;
  state_res_algorithm = StateResAlgorithm.v2;
  event_format = EventFormat.v2;
  event_id_format = EventIdFormat.v3;
  redaction_algorithm = RedactionAlgorithm.v2;
  enforce_signature_checks = true;
  enforce_canonical_json = true;
  power_levels_include_notifications = true;
  allow_knocking_in_event_auth = knock_only;
  allow_restricted_joins_in_event_auth = no_restricted_joins;
  require_integer_power_levels = true;
}

abbrev msc3787 : RoomVersionDescription
msc3787 = record {
  supported = true;
  stable = false;
  state_res_algorithm = StateResAlgorithm.v2;
  event_format = EventFormat.v2;
  event_id_format = EventIdFormat.v3;
  redaction_algorithm = RedactionAlgorithm.v4;
  enforce_signature_checks = true;
  enforce_canonical_json = true;
  power_levels_include_notifications = true;
  allow_knocking_in_event_auth = knock_or_knock_restricted;
  allow_restricted_joins_in_event_auth = restricted_or_knock_restricted;
  require_integer_power_levels = false;
}

unfoldable pub room_version_meta : Assoc RoomVersionDescription
room_version_meta =
    ("1", room_version_v1)
    ∷ ("2", room_version_v2)
    ∷ ("3", room_version_v3)
    ∷ ("4", room_version_v4)
    ∷ ("5", room_version_v5)
    ∷ ("6", room_version_v6)
    ∷ ("7", room_version_v7)
    ∷ ("8", room_version_v8)
    ∷ ("9", room_version_v9)
    ∷ ("10", room_version_v10)
    ∷ ("org.matrix.msc3667", msc3667)
    ∷ ("org.matrix.msc3787", msc3787)
    ∷ []
