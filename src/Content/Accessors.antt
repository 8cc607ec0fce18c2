-- ===== src/Content/Accessors.antt =====
-- event.go: the accessors that read the content of an event of one type.
use gomatrixserverlib.Prelude.{true, [], String, if◌then◌else◌}
use gomatrixserverlib.Result.{Result, ok, err, bad_event, ◌>>=◌, ◌>>◌}
use gomatrixserverlib.Json.{Decoder, names, decode_string}
use gomatrixserverlib.Event.{Event, m_room_join_rules, state_key_equals, extract_content}
use gomatrixserverlib.Content.JoinRules.{JoinRuleContent, join_rule_field}
use gomatrixserverlib.Content.PowerLevels.{PowerLevelContent, new_power_level_content_from_event}
use gomatrixserverlib.Content.History

abbrev m_room_history_visibility : String
m_room_history_visibility = "m.room.history_visibility"

abbrev zero_join_rule : JoinRuleContent
zero_join_rule = record { join_rule = ""; allow = [] }

unfoldable pub join_rule : Event → Result String
unfolding extract_content join_rule_field
join_rule e =
    if state_key_equals e ""
    then (extract_content e m_room_join_rules join_rule_field zero_join_rule >>= λ c.
        ok c.join_rule)
    else err bad_event

history_visibility_field : String → Decoder String
unfolding names decode_string
history_visibility_field k j h =
    if names "history_visibility" k then decode_string j h else (h, true)

unfoldable pub history_visibility : Event → Result String
unfolding extract_content history_visibility_field History.value
history_visibility e =
    if state_key_equals e ""
    then (extract_content e m_room_history_visibility history_visibility_field "" >>= λ h.
        ok (History.value h))
    else err bad_event

-- A content that could not be read is not returned.
unfoldable pub power_levels : Event → Result PowerLevelContent
unfolding new_power_level_content_from_event
power_levels e =
    if state_key_equals e ""
    then (let (c, check) = new_power_level_content_from_event e in check >> ok c)
    else err bad_event
