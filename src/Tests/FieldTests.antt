-- ===== src/Tests/FieldTests.antt =====
-- Tests of CheckFields.
use gomatrixserverlib.Prelude.{◌≡◌, ◌↔◌, refl, List, [], ℕ, false, some}
use gomatrixserverlib.Prelude.Text.{codes, after_first}
use gomatrixserverlib.Result.{ok, err, too_large, sender_origin}
use gomatrixserverlib.Content.Create.{domain_from_id}
use gomatrixserverlib.Event.Fields.{
  EventFields, FormatFields, check_fields, check_id, byte_length, event_fields, nil_in_references,
}
use gomatrixserverlib.Event.Fields.Limits.{
  IsWithin, HasValidIds, IsTooLarge, check_fields_iff, check_fields-too_large,
}

abbrev topic_fields : EventFields
topic_fields = record {
  room_id = "!r:a";
  sender = "@u:a";
  event_type = "m.room.topic";
  state_key = some "";
  origin = "a";
}

abbrev topic_format : FormatFields
topic_format = FormatFields.v2 topic_fields (some []) (some [])

abbrev topic_json : List ℕ
topic_json = codes "{}"

accepted : check_fields topic_format topic_json ≡ ok tt
unfolding check_fields check_id domain_from_id after_first byte_length
accepted = refl

-- The origin is another server than that of the sender.
other_origin :
    check_fields
      (FormatFields.v2 (record topic_fields { origin = "b" }) (some []) (some []))
      topic_json
    ≡ err sender_origin
unfolding check_fields check_id domain_from_id after_first byte_length
other_origin = refl

check_fields_iff_example : (check_fields topic_format topic_json ≡ ok tt) ↔ (
    (nil_in_references topic_format ≡ false)
    × IsWithin topic_json (event_fields topic_format)
    × HasValidIds (event_fields topic_format))
check_fields_iff_example = check_fields_iff topic_format topic_json

check_fields-too_large_example :
    (check_fields topic_format topic_json ≡ err too_large)
    ↔ ((nil_in_references topic_format ≡ false) × IsTooLarge topic_json (event_fields topic_format))
check_fields-too_large_example = check_fields-too_large topic_format topic_json
