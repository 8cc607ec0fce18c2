-- ===== src/Tests/ContentTests.antt =====
-- Tests of the contents, base64, the history visibilities and the room versions.
use gomatrixserverlib.Prelude.{◌≡◌, ◌↔◌, refl, true, false, none, some, [], ◌∷◌, arith}
use gomatrixserverlib.Prelude.Int.{pos, negsuc}
use gomatrixserverlib.Prelude.Text.{codes}
use gomatrixserverlib.Result.{ok}
use gomatrixserverlib.Json.{int, str, float, obj, end, member, names, fold_code}
use gomatrixserverlib.Event.{Event}
use gomatrixserverlib.Version.{restricted}
use gomatrixserverlib.Version.Queries.{
  require_integer_power_levels, may_allow_restricted_joins_in_event_auth,
  allow_restricted_joins_in_event_auth, describe,
}
use gomatrixserverlib.Version.Rules.{may_allow_restricted_joins_iff}
use gomatrixserverlib.Base64.{encode, decode, encode_std}
use gomatrixserverlib.Base64.RoundTrip.{decode-encode}
use gomatrixserverlib.Content.History.{value, numeric_value, history_visibility_from_int}
use gomatrixserverlib.Content.History.Numbers.{
  history_visibility_from_int-numeric_value, numeric_value-history_visibility_from_int,
}
use gomatrixserverlib.Content.PowerLevels.Level.{level_value}
use gomatrixserverlib.Content.PowerLevels.{new_power_level_content_from_event}
use gomatrixserverlib.Content.PowerLevels.EventsDefault.{events_default_ignored}
use gomatrixserverlib.Tests.Samples.{alice, in_version}

encode_any : encode (codes "any") ≡ codes "YW55"
unfolding encode encode_std
encode_any = refl

decode_url : decode (codes "_-8") ≡ ok (255 ∷ 239 ∷ [])
unfolding decode
decode_url = refl

decode-encode_example : decode (encode (codes "any carnal")) ≡ ok (codes "any carnal")
decode-encode_example = decode-encode (codes "any carnal") (omega arith)

history_example : history_visibility_from_int (numeric_value "nonsense") ≡ value "nonsense"
history_example = history_visibility_from_int-numeric_value "nonsense"

history_number_example : numeric_value (history_visibility_from_int 3) ≡ 3
history_number_example = numeric_value-history_visibility_from_int 3 (omega arith) (omega arith)

may_allow_example :
    (may_allow_restricted_joins_in_event_auth "8" ≡ ok true)
    ↔ (allow_restricted_joins_in_event_auth "8" restricted ≡ ok true)
may_allow_example = may_allow_restricted_joins_iff "8"

level_texts :
    (level_value (str " -12 ") ≡ some (negsuc 11))
    × (level_value (str "1.0") ≡ none)
    × (level_value (float (some (pos 7))) ≡ some (pos 7))
unfolding level_value
level_texts = (refl, refl, refl)

-- The level for messages is given under the name that the specification has for it.
abbrev muted : Event
muted =
    in_version "6" "m.room.power_levels" alice (some "")
      (some (obj (member "events_default" (int (pos 50)) end)))

version_six : require_integer_power_levels "6" ≡ ok false
unfolding require_integer_power_levels describe
version_six = refl

not_named : names "event_default" "events_default" ≡ false
unfolding names fold_code
not_named = refl

events_default_ignored_example : (new_power_level_content_from_event muted).0.events_default ≡ pos 0
events_default_ignored_example =
    events_default_ignored muted (member "events_default" (int (pos 50)) end) version_six refl
      (not_named, tt)
