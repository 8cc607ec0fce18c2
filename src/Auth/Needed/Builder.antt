-- ===== src/Auth/Needed/Builder.antt =====
-- eventauth.go: the state that an event needs that is still being built.
use gomatrixserverlib.Prelude.{Option, none, List, String, ◌==◌, if◌then◌else◌}
use gomatrixserverlib.Result.{Result, ok, err, panic, Check, not_allowed, unparsable_member}
use gomatrixserverlib.Json.{Json, decode_pointer, unmarshal}
use gomatrixserverlib.Event.{m_room_member}
use gomatrixserverlib.Content.Member.{MembershipContent, zero_membership, decode_membership}
use gomatrixserverlib.Auth.Needed.{StateNeeded, nothing_needed, accumulate_state_needed}

-- Of `EventBuilder`, what is read here.
pub record EventBuilder : Type 0 where
  pub sender : String
  pub event_type : String
  pub state_key : Option String
  pub content : Option Json

unfoldable pub builder_content : EventBuilder → Result (Option MembershipContent)
builder_content builder =
    if builder.event_type == m_room_member
    then (let (c, fits) =
          unmarshal (decode_pointer zero_membership decode_membership) builder.content none in
        if fits then ok c else err (not_allowed unparsable_member))
    else ok none

module _ (unique_strings : List String → List String) where
  abbrev pub with_content : EventBuilder → Result (Option MembershipContent) → StateNeeded × Check
  with_content builder (err e) = (nothing_needed, err e)
  with_content builder panic = (nothing_needed, panic)
  with_content builder (ok content) =
      let (s, check) =
        accumulate_state_needed nothing_needed builder.event_type builder.sender builder.state_key
          content in
      (
        record s {
          member = unique_strings s.member;
          third_party_invite = unique_strings s.third_party_invite;
        },
        check,
      )

  -- The state needed, also where it comes with an error.
  unfoldable pub state_needed_for_event_builder : EventBuilder → StateNeeded × Check
  state_needed_for_event_builder builder = with_content builder (builder_content builder)
