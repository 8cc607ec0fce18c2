-- ===== src/Tests/AuthTests.antt =====
-- Tests of the checks by event type.
use gomatrixserverlib.Prelude.{ne_of_false, none, ◌≡◌, refl, some}
use gomatrixserverlib.Prelude.Int.{pos}
use gomatrixserverlib.Result.{err, bad_event, ok}
use gomatrixserverlib.Auth.Allowed.Sender.{SenderAccepted, allowed-SenderAccepted}
use gomatrixserverlib.Auth.Allowed.Shared.{Follows, allowed-Follows}
use gomatrixserverlib.Auth.Allowed.{allowed}
use gomatrixserverlib.Auth.Membership.Checks.{VerifyJson}
use gomatrixserverlib.Json.{str, int, obj, end, member, names, fold_code}
use gomatrixserverlib.Auth.Events.{default_event_allowed}
use gomatrixserverlib.Content.PowerLevels.{user_level, event_level}
use gomatrixserverlib.Event.{Event}
use gomatrixserverlib.Content.Create.{domain_from_id, domain_allowed, user_id_allowed}
use gomatrixserverlib.Content.Member.{
  new_member_content_from_auth_events, new_member_content_from_event,
}
use gomatrixserverlib.Auth.Context.{new_event_allower, common_checks}
use gomatrixserverlib.Tests.Samples.{bob, alice, carol, context, in_version}

-- Bob names the levels that hold, and gives Carol level 10.
abbrev new_levels : Event
new_levels = in_version "6" "m.room.power_levels" bob (some "") (
    some (
      obj (
        member "users"
          (obj (
            member alice (int (pos 100))
              (member bob (int (pos 50)) (member carol (int (pos 10)) end))))
          (member "notifications" (obj (member "room" (int (pos 50)) end)) end))))

-- Bob sends a message, for which the levels do not ask.
abbrev message : Event
message = in_version "6" "m.room.message" bob none none

verify_nothing : VerifyJson
verify_nothing domain key_id public_key signed = err bad_event

message-allowed : (allowed verify_nothing (context "public") message).1 ≡ ok tt
unfolding allowed default_event_allowed new_event_allower common_checks
    new_member_content_from_auth_events new_member_content_from_event domain_from_id domain_allowed
    user_id_allowed user_level event_level fold_code names
message-allowed = refl

allowed-SenderAccepted_example : SenderAccepted (context "public") message
allowed-SenderAccepted_example =
    allowed-SenderAccepted verify_nothing (context "public") message (ne_of_false _ _ refl)
      (ne_of_false _ _ refl) (ne_of_false _ _ refl) message-allowed

-- Carol joins a restricted room, with Alice to authorise it.
abbrev joins : Event
joins = in_version "8" "m.room.member" carol (some carol) (
    some (
      obj (
        member "membership" (str "join")
          (member "join_authorised_via_users_server" (str alice) end))))

allowed-Follows_example :
    Follows (context "restricted") (allowed verify_nothing (context "restricted") joins).0
allowed-Follows_example = allowed-Follows verify_nothing (context "restricted") joins
