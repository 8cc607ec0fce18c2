-- ===== src/Tests/Samples.antt =====
-- A room, its events and its power levels, as test data.
use gomatrixserverlib.Prelude.{Option, none, some, [], ◌∷◌, String}
use gomatrixserverlib.Prelude.Int.{pos}
use gomatrixserverlib.Result.{ok}
use gomatrixserverlib.Json.{Json, Members, str, obj, end, member}
use gomatrixserverlib.Event.{Event, References}
use gomatrixserverlib.Content.Create.{zero_create}
use gomatrixserverlib.Content.Member.{MemberContent, zero_member}
use gomatrixserverlib.Content.PowerLevels.{PowerLevelContent}
use gomatrixserverlib.Content.ThirdPartyInvite.{zero_third_party}
use gomatrixserverlib.Auth.Provider.{AuthEventProvider}
use gomatrixserverlib.Auth.Context.{AllowerContext}
use gomatrixserverlib.Auth.Membership.{MembershipAllower}

abbrev pub alice : String
alice = "@alice:a"

abbrev pub bob : String
bob = "@bob:a"

abbrev pub carol : String
carol = "@carol:b"

abbrev pub room : String
room = "!room:a"

abbrev pub in_version : String → String → String → Option String → Option Json → Event
in_version version event_type sender state_key content = record {
  event_id = "$e:a";
  room_id = room;
  sender = sender;
  event_type = event_type;
  state_key = state_key;
  content = content;
  redacts = "";
  depth = pos 1;
  origin_server_ts = 1;
  references = References.v1 [] [];
  room_version = version;
}

abbrev pub one : String → Json → Members
one k v = member k v end

abbrev pub member_event : String → String → Event
member_event user membership =
    in_version "1" "m.room.member" user (some user) (some (obj (one "membership" (str membership))))

-- Alice has level 100, Bob level 50.
abbrev pub levels : PowerLevelContent
levels = record {
  ban = pos 50;
  invite = pos 50;
  kick = pos 50;
  redact = pos 50;
  users = (alice, pos 100) ∷ (bob, pos 50) ∷ [];
  users_default = pos 0;
  events = [];
  events_default = pos 0;
  state_default = pos 50;
  notifications = ("room", pos 50) ∷ [];
}

abbrev pub empty_provider : AuthEventProvider
empty_provider = record {
  create = ok none;
  join_rules = ok none;
  power_levels = ok none;
  member = λ user. ok (
      some (record (member_event user "join") {
        room_version = "8";
        references = References.v2 [] [];
      }));
  third_party_invite = λ token. ok none;
}

abbrev pub context : String → AllowerContext
context join_rule = record {
  provider = empty_provider;
  create = record zero_create { room_id = room; sender_domain = "a"; creator = alice };
  power_levels = levels;
  join_rule = record { join_rule = join_rule; allow = [] };
}

abbrev pub member_of : String → String → MemberContent
member_of membership via = record zero_member { membership = membership; authorised_via = via }

-- The change of Carol's membership in a room of version 8 by a sender who is in the room.
abbrev pub change : String → String → String → String → String → MembershipAllower
change join_rule sender old new via = record {
  allower_context = context join_rule;
  room_version = "8";
  third_party_invite = zero_third_party;
  target_id = carol;
  sender_id = sender;
  sender_member = member_of "join" "";
  old_member = member_of old "";
  new_member = member_of new via;
}
