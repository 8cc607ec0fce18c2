-- ===== src/Tests/MembershipTests.antt =====
-- Tests of the membership checks.
use gomatrixserverlib.Prelude.{
  ◌≡◌, ◌≢◌, ◌↔◌, refl, true, String, arith, eq_iff, some, none, lookup, [], ◌∷◌, ◌⊎◌,
}
use gomatrixserverlib.Prelude.Text.{after_first}
use gomatrixserverlib.Result.{ok, err, not_allowed, join_rule_forbids_join}
use gomatrixserverlib.Json.{fold_code}
use gomatrixserverlib.Event.{membership, split_id, extract_content, Event}
use gomatrixserverlib.Version.{restricted, knock_restricted}
use gomatrixserverlib.Version.Queries.{allow_restricted_joins_in_event_auth, describe}
use gomatrixserverlib.Content.PowerLevels.{user_level}
use gomatrixserverlib.Auth.Membership.{MembershipAllower}
use gomatrixserverlib.Auth.Membership.Checks.{
  membership_allowed_self, membership_allowed_other, authorised_via_checks,
  membership_allowed_self_for_restricted_join, VerifyJson, membership_allowed, is_first_join,
  membership_allowed_from_third_party_invite, first_verified,
}
use gomatrixserverlib.Auth.Membership.Self.{SelfChange, membership_allowed_self_iff}
use gomatrixserverlib.Auth.Membership.Other.{OtherChange, membership_allowed_other_iff}
use gomatrixserverlib.Auth.Membership.SharedRule.{opens_room_after_join}
use gomatrixserverlib.Auth.Membership.Banned.{BannedChange, membership_allowed-BannedChange}
use gomatrixserverlib.Auth.Membership.Change.{
  PassesGuards, IsReadable, IsFirstJoin, MembershipChange, membership_allowed_iff,
}
use gomatrixserverlib.Content.Create.{user_id_allowed, domain_allowed, domain_from_id}
use gomatrixserverlib.Content.ThirdPartyInvite.{zero_third_party}
use gomatrixserverlib.Tests.Samples.{in_version, member_of, alice, bob, carol, change}

abbrev joining : MembershipAllower
joining = change "restricted" carol "leave" "join" alice

self_example : ((membership_allowed_self joining).1 ≡ ok tt) ↔ SelfChange joining
self_example = membership_allowed_self_iff joining

abbrev banning : MembershipAllower
banning = change "public" bob "join" "ban" ""

other_example :
    (membership_allowed_other banning ≡ ok tt)
    ↔ ((banning.sender_member.membership ≡ "join") × OtherChange banning)
other_example = membership_allowed_other_iff banning

bob_bans_carol : membership_allowed_other banning ≡ ok tt
unfolding membership_allowed_other user_level
bob_bans_carol = refl

version_eight : allow_restricted_joins_in_event_auth "8" restricted ≡ ok true
unfolding allow_restricted_joins_in_event_auth describe
version_eight = refl

via_alice : authorised_via_checks joining ≡ ok tt
unfolding authorised_via_checks split_id membership user_level describe fold_code extract_content
via_alice = refl

alice_named : ◌≢◌ {A = String} alice ""
alice_named = ground (arith, eq_iff alice "")

opens_room_after_join_example :
    (membership_allowed_self (change (membership_allowed_self joining).0 carol "leave" "join" "")).1
    ≡ ok tt
opens_room_after_join_example =
    opens_room_after_join joining
      (change (membership_allowed_self joining).0 carol "leave" "join" "") refl refl refl
      version_eight alice_named via_alice refl refl refl

-- Joining without an authorising user is refused in a context of its own.
refused_alone :
    (membership_allowed_self (change "restricted" carol "leave" "join" "")).1
    ≡ err (not_allowed join_rule_forbids_join)
unfolding membership_allowed_self membership_allowed_self_for_restricted_join
    allow_restricted_joins_in_event_auth describe
refused_alone = refl

-- A room that may be joined under "knock_restricted" by its version is not.
knock_restricted_refused :
    (allow_restricted_joins_in_event_auth "10" knock_restricted ≡ ok true)
    × ((membership_allowed_self
          (record (change "knock_restricted" carol "leave" "join" alice) { room_version = "10" })).1
        ≡ err (not_allowed join_rule_forbids_join))
unfolding membership_allowed_self allow_restricted_joins_in_event_auth describe
knock_restricted_refused = (refl, refl)

abbrev verify_all : VerifyJson
verify_all domain key_id public_key signed = ok tt

-- Bob lifts the ban of Carol.
abbrev unbanning : MembershipAllower
unbanning = change "public" bob "ban" "leave" ""

abbrev unban : Event
unban = in_version "8" "m.room.member" bob (some carol) none

unban_accepted : (membership_allowed verify_all unbanning unban).1 ≡ ok tt
unfolding membership_allowed is_first_join user_id_allowed domain_allowed domain_from_id after_first
    membership_allowed_other user_level lookup
unban_accepted = refl

membership_allowed-BannedChange_example : BannedChange unbanning unban
membership_allowed-BannedChange_example =
    membership_allowed-BannedChange verify_all unbanning unban refl unban_accepted

membership_allowed_iff_example : ((membership_allowed verify_all unbanning unban).1 ≡ ok tt) ↔ (
    PassesGuards unbanning unban
    × IsReadable unbanning unban
    × (IsFirstJoin unbanning unban ⊎ MembershipChange verify_all unbanning))
membership_allowed_iff_example = membership_allowed_iff verify_all unbanning unban

-- Carol, who is banned, is invited through a third party.
abbrev reinviting : MembershipAllower
reinviting = record (change "public" bob "ban" "invite" "") {
  third_party_invite = record zero_third_party {
    public_keys = record { public_key = []; key_validity_url = "" } ∷ [];
  };
  new_member = record (member_of "invite" "") {
    third_party_invite = some (record {
      display_name = "";
      signed = record {
        mxid = carol;
        signatures = ("id", ("ed25519:0", "") ∷ []) ∷ [];
        token = "t";
      };
    });
  };
}

banned_invited : (membership_allowed verify_all reinviting unban).1 ≡ ok tt
unfolding membership_allowed is_first_join user_id_allowed domain_allowed domain_from_id after_first
    membership_allowed_from_third_party_invite first_verified lookup
banned_invited = refl
