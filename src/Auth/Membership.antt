-- ===== src/Auth/Membership.antt =====
-- `membershipAllower` of eventauth.go, and how it is loaded.
pub mod Checks
pub mod Self
pub mod Other
pub mod SharedRule
pub mod Change
pub mod Banned
use gomatrixserverlib.Prelude.{Option, ◌*◌, none, some, String}
use gomatrixserverlib.Result.{Result, ok, err, not_allowed, member_without_state_key, ◌>>=◌, ◌>>◌}
use gomatrixserverlib.Auth.Provider.{AuthEventProvider}
use gomatrixserverlib.Event.{Event}
use gomatrixserverlib.Content.Member.{
  MemberContent, MemberThirdPartyInvite, new_member_content_from_event,
  new_member_content_from_auth_events,
}
use gomatrixserverlib.Content.ThirdPartyInvite.{
  ThirdPartyInviteContent, zero_third_party, new_third_party_invite_content_from_auth_events,
}
use gomatrixserverlib.Auth.Context.{AllowerContext}

pub record MembershipAllower : Type 0 where
  pub allower_context : AllowerContext
  pub open allower_context use *
  pub room_version : String
  pub third_party_invite : ThirdPartyInviteContent
  pub target_id : String
  pub sender_id : String
  pub sender_member : MemberContent
  pub old_member : MemberContent
  pub new_member : MemberContent

abbrev pub target_of : Option String → Result String
target_of none = err (not_allowed member_without_state_key)
target_of (some sk) = ok sk

-- The third party invite is loaded where the new content has one.
abbrev pub third_party_of :
    AuthEventProvider → Option MemberThirdPartyInvite → Result ThirdPartyInviteContent
third_party_of p none = ok zero_third_party
third_party_of p (some i) = new_third_party_invite_content_from_auth_events p i.signed.token

-- What is loaded once the target and the new content are known.
abbrev pub allower_for : AllowerContext → Event → String → MemberContent → Result MembershipAllower
allower_for a event target_id new_member = do
  old_member ← new_member_content_from_auth_events a.provider target_id
  sender_member ← new_member_content_from_auth_events a.provider event.sender
  third_party_invite ← third_party_of a.provider new_member.third_party_invite
  ok (record {
    allower_context = a;
    room_version = event.room_version;
    third_party_invite = third_party_invite;
    target_id = target_id;
    sender_id = event.sender;
    sender_member = sender_member;
    old_member = old_member;
    new_member = new_member;
  })

unfoldable pub new_membership_allower : AllowerContext → Event → Result MembershipAllower
new_membership_allower a event = do
  target_id ← target_of event.state_key
  new_member ← new_member_content_from_event event
  allower_for a event target_id new_member
