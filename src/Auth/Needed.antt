-- ===== src/Auth/Needed.antt =====
-- `StateNeeded` of eventauth.go: the state that the checks of an event read.
pub mod Context
pub mod Swap
pub mod SwapSelf
pub mod SwapMember
pub mod Covered
pub mod Loaded
pub mod Sufficient
pub mod Builder
use gomatrixserverlib.Prelude.{
  Bool, true, false, ◌||◌, Option, none, some, List, [], ◌∷◌, ◌++◌, map, String, ◌==◌,
  if◌then◌else◌,
}
use gomatrixserverlib.Result.{
  Result, ok, err, panic, Check, not_allowed, missing_member_content, missing_third_party_token,
}
use gomatrixserverlib.Json.{decode_pointer, unmarshal}
use gomatrixserverlib.Event.{
  Event, StateKeyTuple, m_room_create, m_room_join_rules, m_room_power_levels, m_room_member,
  m_room_third_party_invite, m_room_aliases, join, invite,
}
use gomatrixserverlib.Version.{knock}
use gomatrixserverlib.Content.Member.{
  MembershipContent, MemberThirdPartyInvite, zero_membership, decode_membership,
  third_party_invite_token,
}

pub record StateNeeded : Type 0 where
  pub create : Bool
  pub join_rules : Bool
  pub power_levels : Bool
  pub member : List String
  pub third_party_invite : List String

abbrev pub nothing_needed : StateNeeded
nothing_needed = record {
  create = false;
  join_rules = false;
  power_levels = false;
  member = [];
  third_party_invite = [];
}

abbrev pub tuple : String → String → StateKeyTuple
tuple t sk = record { event_type = t; state_key = sk }

abbrev pub when : Bool → List StateKeyTuple → List StateKeyTuple
when true l = l
when false l = []

unfoldable pub tuples : StateNeeded → List StateKeyTuple
tuples s =
    when s.create (tuple m_room_create "" ∷ [])
    ++ (when s.join_rules (tuple m_room_join_rules "" ∷ [])
        ++ (when s.power_levels (tuple m_room_power_levels "" ∷ [])
            ++ (map (tuple m_room_member) s.member
                ++ map (tuple m_room_third_party_invite) s.third_party_invite)))

-- The members that a membership event with a state key needs.
abbrev pub with_state_key : StateNeeded → String → Option String → StateNeeded
with_state_key s sender none = s
with_state_key s sender (some sk) = record s { member = s.member ++ sender ∷ sk ∷ [] }

abbrev pub with_join_rules : StateNeeded → String → StateNeeded
with_join_rules s membership =
    if membership == join || membership == knock || membership == invite
    then record s { join_rules = true }
    else s

abbrev pub with_authorized_via : StateNeeded → String → StateNeeded
with_authorized_via s via = if via == "" then s else record s { member = s.member ++ via ∷ [] }

-- A third party invite without a token stops here, with an error.
abbrev pub with_token : StateNeeded → String → Result String → StateNeeded × Check
with_token s via (ok token) = (
  with_authorized_via (record s { third_party_invite = s.third_party_invite ++ token ∷ [] }) via,
  ok tt,
)
with_token s via (err _) = (s, err (not_allowed missing_third_party_token))
with_token s via panic = (s, panic)

abbrev pub with_invite : StateNeeded → Option MemberThirdPartyInvite → String → StateNeeded × Check
with_invite s none via = (with_authorized_via s via, ok tt)
with_invite s (some i) via = with_token s via (third_party_invite_token i)

abbrev pub accumulate_member :
    StateNeeded → String → Option String → Option MembershipContent → StateNeeded × Check
accumulate_member s sender state_key none = (s, err (not_allowed missing_member_content))
accumulate_member s sender state_key (some content) =
    let based : StateNeeded = record s { create = true; power_levels = true } in
    let keyed : StateNeeded = with_state_key based sender state_key in
    with_invite (with_join_rules keyed content.membership) content.third_party_invite
      content.authorized_via

unfoldable pub accumulate_state_needed :
    StateNeeded → String → String → Option String → Option MembershipContent → StateNeeded × Check
accumulate_state_needed s event_type sender state_key content =
    if event_type == m_room_create
    then (s, ok tt)
    else if event_type == m_room_aliases
    then (record s { create = true }, ok tt)
    else if event_type == m_room_member
    then accumulate_member s sender state_key content
    else (record s { create = true; power_levels = true; member = s.member ++ sender ∷ [] }, ok tt)

-- The content of a membership event as far as it could be read; nothing for the other events.
unfoldable pub needed_content : Event → Option MembershipContent
needed_content event =
    if event.event_type == m_room_member
    then (unmarshal (decode_pointer zero_membership decode_membership) event.content none).0
    else none

unfoldable pub accumulate_all : StateNeeded → List Event → StateNeeded
accumulate_all s [] = s
accumulate_all s (event ∷ events) =
    accumulate_all
      (accumulate_state_needed s event.event_type event.sender event.state_key
        (needed_content event)).0
      events

-- `util.UniqueStrings`, of another package, drops the duplicates.
module _ (unique_strings : List String → List String) where
  unfoldable pub state_needed_for_auth : List Event → StateNeeded
  unfolding accumulate_all
  state_needed_for_auth events =
      let s = accumulate_all nothing_needed events in
      record s {
        member = unique_strings s.member;
        third_party_invite = unique_strings s.third_party_invite;
      }
