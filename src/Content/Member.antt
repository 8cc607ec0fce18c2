-- ===== src/Content/Member.antt =====
-- `MemberContent` of eventcontent.go, and `membershipContent` of eventauth.go.
pub mod Membership
use gomatrixserverlib.Prelude.{
  Bool, true, false, Option, none, some, [], String, if◌then◌else◌, Assoc,
}
use gomatrixserverlib.Result.{
  Result, ok, err, not_allowed, unparsable_member, missing_third_party_token, ◌>>=◌,
}
use gomatrixserverlib.Json.{
  Decoder, names, decode_string, decode_bool, decode_map, decode_pointer, decode_struct, into,
  unmarshal,
}
use gomatrixserverlib.Event.{Event, leave}
use gomatrixserverlib.Auth.Provider.{AuthEventProvider}

pub record MemberThirdPartyInviteSigned : Type 0 where
  pub mxid : String
  pub signatures : Assoc (Assoc String)
  pub token : String

pub record MemberThirdPartyInvite : Type 0 where
  pub display_name : String
  pub signed : MemberThirdPartyInviteSigned

pub record MemberContent : Type 0 where
  pub membership : String
  pub display_name : String
  pub avatar_url : String
  pub reason : String
  pub is_direct : Bool
  pub third_party_invite : Option MemberThirdPartyInvite
  pub authorised_via : String

pub record MembershipContent : Type 0 where
  pub membership : String
  pub third_party_invite : Option MemberThirdPartyInvite
  pub authorized_via : String

abbrev zero_invite : MemberThirdPartyInvite
zero_invite = record {
  display_name = "";
  signed = record { mxid = ""; signatures = []; token = "" };
}

abbrev pub zero_member : MemberContent
zero_member = record {
  membership = "";
  display_name = "";
  avatar_url = "";
  reason = "";
  is_direct = false;
  third_party_invite = none;
  authorised_via = "";
}

abbrev pub zero_membership : MembershipContent
zero_membership = record { membership = ""; third_party_invite = none; authorized_via = "" }

signed_field : String → Decoder MemberThirdPartyInviteSigned
unfolding names decode_string decode_map
signed_field k j c =
    if names "mxid" k
    then into decode_string j c.mxid (λ v. record c { mxid = v })
    else if names "signatures" k
    then into (decode_map [] (decode_map "" decode_string)) j c.signatures
        (λ v. record c { signatures = v })
    else if names "token" k
    then into decode_string j c.token (λ v. record c { token = v })
    else (c, true)

unfoldable pub invite_field : String → Decoder MemberThirdPartyInvite
unfolding names decode_string decode_struct signed_field
invite_field k j c =
    if names "display_name" k
    then into decode_string j c.display_name (λ v. record c { display_name = v })
    else if names "signed" k
    then into (decode_struct signed_field) j c.signed (λ v. record c { signed = v })
    else (c, true)

abbrev pub decode_invite : Decoder (Option MemberThirdPartyInvite)
unfolding decode_pointer decode_struct invite_field
decode_invite = decode_pointer zero_invite (decode_struct invite_field)

unfoldable pub member_field : String → Decoder MemberContent
unfolding names decode_string decode_bool decode_pointer decode_struct invite_field
member_field k j c =
    if names "membership" k
    then into decode_string j c.membership (λ v. record c { membership = v })
    else if names "displayname" k
    then into decode_string j c.display_name (λ v. record c { display_name = v })
    else if names "avatar_url" k
    then into decode_string j c.avatar_url (λ v. record c { avatar_url = v })
    else if names "reason" k
    then into decode_string j c.reason (λ v. record c { reason = v })
    else if names "is_direct" k
    then into decode_bool j c.is_direct (λ v. record c { is_direct = v })
    else if names "third_party_invite" k
    then into decode_invite j c.third_party_invite (λ v. record c { third_party_invite = v })
    else if names "join_authorised_via_users_server" k
    then into decode_string j c.authorised_via (λ v. record c { authorised_via = v })
    else (c, true)

unfoldable pub membership_content_field : String → Decoder MembershipContent
unfolding names decode_string decode_pointer decode_struct invite_field
membership_content_field k j c =
    if names "membership" k
    then into decode_string j c.membership (λ v. record c { membership = v })
    else if names "third_party_invite" k
    then into decode_invite j c.third_party_invite (λ v. record c { third_party_invite = v })
    else if names "join_authorised_via_users_server" k
    then into decode_string j c.authorized_via (λ v. record c { authorized_via = v })
    else (c, true)

-- `json.Unmarshal(data, &content)` for a `membershipContent` and for a nil pointer to one
unfoldable pub decode_membership : Decoder MembershipContent
unfolding decode_struct membership_content_field
decode_membership = decode_struct membership_content_field

unfoldable pub decode_member : Decoder MemberContent
unfolding decode_struct member_field
decode_member = decode_struct member_field

-- Content that does not fit `MemberContent` is read once more as `membershipContent`.
unfoldable pub new_member_content_from_event : Event → Result MemberContent
unfolding decode_member decode_membership
new_member_content_from_event event =
    let (c, fits) = unmarshal decode_member event.content zero_member in
    if fits
    then ok c
    else (let (partial, partly) = unmarshal decode_membership event.content zero_membership in
        if partly
        then ok (record c {
          membership = partial.membership;
          third_party_invite = partial.third_party_invite;
        })
        else err (not_allowed unparsable_member))

-- Without a member event the membership is "leave".
unfoldable pub new_member_content_from_auth_events :
    AuthEventProvider → String → Result MemberContent
unfolding new_member_content_from_event
new_member_content_from_auth_events auth_events user_id = auth_events.member user_id >>= λ found.
    elim found [
      | none ↦ ok (record zero_member { membership = leave })
      | some member_event ↦ new_member_content_from_event member_event
    ]

-- thirdPartyInviteToken of eventauth.go
abbrev pub token_result : String → Result String
token_result String.[] = err (not_allowed missing_third_party_token)
token_result (String.◌∷◌ c t) = ok (String.◌∷◌ c t)

unfoldable pub third_party_invite_token : MemberThirdPartyInvite → Result String
third_party_invite_token i = token_result i.signed.token
