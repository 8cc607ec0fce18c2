-- ===== src/Content/ThirdPartyInvite.antt =====
-- `ThirdPartyInviteContent` of eventcontent.go.
use gomatrixserverlib.Prelude.{true, false, none, some, List, [], ℕ, String, if◌then◌else◌}
use gomatrixserverlib.Prelude.Text.{codes}
use gomatrixserverlib.Result.{
  Result, ok, err, not_allowed, missing_third_party_invite, unparsable_third_party_invite, ◌>>=◌,
}
use gomatrixserverlib.Json.{
  null, str, Decoder, names, decode_string, decode_slice, decode_struct, into, unmarshal,
}
use gomatrixserverlib.Auth.Provider.{AuthEventProvider}
use gomatrixserverlib.Base64

pub record PublicKey : Type 0 where
  pub public_key : List ℕ
  pub key_validity_url : String

pub record ThirdPartyInviteContent : Type 0 where
  pub display_name : String
  pub key_validity_url : String
  pub public_key : String
  pub public_keys : List PublicKey

-- Base64Bytes.UnmarshalJSON: a text that holds base64; a null is the empty text.
decode_base64 : Decoder (List ℕ)
unfolding Base64.decode
decode_base64 null old = ([], true)
decode_base64 (str s) old = elim (Base64.decode (codes s)) [
  | ok bytes ↦ (bytes, true)
  | _ ↦ (old, false)
]
decode_base64 _ old = (old, false)

public_key_field : String → Decoder PublicKey
unfolding names decode_string decode_base64
public_key_field k j c =
    if names "public_key" k
    then into decode_base64 j c.public_key (λ v. record c { public_key = v })
    else if names "key_validity_url" k
    then into decode_string j c.key_validity_url (λ v. record c { key_validity_url = v })
    else (c, true)

abbrev zero_key : PublicKey
zero_key = record { public_key = []; key_validity_url = "" }

abbrev pub zero_third_party : ThirdPartyInviteContent
zero_third_party = record {
  display_name = "";
  key_validity_url = "";
  public_key = "";
  public_keys = [];
}

third_party_field : String → Decoder ThirdPartyInviteContent
unfolding names decode_string decode_slice decode_struct public_key_field
third_party_field k j c =
    if names "display_name" k
    then into decode_string j c.display_name (λ v. record c { display_name = v })
    else if names "key_validity_url" k
    then into decode_string j c.key_validity_url (λ v. record c { key_validity_url = v })
    else if names "public_key" k
    then into decode_string j c.public_key (λ v. record c { public_key = v })
    else if names "public_keys" k
    then into (decode_slice zero_key (decode_struct public_key_field)) j c.public_keys
        (λ v. record c { public_keys = v })
    else (c, true)

unfoldable pub new_third_party_invite_content_from_auth_events :
    AuthEventProvider → String → Result ThirdPartyInviteContent
unfolding decode_struct third_party_field
new_third_party_invite_content_from_auth_events auth_events token =
    auth_events.third_party_invite token >>= λ found. elim found [
      | none ↦ err (not_allowed missing_third_party_invite)
      | some event ↦
          (let (t, fits) =
              unmarshal (decode_struct third_party_field) event.content zero_third_party in
            if fits then ok t else err (not_allowed unparsable_third_party_invite))
    ]
