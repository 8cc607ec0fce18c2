-- ===== src/Content/Create.antt =====
-- `CreateContent` of eventcontent.go.
use gomatrixserverlib.Prelude.{Bool, true, false, Option, none, some, String, ◌==◌, if◌then◌else◌}
use gomatrixserverlib.Prelude.Text.{after_first}
use gomatrixserverlib.Result.{
  Result, ok, err, panic, Check, not_allowed, invalid_id, unfederatable, missing_create_event,
  unparsable_create, ◌>>=◌,
}
use gomatrixserverlib.Json.{
  Decoder, names, decode_string, decode_bool, decode_pointer, decode_struct, into, unmarshal,
}
use gomatrixserverlib.Event.{Event}
use gomatrixserverlib.Auth.Provider.{AuthEventProvider}

pub record PreviousRoom : Type 0 where
  pub room_id : String
  pub event_id : String

pub record CreateContent : Type 0 where
  pub sender_domain : String
  pub room_id : String
  pub event_id : String
  pub federate : Option Bool
  pub creator : String
  pub room_version : Option String
  pub predecessor : PreviousRoom

abbrev no_room : PreviousRoom
no_room = record { room_id = ""; event_id = "" }

-- Go's zero value
abbrev pub zero_create : CreateContent
zero_create = record {
  sender_domain = "";
  room_id = "";
  event_id = "";
  federate = none;
  creator = "";
  room_version = none;
  predecessor = no_room;
}

predecessor_field : String → Decoder PreviousRoom
unfolding names decode_string
predecessor_field k j p =
    if names "room_id" k
    then into decode_string j p.room_id (λ v. record p { room_id = v })
    else if names "event_id" k
    then into decode_string j p.event_id (λ v. record p { event_id = v })
    else (p, true)

-- The fields of `CreateContent` that have a JSON name.
create_field : String → Decoder CreateContent
unfolding names decode_string decode_bool decode_pointer decode_struct predecessor_field
create_field k j c =
    if names "m.federate" k
    then into (decode_pointer false decode_bool) j c.federate (λ v. record c { federate = v })
    else if names "creator" k
    then into decode_string j c.creator (λ v. record c { creator = v })
    else if names "room_version" k
    then into (decode_pointer "" decode_string) j c.room_version
        (λ v. record c { room_version = v })
    else if names "predecessor" k
    then into (decode_struct predecessor_field) j c.predecessor (λ v. record c { predecessor = v })
    else (c, true)

-- domainFromID: everything after the first ":".
unfoldable pub domain_from_id : String → Result String
unfolding after_first
domain_from_id id = elim (after_first b':' id) [
  | none ↦ err (not_allowed (invalid_id id))
  | some domain ↦ ok domain
]

-- The content that is left in `c`, and the error.
abbrev pub of_create_event : Event → CreateContent × Check
unfolding create_field decode_struct domain_from_id
of_create_event create_event =
    let (c, fits) = unmarshal (decode_struct create_field) create_event.content zero_create in
    if fits
    then (let named : CreateContent = record c {
      room_id = create_event.room_id;
      event_id = create_event.event_id;
    } in
        elim (domain_from_id create_event.sender) [
          | ok domain ↦ (record named { sender_domain = domain }, ok tt)
          | err e ↦ (record named { sender_domain = "" }, err e)
          | panic ↦ (named, panic)
        ])
    else (c, err (not_allowed unparsable_create))

unfoldable pub new_create_content_from_auth_events : AuthEventProvider → CreateContent × Check
unfolding create_field decode_struct domain_from_id
new_create_content_from_auth_events auth_events = elim auth_events.create [
  | ok none ↦ (zero_create, err (not_allowed missing_create_event))
  | ok (some create_event) ↦ of_create_event create_event
  | err e ↦ (zero_create, err e)
  | panic ↦ (zero_create, panic)
]

unfoldable pub domain_allowed : CreateContent → String → Check
domain_allowed c domain = if domain == c.sender_domain then ok tt else elim c.federate [
  | none ↦ ok tt
  | some federate ↦ if federate then ok tt else err (not_allowed unfederatable)
]

unfoldable pub user_id_allowed : CreateContent → String → Check
unfolding domain_from_id domain_allowed
user_id_allowed c id = do domain ← domain_from_id id; domain_allowed c domain
