-- ===== src/Event.antt =====
-- event.go: the event as the other parts read it, with its accessors. The JSON text of an event is
-- parsed outside the model; the content is the JSON value that the event's content holds, or
-- nothing where those bytes are missing.
pub mod Fields
use gomatrixserverlib.Prelude.{
  Bool, true, false, Option, none, some, List, [], ◌∷◌, String, ◌==◌, map, ℕ, ltb, if◌then◌else◌,
  not,
}
use gomatrixserverlib.Prelude.Int.{ℤ}
use gomatrixserverlib.Prelude.Text.{codes, first_is, before_first, after_first}
use gomatrixserverlib.Result.{Result, ok, err, panic, bad_event, invalid_json, bad_base64, ◌>>=◌}
use gomatrixserverlib.Json.{Json, Decoder, names, decode_string, decode_struct, unmarshal}
use gomatrixserverlib.Version.{EventFormat}
use gomatrixserverlib.Version.Queries.{event_format}
use Prim.Native.Char.{Char, code}
use gomatrixserverlib.Base64

-- Event types and the words of memberships and join rules (eventauth.go).
abbrev pub m_room_create : String
m_room_create = "m.room.create"

abbrev pub m_room_join_rules : String
m_room_join_rules = "m.room.join_rules"

abbrev pub m_room_power_levels : String
m_room_power_levels = "m.room.power_levels"

abbrev pub m_room_member : String
m_room_member = "m.room.member"

abbrev pub m_room_third_party_invite : String
m_room_third_party_invite = "m.room.third_party_invite"

abbrev pub m_room_aliases : String
m_room_aliases = "m.room.aliases"

abbrev pub m_room_redaction : String
m_room_redaction = "m.room.redaction"

abbrev pub join : String
join = "join"

abbrev pub ban : String
ban = "ban"

abbrev pub leave : String
leave = "leave"

abbrev pub invite : String
invite = "invite"

abbrev pub public : String
public = "public"

pub record StateKeyTuple : Type 0 where
  pub event_type : String
  pub state_key : String

pub record EventReference : Type 0 where
  pub event_id : String
  pub event_sha256 : List ℕ

-- prev_events and auth_events of the two event formats
pub data References : Type 0 where
  v1 : List EventReference → List EventReference → References
  v2 : List String → List String → References

pub record Event : Type 0 where
  pub event_id : String
  pub room_id : String
  pub sender : String
  pub event_type : String
  pub state_key : Option String
  pub content : Option Json
  pub redacts : String
  pub depth : ℤ
  pub origin_server_ts : ℕ
  pub references : References
  pub room_version : String

unfoldable pub state_key_equals : Event → String → Bool
state_key_equals e state_key = elim e.state_key [ none ↦ false | some sk ↦ sk == state_key ]

-- The hash of an event ID less its first byte. Base64 has ASCII characters alone: what is left of
-- another character, by that byte or in the text, is no base64.
hash_of : Char → String → Result (List ℕ)
hash_of c id = if ltb (code c) 128 then Base64.decode (codes id) else err bad_base64

-- The reference that an event ID of the second format stands for. An empty ID, and one that is no
-- base64, panic.
reference_of : String → Result EventReference
unfolding hash_of
reference_of String.[] = panic
reference_of (String.◌∷◌ c id) = elim (hash_of c id) [
  | ok sha ↦ ok (record { event_id = String.◌∷◌ c id; event_sha256 = sha })
  | err _ ↦ panic
  | panic ↦ panic
]

references_of : List String → Result (List EventReference)
references_of [] = ok []
references_of (id ∷ ids) = do r ← reference_of id; rs ← references_of ids; ok (r ∷ rs)

abbrev prev_events_of : References → Result (List EventReference)
unfolding references_of reference_of hash_of Base64.decode
prev_events_of (v1 prev auth) = ok prev
prev_events_of (v2 prev auth) = references_of prev

unfoldable pub prev_events : Event → Result (List EventReference)
unfolding references_of reference_of hash_of Base64.decode
prev_events e = prev_events_of e.references

abbrev pub prev_ids : References → List String
prev_ids (v1 prev auth) = map (λ (r : EventReference). r.event_id) prev
prev_ids (v2 prev auth) = prev

abbrev pub auth_ids : References → List String
auth_ids (v1 prev auth) = map (λ (r : EventReference). r.event_id) auth
auth_ids (v2 prev auth) = auth

unfoldable pub prev_event_ids : Event → List String
prev_event_ids e = prev_ids e.references

unfoldable pub auth_event_ids : Event → List String
auth_event_ids e = auth_ids e.references

-- `e.fields.(eventFormatV1Fields)` panics on an event of the other format.
abbrev has_format : References → EventFormat → Bool
has_format (v1 _ _) EventFormat.v1 = true
has_format (v2 _ _) EventFormat.v2 = true
has_format _ _ = false

unfoldable pub extract_content {ℓ} :
    {S : Type ℓ} → Event → String → (String → Decoder S) → S → Result S
unfolding decode_struct event_format
extract_content e event_type field zero_value = elim (event_format e.room_version) [
  | ok format ↦
      if not (has_format e.references format)
      then panic
      else if not (e.event_type == event_type)
      then err bad_event
      else (let (c, fits) = unmarshal (decode_struct field) e.content zero_value in
          if fits then ok c else err invalid_json)
  | _ ↦ panic
]

membership_field : String → Decoder String
unfolding names decode_string
membership_field k j m = if names "membership" k then decode_string j m else (m, true)

unfoldable pub membership : Event → Result String
unfolding extract_content membership_field
membership e = do
  m ← extract_content e m_room_member membership_field ""
  elim e.state_key [ none ↦ err bad_event | some _ ↦ ok m ]

-- SplitID: the local part and the domain.
unfoldable pub split_id : ℕ → String → Result (String × String)
unfolding before_first after_first
split_id sigil id = if not (first_is sigil id) then err bad_event else elim (after_first b':' id) [
  | none ↦ err bad_event
  | some domain ↦ elim (before_first b':' id) [
    | String.[] ↦ panic
    | String.◌∷◌ _ local ↦ ok (local, domain)
  ]
]
