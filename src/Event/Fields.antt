-- ===== src/Event/Fields.antt =====
-- event.go: CheckFields, on the fields of an event and the bytes of its JSON text. A nil slice of
-- references is none; lengths are those in bytes.
pub mod Limits
use gomatrixserverlib.Prelude.{
  ℕ, ◌+◌, ltb, Bool, true, false, ◌||◌, ◌&&◌, not, Option, none, some, List, [], ◌∷◌, String, ◌==◌,
  if◌then◌else◌, length,
}
use gomatrixserverlib.Prelude.Text.{first_is}
use gomatrixserverlib.Result.{
  Result, Error, Check, ok, err, nil_references, too_large, wrong_sigil, id_too_long, sender_origin,
  ◌>>=◌, ◌>>◌,
}
use gomatrixserverlib.Event.{EventReference, m_room_member}
use gomatrixserverlib.Content.Create.{domain_from_id}
use Prim.Native.Char.{code}

abbrev pub max_id_length : ℕ
max_id_length = 255

abbrev pub max_event_length : ℕ
max_event_length = 65536

-- The bytes that UTF-8 needs for a code point, and for a text: `len(s)`.
abbrev pub utf8_length : ℕ → ℕ
utf8_length c = if ltb c 128 then 1 else if ltb c 2048 then 2 else if ltb c 65536 then 3 else 4

unfoldable pub byte_length : String → ℕ
byte_length String.[] = 0
byte_length (String.◌∷◌ c s) = utf8_length (code c) + byte_length s

-- Of `eventFields`, what is checked.
pub record EventFields : Type 0 where
  pub room_id : String
  pub sender : String
  pub event_type : String
  pub state_key : Option String
  pub origin : String

-- `e.fields`, with the auth events and the previous events.
pub data FormatFields : Type 0 where
  v1 : EventFields → Option (List EventReference) → Option (List EventReference) → FormatFields
  v2 : EventFields → Option (List String) → Option (List String) → FormatFields

abbrev pub is_nil {ℓ} : {A : Type ℓ} → Option A → Bool
is_nil none = true
is_nil (some a) = false

abbrev pub nil_in_references : FormatFields → Bool
nil_in_references (v1 f auth prev) = is_nil auth || is_nil prev
nil_in_references (v2 f auth prev) = is_nil auth || is_nil prev

abbrev pub event_fields : FormatFields → EventFields
event_fields (v1 f auth prev) = f
event_fields (v2 f auth prev) = f

-- `if b { return e }`
abbrev pub fail_if : Bool → Error → Check
fail_if true e = err e
fail_if false e = ok tt

abbrev pub state_key_too_long : Option String → Bool
state_key_too_long none = false
state_key_too_long (some sk) = ltb max_id_length (byte_length sk)

unfoldable pub check_id : String → ℕ → Result String
unfolding domain_from_id byte_length
check_id id sigil = do
  domain ← domain_from_id id
  fail_if (not (first_is sigil id)) wrong_sigil
  fail_if (ltb max_id_length (byte_length id)) id_too_long
  ok domain

-- The checks of the lengths, in their order.
abbrev pub length_checks : List ℕ → EventFields → Check
length_checks event_json f =
    fail_if (ltb max_event_length (length event_json)) too_large
    >> fail_if (ltb max_id_length (byte_length f.event_type)) too_large
    >> fail_if (state_key_too_long f.state_key) too_large

abbrev pub sender_check : EventFields → String → Check
sender_check f domain =
    fail_if (not (f.origin == domain) && not (f.event_type == m_room_member)) sender_origin

abbrev pub id_checks : EventFields → Check
unfolding check_id
id_checks f = do
  _ ← check_id f.room_id b'!'
  sender_domain ← check_id f.sender b'@'
  sender_check f sender_domain

unfoldable pub check_fields : FormatFields → List ℕ → Check
unfolding check_id byte_length
check_fields fields event_json =
    fail_if (nil_in_references fields) nil_references
    >> length_checks event_json (event_fields fields)
    >> id_checks (event_fields fields)
