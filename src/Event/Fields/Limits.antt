-- ===== src/Event/Fields/Limits.antt =====
-- event.go: what CheckFields accepts, and when it says that an event is too large.
use gomatrixserverlib.Prelude.{
  ℕ, ◌≡◌, ◌≢◌, ◌≤◌, ◌<◌, arith, refl, ◌∙◌, ◌↔◌, ◌⊎◌, Bool, true, false, ltb, not, ◌&&◌, some, List,
  String, ◌==◌, eq_iff, length,
}
use gomatrixserverlib.Prelude.Text.{first_is, after_first}
use gomatrixserverlib.Result.{
  Result, Error, Check, ok, err, panic, too_large, wrong_sigil, id_too_long, nil_references,
  sender_origin, ◌>>=◌, ◌>>◌, >>=-eq-ok, ok->>=,
}
use gomatrixserverlib.Event.{m_room_member}
use gomatrixserverlib.Content.Create.{domain_from_id}
use gomatrixserverlib.Event.Fields.{
  max_id_length, max_event_length, byte_length, EventFields, FormatFields, nil_in_references,
  event_fields, fail_if, state_key_too_long, check_id, length_checks, sender_check, id_checks,
  check_fields,
}

-- An ID with its sigil and its domain, of at most 255 bytes.
abbrev pub IsIdIn : ℕ → String → String → Type 0
IsIdIn sigil domain id =
    (after_first b':' id ≡ some domain)
    × (first_is sigil id ≡ true)
    × (byte_length id ≤ max_id_length)

-- No text of the lengths that are checked is too long.
abbrev pub IsWithin : List ℕ → EventFields → Type 0
IsWithin event_json f =
    (length event_json ≤ max_event_length)
    × (byte_length f.event_type ≤ max_id_length)
    × (state_key_too_long f.state_key ≡ false)

domain_iff :
    (id domain : String) → (domain_from_id id ≡ ok domain) ↔ (after_first b':' id ≡ some domain)
unfolding domain_from_id
domain_iff id domain = ground arith

check_id_iff :
    (sigil : ℕ) (id domain : String) → (check_id id sigil ≡ ok domain) ↔ IsIdIn sigil domain id
unfolding check_id
check_id_iff sigil id domain = (
  λ h.
      let (name, first, rest) = >>=-eq-ok (domain_from_id id) _ h in
      (
        (domain_iff id domain).0 (first ∙ ground (arith, rest)),
        ground (arith, rest),
        ground (arith, rest),
      ),
  λ (h, starts, few). ok->>= ((domain_iff id domain).1 h) _ ∙ ground (arith, starts, few),
)

fail_if_iff : (b : Bool) (e : Error) → (fail_if b e ≡ ok tt) ↔ (b ≡ false)
fail_if_iff b e = ground arith

length_checks_iff :
    (event_json : List ℕ) (f : EventFields)
    → (length_checks event_json f ≡ ok tt) ↔ IsWithin event_json f
length_checks_iff event_json f = ground arith

sender_check_iff :
    (f : EventFields) (domain : String)
    → (sender_check f domain ≡ ok tt) ↔ ((f.origin ≡ domain) ⊎ (f.event_type ≡ m_room_member))
sender_check_iff f domain =
    ground (arith, eq_iff f.origin domain, eq_iff f.event_type m_room_member)

-- The room ID and the sender are such IDs, and the sender is of the origin's server, or the event is
-- one of a membership.
abbrev pub HasValidIds : EventFields → Type 0
HasValidIds f =
    ((room_domain : String) × IsIdIn b'!' room_domain f.room_id)
    × ((sender_domain : String) × IsIdIn b'@' sender_domain f.sender
        × ((f.origin ≡ sender_domain) ⊎ (f.event_type ≡ m_room_member)))

id_checks_iff : (f : EventFields) → (id_checks f ≡ ok tt) ↔ HasValidIds f
unfolding id_checks
id_checks_iff f = (
  λ h.
      let (room, r, rest) = >>=-eq-ok (check_id f.room_id b'!') _ h in
      let (sender, s, last) = >>=-eq-ok (check_id f.sender b'@') _ rest in
      (
        (room, (check_id_iff b'!' f.room_id room).0 r),
        (sender, (check_id_iff b'@' f.sender sender).0 s, (sender_check_iff f sender).0 last),
      ),
  λ ((room, r), (sender, s, last)).
      ok->>= ((check_id_iff b'!' f.room_id room).1 r) _
      ∙ ok->>= ((check_id_iff b'@' f.sender sender).1 s) _
      ∙ (sender_check_iff f sender).1 last,
)

-- A chain of checks passes exactly if both parts do.
>>-iff : (first second : Check) → ((first >> second) ≡ ok tt) ↔ ((first ≡ ok tt) × (second ≡ ok tt))
>>-iff (ok u) second = (λ h. (refl, h), λ (_, h). h)
>>-iff (err e) second = (λ h. cc h, λ (h, _). cc h)
>>-iff panic second = (λ h. cc h, λ (h, _). cc h)

-- CheckFields accepts an event exactly if neither its auth events nor its previous events are nil, its
-- JSON text has at most 65536 bytes, its type, its state key, its room ID and its sender have at most
-- 255 bytes each, the room ID begins with "!" and the sender with "@" and both have a ":", and what
-- follows the first ":" of the sender is the origin, unless the event is one of a membership.
pub check_fields_iff :
    (fields : FormatFields) (event_json : List ℕ)
    → (check_fields fields event_json ≡ ok tt) ↔ (
        (nil_in_references fields ≡ false)
        × IsWithin event_json (event_fields fields)
        × HasValidIds (event_fields fields))
unfolding check_fields
check_fields_iff fields event_json =
    let f = event_fields fields in
    let present = fail_if (nil_in_references fields) nil_references in
    let sized = length_checks event_json f in
    (
      λ h.
          let (both, ids) = (>>-iff (present >> sized) (id_checks f)).0 h in
          let (here, sizes) = (>>-iff present sized).0 both in
          (
            (fail_if_iff (nil_in_references fields) nil_references).0 here,
            (length_checks_iff event_json f).0 sizes,
            (id_checks_iff f).0 ids,
          ),
      λ (here, sizes, ids). (>>-iff (present >> sized) (id_checks f)).1 (
        (>>-iff present sized).1 (
          (fail_if_iff (nil_in_references fields) nil_references).1 here,
          (length_checks_iff event_json f).1 sizes,
        ),
        (id_checks_iff f).1 ids,
      ),
    )

-- The checks of the IDs give other errors.
domain-error : (id : String) → domain_from_id id ≢ err too_large
unfolding domain_from_id
domain-error id = ground arith

-- A chain does not give an error that none of its parts gives.
>>=-error :
    {A B : Type 0} (first : Result A) (next : A → Result B)
    → first ≢ err too_large
    → ((a : A) → next a ≢ err too_large)
    → (first >>= next) ≢ err too_large
>>=-error (ok a) next f n = n a
>>=-error (err e) next f n = λ h. f (cc h)
>>=-error panic next f n = λ h. cc h

fail_if-error : (b : Bool) (e : Error) → e ≢ too_large → fail_if b e ≢ err too_large
fail_if-error true e h = λ k. h (cc k)
fail_if-error false e h = λ k. cc k

check_id-error : (sigil : ℕ) (id : String) → check_id id sigil ≢ err too_large
unfolding check_id
check_id-error sigil id = >>=-error (domain_from_id id) _ (domain-error id) (λ domain.
    >>=-error (fail_if (not (first_is sigil id)) wrong_sigil) _
      (fail_if-error (not (first_is sigil id)) wrong_sigil (λ h. cc h))
      (λ _.
        >>=-error (fail_if (ltb max_id_length (byte_length id)) id_too_long) _
          (fail_if-error (ltb max_id_length (byte_length id)) id_too_long (λ h. cc h))
          (λ _ h. cc h)))

-- Only the checks of the lengths say that an event is too large.
id_checks-error : (f : EventFields) → id_checks f ≢ err too_large
unfolding id_checks
id_checks-error f = >>=-error (check_id f.room_id b'!') _ (check_id-error b'!' f.room_id) (λ _.
    >>=-error (check_id f.sender b'@') _ (check_id-error b'@' f.sender) (λ domain.
      fail_if-error (not (f.origin == domain) && not (f.event_type == m_room_member)) sender_origin
        (λ h. cc h)))

-- What is too long for CheckFields to say so.
abbrev pub IsTooLarge : List ℕ → EventFields → Type 0
IsTooLarge event_json f =
    (max_event_length < length event_json)
    ⊎ ((max_id_length < byte_length f.event_type) ⊎ (state_key_too_long f.state_key ≡ true))

length_checks-error :
    (event_json : List ℕ) (f : EventFields)
    → (length_checks event_json f ≡ err too_large) ↔ IsTooLarge event_json f
length_checks-error event_json f = ground arith

-- The middle of three checks, of which the others do not give the error, gives it.
middle_error :
    (b : Bool) (second third : Check)
    → third ≢ err too_large
    → ((fail_if b nil_references >> second >> third) ≡ err too_large)
      ↔ ((b ≡ false) × (second ≡ err too_large))
middle_error true second third h = (λ k. cc k, λ (b, _). cc b)
middle_error false (ok u) third h = (λ k. absurd (h k), λ (_, k). cc k)
middle_error false (err e) third h = (λ k. (refl, k), λ (_, k). k)
middle_error false panic third h = (λ k. cc k, λ (_, k). cc k)

-- CheckFields returns the EventValidationError for a too large event exactly if neither its auth
-- events nor its previous events are nil and its JSON text has more than 65536 bytes or its type or
-- its state key more than 255; a room ID or a sender of more than 255 bytes does not give this error.
pub check_fields-too_large :
    (fields : FormatFields) (event_json : List ℕ)
    → (check_fields fields event_json ≡ err too_large)
      ↔ ((nil_in_references fields ≡ false) × IsTooLarge event_json (event_fields fields))
unfolding check_fields
check_fields-too_large fields event_json =
    let f = event_fields fields in
    let (gives, given) =
      middle_error (nil_in_references fields) (length_checks event_json f) (id_checks f)
        (id_checks-error f) in
    let (long, too_long) = length_checks-error event_json f in
    (λ h. let (here, e) = gives h in (here, long e), λ (here, l). given (here, too_long l))
