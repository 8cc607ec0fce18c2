-- ===== src/Tests/NeededTests.antt =====
-- Tests of the state that an event needs.
use gomatrixserverlib.Prelude.{
  ◌≡◌, refl, true, Bool-cases, inl, inr, String, List, [], ◌∷◌, All, any, ◌==◌, eq_iff, some, none,
  if◌then◌else◌, subst,
}
use gomatrixserverlib.Result.{err, bad_event, ok}
use gomatrixserverlib.Json.{str, obj}
use gomatrixserverlib.Event.{Event}
use gomatrixserverlib.Auth.Provider.{
  AuthEvents, provider_of, new_auth_events, find_tuple, add_event,
}
use gomatrixserverlib.Auth.Membership.Checks.{VerifyJson}
use gomatrixserverlib.Auth.Allowed.{allowed_by}
use gomatrixserverlib.Auth.Needed.{
  tuples, state_needed_for_auth, accumulate_state_needed, needed_content, accumulate_all,
}
use gomatrixserverlib.Auth.Needed.Loaded.{needed_of}
use gomatrixserverlib.Auth.Needed.Sufficient.{
  SameUnder, KeepsStrings, allowed_by-state_needed_for_auth,
}
use gomatrixserverlib.Tests.Samples.{alice, bob, carol, in_version, one, member_event}

-- Each string once.
unfoldable distinct : List String → List String
distinct [] = []
distinct (s ∷ l) = let rest = distinct l in if any (λ t. t == s) rest then rest else s ∷ rest

All-any :
    (P : String → Type 0) (s : String) (l : List String)
    → any (λ t. t == s) l ≡ true
    → All P l
    → P s
All-any P s [] h all = cc
All-any P s (t ∷ l) h all = elim (Bool-cases (t == s)) [
  | inl e ↦ subst P ((eq_iff t s).0 e) all.0
  | inr e ↦ All-any P s l (rw e at h) all.1
]

distinct-KeepsStrings : KeepsStrings distinct
unfolding distinct
distinct-KeepsStrings P [] all = tt
distinct-KeepsStrings P (s ∷ l) all = elim (Bool-cases (any (λ t. t == s) (distinct l))) [
  | inl h ↦
      let rest = rw h at all in (All-any P s (distinct l) h rest, distinct-KeepsStrings P l rest)
  | inr h ↦ let parts = rw h at all in (parts.0, distinct-KeepsStrings P l parts.1)
]

verify_nothing : VerifyJson
verify_nothing domain key_id public_key signed = err bad_event

abbrev message : Event
message = in_version "1" "m.room.message" bob none none

abbrev creation : Event
creation = in_version "1" "m.room.create" alice (some "") (some (obj (one "creator" (str alice))))

-- The membership of Carol is not needed for a message of Bob.
abbrev few : AuthEvents
few = new_auth_events (creation ∷ member_event bob "join" ∷ [])

abbrev many : AuthEvents
many = new_auth_events (member_event carol "join" ∷ creation ∷ member_event bob "join" ∷ [])

message_told : (needed_of message).1 ≡ ok tt
unfolding accumulate_state_needed
message_told = refl

same_state : All (SameUnder few many) (tuples (state_needed_for_auth distinct (message ∷ [])))
unfolding tuples state_needed_for_auth distinct accumulate_state_needed needed_content
    new_auth_events add_event find_tuple accumulate_all
same_state = (refl, (refl, (refl, tt)))

allowed_by-state_needed_for_auth_example :
    allowed_by verify_nothing (provider_of few) message
    ≡ allowed_by verify_nothing (provider_of many) message
allowed_by-state_needed_for_auth_example =
    allowed_by-state_needed_for_auth distinct verify_nothing few many message distinct-KeepsStrings
      message_told same_state
