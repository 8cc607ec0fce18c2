-- ===== src/Tests/ConflictTests.antt =====
-- Tests of state resolution by stateresolution.go.
use gomatrixserverlib.Prelude.{
  ◌≡◌, refl, sym, ◌∙◌, Bool, none, some, List, [], ◌∷◌, lookup, All, map,
}
use gomatrixserverlib.Prelude.Int.{pos}
use gomatrixserverlib.Prelude.Text.{codes}
use gomatrixserverlib.Prelude.Sort.{count}
use gomatrixserverlib.Result.{err, bad_event, not_allowed, wrong_room, ok, ok_inj}
use gomatrixserverlib.Auth.Context.{common_checks, new_event_allower, new_allower_context}
use gomatrixserverlib.Auth.Events.{default_event_allowed}
use gomatrixserverlib.Content.Member.{new_member_content_from_auth_events}
use gomatrixserverlib.Version.{StateResAlgorithm}
use gomatrixserverlib.Version.Queries.{state_res_algorithm, describe}
use gomatrixserverlib.Event.{Event}
use gomatrixserverlib.Content.Create.{new_create_content_from_auth_events}
use gomatrixserverlib.Auth.Membership.Checks.{VerifyJson}
use gomatrixserverlib.Auth.Allowed.{allowed, allowed_by}
use gomatrixserverlib.ResolutionV1.{
  ResolvedAuthEvents, no_auth_events, resolver_v1_provider, add_auth_event, remove_auth_event,
}
use gomatrixserverlib.ResolutionV1.Blocks.{
  add_auth_events, resolve_state_conflicts, sort_conflicted_events_by_depth_and_sha1,
}
use gomatrixserverlib.ResolutionV1.Returns.{IsChecked}
use gomatrixserverlib.ResolutionV1.OnePerKey.{IsResolution}
use gomatrixserverlib.ResolutionV1.Total.{resolve_state_conflicts-Resolves}
use gomatrixserverlib.ResolutionV1.Sorted.{
  AreOrdered, event_of, sort_conflicted_events_by_depth_and_sha1-AreOrdered,
}
use gomatrixserverlib.Resolution.{resolve_conflicts}
use gomatrixserverlib.Resolution.Keys.{first_by_id}
use gomatrixserverlib.Resolution.Total.{StateIsChecked, resolve_conflicts-Resolves}
use gomatrixserverlib.Tests.Samples.{alice, in_version}

abbrev verify_none : VerifyJson
verify_none domain key_id public_key signed = err bad_event

abbrev old_topic : Event
old_topic = record (in_version "1" "m.room.topic" alice (some "") none) { event_id = "$1:a" }

abbrev new_topic : Event
new_topic = record (in_version "1" "m.room.topic" alice (some "") none) {
  event_id = "$2:a";
  depth = pos 2;
}

abbrev NothingAdded : ResolvedAuthEvents → Type 0
NothingAdded r = r ≡ no_auth_events

-- With no create event, the room is another one.
old_refused :
    allowed_by verify_none (resolver_v1_provider no_auth_events) old_topic
    ≡ err (not_allowed wrong_room)
unfolding allowed_by allowed default_event_allowed new_event_allower common_checks
    new_allower_context resolver_v1_provider new_create_content_from_auth_events
    new_member_content_from_auth_events lookup
old_refused = refl

new_refused :
    allowed_by verify_none (resolver_v1_provider no_auth_events) new_topic
    ≡ err (not_allowed wrong_room)
unfolding allowed_by allowed default_event_allowed new_event_allower common_checks
    new_allower_context resolver_v1_provider new_create_content_from_auth_events
    new_member_content_from_auth_events lookup
new_refused = refl

topic-IsChecked : IsChecked verify_none NothingAdded old_topic
unfolding add_auth_event remove_auth_event
topic-IsChecked = record {
  state = ("", refl);
  ends = λ r q. rw q (λ h. cc (old_refused, h));
  adds = λ r next q h. sym (ok_inj h) ∙ q;
  removes = λ r sk q h. q;
}

new_topic-IsChecked : IsChecked verify_none NothingAdded new_topic
unfolding add_auth_event remove_auth_event
new_topic-IsChecked = record {
  state = ("", refl);
  ends = λ r q. rw q (λ h. cc (new_refused, h));
  adds = λ r next q h. sym (ok_inj h) ∙ q;
  removes = λ r sk q h. q;
}

no_events_added : add_auth_events [] no_auth_events ≡ ok no_auth_events
unfolding add_auth_events
no_events_added = refl

resolve_state_conflicts-Resolves_example :
    (result : List Event) × (resolve_state_conflicts verify_none codes
        (old_topic ∷ new_topic ∷ [])
        []
      ≡ ok result)
    × IsResolution (old_topic ∷ new_topic ∷ []) result
resolve_state_conflicts-Resolves_example =
    resolve_state_conflicts-Resolves verify_none codes NothingAdded (old_topic ∷ new_topic ∷ []) []
      no_auth_events (topic-IsChecked, (new_topic-IsChecked, tt)) no_events_added refl

sort_conflicted_events_by_depth_and_sha1-AreOrdered_example :
    AreOrdered codes
      (map event_of (sort_conflicted_events_by_depth_and_sha1 codes (new_topic ∷ old_topic ∷ [])))
    × ((p : Event → Bool)
        → count p (
            map event_of
              (sort_conflicted_events_by_depth_and_sha1 codes (new_topic ∷ old_topic ∷ [])))
          ≡ count p (new_topic ∷ old_topic ∷ []))
sort_conflicted_events_by_depth_and_sha1-AreOrdered_example =
    sort_conflicted_events_by_depth_and_sha1-AreOrdered codes (new_topic ∷ old_topic ∷ [])

first_algorithm : state_res_algorithm "1" ≡ ok StateResAlgorithm.v1
unfolding state_res_algorithm describe
first_algorithm = refl

-- A third event, which is no state event, is passed over.
abbrev message : Event
message = record (in_version "1" "m.room.message" alice none none) { event_id = "$3:a" }

three-Checked :
    All
      (StateIsChecked verify_none NothingAdded)
      (first_by_id (old_topic ∷ new_topic ∷ message ∷ []) [])
three-Checked = (λ _. topic-IsChecked, (λ _. new_topic-IsChecked, (λ h. cc h.1, tt)))

resolve_conflicts-Resolves_example :
    (result : List Event) × (resolve_conflicts verify_none codes 1 "1"
        (old_topic ∷ new_topic ∷ message ∷ [])
        []
      ≡ ok result)
    × IsResolution (first_by_id (old_topic ∷ new_topic ∷ message ∷ []) []) result
resolve_conflicts-Resolves_example =
    resolve_conflicts-Resolves verify_none codes 1 NothingAdded "1"
      (old_topic ∷ new_topic ∷ message ∷ []) [] no_auth_events first_algorithm three-Checked
      no_events_added refl
