-- ===== src/Tests/ResolutionTests.antt =====
-- Tests of state resolution.
use gomatrixserverlib.Prelude.{ne_of_false, ◌≡◌, refl, none, some, [], ◌∷◌, lookup, true, false}
use gomatrixserverlib.Prelude.Text.{text_less}
use gomatrixserverlib.Prelude.Int.{pos}
use gomatrixserverlib.Result.{err, bad_event, ok_or, ok}
use gomatrixserverlib.ResolutionV2.Resolver.Fresh.{
  reloaded-IsFresh, IsFresh, auth_and_apply_events-IsFresh,
}
use gomatrixserverlib.ResolutionV2.Resolver.{
  auth_and_apply_event, StateResolver, auth_and_apply_events,
}
use gomatrixserverlib.Tests.Samples.{context, alice, bob, in_version, one, member_event}
use gomatrixserverlib.Json.{str, obj, fold_code}
use gomatrixserverlib.Event.{Event, prev_events, state_key_equals}
use gomatrixserverlib.Content.Create.{new_create_content_from_auth_events}
use gomatrixserverlib.Auth.Provider.{provider_of, new_auth_events}
use gomatrixserverlib.Auth.Context.{new_allower_context}
use gomatrixserverlib.Auth.Events.{create_event_allowed}
use gomatrixserverlib.Auth.Membership.Checks.{VerifyJson}
use gomatrixserverlib.Auth.Allowed.{allowed}
use gomatrixserverlib.ResolutionV2.{nothing_resolved, apply_events, apply_event, resolver_provider}
use gomatrixserverlib.ResolutionV2.Applied.{
  Alike, IsKept, apply_events-Alike, apply_events-collision,
}
use gomatrixserverlib.ResolutionV2.Order.{power_level_less}
use gomatrixserverlib.ResolutionV2.SenderLevel.{
  wrap_power_level_events_for_sort, wrap, event_map_from_events,
}
use gomatrixserverlib.ResolutionV2.SenderLevel.Cache.{
  IsSound, wrap_without_cache, wrap_power_level_events_for_sort-wrap_without_cache,
}

abbrev creation : Event
creation = in_version "1" "m.room.create" alice (some "") (some (obj (one "creator" (str alice))))

apply_events-Alike_example :
    Alike
      (resolver_provider (apply_events nothing_resolved (creation ∷ member_event bob "join" ∷ [])))
      (provider_of (new_auth_events (creation ∷ member_event bob "join" ∷ [])))
apply_events-Alike_example = apply_events-Alike (creation ∷ member_event bob "join" ∷ [])

-- A topic under a state key, and an event of another type that takes its place.
abbrev topic : Event
topic = in_version "1" "m.room.topic" alice (some "s") none

abbrev other_topic : Event
other_topic = in_version "1" "m.room.top" alice (some "ics") none

other_types : IsKept topic "m.room.topics" × IsKept other_topic "m.room.topics"
other_types = (
  (
    (
      ne_of_false _ _ refl,
      ne_of_false _ _ refl,
      ne_of_false _ _ refl,
      ne_of_false _ _ refl,
      ne_of_false _ _ refl,
    ),
    ("s", refl, refl),
  ),
  (
    (
      ne_of_false _ _ refl,
      ne_of_false _ _ refl,
      ne_of_false _ _ refl,
      ne_of_false _ _ refl,
      ne_of_false _ _ refl,
    ),
    ("ics", refl, refl),
  ),
)

apply_events-collision_example :
    lookup "m.room.topics" (apply_events nothing_resolved (topic ∷ other_topic ∷ [])).others
    ≡ lookup "m.room.topics" (apply_events nothing_resolved (other_topic ∷ [])).others
apply_events-collision_example =
    apply_events-collision nothing_resolved topic other_topic "m.room.topics" "m.room.topics"
      other_types.0 other_types.1

no_contents : IsSound (event_map_from_events (creation ∷ [])) []
unfolding lookup
no_contents id content h = cc

wrap_power_level_events_for_sort-wrap_without_cache_example :
    IsSound
      (event_map_from_events (creation ∷ []))
      (wrap_power_level_events_for_sort (event_map_from_events (creation ∷ [])) [] (topic ∷ [])).0
    × ((wrap_power_level_events_for_sort (event_map_from_events (creation ∷ [])) [] (topic ∷ [])).1
        ≡ wrap_without_cache (event_map_from_events (creation ∷ [])) (topic ∷ []))
wrap_power_level_events_for_sort-wrap_without_cache_example =
    wrap_power_level_events_for_sort-wrap_without_cache (event_map_from_events (creation ∷ []))
      (topic ∷ []) [] no_contents

-- The higher level is less, then the later time.
orders :
    (power_level_less (wrap topic (pos 50)) (wrap topic (pos 0)) ≡ true)
    × (power_level_less (wrap topic (pos 0)) (wrap other_topic (pos 0)) ≡ false)
unfolding power_level_less text_less
orders = (refl, refl)

abbrev verify_nothing : VerifyJson
verify_nothing domain key_id public_key signed = err bad_event

-- The resolver before any event.
abbrev blank : StateResolver
blank = record {
  allower = ok_or (new_allower_context (resolver_provider nothing_resolved)) (context "public");
  resolved = nothing_resolved;
}

blank_loads : new_allower_context (resolver_provider nothing_resolved) ≡ ok blank.allower
unfolding new_allower_context resolver_provider new_create_content_from_auth_events
blank_loads = refl

abbrev created : StateResolver
created = ok_or (auth_and_apply_events verify_nothing blank (creation ∷ [])) blank

creation_applied : auth_and_apply_events verify_nothing blank (creation ∷ []) ≡ ok created
unfolding auth_and_apply_events auth_and_apply_event allowed new_allower_context resolver_provider
    new_create_content_from_auth_events create_event_allowed state_key_equals prev_events
    apply_event fold_code
creation_applied = refl

auth_and_apply_events-IsFresh_example : IsFresh created
auth_and_apply_events-IsFresh_example =
    auth_and_apply_events-IsFresh verify_nothing (creation ∷ []) blank created
      (reloaded-IsFresh nothing_resolved blank.allower blank_loads) creation_applied
