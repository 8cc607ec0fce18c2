-- ===== src/Tests/AccessorTests.antt =====
-- Tests of the accessors of contents, and of the state that a built event needs.
use gomatrixserverlib.Prelude.{◌≡◌, refl, true, List, [], ◌∷◌, String, some, none}
use gomatrixserverlib.Result.{ok, err, bad_event, not_allowed, unparsable_member}
use gomatrixserverlib.Json.{str, obj, fold_code}
use gomatrixserverlib.Version.Queries.{describe}
use gomatrixserverlib.Event.{extract_content, state_key_equals}
use gomatrixserverlib.Content.Accessors.{join_rule, history_visibility}
use gomatrixserverlib.Auth.Needed.{nothing_needed, accumulate_state_needed}
use gomatrixserverlib.Auth.Needed.Builder.{builder_content, state_needed_for_event_builder}
use gomatrixserverlib.Tests.Samples.{alice, in_version, one}

public_rule :
    join_rule (
      in_version "1" "m.room.join_rules" alice
        (some "")
        (some (obj (one "join_rule" (str "public")))))
    ≡ ok "public"
unfolding join_rule extract_content state_key_equals describe fold_code
public_rule = refl

-- An event without a state key has no join rule.
no_rule : join_rule (in_version "1" "m.room.join_rules" alice none none) ≡ err bad_event
unfolding join_rule state_key_equals
no_rule = refl

-- A value that is not known is "shared".
unknown_visibility :
    history_visibility (
      in_version "1" "m.room.history_visibility" alice
        (some "")
        (some (obj (one "history_visibility" (str "nobody")))))
    ≡ ok "shared"
unfolding history_visibility extract_content state_key_equals describe fold_code
unknown_visibility = refl

abbrev same : List String → List String
same l = l

topic_needed :
    state_needed_for_event_builder same
      (record { sender = alice; event_type = "m.room.topic"; state_key = some ""; content = none })
    ≡ (record nothing_needed { create = true; power_levels = true; member = alice ∷ [] }, ok tt)
unfolding state_needed_for_event_builder builder_content accumulate_state_needed
topic_needed = refl

-- A membership event needs a content.
no_content :
    state_needed_for_event_builder same (record {
      sender = alice;
      event_type = "m.room.member";
      state_key = some alice;
      content = none;
    })
    ≡ (nothing_needed, err (not_allowed unparsable_member))
unfolding state_needed_for_event_builder builder_content
no_content = refl
