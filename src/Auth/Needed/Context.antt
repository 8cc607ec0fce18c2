-- ===== src/Auth/Needed/Context.antt =====
-- newAllowerContext of eventauth.go, on the events of an `AuthEvents`.
use gomatrixserverlib.Prelude.{
  lookup, Bool, true, false, String, ◌≡◌, ◌≢◌, refl, arith, Option, none, some,
}
use gomatrixserverlib.Result.{Result, ok, err, panic, Check}
use gomatrixserverlib.Version.Meta.{room_version_meta}
use gomatrixserverlib.Version.Queries.{described, require_integer_power_levels, describe}
use gomatrixserverlib.Version.{RoomVersionDescription}
use gomatrixserverlib.Content.PowerLevels.{
  by_strictness, PowerLevelContent, new_power_level_content_from_auth_events,
  new_power_level_content_from_event, read_levels,
}
use gomatrixserverlib.Event.{Event}
use gomatrixserverlib.Content.Create.{new_create_content_from_auth_events, domain_from_id}
use gomatrixserverlib.Content.JoinRules.{new_join_rule_content_from_auth_events}
use gomatrixserverlib.Auth.Provider.{AuthEventProvider}
use gomatrixserverlib.Auth.Context.{AllowerContext, new_allower_context, dropping_error}

-- A provider that finds an event or none.
pub record Finds (p : AuthEventProvider) : Type 0 where
  pub create : Option Event
  pub join_rules : Option Event
  pub power_levels : Option Event
  pub create_found : p.create ≡ ok create
  pub join_rules_found : p.join_rules ≡ ok join_rules
  pub power_levels_found : p.power_levels ≡ ok power_levels

dropping {ℓ} : {A : Type ℓ} (x : A × Check) → x.1 ≢ panic → dropping_error x ≡ ok x.0
dropping (a, ok u) h = refl
dropping (a, err e) h = refl
dropping (a, panic) h = absurd (h refl)

module _ (p : AuthEventProvider) (f : Finds p) where
  create_no_panic : (new_create_content_from_auth_events p).1 ≢ panic
  unfolding new_create_content_from_auth_events domain_from_id
  create_no_panic h = ground (arith, f.create_found, h)

  join_rule_no_panic : (new_join_rule_content_from_auth_events p).1 ≢ panic
  unfolding new_join_rule_content_from_auth_events
  join_rule_no_panic h = ground (arith, f.join_rules_found, h)

described_no_panic :
    (v : String) (found : Option RoomVersionDescription) → described v found ≢ panic
described_no_panic v none h = cc
described_no_panic v (some r) h = cc

describe_no_panic : (v : String) → describe v ≢ panic
unfolding describe
describe_no_panic v = described_no_panic v (lookup v room_version_meta)

require_no_panic : (v : String) → require_integer_power_levels v ≢ panic
unfolding require_integer_power_levels
require_no_panic v h = ground (arith, h, describe_no_panic v)

read_no_panic :
    (strict : Bool) (event : Event) (c : PowerLevelContent) → (read_levels strict event c).1 ≢ panic
unfolding read_levels
read_no_panic true event c h = ground (arith, h)
read_no_panic false event c h = ground (arith, h)

strictness_no_panic :
    (event : Event) (c : PowerLevelContent) (strict : Result Bool)
    → strict ≢ panic
    → (by_strictness event c strict).1 ≢ panic
strictness_no_panic event c (ok strict) h p = read_no_panic strict event c p
strictness_no_panic event c (err e) h p = cc
strictness_no_panic event c panic h p = h refl

event_no_panic : (event : Event) → (new_power_level_content_from_event event).1 ≢ panic
unfolding new_power_level_content_from_event
event_no_panic event =
    strictness_no_panic event _ (require_integer_power_levels event.room_version)
      (require_no_panic event.room_version)

levels_no_panic :
    (p : AuthEventProvider) (creator : String) (found : Option Event)
    → p.power_levels ≡ ok found
    → (new_power_level_content_from_auth_events p creator).1 ≢ panic
unfolding new_power_level_content_from_auth_events
levels_no_panic p creator none e h = cc (rw e at h)
levels_no_panic p creator (some event) e h = event_no_panic event (rw e at h)

-- The context that is loaded from a provider that finds an event or none.
abbrev pub loaded : AuthEventProvider → AllowerContext
loaded p =
    let create = (new_create_content_from_auth_events p).0 in
    record {
      provider = p;
      create = create;
      power_levels = (new_power_level_content_from_auth_events p create.creator).0;
      join_rule = (new_join_rule_content_from_auth_events p).0;
    }

pub new_allower_context-loaded :
    (p : AuthEventProvider) → Finds p → new_allower_context p ≡ ok (loaded p)
unfolding new_allower_context
new_allower_context-loaded p f =
    let create = (new_create_content_from_auth_events p).0 in
    rw (
      dropping (new_create_content_from_auth_events p) (create_no_panic p f),
      dropping (new_power_level_content_from_auth_events p create.creator)
          (levels_no_panic p create.creator f.power_levels f.power_levels_found),
      dropping (new_join_rule_content_from_auth_events p) (join_rule_no_panic p f),
    )
