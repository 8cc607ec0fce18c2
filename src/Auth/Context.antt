-- ===== src/Auth/Context.antt =====
-- `allowerContext` and `eventAllower` of eventauth.go: what the checks of one event read. The context
-- is shared by pointer and one of the checks writes to its join rule, so the checks of a membership
-- event give the context back.
use gomatrixserverlib.Prelude.{Bool, true, false, Option, none, some, String, ◌==◌, if◌then◌else◌}
use gomatrixserverlib.Prelude.Int.{leb_ℤ}
use gomatrixserverlib.Prelude.Text.{first_is}
use gomatrixserverlib.Result.{
  Result, ok, err, panic, Check, require, wrong_room, sender_not_in_room, sender_level,
  state_key_owner, ◌>>=◌, ◌>>◌,
}
use gomatrixserverlib.Event.{Event, join}
use gomatrixserverlib.Auth.Provider.{AuthEventProvider}
use gomatrixserverlib.Content.Create.{
  CreateContent, new_create_content_from_auth_events, user_id_allowed,
}
use gomatrixserverlib.Content.Member.{MemberContent, new_member_content_from_auth_events}
use gomatrixserverlib.Content.JoinRules.{JoinRuleContent, new_join_rule_content_from_auth_events}
use gomatrixserverlib.Content.PowerLevels.{
  PowerLevelContent, user_level, event_level, new_power_level_content_from_auth_events,
}

pub record AllowerContext : Type 0 where
  pub provider : AuthEventProvider
  pub create : CreateContent
  pub power_levels : PowerLevelContent
  pub join_rule : JoinRuleContent

-- `c, _ := load()`: the content is used whatever the error was; a panic is none.
abbrev pub dropping_error {ℓ} : {A : Type ℓ} → A × Check → Result A
dropping_error (a, panic) = panic
dropping_error (a, ok _) = ok a
dropping_error (a, err _) = ok a

unfoldable pub new_allower_context : AuthEventProvider → Result AllowerContext
unfolding new_create_content_from_auth_events new_power_level_content_from_auth_events
    new_join_rule_content_from_auth_events
new_allower_context provider = do
  create ← dropping_error (new_create_content_from_auth_events provider)
  power_levels ← dropping_error (new_power_level_content_from_auth_events provider create.creator)
  join_rule ← dropping_error (new_join_rule_content_from_auth_events provider)
  ok (record {
    provider = provider;
    create = create;
    power_levels = power_levels;
    join_rule = join_rule;
  })

pub record EventAllower : Type 0 where
  pub allower_context : AllowerContext
  pub open allower_context use *
  pub member : MemberContent

unfoldable pub new_event_allower : AllowerContext → String → Result EventAllower
new_event_allower a sender_id = do
  member ← new_member_content_from_auth_events a.provider sender_id
  ok (record { allower_context = a; member = member })

-- A state key that begins with '@' is only for the user of that ID.
abbrev pub owns_state_key : String → Option String → Bool
owns_state_key sender none = true
owns_state_key sender (some sk) = if first_is b'@' sk then sk == sender else true

abbrev pub is_some {ℓ} : {A : Type ℓ} → Option A → Bool
is_some none = false
is_some (some _) = true

unfoldable pub common_checks : EventAllower → Event → Check
common_checks e event = do
  require (event.room_id == e.create.room_id) wrong_room
  user_id_allowed e.create event.sender
  require (e.member.membership == join) sender_not_in_room
  require
      (leb_ℤ (event_level e.power_levels event.event_type (is_some event.state_key))
        (user_level e.power_levels event.sender))
      sender_level
  require (owns_state_key event.sender event.state_key) state_key_owner
