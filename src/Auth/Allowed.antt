-- ===== src/Auth/Allowed.antt =====
-- `allowed` and `Allowed` of eventauth.go: the checks by event type.
pub mod Sender
pub mod Shared
use gomatrixserverlib.Prelude.{String, ◌==◌, if◌then◌else◌}
use gomatrixserverlib.Result.{Result, ok, err, panic, Check, ◌>>=◌}
use gomatrixserverlib.Event.{
  Event, m_room_create, m_room_aliases, m_room_member, m_room_power_levels, m_room_redaction,
}
use gomatrixserverlib.Auth.Provider.{AuthEventProvider}
use gomatrixserverlib.Auth.Context.{AllowerContext, new_allower_context}
use gomatrixserverlib.Auth.Events.{
  create_event_allowed, alias_event_allowed, power_levels_event_allowed, redact_event_allowed,
  default_event_allowed,
}
use gomatrixserverlib.Auth.Membership.{MembershipAllower, new_membership_allower}
use gomatrixserverlib.Auth.Membership.Checks.{VerifyJson, membership_allowed}

-- The context with the join rule that the checks left in it.
abbrev pub with_join_rule : AllowerContext → String → AllowerContext
with_join_rule a rule = record a { join_rule = record (a.join_rule) { join_rule = rule } }

abbrev pub judge :
    VerifyJson → AllowerContext → Event → Result MembershipAllower → AllowerContext × Check
judge verify_json a event (err e) = (a, err e)
judge verify_json a event panic = (a, panic)
judge verify_json a event (ok m) =
    let (rule, verdict) = membership_allowed verify_json m event in (with_join_rule a rule, verdict)

unfoldable pub member_event_allowed : VerifyJson → AllowerContext → Event → AllowerContext × Check
member_event_allowed verify_json a event =
    judge verify_json a event (new_membership_allower a event)

unfoldable pub allowed : VerifyJson → AllowerContext → Event → AllowerContext × Check
allowed verify_json a event =
    let t = event.event_type in
    if t == m_room_create
    then (a, create_event_allowed event)
    else if t == m_room_aliases
    then (a, alias_event_allowed a event)
    else if t == m_room_member
    then member_event_allowed verify_json a event
    else if t == m_room_power_levels
    then (a, power_levels_event_allowed a event)
    else if t == m_room_redaction
    then (a, redact_event_allowed a event)
    else (a, default_event_allowed a event)

-- The exported function makes a context of its own.
unfoldable pub allowed_by : VerifyJson → AuthEventProvider → Event → Check
allowed_by verify_json auth_events event = do
  a ← new_allower_context auth_events
  (allowed verify_json a event).1
