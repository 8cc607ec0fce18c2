-- ===== src/Auth/Allowed/Sender.antt =====
-- `allowed` of eventauth.go: what an accepted event that is no membership event says of its sender.
use gomatrixserverlib.Prelude.{◌≡◌, ◌≢◌, ◌==◌, arith, eq_false, inl, inr, Bool-cases}
use gomatrixserverlib.Result.{>>=-eq-ok, ok}
use gomatrixserverlib.Event.{
  Event, m_room_create, m_room_aliases, m_room_member, m_room_power_levels, m_room_redaction,
}
use gomatrixserverlib.Auth.Context.{AllowerContext, EventAllower, new_event_allower, common_checks}
use gomatrixserverlib.Auth.Events.{
  power_levels_checks, power_levels_event_allowed, redact_event_allowed, default_event_allowed,
}
use gomatrixserverlib.Auth.Events.PowerLevels.{
  IsCommon, common_checks-IsCommon, new_event_allower-facts,
}
use gomatrixserverlib.Auth.Membership.Checks.{VerifyJson}
use gomatrixserverlib.Auth.Allowed.{allowed}

-- A sender whose membership is read from the auth events of the context and who passed the checks
-- that are common to most events.
pub record SenderAccepted (a : AllowerContext) (event : Event) : Type 0 where
  pub sender_allower : EventAllower
  pub loaded : new_event_allower a event.sender ≡ ok sender_allower
  pub from_context : sender_allower.allower_context ≡ a
  pub common : IsCommon sender_allower event

module _ (a : AllowerContext) (event : Event) where
  accepted :
      (e : EventAllower)
      → new_event_allower a event.sender ≡ ok e
      → common_checks e event ≡ ok tt
      → SenderAccepted a event
  accepted e loaded h = record {
    sender_allower = e;
    loaded = loaded;
    from_context = (new_event_allower-facts a event.sender e loaded).0;
    common = common_checks-IsCommon e event h;
  }

  default-SenderAccepted : default_event_allowed a event ≡ ok tt → SenderAccepted a event
  unfolding default_event_allowed
  default-SenderAccepted h =
      let (e, loaded, checked) = >>=-eq-ok (new_event_allower a event.sender) _ h in
      accepted e loaded checked

  redact-SenderAccepted : redact_event_allowed a event ≡ ok tt → SenderAccepted a event
  unfolding redact_event_allowed
  redact-SenderAccepted h =
      let (e, loaded, checked) = >>=-eq-ok (new_event_allower a event.sender) _ h in
      accepted e loaded (ground arith)

  power_levels-SenderAccepted : power_levels_event_allowed a event ≡ ok tt → SenderAccepted a event
  unfolding power_levels_event_allowed power_levels_checks
  power_levels-SenderAccepted h =
      let (e, loaded, checked) = >>=-eq-ok (new_event_allower a event.sender) _ h in
      accepted e loaded (ground arith)

-- An accepted event that is no create, aliases or member event comes from a sender whose
-- membership, as the auth events give it, is "join", whose server may take part in the room, whose
-- level is enough for the event, and who owns the state key if it begins as a user ID does; the
-- event is of the room of the create event.
pub allowed-SenderAccepted :
    (verify_json : VerifyJson) (a : AllowerContext) (event : Event)
    → event.event_type ≢ m_room_create
    → event.event_type ≢ m_room_aliases
    → event.event_type ≢ m_room_member
    → (allowed verify_json a event).1 ≡ ok tt
    → SenderAccepted a event
unfolding allowed
allowed-SenderAccepted verify_json a event c l m h =
    let h₁ = rw (eq_false _ _ c, eq_false _ _ l, eq_false _ _ m) at h in
    elim (Bool-cases (event.event_type == m_room_power_levels)) [
      | inl p ↦ power_levels-SenderAccepted a event (rw p at h₁)
      | inr p ↦ elim (Bool-cases (event.event_type == m_room_redaction)) [
        | inl r ↦ redact-SenderAccepted a event (rw (p, r) at h₁)
        | inr r ↦ default-SenderAccepted a event (rw (p, r) at h₁)
      ]
    ]
