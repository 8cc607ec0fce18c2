-- ===== src/ResolutionV2/Applied.antt =====
-- The partial state of state resolution against the map of `AuthEvents`.
use gomatrixserverlib.Prelude.{
  lookup, ap, Bool-cases, inl, inr, ◌≡◌, ◌≢◌, refl, arith, eq_iff, eq_false, String, List, [], ◌∷◌,
  Option, none, some, insert, lookup-insert, ◌==◌,
}
use gomatrixserverlib.Prelude.Text.{concat}
use gomatrixserverlib.Result.{ok}
use gomatrixserverlib.Auth.Provider.{
  add_keyed, AuthEventProvider, add_all, new_auth_events, provider_of, AuthEvents, key, find_tuple,
  put_tuple, find_tuple-put_tuple, add_event,
}
use gomatrixserverlib.ResolutionV2.{
  apply_keyed, apply_events, nothing_resolved, resolver_provider, Resolved, apply_event,
  apply_state_event,
}
use gomatrixserverlib.Event.{
  Event, m_room_create, m_room_join_rules, m_room_power_levels, m_room_member,
  m_room_third_party_invite,
}

-- An event type that has no entry of its own in the resolver.
abbrev pub IsOther : String → Type 0
IsOther t =
    (t ≢ m_room_create)
    × (t ≢ m_room_power_levels)
    × (t ≢ m_room_join_rules)
    × (t ≢ m_room_third_party_invite)
    × (t ≢ m_room_member)

-- The resolver answers as the map does, where the keys are valid.
pub record Agrees (r : Resolved) (a : AuthEvents) : Type 0 where
  pub create : r.create ≡ find_tuple (key m_room_create "") a.events
  pub join_rules : r.join_rules ≡ find_tuple (key m_room_join_rules "") a.events
  pub power_levels : r.power_levels ≡ find_tuple (key m_room_power_levels "") a.events
  pub member :
      (sk : String) → sk ≢ "" → lookup sk r.members ≡ find_tuple (key m_room_member sk) a.events
  pub third_party_invite :
      (sk : String)
      → sk ≢ ""
      → lookup sk r.third_party_invites ≡ find_tuple (key m_room_third_party_invite sk) a.events

module _ (r : Resolved) (a : AuthEvents) (event : Event) (sk : String) (h : Agrees r a) where
  abbrev t : String
  t = event.event_type

  put-create :
      (apply_state_event r event sk).create
      ≡ find_tuple (key m_room_create "") (put_tuple (key t sk) event a.events)
  put-create = ground (
    arith,
    find_tuple-put_tuple (key t sk) (key m_room_create "") event a.events,
    h.create,
    eq_iff t m_room_create,
    eq_iff sk "",
  )

  put-member :
      (user : String)
      → user ≢ ""
      → lookup user (apply_state_event r event sk).members
        ≡ find_tuple (key m_room_member user) (put_tuple (key t sk) event a.events)
  put-member user named =
      let found = find_tuple-put_tuple (key t sk) (key m_room_member user) event a.events in
      let before = h.member user named in
      elim (Bool-cases (t == m_room_member)) [
        | inl p ↦
            let q : t ≡ m_room_member = (eq_iff t m_room_member).0 p in
            rw (found, q)
              (ground (
                arith,
                lookup-insert sk user event r.members,
                before,
                eq_iff sk "",
                eq_iff sk user,
                eq_iff user "",
              ))
        | inr p ↦ rw (found, p) (ground (arith, before))
      ]

  put-join_rules :
      (apply_state_event r event sk).join_rules
      ≡ find_tuple (key m_room_join_rules "") (put_tuple (key t sk) event a.events)
  put-join_rules =
      let found = find_tuple-put_tuple (key t sk) (key m_room_join_rules "") event a.events in
      elim (Bool-cases (t == m_room_join_rules)) [
        | inl p ↦
            let q : t ≡ m_room_join_rules = (eq_iff t m_room_join_rules).0 p in
            rw (found, q) (ground (arith, h.join_rules, eq_iff sk ""))
        | inr p ↦ rw (found, p) (ground (arith, h.join_rules))
      ]

  put-power_levels :
      (apply_state_event r event sk).power_levels
      ≡ find_tuple (key m_room_power_levels "") (put_tuple (key t sk) event a.events)
  put-power_levels =
      let found = find_tuple-put_tuple (key t sk) (key m_room_power_levels "") event a.events in
      elim (Bool-cases (t == m_room_power_levels)) [
        | inl p ↦
            let q : t ≡ m_room_power_levels = (eq_iff t m_room_power_levels).0 p in
            rw (found, q) (ground (arith, h.power_levels, eq_iff sk ""))
        | inr p ↦ rw (found, p) (ground (arith, h.power_levels))
      ]

  put-third_party_invite :
      (token : String)
      → token ≢ ""
      → lookup token (apply_state_event r event sk).third_party_invites
        ≡ find_tuple (key m_room_third_party_invite token) (put_tuple (key t sk) event a.events)
  put-third_party_invite token named =
      let found =
        find_tuple-put_tuple (key t sk) (key m_room_third_party_invite token) event a.events in
      let before = h.third_party_invite token named in
      elim (Bool-cases (t == m_room_third_party_invite)) [
        | inl p ↦
            let q : t ≡ m_room_third_party_invite = (eq_iff t m_room_third_party_invite).0 p in
            rw (found, q)
              (ground (
                arith,
                lookup-insert sk token event r.third_party_invites,
                before,
                eq_iff sk "",
                eq_iff sk token,
                eq_iff token "",
              ))
        | inr p ↦ rw (found, p) (ground (arith, before))
      ]

keyed-Agrees :
    (r : Resolved) (a : AuthEvents) (event : Event) (state_key : Option String)
    → Agrees r a
    → Agrees (apply_keyed r event state_key) (add_keyed a event state_key).0
keyed-Agrees r a event none h = h
keyed-Agrees r a event (some sk) h = record {
  create = put-create r a event sk h;
  join_rules = put-join_rules r a event sk h;
  power_levels = put-power_levels r a event sk h;
  member = put-member r a event sk h;
  third_party_invite = put-third_party_invite r a event sk h;
}

apply_events-Agrees :
    (r : Resolved) (a : AuthEvents) (events : List Event)
    → Agrees r a
    → Agrees (apply_events r events) (add_all a events)
unfolding apply_events apply_event add_all add_event
apply_events-Agrees r a [] h = h
apply_events-Agrees r a (event ∷ events) h =
    apply_events-Agrees (apply_event r event) (add_event a event).0 events
      (keyed-Agrees r a event event.state_key h)

-- Two providers that answer alike, but for the keys that are never valid.
pub record Alike (p q : AuthEventProvider) : Type 0 where
  pub create : p.create ≡ q.create
  pub join_rules : p.join_rules ≡ q.join_rules
  pub power_levels : p.power_levels ≡ q.power_levels
  pub member : (sk : String) → sk ≢ "" → p.member sk ≡ q.member sk
  pub third_party_invite :
      (token : String) → token ≢ "" → p.third_party_invite token ≡ q.third_party_invite token

-- State resolution that has applied a list of events answers, as an AuthEventProvider, as the
-- AuthEvents of that list do, for every user and every token but the empty one.
pub apply_events-Alike :
    (events : List Event)
    → Alike
        (resolver_provider (apply_events nothing_resolved events))
        (provider_of (new_auth_events events))
unfolding resolver_provider provider_of new_auth_events lookup
apply_events-Alike events =
    let none_yet : Agrees nothing_resolved (record { events = [] }) = record {
      create = refl;
      join_rules = refl;
      power_levels = refl;
      member = λ sk _. refl;
      third_party_invite = λ token _. refl;
    } in
    let h = apply_events-Agrees nothing_resolved (record { events = [] }) events none_yet in
    record {
      create = ap ok h.create;
      join_rules = ap ok h.join_rules;
      power_levels = ap ok h.power_levels;
      member = λ sk named. ap ok (h.member sk named);
      third_party_invite = λ token named. ap ok (h.third_party_invite token named);
    }

-- The text that an event's entry among the others is found by.
abbrev pub IsKept : Event → String → Type 0
IsKept event text =
    IsOther event.event_type
    × ((sk : String) × (event.state_key ≡ some sk) × (concat event.event_type sk ≡ text))

others-apply_event :
    (r : Resolved) (event : Event) (text : String)
    → IsKept event text
    → (apply_event r event).others ≡ insert text event r.others
unfolding apply_event
others-apply_event r event text ((c, p, j, t, m), (sk, e, same)) =
    rw (e, same, eq_false _ _ c, eq_false _ _ p, eq_false _ _ j, eq_false _ _ t, eq_false _ _ m)

-- Of two state events that have no entry of their own in the resolver and whose type and state key,
-- written as one text, are the same, the first is as if it had not been applied, also where their
-- types differ.
pub apply_events-collision :
    (r : Resolved) (first second : Event) (text k : String)
    → IsKept first text
    → IsKept second text
    → lookup k (apply_events r (first ∷ second ∷ [])).others
      ≡ lookup k (apply_events r (second ∷ [])).others
unfolding apply_events
apply_events-collision r first second text k f s =
    rw
      (
        others-apply_event (apply_event r first) second text s,
        others-apply_event r first text f,
        others-apply_event r second text s,
      )
      (ground (
        arith,
        lookup-insert text k second (insert text first r.others),
        lookup-insert text k first r.others,
        lookup-insert text k second r.others,
      ))
