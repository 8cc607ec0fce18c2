-- ===== src/AuthChain/Collected.antt =====
-- checkAllowedByAuthEvents of federationtypes.go without a provider, against the auth rules by the auth
-- events that are known.
use gomatrixserverlib.Prelude.{
  ℕ, suc, ◌≡◌, refl, ap, sym, ◌∙◌, Option, none, some, List, [], ◌∷◌, String, lookup, All,
}
use gomatrixserverlib.Result.{ok, Check}
use gomatrixserverlib.Event.{Event, auth_event_ids}
use gomatrixserverlib.Auth.Provider.{
  AuthEvents, add_keyed, add_event, add_all, new_auth_events, provider_of,
}
use gomatrixserverlib.Auth.Membership.Checks.{VerifyJson}
use gomatrixserverlib.Auth.Allowed.{allowed_by}
use gomatrixserverlib.AuthChain.{
  EventMap, Run, and_then, Fetched, added, retry_event, fetch_event, fetch_events, no_auth_events,
  concluded, check_allowed_by_auth_events,
}
use gomatrixserverlib.ResolutionV1.Collected.{IsState}

-- The events that a map has for IDs.
abbrev pub cons_found : Option (Option Event) → List Event → List Event
cons_found none rest = rest
cons_found (some none) rest = rest
cons_found (some (some e)) rest = e ∷ rest

abbrev pub known_events : EventMap → List String → List Event
known_events by_id [] = []
known_events by_id (id ∷ ids) = cons_found (lookup id by_id) (known_events by_id ids)

-- The verdict by the known auth events of an event.
abbrev pub verdict_by_known : VerifyJson → Event → EventMap → Check
verdict_by_known verify_json event by_id =
    allowed_by verify_json
      (provider_of (new_auth_events (known_events by_id (auth_event_ids event)))) event

module _ (fuel : ℕ) (version : String) (by_id : EventMap) where
  one-fetched :
      (a : AuthEvents) (rest : List Event) (o : Option (Option Event))
      (again : Fetched → Run Fetched) (id : String)
      → All IsState (cons_found o rest)
      → (next : AuthEvents) × (retry_event again none version id (a, by_id) o
          ≡ some (ok (next, by_id)))
        × (add_all next rest ≡ add_all a (cons_found o rest))
        × All IsState rest
  unfolding add_all add_event
  one-fetched a rest none again id h = (a, refl, refl, h)
  one-fetched a rest (some none) again id h = (a, refl, refl, h)
  one-fetched a rest (some (some e)) again id ((sk, keyed), h) = (
    (add_event a e).0,
    ap (λ o. some (added by_id (add_keyed a e o))) keyed
        ∙ ap (λ o. some (ok ((add_keyed a e o).0, by_id))) (sym keyed),
    refl,
    h,
  )

  all-fetched :
      (ids : List String) (a : AuthEvents)
      → All IsState (known_events by_id ids)
      → fetch_events (suc fuel) none version ids (a, by_id)
        ≡ some (ok (add_all a (known_events by_id ids), by_id))
  unfolding fetch_events fetch_event add_all
  all-fetched [] a h = refl
  all-fetched (id ∷ ids) a h =
      let (next, fetched, same, rest) =
        one-fetched a (known_events by_id ids) (lookup id by_id) (fetch_event fuel none version id)
          id h in
      ap (λ r. and_then r (fetch_events (suc fuel) none version ids)) fetched
      ∙ all-fetched ids next rest
      ∙ ap (λ x. some (ok (x, by_id))) same

module _ (verify_json : VerifyJson) (event : Event) where
  -- Where the auth events of an event that a map has are state events, checkAllowedByAuthEvents without
  -- a provider ends with the verdict of Allowed by the AuthEvents of those events: IDs without an entry
  -- and nil entries are passed over.
  pub check_allowed_by_auth_events-known :
      (fuel : ℕ) (by_id : EventMap)
      → All IsState (known_events by_id (auth_event_ids event))
      → check_allowed_by_auth_events verify_json (suc fuel) event by_id none
        ≡ concluded by_id (verdict_by_known verify_json event by_id)
  unfolding check_allowed_by_auth_events new_auth_events
  check_allowed_by_auth_events-known fuel by_id h =
      ap
        (λ r.
          and_then r
            λ (s : Fetched). concluded s.1 (allowed_by verify_json (provider_of s.0) event))
        (all-fetched fuel event.room_version by_id (auth_event_ids event) no_auth_events h)
