-- ===== src/ResolutionV2/Resolver.antt =====
-- stateresolutionv2.go: the resolver's partial state with the context that events are judged by.
pub mod Fresh
use gomatrixserverlib.Prelude.{Bool, ◌||◌, List, [], ◌∷◌, String, ◌==◌, if◌then◌else◌}
use gomatrixserverlib.Result.{Result, ok, err, panic, Check, ◌>>=◌}
use gomatrixserverlib.Event.{Event, m_room_create, m_room_power_levels, m_room_join_rules}
use gomatrixserverlib.Auth.Context.{AllowerContext, new_allower_context}
use gomatrixserverlib.Auth.Membership.Checks.{VerifyJson}
use gomatrixserverlib.Auth.Allowed.{allowed}
use gomatrixserverlib.ResolutionV2.{Resolved, resolver_provider, apply_event, apply_events}

-- The context holds the contents as they were loaded, and the resolver itself as the provider, so
-- the members and invites that it looks up are always the ones resolved by then.
pub record StateResolver : Type 0 where
  pub allower : AllowerContext
  pub resolved : Resolved

unfoldable pub current : StateResolver → AllowerContext
current r = record (r.allower) { provider = resolver_provider r.resolved }

-- The types after which the contents are loaded again.
abbrev pub reloads : String → Bool
reloads t = t == m_room_create || t == m_room_power_levels || t == m_room_join_rules

abbrev pub reload : Event → AllowerContext → Resolved → Result StateResolver
reload event after resolved =
    if reloads event.event_type
    then (new_allower_context (resolver_provider resolved) >>= λ allower.
        ok (record { allower = allower; resolved = resolved }))
    else ok (record { allower = after; resolved = resolved })

-- A rejected event is dropped; the context is the one that its check left.
abbrev pub apply_if : StateResolver → Event → AllowerContext × Check → Result StateResolver
apply_if r event (after, ok _) = reload event after (apply_event r.resolved event)
apply_if r event (after, err _) = ok (record r { allower = after })
apply_if r event (after, panic) = panic

unfoldable pub auth_and_apply_event : VerifyJson → StateResolver → Event → Result StateResolver
auth_and_apply_event verify_json r event = apply_if r event (allowed verify_json (current r) event)

unfoldable pub auth_and_apply_events :
    VerifyJson → StateResolver → List Event → Result StateResolver
auth_and_apply_events verify_json r [] = ok r
auth_and_apply_events verify_json r (event ∷ events) =
    auth_and_apply_event verify_json r event >>= λ next.
    auth_and_apply_events verify_json next events

-- applyEvents, of the resolver: the context stays as it is.
unfoldable pub apply_unchecked : StateResolver → List Event → StateResolver
apply_unchecked r events = record r { resolved = apply_events r.resolved events }
