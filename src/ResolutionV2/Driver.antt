-- ===== src/ResolutionV2/Driver.antt =====
-- stateresolutionv2.go: ResolveStateConflictsV2 and the topological orders. The fuel of the recursions
-- over auth events is an argument.
use gomatrixserverlib.Prelude.{
  ℕ, zero, suc, Bool, true, false, ◌||◌, Option, none, some, List, [], ◌∷◌, ◌++◌, String, ◌==◌,
  if◌then◌else◌, Assoc, lookup, values, map, any,
}
use gomatrixserverlib.Result.{Result, ok, panic, ◌>>=◌}
use gomatrixserverlib.Event.{Event, auth_event_ids}
use gomatrixserverlib.Auth.Context.{new_allower_context}
use gomatrixserverlib.Auth.Membership.Checks.{VerifyJson}
use gomatrixserverlib.ResolutionV2.{Resolved, nothing_resolved, resolver_provider, is_control_event}
use gomatrixserverlib.ResolutionV2.Order.{ConflictedPowerLevel, ConflictedOther}
use gomatrixserverlib.ResolutionV2.SenderLevel.{
  Contents, event_map_from_events, wrap_power_level_events_for_sort,
}
use gomatrixserverlib.ResolutionV2.Kahn.{
  kahns_algorithm, kahns_algorithm_using_auth_events, kahns_algorithm_using_prev_events,
}
use gomatrixserverlib.ResolutionV2.Mainline.{
  create_power_level_mainline, mainline_positions, wrap_other_events_for_sort, mainline_ordering,
}
use gomatrixserverlib.ResolutionV2.Resolver.{auth_and_apply_events, apply_unchecked}

pub data TopologicalOrder : Type 0 where
  by_prev_events by_auth_events : TopologicalOrder
  -- a number that stands for no order
  unknown_order : TopologicalOrder

abbrev order_block : Contents → Result (List ConflictedPowerLevel) → Result (Contents × List Event)
order_block contents block = do
  wrapped ← block
  sorted ← kahns_algorithm_using_auth_events wrapped
  ok (contents, map (λ (x : ConflictedPowerLevel). x.event) sorted)

-- The events in order, with the contents that were read for it.
unfoldable pub reverse_topological_ordering :
    ℕ
    → Assoc Event
    → Assoc ℕ
    → Contents
    → List Event
    → TopologicalOrder
    → Result (Contents × List Event)
unfolding kahns_algorithm wrap_power_level_events_for_sort wrap_other_events_for_sort
reverse_topological_ordering fuel auth_event_map positions contents events by_auth_events =
    let (after, block) = wrap_power_level_events_for_sort auth_event_map contents events in
    order_block after block
reverse_topological_ordering fuel auth_event_map positions contents events by_prev_events =
    wrap_other_events_for_sort fuel auth_event_map positions events >>= λ wrapped.
    kahns_algorithm_using_prev_events wrapped >>= λ sorted.
    ok (contents, map (λ (x : ConflictedOther). x.event) sorted)
reverse_topological_ordering fuel auth_event_map positions contents events unknown_order = panic

-- ReverseTopologicalOrdering: with no auth events, one round of the search ends it.
unfoldable pub reverse_topological_ordering_of : List Event → TopologicalOrder → Result (List Event)
reverse_topological_ordering_of events order =
    reverse_topological_ordering 1 [] [] [] events order >>= λ ordered. ok ordered.1

-- fullControlSet: the event and its auth events among the conflicted ones; the IDs that were visited.
abbrev pub ControlSet : Type 0
ControlSet = List Event × List String

abbrev pub is_visited : String → List String → Bool
is_visited id visited = any (λ v. v == id) visited

abbrev expand :
    (Event → List String → Result ControlSet) → List String → Option Event → Result ControlSet
expand full visited none = ok ([], visited)
expand full visited (some event) = full event visited

abbrev visit_id :
    (Event → List String → Result ControlSet)
    → Assoc Event
    → String
    → List String
    → Bool
    → Result ControlSet
visit_id full conflicted_event_map id visited true = ok ([], visited)
visit_id full conflicted_event_map id visited false =
    expand full visited (lookup id conflicted_event_map) >>= λ set. ok (set.0, id ∷ set.1)

unfoldable pub control_ids :
    (Event → List String → Result ControlSet)
    → Assoc Event
    → List String
    → List String
    → Result ControlSet
control_ids full conflicted_event_map [] visited = ok ([], visited)
control_ids full conflicted_event_map (id ∷ ids) visited =
    visit_id full conflicted_event_map id visited (is_visited id visited) >>= λ set.
    control_ids full conflicted_event_map ids set.1 >>= λ rest. ok (set.0 ++ rest.0, rest.1)

unfoldable pub full_control_set : ℕ → Assoc Event → Event → List String → Result ControlSet
full_control_set zero conflicted_event_map event visited = panic
full_control_set (suc fuel) conflicted_event_map event visited =
    control_ids (full_control_set fuel conflicted_event_map) conflicted_event_map
      (auth_event_ids event) visited
    >>= λ set. ok (event ∷ set.0, set.1)

abbrev has_id : String → Event → Bool
has_id id e = e.event_id == id

-- An event that is in the list that the ID is looked for in.
abbrev pub is_among : List Event → Event → Bool
is_among events p = any (has_id p.event_id) events

-- The loop that collects the control events and what they pull in.
abbrev related : ℕ → Assoc Event → Event → List String → Bool → Result ControlSet
related fuel conflicted_event_map p visited false = ok ([], visited)
related fuel conflicted_event_map p visited true =
    full_control_set fuel conflicted_event_map p visited

unfoldable pub control_events :
    ℕ → Assoc Event → List Event → List Event → List String → Result (List Event)
control_events fuel conflicted_event_map unconflicted [] visited = ok []
control_events fuel conflicted_event_map unconflicted (p ∷ events) visited =
    related fuel conflicted_event_map p visited
      (if is_among unconflicted p then false else is_control_event p)
    >>= λ set. control_events fuel conflicted_event_map unconflicted events set.1 >>= λ rest.
        ok (set.0 ++ rest)

-- The loop that collects the others, given the control events.
unfoldable pub other_events : List Event → List Event → List Event → List Event
other_events unconflicted control [] = []
other_events unconflicted control (p ∷ events) =
    let rest = other_events unconflicted control events in
    if is_among unconflicted p || is_control_event p
    then rest
    else if is_among control p
    then rest
    else p ∷ rest

abbrev pub one_if : Option Event → List Event
one_if none = []
one_if (some e) = e ∷ []

-- The resolved state as a list.
unfoldable pub resolved_state : Resolved → List Event
resolved_state r =
    one_if r.create
    ++ (one_if r.join_rules
        ++ (one_if r.power_levels
            ++ (values r.members ++ (values r.third_party_invites ++ values r.others))))

module _ (verify_json : VerifyJson) (fuel : ℕ) where
  -- From the sets of events to the resolved state.
  unfoldable pub resolve_sets :
      Assoc Event → List Event → List Event → List Event → List Event → Result (List Event)
  unfolding reverse_topological_ordering
  resolve_sets auth_event_map auth_events unconflicted control others = do
    allower ← new_allower_context (resolver_provider nothing_resolved)
    chain ← reverse_topological_ordering fuel auth_event_map [] [] auth_events by_auth_events
    with_chain ←
        auth_and_apply_events verify_json
          (record { allower = allower; resolved = nothing_resolved }) chain.1
    base ← reverse_topological_ordering fuel auth_event_map [] chain.0 unconflicted by_auth_events
    let with_base = apply_unchecked with_chain base.1
    first ← reverse_topological_ordering fuel auth_event_map [] base.0 control by_auth_events
    with_control ← auth_and_apply_events verify_json with_base first.1
    mainline ← create_power_level_mainline fuel auth_event_map (with_control.resolved).power_levels
    last ← mainline_ordering fuel auth_event_map (mainline_positions 0 mainline []) others
    with_others ← auth_and_apply_events verify_json with_control last
    ok (resolved_state (apply_unchecked with_others base.1).resolved)

  unfoldable pub resolve_state_conflicts_v2 :
      List Event → List Event → List Event → List Event → Result (List Event)
  resolve_state_conflicts_v2 conflicted unconflicted auth_events auth_difference = do
    let full_conflicted_set = conflicted ++ auth_difference
    control ←
        control_events fuel (event_map_from_events conflicted) unconflicted full_conflicted_set []
    resolve_sets (event_map_from_events auth_events) auth_events unconflicted control
        (other_events unconflicted control full_conflicted_set)
