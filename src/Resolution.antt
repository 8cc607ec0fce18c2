-- ===== src/Resolution.antt =====
-- ResolveConflicts of stateresolution.go, which chooses the algorithm by the room version. The map of
-- events by type and state key is ranged over in the order in which the keys were met.
pub mod Keys
pub mod Total
use gomatrixserverlib.Prelude.{
  ℕ, ltb, Bool, Option, none, some, List, [], ◌∷◌, ◌++◌, String, ◌==◌, if◌then◌else◌, any, length,
}
use gomatrixserverlib.Result.{Result, ok, ◌>>=◌}
use gomatrixserverlib.Version.{StateResAlgorithm}
use gomatrixserverlib.Version.Queries.{state_res_algorithm}
use gomatrixserverlib.Event.{Event}
use gomatrixserverlib.Auth.Provider.{key}
use gomatrixserverlib.Auth.Membership.Checks.{VerifyJson}
use gomatrixserverlib.ResolutionV1.Grouped.{Groups, put_group}
use gomatrixserverlib.ResolutionV1.Blocks.{Sha1, resolve_state_conflicts}
use gomatrixserverlib.ResolutionV2.Driver.{resolve_state_conflicts_v2}

-- The loop over the events: an ID that was met before is passed over, and so is an event that is no
-- state event; the others are appended to the list of their tuple.
abbrev pub add_tuple : Event → Option String → Groups → Groups
add_tuple event none map = map
add_tuple event (some sk) map = put_group (key event.event_type sk) event map

abbrev pub met_before : String → List String → Bool
met_before id ids = any (λ i. i == id) ids

unfoldable pub group_events : List Event → List String → Groups → Groups
unfolding put_group
group_events [] ids map = map
group_events (event ∷ events) ids map =
    let known = met_before event.event_id ids in
    group_events events (if known then ids else event.event_id ∷ ids)
      (if known then map else add_tuple event event.state_key map)

-- The lists of more than one event, and the others, each written one after the other.
unfoldable pub conflicted_of : Groups → List Event
conflicted_of [] = []
conflicted_of ((k, list) ∷ map) = (if ltb 1 (length list) then list else []) ++ conflicted_of map

unfoldable pub not_conflicted_of : Groups → List Event
not_conflicted_of [] = []
not_conflicted_of ((k, list) ∷ map) =
    (if ltb 1 (length list) then [] else list) ++ not_conflicted_of map

module _ (verify_json : VerifyJson) (sha1 : Sha1) (fuel : ℕ) where
  abbrev pub resolve_by :
      StateResAlgorithm → List Event → List Event → List Event → Result (List Event)
  resolve_by StateResAlgorithm.v1 conflicted not_conflicted auth_events = do
    resolved ← resolve_state_conflicts verify_json sha1 conflicted auth_events
    ok (resolved ++ not_conflicted)
  resolve_by StateResAlgorithm.v2 conflicted not_conflicted auth_events =
      resolve_state_conflicts_v2 verify_json fuel conflicted not_conflicted auth_events auth_events

  unfoldable pub resolve_conflicts : String → List Event → List Event → Result (List Event)
  unfolding group_events conflicted_of not_conflicted_of
  resolve_conflicts version events auth_events =
      let event_map = group_events events [] [] in
      state_res_algorithm version >>= λ algorithm.
      resolve_by algorithm (conflicted_of event_map) (not_conflicted_of event_map) auth_events
