-- ===== src/Resolution/Total.antt =====
-- ResolveConflicts of stateresolution.go: that it returns.
use gomatrixserverlib.Prelude.{◌≡◌, ◌∙◌, false, List, [], ◌∷◌, ◌++◌, String, All, ℕ}
use gomatrixserverlib.Result.{ok, ok->>=}
use gomatrixserverlib.Version.{StateResAlgorithm}
use gomatrixserverlib.Version.Queries.{state_res_algorithm}
use gomatrixserverlib.Event.{Event}
use gomatrixserverlib.Auth.Membership.Checks.{VerifyJson}
use gomatrixserverlib.ResolutionV1.{ResolvedAuthEvents, no_auth_events}
use gomatrixserverlib.ResolutionV1.Blocks.{Sha1, add_auth_events}
use gomatrixserverlib.ResolutionV1.Collected.{IsState}
use gomatrixserverlib.ResolutionV1.Returns.{IsChecked}
use gomatrixserverlib.ResolutionV1.OnePerKey.{IsResolution}
use gomatrixserverlib.ResolutionV1.Total.{resolve_state_conflicts-Resolves}
use gomatrixserverlib.Resolution.{
  group_events, conflicted_of, not_conflicted_of, resolve_by, resolve_conflicts,
}
use gomatrixserverlib.Resolution.Keys.{
  first_by_id, no_AreGroups, group_events-AreGroups, group_events-Kept, lists-Kept, IsGroup-states,
  resolve_v1-once,
}

-- What holds of the state events of a list, all of which are state events, holds of them all.
All-states :
    (P : Event → Type 0) (events : List Event)
    → All IsState events
    → All (λ e. IsState e → P e) events
    → All P events
All-states P [] state h = tt
All-states P (e ∷ events) state h = (h.0 state.0, All-states P events state.1 h.1)

-- What is asked of the events: only those that are state events are checked.
abbrev pub StateIsChecked : VerifyJson → (ResolvedAuthEvents → Type 0) → Event → Type 0
StateIsChecked verify_json Q e = IsState e → IsChecked verify_json Q e

module _ (verify_json : VerifyJson) (sha1 : Sha1) (fuel : ℕ) where
  module _ (Q : ResolvedAuthEvents → Type 0) where
    conflicted-Checked :
        (events : List Event)
        → All (StateIsChecked verify_json Q) (first_by_id events [])
        → All (IsChecked verify_json Q) (conflicted_of (group_events events [] []))
    conflicted-Checked events checked =
        let g = group_events events [] [] in
        let a = group_events-AreGroups (λ _. false) events [] [] no_AreGroups in
        All-states (IsChecked verify_json Q) (conflicted_of g)
          (lists-Kept IsState g (IsGroup-states g a.keyed)).0
          (lists-Kept (StateIsChecked verify_json Q) g
            (group_events-Kept (StateIsChecked verify_json Q) events [] [] checked tt)).0

    resolve_v1-Resolves :
        (events auth_events : List Event) (known : ResolvedAuthEvents)
        → All (StateIsChecked verify_json Q) (first_by_id events [])
        → add_auth_events auth_events no_auth_events ≡ ok known
        → Q known
        → (result : List Event) × (resolve_by verify_json sha1 fuel StateResAlgorithm.v1
              (conflicted_of (group_events events [] []))
              (not_conflicted_of (group_events events [] []))
              auth_events
            ≡ ok result)
          × IsResolution (first_by_id events []) result
    resolve_v1-Resolves events auth_events known checked loaded q =
        let g = group_events events [] [] in
        let (resolved, h, r) =
          resolve_state_conflicts-Resolves verify_json sha1 Q (conflicted_of g) auth_events known
            (conflicted-Checked events checked) loaded q in
        let last = ok->>= h (λ resolved. ok (resolved ++ not_conflicted_of g)) in
        (
          resolved ++ not_conflicted_of g,
          last,
          resolve_v1-once verify_json sha1 fuel events auth_events _ last,
        )

    -- Let the algorithm of the room version be the first one, let a property of the resolved auth
    -- events hold once the auth events are added, and let every state event among the first events
    -- of each ID keep the property when it is added or removed and have auth checks, by resolved
    -- events with the property, that do not panic. Then ResolveConflicts returns; of those events of
    -- different IDs its result holds one for each type and state key and none for another, and what
    -- holds of every one of them holds of every event of the result.
    pub resolve_conflicts-Resolves :
        (version : String) (events auth_events : List Event) (known : ResolvedAuthEvents)
        → state_res_algorithm version ≡ ok StateResAlgorithm.v1
        → All (StateIsChecked verify_json Q) (first_by_id events [])
        → add_auth_events auth_events no_auth_events ≡ ok known
        → Q known
        → (result : List Event) × (resolve_conflicts verify_json sha1 fuel version events
              auth_events
            ≡ ok result)
          × IsResolution (first_by_id events []) result
    unfolding resolve_conflicts
    resolve_conflicts-Resolves version events auth_events known v checked loaded q =
        let (result, h, r) = resolve_v1-Resolves events auth_events known checked loaded q in
        (result, ok->>= v _ ∙ h, r)
