-- ===== src/ResolutionV1/Total.antt =====
-- ResolveStateConflicts of stateresolution.go: it returns, and what it returns.
use gomatrixserverlib.Prelude.{ℕ, suc, ◌≡◌, ap, ◌∙◌, subst, List, [], ◌∷◌, ◌++◌, All, All-imp, any}
use gomatrixserverlib.Result.{Result, ok, ok->>=}
use gomatrixserverlib.Event.{Event}
use gomatrixserverlib.Auth.Membership.Checks.{VerifyJson}
use gomatrixserverlib.ResolutionV1.{
  third_party_invites_list, members_list, others_list, Destination, creates_block,
  power_levels_block, join_rules_block, block_in, StateResolverV1, ResolvedAuthEvents, Offsets,
  no_auth_events,
}
use gomatrixserverlib.ResolutionV1.Blocks.{
  Sha1, add_auth_events, resolve_and_add_auth_blocks, resolve_auth_types, resolve_others,
  resolve_state_conflicts,
}
use gomatrixserverlib.ResolutionV1.Grouped.{Groups, blocks}
use gomatrixserverlib.ResolutionV1.Represents.{rank, Seen, IsCounted}
use gomatrixserverlib.ResolutionV1.Collected.{has_key, IsState, InGroups, add_conflicted-IsGrouped}
use gomatrixserverlib.ResolutionV1.OnePerKey.{
  Progress, resolve_and_add-Progress, start-Progress, IsResolution,
  resolve_state_conflicts-IsResolution,
}
use gomatrixserverlib.ResolutionV1.Returns.{
  Returns, Yields, IsChecked, resolve_blocks-Yields, resolve_others-Returns, add_auth_events-Yields,
}

module _ (verify_json : VerifyJson) (sha1 : Sha1) (Q : ResolvedAuthEvents → Type 0) where
  module _ (seen : Seen) (offsets : Offsets) (g : Destination → Groups) (c : IsCounted seen g)
      (kept : InGroups (IsChecked verify_json Q) g) where
    abbrev Before : ℕ → StateResolverV1 → Type 0
    Before n r =
        Progress (IsChecked verify_json Q) verify_json sha1 seen offsets g c kept n r × Q r.resolved

    -- One type after the other, with what holds after each.
    abbrev Step : ℕ → Result StateResolverV1 → Type 0
    Step n = Yields (Before n)

    step :
        (d : Destination) (new : List (List Event)) (r : StateResolverV1)
        → blocks (g d) ≡ new
        → Before (rank d) r
        → Step (suc (rank d)) (resolve_and_add_auth_blocks verify_json sha1 new r)
    unfolding resolve_and_add_auth_blocks
    step d new r same (p, q) =
        let (chosen, found, (checked, q_chosen)) =
          resolve_blocks-Yields verify_json Q sha1 (g d) r.resolved q (kept d) in
        let (known, added, q_known) =
          add_auth_events-Yields verify_json Q chosen.0 chosen.1 q_chosen checked in
        let next : StateResolverV1 = record r { resolved = known; result = r.result ++ chosen.0 } in
        let h : resolve_and_add_auth_blocks verify_json sha1 new r ≡ ok next =
          rw⁻¹ same (ok->>= found _ ∙ ok->>= added _) in
        (
          next,
          h,
          (
            resolve_and_add-Progress (IsChecked verify_json Q) verify_json sha1 seen offsets g c
                kept d new r next same p h,
            q_known,
          ),
        )

    auth_types-Step :
        (r : StateResolverV1) → Before 0 r → Step 5 (resolve_auth_types verify_json sha1 r)
    unfolding resolve_auth_types
    auth_types-Step r b0 =
        let (r1, h1, b1) =
          step creates_block (r.creates ∷ []) r (ap blocks ((b0.0).stored).creates) b0 in
        let (r2, h2, b2) =
          step power_levels_block (r1.power_levels ∷ []) r1 (ap blocks ((b1.0).stored).power_levels)
            b1 in
        let (r3, h3, b3) =
          step join_rules_block (r2.join_rules ∷ []) r2 (ap blocks ((b2.0).stored).join_rules) b2 in
        let (r4, h4, b4) =
          step (block_in third_party_invites_list) r3.third_party_invites r3
            (((b3.0).stored).lists third_party_invites_list) b3 in
        let (r5, h5, b5) =
          step (block_in members_list) r4.members r4 (((b4.0).stored).lists members_list) b4 in
        (r5, ok->>= h1 _ ∙ ok->>= h2 _ ∙ ok->>= h3 _ ∙ ok->>= h4 _ ∙ h5, b5)

  resolve_state_conflicts-Returns :
      (conflicted auth_events : List Event) (known : ResolvedAuthEvents)
      → All (IsChecked verify_json Q) conflicted
      → add_auth_events auth_events no_auth_events ≡ ok known
      → Q known
      → Returns (resolve_state_conflicts verify_json sha1 conflicted auth_events)
  unfolding resolve_state_conflicts
  resolve_state_conflicts-Returns conflicted auth_events known checked loaded q =
      let state = All-imp (IsChecked verify_json Q) IsState (λ e k. k.state) conflicted checked in
      let (grouped, found, fresh, no_result, parts) =
        add_conflicted-IsGrouped (IsChecked verify_json Q) conflicted state checked in
      let seen : Seen = λ k. any (has_key k) conflicted in
      let h = ap (add_auth_events auth_events) fresh ∙ loaded in
      let (r, h5, b5) =
        auth_types-Step seen parts.offsets parts.groups parts.counted parts.kept
          (record grouped { resolved = known })
          (
            start-Progress (IsChecked verify_json Q) verify_json sha1 seen parts.offsets
                parts.groups parts.counted parts.kept grouped known parts.stored no_result,
            q,
          ) in
      let (others, last) =
        subst (λ x. Returns (resolve_others verify_json sha1 x r.resolved))
          (((b5.0).stored).lists others_list)
          (resolve_others-Returns verify_json Q sha1 (parts.groups (block_in others_list))
            r.resolved b5.1 (parts.filled others_list) (parts.kept (block_in others_list))) in
      (r.result ++ others, ok->>= found _ ∙ ok->>= h _ ∙ ok->>= h5 _ ∙ ok->>= last _)

  -- Let a property of the resolved auth events hold once the auth events are added, and let every
  -- conflicted event be a state event that keeps the property when it is added or removed and whose
  -- auth checks, by resolved events with the property, do not panic. Then ResolveStateConflicts
  -- returns; its result holds one event for each type and state key that the conflicted events have
  -- and none for another, and what holds of every conflicted event holds of every event of the result.
  pub resolve_state_conflicts-Resolves :
      (conflicted auth_events : List Event) (known : ResolvedAuthEvents)
      → All (IsChecked verify_json Q) conflicted
      → add_auth_events auth_events no_auth_events ≡ ok known
      → Q known
      → (result : List Event) × (resolve_state_conflicts verify_json sha1 conflicted auth_events
          ≡ ok result)
        × IsResolution conflicted result
  resolve_state_conflicts-Resolves conflicted auth_events known checked loaded q =
      let (result, h) =
        resolve_state_conflicts-Returns conflicted auth_events known checked loaded q in
      let state = All-imp (IsChecked verify_json Q) IsState (λ e k. k.state) conflicted checked in
      (
        result,
        h,
        resolve_state_conflicts-IsResolution verify_json sha1 conflicted auth_events result state h,
      )
