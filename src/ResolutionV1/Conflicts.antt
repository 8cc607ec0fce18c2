-- ===== src/ResolutionV1/Conflicts.antt =====
-- ResolveStateConflicts of stateresolution.go: which events are resolved.
use gomatrixserverlib.Prelude.{
  ◌≡◌, refl, ap, subst, Option, none, some, List, [], ◌∷◌, All, map, map-All,
}
use gomatrixserverlib.Prelude.Sort.{sort_by, All-sort_by}
use gomatrixserverlib.Result.{Result, Check, ok, err, panic, ◌>>=◌, >>=-eq-ok, ok_inj}
use gomatrixserverlib.Event.{Event}
use gomatrixserverlib.Auth.Membership.Checks.{VerifyJson}
use gomatrixserverlib.Auth.Allowed.{allowed_by}
use gomatrixserverlib.ResolutionV1.{
  ResolvedAuthEvents, deref, add_auth_event, remove_auth_event, resolver_v1_provider,
}
use gomatrixserverlib.ResolutionV1.Blocks.{
  consider, Sha1, ConflictedEvent, conflicted_event, conflicted_less,
  sort_conflicted_events_by_depth_and_sha1, next_candidates, resolve_sorted, newest_allowed,
  try_event, or_oldest, resolve_normal_sorted, resolve_auth_block, resolve_normal_block,
}

-- What holds of every event of a block holds of the one that it is resolved to.
module _ {κ} (P : Event → Type κ) (verify_json : VerifyJson) where
  abbrev Conflicted : ConflictedEvent → Type κ
  Conflicted x = P x.event

  consider-P :
      (candidate : Event) (r : ResolvedAuthEvents) (later : Result (Event × ResolvedAuthEvents))
      (verdict : Check) (last : Event × ResolvedAuthEvents)
      → P candidate
      → (later ≡ ok last → P last.0)
      → consider verify_json candidate r later verdict ≡ ok last
      → P last.0
  consider-P candidate r later (ok u) last p ps h = ps h
  consider-P candidate r later (err e) last p ps h = rw⁻¹ (ok_inj h) p
  consider-P candidate r later panic last p ps h = cc

  pub next_candidates-P :
      (candidate : Event) (block : List ConflictedEvent) (r : ResolvedAuthEvents)
      (last : Event × ResolvedAuthEvents)
      → P candidate
      → All Conflicted block
      → next_candidates verify_json candidate block r ≡ ok last
      → P last.0
  unfolding next_candidates
  next_candidates-P candidate [] r last p ps h = rw⁻¹ (ok_inj h) p
  next_candidates-P candidate (next ∷ block) r last p ps h =
      consider-P candidate r
        (add_auth_event next.event r >>= next_candidates verify_json next.event block)
        (allowed_by verify_json (resolver_v1_provider r) next.event) last p
        (λ later.
          let (after, _, rest) =
            >>=-eq-ok (add_auth_event next.event r) (next_candidates verify_json next.event block)
              later in
          next_candidates-P next.event block after last ps.0 ps.1 rest)
        h

  resolve_sorted-P :
      (block : List ConflictedEvent) (r : ResolvedAuthEvents) (last : Event × ResolvedAuthEvents)
      → All Conflicted block
      → resolve_sorted verify_json block r ≡ ok last
      → P last.0
  resolve_sorted-P [] r last ps h = cc
  resolve_sorted-P (oldest ∷ block) r last ps h =
      let (chosen, found, done) =
        >>=-eq-ok (add_auth_event oldest.event r >>= next_candidates verify_json oldest.event block)
          (λ c. deref (c.0).state_key >>= λ sk. ok (c.0, remove_auth_event (c.0).event_type sk c.1))
          h in
      let (after, _, loop) =
        >>=-eq-ok (add_auth_event oldest.event r) (next_candidates verify_json oldest.event block)
          found in
      let (sk, _, same) =
        >>=-eq-ok (deref (chosen.0).state_key)
          (λ sk. ok (chosen.0, remove_auth_event (chosen.0).event_type sk chosen.1)) done in
      subst P (ap (λ c. c.0) (ok_inj same))
        (next_candidates-P oldest.event block after chosen ps.0 ps.1 loop)

  try_event-P :
      (event oldest : Event) (found last : Option Event) (verdict : Check)
      → P event
      → P oldest
      → P (or_oldest verify_json oldest found)
      → try_event verify_json event found verdict ≡ ok last
      → P (or_oldest verify_json oldest last)
  try_event-P event oldest (some e) last verdict p o f h = rw⁻¹ (ok_inj h) f
  try_event-P event oldest none last (ok u) p o f h = rw⁻¹ (ok_inj h) p
  try_event-P event oldest none last (err e) p o f h = rw⁻¹ (ok_inj h) o
  try_event-P event oldest none last panic p o f h = cc

  newest_allowed-P :
      (block : List ConflictedEvent) (r : ResolvedAuthEvents) (oldest : Event)
      (found : Option Event)
      → P oldest
      → All Conflicted block
      → newest_allowed verify_json block r ≡ ok found
      → P (or_oldest verify_json oldest found)
  unfolding newest_allowed
  newest_allowed-P [] r oldest found p ps h = rw⁻¹ (ok_inj h) p
  newest_allowed-P (next ∷ block) r oldest found p ps h =
      let verdict = allowed_by verify_json (resolver_v1_provider r) next.event in
      let (before, first, done) =
        >>=-eq-ok (newest_allowed verify_json block r)
          (λ f. try_event verify_json next.event f verdict) h in
      try_event-P next.event oldest before found verdict ps.0 p
        (newest_allowed-P block r oldest before p ps.1 first) done

  resolve_normal_sorted-P :
      (block : List ConflictedEvent) (r : ResolvedAuthEvents) (last : Event)
      → All Conflicted block
      → resolve_normal_sorted verify_json block r ≡ ok last
      → P last
  resolve_normal_sorted-P [] r last ps h = cc
  resolve_normal_sorted-P (oldest ∷ block) r last ps h =
      let (found, first, done) =
        >>=-eq-ok (newest_allowed verify_json block r)
          (λ f. ok (or_oldest verify_json oldest.event f)) h in
      subst P (ok_inj done) (newest_allowed-P block r oldest.event found ps.0 ps.1 first)

  module _ (sha1 : Sha1) where
    pub sorted-P :
        (events : List Event)
        → All P events
        → All Conflicted (sort_conflicted_events_by_depth_and_sha1 sha1 events)
    unfolding sort_conflicted_events_by_depth_and_sha1
    sorted-P events ps =
        All-sort_by Conflicted conflicted_less (map (conflicted_event sha1) events)
          (map-All Conflicted (conflicted_event sha1) events ps)

    pub resolve_auth_block-P :
        (block : List Event) (r : ResolvedAuthEvents) (last : Event × ResolvedAuthEvents)
        → All P block
        → resolve_auth_block verify_json sha1 block r ≡ ok last
        → P last.0
    unfolding resolve_auth_block
    resolve_auth_block-P block r last ps h =
        resolve_sorted-P (sort_conflicted_events_by_depth_and_sha1 sha1 block) r last
          (sorted-P block ps) h

    pub resolve_normal_block-P :
        (block : List Event) (r : ResolvedAuthEvents) (last : Event)
        → All P block
        → resolve_normal_block verify_json sha1 block r ≡ ok last
        → P last
    unfolding resolve_normal_block
    resolve_normal_block-P block r last ps h =
        resolve_normal_sorted-P (sort_conflicted_events_by_depth_and_sha1 sha1 block) r last
          (sorted-P block ps) h

pub resolve_normal_block-nil :
    (verify_json : VerifyJson) (sha1 : Sha1) (r : ResolvedAuthEvents)
    → resolve_normal_block verify_json sha1 [] r ≡ panic
unfolding resolve_normal_block sort_conflicted_events_by_depth_and_sha1 sort_by
resolve_normal_block-nil verify_json sha1 r = refl
