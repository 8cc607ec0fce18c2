-- ===== src/ResolutionV1/Blocks.antt =====
-- stateresolution.go: how the blocks of conflicted events are sorted and resolved, and
-- `ResolveStateConflicts`. The SHA-1 digest of an event ID is a parameter, a list of bytes.
use gomatrixserverlib.Prelude.{
  ℕ, ltb, Bool, true, false, Option, none, some, List, [], ◌∷◌, ◌++◌, String, if◌then◌else◌, map,
}
use gomatrixserverlib.Prelude.Int.{ℤ, ltb_ℤ, eq_ℤ}
use gomatrixserverlib.Prelude.Sort.{sort_by}
use gomatrixserverlib.Result.{Check, Result, ok, err, panic, ◌>>=◌}
use gomatrixserverlib.Event.{Event}
use gomatrixserverlib.Auth.Membership.Checks.{VerifyJson}
use gomatrixserverlib.Auth.Allowed.{allowed_by}
use gomatrixserverlib.ResolutionV1.{
  ResolvedAuthEvents, StateResolverV1, empty_resolver, resolver_v1_provider, deref, add_conflicted,
  add_auth_event, remove_auth_event,
}

pub record ConflictedEvent : Type 0 where
  pub depth : ℤ
  pub event_id_sha1 : List ℕ
  pub event : Event

-- `bytes.Compare(a, b) < 0`
unfoldable pub bytes_less : List ℕ → List ℕ → Bool
bytes_less [] [] = false
bytes_less [] (y ∷ ys) = true
bytes_less (x ∷ xs) [] = false
bytes_less (x ∷ xs) (y ∷ ys) =
    let rest = bytes_less xs ys in if ltb x y then true else if ltb y x then false else rest

-- `Less` of conflictedEventSorter
unfoldable pub conflicted_less : ConflictedEvent → ConflictedEvent → Bool
conflicted_less x y =
    if eq_ℤ x.depth y.depth
    then bytes_less y.event_id_sha1 x.event_id_sha1
    else ltb_ℤ x.depth y.depth

abbrev pub Sha1 : Type 0
Sha1 = String → List ℕ

abbrev pub conflicted_event : Sha1 → Event → ConflictedEvent
conflicted_event sha1 event = record {
  depth = event.depth;
  event_id_sha1 = sha1 event.event_id;
  event = event;
}

unfoldable pub sort_conflicted_events_by_depth_and_sha1 : Sha1 → List Event → List ConflictedEvent
sort_conflicted_events_by_depth_and_sha1 sha1 events =
    sort_by conflicted_less (map (conflicted_event sha1) events)

unfoldable pub add_auth_events : List Event → ResolvedAuthEvents → Result ResolvedAuthEvents
add_auth_events [] r = ok r
add_auth_events (event ∷ events) r = add_auth_event event r >>= add_auth_events events

module _ (verify_json : VerifyJson) where
  -- The loop of resolveAuthBlock: the candidate is among the auth events, and the verdict is on the
  -- next event.
  abbrev pub consider :
      Event
      → ResolvedAuthEvents
      → Result (Event × ResolvedAuthEvents)
      → Check
      → Result (Event × ResolvedAuthEvents)
  consider candidate r later (ok _) = later
  consider candidate r later (err _) = ok (candidate, r)
  consider candidate r later panic = panic

  unfoldable pub next_candidates :
      Event → List ConflictedEvent → ResolvedAuthEvents → Result (Event × ResolvedAuthEvents)
  next_candidates candidate [] r = ok (candidate, r)
  next_candidates candidate (next ∷ block) r =
      consider candidate r (add_auth_event next.event r >>= next_candidates next.event block)
        (allowed_by verify_json (resolver_v1_provider r) next.event)

  abbrev pub resolve_sorted :
      List ConflictedEvent → ResolvedAuthEvents → Result (Event × ResolvedAuthEvents)
  resolve_sorted [] r = panic
  resolve_sorted (oldest ∷ block) r =
      add_auth_event oldest.event r >>= next_candidates oldest.event block >>= λ last.
      deref (last.0).state_key >>= λ sk.
      ok (last.0, remove_auth_event (last.0).event_type sk last.1)

  -- The loop of resolveNormalBlock: the events are tried from the last one down, and the first that
  -- passes is the result.
  abbrev pub try_event : Event → Option Event → Check → Result (Option Event)
  try_event event (some found) verdict = ok (some found)
  try_event event none (ok _) = ok (some event)
  try_event event none (err _) = ok none
  try_event event none panic = panic

  unfoldable pub newest_allowed : List ConflictedEvent → ResolvedAuthEvents → Result (Option Event)
  newest_allowed [] r = ok none
  newest_allowed (next ∷ block) r = newest_allowed block r >>= λ found.
      try_event next.event found (allowed_by verify_json (resolver_v1_provider r) next.event)

  abbrev pub or_oldest : Event → Option Event → Event
  or_oldest oldest none = oldest
  or_oldest oldest (some found) = found

  abbrev pub resolve_normal_sorted : List ConflictedEvent → ResolvedAuthEvents → Result Event
  resolve_normal_sorted [] r = panic
  resolve_normal_sorted (oldest ∷ block) r =
      newest_allowed block r >>= λ found. ok (or_oldest oldest.event found)

  module _ (sha1 : Sha1) where
    unfoldable pub resolve_auth_block :
        List Event → ResolvedAuthEvents → Result (Event × ResolvedAuthEvents)
    unfolding sort_conflicted_events_by_depth_and_sha1 next_candidates
    resolve_auth_block events r =
        resolve_sorted (sort_conflicted_events_by_depth_and_sha1 sha1 events) r

    unfoldable pub resolve_normal_block : List Event → ResolvedAuthEvents → Result Event
    unfolding sort_conflicted_events_by_depth_and_sha1 newest_allowed
    resolve_normal_block events r =
        resolve_normal_sorted (sort_conflicted_events_by_depth_and_sha1 sha1 events) r

    -- The first loop of resolveAndAddAuthBlocks, with the events that it appends to the result.
    unfoldable pub resolve_blocks :
        List (List Event) → ResolvedAuthEvents → Result (List Event × ResolvedAuthEvents)
    resolve_blocks [] r = ok ([], r)
    resolve_blocks ([] ∷ blocks) r = resolve_blocks blocks r
    resolve_blocks ((event ∷ block) ∷ blocks) r = resolve_auth_block (event ∷ block) r >>= λ chosen.
        resolve_blocks blocks chosen.1 >>= λ rest. ok (chosen.0 ∷ rest.0, rest.1)

    unfoldable pub resolve_and_add_auth_blocks :
        List (List Event) → StateResolverV1 → Result StateResolverV1
    unfolding resolve_blocks
    resolve_and_add_auth_blocks blocks r = resolve_blocks blocks r.resolved >>= λ chosen.
        add_auth_events chosen.0 chosen.1 >>= λ known.
        ok (record r { resolved = known; result = r.result ++ chosen.0 })

    -- The last loop of ResolveStateConflicts, with the events that it appends to the result.
    unfoldable pub resolve_others : List (List Event) → ResolvedAuthEvents → Result (List Event)
    resolve_others [] r = ok []
    resolve_others (block ∷ blocks) r = resolve_normal_block block r >>= λ event.
        resolve_others blocks r >>= λ events. ok (event ∷ events)

    -- The conflicted auth events are resolved, one type after the other.
    unfoldable pub resolve_auth_types : StateResolverV1 → Result StateResolverV1
    resolve_auth_types r = do
      after_creates ← resolve_and_add_auth_blocks (r.creates ∷ []) r
      after_levels ← resolve_and_add_auth_blocks (after_creates.power_levels ∷ []) after_creates
      after_rules ← resolve_and_add_auth_blocks (after_levels.join_rules ∷ []) after_levels
      after_invites ← resolve_and_add_auth_blocks after_rules.third_party_invites after_rules
      resolve_and_add_auth_blocks after_invites.members after_invites

    unfoldable pub resolve_state_conflicts : List Event → List Event → Result (List Event)
    resolve_state_conflicts conflicted auth_events = do
      grouped ← add_conflicted conflicted empty_resolver
      known ← add_auth_events auth_events grouped.resolved
      r ← resolve_auth_types (record grouped { resolved = known })
      others ← resolve_others r.others r.resolved
      ok (r.result ++ others)
